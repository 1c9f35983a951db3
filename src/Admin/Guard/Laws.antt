-- ===== src/Admin/Guard/Laws.antt =====
-- What the `before` hook refuses.
use semantius_idp.Prelude.{
  Text, has_text, In, In-keep_iff, true, false, not, none, some, List, ◌∷◌, ◌≡◌, inl, inr, subst,
  List-cases, cons_of_In, arith,
}
use semantius_idp.Js.{obj, Fields, keys, as_text, truthy}
use semantius_idp.Admin.{AdminUser, AdminAction, assert_admin_invariants}
use semantius_idp.Admin.Action.{
  AdminPath, update_user, impersonate_user, stop_impersonating, admin_path, is_guarded, AdminBody,
  action, action_for_path, refused_update_user_fields, update_user_allowed_fields,
}
use semantius_idp.Admin.Guard.{
  GuardEnv, Session, field_not_allowed, impersonation_disabled, admin_guard, guard_path,
  guard_action,
}

module _ (env : GuardEnv) (path : Text) (body : AdminBody) where
  -- With impersonation off, the endpoint is refused whoever asks, and nothing is recorded.
  pub impersonation_off :
      env.allow_impersonation ≡ false
      → admin_path path ≡ impersonate_user
      → (admin_guard env path body).refusal ≡ some impersonation_disabled
  unfolding admin_guard is_guarded
  impersonation_off off p = ground arith

  guard_action-enforces :
      (act : AdminAction) (id : Text) (session : Session) (target : AdminUser)
      → (guard_action env body (action act)).refusal ≡ none
      → truthy (as_text body.user_id) ≡ some id
      → env.has_database ≡ true
      → env.session ≡ some session
      → env.find_user id ≡ some target
      → assert_admin_invariants env.now session.user target act env.admin_roles env.admins ≡ none
  unfolding guard_action
  guard_action-enforces act id session target passed t db s f = ground arith

  guard_path-through :
      (p : AdminPath) (act : AdminAction)
      → (guard_path env p body).refusal ≡ none
      → action_for_path p body ≡ action act
      → (guard_action env body (action act)).refusal ≡ none
  unfolding guard_path action_for_path
  guard_path-through update_user act passed a =
      elim (List-cases (refused_update_user_fields body.payload)) [
        | inl e ↦ ground (arith, e)
        | inr (y, ys, e) ↦ ground (arith, e)
      ]
  guard_path-through stop_impersonating act passed a = cc
  guard_path-through p act passed a = ground arith

  -- Where the hook lets a request through that has an action, a target and a session, the rules
  -- let the action through.
  pub guard-enforces :
      (act : AdminAction) (id : Text) (session : Session) (target : AdminUser)
      → (admin_guard env path body).refusal ≡ none
      → action_for_path (admin_path path) body ≡ action act
      → truthy (as_text body.user_id) ≡ some id
      → env.has_database ≡ true
      → env.session ≡ some session
      → env.find_user id ≡ some target
      → assert_admin_invariants env.now session.user target act env.admin_roles env.admins ≡ none
  unfolding admin_guard is_guarded action_for_path
  guard-enforces act id session target passed a t db s f =
      let through = guard_path-through (admin_path path) act (ground arith) a in
      guard_action-enforces act id session target through t db s f

  -- A column outside the list is refused whatever else the patch holds, before any rule is read.
  pub unknown_field_refused :
      (field : Text) (fs : Fields)
      → admin_path path ≡ update_user
      → body.payload ≡ some (obj fs)
      → In field (keys fs)
      → has_text update_user_allowed_fields field ≡ false
      → (refused : List Text) × ((admin_guard env path body).refusal
          ≡ some (field_not_allowed refused))
        × In field refused
  unfolding admin_guard is_guarded refused_update_user_fields
  unknown_field_refused field fs p b m n =
      let found =
        (In-keep_iff (λ f. not (has_text update_user_allowed_fields f)) field (keys fs)).1
          (m, ground arith) in
      let (y, ys, e) = cons_of_In field _ found in
      (y ∷ ys, ground (arith, e), subst (λ l. In field l) e found)
