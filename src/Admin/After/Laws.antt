-- ===== src/Admin/After/Laws.antt =====
-- What the `after` hook records, revokes and forgets.
use semantius_idp.Prelude.{
  Text, In, Bool, true, Option, none, some, or_option, [], ◌∷◌, ◌≡◌, inl, inr, refl, subst, arith,
  if◌then◌else◌, ◌&&◌, ◌||◌, Bool-cases, Option-cases,
}
use semantius_idp.Js.{as_text, truthy}
use semantius_idp.Admin.{AdminAction}
use semantius_idp.Admin.Action.{
  AdminPath, stop_impersonating, unban_user, admin_path, is_guarded, AdminBody, action,
  action_for_path,
}
use semantius_idp.Admin.Guard.{
  impersonation_stopped, audit_action_for, nothing, success, Ending, Session, GuardEnv, admin_guard,
}
use semantius_idp.Admin.After.{
  is_unban, Returned, api_error, returned, Caller, ends_access, audit_metadata_for, plain_audit_for,
  after_target, after_write, admin_after,
}

module _ (has_database : Bool) (caller : Caller) (path : Text) (body : AdminBody) where
  -- A completed action on a user empties the gateway cache, writes one row for the action and its
  -- target, and revokes the target's tokens exactly when the action ends access.
  pub completed_action :
      (created : Option Text) (act : AdminAction) (id : Text)
      → action_for_path (admin_path path) body ≡ action act
      → truthy (as_text body.user_id) ≡ some id
      → admin_after has_database caller path body (returned created) none ≡ record {
        cache_reset = true;
        audit =
            record {
              event = audit_action_for act;
              outcome = success;
              by_api_key = caller.by_api_key;
              actor_user_id = caller.actor_id;
              target_id = id;
              metadata = audit_metadata_for (admin_path path) act body;
            }
            ∷ [];
        revoked = if ends_access act && has_database then id ∷ [] else [];
      }
  unfolding admin_after action_for_path is_guarded plain_audit_for
  completed_action created act id a t = ground arith

  after_target-reset :
      (reset : Bool) (p : AdminPath) (id : Option Text)
      → (after_target has_database caller reset p body id).cache_reset ≡ reset
  unfolding after_target
  after_target-reset reset p none = refl
  after_target-reset reset unban_user (some id) = refl
  after_target-reset reset p (some id) = ground arith

  after_write-reset :
      (reset : Bool) (p : AdminPath) (created : Option Text) (ending : Option Ending)
      → (after_write has_database caller reset p body created ending).cache_reset ≡ reset
  unfolding after_write
  after_write-reset reset p created ending =
      elim (Option-cases (plain_audit_for p created body ending)) [
        | inl e ↦ rw (e, after_write) (after_target-reset reset p (truthy (as_text body.user_id)))
        | inr (a, e) ↦ rw (e, after_write) refl
      ]

  -- Tokens are never revoked with the cache left in place.
  pub revoked_resets :
      (r : Returned) (ending : Option Ending) (id : Text)
      → In id (admin_after has_database caller path body r ending).revoked
      → (admin_after has_database caller path body r ending).cache_reset ≡ true
  unfolding admin_after is_guarded
  revoked_resets api_error ending id m = absurd m
  revoked_resets (returned created) ending id m =
      elim (Bool-cases
        (is_unban has_database caller (admin_path path) || is_guarded (admin_path path))) [
          | inl e ↦ ground (arith, e, after_write-reset true (admin_path path) created ending)
          | inr e ↦
              let quiet : (admin_after has_database caller path body (returned created)
                    ending).revoked
                  ≡ [] =
                ground (arith, e) in
              absurd (subst (λ l. In id l) quiet m)
        ]

  -- The row of an ended impersonation names the person who was impersonated, which only the before
  -- hook could read, and the administrator who started it.
  pub ending_paired :
      (env : GuardEnv) (session : Session) (created : Option Text)
      → admin_path path ≡ stop_impersonating
      → env.session ≡ some session
      → (admin_after has_database caller path body
          (returned created)
          (admin_guard env path body).ending).audit
        ≡ record {
          event = impersonation_stopped;
          outcome = success;
          by_api_key = caller.by_api_key;
          actor_user_id = or_option session.impersonated_by caller.actor_id;
          target_id = session.user.id;
          metadata = nothing;
        }
          ∷ []
  unfolding admin_after admin_guard is_guarded plain_audit_for
  ending_paired env session created p s = ground arith
