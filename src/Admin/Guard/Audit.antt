-- ===== src/Admin/Guard/Audit.antt =====
-- What the `before` hook leaves in the audit trail.
use semantius_idp.Prelude.{
  Text, Option, none, some, List, [], ◌∷◌, ◌≡◌, inl, inr, refl, List-cases, Bool-cases,
  Option-cases,
}
use semantius_idp.Js.{as_text, truthy}
use semantius_idp.Admin.{AdminUser, AdminAction, assert_admin_invariants}
use semantius_idp.Admin.Action.{
  AdminPath, update_user, impersonate_user, stop_impersonating, admin_path, is_guarded, AdminBody,
  Verdict, action, no_action, type_error, action_for_path, refused_update_user_fields,
}
use semantius_idp.Admin.Guard.{
  AuditRow, GuardEnv, GuardResult, Session, Refusal, invariant, denied, reason, admin_guard,
  guard_path, remember_ending, guard_action, check_invariants, guard_target, guard_fields,
}

-- A refusal by a rule comes with one row, denied, that names the rule's code; any other outcome
-- leaves no row.
abbrev pub IsAudited : Option Refusal → List AuditRow → Type 0
IsAudited (some (invariant code)) [] = ⊥
IsAudited (some (invariant code)) (row ∷ []) = (row.outcome ≡ denied) × (row.metadata ≡ reason code)
IsAudited (some (invariant code)) (row ∷ next ∷ rows) = ⊥
IsAudited _ [] = Unit
IsAudited _ (row ∷ rows) = ⊥

abbrev IsAuditedResult : GuardResult → Type 0
IsAuditedResult r = IsAudited r.refusal r.audit

check-IsAudited :
    (env : GuardEnv) (session : Session) (target : AdminUser) (id : Text) (act : AdminAction)
    → IsAuditedResult (check_invariants env session target id act)
unfolding check_invariants
check-IsAudited env session target id act =
    elim (Option-cases
      (assert_admin_invariants env.now session.user target act env.admin_roles env.admins)) [
        | inl e ↦ rw (e, check_invariants) tt
        | inr (code, e) ↦ rw (e, check_invariants) (refl, refl)
      ]

guard_target-IsAudited :
    (env : GuardEnv) (id : Option Text) (act : AdminAction)
    → IsAuditedResult (guard_target env id act)
unfolding guard_target
guard_target-IsAudited env none act = tt
guard_target-IsAudited env (some id) act = elim (Bool-cases env.has_database) [
  | inr e ↦ rw e tt
  | inl e ↦ elim (Option-cases env.session) [
    | inl s ↦ rw (e, s, guard_target) tt
    | inr (session, s) ↦ elim (Option-cases (env.find_user id)) [
      | inl f ↦ rw (e, s, f, guard_target) tt
      | inr (target, f) ↦ rw (e, s, f, guard_target) (check-IsAudited env session target id act)
    ]
  ]
]

guard_action-IsAudited :
    (env : GuardEnv) (body : AdminBody) (v : Verdict) → IsAuditedResult (guard_action env body v)
unfolding guard_action
guard_action-IsAudited env body (action act) =
    guard_target-IsAudited env (truthy (as_text body.user_id)) act
guard_action-IsAudited env body no_action = tt
guard_action-IsAudited env body type_error = tt

guard_fields-IsAudited :
    (env : GuardEnv) (p : AdminPath) (body : AdminBody) → IsAuditedResult (guard_fields env p body)
unfolding guard_fields
guard_fields-IsAudited env update_user body =
    elim (List-cases (refused_update_user_fields body.payload)) [
      | inl e ↦ rw (e, guard_fields) (guard_action-IsAudited env body _)
      | inr (f, fs, e) ↦ rw (e, guard_fields) tt
    ]
guard_fields-IsAudited env p body = guard_action-IsAudited env body (action_for_path p body)

remember-IsAudited : (s : Option Session) → IsAuditedResult (remember_ending s)
unfolding remember_ending
remember-IsAudited none = tt
remember-IsAudited (some s) = tt

guard_path-IsAudited :
    (env : GuardEnv) (p : AdminPath) (body : AdminBody) → IsAuditedResult (guard_path env p body)
unfolding guard_path
guard_path-IsAudited env stop_impersonating body = remember-IsAudited env.session
guard_path-IsAudited env impersonate_user body = elim (Bool-cases env.allow_impersonation) [
  | inl e ↦ rw e (guard_fields-IsAudited env impersonate_user body)
  | inr e ↦ rw e tt
]
guard_path-IsAudited env p body = guard_fields-IsAudited env p body

-- Whatever the request: the hook records a denial exactly for a refusal by a rule, as one row
-- that names the rule's code.
pub admin_guard-IsAudited :
    (env : GuardEnv) (path : Text) (body : AdminBody)
    → IsAudited (admin_guard env path body).refusal (admin_guard env path body).audit
unfolding admin_guard
admin_guard-IsAudited env path body = elim (Bool-cases (is_guarded (admin_path path))) [
  | inl e ↦ rw e (guard_path-IsAudited env (admin_path path) body)
  | inr e ↦ rw e tt
]
