-- ===== src/Admin/Guard.antt =====
-- The `before` hook of apps/web/src/server/admin/guard.ts: `buildAdminGuard`.
pub mod Laws
pub mod Audit
use semantius_idp.Prelude.{
  ℕ, Text, String, codes, Bool, not, Option, none, some, if◌then◌else◌, List, [], ◌∷◌,
}
use semantius_idp.Js.{
  Value, null, bool, num, str, arr, obj, Items, nil, cons, Fields, end, get, keys, items, as_text,
  truthy,
}
use semantius_idp.Admin.{
  AdminUser, AdminAction, set_role, ban, delete, reject, impersonate, unban, InvariantCode,
  assert_admin_invariants,
}
use semantius_idp.Standing.{status_active}
use semantius_idp.Admin.Action.{
  AdminPath, update_user, impersonate_user, stop_impersonating, admin_path, is_guarded, AdminBody,
  action, no_action, type_error, Verdict, action_for_path, refused_update_user_fields,
}

pub data AuditAction : Type 0 where
  user_banned signup_rejected user_deleted user_roles_changed impersonation_started : AuditAction
  user_created password_changed session_revoked impersonation_stopped user_unbanned : AuditAction

-- `auditActionFor`
unfoldable pub audit_action_for : AdminAction → AuditAction
audit_action_for ban = user_banned
audit_action_for reject = signup_rejected
audit_action_for delete = user_deleted
audit_action_for (set_role roles) = user_roles_changed
audit_action_for impersonate = impersonation_started
audit_action_for unban = user_banned

pub data Metadata : Type 0 where
  nothing : Metadata
  reason : InvariantCode → Metadata
  roles : List Text → Metadata
  created_with : List Text → Metadata  -- `{ by: "admin", roles }`
  scope_all : Metadata
  status : Text → Metadata

pub data AuditOutcome : Type 0 where
  success denied : AuditOutcome

pub record AuditRow : Type 0 where
  pub event : AuditAction
  pub outcome : AuditOutcome
  pub by_api_key : Bool
  pub actor_user_id : Option Text
  pub target_id : Text
  pub metadata : Metadata

-- A resolved session: its user, `impersonatedBy`, and whether a key built it.
pub record Session : Type 0 where
  pub user : AdminUser
  pub impersonated_by : Option Text
  pub api_key : Bool

-- What a hook leaves in `IMPERSONATION_ENDING`.
pub record Ending : Type 0 where
  pub impersonated : Text
  pub by : Option Text

pub data Refusal : Type 0 where
  impersonation_disabled : Refusal
  field_not_allowed : List Text → Refusal
  invariant : InvariantCode → Refusal
  bad_type : Refusal

pub record GuardResult : Type 0 where
  pub refusal : Option Refusal
  pub audit : List AuditRow
  pub ending : Option Ending

-- The configuration, and what the session store and the database answer during the request.
pub record GuardEnv : Type 0 where
  pub allow_impersonation : Bool
  pub has_database : Bool
  pub admin_roles : List Text
  pub now : ℕ
  pub session : Option Session
  pub find_user : Text → Option AdminUser
  pub admins : List AdminUser

abbrev pub proceed : GuardResult
proceed = record { refusal = none; audit = []; ending = none }

abbrev pub refuse : Refusal → GuardResult
refuse r = record { refusal = some r; audit = []; ending = none }

-- The `try` and its `catch`
check_invariants : GuardEnv → Session → AdminUser → Text → AdminAction → GuardResult
check_invariants env session target target_id act =
    elim (assert_admin_invariants env.now session.user target act env.admin_roles env.admins) [
      | none ↦ proceed
      | some code ↦ record {
        refusal = some (invariant code);
        audit =
            record {
              event = audit_action_for act;
              outcome = denied;
              by_api_key = session.api_key;
              actor_user_id = some session.user.id;
              target_id = target_id;
              metadata = reason code;
            }
            ∷ [];
        ending = none;
      }
    ]

-- From `targetId` on
guard_target : GuardEnv → Option Text → AdminAction → GuardResult
unfolding check_invariants
guard_target env none act = proceed
guard_target env (some id) act = if not env.has_database then proceed else elim env.session [
  | none ↦ proceed
  | some session ↦ elim (env.find_user id) [
    | none ↦ proceed
    | some target ↦ check_invariants env session target id act
  ]
]

guard_action : GuardEnv → AdminBody → Verdict → GuardResult
unfolding guard_target
guard_action env body (action act) = guard_target env (truthy (as_text body.user_id)) act
guard_action env body no_action = proceed
guard_action env body type_error = refuse bad_type

-- The field check of `update-user`, then the action
guard_fields : GuardEnv → AdminPath → AdminBody → GuardResult
unfolding guard_action
guard_fields env update_user body = elim (refused_update_user_fields body.payload) [
  | [] ↦ guard_action env body (action_for_path update_user body)
  | f ∷ fs ↦ refuse (field_not_allowed (f ∷ fs))
]
guard_fields env path body = guard_action env body (action_for_path path body)

-- `/admin/stop-impersonating` remembers who was impersonated.
remember_ending : Option Session → GuardResult
remember_ending none = proceed
remember_ending (some s) = record {
  refusal = none;
  audit = [];
  ending = some (record { impersonated = s.user.id; by = s.impersonated_by });
}

guard_path : GuardEnv → AdminPath → AdminBody → GuardResult
unfolding guard_fields remember_ending
guard_path env stop_impersonating body = remember_ending env.session
guard_path env impersonate_user body =
    if not env.allow_impersonation
    then refuse impersonation_disabled
    else guard_fields env impersonate_user body
guard_path env path body = guard_fields env path body

-- `buildAdminGuard`
unfoldable pub admin_guard : GuardEnv → Text → AdminBody → GuardResult
unfolding guard_path
admin_guard env path body =
    if not (is_guarded (admin_path path)) then proceed else guard_path env (admin_path path) body
