-- ===== src/Admin/After.antt =====
-- The `after` hook of apps/web/src/server/admin/guard.ts: `buildAdminAfterHook`.
pub mod Laws
use semantius_idp.Prelude.{
  Text, String, codes, has_text, Bool, true, false, not, ◌&&◌, ◌||◌, Option, none, some, or_option,
  if◌then◌else◌, List, [], ◌∷◌,
}
use semantius_idp.Js.{Value, null, bool, num, str, arr, obj, Fields, get, as_text, truthy}
use semantius_idp.Admin.{AdminAction, set_role, ban, delete, reject, impersonate, unban}
use semantius_idp.Admin.Action.{
  AdminPath, set_role_path, update_user, create_user, set_user_password, revoke_user_sessions,
  stop_impersonating, unban_user, admin_path, is_guarded, AdminBody, roles_from, Verdict, action,
  no_action, type_error, action_for_path,
}
use semantius_idp.Admin.Guard.{
  AuditAction, user_created, password_changed, session_revoked, impersonation_stopped,
  user_unbanned, audit_action_for, Metadata, nothing, roles, created_with, scope_all, status,
  success, AuditRow, Ending,
}

-- `ENDS_CREDENTIAL_ACCESS`
abbrev pub ends_credential_access : List Text
ends_credential_access =
    codes "/api-key/delete"
    ∷ codes "/api-key/update"
    ∷ codes "/sign-out"
    ∷ codes "/revoke-session"
    ∷ codes "/revoke-sessions"
    ∷ codes "/revoke-other-sessions"
    ∷ []

-- What `ctx.context.returned` is: an `APIError`, or a value with its `user.id`, if that is a text.
pub data Returned : Type 0 where
  api_error : Returned
  returned : Option Text → Returned

-- `PlainAudit`; without an `actor` the row names the caller.
pub record PlainAudit : Type 0 where
  pub event : AuditAction
  pub target : Text
  pub actor : Option Text
  pub metadata : Metadata
  pub ends_access : Bool

plain : AuditAction → Text → PlainAudit
plain e id = record {
  event = e;
  target = id;
  actor = none;
  metadata = nothing;
  ends_access = false;
}

-- `plainAuditFor`
unfoldable pub plain_audit_for :
    AdminPath → Option Text → AdminBody → Option Ending → Option PlainAudit
unfolding plain
plain_audit_for create_user created body ending = elim created [
  | none ↦ none
  | some id ↦ some (record {
    event = user_created;
    target = id;
    actor = none;
    metadata = created_with (roles_from body.role);
    ends_access = false;
  })
]
plain_audit_for set_user_password created body ending = elim (truthy (as_text body.user_id)) [
  | none ↦ none
  | some id ↦ some (plain password_changed id)
]
plain_audit_for revoke_user_sessions created body ending = elim (truthy (as_text body.user_id)) [
  | none ↦ none
  | some id ↦ some (record {
    event = session_revoked;
    target = id;
    actor = none;
    metadata = scope_all;
    ends_access = true;
  })
]
plain_audit_for stop_impersonating created body ending = elim ending [
  | none ↦ none
  | some e ↦ some (record {
    event = impersonation_stopped;
    target = e.impersonated;
    actor = e.by;
    metadata = nothing;
    ends_access = false;
  })
]
plain_audit_for _ created body ending = none

-- `endsAccess`
unfoldable pub ends_access : AdminAction → Bool
ends_access ban = true
ends_access delete = true
ends_access reject = true
ends_access _ = false

-- The status text of a patch, for the row
patch_status : Option Value → Metadata
patch_status (some (obj fs)) = elim (as_text (get (codes "status") fs)) [
  | none ↦ nothing
  | some s ↦ status s
]
patch_status _ = nothing

-- `auditMetadataFor`
unfoldable pub audit_metadata_for : AdminPath → AdminAction → AdminBody → Metadata
unfolding patch_status
audit_metadata_for path (set_role rs) body = roles rs
audit_metadata_for update_user reject body = patch_status body.payload
audit_metadata_for path act body = nothing

-- What the hook did: whether the gateway cache was emptied, the rows it wrote, and whose OAuth
-- tokens it revoked.
pub record Effects : Type 0 where
  pub cache_reset : Bool
  pub audit : List AuditRow
  pub revoked : List Text

-- The caller: `ctx.context.session`, its user's id and whether a key built it.
pub record Caller : Type 0 where
  pub actor_id : Option Text
  pub by_api_key : Bool

abbrev pub revoke_tokens : Bool → Text → List Text
revoke_tokens has_database id = if has_database then id ∷ [] else []

module _ (has_database : Bool) (caller : Caller) where
  row_for : AuditAction → Option Text → Text → Metadata → AuditRow
  row_for e actor id m = record {
    event = e;
    outcome = success;
    by_api_key = caller.by_api_key;
    actor_user_id = actor;
    target_id = id;
    metadata = m;
  }

  after_plain : Bool → PlainAudit → Effects
  unfolding row_for
  after_plain reset p = record {
    cache_reset = reset;
    audit = row_for p.event (or_option p.actor caller.actor_id) p.target p.metadata ∷ [];
    revoked = if p.ends_access then revoke_tokens has_database p.target else [];
  }

  after_verdict : Bool → AdminPath → AdminBody → Text → Verdict → Effects
  unfolding row_for
  after_verdict reset path body id (action act) = record {
    cache_reset = reset;
    audit =
        row_for (audit_action_for act) caller.actor_id id (audit_metadata_for path act body) ∷ [];
    revoked = if ends_access act then revoke_tokens has_database id else [];
  }
  after_verdict reset path body id _ = record { cache_reset = reset; audit = []; revoked = [] }

  -- From `targetId` on
  after_target : Bool → AdminPath → AdminBody → Option Text → Effects
  unfolding after_verdict row_for
  after_target reset path body none = record { cache_reset = reset; audit = []; revoked = [] }
  after_target reset unban_user body (some id) = record {
    cache_reset = reset;
    audit = row_for user_unbanned caller.actor_id id nothing ∷ [];
    revoked = [];
  }
  after_target reset path body (some id) =
      after_verdict reset path body id (action_for_path path body)

  -- A write that happened
  after_write : Bool → AdminPath → AdminBody → Option Text → Option Ending → Effects
  unfolding after_target after_plain
  after_write reset path body created ending = elim (plain_audit_for path created body ending) [
    | some p ↦ after_plain reset p
    | none ↦ after_target reset path body (truthy (as_text body.user_id))
  ]

  is_unban : AdminPath → Bool
  is_unban unban_user = true
  is_unban _ = false

  -- `buildAdminAfterHook`
  unfoldable pub admin_after : Text → AdminBody → Returned → Option Ending → Effects
  unfolding after_write is_unban
  admin_after path body api_error ending = record { cache_reset = false; audit = []; revoked = [] }
  admin_after path body (returned created) ending =
      let p = admin_path path in
      let reset = is_unban p || is_guarded p || has_text ends_credential_access path in
      if not (is_unban p) && not (is_guarded p)
      then record { cache_reset = reset; audit = []; revoked = [] }
      else after_write reset p body created ending
