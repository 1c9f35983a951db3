-- ===== src/Tests/HookCases.antt =====
-- Requests to the admin endpoints, before and after the write.
use semantius_idp.Prelude.{
  Text, codes, has_text, true, false, Option, none, some, ◌≡◌, inr, refl, text_eq, split_on, trim,
  if◌then◌else◌,
}
use semantius_idp.Js.{null, str, obj, Fields, field, end, get}
use semantius_idp.Roles.{is_admin}
use semantius_idp.Admin.{
  AdminUser, ban, self_ban, is_usable_admin, is_currently_banned, removes_an_admin, remaining,
  assert_admin_invariants,
}
use semantius_idp.Admin.Action.{
  AdminBody, admin_path, is_guarded, action_for_path, patch_action, no_action,
}
use semantius_idp.Admin.Guard.{GuardEnv, Session, admin_guard, invariant}
use semantius_idp.Admin.Action.Laws.{patch_no_action_iff}
use semantius_idp.Admin.Guard.Laws.{guard-enforces}
use semantius_idp.Admin.After.{Caller}
use semantius_idp.Tests.AdminCases.{admin_roles, ada, bob, both}

abbrev session : Session
session = record { user = ada; impersonated_by = some (codes "root"); api_key = false }

abbrev find_user : Text → Option AdminUser
find_user id = if text_eq id (codes "b") then some bob else none

abbrev env : GuardEnv
env = record {
  allow_impersonation = false;
  has_database = true;
  admin_roles = admin_roles;
  now = 5;
  session = some session;
  find_user = find_user;
  admins = both;
}

abbrev ban_bob : AdminBody
ban_bob = record { user_id = some (str (codes "b")); role = none; payload = none }

ban_allowed : (admin_guard env (codes "/admin/ban-user") ban_bob).refusal ≡ none
unfolding admin_guard is_guarded admin_path action_for_path assert_admin_invariants removes_an_admin
    is_usable_admin is_currently_banned is_admin has_text split_on trim text_eq remaining
ban_allowed = refl

guard-enforces_example : assert_admin_invariants 5 ada bob ban admin_roles both ≡ none
unfolding action_for_path admin_path text_eq
guard-enforces_example =
    guard-enforces env (codes "/admin/ban-user") ban_bob ban (codes "b") session bob ban_allowed
      refl refl refl refl refl

abbrev harmless : Fields
harmless =
    field (codes "name") (str (codes "Bob")) (field (codes "status") (str (codes "active")) end)

patch_no_action_iff_example : patch_action harmless ≡ no_action
unfolding get text_eq
patch_no_action_iff_example = (patch_no_action_iff harmless).1 (λ e. cc, inr refl, tt)

-- A role of `null` carries no invariant.
null_role : patch_action (field (codes "role") null end) ≡ no_action
unfolding patch_action get text_eq
null_role = refl

abbrev smuggled : Fields
smuggled = field (codes "approvedBy") (str (codes "me")) end

abbrev smuggling : AdminBody
smuggling = record { user_id = some (str (codes "b")); role = none; payload = some (obj smuggled) }

-- Bob asks to ban himself.
abbrev env_of_bob : GuardEnv
env_of_bob = record {
  allow_impersonation = false;
  has_database = true;
  admin_roles = admin_roles;
  now = 5;
  session = some (record { user = bob; impersonated_by = none; api_key = false });
  find_user = find_user;
  admins = both;
}

bob_refused :
    (admin_guard env_of_bob (codes "/admin/ban-user") ban_bob).refusal ≡ some (invariant self_ban)
unfolding admin_guard is_guarded admin_path action_for_path assert_admin_invariants removes_an_admin
    is_usable_admin is_currently_banned is_admin has_text split_on trim text_eq remaining
bob_refused = refl

abbrev caller : Caller
caller = record { actor_id = some (codes "a"); by_api_key = false }

abbrev stop : AdminBody
stop = record { user_id = none; role = none; payload = none }
