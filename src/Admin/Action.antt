-- ===== src/Admin/Action.antt =====
-- What a request to an admin endpoint asks for: `GUARDED`, `UPDATE_USER_ALLOWED_FIELDS`,
-- `refusedUpdateUserFields`, `rolesFrom` and `actionForPath` of apps/web/src/server/admin/guard.ts.
pub mod Laws
use semantius_idp.Prelude.{
  Text, String, codes, text_eq, has_text, trim, split_on, keep, Bool, true, false, not, Option,
  none, some, if◌then◌else◌, List, [], ◌∷◌, map,
}
use semantius_idp.Js.{
  Value, null, bool, num, str, arr, obj, Items, nil, cons, Fields, end, get, keys, items, as_text,
  truthy,
}
use semantius_idp.Admin.{
  AdminUser, AdminAction, set_role, ban, delete, reject, impersonate, unban, InvariantCode,
  assert_admin_invariants,
}
use semantius_idp.Standing.{status_active}

-- The cases of the `switch` statements over `ctx.path`.
pub data AdminPath : Type 0 where
  set_role_path ban_user remove_user update_user impersonate_user create_user : AdminPath
  set_user_password revoke_user_sessions stop_impersonating unban_user other : AdminPath

unfoldable pub admin_path : Text → AdminPath
unfolding text_eq
admin_path path =
    if text_eq path (codes "/admin/set-role")
    then set_role_path
    else if text_eq path (codes "/admin/ban-user")
    then ban_user
    else if text_eq path (codes "/admin/remove-user")
    then remove_user
    else if text_eq path (codes "/admin/update-user")
    then update_user
    else if text_eq path (codes "/admin/impersonate-user")
    then impersonate_user
    else if text_eq path (codes "/admin/create-user")
    then create_user
    else if text_eq path (codes "/admin/set-user-password")
    then set_user_password
    else if text_eq path (codes "/admin/revoke-user-sessions")
    then revoke_user_sessions
    else if text_eq path (codes "/admin/stop-impersonating")
    then stop_impersonating
    else if text_eq path (codes "/admin/unban-user")
    then unban_user
    else other

-- `GUARDED`, as `isGuardedAdminPath` reads it
unfoldable pub is_guarded : AdminPath → Bool
is_guarded unban_user = false
is_guarded other = false
is_guarded _ = true

-- `AdminBody`; `none` is an absent key.
pub record AdminBody : Type 0 where
  pub user_id : Option Value
  pub role : Option Value
  pub payload : Option Value  -- `data`

-- `UPDATE_USER_ALLOWED_FIELDS`
abbrev pub update_user_allowed_fields : List Text
update_user_allowed_fields =
    codes "name"
    ∷ codes "firstName"
    ∷ codes "lastName"
    ∷ codes "email"
    ∷ codes "emailVerified"
    ∷ codes "image"
    ∷ codes "role"
    ∷ codes "banned"
    ∷ codes "banReason"
    ∷ codes "banExpires"
    ∷ codes "status"
    ∷ codes "mustChangePassword"
    ∷ []

-- `refusedUpdateUserFields`
unfoldable pub refused_update_user_fields : Option Value → List Text
refused_update_user_fields (some (obj fs)) =
    keep (λ field. not (has_text update_user_allowed_fields field)) (keys fs)
refused_update_user_fields _ = []

-- The string entries of an array.
strings : List Value → List Text
strings [] = []
strings (str s ∷ vs) = s ∷ strings vs
strings (_ ∷ vs) = strings vs

-- `rolesFrom`
unfoldable pub roles_from : Option Value → List Text
unfolding strings
roles_from (some (arr vs)) = strings (items vs)
roles_from (some (str s)) = map trim (split_on b',' s)
roles_from _ = []

-- What `actionForPath` gives; `"status" in data` throws where `data` is a primitive.
pub data Verdict : Type 0 where
  action : AdminAction → Verdict
  no_action : Verdict
  type_error : Verdict

-- The last test of the `update-user` case
abbrev pub role_action : Option Value → Verdict
role_action (some (str s)) = action (set_role (roles_from (some (str s))))
role_action (some (arr vs)) = action (set_role (roles_from (some (arr vs))))
role_action _ = no_action

abbrev pub is_true_value : Option Value → Bool
is_true_value (some (bool b)) = b
is_true_value _ = false

-- `data.status !== "active"`, for a key that is present
abbrev pub is_active_value : Value → Bool
is_active_value (str s) = text_eq s status_active
is_active_value _ = false

abbrev pub status_then_role : Option Value → Option Value → Verdict
status_then_role (some v) role = if not (is_active_value v) then action reject else role_action role
status_then_role none role = role_action role

-- The `update-user` case, over the patch's fields
unfoldable pub patch_action : Fields → Verdict
patch_action fs =
    if is_true_value (get (codes "banned") fs)
    then action ban
    else status_then_role (get (codes "status") fs) (get (codes "role") fs)

-- `body.data ?? {}`; an array has none of the three keys.
unfoldable pub update_action : Option Value → Verdict
unfolding patch_action
update_action none = no_action
update_action (some null) = no_action
update_action (some (obj fs)) = patch_action fs
update_action (some (arr vs)) = no_action
update_action (some _) = type_error

-- `actionForPath`
unfoldable pub action_for_path : AdminPath → AdminBody → Verdict
unfolding update_action
action_for_path set_role_path body = action (set_role (roles_from body.role))
action_for_path ban_user body = action ban
action_for_path remove_user body = action delete
action_for_path impersonate_user body = action impersonate
action_for_path update_user body = update_action body.payload
action_for_path _ body = no_action
