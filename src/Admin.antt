-- ===== src/Admin.antt =====
-- What an administrator may do: apps/web/src/server/admin/invariants.ts and admins.ts.
pub mod Invariants
pub mod Table
pub mod LastAdmin
pub mod Action
pub mod Guard
pub mod After
use semantius_idp.Prelude.{
  ℕ, Text, String, codes, text_eq, join_with, keep, Bool, true, false, not, ◌&&◌, Option, none,
  some, if◌then◌else◌, is_empty, any, List, [], ◌∷◌,
}
use semantius_idp.Roles.{is_admin}
use semantius_idp.Standing.{Date, date_reached, is_true, status_active}

-- `AdminInvariantUser`
pub record AdminUser : Type 0 where
  pub id : Text
  pub role : Option Text
  pub status : Option Text
  pub banned : Option Bool
  pub ban_expires : Option Date

-- `AdminAction`
pub data AdminAction : Type 0 where
  set_role : List Text → AdminAction
  ban unban delete reject impersonate : AdminAction

-- `ADMIN_INVARIANTS`
pub data InvariantCode : Type 0 where
  self_role self_ban self_delete self_impersonate last_admin not_an_admin : InvariantCode

abbrev pub has_lapsed : ℕ → Option Date → Bool
has_lapsed now none = false
has_lapsed now (some d) = date_reached now d

-- `isCurrentlyBanned`
unfoldable pub is_currently_banned : ℕ → AdminUser → Bool
is_currently_banned now user =
    if not (is_true user.banned)
    then false
    else if has_lapsed now user.ban_expires
    then false
    else true

-- The status test of `isUsableAdmin`: a status that is not set passes.
abbrev pub status_usable : Option Text → Bool
status_usable none = true
status_usable (some s) = text_eq s status_active

-- `isUsableAdmin`
unfoldable pub is_usable_admin : ℕ → AdminUser → List Text → Bool
is_usable_admin now user admin_roles =
    if not (is_admin user.role admin_roles)
    then false
    else if not (status_usable user.status)
    then false
    else not (is_currently_banned now user)

abbrev pub comma : Text
comma = codes ","

-- `removesAnAdmin`, the `switch`
abbrev pub is_removal : AdminAction → List Text → Bool
is_removal ban admin_roles = true
is_removal delete admin_roles = true
is_removal reject admin_roles = true
is_removal (set_role roles) admin_roles = not (is_admin (some (join_with comma roles)) admin_roles)
is_removal _ admin_roles = false

-- `removesAnAdmin`
unfoldable pub removes_an_admin : ℕ → AdminAction → AdminUser → List Text → Bool
removes_an_admin now action target admin_roles =
    if not (is_usable_admin now target admin_roles) then false else is_removal action admin_roles

-- The refusal of an action on oneself, if it has one.
abbrev pub self_refusal : AdminAction → Option InvariantCode
self_refusal (set_role roles) = some self_role
self_refusal ban = some self_ban
self_refusal reject = some self_ban
self_refusal delete = some self_delete
self_refusal impersonate = some self_impersonate
self_refusal unban = none

abbrev pub grants_admin : AdminAction → List Text → Bool
grants_admin (set_role roles) admin_roles = is_admin (some (join_with comma roles)) admin_roles
grants_admin _ admin_roles = false

-- The last check of `assertAdminInvariants`
abbrev pub grant_refusal : AdminUser → AdminAction → List Text → Option InvariantCode
grant_refusal actor action admin_roles =
    if grants_admin action admin_roles && not (is_admin actor.role admin_roles)
    then some not_an_admin
    else none

-- The admins who would be left: `remaining`
unfoldable pub remaining : ℕ → AdminUser → List Text → List AdminUser → List AdminUser
remaining now target admin_roles admins =
    keep (λ a. not (text_eq a.id target.id) && is_usable_admin now a admin_roles) admins

-- `assertAdminInvariants`; `none` is a return, and a code is the thrown error.
unfoldable pub assert_admin_invariants :
    ℕ → AdminUser → AdminUser → AdminAction → List Text → List AdminUser → Option InvariantCode
assert_admin_invariants now actor target action admin_roles admins =
    if removes_an_admin now action target admin_roles
      && is_empty (remaining now target admin_roles admins)
    then some last_admin
    else if text_eq actor.id target.id
    then elim (self_refusal action) [
      | some code ↦ some code
      | none ↦ grant_refusal actor action admin_roles
    ]
    else grant_refusal actor action admin_roles

-- `loadAdmins` over the rows of the user table; `like role column` is the database's
-- `column LIKE '%role%'`.
unfoldable pub load_admins :
    (Text → Option Text → Bool) → List AdminUser → List Text → List AdminUser
load_admins like rows [] = []
load_admins like rows (r ∷ rs) =
    keep (λ u. is_admin u.role (r ∷ rs)) (keep (λ u. any (λ role. like role u.role) (r ∷ rs)) rows)
