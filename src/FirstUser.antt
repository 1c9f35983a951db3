-- ===== src/FirstUser.antt =====
-- The first user of a deployment: apps/web/src/server/admin/first-user.ts, with `withAdvisoryLock` of
-- db/advisory-lock.ts and `displayName` of display-name.ts. What runs between two awaits is one step.
pub mod Laws
pub mod Role
use semantius_idp.Prelude.{
  Bool, List, Option, String, Text, [], codes, false, filled, if◌then◌else◌, is_empty, none, not,
  some, suc, text_eq, trim, true, zero, ◌&&◌, ◌++◌, ◌+◌, ◌∷◌, arith,
}
use semantius_idp.Roles.{join_roles}
use semantius_idp.Standing.{status_active}
use semantius_idp.Admin.{AdminUser}

-- `NameFormat`
pub data NameFormat : Type 0 where
  first_last last_first : NameFormat

abbrev pub text_of : Option Text → Text
text_of none = []
text_of (some t) = t

abbrev pub ordered_name : NameFormat → Text → Text → Text
ordered_name first_last given family = given ++ b' ' ∷ family
ordered_name last_first given family = family ++ (b',' ∷ b' ' ∷ given)

-- `displayName`
unfoldable pub display_name : Option Text → Option Text → NameFormat → Text
display_name first last format =
    let given = trim (text_of first) in
    let family = trim (text_of last) in
    if is_empty given && is_empty family
    then []
    else if is_empty given
    then family
    else if is_empty family
    then given
    else ordered_name format given family

-- `FirstUserInput`, less the password
pub record FirstUserInput : Type 0 where
  pub email : Text
  pub first_name : Text
  pub last_name : Text

-- What `createUserWithoutRequest` is given
pub record NewUser : Type 0 where
  pub email : Text
  pub name : Text
  pub first_name : Option Text
  pub last_name : Option Text
  pub email_verified : Bool
  pub role : Text
  pub status : Text
  pub must_change_password : Bool

abbrev pub first_role : List Text → Text
first_role [] = codes "admin"
first_role (r ∷ rs) = r

-- The set of the two roles, in order
abbrev pub role_set : Text → Text → List Text
role_set a d = if text_eq a d then a ∷ [] else a ∷ d ∷ []

-- `role` of `createFirstUser`
unfoldable pub first_user_role : List Text → Text → Text
first_user_role admin_roles default_role =
    join_roles (role_set (first_role admin_roles) default_role)

abbrev pub or_text : Text → Text → Text
or_text [] t = t
or_text (c ∷ s) t = c ∷ s

unfoldable pub new_user : (Text → Text) → NameFormat → List Text → Text → FirstUserInput → NewUser
new_user lower format admin_roles default_role input =
    let email = lower (trim input.email) in
    record {
      email = email;
      name = or_text (display_name (some input.first_name) (some input.last_name) format) email;
      first_name = filled (some input.first_name);
      last_name = filled (some input.last_name);
      email_verified = true;
      role = first_user_role admin_roles default_role;
      status = status_active;
      must_change_password = false;
    }

-- The row of the user table; a ban is not among the values, so the column has its default.
abbrev pub row_of : Text → NewUser → AdminUser
row_of id user = record {
  id = id;
  role = some user.role;
  status = some user.status;
  banned = some false;
  ban_expires = none;
}

-- Where the request stands that holds the lock: it has it, it found no user, or it made the user.
pub data Phase : Type 0 where
  free locked found_none : Phase
  made : Text → Phase

-- The user table, the accounts with a password, the lock's holder, the users that requests reported as
-- created, `pending`, and the answers of `isSetupPending`'s queries that are not stored yet.
pub record World : Type 0 where
  pub users : List AdminUser
  pub accounts : List Text
  pub phase : Phase
  pub created : List Text
  pub pending : Option Bool
  pub reads : List Bool

-- `isSetupPending` up to its query: whether it asks
abbrev pub is_closed : Option Bool → Bool
is_closed none = false
is_closed (some p) = not p

unfoldable pub begin_pending : World → World
begin_pending w = record {
  users = w.users;
  accounts = w.accounts;
  phase = w.phase;
  created = w.created;
  pending = w.pending;
  reads = if is_closed w.pending then w.reads else is_empty w.users ∷ w.reads;
}

-- `isSetupPending` from its query on
unfoldable pub end_pending : Bool → List Bool → World → World
end_pending answer rest w = record {
  users = w.users;
  accounts = w.accounts;
  phase = w.phase;
  created = w.created;
  pending = some answer;
  reads = rest;
}

-- `markSetupComplete`
unfoldable pub mark_setup_complete : World → World
mark_setup_complete w = record {
  users = w.users;
  accounts = w.accounts;
  phase = w.phase;
  created = w.created;
  pending = some false;
  reads = w.reads;
}

abbrev pub at_phase : Phase → World → World
at_phase phase w = record {
  users = w.users;
  accounts = w.accounts;
  phase = phase;
  created = w.created;
  pending = w.pending;
  reads = w.reads;
}

-- The check under the lock; with a user there, the request returns and gives the lock back.
unfoldable pub check_empty : World → World
check_empty w = at_phase (if is_empty w.users then found_none else free) w

abbrev pub add_user : AdminUser → World → World
add_user user w = record {
  users = w.users ++ user ∷ [];
  accounts = w.accounts;
  phase = w.phase;
  created = w.created;
  pending = w.pending;
  reads = w.reads;
}

-- `createUserWithoutRequest`
unfoldable pub create_user : Text → NewUser → World → World
create_user id user w = at_phase (made id) (add_user (row_of id user) w)

-- `createAccount`, the return and the release of the lock
unfoldable pub create_account : Text → World → World
create_account id w = record {
  users = w.users;
  accounts = id ∷ w.accounts;
  phase = free;
  created = id ∷ w.created;
  pending = w.pending;
  reads = w.reads;
}
