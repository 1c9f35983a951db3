-- ===== src/Standing/Hooks.antt =====
-- What the database hooks do when an account, a user or a session is written:
-- apps/web/src/server/auth/options/database-hooks.ts, with `isEmailDomainAllowed` and `normalizeEmail`
-- of social.ts beside it. A query that fails is logged, and the hook goes on.
pub mod Laws
pub mod Registration
use semantius_idp.Prelude.{
  All, All-append, All-map, All-of_In, Bool, Bool-cases, Dict, In, In-append_iff, In-append_left,
  In-append_right, In-find, In-keep_iff, In-map, In-of_any, In-of_find, In-of_map, In-put,
  In_of_All, IsUnique, IsUnique-change, IsUnique-keep, IsUnique-put, Lacks, Lacks-has_char, List,
  List-cases, Option, Option-cases, Starts, String, Text, [], all, all_iff, any, any_of_In, ap,
  bool_eq, change, codes, cons_of_In, cut_at, cut_at-append, cut_unique, false, false_of_ne_true,
  filled, find, find-append, find-change, find-keep, find-pick, find-put, find-remove, has_char,
  has_char-Lacks, has_text, if◌then◌else◌, inl, inr, is_empty, is_none, is_space, join_with,
  join_with-split_on, keep, leb, leb→le, length, length-append, length-keep-le, length-put-le,
  le→leb, ltb, ltb→lt, lt→ltb, map, map_row, nat_eq, nat_eq_iff, none, not, or_else, or_option,
  picked, push_head, put, refl, remove, some, some_inj, split_on, split_on-Lacks, split_on-concat,
  split_on-join_with, starts_with, starts_with_iff, subst, suc, sym, text_eq, text_eq-cases,
  text_eq_iff, text_eq_refl, trim, trim-Lacks, trim_end, trim_idem, trim_start, true,
  true_of_ne_false, zero, ℕ, ◌%◌, ◌&&◌, ◌*◌, ◌++◌, ◌+◌, ◌-◌, ◌/◌, ◌<◌, ◌^◌, ◌||◌, ◌↔◌, ◌∙◌, ◌∷◌,
  ◌≡◌, ◌≢◌, ◌≤◌, ◌⊎◌, arith,
}
use semantius_idp.Js.{Value}
use semantius_idp.Roles.{is_admin}
use semantius_idp.Standing.{
  Date, Expiry, GateUser, GateError, status_active, status_pending, is_true,
  assert_user_may_sign_in,
}
use semantius_idp.FirstUser.{NameFormat, display_name, text_of}
use semantius_idp.Oauth.Revoke.{Store, revoke_all_for_user, revoke_for_session}

-- `SELF_SERVICE_PASSWORD_PATHS`
abbrev pub self_service_password_paths : List Text
self_service_password_paths = codes "/change-password" ∷ codes "/reset-password" ∷ []

-- `PASSWORD_WRITE_PATHS`
abbrev pub password_write_paths : List Text
password_write_paths =
    codes "/change-password" ∷ codes "/reset-password" ∷ codes "/admin/set-user-password" ∷ []

-- `ADMINISTRATIVE_CREATE_PATHS`
abbrev pub administrative_create_paths : List Text
administrative_create_paths = codes "/admin/create-user" ∷ codes "/admin/update-user" ∷ []

-- A credential account that is written through one of the paths
unfoldable pub written_through : List Text → Option Text → Option Text → Bool
written_through paths none path = false
written_through paths (some provider) path =
    text_eq provider (codes "credential")
    && elim (filled path) [ none ↦ false | some p ↦ has_text paths p ]

-- `endsForcedPasswordChange`
abbrev pub ends_forced_password_change : Option Text → Option Text → Bool
ends_forced_password_change = written_through self_service_password_paths

-- `writesPassword`
abbrev pub writes_password : Option Text → Option Text → Bool
writes_password = written_through password_write_paths

-- `isAdministrativeCreate`; without a request there is no path.
unfoldable pub is_administrative_create : Option Text → Bool
is_administrative_create path = elim (filled path) [
  | none ↦ true
  | some p ↦ has_text administrative_create_paths p
]

-- What the hooks write: each user's `mustChangePassword`, and the tables of tokens
pub record HookState : Type 0 where
  pub forced : Dict Bool
  pub store : Store

-- A row of `account`, as far as the hooks read it
pub record Account : Type 0 where
  pub provider_id : Option Text
  pub user_id : Option Text

-- `clearMustChangePassword`; `adapter` is whether the context has one.
unfoldable pub clear_must_change_password : Bool → Account → Option Text → Dict Bool → Dict Bool
clear_must_change_password adapter account path forced =
    if not (ends_forced_password_change account.provider_id path)
    then forced
    else elim (filled account.user_id) [
      | none ↦ forced
      | some id ↦ if adapter then change id (λ flag. false) forced else forced
    ]

-- `revokeTokensAfterPasswordWrite`; `database` is whether there is one that answers.
unfoldable pub revoke_tokens_after_password_write : Bool → ℕ → Account → Option Text → Store → Store
revoke_tokens_after_password_write database now account path store =
    if not (writes_password account.provider_id path)
    then store
    else elim (filled account.user_id) [
      | none ↦ store
      | some id ↦
          if database
          then (revoke_all_for_user now id (codes "password_write:" ++ text_of path) store).0
          else store
    ]

-- `account.update.after`
unfoldable pub account_updated : Bool → Bool → ℕ → Account → Option Text → HookState → HookState
unfolding clear_must_change_password revoke_tokens_after_password_write
account_updated adapter database now account path w = record {
  forced = clear_must_change_password adapter account path w.forced;
  store = revoke_tokens_after_password_write database now account path w.store;
}

-- `session.delete.before`
unfoldable pub session_deleted : Bool → Bool → ℕ → Text → Text → Store → Store
session_deleted revoke_on_logout database now session_id user_id store =
    if revoke_on_logout && database
    then (revoke_for_session now session_id (some user_id) (codes "logout") store).0
    else store

abbrev after_at : ℕ → Text → Option Text → Option Text
after_at c s (some rest) = some rest
after_at c s none = if nat_eq c b'@' then some s else none

-- `email.slice(email.lastIndexOf("@") + 1)`, if there is an `@`
unfoldable pub domain_of : Text → Option Text
domain_of [] = none
domain_of (c ∷ s) = let rest = domain_of s in after_at c s rest

-- The columns of the user that is about to be made, or was made, that the hook passes on as they are:
-- those that it or a gate reads, and all others by their names. A part of the name that is no text is
-- missing.
pub record Carried : Type 0 where
  pub first_name : Option Text
  pub last_name : Option Text
  pub banned : Option Bool
  pub ban_expires : Expiry
  pub must_change_password : Option Bool
  pub others : Dict Value

-- The user that is about to be made; a name that is no text is missing.
pub record Applicant : Type 0 where
  pub email : Text
  pub name : Option Text
  pub status : Option Text
  pub approved_at : Option ℕ
  pub approved_by : Option Text
  pub carried : Carried

-- The settings of `signUp` and `site`
pub record SignUp : Type 0 where
  pub allowed_email_domains : List Text
  pub require_approval : Bool
  pub name_format : NameFormat

-- The row that the hook lets be written
pub record Registered : Type 0 where
  pub email : Text
  pub name : Text
  pub status : Text
  pub approved_at : Option ℕ
  pub approved_by : Option Text
  pub carried : Carried

-- The columns of the new row that the gates read
abbrev pub gate_user : Registered → GateUser
gate_user user = record {
  status = some user.status;
  banned = user.carried.banned;
  ban_expires = user.carried.ban_expires;
  must_change_password = user.carried.must_change_password;
}

-- A row of the query for the administrators that are told
pub record AdminRow : Type 0 where
  pub email : Text
  pub role : Option Text
  pub status : Option Text
  pub banned : Option Bool

-- `toLowerCase` is the platform's.
module _ (lower : Text → Text) where
  -- `normalizeEmail`
  abbrev pub normalize_email : Text → Text
  normalize_email email = lower (trim email)

  -- `isEmailDomainAllowed`
  unfoldable pub is_email_domain_allowed : Text → List Text → Bool
  is_email_domain_allowed email [] = true
  is_email_domain_allowed email (d ∷ ds) = elim (domain_of email) [
    | none ↦ false
    | some domain ↦ any (λ allowed. text_eq (lower allowed) (lower domain)) (d ∷ ds)
  ]

  -- The name that is written
  abbrev pub name_for : NameFormat → Applicant → Text
  name_for format user =
      if is_empty (trim (text_of user.name))
      then display_name (some (trim (text_of user.carried.first_name)))
          (some (trim (text_of user.carried.last_name))) format
      else text_of user.name

  abbrev pub new_status : Bool → SignUp → Text
  new_status administrative config =
      if administrative
      then status_active
      else if config.require_approval
      then status_pending
      else status_active

  -- `user.create.before`; `none` is the refusal of the e-mail domain.
  unfoldable pub user_creating : SignUp → ℕ → Option Text → Applicant → Option Registered
  user_creating config now path user =
      let administrative = is_administrative_create path in
      let email = normalize_email user.email in
      if not administrative && not (is_email_domain_allowed email config.allowed_email_domains)
      then none
      else some (record {
        email = email;
        name = name_for config.name_format user;
        status = new_status administrative config;
        approved_at = if administrative then some now else user.approved_at;
        approved_by = if administrative then some (codes "system") else user.approved_by;
        carried = user.carried;
      })

-- The recipients of `notifyAdminsOfPendingSignUp`
unfoldable pub pending_recipients : List Text → List AdminRow → List Text
pending_recipients admin_roles rows =
    map (λ row. row.email)
      (keep
        (λ row.
          elim (row.status) [ none ↦ false | some s ↦ text_eq s status_active ]
          && not (is_true row.banned)
          && is_admin row.role admin_roles)
        rows)

-- `user.create.after`: who is told
unfoldable pub user_created : Option Text → List Text → List AdminRow → Registered → List Text
user_created path admin_roles rows user =
    if not (text_eq user.status status_pending)
    then []
    else if is_administrative_create path
    then []
    else pending_recipients admin_roles rows

-- `session.create.before`, with the user that is found
unfoldable pub session_creating : (Text → Date) → ℕ → Option GateUser → Option GateError
session_creating parse_date now none = none
session_creating parse_date now (some user) = assert_user_may_sign_in parse_date now user
