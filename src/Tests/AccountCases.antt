-- ===== src/Tests/AccountCases.antt =====
-- Written passwords and registrations.
use semantius_idp.Prelude.{
  Text, Option, not, [], codes, false, find, has_text, if◌then◌else◌, map_row, none, refl, some,
  text_eq, true, ◌&&◌, ◌↔◌, ◌∷◌, ◌≡◌,
}
use semantius_idp.FirstUser.{first_last}
use semantius_idp.Oauth.Revoke.Laws.{IsCut}
use semantius_idp.Oauth.{RefreshToken}
use semantius_idp.Js.{str}
use semantius_idp.Standing.{
  Date, invalid, valid, date, is_true, ban_has_expired, assert_user_may_sign_in, account_banned,
  account_pending_approval,
}
use semantius_idp.Standing.Hooks.{
  HookState, account_updated, self_service_password_paths, Applicant, SignUp, Registered, gate_user,
  user_creating, is_administrative_create, domain_of, normalize_email,
}
use semantius_idp.Standing.Hooks.Laws.{credential_of, cut_access, cut_refresh, password_hook_exact}
use semantius_idp.Standing.Hooks.Registration.{IsSelfService, IsForeign, registration_gate}

abbrev held : RefreshToken
held = record {
  id = codes "1";
  client_id = codes "shop";
  session_id = none;
  user_id = codes "ada";
  scopes = [];
  created_at = 10;
  expires_at = 100;
  auth_time = none;
  revoked = none;
}

abbrev state : HookState
state = record {
  forced = (codes "ada", true) ∷ (codes "bob", true) ∷ [];
  store = record {
    tables = record { access = []; refresh = held ∷ []; consents = []; sessions = [] };
    trail = [];
  };
}

abbrev reset_link : Text
reset_link = codes "/reset-password"

password_hook_exact_example :
    ((k : Text)
      → find k
          (account_updated true true 50
            (credential_of (codes "ada"))
            (some reset_link)
            state).forced
        ≡ (if has_text self_service_password_paths reset_link && text_eq (codes "ada") k
            then map_row (λ flag. false) (find k state.forced)
            else find k state.forced))
    × IsCut
        (cut_access reset_link (codes "ada"))
        (cut_refresh reset_link (codes "ada"))
        state.store.tables
        (account_updated true true 50
          (credential_of (codes "ada"))
          (some reset_link)
          state).store.tables
password_hook_exact_example =
    password_hook_exact 50 b'a' b'/' (codes "da") (codes "reset-password") state

abbrev same : Text → Text
same s = s

abbrev parse_date : Text → Date
parse_date s = invalid

abbrev open_house : SignUp
open_house = record {
  allowed_email_domains = codes "example.com" ∷ [];
  require_approval = true;
  name_format = first_last;
}

-- A caller may send other columns along, a ban among them.
abbrev eve : Applicant
eve = record {
  email = codes "a@b@example.com ";
  name = none;
  status = none;
  approved_at = none;
  approved_by = none;
  carried = record {
    first_name = some (codes "Eve");
    last_name = none;
    banned = some true;
    ban_expires = date (valid 40);
    must_change_password = none;
    others = (codes "locale", str (codes "en")) ∷ [];
  };
}

-- What stands after the last `@` counts.
last_domain : domain_of (codes "a@b@example.com") ≡ some (codes "example.com")
unfolding domain_of
last_domain = refl

abbrev sign_up : Option Text
sign_up = some (codes "/sign-up/email")

registration_gate_example :
    ((user_creating same open_house 7 sign_up eve ≡ none) ↔ (
      IsSelfService sign_up
      × IsForeign same (normalize_email same eve.email) open_house.allowed_email_domains))
    × ((is_administrative_create sign_up ≡ false) ↔ IsSelfService sign_up)
    × ((made : Registered)
        → user_creating same open_house 7 sign_up eve ≡ some made
        → (made.carried ≡ eve.carried)
          × (assert_user_may_sign_in parse_date 50 (gate_user made) ≡ (
              if is_true eve.carried.banned
                && not (ban_has_expired parse_date 50 eve.carried.ban_expires)
              then some account_banned
              else if is_administrative_create sign_up
              then none
              else if open_house.require_approval
              then some account_pending_approval
              else none)))
registration_gate_example = registration_gate same open_house 7 sign_up eve parse_date 50
