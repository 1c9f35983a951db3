-- ===== src/Tests/AccessCases.antt =====
-- Accounts at the gates, and grants of their owners.
use semantius_idp.Prelude.{
  Text, codes, text_eq, true, Option, none, some, [], ◌≡◌, ◌≢◌, inl, refl, arith, if◌then◌else◌,
}
use semantius_idp.Js.{str}
use semantius_idp.Standing.{
  Date, valid, invalid, unset, date, GateUser, banned, change_password, assert_user_may_sign_in,
  next_gate, ban_has_expired,
}
use semantius_idp.Standing.Laws.{may_sign_in_iff, next_gate-agrees, at_date}
use semantius_idp.SessionStanding.{
  StandingContext, StandingSession, assert_refresh_owner_may_sign_in,
}
use semantius_idp.SessionStanding.Laws.{refresh_allowed_iff}

abbrev parse_date : Text → Date
parse_date s = invalid

-- Banned until the instant 100, and active.
abbrev lapsing : GateUser
lapsing = record {
  status = some (codes "active");
  banned = some true;
  ban_expires = date (valid 100);
  must_change_password = some true;
}

abbrev misspelt : GateUser
misspelt = record {
  status = some (codes "actve");
  banned = none;
  ban_expires = unset;
  must_change_password = none;
}

not_pending : ◌≢◌ {A = Text} (codes "active") (codes "pending")
not_pending e = absurd (ground (arith, e))

not_rejected : ◌≢◌ {A = Text} (codes "active") (codes "rejected")
not_rejected e = absurd (ground (arith, e))

may_sign_in_iff_example : assert_user_may_sign_in parse_date 100 lapsing ≡ none
may_sign_in_iff_example =
    (may_sign_in_iff parse_date 100 lapsing).1
      ((λ b. b.1 (at_date (omega arith))), (codes "active", refl, not_pending, not_rejected))

-- A status that the enumeration does not list lets the account in.
misspelt_enters : assert_user_may_sign_in parse_date 0 misspelt ≡ none
unfolding assert_user_may_sign_in ban_has_expired text_eq
misspelt_enters = refl

lapsing_gate : next_gate parse_date 100 (some lapsing) ≡ some change_password
unfolding next_gate ban_has_expired text_eq
lapsing_gate = refl

waiting : next_gate parse_date 99 (some lapsing) ≡ some banned
unfolding next_gate ban_has_expired text_eq
waiting = refl

next_gate-agrees_example : assert_user_may_sign_in parse_date 99 lapsing ≢ none
next_gate-agrees_example = (next_gate-agrees parse_date 99 lapsing).1.0 (inl waiting)

abbrev same : Text → Text
same s = s

abbrev minting : StandingContext
minting = record {
  path = codes "/api-key/create";
  request_method = some (codes "POST");
  own_method = none;
  cookie = some (codes "s=1");
}

abbrev forced : StandingSession
forced = record { user = some (some true); impersonated_by = none }

abbrev borrowed : StandingSession
borrowed = record { user = some none; impersonated_by = some (codes "root") }

abbrev owner_of : Text → Option GateUser
owner_of token = if text_eq token (codes "t") then some lapsing else none

-- A refresh grant of a user whose ban has just ended
lapsing_refreshes :
    assert_refresh_owner_may_sign_in parse_date 100 same
      (some owner_of)
      (some (str (codes "refresh_token")))
      (some (str (codes "t")))
    ≡ none
unfolding text_eq
lapsing_refreshes =
    (refresh_allowed_iff parse_date 100 lapsing same owner_of b't' [] refl).1
      ((λ b. b.1 (at_date (omega arith))), (codes "active", refl, not_pending, not_rejected))
