-- ===== src/SessionStanding.antt =====
-- What the session behind a request, or the owner of a grant, may do now:
-- apps/web/src/server/auth/options/session-standing.ts.
pub mod Laws
use semantius_idp.Prelude.{
  ℕ, Text, String, codes, text_eq, has_text, starts_with, any, Bool, true, false, not, ◌&&◌, ◌||◌,
  Option, none, some, is_none, or_else, if◌then◌else◌, List, [], ◌∷◌,
}
use semantius_idp.Js.{Value, str, as_text, truthy}
use semantius_idp.Standing.{Date, GateUser, GateError, is_true, assert_user_may_sign_in}

-- `FORCED_CHANGE_EXEMPT_PATHS`
abbrev pub exempt_paths : List Text
exempt_paths =
    codes "/change-password"
    ∷ codes "/reset-password"
    ∷ codes "/forget-password"
    ∷ codes "/request-password-reset"
    ∷ codes "/sign-out"
    ∷ codes "/get-session"
    ∷ codes "/verify-email"
    ∷ codes "/send-verification-email"
    ∷ codes "/oauth2/end-session"
    ∷ []

-- `FORCED_CHANGE_EXEMPT_PREFIXES`
abbrev pub exempt_prefixes : List Text
exempt_prefixes =
    codes "/sign-in/"
    ∷ codes "/sign-up/"
    ∷ codes "/callback/"
    ∷ codes "/two-factor/verify-"
    ∷ codes "/two-factor/send-otp"
    ∷ codes "/oauth2/token"
    ∷ codes "/oauth2/introspect"
    ∷ codes "/oauth2/revoke"
    ∷ codes "/oauth2/userinfo"
    ∷ []

-- `MINTING_GET_PATHS`
abbrev pub minting_get_paths : List Text
minting_get_paths = codes "/token" ∷ []

-- `IMPERSONATION_REFUSED_PATHS`
abbrev pub impersonation_refused_paths : List Text
impersonation_refused_paths = codes "/api-key/create" ∷ codes "/device/approve" ∷ []

-- `isExemptFromForcedChange`
unfoldable pub is_exempt_from_forced_change : Text → Bool
is_exempt_from_forced_change path =
    has_text exempt_paths path || any (starts_with path) exempt_prefixes

-- `STANDING_ERROR_CODES`
pub data StandingError : Type 0 where
  password_change_required impersonated_session : StandingError

-- `StandingSession`: the user's flag, if there is a user, and who impersonates.
pub record StandingSession : Type 0 where
  pub user : Option (Option Bool)
  pub impersonated_by : Option Text

-- `StandingContext`; `request_method` is `ctx.request?.method`, and `own_method` the text that
-- `ctx.method` may be.
pub record StandingContext : Type 0 where
  pub path : Text
  pub request_method : Option Text
  pub own_method : Option Text
  pub cookie : Option Text

-- What the gate throws, and whether it put the preset session back.
pub record StandingResult : Type 0 where
  pub refusal : Option StandingError
  pub restored : Bool

abbrev pub passes : StandingResult
passes = record { refusal = none; restored = false }

-- `carriesCookie`
unfoldable pub carries_cookie : StandingContext → Bool
carries_cookie ctx = not (is_none (truthy ctx.cookie))

-- `typeof by === "string" && by !== ""`
abbrev pub is_impersonated : StandingSession → Bool
is_impersonated s = not (is_none (truthy s.impersonated_by))

-- The checks on a session with a user
unfoldable pub check_standing : Bool → Bool → Option Bool → StandingSession → StandingResult
check_standing forced impersonation must_change session =
    if forced && is_true must_change
    then record { refusal = some password_change_required; restored = false }
    else if impersonation && is_impersonated session
    then record { refusal = some impersonated_session; restored = false }
    else passes

-- From the resolved session on
resolved_standing : Bool → Bool → Option StandingSession → StandingResult
unfolding check_standing
resolved_standing forced impersonation none = record { refusal = none; restored = true }
resolved_standing forced impersonation (some session) = elim session.user [
  | none ↦ record { refusal = none; restored = true }
  | some must_change ↦ check_standing forced impersonation must_change session
]

-- `to_upper` is `String.prototype.toUpperCase`, and `resolved` what the session store answers.
module _ (to_upper : Text → Text) where
  -- `isPlainRead`
  unfoldable pub is_plain_read : StandingContext → Bool
  is_plain_read ctx =
      if has_text minting_get_paths ctx.path
      then false
      else text_eq (to_upper (or_else ctx.request_method (or_else ctx.own_method []))) (codes "GET")

  -- `assertSessionStanding`
  unfoldable pub assert_session_standing : StandingContext → Option StandingSession → StandingResult
  unfolding resolved_standing
  assert_session_standing ctx resolved =
      let forced = not (is_exempt_from_forced_change ctx.path) in
      let impersonation = has_text impersonation_refused_paths ctx.path in
      if not (carries_cookie ctx)
      then passes
      else if is_plain_read ctx
      then passes
      else if not forced && not impersonation
      then passes
      else resolved_standing forced impersonation resolved

-- The OAuth errors that the two grant checks answer with.
pub data GrantError : Type 0 where
  invalid_grant access_denied : GrantError

abbrev pub is_refresh : Option Text → Bool
is_refresh none = false
is_refresh (some s) = text_eq s (codes "refresh_token")

-- `hash` is `hashStoredToken`, a call of the platform's SHA-256.
module _ (parse_date : Text → Date) (now : ℕ) where
  check_owner : GrantError → Option GateUser → Option GrantError
  check_owner e none = none
  check_owner e (some owner) = elim (assert_user_may_sign_in parse_date now owner) [
    | none ↦ none
    | some refused ↦ some e
  ]

  -- `assertRefreshOwnerMaySignIn`: the body's two members, and the owner's row by the hashed token
  unfoldable pub assert_refresh_owner_may_sign_in :
      (Text → Text)
      → Option (Text → Option GateUser)
      → Option Value
      → Option Value
      → Option GrantError
  unfolding check_owner
  assert_refresh_owner_may_sign_in hash database grant_type token =
      if not (is_refresh (as_text grant_type)) then none else elim (truthy (as_text token)) [
        | none ↦ none
        | some presented ↦ elim database [
          | none ↦ none
          | some owner_of ↦ check_owner invalid_grant (owner_of (hash presented))
        ]
      ]

  -- `assertDeviceOwnerMaySignIn`: the approver's row, of an approved code only
  unfoldable pub assert_device_owner_may_sign_in :
      Option (Text → Option GateUser) → Option Value → Option GrantError
  unfolding check_owner
  assert_device_owner_may_sign_in database code = elim (truthy (as_text code)) [
    | none ↦ none
    | some presented ↦ elim database [
      | none ↦ none
      | some owner_of ↦ check_owner access_denied (owner_of presented)
    ]
  ]
