-- ===== src/SessionStanding/Laws.antt =====
-- When a request or a grant is refused.
use semantius_idp.Prelude.{
  ℕ, Text, codes, text_eq_refl, has_text, Bool, true, false, Option, none, some, ◌∷◌, ◌≡◌, ◌↔◌,
  arith,
}
use semantius_idp.Js.{str}
use semantius_idp.Standing.{Date, GateUser, assert_user_may_sign_in}
use semantius_idp.Standing.Laws.{IsBanned, IsOpen, may_sign_in_iff}
use semantius_idp.SessionStanding.{
  is_exempt_from_forced_change, impersonation_refused_paths, StandingContext, StandingSession,
  password_change_required, impersonated_session, carries_cookie, is_impersonated, is_plain_read,
  assert_session_standing, GrantError, invalid_grant, access_denied, check_owner,
  assert_refresh_owner_may_sign_in, assert_device_owner_may_sign_in,
}

module _ (to_upper : Text → Text) (ctx : StandingContext) (session : StandingSession)
    (must_change : Option Bool) where
  -- A request is a write, or a read that mints, made with a cookie.
  abbrev pub IsGated : Type 0
  IsGated = (carries_cookie ctx ≡ true) × (is_plain_read to_upper ctx ≡ false)

  -- A user on a forced password change is refused exactly on gated requests outside the exempt
  -- paths.
  pub forced_change_iff :
      session.user ≡ some must_change
      → ((assert_session_standing to_upper ctx (some session)).refusal
          ≡ some password_change_required)
        ↔ (IsGated × (is_exempt_from_forced_change ctx.path ≡ false) × (must_change ≡ some true))
  unfolding assert_session_standing
  forced_change_iff u = ground arith

  -- An impersonating administrator is refused exactly on the credential-minting paths, if the
  -- forced change does not already refuse.
  pub impersonation_iff :
      session.user ≡ some must_change
      → ((assert_session_standing to_upper ctx (some session)).refusal ≡ some impersonated_session)
        ↔ (IsGated
            × (has_text impersonation_refused_paths ctx.path ≡ true)
            × (is_impersonated session ≡ true)
            × (¬ ((is_exempt_from_forced_change ctx.path ≡ false) × (must_change ≡ some true))))
  unfolding assert_session_standing
  impersonation_iff u = ground arith

module _ (parse_date : Text → Date) (now : ℕ) (owner : GateUser) where
  check_owner_iff :
      (e : GrantError)
      → (check_owner parse_date now e (some owner) ≡ none)
        ↔ (assert_user_may_sign_in parse_date now owner ≡ none)
  unfolding check_owner
  check_owner_iff e = ground arith

  allowed_iff :
      (e : GrantError)
      → (check_owner parse_date now e (some owner) ≡ none)
        ↔ (¬ IsBanned parse_date now owner × IsOpen parse_date now owner)
  allowed_iff e =
      let (to, from) = check_owner_iff e in
      let (split, join) = may_sign_in_iff parse_date now owner in
      (λ h. split (to h), λ h. from (join h))

  -- A refresh grant goes on to the provider exactly when the owner of the token is under no ban in
  -- force and has an open status.
  pub refresh_allowed_iff :
      (hash : Text → Text) (owner_of : Text → Option GateUser) (c : ℕ) (token : Text)
      → owner_of (hash (c ∷ token)) ≡ some owner
      → (assert_refresh_owner_may_sign_in parse_date now hash
            (some owner_of)
            (some (str (codes "refresh_token")))
            (some (str (c ∷ token)))
          ≡ none)
        ↔ (¬ IsBanned parse_date now owner × IsOpen parse_date now owner)
  unfolding assert_refresh_owner_may_sign_in
  refresh_allowed_iff hash owner_of c token found =
      rw (text_eq_refl (codes "refresh_token"), found) (allowed_iff invalid_grant)

  -- The redemption of an approved device code goes on exactly under the same condition on the
  -- approver.
  pub device_allowed_iff :
      (owner_of : Text → Option GateUser) (c : ℕ) (code : Text)
      → owner_of (c ∷ code) ≡ some owner
      → (assert_device_owner_may_sign_in parse_date now (some owner_of) (some (str (c ∷ code)))
          ≡ none)
        ↔ (¬ IsBanned parse_date now owner × IsOpen parse_date now owner)
  unfolding assert_device_owner_may_sign_in
  device_allowed_iff owner_of c code found = rw found (allowed_iff access_denied)
