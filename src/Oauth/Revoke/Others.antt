-- ===== src/Oauth/Revoke/Others.antt =====
-- Signing out everywhere else: `revokeForOtherSessions` of
-- apps/web/src/server/oidc/revoke-user-tokens.ts.
use semantius_idp.Prelude.{
  Bool, In, In-keep_iff, In-of_any, List, Option, Text, [], any, any_of_In, ap, false,
  false_of_ne_true, filled, keep, none, refl, some, some_inj, sym, text_eq, text_eq_iff, true, ℕ,
  ◌&&◌, ◌↔◌, ◌∙◌, ◌∷◌, ◌≡◌, ◌≢◌, arith,
}
use semantius_idp.Oauth.{AccessToken, RefreshToken, Session}
use semantius_idp.Oauth.Revoke.{
  Store, revoke_for_other_sessions, is_other_session, session_access, session_refresh, is_for,
  of_user,
}
use semantius_idp.Oauth.Revoke.Laws.{any_access, any_refresh, sessions-IsCut}

-- The token was issued through a session of the user other than the current one.
abbrev pub OnOther : Text → Text → List Session → Option Text → Type 0
OnOther user_id current sessions session_id =
    (row : Session) × In row sessions
    × (row.user_id ≡ user_id)
    × (row.id ≢ current)
    × (session_id ≡ some row.id)

is_for_iff : (o : Option Text) (t : Text) → (is_for o t ≡ true) ↔ (o ≡ some t)
is_for_iff none t = (λ h. cc, λ h. cc)
is_for_iff (some u) t =
    (λ h. ap some ((text_eq_iff u t).0 h), λ h. (text_eq_iff u t).1 (some_inj h))

false_iff : (b : Bool) (P : Type 0) → (b ≡ true) ↔ P → (b ≡ false) ↔ ¬ P
false_iff b P (to, from) = (λ h p. cc (h, from p), λ n. false_of_ne_true b (λ h. n (to h)))

-- The second half of a condition that an equivalence replaces
both : {P Q R S : Type 0} → P ↔ (Q × S) → Q ↔ R → P ↔ (R × S)
both (to, from) (f, g) = (λ p. (f (to p).0, (to p).1), λ (r, s). from (g r, s))

through : {P Q R S : Type 0} → P ↔ (Q × R) → R ↔ S → P ↔ (Q × S)
through (to, from) (f, g) = (λ p. ((to p).0, f (to p).1), λ (q, s). from (q, g s))

of_filled : (user_id : Text) (b : Bool) → user_id ≢ [] → of_user (filled (some user_id)) b ≡ b
of_filled [] b n = absurd (n refl)
of_filled (c ∷ u) b n = refl

module _ (user_id current : Text) (named : user_id ≢ []) (sessions : List Session) where
  abbrev others : List Session
  others = keep (is_other_session user_id current) sessions

  other_iff :
      (row : Session)
      → In row others ↔ (In row sessions × ((row.user_id ≡ user_id) × (row.id ≢ current)))
  other_iff row =
      let (to, from) = In-keep_iff (is_other_session user_id current) row sessions in
      (
        λ i.
            let (j, h) = to i in
            (
              j,
              (
                (text_eq_iff row.user_id user_id).0 (ground (arith, h)),
                λ e. ground (arith, h, (text_eq_iff row.id current).1 e),
              ),
            ),
        λ (j, h). from (
          j,
          ground (
            arith,
            (text_eq_iff row.user_id user_id).1 h.0,
            false_of_ne_true (text_eq row.id current) (λ e. h.1 ((text_eq_iff row.id current).0 e)),
          ),
        ),
      )

  -- A test of tokens that asks for the session and the user
  any_iff :
      {A : Type 0} (a : A) (session_id : Option Text) (is_users : Bool) (p : Session → A → Bool)
      → ((row : Session)
          → p row a ≡ (is_for session_id row.id && of_user (filled (some user_id)) is_users))
      → (any (λ row. p row a) others ≡ true)
        ↔ ((is_users ≡ true) × OnOther user_id current sessions session_id)
  any_iff a session_id is_users p h = (
    λ e.
        let (row, i, t) = In-of_any (λ row. p row a) others e in
        let (j, o) = (other_iff row).0 i in
        let test : (is_for session_id row.id && is_users) ≡ true =
          ap (λ b. is_for session_id row.id && b) (sym (of_filled user_id is_users named))
          ∙ (sym (h row) ∙ t) in
        (
          ground (arith, test),
          (row, j, o.0, o.1, (is_for_iff session_id row.id).0 (ground (arith, test))),
        ),
    λ (u, on).
        let (row, j, o, n, e) = on in
        any_of_In (λ row. p row a) row others ((other_iff row).1 (j, (o, n)))
          (h row
            ∙ (ap (λ b. is_for session_id row.id && b) (of_filled user_id is_users named)
                ∙ ground (arith, u, (is_for_iff session_id row.id).1 e))),
  )

module _ (clock : ℕ → ℕ) (user_id current reason : Text) (store : Store)
    (named : user_id ≢ []) where
  access_iff :
      (a : AccessToken)
      → (any_access (others user_id current named store.tables.sessions) user_id a ≡ false) ↔ (
          ¬ (
            (a.user_id ≡ some user_id)
            × OnOther user_id current store.tables.sessions a.session_id))
  access_iff a = false_iff _ _ (
      both
        (any_iff user_id current named store.tables.sessions a a.session_id
          (is_for a.user_id user_id) (λ row x. session_access row.id (some user_id) x)
          (λ row. refl))
        (is_for_iff a.user_id user_id))

  refresh_iff :
      (t : RefreshToken)
      → (any_refresh (others user_id current named store.tables.sessions) user_id t ≡ false)
        ↔ (¬ ((t.user_id ≡ user_id) × OnOther user_id current store.tables.sessions t.session_id))
  refresh_iff t = false_iff _ _ (
      both
        (any_iff user_id current named store.tables.sessions t t.session_id
          (text_eq t.user_id user_id) (λ row x. session_refresh row.id (some user_id) x)
          (λ row. refl))
        (text_eq_iff t.user_id user_id))

  -- For a user id that is not empty: signing out everywhere else leaves exactly those access tokens, and
  -- of the refresh tokens that are not revoked exactly those, that are another user's or were not issued
  -- through another session of the user; the tokens of the current session, and those whose session is
  -- gone, are left.
  pub others_cut :
      ((a : AccessToken)
        → In a (revoke_for_other_sessions clock user_id current reason store).0.tables.access ↔ (
            In a store.tables.access
            × ¬ (
                (a.user_id ≡ some user_id)
                × OnOther user_id current store.tables.sessions a.session_id)))
      × ((t : RefreshToken)
          → t.revoked ≡ none
          → In t (revoke_for_other_sessions clock user_id current reason store).0.tables.refresh ↔ (
              In t store.tables.refresh
              × ¬ (
                  (t.user_id ≡ user_id)
                  × OnOther user_id current store.tables.sessions t.session_id)))
  unfolding revoke_for_other_sessions
  others_cut =
      let cut =
        sessions-IsCut clock 0 (others user_id current named store.tables.sessions) user_id reason
          store (record { access_tokens = 0; refresh_tokens = 0 }) in
      (
        λ a. through (cut.access a) (access_iff a),
        λ t live. through (cut.refresh t live) (refresh_iff t),
      )
