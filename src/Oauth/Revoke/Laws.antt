-- ===== src/Oauth/Revoke/Laws.antt =====
-- What revoking leaves: apps/web/src/server/oidc/revoke-user-tokens.ts.
use semantius_idp.Prelude.{
  Bool, Bool-cases, In, In-keep_iff, In-map, In-of_map, List, Option, Text, [], any, ap, false, inl,
  inr, map, none, not, refl, some, subst, true, ℕ, ◌&&◌, ◌+◌, ◌||◌, ◌↔◌, ◌∷◌, ◌≡◌, arith,
}
use semantius_idp.Oauth.{AccessToken, RefreshToken, Session, Tables}
use semantius_idp.Oauth.Revoke.{
  Store, RevokeResult, revoked_if, is_unrevoked, revoke, revoke_for_session, revoke_all_for_user,
  revoke_sessions, user_access, user_refresh, session_access, session_refresh,
}

-- The tokens that can be used are those that were, less the ones that a test picks.
pub record IsCut (access_where : AccessToken → Bool) (refresh_where : RefreshToken → Bool)
    (before after : Tables) : Type 0 where
  pub access :
      (a : AccessToken) → In a after.access ↔ (In a before.access × (access_where a ≡ false))
  pub refresh :
      (t : RefreshToken)
      → t.revoked ≡ none
      → In t after.refresh ↔ (In t before.refresh × (refresh_where t ≡ false))

not_iff : (b : Bool) → (not b ≡ true) ↔ (b ≡ false)
not_iff true = (λ h. cc, λ h. cc)
not_iff false = (λ h. refl, λ h. refl)

module _ (now : ℕ) (p : RefreshToken → Bool) where
  kept :
      (u : RefreshToken)
      → (t : RefreshToken) → t.revoked ≡ none
      → revoked_if now p u ≡ t
      → (u ≡ t) × (p t ≡ false)
  kept u t live e = elim (Bool-cases (p u && is_unrevoked u)) [
    | inl h ↦ absurd (cc (live, ap (λ x. x.revoked) (rw h at e)))
    | inr h ↦
        let same : u ≡ t = rw h at e in
        (same, subst (λ x. p x ≡ false) same (ground (arith, h, ap is_unrevoked same, live)))
  ]

  revoked-In :
      (ts : List RefreshToken) (t : RefreshToken)
      → t.revoked ≡ none
      → In t (map (revoked_if now p) ts) ↔ (In t ts × (p t ≡ false))
  revoked-In ts t live = (to, from)
    where
      to : In t (map (revoked_if now p) ts) → In t ts × (p t ≡ false)
      to i =
          let (u, j, e) = In-of_map (revoked_if now p) t ts i in
          let (same, n) = kept u t live e in (subst (λ x. In x ts) same j, n)

      from : In t ts × (p t ≡ false) → In t (map (revoked_if now p) ts)
      from (j, n) =
          subst (λ x. In x (map (revoked_if now p) ts)) (ground (arith, n))
            (In-map (revoked_if now p) t ts j)

-- One pass of `revoke`
revoke-IsCut :
    (now : ℕ) (pa : AccessToken → Bool) (pr : RefreshToken → Bool) (tables : Tables)
    → IsCut pa pr tables (revoke now pa pr tables)
unfolding revoke
revoke-IsCut now pa pr tables = record {
  access = λ a.
      let (to, from) = In-keep_iff (λ x. not (pa x)) a tables.access in
      (
        λ i. let (j, n) = to i in (j, (not_iff (pa a)).0 n),
        λ (j, n). from (j, (not_iff (pa a)).1 n),
      );
  refresh = λ t live. revoked-In now pr tables.refresh t live;
}

-- Revoking everything of a user cuts exactly the tokens of that user.
pub revoke_all-IsCut :
    (now : ℕ) (user_id reason : Text) (store : Store)
    → IsCut
        (user_access user_id)
        (user_refresh user_id)
        store.tables
        (revoke_all_for_user now user_id reason store).0.tables
unfolding revoke_all_for_user
revoke_all-IsCut now user_id reason store =
    revoke-IsCut now (user_access user_id) (user_refresh user_id) store.tables

-- A test for one of several sessions
abbrev pub any_access : List Session → Text → AccessToken → Bool
any_access rows user_id a = any (λ row. session_access row.id (some user_id) a) rows

abbrev pub any_refresh : List Session → Text → RefreshToken → Bool
any_refresh rows user_id t = any (λ row. session_refresh row.id (some user_id) t) rows

IsCut-none :
    (tables : Tables) (user_id : Text)
    → IsCut (any_access [] user_id) (any_refresh [] user_id) tables tables
IsCut-none tables user_id = record {
  access = λ a. (λ i. (i, refl), λ h. h.0);
  refresh = λ t live. (λ i. (i, refl), λ h. h.0);
}

or_false : (a b : Bool) → ((a || b) ≡ false) ↔ ((a ≡ false) × (b ≡ false))
or_false a b = ground arith

IsCut-then :
    (pa qa : AccessToken → Bool) (pr qr : RefreshToken → Bool) (s t u : Tables)
    → IsCut pa pr s t
    → IsCut qa qr t u
    → IsCut (λ a. pa a || qa a) (λ r. pr r || qr r) s u
IsCut-then pa qa pr qr s t u first second = record {
  access = λ a. (
    λ i.
        let (j, n) = (second.access a).0 i in
        (let (k, m) = (first.access a).0 j in (k, (or_false (pa a) (qa a)).1 (m, n))),
    λ (k, o).
        let (m, n) = (or_false (pa a) (qa a)).0 o in
        (second.access a).1 ((first.access a).1 (k, m), n),
  );
  refresh = λ r live. (
    λ i.
        let (j, n) = (second.refresh r live).0 i in
        (let (k, m) = (first.refresh r live).0 j in (k, (or_false (pr r) (qr r)).1 (m, n))),
    λ (k, o).
        let (m, n) = (or_false (pr r) (qr r)).0 o in
        (second.refresh r live).1 ((first.refresh r live).1 (k, m), n),
  );
}

session-IsCut :
    (now : ℕ) (session_id : Text) (user_id : Option Text) (reason : Text) (store : Store)
    → IsCut
        (session_access session_id user_id)
        (session_refresh session_id user_id)
        store.tables
        (revoke_for_session now session_id user_id reason store).0.tables
unfolding revoke_for_session
session-IsCut now session_id user_id reason store =
    revoke-IsCut now (session_access session_id user_id) (session_refresh session_id user_id)
      store.tables

pub sessions-IsCut :
    (clock : ℕ → ℕ) (n : ℕ) (rows : List Session) (user_id reason : Text) (store : Store)
    (total : RevokeResult)
    → IsCut
        (any_access rows user_id)
        (any_refresh rows user_id)
        store.tables
        (revoke_sessions clock n rows user_id reason (store, total)).0.tables
unfolding revoke_sessions
sessions-IsCut clock n [] user_id reason store total = IsCut-none store.tables user_id
sessions-IsCut clock n (row ∷ rows) user_id reason store total =
    IsCut-then (session_access row.id (some user_id)) (any_access rows user_id)
      (session_refresh row.id (some user_id)) (any_refresh rows user_id) store.tables
      (revoke_for_session (clock n) row.id (some user_id) reason store).0.tables _
      (session-IsCut (clock n) row.id (some user_id) reason store)
      (sessions-IsCut clock (n + 1) rows user_id reason
        (revoke_for_session (clock n) row.id (some user_id) reason store).0 _)
