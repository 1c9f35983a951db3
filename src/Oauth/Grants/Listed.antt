-- ===== src/Oauth/Grants/Listed.antt =====
-- The list of grants, against the tables: apps/web/src/server/oidc/grants.ts.
use semantius_idp.Prelude.{
  In, In-keep_iff, List, Option, Text, [], ap, false, find, inl, inr, keep, length, none, refl,
  some, subst, sym, text_eq_iff, true, ℕ, ◌+◌, ◌↔◌, ◌∙◌, ◌∷◌, ◌≡◌, ◌≢◌, ◌≤◌, ◌⊎◌, arith,
}
use semantius_idp.Oauth.{RefreshToken, Consent, Tables}
use semantius_idp.Oauth.Grants.{
  ActiveGrant, is_live_token, is_users_consent, grant_of_consent, grant_of_token, connected,
  with_token, add_consents, grants_of,
}
use semantius_idp.Oauth.Grants.Laws.{
  is_client, consents_to, summed, find-add_consents, find-add_tokens, consented-cases,
  In-add_scopes,
}

-- What a list of tokens makes of a grant
pub record IsSum (g : ActiveGrant) (ts : List RefreshToken) (h : ActiveGrant) : Type 0 where
  pub client : h.client_id ≡ g.client_id
  pub active : h.active_tokens ≡ g.active_tokens + length ts
  pub consent : h.has_consent ≡ g.has_consent
  pub kept : g.has_consent ≡ true → (h.scopes ≡ g.scopes) × (h.connected_at ≡ g.connected_at)
  pub scopes :
      g.has_consent ≡ false
      → (s : Text)
      → In s h.scopes ↔ (In s g.scopes ⊎ ((t : RefreshToken) × In t ts × In s t.scopes))
  pub earliest :
      g.has_consent ≡ false
      → (h.connected_at ≤ g.connected_at)
        × ((t : RefreshToken) → In t ts → h.connected_at ≤ connected t)

scopes_step :
    (t : RefreshToken) (ts : List RefreshToken) (g h : ActiveGrant) (x : Text)
    → g.has_consent ≡ false
    → In x h.scopes
      ↔ (In x (with_token t g).scopes ⊎ ((u : RefreshToken) × In u ts × In x u.scopes))
    → In x h.scopes ↔ (In x g.scopes ⊎ ((u : RefreshToken) × In u (t ∷ ts) × In x u.scopes))
scopes_step t ts g h x c (to, from) =
    let (one, back) = In-add_scopes g.scopes t.scopes x in
    (
      λ i. elim (to i) [
        | inl j ↦ elim (one (rw c at j)) [ inl k ↦ inl k | inr k ↦ inr (t, inl refl, k) ]
        | inr (u, j, k) ↦ inr (u, inr j, k)
      ],
      elim [
        | inl i ↦ from (inl (rw c (back (inl i))))
        | inr (u, inl e, k) ↦ from (inl (rw c (back (inr (subst (λ y. In x y.scopes) (sym e) k)))))
        | inr (u, inr j, k) ↦ from (inr (u, j, k))
      ],
    )

earliest_step :
    (t : RefreshToken) (ts : List RefreshToken) (g h : ActiveGrant)
    → g.has_consent ≡ false
    → (h.connected_at ≤ (with_token t g).connected_at)
      × ((u : RefreshToken) → In u ts → h.connected_at ≤ connected u)
    → (h.connected_at ≤ g.connected_at)
      × ((u : RefreshToken) → In u (t ∷ ts) → h.connected_at ≤ connected u)
earliest_step t ts g h c (l, all_later) = (
  ground (arith, c, l),
  λ u. elim [
    | inl e ↦ subst (λ y. h.connected_at ≤ connected y) e (first l)
    | inr i ↦ all_later u i
  ],
)
  where
    first : h.connected_at ≤ (with_token t g).connected_at → h.connected_at ≤ connected t
    first m = ground (arith, c, m)

module _ (name_of : Text → Option Text) where
  summed-IsSum :
      (ts : List RefreshToken) (g : ActiveGrant)
      → (h : ActiveGrant) × (summed name_of ts (some g) ≡ some h) × IsSum g ts h
  summed-IsSum [] g = (
    g,
    refl,
    record {
      client = refl;
      active = omega arith;
      consent = refl;
      kept = λ c. (refl, refl);
      scopes = λ c s. (λ i. inl i, elim [ inl i ↦ i | inr (t, i, j) ↦ absurd i ]);
      earliest = λ c. (omega arith, λ t i. absurd i);
    },
  )
  summed-IsSum (t ∷ ts) g =
      let (h, e, s) = summed-IsSum ts (with_token t g) in
      (
        h,
        e,
        record {
          client = s.client;
          active = omega (arith, s.active);
          consent = s.consent;
          kept = λ c. let (a, b) = s.kept c in (a ∙ rw c refl, b ∙ rw c refl);
          scopes = λ c x. scopes_step t ts g h x c (s.scopes c x);
          earliest = λ c. earliest_step t ts g h c (s.earliest c);
        },
      )

-- The user's live tokens for one client
abbrev pub live_tokens : Text → ℕ → Tables → Text → List RefreshToken
live_tokens user_id now tables k =
    keep (is_client k) (keep (is_live_token user_id now) tables.refresh)

abbrev pub HasConsent : Text → Tables → Text → Type 0
HasConsent user_id tables k =
    (c : Consent) × In c tables.consents × (is_users_consent user_id c ≡ true) × (c.client_id ≡ k)

-- The grant says of a client what the consents and the client's live tokens hold of it.
pub record IsGrant (user_id : Text) (tables : Tables) (live : List RefreshToken) (k : Text)
    (g : ActiveGrant) : Type 0 where
  pub client : g.client_id ≡ k
  pub held : (g.has_consent ≡ true) ⊎ (live ≢ [])
  pub active : g.active_tokens ≡ length live
  pub consent : (g.has_consent ≡ true) ↔ HasConsent user_id tables k
  pub agreed :
      g.has_consent ≡ true
      → (c : Consent) × In c tables.consents
        × (is_users_consent user_id c ≡ true)
        × (c.client_id ≡ k)
        × (g.scopes ≡ c.scopes)
        × (g.connected_at ≡ c.created_at)
  pub scopes :
      g.has_consent ≡ false
      → (s : Text) → In s g.scopes ↔ ((t : RefreshToken) × In t live × In s t.scopes)
  pub earliest :
      g.has_consent ≡ false → (t : RefreshToken) → In t live → g.connected_at ≤ connected t

module _ (name_of : Text → Option Text) (user_id : Text) (now : ℕ) (tables : Tables)
    (k : Text) where
  abbrev users_consents : List Consent
  users_consents = keep (is_users_consent user_id) tables.consents

  no_consent :
      ((c : Consent) → In c users_consents → consents_to k c ≡ false)
      → ¬ HasConsent user_id tables k
  no_consent n (c, i, u, e) = cc (
    n c ((In-keep_iff (is_users_consent user_id) c tables.consents).1 (i, u)),
    (text_eq_iff c.client_id k).1 e,
  )

  -- Without a consent, the grant is what the live tokens make it.
  token-IsGrant :
      (ts : List RefreshToken)
      → ((t : RefreshToken) → In t ts → t.client_id ≡ k)
      → ¬ HasConsent user_id tables k
      → ((summed name_of ts none ≡ none) × (ts ≡ []))
        ⊎ ((g : ActiveGrant) × (summed name_of ts none ≡ some g) × IsGrant user_id tables ts k g)
  token-IsGrant [] c n = inl (refl, refl)
  token-IsGrant (t ∷ ts) c n =
      let (h, q, s) = summed-IsSum name_of ts (grant_of_token name_of t) in
      inr (
        h,
        q,
        record {
          client = s.client ∙ c t (inl refl);
          held = inr (λ e. cc);
          active = omega (arith, s.active);
          consent = (λ e. cc (e, s.consent), λ x. absurd (n x));
          agreed = λ e. cc (e, s.consent);
          scopes = λ f x. whose x (s.scopes refl x);
          earliest = λ f u. elim [
            | inl e ↦ subst (λ y. h.connected_at ≤ connected y) e (s.earliest refl).0
            | inr i ↦ (s.earliest refl).1 u i
          ];
        },
      )
    where
      whose :
          {P : Type 0} (x : Text)
          → P ↔ (In x t.scopes ⊎ ((u : RefreshToken) × In u ts × In x u.scopes))
          → P ↔ ((u : RefreshToken) × In u (t ∷ ts) × In x u.scopes)
      whose x (to, from) = (
        λ i. elim (to i) [ inl j ↦ (t, inl refl, j) | inr (u, m, j) ↦ (u, inr m, j) ],
        λ (u, m, j).
            from (elim m [
              | inl e ↦ inl (subst (λ y. In x y.scopes) (sym e) j)
              | inr i ↦ inr (u, i, j)
            ]),
      )

  -- With a consent, the live tokens only add to the count.
  consent-IsGrant :
      (ts : List RefreshToken) (c : Consent)
      → In c users_consents
      → c.client_id ≡ k
      → (g : ActiveGrant) × (summed name_of ts (some (grant_of_consent name_of c)) ≡ some g)
        × IsGrant user_id tables ts k g
  consent-IsGrant ts c i e =
      let (h, q, s) = summed-IsSum name_of ts (grant_of_consent name_of c) in
      let (j, u) = (In-keep_iff (is_users_consent user_id) c tables.consents).0 i in
      let (same_scopes, same_date) = s.kept refl in
      (
        h,
        q,
        record {
          client = s.client ∙ e;
          held = inl s.consent;
          active = omega (arith, s.active);
          consent = (λ x. (c, j, u, e), λ x. s.consent);
          agreed = λ x. (c, j, u, e, same_scopes, same_date);
          scopes = λ f. cc (f, s.consent);
          earliest = λ f. cc (f, s.consent);
        },
      )

  live_client : (t : RefreshToken) → In t (live_tokens user_id now tables k) → t.client_id ≡ k
  live_client t i =
      (text_eq_iff t.client_id k).0
        ((In-keep_iff (is_client k) t (keep (is_live_token user_id now) tables.refresh)).0 i).1

  -- A client has an entry exactly if there is a consent or a live token.
  pub find-IsGrant :
      ((find k (grants_of name_of user_id now tables) ≡ none)
        × (¬ HasConsent user_id tables k)
        × (live_tokens user_id now tables k ≡ []))
      ⊎ ((g : ActiveGrant) × (find k (grants_of name_of user_id now tables) ≡ some g)
          × IsGrant user_id tables (live_tokens user_id now tables k) k g)
  unfolding grants_of find
  find-IsGrant =
      let path =
        find-add_tokens name_of k (keep (is_live_token user_id now) tables.refresh)
          (add_consents name_of users_consents [])
        ∙ ap (summed name_of (live_tokens user_id now tables k))
            (find-add_consents name_of k users_consents []) in
      elim (consented-cases name_of k users_consents none) [
        | inl (e, n) ↦
            elim (token-IsGrant (live_tokens user_id now tables k) live_client (no_consent n)) [
              | inl (q, z) ↦ inl (path ∙ (rw e q), no_consent n, z)
              | inr (g, q, x) ↦ inr (g, path ∙ (rw e q), x)
            ]
        | inr (c, i, t, e) ↦
            let (g, q, x) =
              consent-IsGrant (live_tokens user_id now tables k) c i
                ((text_eq_iff c.client_id k).0 t) in
            inr (g, path ∙ (rw e q), x)
      ]
