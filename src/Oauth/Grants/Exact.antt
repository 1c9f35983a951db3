-- ===== src/Oauth/Grants/Exact.antt =====
-- `activeGrantsFor` against the tables, and after a revocation: apps/web/src/server/oidc/grants.ts and
-- revoke-user-tokens.ts.
use semantius_idp.Prelude.{
  All-of_In, Dict, In, In-find, In-keep_iff, In-map, In-of_find, In-of_map, IsUnique, IsUnique-put,
  List, Option, Option-cases, Text, [], ap, false, find, inl, inr, keep, length, map, refl,
  some_inj, subst, sym, ℕ, ◌∙◌, ◌∷◌, ◌≡◌, ◌≢◌, ◌⊎◌, arith,
}
use semantius_idp.Oauth.{RefreshToken, Consent, Tables}
use semantius_idp.Oauth.Revoke.{Store, revoke, revoke_all_for_user, user_refresh}
use semantius_idp.Oauth.Revoke.Laws.{revoke_all-IsCut}
use semantius_idp.Oauth.Grants.{
  ActiveGrant, is_live_token, is_users_consent, add_consents, add_tokens, grants_of,
  active_grants_for,
}
use semantius_idp.Oauth.Grants.Laws.{is_client}
use semantius_idp.Oauth.Grants.Sorted.{
  IsLatestFirst, AreDistinct, In-sort, sort-IsLatestFirst, sort-AreDistinct,
}
use semantius_idp.Oauth.Grants.Listed.{live_tokens, HasConsent, IsGrant, find-IsGrant}

module _ (name_of : Text → Option Text) where
  add_consents-IsUnique :
      (rows : List Consent) (m : Dict ActiveGrant)
      → IsUnique m
      → IsUnique (add_consents name_of rows m)
  unfolding add_consents
  add_consents-IsUnique [] m u = u
  add_consents-IsUnique (row ∷ rows) m u =
      add_consents-IsUnique rows _ (IsUnique-put row.client_id _ m u)

  add_tokens-IsUnique :
      (rows : List RefreshToken) (m : Dict ActiveGrant)
      → IsUnique m
      → IsUnique (add_tokens name_of rows m)
  unfolding add_tokens
  add_tokens-IsUnique [] m u = u
  add_tokens-IsUnique (row ∷ rows) m u =
      add_tokens-IsUnique rows _ (IsUnique-put row.client_id _ m u)

  grants-IsUnique :
      (user_id : Text) (now : ℕ) (tables : Tables) → IsUnique (grants_of name_of user_id now tables)
  unfolding grants_of
  grants-IsUnique user_id now tables =
      add_tokens-IsUnique _ _
        (add_consents-IsUnique (keep (is_users_consent user_id) tables.consents) [] tt)

-- The values of a dictionary whose entries stand under their clients are distinct.
values-AreDistinct :
    (m : Dict ActiveGrant)
    → IsUnique m
    → ((k : Text) (g : ActiveGrant) → In (k, g) m → g.client_id ≡ k)
    → AreDistinct (map (λ e. e.1) m)
values-AreDistinct [] u keyed = tt
values-AreDistinct ((k, g) ∷ m) (u, us) keyed = (
  All-of_In (λ h. h.client_id ≢ g.client_id) (map (λ e. e.1) m)
      (λ x i e.
        let ((j, y), at, same) = In-of_map (λ e. e.1) x m i in
        clash j y at
          (sym (keyed j y (inr at)) ∙ (ap (λ z. z.client_id) same ∙ (e ∙ keyed k g (inl refl))))),
  values-AreDistinct m us (λ j y i. keyed j y (inr i)),
)
  where
    clash : (j : Text) (y : ActiveGrant) → In (j, y) m → j ≡ k → ⊥
    clash j y at e = cc (u, ap (λ n. find n m) e, In-find j y m us at)

module _ (name_of : Text → Option Text) (user_id : Text) (now : ℕ) (tables : Tables) where
  abbrev found : Dict ActiveGrant
  found = grants_of name_of user_id now tables

  entry-IsGrant :
      (k : Text) (g : ActiveGrant)
      → In (k, g) found
      → IsGrant user_id tables (live_tokens user_id now tables k) k g
  entry-IsGrant k g i =
      let at = In-find k g found (grants-IsUnique name_of user_id now tables) i in
      elim (find-IsGrant name_of user_id now tables k) [
        | inl (e, n, z) ↦ cc (at, e)
        | inr (h, e, x) ↦
            subst (IsGrant user_id tables (live_tokens user_id now tables k) k)
              (some_inj (sym e ∙ at)) x
      ]

  listed-IsGrant :
      (g : ActiveGrant)
      → In g (active_grants_for name_of user_id now tables)
      → IsGrant user_id tables (live_tokens user_id now tables g.client_id) g.client_id g
  unfolding active_grants_for
  listed-IsGrant g i =
      let ((k, h), j, e) = In-of_map (λ x. x.1) g found ((In-sort g (map (λ x. x.1) found)).0 i) in
      let x =
        subst (IsGrant user_id tables (live_tokens user_id now tables k) k) e
          (entry-IsGrant k h j) in
      subst (λ n. IsGrant user_id tables (live_tokens user_id now tables n) n g) (sym x.client) x

  listed_of_held :
      (k : Text)
      → HasConsent user_id tables k ⊎ (live_tokens user_id now tables k ≢ [])
      → (g : ActiveGrant) × In g (active_grants_for name_of user_id now tables) × (g.client_id ≡ k)
  unfolding active_grants_for
  listed_of_held k held = elim (find-IsGrant name_of user_id now tables k) [
    | inl (e, n, z) ↦ absurd (elim held [ inl c ↦ n c | inr l ↦ l z ])
    | inr (g, e, x) ↦ (
      g,
      (In-sort g (map (λ y. y.1) found)).1
          (In-map (λ y. y.1) (k, g) found (In-of_find k g found e)),
      x.client,
    )
  ]

  -- The list of a user's applications holds one grant for each client that the user has consented to
  -- or that holds a live token of the user, and no other, the latest connection first; each has its
  -- client's live tokens counted; with a consent it has that consent's scopes and date, and without one
  -- the scopes of its live tokens, and no later date than any of them.
  pub grants_exact :
      ((g : ActiveGrant)
        → In g (active_grants_for name_of user_id now tables)
        → IsGrant user_id tables (live_tokens user_id now tables g.client_id) g.client_id g)
      × ((k : Text)
          → HasConsent user_id tables k ⊎ (live_tokens user_id now tables k ≢ [])
          → (g : ActiveGrant) × In g (active_grants_for name_of user_id now tables)
            × (g.client_id ≡ k))
      × IsLatestFirst (active_grants_for name_of user_id now tables)
      × AreDistinct (active_grants_for name_of user_id now tables)
  unfolding active_grants_for
  grants_exact = (
    listed-IsGrant,
    listed_of_held,
    sort-IsLatestFirst (map (λ e. e.1) found),
    sort-AreDistinct (map (λ e. e.1) found) (
        values-AreDistinct found (grants-IsUnique name_of user_id now tables)
          (λ k g i. (entry-IsGrant k g i).client)),
  )

empty_of_none : {A : Type 0} (xs : List A) → ((a : A) → ¬ In a xs) → xs ≡ []
empty_of_none [] n = refl
empty_of_none (x ∷ xs) n = absurd (n x (inl refl))

module _ (name_of : Text → Option Text) (user_id reason : Text) (now later : ℕ)
    (store : Store) where
  revoked_live :
      (k : Text)
      → live_tokens user_id later (revoke_all_for_user now user_id reason store).0.tables k ≡ []
  unfolding is_live_token
  revoked_live k = empty_of_none _ dead
    where
      dead :
          (t : RefreshToken)
          → ¬ In t
              (live_tokens user_id later (revoke_all_for_user now user_id reason store).0.tables k)
      dead t i =
          let (j, c) = (In-keep_iff (is_client k) t _).0 i in
          let (m, l) = (In-keep_iff (is_live_token user_id later) t _).0 j in
          elim (Option-cases t.revoked) [
            | inl e ↦
                let cut : user_refresh user_id t ≡ false =
                  (((revoke_all-IsCut now user_id reason store).refresh t e).0 m).1 in
                absurd (ground (arith, l, cut))
            | inr (r, e) ↦ absurd (ground (arith, e, l))
          ]

  -- Once all of a user's tokens are revoked, whenever the list is read, no application of the user has
  -- a live token, and those that remain are the ones that the user has consented to.
  pub grants_after_revocation :
      (g : ActiveGrant)
      → In g (
          active_grants_for name_of user_id later
            (revoke_all_for_user now user_id reason store).0.tables)
      → (g.active_tokens ≡ 0) × HasConsent user_id store.tables g.client_id
  unfolding revoke_all_for_user
  grants_after_revocation g i =
      let x =
        listed-IsGrant name_of user_id later (revoke_all_for_user now user_id reason store).0.tables
          g i in
      (
        x.active ∙ ap length (revoked_live g.client_id),
        elim x.held [
          | inl c ↦ unfold revoke in x.consent.0 c
          | inr n ↦ absurd (n (revoked_live g.client_id))
        ],
      )
