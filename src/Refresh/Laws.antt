-- ===== src/Refresh/Laws.antt =====
-- Which refresh tokens the sweep revokes: apps/web/src/server/oidc/refresh-lifetime.ts.
use semantius_idp.Prelude.{
  Bool-cases, In, In-keep_iff, In-map, In-of_map, List, Option-cases, Text, [], ap, false,
  false_of_ne_true, has_text, if◌then◌else◌, inl, inr, keep, map, none, refl, some, subst, sym,
  text_eq, text_eq_iff, text_eq_refl, true, ℕ, ◌<◌, ◌↔◌, ◌∙◌, ◌∷◌, ◌≡◌, ◌≤◌, ◌⊎◌, arith,
}
use semantius_idp.Refresh.{
  Token, cutoff_of, is_old, family_ids, is_hit, revoke, revoke_families,
  revoke_expired_refresh_families,
}

-- The token is not revoked, and one of its family's that is not revoked was made before the cutoff.
abbrev pub IsOverAge : ℕ → List Token → Token → Type 0
IsOverAge cutoff tokens t =
    (t.revoked ≡ none)
    × ((f : Text) × (first : Token) × In first tokens
        × (t.family ≡ some f)
        × (first.family ≡ some f)
        × (first.revoked ≡ none)
        × (first.created_at < cutoff))

has_family_iff :
    (ts : List Token) (f : Text)
    → (has_text (family_ids ts) f ≡ true) ↔ ((t : Token) × In t ts × (t.family ≡ some f))
unfolding family_ids has_text
has_family_iff ts f = (to ts, λ (t, i, e). from ts t i e)
  where
    to :
        (ts : List Token)
        → has_text (family_ids ts) f ≡ true
        → (t : Token) × In t ts × (t.family ≡ some f)
    to [] h = cc
    to (t ∷ ts) h = elim (Option-cases t.family) [
      | inl e ↦ let (u, i, q) = to ts (rw (e, family_ids) at h) in (u, inr i, q)
      | inr (g, e) ↦ elim (Bool-cases (text_eq g f)) [
        | inl same ↦ (t, inl refl, e ∙ ap some ((text_eq_iff g f).0 same))
        | inr other ↦ let (u, i, q) = to ts (rw (e, family_ids, other) at h) in (u, inr i, q)
      ]
    ]

    from :
        (ts : List Token) (t : Token)
        → In t ts
        → t.family ≡ some f
        → has_text (family_ids ts) f ≡ true
    from [] t i e = absurd i
    from (u ∷ ts) t (inl q) e = rw (ap (λ x. x.family) q ∙ e) (ground (arith, text_eq_refl f))
    from (u ∷ ts) t (inr i) e = elim (Option-cases u.family) [
      | inl n ↦ rw (n) (from ts t i e)
      | inr (g, n) ↦ rw (n) (ground (arith, from ts t i e))
    ]

no_family : (t : Token) → is_hit [] t ≡ false
unfolding has_text
no_family t = ground arith

unhit :
    (now : ℕ) (tokens : List Token)
    → map (λ t. if is_hit [] t then revoke now t else t) tokens ≡ tokens
unhit now [] = refl
unhit now (t ∷ ts) = rw (no_family t) (ap (λ r. t ∷ r) (unhit now ts))

revoked-map :
    (now : ℕ) (ids : List Text) (tokens : List Token)
    → (revoke_families now ids tokens).0
      ≡ map (λ t. if is_hit ids t then revoke now t else t) tokens
unfolding revoke_families
revoked-map now [] tokens = sym (unhit now tokens)
revoked-map now (f ∷ fs) tokens = refl

module _ (now max_lifetime : ℕ) (tokens : List Token) where
  abbrev old_tokens : List Token
  old_tokens = keep (is_old (cutoff_of now max_lifetime)) tokens

  hit_iff :
      (t : Token)
      → (is_hit (family_ids old_tokens) t ≡ true) ↔ IsOverAge (cutoff_of now max_lifetime) tokens t
  hit_iff t = (to, from)
    where
      to : is_hit (family_ids old_tokens) t ≡ true → IsOverAge (cutoff_of now max_lifetime) tokens t
      to h = elim (Option-cases t.revoked) [
        | inr (r, e) ↦ absurd (ground (arith, e, h))
        | inl e ↦ elim (Option-cases t.family) [
          | inl n ↦ absurd (ground (arith, e, rw (e, n) at h))
          | inr (f, n) ↦
              let (first, i, q) = (has_family_iff old_tokens f).0 (rw (e, n) at h) in
              let (j, o) = (In-keep_iff (is_old (cutoff_of now max_lifetime)) first tokens).0 i in
              (e, (f, first, j, n, q, live_of first o, ground (arith, o)))
        ]
      ]
        where
          live_of : (x : Token) → is_old (cutoff_of now max_lifetime) x ≡ true → x.revoked ≡ none
          live_of x o = elim (Option-cases x.revoked) [
            | inl e ↦ e
            | inr (r, e) ↦ absurd (ground (arith, e, o))
          ]

      from :
          IsOverAge (cutoff_of now max_lifetime) tokens t → is_hit (family_ids old_tokens) t ≡ true
      from (e, found) =
          let (f, first, j, n, q, r, l) = found in
          rw (e, n)
            ((has_family_iff old_tokens f).1 (
              first,
              (In-keep_iff (is_old (cutoff_of now max_lifetime)) first tokens).1
                  (j, rw (r) (ground (arith, l))),
              q,
            ))

  abbrev swept : List Token
  swept = (revoke_expired_refresh_families now max_lifetime tokens).0

  abbrev after : Token → Token
  after t = if is_hit (family_ids old_tokens) t then revoke now t else t

  swept-map : swept ≡ map after tokens
  unfolding revoke_expired_refresh_families
  swept-map = revoked-map now (family_ids old_tokens) tokens

  abbrev pub IsSweptFrom : Token → Type 0
  IsSweptFrom x =
      (t : Token) × In t tokens
      × ((IsOverAge (cutoff_of now max_lifetime) tokens t × (x ≡ revoke now t))
          ⊎ ((¬ IsOverAge (cutoff_of now max_lifetime) tokens t) × (x ≡ t)))

  sweep_iff :
      (x : Token) → In x (revoke_expired_refresh_families now max_lifetime tokens).0 ↔ IsSweptFrom x
  sweep_iff x = (to, from)
    where
      choose :
          (t : Token)
          → after t ≡ x
          → (IsOverAge (cutoff_of now max_lifetime) tokens t × (x ≡ revoke now t))
            ⊎ ((¬ IsOverAge (cutoff_of now max_lifetime) tokens t) × (x ≡ t))
      choose t e = elim (Bool-cases (is_hit (family_ids old_tokens) t)) [
        | inl h ↦ inl ((hit_iff t).0 h, sym (rw h at e))
        | inr h ↦ inr (λ o. cc (h, (hit_iff t).1 o), sym (rw h at e))
      ]

      chosen :
          (t : Token)
          → (IsOverAge (cutoff_of now max_lifetime) tokens t × (x ≡ revoke now t))
            ⊎ ((¬ IsOverAge (cutoff_of now max_lifetime) tokens t) × (x ≡ t))
          → after t ≡ x
      chosen t (inl (o, e)) = rw ((hit_iff t).1 o) (sym e)
      chosen t (inr (n, e)) = rw (false_of_ne_true _ (λ h. n ((hit_iff t).0 h))) (sym e)

      to : In x swept → IsSweptFrom x
      to i =
          let (t, j, e) = In-of_map after x tokens (subst (In x) swept-map i) in (t, j, choose t e)

      from : IsSweptFrom x → In x swept
      from (t, j, c) =
          subst (In x) (sym swept-map)
            (subst (λ y. In y (map after tokens)) (chosen t c) (In-map after t tokens j))

  -- No token of the family is both unrevoked and older than the cutoff.
  abbrev pub IsYoungFamily : Text → Type 0
  IsYoungFamily family =
      (other : Token)
      → In other tokens
      → other.family ≡ some family
      → other.revoked ≡ none
      → cutoff_of now max_lifetime ≤ other.created_at

  young_kept :
      (family : Text) (t : Token)
      → In t tokens
      → t.family ≡ some family
      → IsYoungFamily family
      → In t (revoke_expired_refresh_families now max_lifetime tokens).0
  young_kept family t i e young = (sweep_iff t).1 (
    t,
    i,
    inr (
      λ (live, (f, first, j, n, q, r, l)). omega (arith, l, young first j (q ∙ (sym n ∙ e)) r),
      refl,
    ),
  )

  -- The table after the sweep holds each token of the table before, and nothing else: revoked now if
  -- it is not revoked and one of its family that is not revoked either is older than the lifetime, and
  -- as it was otherwise. A family of which only revoked tokens are older than the lifetime, its origin
  -- say, therefore stays as it was, with the tokens that are still good.
  pub swept_iff :
      ((x : Token)
        → In x (revoke_expired_refresh_families now max_lifetime tokens).0 ↔ IsSweptFrom x)
      × ((family : Text) (t : Token)
          → In t tokens
          → t.family ≡ some family
          → IsYoungFamily family
          → In t (revoke_expired_refresh_families now max_lifetime tokens).0)
  swept_iff = (sweep_iff, young_kept)

  -- After the sweep no token that is not revoked is of a family with an older one that is not revoked
  -- either: a second sweep at the same cutoff finds nothing.
  pub swept_clean :
      (t : Token)
      → In t (revoke_expired_refresh_families now max_lifetime tokens).0
      → ¬ IsOverAge
          (cutoff_of now max_lifetime)
          (revoke_expired_refresh_families now max_lifetime tokens).0
          t
  swept_clean t i (live, (f, first, j, n, q, r, l)) =
      let (x, a, c) = (sweep_iff t).0 i in
      let (y, b, d) = (sweep_iff first).0 j in
      elim c [
        | inl (o, e) ↦ cc (ap (λ k. k.revoked) e)
        | inr (fresh, e) ↦ elim d [
          | inl (o, g) ↦ cc (r, ap (λ k. k.revoked) g)
          | inr (old, g) ↦ fresh (
            ap (λ k. k.revoked) (sym e) ∙ live,
            (
              f,
              y,
              b,
              ap (λ k. k.family) (sym e) ∙ n,
              ap (λ k. k.family) (sym g) ∙ q,
              ap (λ k. k.revoked) (sym g) ∙ r,
              ground (arith, l, ap (λ k. k.created_at) g),
            ),
          )
        ]
      ]
