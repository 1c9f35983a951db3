-- ===== src/Keys/Laws.antt =====
-- Which key signs before and after a rotation: apps/web/src/server/oidc/rotate-keys.ts.
use semantius_idp.Prelude.{
  In-map, In-of_map, ℕ, Text, Option, Bool, map, ltb, ◌∷◌, ◌≤◌, ◌<◌, text_eq, text_eq_iff,
  text_eq_refl, keep, In, In-keep_iff, true, false, some, List, ◌≡◌, ◌↔◌, ◌⊎◌, inl, inr, refl, ap,
  sym, subst, ◌∙◌, arith, Bool-cases, Option-cases,
}
use semantius_idp.Keys.{
  Key, is_live, newest, effective_at, date_at, insert, backdated, backdate, perform_rotation,
}
use semantius_idp.Keys.Table.{
  Signs, AreUniqueIds, oldest_le, In-newest, update, retire-map, live_later, map-set_date,
}

module _ (fits : Option Text → Bool) (now seconds : ℕ) (created : Key) (keys : List Key)
    (unique : AreUniqueIds keys) (fresh : (k : Key) → In k keys → ¬ (k.id ≡ created.id)) where
  abbrev live : List Key
  live = keep (is_live now) keys

  abbrev pub dated : List Key
  dated = backdate now live created.id (insert created keys)

  abbrev rotated : List Key
  rotated = perform_rotation now seconds created keys

  abbrev pub successor : Key
  successor = date_at (backdated now live) created

  abbrev pub updated : Key → Key
  updated = update (effective_at now seconds) (newest live)

  newest-In : (r : Key) → newest live ≡ some r → In r keys
  newest-In r e = ((In-keep_iff (is_live now) r keys).0 (In-newest live r e)).0

  -- Before the time at which the rotation takes effect, no key's life is changed.
  updated-live :
      (at : ℕ) (k : Key)
      → In k keys
      → at < effective_at now seconds
      → is_live at (updated k) ≡ is_live at k
  updated-live at k i l = elim (Option-cases (newest live)) [
    | inl e ↦ rw (e) refl
    | inr (r, e) ↦ elim (Bool-cases (text_eq k.id r.id)) [
      | inl same ↦
          let q = unique k r i (newest-In r e) ((text_eq_iff k.id r.id).0 same) in
          rw (e) (ground (arith, l, same, ap (λ y. y.expires_at) q))
      | inr other ↦ rw (e) (ground (arith, other))
    ]
  ]

  updated-created : (k : Key) → (updated k).created_at ≡ k.created_at
  updated-created k = elim (Option-cases (newest live)) [
    | inl e ↦ rw (e) refl
    | inr (r, e) ↦ rw (e) (ground arith)
  ]

  updated-alg : (k : Key) → (updated k).alg ≡ k.alg
  updated-alg k = elim (Option-cases (newest live)) [
    | inl e ↦ rw (e) refl
    | inr (r, e) ↦ rw (e) (ground arith)
  ]

  dated_lem : dated ≡ successor ∷ keys
  unfolding backdate
  dated_lem =
      rw (text_eq_refl created.id)
        (ap (λ ks. successor ∷ ks) (map-set_date (backdated now live) created.id keys fresh))

  -- The successor is not the key that retires.
  updated-successor : updated successor ≡ successor
  updated-successor = elim (Option-cases (newest live)) [
    | inl e ↦ rw (e) refl
    | inr (r, e) ↦ elim (Bool-cases (text_eq created.id r.id)) [
      | inl same ↦ absurd (fresh r (newest-In r e) (sym ((text_eq_iff created.id r.id).0 same)))
      | inr other ↦ rw (e) (ground (arith, other))
    ]
  ]

  rotated_lem : rotated ≡ successor ∷ map updated keys
  unfolding perform_rotation
  rotated_lem =
      retire-map (effective_at now seconds) (newest live) dated
      ∙ ap (map updated) dated_lem
      ∙ ap (λ k. k ∷ map updated keys) updated-successor

  In-rotated : (k : Key) → In k keys → In (updated k) rotated
  In-rotated k i = subst (In (updated k)) (sym rotated_lem) (inr (In-map updated k keys i))

  In-of_rotated :
      (k : Key) → In k rotated → (successor ≡ k) ⊎ ((old : Key) × In old keys × (updated old ≡ k))
  In-of_rotated k i = elim (subst (In k) rotated_lem i) [
    | inl e ↦ inl e
    | inr j ↦ inr (In-of_map updated k keys j)
  ]

  -- The successor is behind every live key.
  successor_lt :
      (k : Key)
      → In k keys
      → is_live now k ≡ true
      → 1000 ≤ k.created_at
      → successor.created_at < k.created_at
  unfolding backdated
  successor_lt k i h t =
      let (o, e, l) = oldest_le live k ((In-keep_iff (is_live now) k keys).1 (i, h)) in
      rw (e) (omega (arith, l, t))

  -- A key that signs has the successor behind it.
  signer_lt :
      (at : ℕ) (k : Key)
      → now ≤ at
      → 1000 ≤ k.created_at
      → Signs fits at keys k
      → successor.created_at < k.created_at
  signer_lt at k n t (i, h, f, top) = successor_lt k i (live_later now at k n h) t

  -- Between the insertion and the backdating
  Signs-insert :
      (at : ℕ) (k : Key)
      → Signs fits at keys k
      → is_live at created ≡ true
      → fits created.alg ≡ true
      → k.created_at ≤ created.created_at
      → Signs fits at (insert created keys) created
  Signs-insert at k (i, h, f, top) a c l = (
    inl refl,
    a,
    c,
    λ other j b g. elim j [
      | inl e ↦ omega (arith, ap (λ y. y.created_at) e)
      | inr o ↦ omega (arith, l, top other o b g)
    ],
  )

  -- After the backdating
  dated-Signs :
      (at : ℕ) (k : Key)
      → Signs fits at keys k
      → successor.created_at < k.created_at
      → Signs fits at dated k × (¬ Signs fits at dated successor)
  dated-Signs at k (i, h, f, top) first = (
    (
      subst (In k) (sym dated_lem) (inr i),
      h,
      f,
      λ other j b g. elim (subst (In other) dated_lem j) [
        | inl e ↦ omega (arith, first, ap (λ y. y.created_at) e)
        | inr o ↦ top other o b g
      ],
    ),
    λ (j, a, c, m).
        let below = m k (subst (In k) (sym dated_lem) (inr i)) h f in
        absurd (omega (arith, below, first)),
  )

  -- After the update of the key that retires
  rotated-Signs :
      (at : ℕ) (k : Key)
      → at < effective_at now seconds
      → Signs fits at keys k
      → successor.created_at < k.created_at
      → Signs fits at rotated (updated k) × (¬ Signs fits at rotated successor)
  rotated-Signs at k l (i, h, f, top) first =
      let alive = updated-live at k i l ∙ h in
      let good = ap fits (updated-alg k) ∙ f in
      (
        (
          In-rotated k i,
          alive,
          good,
          λ other j a g. elim (In-of_rotated other j) [
            | inl e ↦ omega (arith, first, updated-created k, ap (λ y. y.created_at) e)
            | inr (old, o, e) ↦ omega (
              arith,
              ap (λ y. y.created_at) e,
              updated-created old,
              updated-created k,
              top old o (sym (updated-live at old o l) ∙ (ap (is_live at) e ∙ a))
                  (ap fits (sym (updated-alg old)) ∙ (ap (λ y. fits y.alg) e ∙ g)),
            )
          ],
        ),
        λ (j, a, c, m).
            let below = m (updated k) (In-rotated k i) alive good in
            absurd (omega (arith, below, first, updated-created k)),
      )

  -- With keys of different ids, and a new one's: until the rotation takes effect, a key made a second
  -- or more after the epoch that signs before the rotation goes on signing, and the successor, which is
  -- published, does not, both after the backdating and after the last of the three writes. Between the
  -- first write and the backdating, however, the new key signs if it lives, is of the configured
  -- algorithm and is no older than the key that signed.
  pub signer_kept :
      (at : ℕ) (k : Key)
      → now ≤ at
      → at < effective_at now seconds
      → 1000 ≤ k.created_at
      → Signs fits at keys k
      → Signs fits at dated k
        × (¬ Signs fits at dated successor)
        × Signs fits at rotated (updated k)
        × (¬ Signs fits at rotated successor)
        × (is_live at created ≡ true
            → fits created.alg ≡ true
            → k.created_at ≤ created.created_at
            → Signs fits at (insert created keys) created)
  signer_kept at k n l t signs =
      let first = signer_lt at k n t signs in
      let (kept, behind) = dated-Signs at k signs first in
      let (still, waiting) = rotated-Signs at k l signs first in
      (kept, behind, still, waiting, Signs-insert at k signs)

  -- A key that outlives the rotation is still there, unless it is the one that retires.
  outlives :
      (at : ℕ) (k : Key)
      → In k keys
      → effective_at now seconds ≤ at
      → is_live at k ≡ true
      → (newest live ≡ some k) ⊎ (is_live at (updated k) ≡ true)
  outlives at k i l h = elim (Option-cases (newest live)) [
    | inl e ↦ inr (rw (e) h)
    | inr (r, e) ↦ elim (Bool-cases (text_eq k.id r.id)) [
      | inl same ↦
          inl (e ∙ ap some (sym (unique k r i (newest-In r e) ((text_eq_iff k.id r.id).0 same))))
      | inr other ↦ inr (rw (e) (ground (arith, other, h)))
    ]
  ]

  retired-dead :
      (at : ℕ) (r : Key)
      → newest live ≡ some r
      → effective_at now seconds ≤ at
      → is_live at (updated r) ≡ false
  retired-dead at r e l = elim (Option-cases r.expires_at) [
    | inl n ↦ rw (e, n) (ground (arith, text_eq_refl r.id, l))
    | inr (t, n) ↦ rw (e, n) (ground (arith, text_eq_refl r.id, l, n))
  ]

  -- No update makes a key live again.
  updated-dead :
      (at : ℕ) (k : Key)
      → In k keys
      → effective_at now seconds ≤ at
      → is_live at k ≡ false
      → is_live at (updated k) ≡ false
  updated-dead at k i l h = elim (Option-cases (newest live)) [
    | inl e ↦ rw (e) h
    | inr (r, e) ↦ elim (Bool-cases (text_eq k.id r.id)) [
      | inl same ↦
          let q = unique k r i (newest-In r e) ((text_eq_iff k.id r.id).0 same) in
          ap (λ y. is_live at (updated y)) q ∙ retired-dead at r e l
      | inr other ↦ rw (e) (ground (arith, other, h))
    ]
  ]

  -- What lives after the rotation has lived without it.
  lived : (at : ℕ) (k : Key) → In k keys → is_live at (updated k) ≡ true → is_live at k ≡ true
  lived at k i a = elim (Bool-cases (is_live at k)) [
    | inl h ↦ h
    | inr h ↦ elim (Bool-cases (ltb at (effective_at now seconds))) [
      | inl l ↦ cc (a, h, updated-live at k i (ground (arith, l)))
      | inr l ↦ cc (a, updated-dead at k i (ground (arith, l)) h)
    ]
  ]

  -- The successor signs only where no other key of the algorithm is in the way.
  yields :
      (at : ℕ) (k : Key)
      → now ≤ at
      → 1000 ≤ k.created_at
      → In k keys
      → is_live at k ≡ true
      → fits k.alg ≡ true
      → Signs fits at rotated successor
      → ¬ (is_live at (updated k) ≡ true)
  yields at k n t i h f (j, a, c, top) alive =
      let below = top (updated k) (In-rotated k i) alive (ap fits (updated-alg k) ∙ f) in
      absurd (omega (arith, below, updated-created k, successor_lt k i (live_later now at k n h) t))

  -- With keys of different ids, made a second or more after the epoch, and a new one's that is of the
  -- configured algorithm: at any time from the rotation on at which it lives, the successor signs
  -- exactly when each other key of the algorithm that is alive by its old deadline is the one that was
  -- retired, and the rotation has taken effect. So it signs at once where no key of the algorithm is
  -- alive, as after a change of the algorithm.
  pub takeover_iff :
      (at : ℕ)
      → now ≤ at
      → ((k : Key) → In k keys → 1000 ≤ k.created_at)
      → is_live at created ≡ true
      → fits created.alg ≡ true
      → Signs fits at rotated successor ↔ (
          (k : Key)
          → In k keys
          → is_live at k ≡ true
          → fits k.alg ≡ true
          → (effective_at now seconds ≤ at) × (newest live ≡ some k))
  takeover_iff at n t c g = (to, from)
    where
      to :
          Signs fits at rotated successor
          → (k : Key) → In k keys
          → is_live at k ≡ true
          → fits k.alg ≡ true
          → (effective_at now seconds ≤ at) × (newest live ≡ some k)
      to signs k j h f =
          let dead = yields at k n (t k j) j h f signs in
          elim (Bool-cases (ltb at (effective_at now seconds))) [
            | inl l ↦ absurd (dead (updated-live at k j (ground (arith, l)) ∙ h))
            | inr l ↦ elim (outlives at k j (ground (arith, l)) h) [
              | inl e ↦ (ground (arith, l), e)
              | inr alive ↦ absurd (dead alive)
            ]
          ]

      from :
          ((k : Key)
            → In k keys
            → is_live at k ≡ true
            → fits k.alg ≡ true
            → (effective_at now seconds ≤ at) × (newest live ≡ some k))
          → Signs fits at rotated successor
      from only = (
        subst (In successor) (sym rotated_lem) (inl refl),
        c,
        g,
        λ other j a f. elim (In-of_rotated other j) [
          | inl e ↦ omega (arith, ap (λ y. y.created_at) e)
          | inr (old, o, e) ↦
              let alive : is_live at (updated old) ≡ true = ap (is_live at) e ∙ a in
              let (l, r) =
                only old o (lived at old o alive)
                  (ap fits (sym (updated-alg old)) ∙ (ap (λ y. fits y.alg) e ∙ f)) in
              cc (alive, retired-dead at old r l)
        ],
      )
