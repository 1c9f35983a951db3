-- ===== src/Keys/Table.antt =====
-- The table of keys and the newest live one: apps/web/src/server/oidc/rotate-keys.ts.
use semantius_idp.Prelude.{
  ℕ, ◌≤◌, leb, Text, text_eq, text_eq_iff, Bool, In, map, true, Option, none, some, some_inj,
  if◌then◌else◌, List, [], ◌∷◌, ◌≡◌, inl, inr, refl, ap, sym, ◌∙◌, arith, Bool-cases, Option-cases,
}
use semantius_idp.Keys.{Key, is_live, oldest, newest, lasts, set_expiry, set_date, retire}

-- The documented choice of the signing key: the newest of the live ones of the configured algorithm.
-- `fits` is how the provider compares the `alg` of a key with the configured one.
abbrev pub Signs : (Option Text → Bool) → ℕ → List Key → Key → Type 0
Signs fits at keys k =
    In k keys
    × (is_live at k ≡ true)
    × (fits k.alg ≡ true)
    × ((other : Key)
        → In other keys
        → is_live at other ≡ true
        → fits other.alg ≡ true
        → other.created_at ≤ k.created_at)

abbrev pub AreUniqueIds : List Key → Type 0
AreUniqueIds keys = (x y : Key) → In x keys → In y keys → x.id ≡ y.id → x ≡ y

pub oldest_le :
    (ks : List Key) (k : Key)
    → In k ks
    → (o : Key) × (oldest ks ≡ some o) × (o.created_at ≤ k.created_at)
unfolding oldest
oldest_le [] k i = absurd i
oldest_le (x ∷ ks) k (inl e) = elim (Option-cases (oldest ks)) [
  | inl n ↦ (x, rw n refl, ground (arith, ap (λ y. y.created_at) e))
  | inr (o, n) ↦ (
    if leb x.created_at o.created_at then x else o,
    rw n refl,
    ground (arith, ap (λ y. y.created_at) e),
  )
]
oldest_le (x ∷ ks) k (inr i) =
    let (o, n, l) = oldest_le ks k i in
    (if leb x.created_at o.created_at then x else o, rw n refl, ground (arith, l))

pub In-newest : (ks : List Key) (k : Key) → newest ks ≡ some k → In k ks
unfolding newest
In-newest [] k e = cc
In-newest (x ∷ ks) k e = elim (Option-cases (newest ks)) [
  | inl n ↦ inl (some_inj (rw (n, newest) at e))
  | inr (o, n) ↦ elim (Bool-cases (leb x.created_at o.created_at)) [
    | inl h ↦ inr (In-newest ks k (n ∙ rw (n, newest, h) at e))
    | inr h ↦ inl (some_inj (rw (n, newest, h) at e))
  ]
]

-- What the update makes of one key
abbrev pub update : ℕ → Option Key → Key → Key
update effective none k = k
update effective (some r) k =
    if lasts effective r.expires_at then set_expiry effective r.id k else k

pub map_same : {A : Type 0} (f : A → A) (xs : List A) → ((a : A) → f a ≡ a) → map f xs ≡ xs
map_same f [] h = refl
map_same f (x ∷ xs) h = cc (h x, map_same f xs h)

pub map_ext : {A : Type 0} (f g : A → A) (xs : List A) → ((a : A) → f a ≡ g a) → map f xs ≡ map g xs
map_ext f g [] h = refl
map_ext f g (x ∷ xs) h = cc (h x, map_ext f g xs h)

pub retire-map :
    (effective : ℕ) (r : Option Key) (keys : List Key)
    → retire effective r keys ≡ map (update effective r) keys
unfolding retire
retire-map effective none keys = sym (map_same (λ k. k) keys (λ k. refl))
retire-map effective (some r) keys = elim (Bool-cases (lasts effective r.expires_at)) [
  | inl h ↦ rw (h) (
      map_ext (λ k. set_expiry effective r.id k) (update effective (some r)) keys
        (λ k. rw (h) refl))
  | inr h ↦ rw (h) (sym (map_same (update effective (some r)) keys (λ k. rw (h) refl)))
]

pub live_later :
    (at later : ℕ) (k : Key) → at ≤ later → is_live later k ≡ true → is_live at k ≡ true
live_later at later k l h = elim (Option-cases k.expires_at) [
  | inl e ↦ rw (e) refl
  | inr (t, e) ↦ ground (arith, l, e, h)
]

-- The update of a key by its id leaves a table without the id as it is.
pub map-set_date :
    (time : ℕ) (id : Text) (keys : List Key)
    → ((k : Key) → In k keys → ¬ (k.id ≡ id))
    → map (λ k. set_date time id k) keys ≡ keys
map-set_date time id [] fresh = refl
map-set_date time id (k ∷ ks) fresh =
    cc (unnamed time id k (fresh k (inl refl)), map-set_date time id ks (λ j i. fresh j (inr i)))
  where
    unnamed : (time : ℕ) (id : Text) (k : Key) → ¬ (k.id ≡ id) → set_date time id k ≡ k
    unnamed time id k other = elim (Bool-cases (text_eq k.id id)) [
      | inl e ↦ absurd (other ((text_eq_iff k.id id).0 e))
      | inr e ↦ rw e refl
    ]
