-- ===== src/Prelude/Dicts.antt =====
-- Dictionaries with text keys in insertion order, as `Map` keeps them: a write to a key that is
-- there keeps its place.
use Prim.Native.Nat.{suc, ◌≤◌}
use mathlib.Core.Path.{◌≡◌, refl, ap, sym, subst}
use mathlib.Core.Logic.{◌⊎◌, inl, inr}
use mathlib.Core.Bool.{Bool, true, false, not, ◌&&◌}
use mathlib.Core.Option.{Option, none, some}
use mathlib.Core.List.{List, [], ◌∷◌, ◌++◌, map}
use native.Mathlib.Omega.{arith}
use semantius_idp.Prelude.Tests.{if◌then◌else◌, Bool-cases, or_option}
use semantius_idp.Prelude.Lists.{In, length, keep}
use semantius_idp.Prelude.Texts.{Text, has_text, text_eq, text_eq_iff, text_eq_refl}

abbrev pub Dict : Type 0 → Type 0
Dict V = List (Text × V)

module _ {V : Type 0} where
  -- `m.get(k)`
  unfoldable pub find : Text → Dict V → Option V
  find k [] = none
  find k ((j, v) ∷ m) = if text_eq j k then some v else find k m

  -- `m.set(k, v)`
  unfoldable pub put : Text → V → Dict V → Dict V
  put k v [] = (k, v) ∷ []
  put k v ((j, w) ∷ m) = if text_eq j k then (j, v) ∷ m else (j, w) ∷ put k v m

  -- `m.delete(k)`
  unfoldable pub remove : Text → Dict V → Dict V
  remove k m = keep (λ e. not (text_eq e.0 k)) m

  pub find-put :
      (k j : Text) (v : V) (m : Dict V)
      → find j (put k v m) ≡ (if text_eq k j then some v else find j m)
  unfolding find put
  find-put k j v [] = refl
  find-put k j v ((i, w) ∷ m) =
      ground (arith, text_eq_iff k j, text_eq_iff i k, text_eq_iff i j, find-put k j v m)

  pub find-remove :
      (k j : Text) (m : Dict V) → find j (remove k m) ≡ (if text_eq k j then none else find j m)
  unfolding find remove
  find-remove k j [] = ground arith
  find-remove k j ((i, w) ∷ m) =
      ground (arith, text_eq_iff k j, text_eq_iff i k, text_eq_iff i j, find-remove k j m)

  pub find-keep :
      (p : Text → Bool) (k : Text) (m : Dict V)
      → find k (keep (λ e. p e.0) m) ≡ (if p k then find k m else none)
  unfolding find
  find-keep p k [] = ground arith
  find-keep p k ((j, w) ∷ m) = elim (Bool-cases (text_eq j k)) [
    | inl h ↦ elim (Bool-cases (p k)) [
      | inl y ↦ rw (ap p ((text_eq_iff j k).0 h), y, find, h) refl
      | inr n ↦ rw (ap p ((text_eq_iff j k).0 h), n, find-keep p k m, n) refl
    ]
    | inr h ↦ ground (arith, find-keep p k m)
  ]

  pub find-append : (k : Text) (m n : Dict V) → find k (m ++ n) ≡ or_option (find k m) (find k n)
  unfolding find
  find-append k [] n = refl
  find-append k ((j, w) ∷ m) n = ground (arith, find-append k m n)

  pub In-of_find : (k : Text) (v : V) (m : Dict V) → find k m ≡ some v → In (k, v) m
  unfolding find
  In-of_find k v [] e = cc
  In-of_find k v ((j, w) ∷ m) e = elim (Bool-cases (text_eq j k)) [
    | inl h ↦ inl (cc ((text_eq_iff j k).0 h, rw h at e))
    | inr h ↦ inr (In-of_find k v m (rw h at e))
  ]

  pub In-put :
      (k : Text) (v : V) (m : Dict V) (e : Text × V) → In e (put k v m) → (e ≡ (k, v)) ⊎ In e m
  unfolding put
  In-put k v [] e (inl p) = inl (cc p)
  In-put k v [] e (inr m) = absurd m
  In-put k v ((j, w) ∷ m) e i = elim (Bool-cases (text_eq j k)) [
    | inl h ↦ elim (rw h at i) [ inl p ↦ inl (cc (p, (text_eq_iff j k).0 h)) | inr q ↦ inr (inr q) ]
    | inr h ↦ elim (rw h at i) [
      | inl p ↦ inr (inl p)
      | inr q ↦ elim (In-put k v m e q) [ inl p ↦ inl p | inr r ↦ inr (inr r) ]
    ]
  ]

  pub length-put-le : (k : Text) (v : V) (m : Dict V) → length (put k v m) ≤ suc (length m)
  unfolding put
  length-put-le k v [] = omega arith
  length-put-le k v ((j, w) ∷ m) = ground (arith, length-put-le k v m)

module _ {A : Type 0} where
  pub length-keep-le : (p : A → Bool) (xs : List A) → length (keep p xs) ≤ length xs
  length-keep-le p [] = omega arith
  length-keep-le p (x ∷ xs) = ground (arith, length-keep-le p xs)

pub text_eq-cases : (s t : Text) → (s ≡ t) ⊎ (text_eq s t ≡ false)
text_eq-cases s t = elim (Bool-cases (text_eq s t)) [
  | inl h ↦ inl ((text_eq_iff s t).0 h)
  | inr h ↦ inr h
]

-- No name twice, as a unique index or the keys of an object give it
abbrev pub IsUnique : {V : Type 0} → Dict V → Type 0
IsUnique [] = Unit
IsUnique ((k, v) ∷ m) = (find k m ≡ none) × IsUnique m

-- The keys are different, as a computation finds it.
abbrev pub are_distinct : List Text → Bool
are_distinct [] = true
are_distinct (k ∷ ks) = let rest = are_distinct ks in not (has_text ks k) && rest

find-lacking :
    {V : Type 0} (k : Text) (m : Dict V) → has_text (map (λ e. e.0) m) k ≡ false → find k m ≡ none
unfolding find has_text
find-lacking k [] h = refl
find-lacking k ((j, v) ∷ m) h = ground (arith, h, find-lacking k m)

pub IsUnique-of_distinct :
    {V : Type 0} (m : Dict V) → are_distinct (map (λ e. e.0) m) ≡ true → IsUnique m
IsUnique-of_distinct [] h = tt
IsUnique-of_distinct ((k, v) ∷ m) h =
    (find-lacking k m (ground (arith, h)), IsUnique-of_distinct m (ground (arith, h)))

pub IsUnique-put : {V : Type 0} (k : Text) (v : V) (m : Dict V) → IsUnique m → IsUnique (put k v m)
unfolding put
IsUnique-put k v [] u = (unfold find in refl, tt)
IsUnique-put k v ((j, w) ∷ m) (u, us) = elim (Bool-cases (text_eq j k)) [
  | inl h ↦ rw h (u, us)
  | inr h ↦ rw h (
    ground (arith, find-put k j v m, u, h, text_eq_iff k j, text_eq_iff j k),
    IsUnique-put k v m us,
  )
]

pub In-find :
    {V : Type 0} (k : Text) (row : V) (m : Dict V)
    → IsUnique m
    → In (k, row) m
    → find k m ≡ some row
unfolding find
In-find k row [] u i = absurd i
In-find k row ((j, v) ∷ m) (u, us) (inl e) =
    rw ((text_eq_iff j k).1 (ap (λ x. x.0) e)) (ap (λ x. some x.1) e)
In-find k row ((j, v) ∷ m) (u, us) (inr i) = elim (text_eq-cases j k) [
  | inl same ↦ absurd (cc (u, ap (λ n. find n m) same, In-find k row m us i))
  | inr other ↦ rw other (In-find k row m us i)
]

-- A row that a selection keeps
abbrev pub picked : {V : Type 0} → (Text × V → Bool) → Text → Option V → Option V
picked p k none = none
picked p k (some row) = if p (k, row) then some row else none

find-pick_cons :
    {V : Type 0} (p : Text × V → Bool) (k j : Text) (row : V) (m : Dict V)
    → find j m ≡ none
    → find k (keep p m) ≡ picked p k (find k m)
    → (j ≡ k) ⊎ (text_eq j k ≡ false)
    → find k (keep p ((j, row) ∷ m)) ≡ picked p k (find k ((j, row) ∷ m))
unfolding find
find-pick_cons p k j row m u ih (inl e) =
    subst (λ i. find k (keep p ((i, row) ∷ m)) ≡ picked p k (find k ((i, row) ∷ m))) (sym e)
      (ground (arith, text_eq_refl k, ih, ap (λ i. find i m) e, u))
find-pick_cons p k j row m u ih (inr n) = ground (arith, n, ih)

pub find-pick :
    {V : Type 0} (p : Text × V → Bool) (k : Text) (m : Dict V)
    → IsUnique m
    → find k (keep p m) ≡ picked p k (find k m)
find-pick p k [] u = unfold find in refl
find-pick p k ((j, row) ∷ m) (u, us) =
    find-pick_cons p k j row m u (find-pick p k m us) (text_eq-cases j k)

pub IsUnique-keep :
    {V : Type 0} (p : Text × V → Bool) (m : Dict V) → IsUnique m → IsUnique (keep p m)
IsUnique-keep p [] u = tt
IsUnique-keep p ((j, row) ∷ m) (u, us) = elim (Bool-cases (p (j, row))) [
  | inl h ↦ rw h (ground (arith, find-pick p j m us, u), IsUnique-keep p m us)
  | inr h ↦ rw h (IsUnique-keep p m us)
]

-- An update of the row of one key
unfoldable pub change : {V : Type 0} → Text → (V → V) → Dict V → Dict V
change k f [] = []
change k f ((j, row) ∷ m) = (if text_eq j k then (j, f row) else (j, row)) ∷ change k f m

abbrev pub map_row : {V : Type 0} → (V → V) → Option V → Option V
map_row f none = none
map_row f (some row) = some (f row)

pub find-change :
    {V : Type 0} (k j : Text) (f : V → V) (m : Dict V)
    → find j (change k f m) ≡ (if text_eq k j then map_row f (find j m) else find j m)
unfolding find change
find-change k j f [] = ground arith
find-change k j f ((i, row) ∷ m) =
    ground (arith, text_eq_iff k j, text_eq_iff i k, text_eq_iff i j, find-change k j f m)

pub IsUnique-change :
    {V : Type 0} (k : Text) (f : V → V) (m : Dict V) → IsUnique m → IsUnique (change k f m)
unfolding change
IsUnique-change k f [] u = tt
IsUnique-change k f ((j, row) ∷ m) (u, us) = elim (Bool-cases (text_eq j k)) [
  | inl h ↦ rw h (ground (arith, find-change k j f m, u), IsUnique-change k f m us)
  | inr h ↦ rw h (ground (arith, find-change k j f m, u), IsUnique-change k f m us)
]
