-- ===== src/Prelude/Lists.antt =====
-- Lists over the native numbers, Boolean quantifiers, and predicates by recursion.
use Prim.Native.Nat.{ℕ, suc, ◌+◌}
use mathlib.Core.Path.{◌≡◌, refl, subst, ap}
use mathlib.Core.Logic.{◌↔◌, ◌⊎◌, inl, inr}
use mathlib.Core.Bool.{Bool, true, false, ◌&&◌, ◌||◌}
use mathlib.Core.List.{List, [], ◌∷◌, ◌++◌, map}
use native.Mathlib.Omega.{arith}
use semantius_idp.Prelude.Tests.{if◌then◌else◌, Bool-cases}

module _ {ℓ} {A : Type ℓ} where
  abbrev pub length : List A → ℕ
  length [] = 0
  length (x ∷ xs) = suc (length xs)

  -- `xs.some(p)`
  abbrev pub any : (A → Bool) → List A → Bool
  any p [] = false
  any p (x ∷ xs) = p x || any p xs

  -- `xs.every(p)`
  abbrev pub all : (A → Bool) → List A → Bool
  all p [] = true
  all p (x ∷ xs) = p x && all p xs

  -- `xs.filter(p)`
  abbrev pub keep : (A → Bool) → List A → List A
  keep p [] = []
  keep p (x ∷ xs) = let rest = keep p xs in if p x then x ∷ rest else rest

  abbrev pub is_empty : List A → Bool
  is_empty [] = true
  is_empty (x ∷ xs) = false

  pub length-append : (xs ys : List A) → length (xs ++ ys) ≡ length xs + length ys
  length-append [] ys = omega arith
  length-append (x ∷ xs) ys = omega (arith, length-append xs ys)

module _ {ℓ κ} {A : Type ℓ} (P : A → Type κ) where
  abbrev pub All : List A → Type κ
  All [] = Unit
  All (x ∷ xs) = P x × All xs

  pub All-append : (xs ys : List A) → All xs → All ys → All (xs ++ ys)
  All-append [] ys hx hy = hy
  All-append (x ∷ xs) ys hx hy = (hx.0, All-append xs ys hx.1 hy)

module _ {A : Type 0} {P Q : A → Type 0} where
  pub All-map : ((a : A) → P a → Q a) → (xs : List A) → All P xs → All Q xs
  All-map f [] h = tt
  All-map f (x ∷ xs) (h, hs) = (f x h, All-map f xs hs)

-- Membership by recursion: one disjunct for each place.
abbrev pub In : {A : Type 0} → A → List A → Type 0
In a [] = ⊥
In a (x ∷ xs) = (x ≡ a) ⊎ In a xs

module _ {A : Type 0} where
  pub In-append_left : (a : A) (xs ys : List A) → In a xs → In a (xs ++ ys)
  In-append_left a (x ∷ xs) ys (inl e) = inl e
  In-append_left a (x ∷ xs) ys (inr m) = inr (In-append_left a xs ys m)
  In-append_left a [] ys m = absurd m

  pub In-append_right : (a : A) (xs ys : List A) → In a ys → In a (xs ++ ys)
  In-append_right a [] ys m = m
  In-append_right a (x ∷ xs) ys m = inr (In-append_right a xs ys m)

  pub any_of_In : (p : A → Bool) (a : A) (xs : List A) → In a xs → p a ≡ true → any p xs ≡ true
  any_of_In p a [] m h = absurd m
  any_of_In p a (x ∷ xs) (inl e) h = ground arith
  any_of_In p a (x ∷ xs) (inr m) h = ground (arith, any_of_In p a xs m h)

  pub In-of_any : (p : A → Bool) (xs : List A) → any p xs ≡ true → (a : A) × In a xs × (p a ≡ true)
  In-of_any p [] h = cc
  In-of_any p (x ∷ xs) h = elim (Bool-cases (p x)) [
    | inl here ↦ (x, inl refl, here)
    | inr there ↦ let (a, m, e) = In-of_any p xs (rw there at h) in (a, inr m, e)
  ]

  pub In-keep_iff :
      (p : A → Bool) (a : A) (xs : List A) → In a (keep p xs) ↔ (In a xs × (p a ≡ true))
  In-keep_iff p a xs = (to xs, λ h. from xs h.0 h.1)
    where
      to : (xs : List A) → In a (keep p xs) → In a xs × (p a ≡ true)
      to [] m = absurd m
      to (x ∷ xs) m = elim (Bool-cases (p x)) [
        | inl kept ↦ (elim (rw kept at m) [
          | inl e ↦ (inl e, ground arith)
          | inr m' ↦ let (i, h) = to xs m' in (inr i, h)
        ])
        | inr dropped ↦ let (i, h) = to xs (rw dropped at m) in (inr i, h)
      ]

      from : (xs : List A) → In a xs → p a ≡ true → In a (keep p xs)
      from [] m h = absurd m
      from (x ∷ xs) (inl e) h = rw (e, h) (inl refl)
      from (x ∷ xs) (inr m) h = elim (Bool-cases (p x)) [
        | inl kept ↦ rw kept (inr (from xs m h))
        | inr dropped ↦ rw dropped (from xs m h)
      ]

  pub All-of_In : (P : A → Type 0) (xs : List A) → ((a : A) → In a xs → P a) → All P xs
  All-of_In P [] h = tt
  All-of_In P (x ∷ xs) h = (h x (inl refl), All-of_In P xs (λ a m. h a (inr m)))

  pub In_of_All : (P : A → Type 0) (a : A) (xs : List A) → All P xs → In a xs → P a
  In_of_All P a (x ∷ xs) (h, hs) (inl e) = subst P e h
  In_of_All P a (x ∷ xs) (h, hs) (inr m) = In_of_All P a xs hs m
  In_of_All P a [] h m = absurd m

  pub all_iff : (p : A → Bool) (xs : List A) → (all p xs ≡ true) ↔ All (λ x. p x ≡ true) xs
  all_iff p [] = (λ h. tt, λ h. refl)
  all_iff p (x ∷ xs) =
      let (to, from) = all_iff p xs in
      (λ h. (ground arith, to (ground arith)), λ h. ground (arith, from h.1))

pub In-map : {A B : Type 0} (f : A → B) (a : A) (xs : List A) → In a xs → In (f a) (map f xs)
In-map f a (x ∷ xs) (inl e) = inl (ap f e)
In-map f a (x ∷ xs) (inr i) = inr (In-map f a xs i)
In-map f a [] i = absurd i

pub In-of_map :
    {A B : Type 0} (f : A → B) (b : B) (xs : List A)
    → In b (map f xs)
    → (a : A) × In a xs × (f a ≡ b)
In-of_map f b [] i = absurd i
In-of_map f b (x ∷ xs) (inl e) = (x, inl refl, e)
In-of_map f b (x ∷ xs) (inr i) = let (a, j, e) = In-of_map f b xs i in (a, inr j, e)

pub List-cases {ℓ} :
    {A : Type ℓ} (xs : List A) → (xs ≡ []) ⊎ ((y : A) × (ys : List A) × (xs ≡ y ∷ ys))
List-cases [] = inl refl
List-cases (y ∷ ys) = inr (y, ys, refl)

pub cons_of_In :
    {A : Type 0} (a : A) (xs : List A) → In a xs → (y : A) × (ys : List A) × (xs ≡ y ∷ ys)
cons_of_In a [] m = absurd m
cons_of_In a (y ∷ ys) m = (y, ys, refl)

pub In-append_iff : {A : Type 0} (a : A) (xs ys : List A) → In a (xs ++ ys) ↔ (In a xs ⊎ In a ys)
In-append_iff a xs ys =
    (to xs, elim [ inl i ↦ In-append_left a xs ys i | inr i ↦ In-append_right a xs ys i ])
  where
    to : (xs : List _) → In a (xs ++ ys) → In a xs ⊎ In a ys
    to [] i = inr i
    to (x ∷ xs) (inl e) = inl (inl e)
    to (x ∷ xs) (inr i) = elim (to xs i) [ inl j ↦ inl (inr j) | inr j ↦ inr j ]
