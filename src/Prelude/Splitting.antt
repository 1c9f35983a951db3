-- ===== src/Prelude/Splitting.antt =====
-- The laws of `trim`, `split` and `join`.
use Prim.Native.Nat.{ℕ}
use mathlib.Core.Path.{◌≡◌, refl, ◌∙◌, ap, sym}
use mathlib.Core.Logic.{◌≢◌, inl, inr}
use mathlib.Core.Bool.{false}
use mathlib.Core.Option.{some}
use mathlib.Core.List.{List, [], ◌∷◌, ◌++◌}
use native.Mathlib.Omega.{arith}
use semantius_idp.Prelude.Tests.{nat_eq, nat_eq_iff, Bool-cases, some_inj, false_of_ne_true}
use semantius_idp.Prelude.Lists.{All}
use semantius_idp.Prelude.Texts.{
  Text, Lacks, is_space, trim_start, trim_end, trim, push_head, split_on, join_with, cut_at,
}

-- The text does not begin with white space.
abbrev pub Starts : Text → Type 0
Starts [] = Unit
Starts (c ∷ s) = is_space c ≡ false

trim_start-Starts : (s : Text) → Starts (trim_start s)
unfolding trim_start
trim_start-Starts [] = tt
trim_start-Starts (c ∷ s) = elim (Bool-cases (is_space c)) [
  | inl e ↦ rw e (trim_start-Starts s)
  | inr e ↦ rw e e
]

trim_start_of_Starts : (s : Text) → Starts s → trim_start s ≡ s
unfolding trim_start
trim_start_of_Starts [] h = refl
trim_start_of_Starts (c ∷ s) h = rw h refl

trim_end-cons : (c : ℕ) (s : Text) → is_space c ≡ false → trim_end (c ∷ s) ≡ c ∷ trim_end s
unfolding trim_end
trim_end-cons c s h = ground arith

trim_end-Starts : (s : Text) → Starts s → Starts (trim_end s)
trim_end-Starts [] h = unfold trim_end in tt
trim_end-Starts (c ∷ s) h = rw (trim_end-cons c s h) h

trim_end_idem : (s : Text) → trim_end (trim_end s) ≡ trim_end s
unfolding trim_end
trim_end_idem [] = refl
trim_end_idem (c ∷ s) = ground (arith, trim_end_idem s)

pub trim_idem : (s : Text) → trim (trim s) ≡ trim s
unfolding trim
trim_idem s =
    ap trim_end (trim_start_of_Starts _ (trim_end-Starts _ (trim_start-Starts s)))
    ∙ trim_end_idem (trim_start s)

module _ (c : ℕ) where
  trim_start-Lacks : (s : Text) → Lacks c s → Lacks c (trim_start s)
  unfolding trim_start
  trim_start-Lacks [] h = tt
  trim_start-Lacks (d ∷ s) h = ground (arith, trim_start-Lacks s h.1)

  trim_end-Lacks : (s : Text) → Lacks c s → Lacks c (trim_end s)
  unfolding trim_end
  trim_end-Lacks [] h = tt
  trim_end-Lacks (d ∷ s) h = ground (arith, trim_end-Lacks s h.1)

  pub trim-Lacks : (s : Text) → Lacks c s → Lacks c (trim s)
  unfolding trim
  trim-Lacks s h = trim_end-Lacks _ (trim_start-Lacks s h)

  push_head-Lacks :
      (d : ℕ) (ws : List Text) → d ≢ c → All (Lacks c) ws → All (Lacks c) (push_head d ws)
  push_head-Lacks d [] n h = ((n, tt), tt)
  push_head-Lacks d (w ∷ ws) n h = ((n, h.0), h.1)

  pub split_on-Lacks : (s : Text) → All (Lacks c) (split_on c s)
  unfolding split_on
  split_on-Lacks [] = (tt, tt)
  split_on-Lacks (d ∷ s) = elim (Bool-cases (nat_eq d c)) [
    | inl e ↦ rw e (tt, split_on-Lacks s)
    | inr e ↦ rw e (push_head-Lacks d _ (ground arith) (split_on-Lacks s))
  ]

  -- A piece with no separator in it, then a separator, then the rest.
  split_on-append : (w s : Text) → Lacks c w → split_on c (w ++ c ∷ s) ≡ w ∷ split_on c s
  unfolding split_on
  split_on-append [] s h = ground (arith, nat_eq_iff c c)
  split_on-append (d ∷ w) s (n, h) = ground (arith, split_on-append w s h)

  split_on_of_Lacks : (w : Text) → Lacks c w → split_on c w ≡ w ∷ []
  unfolding split_on
  split_on_of_Lacks [] h = refl
  split_on_of_Lacks (d ∷ w) (n, h) = ground (arith, split_on_of_Lacks w h)

  pub split_on-join_with :
      (w : Text) (ws : List Text)
      → All (Lacks c) (w ∷ ws)
      → split_on c (join_with (c ∷ []) (w ∷ ws)) ≡ w ∷ ws
  unfolding join_with
  split_on-join_with w [] h = split_on_of_Lacks w h.0
  split_on-join_with w (v ∷ ws) (h, hs) =
      split_on-append w _ h ∙ ap (λ r. w ∷ r) (split_on-join_with v ws hs)

  split_on-filled : (s : Text) → (w : Text) × (ws : List Text) × (split_on c s ≡ w ∷ ws)
  unfolding split_on
  split_on-filled [] = ([], [], refl)
  split_on-filled (d ∷ s) =
      let (w, ws, e) = split_on-filled s in
      elim (Bool-cases (nat_eq d c)) [
        | inl p ↦ ([], split_on c s, rw p refl)
        | inr p ↦ (d ∷ w, ws, rw (p, e) refl)
      ]

  join-push_head :
      (d : ℕ) (w : Text) (ws : List Text)
      → join_with (c ∷ []) (push_head d (w ∷ ws)) ≡ d ∷ join_with (c ∷ []) (w ∷ ws)
  unfolding join_with
  join-push_head d w [] = refl
  join-push_head d w (v ∷ ws) = refl

  join-nil :
      (w : Text) (ws : List Text)
      → join_with (c ∷ []) ([] ∷ w ∷ ws) ≡ c ∷ join_with (c ∷ []) (w ∷ ws)
  unfolding join_with
  join-nil w ws = refl

  -- Joining the pieces gives the text back.
  pub join_with-split_on : (s : Text) → join_with (c ∷ []) (split_on c s) ≡ s
  unfolding split_on
  join_with-split_on [] = unfold join_with in refl
  join_with-split_on (d ∷ s) =
      let (w, ws, e) = split_on-filled s in
      let ih = rw e at (join_with-split_on s) in
      elim (Bool-cases (nat_eq d c)) [
        | inl p ↦ rw (p, e) (join-nil w ws ∙ cc (ih, (nat_eq_iff d c).0 p))
        | inr p ↦ rw (p, e) (join-push_head d w ws ∙ ap (λ t. d ∷ t) ih)
      ]

  -- Splitting a text that holds a separator splits both sides.
  pub split_on-concat : (x s : Text) → split_on c (x ++ c ∷ s) ≡ split_on c x ++ split_on c s
  unfolding split_on
  split_on-concat [] s = ground (arith, nat_eq_iff c c)
  split_on-concat (d ∷ x) s =
      let (w, ws, e) = split_on-filled x in
      let ih = rw e at (split_on-concat x s) in
      elim (Bool-cases (nat_eq d c)) [ inl p ↦ rw (p, e, ih) refl | inr p ↦ rw (p, e, ih) refl ]

-- The first `c` is where the text before it has none.
pub cut_at-append :
    (c : ℕ) (before after : Text)
    → Lacks c before
    → cut_at c (before ++ c ∷ after) ≡ some (before, after)
unfolding cut_at
cut_at-append c [] after h = rw ((nat_eq_iff c c).1 refl) refl
cut_at-append c (d ∷ before) after (n, h) =
    rw (cut_at-append c before after h, false_of_ne_true _ (λ t. n ((nat_eq_iff d c).0 t))) refl

pub cut_unique :
    (c : ℕ) (a b x y : Text) → Lacks c a → Lacks c b → a ++ c ∷ x ≡ b ++ c ∷ y → (a ≡ b) × (x ≡ y)
cut_unique c a b x y ha hb e =
    let same : (a, x) ≡ (b, y) =
      some_inj (sym (cut_at-append c a x ha) ∙ (ap (cut_at c) e ∙ cut_at-append c b y hb)) in
    (ap (λ p. p.0) same, ap (λ p. p.1) same)
