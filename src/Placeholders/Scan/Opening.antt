-- ===== src/Placeholders/Scan/Opening.antt =====
-- The loop comes to a placeholder with the text before it read.
use semantius_idp.Prelude.{
  Bool-cases, List, Text, [], ap, codes, false, inl, inr, length, length-append, refl, starts_with,
  suc, sym, zero, ℕ, ◌++◌, ◌∙◌, ◌∷◌, ◌≡◌, ◌≢◌, ◌≤◌, arith,
}
use mathlib.Core.List.{append-nil, append_assoc}
use semantius_idp.Placeholders.{Environment, Cache, Segment}
use semantius_idp.Placeholders.Scan.{letter, head_of, scan, escape}
use semantius_idp.Placeholders.Scan.Escape.{
  escape-opened, opened_units, escape-letter, head_of-escaped,
}

-- The text does not end in `$`, which would escape the placeholder behind it.
abbrev pub HasPlainEnd : Text → Type 0
HasPlainEnd [] = Unit
HasPlainEnd (c ∷ []) = c ≢ b'$'
HasPlainEnd (c ∷ d ∷ s) = HasPlainEnd (d ∷ s)

module _ (tail : Text) where
  abbrev pub opened : Text
  opened = b'$' ∷ b'{' ∷ tail

  starts-append :
      (s : Text) → starts_with (escape s ++ opened) (codes "{") ≡ starts_with s (codes "{")
  unfolding escape starts_with
  starts-append [] = refl
  starts-append (c ∷ s) = ground arith

  unopened-append : (c : ℕ) (s : Text) → starts_with (escape (c ∷ s) ++ opened) (codes "${") ≡ false
  unfolding escape starts_with
  unopened-append c s = ground (arith, starts-append s)

  head_of-append :
      (c : ℕ) (s : Text)
      → HasPlainEnd (c ∷ s)
      → starts_with (c ∷ s) (codes "${") ≡ false
      → head_of (c ∷ (escape s ++ opened)) ≡ letter c (escape s ++ opened)
  unfolding head_of starts_with
  head_of-append c [] plain h = unfold escape in ground (arith, plain)
  head_of-append c (d ∷ s) plain h = ground (arith, h, starts-append (d ∷ s), unopened-append d s)

module _ (environment : Environment) (cache : Cache) (segments : List Segment) (tail : Text) where
  -- The loop comes to the placeholder with the text before it read.
  abbrev pub IsAt : ℕ → Text → Text → Type 0
  IsAt fuel literal s =
      (left : ℕ) × (length (opened tail) ≤ left)
      × (scan environment fuel cache segments literal (escape s ++ opened tail)
          ≡ scan environment left cache segments (literal ++ s) (opened tail))

  reach_letter :
      (fuel c : ℕ) (literal s : Text)
      → HasPlainEnd (c ∷ s)
      → starts_with (c ∷ s) (codes "${") ≡ false
      → IsAt fuel (literal ++ c ∷ []) s
      → IsAt (suc fuel) literal (c ∷ s)
  unfolding scan
  reach_letter fuel c literal s plain h (left, l, e) = (
    left,
    l,
    rw (escape-letter c s h, scan, head_of-append tail c s plain h)
        (e
          ∙ ap (λ t. scan environment left cache segments t (opened tail))
              (append_assoc literal (c ∷ []) s)),
  )

  pub reach_placeholder :
      (fuel : ℕ) (literal s : Text)
      → HasPlainEnd s
      → length (escape s ++ opened tail) ≤ fuel
      → IsAt fuel literal s
  unfolding scan
  reach_placeholder fuel literal [] plain enough = (
    fuel,
    unfold escape in enough,
    unfold escape in
        ap (λ t. scan environment fuel cache segments t (opened tail)) (sym (append-nil literal)),
  )
  reach_placeholder zero literal (c ∷ s) plain enough =
      absurd (omega (arith, enough, length-append (escape (c ∷ s)) (opened tail)))
  reach_placeholder (suc fuel) literal (c ∷ []) plain enough =
      let h : starts_with (c ∷ []) (codes "${") ≡ false = unfold starts_with in ground arith in
      reach_letter fuel c literal [] plain h (
        reach_placeholder fuel (literal ++ c ∷ []) [] tt
          (omega (arith, ap (λ t. length (t ++ opened tail)) (escape-letter c [] h), enough)))
  reach_placeholder (suc fuel) literal (c ∷ d ∷ s) plain enough =
      elim (Bool-cases (starts_with (c ∷ d ∷ s) (codes "${"))) [
        | inr h ↦ reach_letter fuel c literal (d ∷ s) plain h (
            reach_placeholder fuel (literal ++ c ∷ []) (d ∷ s) plain (
              omega
                (arith, ap (λ t. length (t ++ opened tail)) (escape-letter c (d ∷ s) h), enough)))
        | inl h ↦
            let (dollar, brace) = opened_units c d s h in
            let (left, l, e) =
              reach_placeholder fuel (literal ++ codes "${") s (plain_rest d s brace plain) (
                omega
                  (arith, ap (λ t. length (t ++ opened tail)) (escape-opened c d s h), enough)) in
            (
              left,
              l,
              rw (escape-opened c d s h, scan, head_of-escaped (escape s ++ opened tail))
                  (e
                    ∙ ap (λ t. scan environment left cache segments t (opened tail))
                        (append_assoc literal (codes "${") s
                          ∙ ap (λ t. literal ++ t) (rw (dollar, brace) refl))),
            )
      ]
    where
      plain_rest : (d : ℕ) (s : Text) → d ≡ b'{' → HasPlainEnd (d ∷ s) → HasPlainEnd s
      plain_rest d [] e p = tt
      plain_rest d (c ∷ s) e p = p
