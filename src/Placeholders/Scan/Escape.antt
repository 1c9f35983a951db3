-- ===== src/Placeholders/Scan/Escape.antt =====
-- An escaped text stands for itself.
use semantius_idp.Prelude.{
  ℕ, suc, zero, List, ◌≤◌, Text, codes, starts_with, length, true, false, not, ◌&&◌, some, [], ◌∷◌,
  ◌++◌, ◌≡◌, refl, ap, ◌∙◌, sym, arith, Bool-cases, inl, inr,
}
use mathlib.Core.List.{append-nil, append_assoc}
use semantius_idp.Placeholders.{Environment, Cache, Segment}
use semantius_idp.Placeholders.Scan.{
  escaped, letter, head_of, flush, finished, scan, substitute_string, includes, escape, untouched,
  outcome,
}

starts-escape : (s : Text) → starts_with (escape s) (codes "{") ≡ starts_with s (codes "{")
unfolding escape starts_with
starts-escape [] = refl
starts-escape (c ∷ s) = ground arith

unopened-escape : (s : Text) → starts_with (escape s) (codes "${") ≡ false
unfolding escape starts_with
unopened-escape [] = refl
unopened-escape (c ∷ s) = ground (arith, starts-escape s)

head_of-letter :
    (c : ℕ) (s : Text)
    → starts_with (c ∷ s) (codes "${") ≡ false
    → head_of (c ∷ escape s) ≡ letter c (escape s)
unfolding head_of starts_with
head_of-letter c s h = ground (arith, h, starts-escape s, unopened-escape s)

escape_fixed : (s : Text) → includes (escape s) (codes "$$") ≡ false → escape s ≡ s
unfolding escape includes starts_with
escape_fixed [] h = refl
escape_fixed (c ∷ s) h = elim (Bool-cases (starts_with (c ∷ s) (codes "${"))) [
  | inl e ↦ ground (arith, e, h)
  | inr e ↦ rw e (ap (λ t. c ∷ t) (escape_fixed s (ground (arith, e, h))))
]

pub opened_units :
    (c d : ℕ) (s : Text) → starts_with (c ∷ d ∷ s) (codes "${") ≡ true → (c ≡ b'$') × (d ≡ b'{')
unfolding starts_with
opened_units c d s h = (ground (arith, h), ground (arith, h))

pub escape-opened :
    (c d : ℕ) (s : Text)
    → starts_with (c ∷ d ∷ s) (codes "${") ≡ true
    → escape (c ∷ d ∷ s) ≡ b'$' ∷ b'$' ∷ b'{' ∷ escape s
escape-opened c d s h =
    let (dollar, brace) = opened_units c d s h in
    rw (dollar, brace) (unfold escape starts_with in refl)

pub escape-letter :
    (c : ℕ) (s : Text) → starts_with (c ∷ s) (codes "${") ≡ false → escape (c ∷ s) ≡ c ∷ escape s
unfolding escape
escape-letter c s h = rw h refl

pub head_of-escaped : (s : Text) → head_of (b'$' ∷ b'$' ∷ b'{' ∷ s) ≡ escaped s
unfolding head_of starts_with
head_of-escaped s = refl

pub escape_filled : (c : ℕ) (s : Text) → ¬ (length (escape (c ∷ s)) ≤ 0)
unfolding escape
escape_filled c s h = ground (arith, h)

module _ (environment : Environment) (cache : Cache) (segments : List Segment) where
  scan_letter :
      (fuel c : ℕ) (literal s : Text)
      → starts_with (c ∷ s) (codes "${") ≡ false
      → scan environment fuel cache segments (literal ++ c ∷ []) (escape s)
        ≡ some (finished (flush segments ((literal ++ c ∷ []) ++ s)) cache)
      → scan environment (suc fuel) cache segments literal (escape (c ∷ s))
        ≡ some (finished (flush segments (literal ++ c ∷ s)) cache)
  unfolding scan
  scan_letter fuel c literal s h rest =
      rw (escape-letter c s h, scan, head_of-letter c s h)
        (rest
          ∙ ap (λ t. some (finished (flush segments t) cache)) (append_assoc literal (c ∷ []) s))

  pub scan-escape :
      (fuel : ℕ) (literal s : Text)
      → length (escape s) ≤ fuel
      → scan environment fuel cache segments literal (escape s)
        ≡ some (finished (flush segments (literal ++ s)) cache)
  unfolding scan
  scan-escape fuel literal [] enough =
      unfold escape in ap (λ t. some (finished (flush segments t) cache)) (sym (append-nil literal))
  scan-escape zero literal (c ∷ s) enough = absurd (escape_filled c s enough)
  scan-escape (suc fuel) literal (c ∷ []) enough =
      scan_letter fuel c literal [] (unfold starts_with in ground arith)
        (scan-escape fuel (literal ++ c ∷ []) [] (unfold escape in omega arith))
  scan-escape (suc fuel) literal (c ∷ d ∷ s) enough =
      elim (Bool-cases (starts_with (c ∷ d ∷ s) (codes "${"))) [
        | inr h ↦ scan_letter fuel c literal (d ∷ s) h (
            scan-escape fuel (literal ++ c ∷ []) (d ∷ s)
              (omega (arith, ap length (escape-letter c (d ∷ s) h), enough)))
        | inl h ↦
            let (dollar, brace) = opened_units c d s h in
            rw (escape-opened c d s h, scan, head_of-escaped (escape s))
              (scan-escape fuel (literal ++ codes "${") s
                  (omega (arith, ap length (escape-opened c d s h), enough))
                ∙ ap (λ t. some (finished (flush segments t) cache))
                    (append_assoc literal (codes "${") s
                      ∙ ap (λ t. literal ++ t) (rw (dollar, brace) refl)))
      ]

module _ (environment : Environment) (cache : Cache) where
  joined : (s : Text) → outcome (escape s) (finished (flush [] s) cache) ≡ untouched s cache
  joined [] = refl
  joined (c ∷ s) = ap (λ t. untouched (c ∷ t) cache) (append-nil s)

  -- A text in which each placeholder's opening is escaped stands for itself, and nothing is
  -- recorded of it.
  pub substitute_string-escape :
      (s : Text) → substitute_string environment cache (escape s) ≡ some (untouched s cache)
  unfolding substitute_string
  substitute_string-escape s =
      elim (Bool-cases
        (not (includes (escape s) (codes "${")) && not (includes (escape s) (codes "$$")))) [
          | inl e ↦
              let same : escape s ≡ s = escape_fixed s (ground (arith, e)) in
              rw e (ap (λ t. some (untouched t cache)) same)
          | inr e ↦
              rw (e, scan-escape environment cache [] (length (escape s)) [] s (omega arith))
                (ap some (joined s))
        ]
