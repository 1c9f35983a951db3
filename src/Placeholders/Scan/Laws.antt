-- ===== src/Placeholders/Scan/Laws.antt =====
-- The loop ends, an escaped text stands for itself, and a lone placeholder is recorded.
use semantius_idp.Prelude.{
  ℕ, suc, zero, ◌≤◌, Text, codes, starts_with, cut_at, cut_at-append, length, nat_eq, Lacks, Bool,
  true, not, ◌&&◌, none, some, some_inj, List, [], ◌∷◌, ◌++◌, ◌≡◌, refl, ap, arith, Bool-cases,
  Option-cases, inl, inr, ◌⊎◌,
}
use mathlib.Core.List.{append-nil}
use semantius_idp.Placeholders.{
  Issue, Environment, Cache, Segment, Resolved, resolved, refused, resolve_placeholder,
}
use semantius_idp.Placeholders.Scan.{
  Head, nothing, escaped, opening, letter, head_of, flush, Scanned, finished, scan,
  substitute_string, includes, Substituted,
}

cut_at-length :
    (c : ℕ) (s before after : Text) → cut_at c s ≡ some (before, after) → length after ≤ length s
unfolding cut_at
cut_at-length c [] before after e = cc
cut_at-length c (d ∷ s) before after e = elim (Bool-cases (nat_eq d c)) [
  | inl h ↦
      let same : ◌≡◌ {A = Text × Text} ([], s) (before, after) = some_inj (rw h at e) in
      let tail : s ≡ after = ap (λ (p : Text × Text). p.1) same in rw (← tail) (omega arith)
  | inr h ↦ elim (Option-cases (cut_at c s)) [
    | inl n ↦ ground (arith, h, n, e)
    | inr ((a, b), n) ↦
        let same : ◌≡◌ {A = Text × Text} (d ∷ a, b) (before, after) = some_inj (rw (h, n) at e) in
        let tail : b ≡ after = ap (λ (p : Text × Text). p.1) same in
        rw (← tail) (omega (arith, cut_at-length c s a b n))
  ]
]

-- What follows at `index` is shorter than what is left.
pub IsShorter : Text → Head → Type 0
IsShorter s nothing = ⊥
IsShorter s (escaped rest) = length rest ≤ length s
IsShorter s (opening rest) = length rest ≤ length s
IsShorter s (letter c rest) = rest ≡ s

head_of-IsShorter : (c : ℕ) (s : Text) → IsShorter s (head_of (c ∷ s))
unfolding head_of starts_with IsShorter
head_of-IsShorter c [] = ground arith
head_of-IsShorter c (d ∷ []) = ground arith
head_of-IsShorter c (d ∷ e ∷ s) = ground arith

Head-cases :
    (h : Head)
    → (h ≡ nothing)
      ⊎ (((r : Text) × (h ≡ escaped r))
          ⊎ (((r : Text) × (h ≡ opening r)) ⊎ ((c : ℕ) × (r : Text) × (h ≡ letter c r))))
Head-cases nothing = inl refl
Head-cases (escaped r) = inr (inl (r, refl))
Head-cases (opening r) = inr (inr (inl (r, refl)))
Head-cases (letter c r) = inr (inr (inr (c, r, refl)))

Resolved-cases :
    (r : Resolved)
    → ((i : Issue) × (r ≡ refused i))
      ⊎ ((t : Text) × (b : Bool) × (cache : Cache) × (r ≡ resolved t b cache))
Resolved-cases (refused i) = inl (i, refl)
Resolved-cases (resolved t b cache) = inr (t, b, cache, refl)

module _ (environment : Environment) where
  -- Fuel for each unit that is left is enough for the loop to end.
  scan_ends :
      (fuel : ℕ) (cache : Cache) (segments : List Segment) (literal rest : Text)
      → length rest ≤ fuel
      → (scanned : Scanned) × (scan environment fuel cache segments literal rest ≡ some scanned)
  unfolding scan IsShorter
  scan_ends fuel cache segments literal [] enough = (finished (flush segments literal) cache, refl)
  scan_ends zero cache segments literal (c ∷ s) enough = absurd (omega arith)
  scan_ends (suc fuel) cache segments literal (c ∷ s) enough = elim (Head-cases (head_of (c ∷ s))) [
    | inl e ↦ absurd (rw e at (head_of-IsShorter c s))
    | inr (inl (r, e)) ↦
        let shorter : length r ≤ length s = rw e at (head_of-IsShorter c s) in
        rw (e, scan)
          (scan_ends fuel cache segments (literal ++ codes "${") r (omega (arith, shorter)))
    | inr (inr (inr (d, r, e))) ↦
        let shorter : r ≡ s = rw e at (head_of-IsShorter c s) in
        rw (e, scan)
          (scan_ends fuel cache segments (literal ++ d ∷ []) r (omega (arith, ap length shorter)))
    | inr (inr (inl (r, e))) ↦
        let shorter : length r ≤ length s = rw e at (head_of-IsShorter c s) in
        elim (Option-cases (cut_at b'}' r)) [
          | inl n ↦ rw (e, n, scan) (_, refl)
          | inr ((body, after), n) ↦
              elim (Resolved-cases (resolve_placeholder environment cache body)) [
                | inl (issue, k) ↦ rw (e, n, k, scan) (_, refl)
                | inr (t, b, cache', k) ↦
                    rw (e, n, k, scan)
                      (scan_ends fuel cache' _ [] after
                        (omega (arith, shorter, cut_at-length b'}' r body after n)))
              ]
        ]
  ]

  -- Substitution always comes to an end, whatever the environment answers.
  pub substitute_ends :
      (cache : Cache) (input : Text)
      → (result : Substituted) × (substitute_string environment cache input ≡ some result)
  unfolding substitute_string
  substitute_ends cache input =
      elim (Bool-cases (not (includes input (codes "${")) && not (includes input (codes "$$")))) [
        | inl e ↦ rw e (_, refl)
        | inr e ↦
            let (scanned, ended) = scan_ends (length input) cache [] [] input (omega arith) in
            rw (e, ended) (_, refl)
      ]

pub head_of-opening : (s : Text) → head_of (b'$' ∷ b'{' ∷ s) ≡ opening s
unfolding head_of starts_with
head_of-opening s = refl

pub includes-opening : (s : Text) → includes (b'$' ∷ b'{' ∷ s) (codes "${") ≡ true
unfolding includes starts_with
includes-opening s = refl

scan_whole :
    (environment : Environment) (fuel : ℕ) (cache after : Cache) (body value : Text)
    (from_source : Bool)
    → Lacks b'}' body
    → resolve_placeholder environment cache body ≡ resolved value from_source after
    → scan environment (suc fuel) cache [] [] (b'$' ∷ b'{' ∷ (body ++ b'}' ∷ []))
      ≡ some (
          finished
            (record { text = value; from_placeholder = true; from_source = from_source } ∷ [])
            after)
unfolding scan
scan_whole environment fuel cache after body value from_source h e =
    rw (scan, head_of-opening (body ++ b'}' ∷ []), cut_at-append b'}' body [] h, e, scan) refl

-- A text that is one placeholder becomes what the placeholder resolves to, and its pointer is
-- recorded: as coerced in any case, as sourced exactly if the value is not the inline default.
pub substitute_string-whole :
    (environment : Environment) (cache after : Cache) (body value : Text) (from_source : Bool)
    → Lacks b'}' body
    → resolve_placeholder environment cache body ≡ resolved value from_source after
    → substitute_string environment cache (b'$' ∷ b'{' ∷ (body ++ b'}' ∷ []))
      ≡ some (record {
        value = value;
        issue = none;
        coerced = true;
        sourced = from_source;
        cache = after;
      })
unfolding substitute_string
substitute_string-whole environment cache after body value from_source h e =
    rw
      (
        includes-opening (body ++ b'}' ∷ []),
        scan_whole environment _ cache after body value from_source h e,
      )
      (ap
        (λ t. some (record {
          value = t;
          issue = none;
          coerced = true;
          sourced = from_source;
          cache = after;
        }))
        (append-nil value))
