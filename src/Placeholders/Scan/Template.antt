-- ===== src/Placeholders/Scan/Template.antt =====
-- Texts with any number of placeholders between texts that stand for themselves.
use semantius_idp.Prelude.{
  Bool, Lacks, List, Text, [], ap, codes, cut_at-append, length, length-append, none, refl, some,
  suc, sym, true, ℕ, ◌++◌, ◌-◌, ◌∙◌, ◌∷◌, ◌≡◌, ◌≤◌, arith,
}
use mathlib.Core.List.{append-nil, append_assoc}
use semantius_idp.Placeholders.{Environment, Cache, Segment, resolved, resolve_placeholder}
use semantius_idp.Placeholders.Scan.{
  flush, finished, join_segments, scan, substitute_string, includes, escape, Substituted, outcome,
}
use semantius_idp.Placeholders.Scan.Laws.{head_of-opening, includes-opening}
use semantius_idp.Placeholders.Scan.Opening.{HasPlainEnd, opened, reach_placeholder}
use semantius_idp.Placeholders.Scan.Escape.{scan-escape, substitute_string-escape}

-- Text that stands for itself, and the placeholder behind it with what it resolves to
pub record Part : Type 0 where
  pub before : Text
  pub body : Text
  pub value : Text
  pub from_source : Bool

-- How the template is written
abbrev pub written : List Part → Text → Text
written [] rest = escape rest
written (p ∷ ps) rest = escape p.before ++ b'$' ∷ b'{' ∷ (p.body ++ b'}' ∷ written ps rest)

-- What the template stands for
abbrev pub replaced : List Part → Text → Text
replaced [] rest = rest
replaced (p ∷ ps) rest = p.before ++ (p.value ++ replaced ps rest)

-- Each body resolves to its value, with the files that were read before it at hand.
abbrev pub AreResolved : Environment → Cache → List Part → Cache → Type 0
AreResolved environment cache [] after = cache ≡ after
AreResolved environment cache (p ∷ ps) after =
    HasPlainEnd p.before
    × Lacks b'}' p.body
    × ((next : Cache) × (resolve_placeholder environment cache p.body
          ≡ resolved p.value p.from_source next)
        × AreResolved environment next ps after)

join_segments-append :
    (xs ys : List Segment) → join_segments (xs ++ ys) ≡ join_segments xs ++ join_segments ys
join_segments-append [] ys = refl
join_segments-append (x ∷ xs) ys =
    ap (λ t. x.text ++ t) (join_segments-append xs ys)
    ∙ sym (append_assoc x.text (join_segments xs) (join_segments ys))

join_segments-flush :
    (segments : List Segment) (literal : Text)
    → join_segments (flush segments literal) ≡ join_segments segments ++ literal
join_segments-flush segments [] = sym (append-nil (join_segments segments))
join_segments-flush segments (c ∷ literal) =
    join_segments-append segments _
    ∙ ap (λ t. join_segments segments ++ t) (append-nil (c ∷ literal))

abbrev pushed : List Segment → Text → Text → Bool → List Segment
pushed segments literal value from_source =
    flush segments literal
    ++ record { text = value; from_placeholder = true; from_source = from_source } ∷ []

join_segments-pushed :
    (segments : List Segment) (literal value : Text) (from_source : Bool)
    → join_segments (pushed segments literal value from_source)
      ≡ (join_segments segments ++ literal) ++ value
join_segments-pushed segments literal value from_source =
    join_segments-append (flush segments literal) _
    ∙ ap (λ t. t ++ (value ++ [])) (join_segments-flush segments literal)
    ∙ ap (λ t. (join_segments segments ++ literal) ++ t) (append-nil value)

module _ (environment : Environment) where
  includes-append : (s t : Text) → includes (s ++ b'$' ∷ b'{' ∷ t) (codes "${") ≡ true
  unfolding includes
  includes-append [] t = includes-opening t
  includes-append (c ∷ s) t = ground (arith, includes-append s t)

  -- One placeholder is read and resolved.
  scan-opened :
      (fuel : ℕ) (cache next : Cache) (segments : List Segment) (literal body value : Text)
      (from_source : Bool) (tail : Text)
      → Lacks b'}' body
      → resolve_placeholder environment cache body ≡ resolved value from_source next
      → scan environment (suc fuel) cache segments literal (opened (body ++ b'}' ∷ tail))
        ≡ scan environment fuel next (pushed segments literal value from_source) [] tail
  unfolding scan
  scan-opened fuel cache next segments literal body value from_source tail h e =
      rw (scan, head_of-opening (body ++ b'}' ∷ tail), cut_at-append b'}' body tail h, e, scan) refl

  -- The loop ends, and its segments are what is in hand and then what the template stands for.
  IsRead : ℕ → Cache → Cache → List Segment → List Part → Text → Type 0
  IsRead fuel cache after segments parts rest =
      (segs : List Segment) × (scan environment fuel cache segments [] (written parts rest)
        ≡ some (finished segs after))
      × (join_segments segs ≡ join_segments segments ++ replaced parts rest)

  scan-written :
      (fuel : ℕ) (cache after : Cache) (segments : List Segment) (parts : List Part) (rest : Text)
      → AreResolved environment cache parts after
      → length (written parts rest) ≤ fuel
      → IsRead fuel cache after segments parts rest
  unfolding IsRead
  scan-written fuel cache after segments [] rest same enough = (
    flush segments rest,
    scan-escape environment cache segments fuel [] rest enough
        ∙ ap (λ c. some (finished (flush segments rest) c)) same,
    join_segments-flush segments rest,
  )
  scan-written fuel cache after segments (p ∷ ps) rest (plain, lacks, more) enough =
      let (next, e, later) = more in
      let tail : Text = p.body ++ b'}' ∷ written ps rest in
      let (left, l, reached) =
        reach_placeholder environment cache segments tail fuel [] p.before plain enough in
      let short : length (written ps rest) ≤ left - 1 =
        omega (arith, l, length-append p.body (b'}' ∷ written ps rest)) in
      let (segs, ends, joined) =
        scan-written (left - 1) next after (pushed segments p.before p.value p.from_source) ps rest
          later short in
      let one : left ≡ suc (left - 1) = omega (arith, l) in
      (
        segs,
        reached
            ∙ ap (λ n. scan environment n cache segments p.before (opened tail)) one
            ∙ scan-opened (left - 1) cache next segments p.before p.body p.value p.from_source
                (written ps rest) lacks e
            ∙ ends,
        joined
            ∙ ap (λ t. t ++ replaced ps rest)
                (join_segments-pushed segments p.before p.value p.from_source)
            ∙ append_assoc (join_segments segments ++ p.before) p.value (replaced ps rest)
            ∙ append_assoc (join_segments segments) p.before (p.value ++ replaced ps rest),
      )

  -- Take any number of placeholders, each closed by the first `}` and resolved with the files at hand
  -- that were read before it, and text before, between and behind them in which each `${` is written
  -- `$${`, and which does not end in `$` before a placeholder. Substitution puts the values in the
  -- places of the placeholders, leaves the text as it was before the escapes, and reports no issue.
  pub substitute_string-template :
      (cache after : Cache) (parts : List Part) (rest : Text)
      → AreResolved environment cache parts after
      → (result : Substituted) × (substitute_string environment cache (written parts rest)
          ≡ some result)
        × (result.value ≡ replaced parts rest)
        × (result.issue ≡ none)
        × (result.cache ≡ after)
  unfolding substitute_string IsRead
  substitute_string-template cache after [] rest same =
      (_, substitute_string-escape environment cache rest, refl, refl, same)
  substitute_string-template cache after (p ∷ ps) rest h =
      let (segs, ends, joined) =
        scan-written (length (written (p ∷ ps) rest)) cache after [] (p ∷ ps) rest h
          (omega arith) in
      (
        outcome (written (p ∷ ps) rest) (finished segs after),
        rw (includes-append (escape p.before) (p.body ++ b'}' ∷ written ps rest), ends) refl,
        joined,
        refl,
        refl,
      )
