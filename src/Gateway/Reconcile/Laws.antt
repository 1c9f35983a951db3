-- ===== src/Gateway/Reconcile/Laws.antt =====
-- The table after a reconciliation is the file's: apps/web/src/server/gateways/reconcile.ts.
use semantius_idp.Prelude.{
  Bool, Bool-cases, Dict, IsUnique, IsUnique-put, Option, Option-cases, Text, [], ap, false, find,
  find-put, has_text, if◌then◌else◌, inl, inr, is_none, none, not, refl, some, subst, sym, text_eq,
  text_eq-cases, text_eq_iff, text_eq_refl, ℕ, ◌||◌, ◌∷◌, ◌≡◌, ◌⊎◌, arith,
}
use semantius_idp.Gateway.Reconcile.{
  is_config, Stored, Target, differs, fresh, claimed, update_where, Pass, apply_entry,
  apply_entries, names_of,
}

abbrev pub changed_row :
    (Text → Stored → Bool) → (Stored → Stored) → Text → Option Stored → Option Stored
changed_row p f k none = none
changed_row p f k (some row) = some (if p k row then f row else row)

find-update_where_cons :
    (p : Text → Stored → Bool) (f : Stored → Stored) (k j : Text) (row : Stored) (m : Dict Stored)
    → find k (update_where p f m) ≡ changed_row p f k (find k m)
    → (j ≡ k) ⊎ (text_eq j k ≡ false)
    → find k (update_where p f ((j, row) ∷ m)) ≡ changed_row p f k (find k ((j, row) ∷ m))
unfolding find update_where
find-update_where_cons p f k j row m ih (inl e) =
    subst
      (λ i. find k (update_where p f ((i, row) ∷ m)) ≡ changed_row p f k (find k ((i, row) ∷ m)))
      (sym e) (ground (arith, text_eq_refl k))
find-update_where_cons p f k j row m ih (inr n) = ground (arith, n, ih)

pub find-update_where :
    (p : Text → Stored → Bool) (f : Stored → Stored) (k : Text) (m : Dict Stored)
    → find k (update_where p f m) ≡ changed_row p f k (find k m)
find-update_where p f k [] = unfold find in unfold update_where in refl
find-update_where p f k ((j, row) ∷ m) =
    find-update_where_cons p f k j row m (find-update_where p f k m) (text_eq-cases j k)

pub has_text-names :
    (k : Text) (m : Dict Stored) → has_text (names_of m) k ≡ not (is_none (find k m))
unfolding has_text find
has_text-names k [] = refl
has_text-names k ((j, row) ∷ m) = ground (arith, has_text-names k m)

pub IsUnique-update_where :
    (p : Text → Stored → Bool) (f : Stored → Stored) (m : Dict Stored)
    → IsUnique m
    → IsUnique (update_where p f m)
unfolding update_where
IsUnique-update_where p f [] u = tt
IsUnique-update_where p f ((j, row) ∷ m) (u, us) = elim (Bool-cases (p j row)) [
  | inl h ↦ rw h (ground (arith, find-update_where p f j m, u), IsUnique-update_where p f m us)
  | inr h ↦ rw h (ground (arith, find-update_where p f j m, u), IsUnique-update_where p f m us)
]

-- The row of a name that the file has, from the row before
abbrev pub entry_row : ℕ → Target → Option Stored → Stored
entry_row now t none = fresh now t
entry_row now t (some row) =
    if not (is_config row.source) || differs row t then claimed now t row else row

module _ (now : ℕ) (existing : Dict Stored) where
  pub find-apply_entry :
      (j k : Text) (t : Target) (pass : Pass)
      → find j pass.table ≡ find j existing
      → find k (apply_entry now (find j existing) j t pass).table
        ≡ (if text_eq j k then some (entry_row now t (find j existing)) else find k pass.table)
  unfolding apply_entry
  find-apply_entry j k t pass same = elim (Option-cases (find j existing)) [
    | inl e ↦ rw (e) (find-put j k (fresh now t) pass.table)
    | inr (row, e) ↦ rw (e) (
        ground (
          arith,
          e,
          same,
          find-update_where (λ n row. text_eq n j) (claimed now t) k pass.table,
          text_eq_iff j k,
          text_eq_iff k j,
          ap (λ n. find n pass.table),
        ))
  ]

  apply_entry-IsUnique :
      (j : Text) (t : Target) (current : Option Stored) (pass : Pass)
      → IsUnique pass.table
      → IsUnique (apply_entry now current j t pass).table
  unfolding apply_entry
  apply_entry-IsUnique j t none pass u = IsUnique-put j (fresh now t) pass.table u
  apply_entry-IsUnique j t (some row) pass u =
      elim (Bool-cases (not (is_config row.source) || differs row t)) [
        | inl h ↦ rw h (IsUnique-update_where (λ n r. text_eq n j) (claimed now t) pass.table u)
        | inr h ↦ rw h u
      ]

  pub apply_entries-IsUnique :
      (entries : Dict Target) (pass : Pass)
      → IsUnique pass.table
      → IsUnique (apply_entries now existing entries pass).table
  unfolding apply_entries
  apply_entries-IsUnique [] pass u = u
  apply_entries-IsUnique ((j, t) ∷ entries) pass u =
      apply_entries-IsUnique entries _ (apply_entry-IsUnique j t (find j existing) pass u)
