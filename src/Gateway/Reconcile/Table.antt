-- ===== src/Gateway/Reconcile/Table.antt =====
-- What a reconciliation leaves in the table under each name:
-- apps/web/src/server/gateways/reconcile.ts.
use semantius_idp.Prelude.{
  Bool, Dict, IsUnique, IsUnique-keep, Option, Text, [], ap, false, find, find-pick, if◌then◌else◌,
  inl, inr, keep, none, not, refl, some, text_eq-cases, text_eq_iff, text_eq_refl, true, ℕ, ◌∙◌,
  ◌∷◌, ◌≡◌, arith,
}
use semantius_idp.Gateway.Reconcile.{
  is_config, Stored, Target, empty_diff, is_not_false, switched_off, delete_where, Pass,
  apply_entry, apply_entries, is_orphan, names_of, in_names, sweep, apply_reconciliation,
}
use semantius_idp.Gateway.Reconcile.Laws.{
  find-update_where, has_text-names, IsUnique-update_where, entry_row, find-apply_entry,
  apply_entries-IsUnique,
}

abbrev pub row_after : ℕ → Option Target → Option Stored → Option Stored → Option Stored
row_after now none old current = current
row_after now (some t) old current = some (entry_row now t old)

module _ (now : ℕ) (existing : Dict Stored) where
  -- The names of the entries are still as the transaction found them.
  abbrev AreUntouched : Dict Target → Dict Stored → Type 0
  AreUntouched entries table =
      (j : Text) (t : Target) → find j entries ≡ some t → find j table ≡ find j existing

  find-apply_entries :
      (entries : Dict Target) (k : Text) (pass : Pass)
      → IsUnique entries
      → AreUntouched entries pass.table
      → find k (apply_entries now existing entries pass).table
        ≡ row_after now (find k entries) (find k existing) (find k pass.table)
  unfolding apply_entries find
  find-apply_entries [] k pass u h = refl
  find-apply_entries ((j, t) ∷ entries) k pass (u, us) h =
      let turn = λ (i : Text).
        find-apply_entry now existing j i t pass (h j t (ground (arith, text_eq_refl j))) in
      let rest : AreUntouched entries (apply_entry now (find j existing) j t pass).table = λ i v e.
        elim (text_eq-cases j i) [
          | inl same ↦ absurd (cc (e, u, ap (λ n. find n entries) same))
          | inr other ↦ turn i ∙ rw (other) (h i v (rw other e))
        ] in
      let ih = find-apply_entries entries k (apply_entry now (find j existing) j t pass) us rest in
      elim (text_eq-cases j k) [
        | inl same ↦ ground (
          arith,
          ih,
          turn k,
          ap (λ n. find n entries) same,
          ap (λ n. find n existing) same,
          u,
          (text_eq_iff j k).1 same,
        )
        | inr other ↦ ground (arith, ih, turn k, other)
      ]

-- The row of a name that the file does not have, from the row before
abbrev pub orphan_row : ℕ → Bool → Stored → Option Stored
orphan_row now prune row =
    if not (is_config row.source)
    then some row
    else if prune
    then none
    else if is_not_false row.enabled
    then some (switched_off now row)
    else some row

abbrev pub swept_row : ℕ → Bool → Option Target → Option Stored → Option Stored
swept_row now prune (some t) current = current
swept_row now prune none none = none
swept_row now prune none (some row) = orphan_row now prune row

module _ (now : ℕ) (entries : Dict Target) (existing : Dict Stored) (u : IsUnique existing) where
  find-sweep :
      (prune : Bool) (k : Text) (pass : Pass)
      → IsUnique pass.table
      → find k pass.table ≡ row_after now (find k entries) (find k existing) (find k existing)
      → find k (sweep now prune (keep (is_orphan entries) existing) pass).table
        ≡ swept_row now prune
            (find k entries)
            (row_after now (find k entries) (find k existing) (find k existing))
  unfolding sweep delete_where
  find-sweep true k pass v e =
      let orphans = keep (is_orphan entries) existing in
      ground (
        arith,
        e,
        find-pick (λ e. not (in_names (names_of orphans) e.0 e.1)) k pass.table v,
        has_text-names k orphans,
        find-pick (is_orphan entries) k existing u,
      )
  find-sweep false k pass v e =
      let orphans = keep (is_orphan entries) existing in
      let live = keep (λ e. is_not_false e.1.enabled) orphans in
      ground (
        arith,
        e,
        find-update_where (in_names (names_of live)) (switched_off now) k pass.table,
        has_text-names k live,
        find-pick (λ e. is_not_false e.1.enabled) k orphans
            (IsUnique-keep (is_orphan entries) existing u),
        find-pick (is_orphan entries) k existing u,
      )

  pub reconciled_row :
      (prune : Bool) (k : Text)
      → IsUnique entries
      → find k (apply_reconciliation now prune entries existing).table
        ≡ swept_row now prune
            (find k entries)
            (row_after now (find k entries) (find k existing) (find k existing))
  unfolding apply_reconciliation
  reconciled_row prune k ue =
      let start : Pass = record { table = existing; diff = empty_diff } in
      find-sweep prune k (apply_entries now existing entries start)
        (apply_entries-IsUnique now existing entries start u)
        (find-apply_entries now existing entries k start ue (λ j t e. refl))

  sweep-IsUnique :
      (prune : Bool) (orphans : Dict Stored) (pass : Pass)
      → IsUnique pass.table
      → IsUnique (sweep now prune orphans pass).table
  unfolding sweep delete_where
  sweep-IsUnique true orphans pass v =
      IsUnique-keep (λ e. not (in_names (names_of orphans) e.0 e.1)) pass.table v
  sweep-IsUnique false orphans pass v =
      IsUnique-update_where (in_names (names_of (keep (λ e. is_not_false e.1.enabled) orphans)))
        (switched_off now) pass.table v

  pub reconciled-IsUnique :
      (prune : Bool) → IsUnique (apply_reconciliation now prune entries existing).table
  unfolding apply_reconciliation
  reconciled-IsUnique prune =
      let start : Pass = record { table = existing; diff = empty_diff } in
      sweep-IsUnique prune (keep (is_orphan entries) existing)
        (apply_entries now existing entries start)
        (apply_entries-IsUnique now existing entries start u)
