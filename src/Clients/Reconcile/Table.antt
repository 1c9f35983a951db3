-- ===== src/Clients/Reconcile/Table.antt =====
-- What a reconciliation leaves in the table of clients: apps/web/src/server/oidc/reconcile.ts.
use semantius_idp.Prelude.{
  Bool, Bool-cases, Dict, IsUnique, IsUnique-keep, List, Option, Option-cases, Text, [], ap, change,
  codes, false, find, find-change, find-pick, find-put, find-remove, has_text, if◌then◌else◌, inl,
  inr, is_none, keep, map, map_row, none, not, picked, refl, some, sym, text_eq, text_eq-cases,
  text_eq_iff, text_eq_refl, true, ℕ, ◌∙◌, ◌∷◌, ◌≡◌, arith,
}
use semantius_idp.Clients.{ClientEntry, Targets}
use semantius_idp.Clients.Rows.{TableRow, Store, Pass, empty_diff}
use semantius_idp.Clients.Reconcile.{
  Environment, sync_entries, is_wanted, is_orphan, is_null, is_set, differs, desired_row, inserted,
  rewritten, switched_off, apply_entry, apply_entries, sweep_orphan, sweep, apply_reconciliation,
  delete_client,
}

-- The entries by their ids
abbrev pub by_id : List ClientEntry → Dict ClientEntry
by_id entries = map (λ e. (e.client_id, e)) entries

is_wanted_lem :
    (entries : List ClientEntry) (k : Text)
    → is_wanted entries k ≡ not (is_none (find k (by_id entries)))
unfolding has_text find
is_wanted_lem [] k = refl
is_wanted_lem (e ∷ es) k = ground (arith, is_wanted_lem es k)

pub sync-clients :
    (config : Targets) (entries : List ClientEntry) (pass : Pass)
    → (sync_entries config entries pass).store.clients ≡ pass.store.clients
unfolding sync_entries
sync-clients config [] pass = refl
sync-clients config (e ∷ es) pass = sync-clients config es _

if_same : {A : Type 0} (b : Bool) (a : A) → a ≡ (if b then a else a)
if_same true a = refl
if_same false a = refl

module _ (env : Environment) where
  -- The row of a client that the file has, from the row before
  abbrev pub entry_row : ℕ → ClientEntry → Option TableRow → TableRow
  entry_row now entry none = inserted env now entry
  entry_row now entry (some row) =
      if differs env row (desired_row env entry) then rewritten env now entry row else row

  abbrev pub row_after :
      ℕ → Option ClientEntry → Option TableRow → Option TableRow → Option TableRow
  row_after now none old current = current
  row_after now (some e) old current = some (entry_row now e old)

  here_or_not :
      (e : ClientEntry) (k : Text) (pass : Pass) (f : TableRow → TableRow) (row : TableRow)
      → find e.client_id pass.store.clients ≡ some row
      → find k (change e.client_id f pass.store.clients)
        ≡ (if text_eq e.client_id k then some (f row) else find k pass.store.clients)
  here_or_not e k pass f row q = elim (text_eq-cases e.client_id k) [
    | inl same ↦
        find-change e.client_id k f pass.store.clients
        ∙ rw ((text_eq_iff e.client_id k).1 same, sym (ap (λ i. find i pass.store.clients) same), q)
            refl
    | inr other ↦ find-change e.client_id k f pass.store.clients ∙ rw (other) refl
  ]

  kept :
      (e : ClientEntry) (k : Text) (pass : Pass) (row : TableRow)
      → find e.client_id pass.store.clients ≡ some row
      → find k pass.store.clients
        ≡ (if text_eq e.client_id k then some row else find k pass.store.clients)
  kept e k pass row q = elim (text_eq-cases e.client_id k) [
    | inl same ↦
        rw ((text_eq_iff e.client_id k).1 same) (sym (ap (λ i. find i pass.store.clients) same) ∙ q)
    | inr other ↦ rw (other) refl
  ]

  module _ (now : ℕ) (existing : Dict TableRow) where
    find-apply_entry :
        (e : ClientEntry) (k : Text) (pass : Pass)
        → find e.client_id pass.store.clients ≡ find e.client_id existing
        → find k (apply_entry env now (find e.client_id existing) e pass).store.clients ≡ (
            if text_eq e.client_id k
            then some (entry_row now e (find e.client_id existing))
            else find k pass.store.clients)
    unfolding apply_entry
    find-apply_entry e k pass same = elim (Option-cases (find e.client_id existing)) [
      | inl q ↦ rw (q) (find-put e.client_id k (inserted env now e) pass.store.clients)
      | inr (row, q) ↦ elim (Bool-cases (differs env row (desired_row env e))) [
        | inl h ↦ rw (q, h) (here_or_not e k pass (rewritten env now e) row (same ∙ q))
        | inr h ↦ rw (q, h) (kept e k pass row (same ∙ q))
      ]
    ]

    -- The ids of the entries are still as the transaction found them.
    abbrev AreUntouched : List ClientEntry → Dict TableRow → Type 0
    AreUntouched entries table =
        (j : Text) (t : ClientEntry)
        → find j (by_id entries) ≡ some t
        → find j table ≡ find j existing

    find-apply_entries :
        (entries : List ClientEntry) (k : Text) (pass : Pass)
        → IsUnique (by_id entries)
        → AreUntouched entries pass.store.clients
        → find k (apply_entries env now existing entries pass).store.clients
          ≡ row_after now (find k (by_id entries)) (find k existing) (find k pass.store.clients)
    unfolding apply_entries find
    find-apply_entries [] k pass u h = refl
    find-apply_entries (e ∷ es) k pass (u, us) h =
        let turn = λ (i : Text).
          find-apply_entry e i pass (h e.client_id e (ground (arith, text_eq_refl e.client_id))) in
        let after : Pass = apply_entry env now (find e.client_id existing) e pass in
        let rest : AreUntouched es after.store.clients = λ i v q.
          elim (text_eq-cases e.client_id i) [
            | inl same ↦ absurd (cc (q, u, ap (λ n. find n (by_id es)) same))
            | inr other ↦ turn i ∙ rw (other) (h i v (rw other q))
          ] in
        let ih = find-apply_entries es k after us rest in
        elim (text_eq-cases e.client_id k) [
          | inl same ↦
              ih
              ∙ ap (λ o. row_after now o (find k existing) (find k after.store.clients))
                  (sym (ap (λ n. find n (by_id es)) same) ∙ u)
              ∙ turn k
              ∙ rw ((text_eq_iff e.client_id k).1 same)
                  (ap (λ i. some (entry_row now e (find i existing))) same)
          | inr other ↦
              ih
              ∙ rw (other) (
                  ap (row_after now (find k (by_id es)) (find k existing))
                    (turn k ∙ rw (other) refl))
        ]

  -- The row of a client that the file does not have, from the row before
  abbrev pub orphan_row : ℕ → Bool → TableRow → Option TableRow
  orphan_row now prune row =
      if not (is_null (row (codes "userId")))
      then some row
      else if prune
      then none
      else if is_set (row (codes "disabled"))
      then some row
      else some (switched_off env now row)

  abbrev swept : ℕ → Bool → Option TableRow → Option TableRow → Option TableRow
  swept now prune none current = current
  swept now prune (some row) current =
      if prune
      then none
      else if is_set (row (codes "disabled"))
      then current
      else map_row (switched_off env now) current

  find-sweep_orphan :
      (now : ℕ) (prune : Bool) (j k : Text) (row : TableRow) (pass : Pass)
      → find k (sweep_orphan env now prune (j, row) pass).store.clients ≡ (
          if text_eq j k
          then swept now prune (some row) (find k pass.store.clients)
          else find k pass.store.clients)
  unfolding sweep_orphan delete_client
  find-sweep_orphan now true j k row pass = find-remove j k pass.store.clients
  find-sweep_orphan now false j k row pass = elim (Bool-cases (is_set (row (codes "disabled")))) [
    | inl y ↦ rw (y) (if_same (text_eq j k) (find k pass.store.clients))
    | inr n ↦ rw (n) (find-change j k (switched_off env now) pass.store.clients)
  ]

  find-sweep :
      (now : ℕ) (prune : Bool) (orphans : Dict TableRow) (k : Text) (pass : Pass)
      → IsUnique orphans
      → find k (sweep env now prune orphans pass).store.clients
        ≡ swept now prune (find k orphans) (find k pass.store.clients)
  unfolding sweep find
  find-sweep now prune [] k pass u = refl
  find-sweep now prune ((j, row) ∷ rest) k pass (u, us) =
      let after = sweep_orphan env now prune (j, row) pass in
      let ih = find-sweep now prune rest k after us in
      let turn = find-sweep_orphan now prune j k row pass in
      elim (text_eq-cases j k) [
        | inl same ↦
            ih
            ∙ ap (λ o. swept now prune o (find k after.store.clients))
                (sym (ap (λ n. find n rest) same) ∙ u)
            ∙ turn
            ∙ rw ((text_eq_iff j k).1 same) refl
        | inr other ↦ ih ∙ rw (other) (ap (swept now prune (find k rest)) (turn ∙ rw (other) refl))
      ]

  -- What becomes of a client: it is the file's, nobody's, or an orphan of the file
  abbrev pub client_after : ℕ → Bool → Option ClientEntry → Option TableRow → Option TableRow
  client_after now prune (some e) old = some (entry_row now e old)
  client_after now prune none none = none
  client_after now prune none (some row) = orphan_row now prune row

  swept_after :
      (now : ℕ) (prune : Bool) (entries : List ClientEntry) (k : Text) (old : Option TableRow)
      → swept now prune
          (picked (is_orphan entries) k old)
          (row_after now (find k (by_id entries)) old old)
        ≡ client_after now prune (find k (by_id entries)) old
  swept_after now prune entries k none = elim (Option-cases (find k (by_id entries))) [
    | inl e ↦ rw e refl
    | inr (t, e) ↦ rw e refl
  ]
  swept_after now prune entries k (some row) = elim (Option-cases (find k (by_id entries))) [
    | inl e ↦
        let w : is_wanted entries k ≡ false = is_wanted_lem entries k ∙ rw e refl in
        elim (Bool-cases (is_null (row (codes "userId")))) [
          | inl n ↦ rw (w, e, n) (ground arith)
          | inr n ↦ rw (w, e, n) (ground arith)
        ]
    | inr (t, e) ↦
        let w : is_wanted entries k ≡ true = is_wanted_lem entries k ∙ rw e refl in rw (w, e) refl
  ]

  -- With client ids that are unique in the file and in the table, a reconciliation inserts each
  -- client of the file that is missing, writes the desired columns of one that differs from its
  -- entry and leaves one that does not; of the other clients it leaves a user's as it was, deletes
  -- the rest where the file prunes, and disables where it does not those that are not disabled.
  pub reconciled_client :
      (now : ℕ) (prune : Bool) (config : Targets) (entries : List ClientEntry) (store : Store)
      (k : Text)
      → IsUnique store.clients
      → IsUnique (by_id entries)
      → find k (apply_reconciliation env now prune config entries store).store.clients
        ≡ client_after now prune (find k (by_id entries)) (find k store.clients)
  unfolding apply_reconciliation
  reconciled_client now prune config entries store k u ue =
      let start : Pass = record { store = store; diff = empty_diff } in
      let written = apply_entries env now store.clients entries start in
      let orphans = keep (is_orphan entries) store.clients in
      let cleaned = sweep env now prune orphans written in
      ap (find k) (sync-clients config entries cleaned)
      ∙ find-sweep now prune orphans k written (IsUnique-keep (is_orphan entries) store.clients u)
      ∙ ap (λ o. swept now prune o (find k written.store.clients))
          (find-pick (is_orphan entries) k store.clients u)
      ∙ ap (swept now prune (picked (is_orphan entries) k (find k store.clients)))
          (find-apply_entries now store.clients entries k start ue (λ j t e. refl))
      ∙ swept_after now prune entries k (find k store.clients)
