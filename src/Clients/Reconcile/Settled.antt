-- ===== src/Clients/Reconcile/Settled.antt =====
-- A second reconciliation of the clients with the same file: apps/web/src/server/oidc/reconcile.ts.
use semantius_idp.Prelude.{
  Bool, Bool-cases, Dict, In, In-of_find, In-of_map, IsUnique, IsUnique-change, IsUnique-keep,
  IsUnique-put, List, Option, Text, [], ap, codes, false, find, inl, inr, keep, none, not, refl,
  remove, some, subst, sym, text_eq, true, ℕ, ◌∙◌, ◌∷◌, ◌≡◌,
}
use semantius_idp.Clients.{Metadata, ClientEntry, Targets, metadata_for}
use semantius_idp.Clients.Rows.{flag, TableRow, Store, Pass, empty_diff}
use semantius_idp.Clients.Reconcile.{
  Environment, is_orphan, is_null, is_set, apply_entry, apply_entries, sweep_orphan, sweep,
  apply_reconciliation, delete_client, differs, write, desired_row, switched_off,
}
use semantius_idp.Clients.Reconcile.Table.{
  by_id, orphan_row, client_after, reconciled_client, sync-clients,
}
use semantius_idp.Clients.Reconcile.Written.{Survives, settled_row}

by_id-In :
    (k : Text) (e : ClientEntry) (entries : List ClientEntry)
    → find k (by_id entries) ≡ some e
    → In e entries
by_id-In k e entries w =
    let (t, i, q) =
      In-of_map (λ x. (x.client_id, x)) (k, e) entries (In-of_find k e (by_id entries) w) in
    subst (λ x. In x entries) (ap (λ x. x.1) q) i

module _ (env : Environment) where
  off_owner :
      (now : ℕ) (row : TableRow) → switched_off env now row (codes "userId") ≡ row (codes "userId")
  unfolding write find text_eq
  off_owner now row = refl

  off_disabled :
      (now : ℕ) (row : TableRow) → switched_off env now row (codes "disabled") ≡ flag true
  unfolding write find text_eq
  off_disabled now row = refl

  orphan_row-same :
      (now later : ℕ) (prune : Bool) (row : TableRow)
      → client_after env later prune none (orphan_row env now prune row)
        ≡ orphan_row env now prune row
  orphan_row-same now later prune row = elim (Bool-cases (is_null (row (codes "userId")))) [
    | inr n ↦ rw (n, n) refl
    | inl n ↦ elim (Bool-cases prune) [
      | inl p ↦ rw (n, p) refl
      | inr p ↦ elim (Bool-cases (is_set (row (codes "disabled")))) [
        | inl d ↦ rw (n, p, d) (rw (n, d) refl)
        | inr d ↦ rw (n, p, d) (rw (off_owner now row, n, off_disabled now row) refl)
      ]
    ]
  ]

  again :
      (now later : ℕ) (prune : Bool) (wanted : Option ClientEntry) (old : Option TableRow)
      → ((e : ClientEntry) (m : Metadata)
          → wanted ≡ some e
          → metadata_for e ≡ some m
          → Survives env m)
      → client_after env later prune wanted (client_after env now prune wanted old)
        ≡ client_after env now prune wanted old
  again now later prune (some e) old s = rw (settled_row env now e old (λ m. s e m refl)) refl
  again now later prune none none s = refl
  again now later prune none (some row) s = orphan_row-same now later prune row

  apply-IsUnique :
      (now : ℕ) (existing : Dict TableRow) (entries : List ClientEntry) (pass : Pass)
      → IsUnique pass.store.clients
      → IsUnique (apply_entries env now existing entries pass).store.clients
  unfolding apply_entries apply_entry
  apply-IsUnique now existing [] pass u = u
  apply-IsUnique now existing (e ∷ es) pass u =
      apply-IsUnique now existing es _ (one (find e.client_id existing))
    where
      one :
          (current : Option TableRow) → IsUnique (apply_entry env now current e pass).store.clients
      one none = IsUnique-put e.client_id _ pass.store.clients u
      one (some row) = elim (Bool-cases (differs env row (desired_row env e))) [
        | inl h ↦ rw (h) (IsUnique-change e.client_id _ pass.store.clients u)
        | inr h ↦ rw (h) u
      ]

  sweep-IsUnique :
      (now : ℕ) (prune : Bool) (orphans : Dict TableRow) (pass : Pass)
      → IsUnique pass.store.clients
      → IsUnique (sweep env now prune orphans pass).store.clients
  unfolding sweep sweep_orphan delete_client remove
  sweep-IsUnique now prune [] pass u = u
  sweep-IsUnique now true ((j, row) ∷ rest) pass u =
      sweep-IsUnique now true rest _ (IsUnique-keep (λ e. not (text_eq e.0 j)) pass.store.clients u)
  sweep-IsUnique now false ((j, row) ∷ rest) pass u =
      sweep-IsUnique now false rest _ (elim (Bool-cases (is_set (row (codes "disabled")))) [
        | inl y ↦ rw (y) u
        | inr n ↦ rw (n) (IsUnique-change j _ pass.store.clients u)
      ])

  module _ (prune : Bool) (config : Targets) (entries : List ClientEntry) (store : Store)
      (u : IsUnique store.clients) where
    pub reconciled-IsUnique :
        (now : ℕ) → IsUnique (apply_reconciliation env now prune config entries store).store.clients
    unfolding apply_reconciliation
    reconciled-IsUnique now =
        let start : Pass = record { store = store; diff = empty_diff } in
        let written_pass = apply_entries env now store.clients entries start in
        let orphans = keep (is_orphan entries) store.clients in
        let cleaned = sweep env now prune orphans written_pass in
        subst IsUnique (sym (sync-clients config entries cleaned)) (
          sweep-IsUnique now prune orphans written_pass
            (apply-IsUnique now store.clients entries start u))

    -- With client ids that are unique in the file and in the table, and where the database gives each
    -- metadata object of the file back so that it prints as it did: a second reconciliation with the same
    -- file leaves every row of the table as the first left it, its times included.
    pub clients_settled :
        (now later : ℕ) (k : Text)
        → IsUnique (by_id entries)
        → ((e : ClientEntry) (m : Metadata)
            → In e entries
            → metadata_for e ≡ some m
            → Survives env m)
        → find k
            (apply_reconciliation env later prune config entries
              (apply_reconciliation env now prune config entries store).store).store.clients
          ≡ find k (apply_reconciliation env now prune config entries store).store.clients
    clients_settled now later k ue s =
        let first = (apply_reconciliation env now prune config entries store).store in
        let after_one = reconciled_client env now prune config entries store k u ue in
        reconciled_client env later prune config entries first k (reconciled-IsUnique now) ue
        ∙ ap (client_after env later prune (find k (by_id entries))) after_one
        ∙ again now later prune (find k (by_id entries)) (find k store.clients)
            (λ e m w j. s e m (by_id-In k e entries w) j)
        ∙ sym after_one
