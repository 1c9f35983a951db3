-- ===== src/Clients/Reconcile/Again.antt =====
-- Which clients a second run with the same file updates again: apps/web/src/server/oidc/reconcile.ts.
use semantius_idp.Prelude.{
  Bool, Bool-cases, Dict, In, In-find, In-of_find, text_eq, In-map, IsUnique, List, Option,
  Option-cases, Text, any_of_In, ap, codes, find, inl, inr, none, refl, some, some_inj, sym, subst,
  text_eq-cases, text_eq_iff, true, ℕ, ◌↔◌, ◌∙◌, ◌≡◌,
}
use semantius_idp.Clients.{ClientEntry, Metadata, Targets, metadata_for, to_client_row}
use semantius_idp.Clients.Rows.{TableRow, Store, Column, of_json, json, text, null, owned_columns}
use semantius_idp.Clients.Reconcile.{
  Environment, apply_reconciliation, desired_row, differs, equal, write,
}
use semantius_idp.Clients.Reconcile.Table.{by_id, entry_row, reconciled_client}
use semantius_idp.Clients.Reconcile.Written.{Survives, inserted-IsUnique, settled_row, written}
use semantius_idp.Clients.Reconcile.Updated.{updated_iff}

module _ (env : Environment) where
  -- The file's metadata of the client does not print the same when it is read back.
  abbrev pub IsMangled : ClientEntry → Type 0
  IsMangled e = (m : Metadata) × (metadata_for e ≡ some m) × ¬ Survives env m

  metadata_column :
      (e : ClientEntry) (m : Metadata)
      → metadata_for e ≡ some m
      → In (codes "metadata", json m) (owned_columns (desired_row env e))
  unfolding owned_columns to_client_row find text_eq
  metadata_column e m q =
      In-of_find (codes "metadata") (json m) (owned_columns (desired_row env e))
        (ap (λ o. some (of_json o)) q)

  mangled_differs :
      (columns : Dict Column) (row : TableRow) (e : ClientEntry)
      → IsUnique columns
      → ((c : Text × Column) → In c (owned_columns (desired_row env e)) → In c columns)
      → IsMangled e
      → differs env (write env columns row) (desired_row env e) ≡ true
  unfolding differs to_client_row equal
  mangled_differs columns row e u i (m, q, n) =
      let here = metadata_column e m q in
      any_of_In _ (codes "metadata", json m) (owned_columns (desired_row env e)) here
        (rw (written env columns row (codes "metadata") (json m) u (i _ here))
          (elim (text_eq-cases (env.stringify (env.normal m)) (env.stringify m)) [
            | inl same ↦ absurd (n same)
            | inr other ↦ rw other refl
          ]))

  differs-IsMangled :
      (now : ℕ) (e : ClientEntry) (old : Option TableRow)
      → differs env (entry_row env now e old) (desired_row env e) ≡ true
      → IsMangled e
  differs-IsMangled now e old h = elim (Option-cases (metadata_for e)) [
    | inl q ↦ absurd (cc (h, settled_row env now e old (λ m r. cc (q, r))))
    | inr (m, q) ↦ elim (text_eq-cases (env.stringify (env.normal m)) (env.stringify m)) [
      | inl s ↦
          absurd (
            cc
              (h, settled_row env now e old (λ x r. subst (Survives env) (some_inj (sym q ∙ r)) s)))
      | inr o ↦
          (m, q, λ s. cc (o, (text_eq_iff (env.stringify (env.normal m)) (env.stringify m)).1 s))
    ]
  ]

  differs_again :
      (now : ℕ) (e : ClientEntry) (old : Option TableRow)
      → (differs env (entry_row env now e old) (desired_row env e) ≡ true) ↔ (
          ((row : TableRow) → old ≡ some row → differs env row (desired_row env e) ≡ true)
          × IsMangled e)
  differs_again now e none = (
    λ h. (λ row q. cc q, differs-IsMangled now e none h),
    λ (o, g).
        mangled_differs _ env.blank e
          (inserted-IsUnique env (desired_row env e) (text (env.uuid e.client_id)) now)
          (λ c i. inr (inr (inr (inr i)))) g,
  )
  differs_again now e (some row) = elim (Bool-cases (differs env row (desired_row env e))) [
    | inl h ↦ rw (h) (
      λ d. (
        λ r q. ap (λ x. differs env x (desired_row env e)) (sym (some_inj q)) ∙ h,
        differs-IsMangled now e (some row) (rw h d),
      ),
      λ (o, k).
          mangled_differs _ row e (inserted-IsUnique env (desired_row env e) null now).1.1
            (λ c i. inr (inr i)) k,
    )
    | inr h ↦ rw (h) (λ d. absurd (cc (d, h)), λ (o, k). absurd (cc (o row refl, h)))
  ]

  module _ (prune : Bool) (config : Targets) (entries : List ClientEntry) (store : Store) (now : ℕ)
      (u : IsUnique store.clients) (ue : IsUnique (by_id entries)) where
    abbrev first : Store
    first = (apply_reconciliation env now prune config entries store).store

    entry_after :
        (e : ClientEntry)
        → In e entries
        → find e.client_id first.clients
          ≡ some (entry_row env now e (find e.client_id store.clients))
    entry_after e i =
        reconciled_client env now prune config entries store e.client_id u ue
        ∙ rw (In-find e.client_id e (by_id entries) ue (In-map (λ x. (x.client_id, x)) e entries i))
            refl

    -- With client ids that are unique in the file and in the table: a second run with the same file
    -- updates a client exactly where it is in the file, the first run inserted or updated it, and its
    -- metadata, as the file gives it, prints differently once the database has given it back.
    pub updated_again_iff :
        (later : ℕ) (k : Text)
        → In k (apply_reconciliation env later prune config entries first).diff.updated ↔ (
            (e : ClientEntry) × In e entries
            × (e.client_id ≡ k)
            × ((row : TableRow)
                → find e.client_id store.clients ≡ some row
                → differs env row (desired_row env e) ≡ true)
            × IsMangled e)
    updated_again_iff later k =
        let (to, from) = updated_iff env prune config entries first later k in
        (
          λ i.
              let (e, j, w, (row, f, d)) = to i in
              let same = some_inj (sym (entry_after e j) ∙ f) in
              let (o, g) =
                (differs_again now e (find e.client_id store.clients)).0
                  (ap (λ x. differs env x (desired_row env e)) same ∙ d) in
              (e, j, w, o, g),
          λ (e, j, w, o, g). from (
            e,
            j,
            w,
            (
              entry_row env now e (find e.client_id store.clients),
              entry_after e j,
              (differs_again now e (find e.client_id store.clients)).1 (o, g),
            ),
          ),
        )
