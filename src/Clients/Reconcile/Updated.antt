-- ===== src/Clients/Reconcile/Updated.antt =====
-- Which clients a run reports as updated: apps/web/src/server/oidc/reconcile.ts.
use semantius_idp.Prelude.{
  Bool, Bool-cases, Dict, In, In-append_iff, List, Option-cases, Text, [], ap, codes, false, find,
  if◌then◌else◌, inl, inr, keep, refl, some, some_inj, sym, subst, true, ℕ, ◌↔◌, ◌∙◌, ◌∷◌, ◌≡◌, ◌⊎◌,
}
use semantius_idp.Clients.{ClientEntry, Targets, resource_links_for}
use semantius_idp.Clients.Rows.{Diff, TableRow, Store, Pass, add_relinked, empty_diff}
use semantius_idp.Clients.Reconcile.{
  Environment, apply_entries, apply_entry, apply_reconciliation, desired_row, differs, is_orphan,
  is_set, sweep, sweep_orphan, sync_entries, sync_resource_links,
}

relinked-updated :
    (b : Bool) (id : Text) (d : Diff) → (if b then add_relinked id d else d).updated ≡ d.updated
relinked-updated true id d = refl
relinked-updated false id d = refl

sync-updated :
    (config : Targets) (entries : List ClientEntry) (pass : Pass)
    → (sync_entries config entries pass).diff.updated ≡ pass.diff.updated
unfolding sync_entries
sync-updated config [] pass = refl
sync-updated config (e ∷ es) pass =
    let synced =
      sync_resource_links e.client_id (resource_links_for e config) pass.store.resources
        pass.store.links in
    sync-updated config es _ ∙ relinked-updated synced.changed e.client_id pass.diff

module _ (env : Environment) where
  sweep-updated :
      (now : ℕ) (prune : Bool) (orphans : Dict TableRow) (pass : Pass)
      → (sweep env now prune orphans pass).diff.updated ≡ pass.diff.updated
  unfolding sweep sweep_orphan
  sweep-updated now prune [] pass = refl
  sweep-updated now true ((j, row) ∷ rest) pass = sweep-updated now true rest _
  sweep-updated now false ((j, row) ∷ rest) pass =
      sweep-updated now false rest _ ∙ elim (Bool-cases (is_set (row (codes "disabled")))) [
        | inl y ↦ rw y refl
        | inr n ↦ rw n refl
      ]

  -- The entry has a row before the run, and it differs.
  abbrev pub IsStale : Dict TableRow → ClientEntry → Type 0
  IsStale existing e =
      (row : TableRow) × (find e.client_id existing ≡ some row)
      × (differs env row (desired_row env e) ≡ true)

  abbrev pub HasStale : Dict TableRow → List ClientEntry → Text → Type 0
  HasStale existing entries k =
      (e : ClientEntry) × In e entries × (e.client_id ≡ k) × IsStale existing e

  module _ (now : ℕ) (existing : Dict TableRow) where
    entry-updated :
        (e : ClientEntry) (k : Text) (pass : Pass)
        → In k (apply_entry env now (find e.client_id existing) e pass).diff.updated
          ↔ (In k pass.diff.updated ⊎ ((e.client_id ≡ k) × IsStale existing e))
    unfolding apply_entry
    entry-updated e k pass = elim (Option-cases (find e.client_id existing)) [
      | inl q ↦ rw (q) (λ i. inl i, elim [ inl i ↦ i | inr (s, (row, f, d)) ↦ absurd (cc f) ])
      | inr (row, q) ↦ elim (Bool-cases (differs env row (desired_row env e))) [
        | inl h ↦
            let (to, from) = In-append_iff k pass.diff.updated (e.client_id ∷ []) in
            rw (q, h)
              (
                λ i. elim (to i) [
                  | inl j ↦ inl j
                  | inr (inl same) ↦ inr (same, (row, refl, h))
                  | inr (inr n) ↦ absurd n
                ],
                elim [ inl i ↦ from (inl i) | inr (w, s) ↦ from (inr (inl w)) ],
              )
        | inr h ↦
            rw (q, h)
              (
                λ i. inl i,
                elim [
                  | inl i ↦ i
                  | inr (w, (r, f, d)) ↦
                      absurd (cc (h, d, ap (λ x. differs env x (desired_row env e)) (some_inj f)))
                ],
              )
      ]
    ]

    entries-updated :
        (entries : List ClientEntry) (k : Text) (pass : Pass)
        → In k (apply_entries env now existing entries pass).diff.updated
          ↔ (In k pass.diff.updated ⊎ HasStale existing entries k)
    unfolding apply_entries
    entries-updated [] k pass = (λ i. inl i, elim [ inl i ↦ i | inr (e, i, w, s) ↦ absurd i ])
    entries-updated (e ∷ es) k pass =
        let (to, from) = entry-updated e k pass in
        let (on, back) =
          entries-updated es k (apply_entry env now (find e.client_id existing) e pass) in
        (
          λ i. elim (on i) [
            | inl j ↦ elim (to j) [ inl l ↦ inl l | inr (w, s) ↦ inr (e, inl refl, w, s) ]
            | inr (t, j, w, s) ↦ inr (t, inr j, w, s)
          ],
          elim [
            | inl i ↦ back (inl (from (inl i)))
            | inr (t, inr j, w, s) ↦ back (inr (t, j, w, s))
            | inr (t, inl j, w, s) ↦
                let (v, r) = subst (λ x. (x.client_id ≡ k) × IsStale existing x) (sym j) (w, s) in
                back (inl (from (inr (v, r))))
          ],
        )

  -- A run reports as updated exactly the clients of the file that have a row before it which differs.
  pub updated_iff :
      (prune : Bool) (config : Targets) (entries : List ClientEntry) (store : Store) (now : ℕ)
      (k : Text)
      → In k (apply_reconciliation env now prune config entries store).diff.updated
        ↔ HasStale store.clients entries k
  unfolding apply_reconciliation
  updated_iff prune config entries store now k =
      let start : Pass = record { store = store; diff = empty_diff } in
      let written_pass = apply_entries env now store.clients entries start in
      let (to, from) = entries-updated now store.clients entries k start in
      rw
        (
          sync-updated config entries
              (sweep env now prune (keep (is_orphan entries) store.clients) written_pass),
          sweep-updated now prune (keep (is_orphan entries) store.clients) written_pass,
        )
        (λ i. elim (to i) [ inl j ↦ absurd j | inr s ↦ s ], λ s. from (inr s))
