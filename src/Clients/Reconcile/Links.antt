-- ===== src/Clients/Reconcile/Links.antt =====
-- The resources that the clients are linked to: apps/web/src/server/oidc/reconcile.ts.
use semantius_idp.Prelude.{
  Bool, Bool-cases, Dict, In, IsUnique, List, Option, Text, [], codes, false, find, if◌then◌else◌,
  inl, inr, keep, none, refl, some, subst, sym, text_eq-cases, text_eq_iff, true, ℕ, ◌↔◌, ◌∙◌, ◌∷◌,
  ◌≡◌, arith,
}
use semantius_idp.Clients.{ClientEntry, Targets, resource_links_for}
use semantius_idp.Clients.Rows.{TableRow, Store, Pass, empty_diff, with_links, add_relinked}
use semantius_idp.Clients.Reconcile.{
  Environment, sync_entries, sync_resource_links, apply_reconciliation, apply_entry, apply_entries,
  sweep, sweep_orphan, delete_client, is_orphan, is_set, differs, desired_row,
}
use semantius_idp.Clients.Reconcile.Table.{by_id}
use semantius_idp.Clients.Reconcile.Client.{sync-SyncedTo}

sync-resources :
    (config : Targets) (entries : List ClientEntry) (pass : Pass)
    → (sync_entries config entries pass).store.resources ≡ pass.store.resources
unfolding sync_entries
sync-resources config [] pass = refl
sync-resources config (e ∷ es) pass = sync-resources config es _

-- The pass after the links of one entry
abbrev one_synced : Targets → ClientEntry → Pass → Pass
one_synced config entry pass =
    let synced =
      sync_resource_links entry.client_id (resource_links_for entry config) pass.store.resources
        pass.store.links in
    record {
      store = with_links synced.links pass.store;
      diff = if synced.changed then add_relinked entry.client_id pass.diff else pass.diff;
    }

module _ (config : Targets) where
  other_links :
      (entries : List ClientEntry) (k r : Text) (pass : Pass)
      → find k (by_id entries) ≡ none
      → In (k, r) (sync_entries config entries pass).store.links ↔ In (k, r) pass.store.links
  unfolding sync_entries find
  other_links [] k r pass n = (λ i. i, λ i. i)
  other_links (e ∷ es) k r pass n = elim (text_eq-cases e.client_id k) [
    | inl same ↦ absurd (ground (arith, n, (text_eq_iff e.client_id k).1 same))
    | inr other ↦
        let (to, from) = other_links es k r (one_synced config e pass) (rw (other) at n) in
        let (f, g) =
          (sync-SyncedTo e.client_id (resource_links_for e config) pass.store.resources
              pass.store.links).1
            k r (λ q. cc (other, (text_eq_iff e.client_id k).1 (sym q))) in
        (λ i. f (to i), λ i. from (g i))
  ]

  entry_links :
      (entries : List ClientEntry) (e : ClientEntry) (r : Text) (pass : Pass)
      → IsUnique (by_id entries)
      → In e entries
      → In (e.client_id, r) (sync_entries config entries pass).store.links
        ↔ (In r (resource_links_for e config) × In r pass.store.resources)
  unfolding sync_entries
  entry_links [] e r pass u i = absurd i
  entry_links (t ∷ ts) e r pass (u, us) (inl same) =
      let (to, from) = other_links ts t.client_id r (one_synced config t pass) u in
      let (f, g) =
        (sync-SyncedTo t.client_id (resource_links_for t config) pass.store.resources
            pass.store.links).0
          r in
      subst
        (λ x.
          In (x.client_id, r) (sync_entries config (t ∷ ts) pass).store.links
          ↔ (In r (resource_links_for x config) × In r pass.store.resources))
        same (λ i. f (to i), λ x. from (g x))
  entry_links (t ∷ ts) e r pass (u, us) (inr i) = entry_links ts e r (one_synced config t pass) us i

module _ (env : Environment) where
  apply-resources :
      (now : ℕ) (existing : Dict TableRow) (entries : List ClientEntry) (pass : Pass)
      → (apply_entries env now existing entries pass).store.resources ≡ pass.store.resources
  unfolding apply_entries apply_entry
  apply-resources now existing [] pass = refl
  apply-resources now existing (e ∷ es) pass =
      apply-resources now existing es _ ∙ one (find e.client_id existing)
    where
      one :
          (current : Option TableRow)
          → (apply_entry env now current e pass).store.resources ≡ pass.store.resources
      one none = refl
      one (some row) = elim (Bool-cases (differs env row (desired_row env e))) [
        | inl h ↦ rw h refl
        | inr h ↦ rw h refl
      ]

  sweep-resources :
      (now : ℕ) (prune : Bool) (orphans : Dict TableRow) (pass : Pass)
      → (sweep env now prune orphans pass).store.resources ≡ pass.store.resources
  unfolding sweep sweep_orphan delete_client
  sweep-resources now prune [] pass = refl
  sweep-resources now true ((j, row) ∷ rest) pass = sweep-resources now true rest _
  sweep-resources now false ((j, row) ∷ rest) pass =
      sweep-resources now false rest _ ∙ elim (Bool-cases (is_set (row (codes "disabled")))) [
        | inl y ↦ rw y refl
        | inr n ↦ rw n refl
      ]

  -- With client ids that are unique in the file, a reconciliation leaves each client of the file linked
  -- to exactly those of its resources that the database knows, whatever it was linked to before.
  pub links_exact :
      (now : ℕ) (prune : Bool) (config : Targets) (entries : List ClientEntry) (store : Store)
      (e : ClientEntry) (r : Text)
      → IsUnique (by_id entries)
      → In e entries
      → In (e.client_id, r) (apply_reconciliation env now prune config entries store).store.links
        ↔ (In r (resource_links_for e config) × In r store.resources)
  unfolding apply_reconciliation
  links_exact now prune config entries store e r u i =
      let start : Pass = record { store = store; diff = empty_diff } in
      let written = apply_entries env now store.clients entries start in
      let orphans = keep (is_orphan entries) store.clients in
      let cleaned = sweep env now prune orphans written in
      subst
        (λ known.
          In (e.client_id, r) (sync_entries config entries cleaned).store.links
          ↔ (In r (resource_links_for e config) × In r known))
        (sweep-resources now prune orphans written
          ∙ apply-resources now store.clients entries start)
        (entry_links config entries e r cleaned u i)
