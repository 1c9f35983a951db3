-- ===== src/Clients/Reconcile/Public.antt =====
-- Public clients in the table: apps/web/src/server/oidc/reconcile.ts with client-mapping.ts.
use semantius_idp.Prelude.{
  Bool, Bool-cases, In, In-find, In-map, IsUnique, List, Option, Text, any_of_In, codes, false,
  find, inl, inr, none, not, refl, some, true, ℕ, ◌∙◌, ◌≡◌, ◌⊎◌,
}
use semantius_idp.Clients.{ClientEntry, Targets, is_public, to_client_row}
use semantius_idp.Clients.Rows.{
  Column, null, text, flag, texts, json, time, TableRow, Store, owned_columns,
}
use semantius_idp.Clients.Reconcile.{
  Environment, apply_reconciliation, equal, differs, stored, desired_row,
}
use semantius_idp.Clients.Reconcile.Table.{by_id, entry_row, reconciled_client}
use semantius_idp.Clients.Reconcile.Written.{written, inserted-IsUnique}

-- The columns that every public client of the file has
pub record IsSafe (row : TableRow) : Type 0 where
  pub secret : row (codes "clientSecret") ≡ null
  pub pkce : row (codes "requirePKCE") ≡ flag true
  pub owner : row (codes "userId") ≡ null

module _ (env : Environment) where
  equal-null : (c : Column) → equal env c null ≡ true → c ≡ null
  unfolding equal
  equal-null null h = refl
  equal-null (text t) h = cc
  equal-null (flag b) h = cc
  equal-null (texts ts) h = cc
  equal-null (json m) h = cc
  equal-null (time n) h = cc

  equal-true : (c : Column) → equal env c (flag true) ≡ true → c ≡ flag true
  unfolding equal
  equal-true null h = cc
  equal-true (text t) h = cc
  equal-true (flag true) h = refl
  equal-true (flag false) h = cc
  equal-true (texts ts) h = cc
  equal-true (json m) h = cc
  equal-true (time n) h = cc

  -- A column of a client of the file holds the desired value, or one that counts as equal to it.
  owned_value :
      (now : ℕ) (e : ClientEntry) (old : Option TableRow) (k : Text) (c : Column)
      → In (k, c) (owned_columns (desired_row env e))
      → (entry_row env now e old k ≡ stored env c)
        ⊎ (equal env (entry_row env now e old k) c ≡ true)
  unfolding differs
  owned_value now e none k c i = inl (
      written env _ env.blank k c
        (inserted-IsUnique env (desired_row env e) (text (env.uuid e.client_id)) now)
        (inr (inr (inr (inr i)))))
  owned_value now e (some row) k c i = elim (Bool-cases (differs env row (desired_row env e))) [
    | inl h ↦ inl (
        rw (h) (
          written env _ row k c (inserted-IsUnique env (desired_row env e) null now).1.1
            (inr (inr i))))
    | inr h ↦ inr (
        rw (h) (elim (Bool-cases (equal env (row k) c)) [
          | inl q ↦ q
          | inr q ↦ absurd (
              cc (
                h,
                any_of_In (λ x. not (equal env (row x.0) x.1)) (k, c)
                    (owned_columns (desired_row env e)) i (rw (q) refl),
              ))
        ]))
  ]

  owned_null :
      (now : ℕ) (e : ClientEntry) (old : Option TableRow) (k : Text)
      → In (k, null) (owned_columns (desired_row env e))
      → entry_row env now e old k ≡ null
  owned_null now e old k i = elim (owned_value now e old k null i) [
    | inl q ↦ q
    | inr q ↦ equal-null _ q
  ]

  owned_true :
      (now : ℕ) (e : ClientEntry) (old : Option TableRow) (k : Text)
      → In (k, flag true) (owned_columns (desired_row env e))
      → entry_row env now e old k ≡ flag true
  owned_true now e old k i = elim (owned_value now e old k (flag true) i) [
    | inl q ↦ q
    | inr q ↦ equal-true _ q
  ]

  entry-IsSafe :
      (now : ℕ) (e : ClientEntry) (old : Option TableRow)
      → is_public e ≡ true
      → IsSafe (entry_row env now e old)
  unfolding owned_columns to_client_row
  entry-IsSafe now e old p = record {
    secret = owned_null now e old (codes "clientSecret") (inl (rw (p) refl));
    pkce =
        owned_true now e old (codes "requirePKCE")
          (inr (inr (inr (inr (inr (inr (inr (inr (inr (inr (inr (inl (rw (p) refl)))))))))))));
    owner = owned_null now e old (codes "userId") (
        inr (
          inr (
            inr (
              inr (
                inr (
                  inr (
                    inr (
                      inr (
                        inr (
                          inr (
                            inr (
                              inr (
                                inr
                                  (inr (inr (inr (inr (inr (inr (inr (inl refl)))))))))))))))))))));
  }

  -- With client ids that are unique in the file and in the table, a reconciliation leaves a row for
  -- each public client of the file that has no secret, requires PKCE and is no user's, whatever its
  -- entry says of the two and whatever the row was before.
  pub public_clients-IsSafe :
      (now : ℕ) (prune : Bool) (config : Targets) (entries : List ClientEntry) (store : Store)
      (e : ClientEntry)
      → IsUnique store.clients
      → IsUnique (by_id entries)
      → In e entries
      → is_public e ≡ true
      → (row : TableRow) × (find e.client_id
            (apply_reconciliation env now prune config entries store).store.clients
          ≡ some row)
        × IsSafe row
  public_clients-IsSafe now prune config entries store e u ue i p =
      let wanted : find e.client_id (by_id entries) ≡ some e =
        In-find e.client_id e (by_id entries) ue (In-map (λ x. (x.client_id, x)) e entries i) in
      (
        entry_row env now e (find e.client_id store.clients),
        reconciled_client env now prune config entries store e.client_id u ue ∙ rw (wanted) refl,
        entry-IsSafe now e (find e.client_id store.clients) p,
      )
