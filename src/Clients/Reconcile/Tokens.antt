-- ===== src/Clients/Reconcile/Tokens.antt =====
-- The tokens of clients that the file no longer has: apps/web/src/server/oidc/reconcile.ts.
use semantius_idp.Prelude.{
  Bool, Bool-cases, Dict, In, In-keep_iff, In-map, In-of_map, List, Option, Text, [], ap, codes,
  false, find, has_text, if◌then◌else◌, inl, inr, keep, map, none, not, refl, some, subst, sym,
  text_eq, text_eq_iff, true, ℕ, ◌↔◌, ◌∙◌, ◌∷◌, ◌≡◌, arith,
}
use semantius_idp.Roles.Laws.{has_text-false}
use semantius_idp.Oauth.{AccessToken, RefreshToken, Tables}
use semantius_idp.Oauth.Revoke.{revoked_at}
use semantius_idp.Clients.{ClientEntry, Targets}
use semantius_idp.Clients.Rows.{TableRow, Store, Pass, empty_diff}
use semantius_idp.Clients.Reconcile.{
  Environment, sync_entries, is_wanted, is_orphan, is_null, is_set, of_client, apply_entry,
  apply_entries, sweep_orphan, sweep, apply_reconciliation, delete_client, revoke_tokens_for,
  differs, desired_row,
}

-- After, the tokens of the client named are gone or revoked, and the others are what they were.
record IsRid (j : Text) (s t : Tables) : Type 0 where
  pub access : (a : AccessToken) → In a t.access ↔ (In a s.access × (text_eq a.client_id j ≡ false))
  pub refresh :
      (r : RefreshToken)
      → r.revoked ≡ none
      → In r t.refresh ↔ (In r s.refresh × (text_eq r.client_id j ≡ false))

not_iff : (b : Bool) → (not b ≡ true) ↔ (b ≡ false)
not_iff b = ground arith

keep-not :
    {A : Type 0} (p : A → Bool) (a : A) (xs : List A)
    → In a (keep (λ x. not (p x)) xs) ↔ (In a xs × (p a ≡ false))
keep-not p a xs =
    let (to, from) = In-keep_iff (λ x. not (p x)) a xs in
    (λ i. ((to i).0, (not_iff (p a)).0 (to i).1), λ (i, e). from (i, (not_iff (p a)).1 e))

revoke-refresh :
    (now : ℕ) (j : Text) (r : RefreshToken) (ts : List RefreshToken)
    → r.revoked ≡ none
    → In r (map (λ t. if of_client j t then revoked_at now t else t) ts)
      ↔ (In r ts × (text_eq r.client_id j ≡ false))
revoke-refresh now j r ts live = (
  λ i.
      let (t, k, e) = In-of_map (λ t. if of_client j t then revoked_at now t else t) r ts i in
      elim (Bool-cases (of_client j t)) [
        | inl h ↦ absurd (cc (live, ap (λ x. x.revoked) (rw h at e)))
        | inr h ↦
            let same : t ≡ r = rw h at e in
            (subst (λ x. In x ts) same k, ap (λ x. text_eq x.client_id j) (sym same) ∙ h)
      ],
  λ (i, h).
      subst (λ x. In x (map (λ t. if of_client j t then revoked_at now t else t) ts)) (rw h refl)
        (In-map (λ t. if of_client j t then revoked_at now t else t) r ts i),
)

revoke-IsRid : (now : ℕ) (j : Text) (s : Tables) → IsRid j s (revoke_tokens_for now j s)
unfolding revoke_tokens_for
revoke-IsRid now j s = record {
  access = λ a. keep-not (λ x. text_eq x.client_id j) a s.access;
  refresh = λ r live. revoke-refresh now j r s.refresh live;
}

delete-IsRid :
    (j : Text) (s t : Store)
    → IsRid j s.tables t.tables
    → IsRid j s.tables (delete_client j t).tables
unfolding delete_client
delete-IsRid j s t rid = record {
  access = λ a.
      let (to, from) = keep-not (λ x. text_eq x.client_id j) a t.tables.access in
      (λ i. (rid.access a).0 (to i).0, λ (i, e). from ((rid.access a).1 (i, e), e));
  refresh = λ r live.
      let (to, from) = keep-not (of_client j) r t.tables.refresh in
      (λ i. (rid.refresh r live).0 (to i).0, λ (i, e). from ((rid.refresh r live).1 (i, e), e));
}

-- As before, for a list of clients
record AreRid (ids : List Text) (s t : Tables) : Type 0 where
  pub access :
      (a : AccessToken) → In a t.access ↔ (In a s.access × (has_text ids a.client_id ≡ false))
  pub refresh :
      (r : RefreshToken)
      → r.revoked ≡ none
      → In r t.refresh ↔ (In r s.refresh × (has_text ids r.client_id ≡ false))

rid_cons :
    (j : Text) (ids : List Text) (k : Text)
    → ((text_eq k j ≡ false) × (has_text ids k ≡ false)) ↔ (has_text (j ∷ ids) k ≡ false)
unfolding has_text
rid_cons j ids k = ground (arith, text_eq_iff k j, text_eq_iff j k)

both_steps : {P Q R A B C : Type 0} → Q ↔ (P × A) → R ↔ (Q × B) → (A × B) ↔ C → R ↔ (P × C)
both_steps (to, from) (f, g) (pair, split) = (
  λ r. ((to (f r).0).0, pair ((to (f r).0).1, (f r).1)),
  λ (p, c). g (from (p, (split c).0), (split c).1),
)

AreRid-cons :
    (j : Text) (ids : List Text) (s t u : Tables)
    → IsRid j s t
    → AreRid ids t u
    → AreRid (j ∷ ids) s u
AreRid-cons j ids s t u one rest = record {
  access = λ a. both_steps (one.access a) (rest.access a) (rid_cons j ids a.client_id);
  refresh =
      λ r live. both_steps (one.refresh r live) (rest.refresh r live) (rid_cons j ids r.client_id);
}

both_halves : {P Q R S : Type 0} → P ↔ (Q × R) → R ↔ S → P ↔ (Q × S)
both_halves (to, from) (f, g) = (λ p. ((to p).0, f (to p).1), λ (q, s). from (q, g s))

sync-tables :
    (config : Targets) (entries : List ClientEntry) (pass : Pass)
    → (sync_entries config entries pass).store.tables ≡ pass.store.tables
unfolding sync_entries
sync-tables config [] pass = refl
sync-tables config (e ∷ es) pass = sync-tables config es _

-- The client is in the table, not in the file, and no user's.
abbrev pub IsOrphaned : List ClientEntry → Store → Text → Type 0
IsOrphaned entries store k =
    (row : TableRow) × In (k, row) store.clients
    × (is_wanted entries k ≡ false)
    × (is_null (row (codes "userId")) ≡ true)

IsOrphaned-iff :
    (entries : List ClientEntry) (store : Store) (k : Text)
    → (has_text (map (λ e. e.0) (keep (is_orphan entries) store.clients)) k ≡ false)
      ↔ (¬ IsOrphaned entries store k)
IsOrphaned-iff entries store k =
    let out = has_text-false (map (λ e. e.0) (keep (is_orphan entries) store.clients)) k in
    (
      λ h (row, i, w, u). out.0 h (
          In-map (λ e. e.0) (k, row) (keep (is_orphan entries) store.clients)
            ((In-keep_iff (is_orphan entries) (k, row) store.clients).1 (i, ground (arith, w, u)))),
      λ n. out.1 (λ i.
          let ((j, row), m, e) =
            In-of_map (λ x. x.0) k (keep (is_orphan entries) store.clients) i in
          let (l, o) = (In-keep_iff (is_orphan entries) (j, row) store.clients).0 m in
          n (subst (IsOrphaned entries store) e (row, l, ground (arith, o), ground (arith, o)))),
    )

module _ (env : Environment) where
  sweep-IsRid :
      (now : ℕ) (prune : Bool) (j : Text) (row : TableRow) (pass : Pass)
      → IsRid j pass.store.tables (sweep_orphan env now prune (j, row) pass).store.tables
  unfolding sweep_orphan
  sweep-IsRid now true j row pass =
      delete-IsRid j pass.store _ (revoke-IsRid now j pass.store.tables)
  sweep-IsRid now false j row pass = elim (Bool-cases (is_set (row (codes "disabled")))) [
    | inl y ↦ rw y (revoke-IsRid now j pass.store.tables)
    | inr n ↦ rw n (revoke-IsRid now j pass.store.tables)
  ]

  sweep-AreRid :
      (now : ℕ) (prune : Bool) (orphans : Dict TableRow) (pass : Pass)
      → AreRid
          (map (λ e. e.0) orphans)
          pass.store.tables
          (sweep env now prune orphans pass).store.tables
  unfolding sweep has_text
  sweep-AreRid now prune [] pass = record {
    access = λ a. (λ i. (i, refl), λ (i, e). i);
    refresh = λ r l. (λ i. (i, refl), λ (i, e). i);
  }
  sweep-AreRid now prune ((j, row) ∷ rest) pass =
      AreRid-cons j (map (λ e. e.0) rest) pass.store.tables _ _ (sweep-IsRid now prune j row pass)
        (sweep-AreRid now prune rest (sweep_orphan env now prune (j, row) pass))

  apply_entry-tables :
      (now : ℕ) (current : Option TableRow) (e : ClientEntry) (pass : Pass)
      → (apply_entry env now current e pass).store.tables ≡ pass.store.tables
  unfolding apply_entry
  apply_entry-tables now none e pass = refl
  apply_entry-tables now (some row) e pass =
      elim (Bool-cases (differs env row (desired_row env e))) [
        | inl h ↦ rw h refl
        | inr h ↦ rw h refl
      ]

  apply_entries-tables :
      (now : ℕ) (existing : Dict TableRow) (entries : List ClientEntry) (pass : Pass)
      → (apply_entries env now existing entries pass).store.tables ≡ pass.store.tables
  unfolding apply_entries
  apply_entries-tables now existing [] pass = refl
  apply_entries-tables now existing (e ∷ es) pass =
      apply_entries-tables now existing es _
      ∙ apply_entry-tables now (find e.client_id existing) e pass

  -- Of the access tokens, and of the refresh tokens that are not revoked, a reconciliation leaves exactly
  -- those whose client is not orphaned: a client in the table that the file does not have and that no
  -- user registered.
  pub orphans_cut :
      (now : ℕ) (prune : Bool) (config : Targets) (entries : List ClientEntry) (store : Store)
      → ((a : AccessToken)
          → In a (apply_reconciliation env now prune config entries store).store.tables.access
            ↔ (In a store.tables.access × ¬ IsOrphaned entries store a.client_id))
        × ((r : RefreshToken)
            → r.revoked ≡ none
            → In r (apply_reconciliation env now prune config entries store).store.tables.refresh
              ↔ (In r store.tables.refresh × ¬ IsOrphaned entries store r.client_id))
  unfolding apply_reconciliation
  orphans_cut now prune config entries store =
      let start : Pass = record { store = store; diff = empty_diff } in
      let written = apply_entries env now store.clients entries start in
      let orphans = keep (is_orphan entries) store.clients in
      let rid : AreRid (map (λ e. e.0) orphans) store.tables
          (sync_entries config entries (sweep env now prune orphans written)).store.tables =
        subst (λ t. AreRid (map (λ e. e.0) orphans) store.tables t)
          (sym (sync-tables config entries _))
          (subst
            (λ s.
              AreRid (map (λ e. e.0) orphans) s (sweep env now prune orphans written).store.tables)
            (apply_entries-tables now store.clients entries start)
            (sweep-AreRid now prune orphans written)) in
      (
        λ a. both_halves (rid.access a) (IsOrphaned-iff entries store a.client_id),
        λ r live. both_halves (rid.refresh r live) (IsOrphaned-iff entries store r.client_id),
      )
