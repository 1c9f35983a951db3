-- ===== src/Clients/Reconcile.antt =====
-- The clients of the file written to the database: apps/web/src/server/oidc/reconcile.ts. The table
-- of clients is a dictionary by `clientId`, its unique index, and the ids of the file are unique, as
-- the checks of the configuration demand.
pub mod Table
pub mod Written
pub mod Client
pub mod Public
pub mod Settled
pub mod Tokens
pub mod Links
pub mod Updated
pub mod Again
use semantius_idp.Prelude.{
  Bool, Dict, List, Option, String, Text, [], any, bool_eq, change, codes, false, filled, find,
  has_text, if◌then◌else◌, is_empty, keep, map, nat_eq, none, not, put, remove, some, suc, text_eq,
  true, zero, ℕ, ◌&&◌, ◌++◌, ◌+◌, ◌∷◌, arith,
}
use semantius_idp.Clients.{
  Metadata, ClientEntry, ClientRow, Targets, to_client_row, resource_links_for,
}
use semantius_idp.Clients.Rows.{
  Column, TableRow, Store, Diff, empty_diff, is_unchanged, Pass, texts_eq, of_text, of_texts,
  of_json, owned_columns, columns_of, add_created, add_updated, add_disabled, add_deleted,
  add_relinked, with_clients, with_links, null, text, flag, texts, json, time,
}
use semantius_idp.Oauth.{AccessToken, RefreshToken, Consent, Tables}
use semantius_idp.Oauth.Revoke.{revoked_at}

abbrev pub of_client : Text → RefreshToken → Bool
of_client id t = text_eq t.client_id id

-- `revokeTokensFor`; a refresh token that was revoked is revoked again.
unfoldable pub revoke_tokens_for : ℕ → Text → Tables → Tables
revoke_tokens_for now id tables = record {
  access = keep (λ a. not (text_eq a.client_id id)) tables.access;
  refresh = map (λ t. if of_client id t then revoked_at now t else t) tables.refresh;
  consents = keep (λ c. not (text_eq c.client_id id)) tables.consents;
  sessions = tables.sessions;
}

-- `delete … where clientId = …`, with the rows that refer to the client
unfoldable pub delete_client : Text → Store → Store
delete_client id s = record {
  clients = remove id s.clients;
  resources = s.resources;
  links = keep (λ l. not (text_eq l.0 id)) s.links;
  tables = record {
    access = keep (λ a. not (text_eq a.client_id id)) s.tables.access;
    refresh = keep (λ t. not (of_client id t)) s.tables.refresh;
    consents = keep (λ c. not (text_eq c.client_id id)) s.tables.consents;
    sessions = s.tables.sessions;
  };
}

-- `row.userId === null`
abbrev pub is_null : Column → Bool
is_null null = true
is_null _ = false

-- `orphan.disabled === true`
abbrev pub is_set : Column → Bool
is_set (flag b) = b
is_set _ = false

-- `current` of `syncResourceLinks`: the resources that the client is linked to
abbrev pub linked_to : Text → List (Text × Text) → List Text
linked_to id [] = []
linked_to id (l ∷ ls) = if text_eq l.0 id then l.1 ∷ linked_to id ls else linked_to id ls

pub record Synced : Type 0 where
  pub links : List (Text × Text)
  pub changed : Bool

-- `syncResourceLinks`
unfoldable pub sync_resource_links : Text → List Text → List Text → List (Text × Text) → Synced
sync_resource_links id wanted known links =
    let writable = keep (has_text known) wanted in
    let current = linked_to id links in
    let to_add = keep (λ r. not (has_text current r)) writable in
    let to_remove = keep (λ r. not (has_text writable r)) current in
    if is_empty to_add && is_empty to_remove
    then record { links = links; changed = false }
    else record {
      links =
          keep (λ l. not (text_eq l.0 id && has_text to_remove l.1)) links
          ++ map (λ r. (id, r)) to_add;
      changed = true;
    }

-- The loop over the entries' links
unfoldable pub sync_entries : Targets → List ClientEntry → Pass → Pass
sync_entries config [] pass = pass
sync_entries config (entry ∷ entries) pass =
    let synced =
      sync_resource_links entry.client_id (resource_links_for entry config) pass.store.resources
        pass.store.links in
    sync_entries config entries (record {
      store = with_links synced.links pass.store;
      diff = if synced.changed then add_relinked entry.client_id pass.diff else pass.diff;
    })

abbrev pub is_wanted : List ClientEntry → Text → Bool
is_wanted entries id = has_text (map (λ e. e.client_id) entries) id

abbrev pub is_orphan : List ClientEntry → Text × TableRow → Bool
is_orphan entries e = not (is_wanted entries e.0) && is_null (e.1 (codes "userId"))

-- What is not in the repository: `JSON.stringify`, what a column of type `jsonb` gives back of an
-- object, the hash of a secret, the column defaults and `randomUUID`
pub record Environment : Type 0 where
  pub stringify : Metadata → Text
  pub normal : Metadata → Metadata
  pub hash : Text → Text
  pub blank : TableRow
  pub uuid : Text → Text

module _ (env : Environment) where
  -- `equal`
  unfoldable pub equal : Column → Column → Bool
  equal null null = true
  equal (text a) (text b) = text_eq a b
  equal (flag a) (flag b) = bool_eq a b
  equal (texts a) (texts b) = texts_eq a b
  equal (json a) (json b) = text_eq (env.stringify a) (env.stringify b)
  equal (time a) (time b) = nat_eq a b
  equal _ _ = false

  -- `differs`
  unfoldable pub differs : TableRow → ClientRow → Bool
  differs current desired = any (λ c. not (equal (current c.0) c.1)) (owned_columns desired)

  -- What a column holds after a write
  abbrev pub stored : Column → Column
  stored (json m) = json (env.normal m)
  stored c = c

  -- The row after the columns are written
  unfoldable pub write : Dict Column → TableRow → TableRow
  write columns row name = elim (find name columns) [ none ↦ row name | some c ↦ stored c ]

  abbrev pub desired_row : ClientEntry → ClientRow
  desired_row entry =
      to_client_row entry
        (elim (filled entry.client_secret) [ none ↦ none | some s ↦ some (env.hash s) ]) none

  abbrev pub inserted : ℕ → ClientEntry → TableRow
  inserted now entry =
      write
        ((codes "id", text (env.uuid entry.client_id))
          ∷ (codes "createdAt", time now)
          ∷ (codes "updatedAt", time now)
          ∷ columns_of (desired_row entry))
        env.blank

  abbrev pub rewritten : ℕ → ClientEntry → TableRow → TableRow
  rewritten now entry = write ((codes "updatedAt", time now) ∷ columns_of (desired_row entry))

  abbrev pub switched_off : ℕ → TableRow → TableRow
  switched_off now = write ((codes "disabled", flag true) ∷ (codes "updatedAt", time now) ∷ [])

  -- One turn of the loop over the entries; `current` is the client's row before the transaction.
  unfoldable pub apply_entry : ℕ → Option TableRow → ClientEntry → Pass → Pass
  apply_entry now none entry pass = record {
    store = with_clients (put entry.client_id (inserted now entry) pass.store.clients) pass.store;
    diff = add_created entry.client_id pass.diff;
  }
  apply_entry now (some current) entry pass =
      if differs current (desired_row entry)
      then record {
        store =
            with_clients (change entry.client_id (rewritten now entry) pass.store.clients)
              pass.store;
        diff = add_updated entry.client_id pass.diff;
      }
      else pass

  unfoldable pub apply_entries : ℕ → Dict TableRow → List ClientEntry → Pass → Pass
  apply_entries now existing [] pass = pass
  apply_entries now existing (entry ∷ entries) pass =
      apply_entries now existing entries
        (apply_entry now (find entry.client_id existing) entry pass)

  -- One turn of the loop over the clients that the file no longer has
  unfoldable pub sweep_orphan : ℕ → Bool → Text × TableRow → Pass → Pass
  sweep_orphan now prune (id, row) pass =
      let s = pass.store in
      let cut : Store = record {
        clients = s.clients;
        resources = s.resources;
        links = s.links;
        tables = revoke_tokens_for now id s.tables;
      } in
      if prune
      then record { store = delete_client id cut; diff = add_deleted id pass.diff }
      else if not (is_set (row (codes "disabled")))
      then record {
        store = with_clients (change id (switched_off now) s.clients) cut;
        diff = add_disabled id pass.diff;
      }
      else record { store = cut; diff = pass.diff }

  unfoldable pub sweep : ℕ → Bool → Dict TableRow → Pass → Pass
  sweep now prune [] pass = pass
  sweep now prune (orphan ∷ orphans) pass =
      sweep now prune orphans (sweep_orphan now prune orphan pass)

  -- `applyReconciliation`
  unfoldable pub apply_reconciliation : ℕ → Bool → Targets → List ClientEntry → Store → Pass
  apply_reconciliation now prune config entries store = sync_entries config entries (
      sweep now prune (keep (is_orphan entries) store.clients)
        (apply_entries now store.clients entries (record { store = store; diff = empty_diff })))
