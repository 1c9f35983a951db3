-- ===== src/Gateway/Reconcile.antt =====
-- The gateways of the file written to the database:
-- apps/web/src/server/gateways/reconcile.ts. The table is a dictionary by `name`, its unique index.
pub mod Laws
pub mod Table
pub mod Settled
pub mod Again
use semantius_idp.Prelude.{
  Bool, Dict, List, Option, String, Text, [], bool_eq, codes, false, find, has_text, if◌then◌else◌,
  is_empty, is_none, keep, map, none, not, put, some, suc, text_eq, true, zero, ℕ, ◌&&◌, ◌++◌, ◌+◌,
  ◌||◌, ◌∷◌, arith,
}

-- The column `source`
pub data Source : Type 0 where
  config manual : Source

abbrev pub is_config : Source → Bool
is_config config = true
is_config manual = false

-- A row of `schema.gateway`, less its name
pub record Stored : Type 0 where
  pub url : Text
  pub require_auth : Option Bool
  pub audience : Option Text
  pub enabled : Option Bool
  pub source : Source
  pub created_at : ℕ
  pub updated_at : ℕ

-- A gateway of the file
pub record Target : Type 0 where
  pub url : Text
  pub require_auth : Bool
  pub audience : Option Text

-- `GatewayReconcileDiff`, without `unchanged`
pub record Diff : Type 0 where
  pub created : List Text
  pub updated : List Text
  pub disabled : List Text
  pub deleted : List Text

abbrev pub empty_diff : Diff
empty_diff = record { created = []; updated = []; disabled = []; deleted = [] }

-- `diff.unchanged`
abbrev pub is_unchanged : Diff → Bool
is_unchanged d =
    is_empty d.created && is_empty d.updated && is_empty d.disabled && is_empty d.deleted

-- `value === true`
abbrev pub is_true : Option Bool → Bool
is_true none = false
is_true (some b) = b

-- `value !== false`
abbrev pub is_not_false : Option Bool → Bool
is_not_false none = true
is_not_false (some b) = b

abbrev pub option_eq : Option Text → Option Text → Bool
option_eq none none = true
option_eq (some a) (some b) = text_eq a b
option_eq none (some b) = false
option_eq (some a) none = false

-- `differs`; the desired `enabled` is `true`.
unfoldable pub differs : Stored → Target → Bool
differs current desired =
    not (text_eq current.url desired.url)
    || not (bool_eq (is_true current.require_auth) desired.require_auth)
    || not (option_eq current.audience desired.audience)
    || not (is_not_false current.enabled)

-- The row inserted
abbrev pub fresh : ℕ → Target → Stored
fresh now t = record {
  url = t.url;
  require_auth = some t.require_auth;
  audience = t.audience;
  enabled = some true;
  source = config;
  created_at = now;
  updated_at = now;
}

-- The row after the update
abbrev pub claimed : ℕ → Target → Stored → Stored
claimed now t row = record {
  url = t.url;
  require_auth = some t.require_auth;
  audience = t.audience;
  enabled = some true;
  source = config;
  created_at = row.created_at;
  updated_at = now;
}

abbrev pub switched_off : ℕ → Stored → Stored
switched_off now row = record {
  url = row.url;
  require_auth = row.require_auth;
  audience = row.audience;
  enabled = some false;
  source = row.source;
  created_at = row.created_at;
  updated_at = now;
}

abbrev change_row : (Text → Stored → Bool) → (Stored → Stored) → Text × Stored → Text × Stored
change_row p f (name, row) = if p name row then (name, f row) else (name, row)

-- `update … set … where`
unfoldable pub update_where : (Text → Stored → Bool) → (Stored → Stored) → Dict Stored → Dict Stored
update_where p f [] = []
update_where p f (e ∷ m) = change_row p f e ∷ update_where p f m

-- `delete … where`
unfoldable pub delete_where : (Text → Stored → Bool) → Dict Stored → Dict Stored
delete_where p m = keep (λ e. not (p e.0 e.1)) m

-- The transaction's table and the diff, while the file's entries are gone through
pub record Pass : Type 0 where
  pub table : Dict Stored
  pub diff : Diff

abbrev add_created : Text → Diff → Diff
add_created name d = record {
  created = d.created ++ name ∷ [];
  updated = d.updated;
  disabled = d.disabled;
  deleted = d.deleted;
}

abbrev add_updated : Text → Diff → Diff
add_updated name d = record {
  created = d.created;
  updated = d.updated ++ name ∷ [];
  disabled = d.disabled;
  deleted = d.deleted;
}

-- One turn of the loop over the entries; `current` is the name's row before the transaction.
unfoldable pub apply_entry : ℕ → Option Stored → Text → Target → Pass → Pass
apply_entry now none name t pass = record {
  table = put name (fresh now t) pass.table;
  diff = add_created name pass.diff;
}
apply_entry now (some current) name t pass =
    if not (is_config current.source) || differs current t
    then record {
      table = update_where (λ n row. text_eq n name) (claimed now t) pass.table;
      diff = add_updated name pass.diff;
    }
    else pass

unfoldable pub apply_entries : ℕ → Dict Stored → Dict Target → Pass → Pass
apply_entries now existing [] pass = pass
apply_entries now existing ((name, t) ∷ entries) pass =
    apply_entries now existing entries (apply_entry now (find name existing) name t pass)

abbrev pub is_orphan : Dict Target → Text × Stored → Bool
is_orphan entries e = is_config e.1.source && is_none (find e.0 entries)

abbrev pub names_of : Dict Stored → List Text
names_of m = map (λ e. e.0) m

abbrev pub in_names : List Text → Text → Stored → Bool
in_names names name row = has_text names name && is_config row.source

-- What is done about the names that the file no longer has
unfoldable pub sweep : ℕ → Bool → Dict Stored → Pass → Pass
sweep now true orphans pass = record {
  table = delete_where (in_names (names_of orphans)) pass.table;
  diff = record {
    created = pass.diff.created;
    updated = pass.diff.updated;
    disabled = pass.diff.disabled;
    deleted = pass.diff.deleted ++ names_of orphans;
  };
}
sweep now false orphans pass =
    let live = names_of (keep (λ e. is_not_false e.1.enabled) orphans) in
    record {
      table = update_where (in_names live) (switched_off now) pass.table;
      diff = record {
        created = pass.diff.created;
        updated = pass.diff.updated;
        disabled = pass.diff.disabled ++ live;
        deleted = pass.diff.deleted;
      };
    }

-- `applyReconciliation`
unfoldable pub apply_reconciliation : ℕ → Bool → Dict Target → Dict Stored → Pass
apply_reconciliation now prune entries existing =
    sweep now prune (keep (is_orphan entries) existing)
      (apply_entries now existing entries (record { table = existing; diff = empty_diff }))
