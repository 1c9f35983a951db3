-- ===== src/Gateway/Reconcile/Again.antt =====
-- The gateways that a reconciliation leaves, as an administrator sees them, and a second run of it:
-- apps/web/src/server/gateways/reconcile.ts.
use semantius_idp.Prelude.{
  Bool, Bool-cases, Dict, IsUnique, Option, Text, ap, bool_eq, false, find, if◌then◌else◌, inl, inr,
  none, not, refl, some, sym, text_eq_iff, true, ℕ, ◌||◌, ◌∙◌, ◌≡◌, arith,
}
use semantius_idp.Gateway.Reconcile.{
  Source, config, manual, is_config, Stored, Target, is_true, is_not_false, option_eq, differs,
  apply_reconciliation,
}
use semantius_idp.Gateway.Reconcile.Laws.{entry_row}
use semantius_idp.Gateway.Reconcile.Table.{row_after, orphan_row, swept_row, reconciled_row}

-- A gateway without its times, its columns read as the program reads them
pub record Gateway : Type 0 where
  pub url : Text
  pub require_auth : Bool
  pub audience : Option Text
  pub enabled : Bool
  pub source : Source

abbrev pub view : Stored → Gateway
view row = record {
  url = row.url;
  require_auth = is_true row.require_auth;
  audience = row.audience;
  enabled = is_not_false row.enabled;
  source = row.source;
}

abbrev pub view_of : Option Stored → Option Gateway
view_of none = none
view_of (some row) = some (view row)

abbrev disabled_view : Gateway → Gateway
disabled_view g = record {
  url = g.url;
  require_auth = g.require_auth;
  audience = g.audience;
  enabled = false;
  source = g.source;
}

abbrev pub file_view : Target → Gateway
file_view t = record {
  url = t.url;
  require_auth = t.require_auth;
  audience = t.audience;
  enabled = true;
  source = config;
}

-- What the file asks for: its own gateways; and of its former ones none, or each switched off.
abbrev pub agreed : Bool → Option Target → Option Gateway → Option Gateway
agreed prune (some t) old = some (file_view t)
agreed prune none none = none
agreed prune none (some g) =
    if not (is_config g.source) then some g else if prune then none else some (disabled_view g)

bool_eq_lem : (a b : Bool) → bool_eq a b ≡ true → a ≡ b
bool_eq_lem true b h = sym h
bool_eq_lem false true h = cc
bool_eq_lem false false h = refl

option_eq_lem : (a b : Option Text) → option_eq a b ≡ true → a ≡ b
option_eq_lem none none h = refl
option_eq_lem (some a) (some b) h = ap some ((text_eq_iff a b).0 h)
option_eq_lem none (some b) h = cc
option_eq_lem (some a) none h = cc

is_config_lem : (source : Source) → is_config source ≡ true → source ≡ config
is_config_lem config h = refl
is_config_lem manual h = cc

-- A row that is not written again is the file's.
same_view :
    (row : Stored) (t : Target)
    → is_config row.source ≡ true
    → differs row t ≡ false
    → view row ≡ file_view t
unfolding differs
same_view row t c d = cc (
  (text_eq_iff row.url t.url).0 (ground (arith, d)),
  bool_eq_lem (is_true row.require_auth) t.require_auth (ground (arith, d)),
  option_eq_lem row.audience t.audience (ground (arith, d)),
  enabled,
  is_config_lem row.source c,
)
  where
    enabled : is_not_false row.enabled ≡ true
    enabled = ground (arith, d)

view-entry_row :
    (now : ℕ) (t : Target) (old : Option Stored) → view (entry_row now t old) ≡ file_view t
view-entry_row now t none = refl
view-entry_row now t (some row) = elim (Bool-cases (not (is_config row.source) || differs row t)) [
  | inl h ↦ rw (h) refl
  | inr h ↦ rw (h) (same_view row t (ground (arith, h)) (ground (arith, h)))
]

view-orphan_row :
    (now : ℕ) (prune : Bool) (row : Stored)
    → view_of (orphan_row now prune row) ≡ agreed prune none (some (view row))
view-orphan_row now prune row = ground arith

module _ (now : ℕ) (prune : Bool) (entries : Dict Target) (existing : Dict Stored)
    (u : IsUnique existing) (ue : IsUnique entries) where
  -- With names that are unique in the file and in the table, the gateways after a reconciliation are
  -- those that the file asks for, under every name: each entry of the file as it stands there, switched
  -- on and owned by the file; a row of the file's that is no longer in it gone when pruning, switched
  -- off otherwise; a manual row as it was.
  pub reconcile_refines :
      (k : Text)
      → view_of (find k (apply_reconciliation now prune entries existing).table)
        ≡ agreed prune (find k entries) (view_of (find k existing))
  reconcile_refines k =
      ap view_of (reconciled_row now entries existing u prune k ue)
      ∙ seen (find k entries) (find k existing)
    where
      seen :
          (t : Option Target) (old : Option Stored)
          → view_of (swept_row now prune t (row_after now t old old)) ≡ agreed prune t (view_of old)
      seen (some t) old = ap some (view-entry_row now t old)
      seen none none = refl
      seen none (some row) = view-orphan_row now prune row
