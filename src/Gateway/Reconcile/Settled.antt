-- ===== src/Gateway/Reconcile/Settled.antt =====
-- A second reconciliation with the same file: apps/web/src/server/gateways/reconcile.ts.
use semantius_idp.Prelude.{
  Bool, Bool-cases, Dict, In, In-find, In-keep_iff, IsUnique, List, Option, Text, [], ap, bool_eq,
  false, find, has_text, inl, inr, keep, none, not, refl, some, sym, text_eq, text_eq-cases,
  text_eq_refl, true, ℕ, ◌||◌, ◌∙◌, ◌∷◌, ◌≡◌, arith,
}
use semantius_idp.Gateway.Reconcile.{
  is_config, Stored, Target, empty_diff, is_true, is_not_false, option_eq, differs, fresh, claimed,
  switched_off, update_where, delete_where, Pass, apply_entry, apply_entries, is_orphan, in_names,
  sweep, apply_reconciliation,
}
use semantius_idp.Gateway.Reconcile.Laws.{entry_row}
use semantius_idp.Gateway.Reconcile.Table.{swept_row, reconciled_row, reconciled-IsUnique}

module _ {A : Type 0} (p : A → Bool) where
  keep_none : (xs : List A) → ((a : A) → In a xs → p a ≡ false) → keep p xs ≡ []
  keep_none [] h = refl
  keep_none (x ∷ xs) h = ground (arith, h x (inl refl), keep_none xs (λ a i. h a (inr i)))

  keep_all : (xs : List A) → ((a : A) → p a ≡ true) → keep p xs ≡ xs
  keep_all [] h = refl
  keep_all (x ∷ xs) h = ground (arith, h x, keep_all xs h)

update_where-no_names : (f : Stored → Stored) (m : Dict Stored) → update_where (in_names []) f m ≡ m
unfolding update_where has_text
update_where-no_names f [] = refl
update_where-no_names f ((k, row) ∷ m) = ap (λ r. (k, row) ∷ r) (update_where-no_names f m)

-- The row is the file's already.
abbrev pub IsSettled : Target → Option Stored → Type 0
IsSettled t current =
    (row : Stored) × (current ≡ some row) × (is_config row.source ≡ true) × (differs row t ≡ false)

bool_eq_refl : (b : Bool) → bool_eq b b ≡ true
bool_eq_refl true = refl
bool_eq_refl false = refl

option_eq_refl : (a : Option Text) → option_eq a a ≡ true
option_eq_refl none = refl
option_eq_refl (some t) = text_eq_refl t

differs_same :
    (t : Target) (row : Stored)
    → row.url ≡ t.url
    → is_true row.require_auth ≡ t.require_auth
    → row.audience ≡ t.audience
    → is_not_false row.enabled ≡ true
    → differs row t ≡ false
unfolding differs
differs_same t row a b c d = ground (
  arith,
  ap (text_eq row.url) a,
  text_eq_refl row.url,
  ap (bool_eq (is_true row.require_auth)) b,
  bool_eq_refl (is_true row.require_auth),
  ap (option_eq row.audience) c,
  option_eq_refl row.audience,
  d,
)

entry_row-settled :
    (now : ℕ) (t : Target) (old : Option Stored)
    → (is_config (entry_row now t old).source ≡ true) × (differs (entry_row now t old) t ≡ false)
entry_row-settled now t none = (refl, differs_same t (fresh now t) refl refl refl refl)
entry_row-settled now t (some row) =
    elim (Bool-cases (not (is_config row.source) || differs row t)) [
      | inl h ↦ rw (h) (refl, differs_same t (claimed now t row) refl refl refl refl)
      | inr h ↦ rw (h) (ground (arith, h), ground (arith, h))
    ]

orphan_row-settled :
    (now : ℕ) (prune : Bool) (old : Option Stored) (row : Stored)
    → swept_row now prune none old ≡ some row
    → is_config row.source ≡ true
    → (prune ≡ false) × (is_not_false row.enabled ≡ false)
orphan_row-settled now prune none row e c = cc
orphan_row-settled now prune (some old) row e c = (ground (arith, e, c), ground (arith, e, c))

module _ (now : ℕ) (existing : Dict Stored) where
  apply_entries-settled :
      (entries : Dict Target) (pass : Pass)
      → IsUnique entries
      → ((j : Text) (t : Target) → find j entries ≡ some t → IsSettled t (find j existing))
      → apply_entries now existing entries pass ≡ pass
  unfolding apply_entries apply_entry find
  apply_entries-settled [] pass u h = refl
  apply_entries-settled ((j, t) ∷ entries) pass (u, us) h =
      let (row, e, c, d) = h j t (ground (arith, text_eq_refl j)) in
      let rest : (i : Text) (v : Target) → find i entries ≡ some v → IsSettled v (find i existing) =
        λ i v f. elim (text_eq-cases j i) [
          | inl same ↦ absurd (cc (f, u, ap (λ n. find n entries) same))
          | inr other ↦ h i v (rw other f)
        ] in
      rw (e, apply_entry, c, d) (apply_entries-settled entries pass us rest)

-- No row is left of those that the file no longer has, or none that is on and none to prune.
abbrev AreSwept : Bool → Dict Target → Dict Stored → Type 0
AreSwept prune entries existing =
    (k : Text) (row : Stored)
    → find k entries ≡ none
    → find k existing ≡ some row
    → is_config row.source ≡ true
    → (prune ≡ false) × (is_not_false row.enabled ≡ false)

abbrev start : Dict Stored → Pass
start table = record { table = table; diff = empty_diff }

module _ (now : ℕ) (entries : Dict Target) (existing : Dict Stored) (u : IsUnique existing) where
  orphans_settled :
      (prune : Bool) (k : Text) (row : Stored)
      → AreSwept prune entries existing
      → In (k, row) (keep (is_orphan entries) existing)
      → (prune ≡ false) × (is_not_false row.enabled ≡ false)
  orphans_settled prune k row h i =
      let (j, o) = (In-keep_iff (is_orphan entries) (k, row) existing).0 i in
      h k row (ground (arith, o)) (In-find k row existing u j) (ground (arith, o))

  sweep-settled :
      (prune : Bool)
      → AreSwept prune entries existing
      → sweep now prune (keep (is_orphan entries) existing) (start existing) ≡ start existing
  unfolding sweep delete_where has_text
  sweep-settled false h =
      let live_none =
        keep_none (λ e. is_not_false e.1.enabled) (keep (is_orphan entries) existing)
          (λ (k, row) i. (orphans_settled false k row h i).1) in
      rw (live_none, update_where-no_names (switched_off now) existing) refl
  sweep-settled true h =
      let gone : keep (is_orphan entries) existing ≡ [] =
        no_orphan (keep (is_orphan entries) existing)
          (λ k row i. cc ((orphans_settled true k row h i).0)) in
      rw (gone, keep_all (λ e. not (in_names [] e.0 e.1)) existing (λ e. refl)) refl
    where
      no_orphan : (m : Dict Stored) → ((k : Text) (row : Stored) → ¬ In (k, row) m) → m ≡ []
      no_orphan [] n = refl
      no_orphan ((k, row) ∷ m) n = absurd (n k row (inl refl))

  settled_lem :
      (prune : Bool)
      → IsUnique entries
      → ((j : Text) (t : Target) → find j entries ≡ some t → IsSettled t (find j existing))
      → AreSwept prune entries existing
      → apply_reconciliation now prune entries existing ≡ start existing
  unfolding apply_reconciliation
  settled_lem prune ue h swept =
      rw (apply_entries-settled now existing entries (start existing) ue h)
        (sweep-settled prune swept)

-- With names that are unique in the file and in the table, a second reconciliation with the same file
-- writes no row and reports no change, however much later it runs.
pub reconcile_idempotent :
    (now later : ℕ) (prune : Bool) (entries : Dict Target) (existing : Dict Stored)
    → IsUnique existing
    → IsUnique entries
    → apply_reconciliation later prune entries
        (apply_reconciliation now prune entries existing).table
      ≡ record {
        table = (apply_reconciliation now prune entries existing).table;
        diff = empty_diff;
      }
reconcile_idempotent now later prune entries existing u ue =
    let row = λ (k : Text). reconciled_row now entries existing u prune k ue in
    settled_lem later entries (apply_reconciliation now prune entries existing).table
      (reconciled-IsUnique now entries existing u prune) prune ue
      (λ j t e.
        let (c, d) = entry_row-settled now t (find j existing) in
        (entry_row now t (find j existing), row j ∙ rw (e) refl, c, d))
      (λ k r n e c.
        orphan_row-settled now prune (find k existing) r (rw (n) at (sym (row k) ∙ e)) c)
