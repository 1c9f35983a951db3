-- ===== src/Gateway/Registry/Removed.antt =====
-- A gateway taken out of the file answers no more: apps/web/src/server/gateways/reconcile.ts,
-- registry.ts and proxy.ts together.
use semantius_idp.Prelude.{
  IsUnique, text_eq-cases, ℕ, Text, codes, text_eq_refl, subst, Bool, true, false, Option, none,
  some, [], ◌∷◌, Dict, find, ◌≡◌, ◌⊎◌, inl, inr, refl, ap, sym, ◌∙◌, arith, Bool-cases,
}
use semantius_idp.Net.ClientIp.{TrustProxy}
use semantius_idp.Gateway.Proxy.{GatewayRow, Surroundings, Inbound, refuse, proxy_gateway_request}
use semantius_idp.Gateway.Proxy.Laws.{none_refused, disabled_refused}
use semantius_idp.Gateway.Reconcile.{
  Stored, Target, is_config, is_not_false, apply_reconciliation, switched_off,
}
use semantius_idp.Gateway.Reconcile.Table.{reconciled_row, orphan_row}
use semantius_idp.Gateway.Registry.{read_all, to_gateway_row}

abbrev pub gateway_of : Text → Option Stored → Option GatewayRow
gateway_of name none = none
gateway_of name (some row) = some (to_gateway_row name row)

pub find-read_all :
    (k : Text) (rows : Dict Stored) → find k (read_all rows) ≡ gateway_of k (find k rows)
unfolding read_all find
find-read_all k [] = refl
find-read_all k ((j, row) ∷ rows) = elim (text_eq-cases j k) [
  | inl e ↦
      subst (λ i. find k (read_all ((i, row) ∷ rows)) ≡ gateway_of k (find k ((i, row) ∷ rows)))
        (sym e) (ground (arith, text_eq_refl k))
  | inr n ↦ ground (arith, n, find-read_all k rows)
]

-- A row of the file's that the file no longer has is gone or switched off.
orphan_off :
    (now : ℕ) (prune : Bool) (row : Stored)
    → is_config row.source ≡ true
    → (orphan_row now prune row ≡ none)
      ⊎ ((left : Stored) × (orphan_row now prune row ≡ some left)
          × (is_not_false left.enabled ≡ false))
orphan_off now prune row c = elim (Bool-cases prune) [
  | inl p ↦ inl (ground (arith, c, p))
  | inr p ↦ elim (Bool-cases (is_not_false row.enabled)) [
    | inl on ↦ inr (switched_off now row, ground (arith, c, p, on), refl)
    | inr off ↦ inr (row, ground (arith, c, p, off), off)
  ]
]

-- With names that are unique in the file and in the table: once a reconciliation has run and the
-- registry has read the table, a request for a gateway that was the file's, and that the file no longer
-- has, is refused as unknown, whether rows are pruned or switched off.
pub removed_refused :
    (now : ℕ) (prune : Bool) (entries : Dict Target) (existing : Dict Stored) (k : Text)
    (row : Stored) (s : Surroundings) (trust : TrustProxy) (limit : ℕ) (inbound : Inbound)
    (path : Text)
    → IsUnique existing
    → IsUnique entries
    → find k entries ≡ none
    → find k existing ≡ some row
    → is_config row.source ≡ true
    → proxy_gateway_request s trust limit
        (find k (read_all (apply_reconciliation now prune entries existing).table))
        inbound
        path
      ≡ refuse 404 (codes "unknown_gateway")
removed_refused now prune entries existing k row s trust limit inbound path u ue n e c =
    let found : find k (apply_reconciliation now prune entries existing).table
        ≡ orphan_row now prune row =
      reconciled_row now entries existing u prune k ue ∙ rw (n, e) refl in
    ap (λ g. proxy_gateway_request s trust limit g inbound path)
      (find-read_all k (apply_reconciliation now prune entries existing).table
        ∙ ap (gateway_of k) found)
    ∙ elim (orphan_off now prune row c) [
      | inl gone ↦ rw (gone) (none_refused s trust limit inbound path)
      | inr (left, same, off) ↦
          rw (same) (disabled_refused s trust limit inbound path (to_gateway_row k left) off)
    ]
