-- ===== src/Tests/RegistryCases.antt =====
-- The gateways of the file, of the table and in memory.
use semantius_idp.Prelude.{
  IsUnique, Dict, [], codes, false, find, has_text, none, put, refl, some, text_eq, true, ◌∷◌, ◌≡◌,
  inl,
}
use semantius_idp.Net.ClientIp.{never}
use semantius_idp.Gateway.Proxy.{refuse, proxy_gateway_request}
use semantius_idp.Gateway.Reconcile.{
  Stored, Target, Source, config, manual, empty_diff, apply_reconciliation, apply_entries,
  apply_entry, sweep, update_where, differs,
}
use semantius_idp.Gateway.Reconcile.Again.{view_of, agreed, reconcile_refines}
use semantius_idp.Gateway.Reconcile.Settled.{reconcile_idempotent}
use semantius_idp.Gateway.Registry.{
  Registry, gateway_registry, load_done, read_all, reset_gateway_registry,
}
use semantius_idp.Gateway.Registry.Laws.{
  World, Step, Reach, IsExact, IsRecent, begun, Reach-IsRecent,
}
use semantius_idp.Gateway.Registry.Removed.{removed_refused}
use semantius_idp.Tests.GatewayCases.{surroundings, inbound}

abbrev row_of : Source → Stored
row_of source = record {
  url = codes "http://10.0.0.7";
  require_auth = some true;
  audience = none;
  enabled = none;
  source = source;
  created_at = 1;
  updated_at = 1;
}

abbrev table : Dict Stored
table =
    (codes "data", row_of config) ∷ (codes "old", row_of config) ∷ (codes "own", row_of manual) ∷ []

abbrev file : Dict Target
file =
    (
      codes "data",
      record { url = codes "http://10.0.0.9"; require_auth = true; audience = some (codes "api") },
    )
    ∷ (
      codes "more",
      record { url = codes "http://10.0.0.8"; require_auth = false; audience = none },
    )
    ∷ []

table-IsUnique : IsUnique table
unfolding find text_eq
table-IsUnique = (refl, (refl, (refl, tt)))

file-IsUnique : IsUnique file
unfolding find text_eq
file-IsUnique = (refl, (refl, tt))

reconcile_refines_example :
    view_of (find (codes "old") (apply_reconciliation 9 false file table).table)
    ≡ agreed false (find (codes "old") file) (view_of (find (codes "old") table))
reconcile_refines_example =
    reconcile_refines 9 false file table table-IsUnique file-IsUnique (codes "old")

reconciled_diff : (apply_reconciliation 9 false file table).diff ≡ record {
  created = codes "more" ∷ [];
  updated = codes "data" ∷ [];
  disabled = codes "old" ∷ [];
  deleted = [];
}
unfolding apply_reconciliation apply_entries apply_entry sweep update_where differs find text_eq put
    has_text
reconciled_diff = refl

reconcile_idempotent_example :
    apply_reconciliation 99 true file (apply_reconciliation 9 true file table).table
    ≡ record { table = (apply_reconciliation 9 true file table).table; diff = empty_diff }
reconcile_idempotent_example =
    reconcile_idempotent 9 99 true file table table-IsUnique file-IsUnique

removed_refused_example :
    proxy_gateway_request surroundings never 1000
      (find (codes "old") (read_all (apply_reconciliation 9 false file table).table))
      inbound
      (codes "items")
    ≡ refuse 404 (codes "unknown_gateway")
unfolding find text_eq
removed_refused_example =
    removed_refused 9 false file table (codes "old") (row_of config) surroundings never 1000 inbound
      (codes "items") table-IsUnique file-IsUnique refl refl refl

-- A cold registry, the load that the first request begins, and its end
abbrev asked : Registry
asked = record { state = none; in_flight = true }

abbrev cold : World
cold = record {
  table = table;
  registry = reset_gateway_registry asked;
  loads = [];
  since = table ∷ [];
}

abbrev loading : World
loading = record {
  table = table;
  registry = (gateway_registry 5 (reset_gateway_registry asked)).registry;
  loads = begun (gateway_registry 5 (reset_gateway_registry asked)).begins [];
  since = table ∷ [];
}

abbrev read : World
read = record {
  table = table;
  registry = loading.registry;
  loads = some table ∷ [];
  since = table ∷ [];
}

-- The table is written while the load holds the rows of before.
abbrev written : World
written = record {
  table = [];
  registry = loading.registry;
  loads = some table ∷ [];
  since = [] ∷ table ∷ [];
}

abbrev warm : World
warm = record {
  table = [];
  registry = load_done 6 (read_all table) loading.registry;
  loads = [];
  since = [] ∷ table ∷ [];
}

warm-Reach : Reach cold warm
unfolding gateway_registry
warm-Reach =
    Reach.next
      (Reach.next
        (Reach.next (Reach.next Reach.here (Step.ask cold 5)) (Step.query loading [] [] refl))
        (Step.write read []))
      (Step.done written table [] [] 6 refl)

cold-IsRecent : IsRecent cold
cold-IsRecent = record { current = inl refl; state = λ held e. cc; read = λ rows i. absurd i }

Reach-IsRecent_example : IsRecent warm × (warm.since ≡ warm.table ∷ [] → IsExact warm)
Reach-IsRecent_example = Reach-IsRecent cold warm cold-IsRecent warm-Reach
