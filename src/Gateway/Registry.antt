-- ===== src/Gateway/Registry.antt =====
-- The gateways in memory: apps/web/src/server/gateways/registry.ts. A load is the query of
-- `readAll`; what a request does at once and what happens when a load ends are separate operations.
pub mod Laws
pub mod Removed
use semantius_idp.Prelude.{
  ℕ, ◌+◌, Text, leb, map, Bool, true, false, Option, none, some, if◌then◌else◌, Dict,
}
use semantius_idp.Gateway.Proxy.{GatewayRow}
use semantius_idp.Gateway.Reconcile.{Stored, is_true, is_not_false}

-- `REGISTRY_TTL_MS`
abbrev pub registry_ttl_ms : ℕ
registry_ttl_ms = 60000

-- `RegistryState`
pub record RegistryState : Type 0 where
  pub entries : Dict GatewayRow
  pub loaded_at : ℕ

-- `state`, and whether `inFlight` is set
pub record Registry : Type 0 where
  pub state : Option RegistryState
  pub in_flight : Bool

-- What a request is given: a map, or the load that is in flight.
pub data Answer : Type 0 where
  serve : Dict GatewayRow → Answer
  await : Answer

-- The registry, the answer, and whether a load begins
pub record Asked : Type 0 where
  pub registry : Registry
  pub answer : Answer
  pub begins : Bool

-- `load`, for a request that is given `answer`
abbrev load : Registry → Answer → Asked
load r answer = record {
  registry = record { state = r.state; in_flight = true };
  answer = answer;
  begins = if r.in_flight then false else true;
}

-- `gatewayRegistry`
unfoldable pub gateway_registry : ℕ → Registry → Asked
gateway_registry now r = elim (r.state) [
  | none ↦ load r await
  | some current ↦
      if leb (current.loaded_at + registry_ttl_ms) now
      then load r (serve current.entries)
      else record { registry = r; answer = serve current.entries; begins = false }
]

-- The load's `then` and `finally`
unfoldable pub load_done : ℕ → Dict GatewayRow → Registry → Registry
load_done now entries r = record {
  state = some (record { entries = entries; loaded_at = now });
  in_flight = false;
}

-- The load's `catch` and `finally`
unfoldable pub load_failed : Registry → Registry
load_failed r = record { state = r.state; in_flight = false }

-- `resetGatewayRegistry`
abbrev pub reset_gateway_registry : Registry → Registry
reset_gateway_registry r = record { state = none; in_flight = false }

-- `toGatewayRow`
abbrev pub to_gateway_row : Text → Stored → GatewayRow
to_gateway_row name row = record {
  name = name;
  url = row.url;
  require_auth = is_true row.require_auth;
  audience = row.audience;
  enabled = is_not_false row.enabled;
}

-- `readAll`
unfoldable pub read_all : Dict Stored → Dict GatewayRow
read_all rows = map (λ e. (e.0, to_gateway_row e.0 e.1)) rows
