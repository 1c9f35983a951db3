-- ===== src/Gateway/Registry/Laws.antt =====
-- How recent the gateways in memory are: apps/web/src/server/gateways/registry.ts. The database is
-- written and the registry is reset in two steps, anything may happen between them, and another
-- process may write the table without any reset.
use semantius_idp.Prelude.{
  ℕ, In, In-append_iff, Bool, true, false, Option, none, some, some_inj, List, [], ◌∷◌, ◌++◌, Dict,
  ◌≡◌, ◌⊎◌, inl, inr, refl, ap, sym, subst, ◌∙◌, arith, Option-cases,
}
use semantius_idp.Gateway.Reconcile.{Stored}
use semantius_idp.Gateway.Registry.{
  Registry, RegistryState, gateway_registry, load_done, load_failed, reset_gateway_registry,
  read_all,
}

-- The loads that have not ended, each with the rows that its query has read, if it has
abbrev pub Loads : Type 0
Loads = List (Option (Dict Stored))

-- The table, the registry and the loads. `since` is no state of the program but its history: the
-- tables that the database has had since the last reset with no load under way, the newest first.
pub record World : Type 0 where
  pub table : Dict Stored
  pub registry : Registry
  pub loads : Loads
  pub since : List (Dict Stored)

abbrev pub begun : Bool → Loads → Loads
begun true loads = none ∷ loads
begun false loads = loads

-- A reset that no load outlives starts the history anew.
abbrev pub restarted : Loads → Dict Stored → List (Dict Stored) → List (Dict Stored)
restarted [] table since = table ∷ []
restarted (l ∷ loads) table since = since

-- One step: a request asks, the query of a load reads, a load ends or fails, the table is written,
-- by whomever, and the registry is reset.
pub data Step : World → World → Type 0 where
  ask :
      (w : World) (now : ℕ)
      → Step w (record {
        table = w.table;
        registry = (gateway_registry now w.registry).registry;
        loads = begun (gateway_registry now w.registry).begins w.loads;
        since = w.since;
      })
  query :
      (w : World) (before after : Loads)
      → w.loads ≡ before ++ none ∷ after
      → Step w (record {
        table = w.table;
        registry = w.registry;
        loads = before ++ some w.table ∷ after;
        since = w.since;
      })
  done :
      (w : World) (rows : Dict Stored) (before after : Loads) (now : ℕ)
      → w.loads ≡ before ++ some rows ∷ after
      → Step w (record {
        table = w.table;
        registry = load_done now (read_all rows) w.registry;
        loads = before ++ after;
        since = w.since;
      })
  fail :
      (w : World) (l : Option (Dict Stored)) (before after : Loads)
      → w.loads ≡ before ++ l ∷ after
      → Step w (record {
        table = w.table;
        registry = load_failed w.registry;
        loads = before ++ after;
        since = w.since;
      })
  write :
      (w : World) (table : Dict Stored)
      → Step w (record {
        table = table;
        registry = w.registry;
        loads = w.loads;
        since = table ∷ w.since;
      })
  reset :
      (w : World)
      → Step w (record {
        table = w.table;
        registry = reset_gateway_registry w.registry;
        loads = w.loads;
        since = restarted w.loads w.table w.since;
      })

pub data Reach (s : World) : World → Type 0 where
  here : Reach s s
  next : {t u : World} → Reach s t → Step t u → Reach s u

-- The map in memory, if there is one, and the rows of the loads are tables of the history.
pub record IsRecent (w : World) : Type 0 where
  pub current : In w.table w.since
  pub state :
      (held : RegistryState)
      → w.registry.state ≡ some held
      → (rows : Dict Stored) × In rows w.since × (held.entries ≡ read_all rows)
  pub read : (rows : Dict Stored) → In (some rows) w.loads → In rows w.since

-- The map in memory, if there is one, is what the table has.
abbrev pub IsExact : World → Type 0
IsExact w = (held : RegistryState) → w.registry.state ≡ some held → held.entries ≡ read_all w.table

asked_state : (now : ℕ) (r : Registry) → (gateway_registry now r).registry.state ≡ r.state
unfolding gateway_registry
asked_state now r = elim (Option-cases r.state) [
  | inl e ↦ rw (e) (ground (arith, e))
  | inr (s, e) ↦ rw (e) (ground (arith, e))
]

In-begun :
    (b : Bool) (loads : Loads) (rows : Dict Stored)
    → In (some rows) (begun b loads)
    → In (some rows) loads
In-begun true loads rows (inl e) = cc
In-begun true loads rows (inr i) = i
In-begun false loads rows i = i

-- What is among the loads but one is among them all.
In-without :
    (l x : Option (Dict Stored)) (loads before after : Loads)
    → loads ≡ before ++ l ∷ after
    → In x (before ++ after)
    → In x loads
In-without l x loads before after e i = subst (In x) (sym e) (
    (In-append_iff x before (l ∷ after)).1
      (elim ((In-append_iff x before after).0 i) [ inl a ↦ inl a | inr b ↦ inr (inr b) ]))

In-read :
    (rows table : Dict Stored) (loads before after : Loads)
    → loads ≡ before ++ none ∷ after
    → In (some rows) (before ++ some table ∷ after)
    → (table ≡ rows) ⊎ In (some rows) loads
In-read rows table loads before after e i =
    elim ((In-append_iff (some rows) before (some table ∷ after)).0 i) [
      | inl a ↦ inr (subst (In (some rows)) (sym e) ((In-append_iff _ before _).1 (inl a)))
      | inr (inl q) ↦ inl (some_inj q)
      | inr (inr b) ↦
          inr (subst (In (some rows)) (sym e) ((In-append_iff _ before _).1 (inr (inr b))))
    ]

read-restarted :
    (loads : Loads) (table rows : Dict Stored) (since : List (Dict Stored))
    → (In (some rows) loads → In rows since)
    → In (some rows) loads
    → In rows (restarted loads table since)
read-restarted [] table rows since h i = absurd i
read-restarted (l ∷ loads) table rows since h i = h i

current-restarted :
    (loads : Loads) (table : Dict Stored) (since : List (Dict Stored))
    → In table since
    → In table (restarted loads table since)
current-restarted [] table since i = inl refl
current-restarted (l ∷ loads) table since i = i

step-IsRecent : (w v : World) → Step w v → IsRecent w → IsRecent v
unfolding load_done load_failed
step-IsRecent w v (ask _ now) x = record {
  current = x.current;
  state = λ held e. x.state held (sym (asked_state now w.registry) ∙ e);
  read = λ rows i. x.read rows (In-begun (gateway_registry now w.registry).begins w.loads rows i);
}
step-IsRecent w v (query _ before after e) x = record {
  current = x.current;
  state = x.state;
  read = λ rows i. elim (In-read rows w.table w.loads before after e i) [
    | inl q ↦ subst (λ t. In t w.since) q x.current
    | inr j ↦ x.read rows j
  ];
}
step-IsRecent w v (done _ rows before after now e) x = record {
  current = x.current;
  state = λ held q. (
    rows,
    x.read rows (subst (In (some rows)) (sym e) ((In-append_iff _ before _).1 (inr (inl refl)))),
    ap (λ s. s.entries) (sym (some_inj q)),
  );
  read = λ r i. x.read r (In-without (some rows) (some r) w.loads before after e i);
}
step-IsRecent w v (fail _ l before after e) x = record {
  current = x.current;
  state = x.state;
  read = λ r i. x.read r (In-without l (some r) w.loads before after e i);
}
step-IsRecent w v (write _ table) x = record {
  current = inl refl;
  state = λ held e. let (rows, i, q) = x.state held e in (rows, inr i, q);
  read = λ rows i. inr (x.read rows i);
}
step-IsRecent w v (reset _) x = record {
  current = current-restarted w.loads w.table w.since x.current;
  state = λ held e. cc;
  read = λ rows i. read-restarted w.loads w.table rows w.since (x.read rows) i;
}

IsRecent-IsExact : (w : World) → IsRecent w → w.since ≡ w.table ∷ [] → IsExact w
IsRecent-IsExact w x e held q =
    let (rows, i, same) = x.state held q in
    elim (subst (In rows) e i) [ inl r ↦ same ∙ ap read_all (sym r) | inr j ↦ absurd j ]

-- However requests, queries, failures, writes of the table and resets interleave: the map in memory,
-- and the rows of each load under way, are a table that the database has had since the last reset
-- with no load under way; where the table has not been written since that reset, the map is the table.
pub Reach-IsRecent :
    (s w : World) → IsRecent s → Reach s w → IsRecent w × (w.since ≡ w.table ∷ [] → IsExact w)
Reach-IsRecent s w x here = (x, IsRecent-IsExact w x)
Reach-IsRecent s w x (next reach step) =
    let y = step-IsRecent _ w step ((Reach-IsRecent s _ x reach).0) in (y, IsRecent-IsExact w y)
