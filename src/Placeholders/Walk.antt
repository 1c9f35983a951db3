-- ===== src/Placeholders/Walk.antt =====
-- `substitutePlaceholders` and `walk` of apps/web/src/server/config/placeholders.ts: every text of
-- a configuration value, with its pointer.
pub mod Laws
use semantius_idp.Prelude.{
  ℕ, suc, ◌+◌, Text, Bool, Option, none, some, if◌then◌else◌, List, [], ◌∷◌, ◌++◌,
}
use semantius_idp.Js.{Value, null, bool, num, str, arr, obj, Items, nil, cons, Fields, end, field}
use semantius_idp.Net.Address.{◌>>=◌}
use semantius_idp.Placeholders.{Issue, Environment, Cache}
use semantius_idp.Placeholders.Scan.{Substituted, substitute_string}

-- A step of a path, whose text form is the pointer.
pub data Step : Type 0 where
  key : Text → Step
  index : ℕ → Step

abbrev pub Pointer : Type 0
Pointer = List Step

-- `Context`
pub record Context : Type 0 where
  pub cache : Cache
  pub placeholder_pointers : List Pointer
  pub coerced_pointers : List Pointer
  pub issues : List (Pointer × Issue)

abbrev add_if : Bool → Pointer → List Pointer → List Pointer
add_if test p ps = if test then ps ++ p ∷ [] else ps

abbrev add_issue : Option Issue → Pointer → List (Pointer × Issue) → List (Pointer × Issue)
add_issue none p found = found
add_issue (some issue) p found = found ++ (p, issue) ∷ []

-- What a substituted text leaves in the context
abbrev pub record_in : Context → Pointer → Substituted → Context
record_in ctx p result = record {
  cache = result.cache;
  placeholder_pointers = add_if result.sourced p ctx.placeholder_pointers;
  coerced_pointers = add_if result.coerced p ctx.coerced_pointers;
  issues = add_issue result.issue p ctx.issues;
}

module _ (environment : Environment) where
  abbrev pub walk_text : Context → Text → Pointer → Option (Value × Context)
  walk_text ctx s p = do
    result ← substitute_string environment ctx.cache s
    some (str result.value, record_in ctx p result)

  unfoldable mutual
    pub walk : Context → Value → Pointer → Option (Value × Context)
    walk ctx (str s) p = walk_text ctx s p
    walk ctx (arr vs) p = do result ← walk_items ctx vs 0 p; some (arr result.0, result.1)
    walk ctx (obj fs) p = do result ← walk_fields ctx fs p; some (obj result.0, result.1)
    walk ctx null p = some (null, ctx)
    walk ctx (bool b) p = some (bool b, ctx)
    walk ctx (num n) p = some (num n, ctx)

    pub walk_items : Context → Items → ℕ → Pointer → Option (Items × Context)
    walk_items ctx nil i p = some (nil, ctx)
    walk_items ctx (cons v vs) i p = do
      first ← walk ctx v (p ++ index i ∷ [])
      rest ← walk_items first.1 vs (suc i) p
      some (cons first.0 rest.0, rest.1)

    pub walk_fields : Context → Fields → Pointer → Option (Fields × Context)
    walk_fields ctx end p = some (end, ctx)
    walk_fields ctx (field k v fs) p = do
      first ← walk ctx v (p ++ key k ∷ [])
      rest ← walk_fields first.1 fs p
      some (field k first.0 rest.0, rest.1)

  -- `substitutePlaceholders`
  unfoldable pub substitute_placeholders : Value → Option (Value × Context)
  substitute_placeholders input =
      walk (record { cache = []; placeholder_pointers = []; coerced_pointers = []; issues = [] })
        input []
