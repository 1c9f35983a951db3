-- ===== src/Placeholders/Walk/Laws.antt =====
-- The walk over a configuration value comes to an end.
use semantius_idp.Prelude.{ℕ, suc, some, [], ◌∷◌, ◌++◌, ◌≡◌, refl}
use semantius_idp.Js.{Value, null, bool, num, str, arr, obj, Items, nil, cons, Fields, end, field}
use semantius_idp.Placeholders.{Environment}
use semantius_idp.Placeholders.Scan.Laws.{substitute_ends}
use semantius_idp.Placeholders.Walk.{
  Context, Pointer, key, index, walk, walk_items, walk_fields, substitute_placeholders,
}

module _ (environment : Environment) where
  mutual
    unfolding walk walk_items walk_fields

    walk_ends :
        (ctx : Context) (v : Value) (p : Pointer)
        → (result : Value × Context) × (walk environment ctx v p ≡ some result)
    walk_ends ctx (str s) p =
        let (result, e) = substitute_ends environment ctx.cache s in rw e (_, refl)
    walk_ends ctx (arr vs) p = let (result, e) = walk_items_end ctx vs 0 p in rw e (_, refl)
    walk_ends ctx (obj fs) p = let (result, e) = walk_fields_end ctx fs p in rw e (_, refl)
    walk_ends ctx null p = (_, refl)
    walk_ends ctx (bool b) p = (_, refl)
    walk_ends ctx (num n) p = (_, refl)

    walk_items_end :
        (ctx : Context) (vs : Items) (i : ℕ) (p : Pointer)
        → (result : Items × Context) × (walk_items environment ctx vs i p ≡ some result)
    walk_items_end ctx nil i p = (_, refl)
    walk_items_end ctx (cons v vs) i p =
        let (first, e) = walk_ends ctx v (p ++ index i ∷ []) in
        let (rest, f) = walk_items_end first.1 vs (suc i) p in rw (e, f) (_, refl)

    walk_fields_end :
        (ctx : Context) (fs : Fields) (p : Pointer)
        → (result : Fields × Context) × (walk_fields environment ctx fs p ≡ some result)
    walk_fields_end ctx end p = (_, refl)
    walk_fields_end ctx (field k v fs) p =
        let (first, e) = walk_ends ctx v (p ++ key k ∷ []) in
        let (rest, f) = walk_fields_end first.1 fs p in rw (e, f) (_, refl)

  -- The walk gives a result for every value: the fuel of each text is enough.
  pub substitute_placeholders_end :
      (input : Value)
      → (result : Value × Context) × (substitute_placeholders environment input ≡ some result)
  unfolding substitute_placeholders
  substitute_placeholders_end input = walk_ends _ input []
