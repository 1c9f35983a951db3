-- ===== src/Js.antt =====
-- The JavaScript values that a parsed request body or configuration file holds.
use semantius_idp.Prelude.{ℕ, Text, text_eq, Bool, Option, none, some, if◌then◌else◌, List, [], ◌∷◌}

mutual
  pub data Value : Type 0 where
    null : Value
    bool : Bool → Value
    num : ℕ → Value
    str : Text → Value
    arr : Items → Value
    obj : Fields → Value

  pub data Items : Type 0 where
    nil : Items
    cons : Value → Items → Items

  pub data Fields : Type 0 where
    end : Fields
    field : Text → Value → Fields → Fields

unfoldable pub items : Items → List Value
items nil = []
items (cons v vs) = v ∷ items vs

-- `Object.keys(o)`
unfoldable pub keys : Fields → List Text
keys end = []
keys (field k v fs) = k ∷ keys fs

-- `o[key]`, `none` for `undefined`
unfoldable pub get : Text → Fields → Option Value
get key end = none
get key (field k v fs) = let rest = get key fs in if text_eq k key then some v else rest

-- `typeof v === "string" ? v : undefined`
abbrev pub as_text : Option Value → Option Text
as_text (some (str s)) = some s
as_text _ = none

-- A text that is not `undefined` or empty.
abbrev pub truthy : Option Text → Option Text
truthy (some []) = none
truthy (some (c ∷ s)) = some (c ∷ s)
truthy none = none
