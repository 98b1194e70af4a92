-- ===== src/Json.antt =====
-- `serde_json::Value`, with the accessors `get`, `as_str` and `as_array` that the sources call.
use ironbucket.Base.{Bool, Option, none, some, List, [], ◌∷◌, if◌then◌else◌}
use ironbucket.Base.Text.{Text, text_eq}

-- A number is kept as its text: nothing here reads one.
mutual
  pub data Value : Type 0 where
    null : Value
    bool : Bool → Value
    num : Text → Value
    str : Text → Value
    arr : Items → Value
    obj : Fields → Value

  pub data Items : Type 0 where
    nil : Items
    cons : Value → Items → Items

  pub data Fields : Type 0 where
    end : Fields
    field : Text → Value → Fields → Fields

lookup : Text → Fields → Option Value
lookup key end = none
lookup key (field k v rest) = if text_eq k key then some v else lookup key rest

-- `v.get(key)`
unfoldable pub get : Value → Text → Option Value
unfolding lookup text_eq
get (obj fs) key = lookup key fs
get null key = none
get _ key = none

unfoldable pub as_str : Value → Option Text
as_str (str s) = some s
as_str null = none
as_str _ = none

elements : Items → List Value
elements nil = []
elements (cons v rest) = v ∷ elements rest

unfoldable pub as_array : Value → Option (List Value)
unfolding elements
as_array (arr items) = some (elements items)
as_array null = none
as_array _ = none
