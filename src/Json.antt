-- ===== src/Json.antt =====
-- The values that encoding/json decodes into `any`, and the operations on map[string]any that the
-- filters use. A map is a list of keys and values; reading finds the first entry of a key, writing
-- replaces it or adds one at the end, and deleting takes every entry of the key away. Numbers that
-- are no int64 keep the text of their literal.
pub mod Laws
pub mod Equal
use kube_insight.Prelude.{
  ℕ, String, Bool, true, false, Option, none, some, List, [], ◌∷◌, if◌then◌else◌, ◌==◌,
}

mutual
  pub data Value : Type 0 where
    null : Value
    bool : Bool → Value
    int negative : ℕ → Value
    float str : String → Value
    obj : Fields → Value
    arr : Items → Value

  -- The fields of an object.
  pub data Fields : Type 0 where
    end : Fields
    field : (key : String) (value : Value) → Fields → Fields

  -- The items of an array.
  pub data Items : Type 0 where
    nil : Items
    cons : (item : Value) → Items → Items

unfoldable pub get : String → Fields → Option Value
get k end = none
get k (field j v m) = if j == k then some v else get k m

unfoldable pub delete : String → Fields → Fields
delete k end = end
delete k (field j v m) = let rest = delete k m in if j == k then rest else field j v rest

unfoldable pub set : String → Value → Fields → Fields
set k v end = field k v end
set k v (field j w m) = if j == k then field k v m else field j w (set k v m)

abbrev pub has_fields : Fields → Bool
has_fields end = false
has_fields (field k v m) = true

abbrev pub items : Items → List Value
items nil = []
items (cons v vs) = v ∷ items vs

abbrev pub of_items : List Value → Items
of_items [] = nil
of_items (v ∷ vs) = cons v (of_items vs)

-- The type assertions `v.(map[string]any)`, `v.([]any)` and `v.(string)`, on a value that may be
-- absent.
abbrev pub as_obj : Option Value → Option Fields
as_obj (some (obj m)) = some m
as_obj _ = none

abbrev pub as_arr : Option Value → Option (List Value)
as_arr (some (arr vs)) = some (items vs)
as_arr _ = none

abbrev pub as_str : Option Value → Option String
as_str (some (str s)) = some s
as_str _ = none

-- A read of a map that may be nil.
abbrev pub get_opt : String → Option Fields → Option Value
get_opt k none = none
get_opt k (some m) = get k m

-- `s, _ := v.(string)`: the empty text where the assertion fails.
abbrev pub str_or_empty : Option Value → String
str_or_empty (some (str s)) = s
str_or_empty _ = ""
