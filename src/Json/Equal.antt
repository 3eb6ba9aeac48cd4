-- ===== src/Json/Equal.antt =====
-- reflect.DeepEqual on decoded JSON: maps by their keys, slices place by place.
use Prim.Native.Nat.{ℕ, ◌+◌}
use kube_insight.Prelude.{Bool, true, false, ◌&&◌, none, some, ◌==◌, eqb}
use kube_insight.Json.{
  Value, Fields, Items, null, bool, int, negative, float, str, obj, arr, end, field, nil, cons, get,
}

abbrev same_bool : Bool → Bool → Bool
same_bool true b = b
same_bool false true = false
same_bool false false = true

abbrev pub size : Fields → ℕ
size end = 0
size (field k v m) = 1 + size m

unfoldable mutual
  pub deep_equal : Value → Value → Bool
  deep_equal null null = true
  deep_equal (bool a) (bool b) = same_bool a b
  deep_equal (int m) (int n) = eqb m n
  deep_equal (negative m) (negative n) = eqb m n
  deep_equal (float s) (float t) = s == t
  deep_equal (str s) (str t) = s == t
  deep_equal (obj m) (obj n) = eqb (size m) (size n) && fields_in m n
  deep_equal (arr vs) (arr ws) = equal_items vs ws
  deep_equal _ _ = false

  -- Every field of a map is in another one.
  pub fields_in : Fields → Fields → Bool
  fields_in end n = true
  fields_in (field k v m) n =
      let rest = fields_in m n in elim (get k n) [ none ↦ false | some w ↦ deep_equal v w && rest ]

  equal_items : Items → Items → Bool
  equal_items nil nil = true
  equal_items (cons v vs) (cons w ws) = deep_equal v w && equal_items vs ws
  equal_items _ _ = false
