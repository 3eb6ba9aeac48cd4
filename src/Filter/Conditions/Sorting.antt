-- ===== src/Filter/Conditions/Sorting.antt =====
-- sortConditionsByType is a stable sort, and its flag tells whether it has moved anything.
use mathlib.Core.List.{Perm}
use mathlib.Core.List.Perm
use kube_insight.Prelude.{
  String, false, ◌==◌, ◌≡◌, refl, ◌∙◌, if◌then◌else◌, List, [], ◌∷◌, arith, Bool-cases, inl, inr,
  eq_iff,
}
use kube_insight.Prelude.Text.Order.{less, less_asym, less_irrefl}
use kube_insight.Json.{Value}
use kube_insight.Filter.Conditions.{
  condition_sort_key, insert_condition, sort_by_type, condition_order, differ, sort_conditions,
}

-- No element's key is greater than the next one's.
abbrev pub IsSorted : List String → Type 0
IsSorted [] = Unit
IsSorted (x ∷ []) = Unit
IsSorted (x ∷ y ∷ ys) = (less y x ≡ false) × IsSorted (y ∷ ys)

insert-perm : (v : Value) (vs : List Value) → Perm (insert_condition v vs) (v ∷ vs)
unfolding insert_condition
insert-perm v [] = Perm.refl (v ∷ [])
insert-perm v (w ∷ ws) = elim (Bool-cases (less (condition_sort_key w) (condition_sort_key v))) [
  | inl behind ↦ rw behind (Perm.trans (Perm.cons w (insert-perm v ws)) (Perm.swap v w ws))
  | inr before ↦ rw before (Perm.refl (v ∷ w ∷ ws))
]

sort-perm : (vs : List Value) → Perm (sort_by_type vs) vs
unfolding sort_by_type
sort-perm [] = Perm.refl []
sort-perm (v ∷ vs) = Perm.trans (insert-perm v (sort_by_type vs)) (Perm.cons v (sort-perm vs))

insert-IsSorted :
    (v : Value) (vs : List Value)
    → IsSorted (condition_order vs)
    → IsSorted (condition_order (insert_condition v vs))
unfolding insert_condition
insert-IsSorted v [] h = tt
insert-IsSorted v (w ∷ []) h =
    ground (arith, less_asym (condition_sort_key w) (condition_sort_key v))
insert-IsSorted v (w ∷ x ∷ xs) h =
    ground
      (arith, insert-IsSorted v (x ∷ xs), less_asym (condition_sort_key w) (condition_sort_key v))

sort-IsSorted : (vs : List Value) → IsSorted (condition_order (sort_by_type vs))
unfolding sort_by_type
sort-IsSorted [] = tt
sort-IsSorted (v ∷ vs) = insert-IsSorted v (sort_by_type vs) (sort-IsSorted vs)

-- The conditions of one type, in their order.
abbrev pub of_type : String → List Value → List Value
of_type k [] = []
of_type k (v ∷ vs) = let rest = of_type k vs in if condition_sort_key v == k then v ∷ rest else rest

insert-of_type :
    (k : String) (v : Value) (vs : List Value)
    → of_type k (insert_condition v vs) ≡ of_type k (v ∷ vs)
unfolding insert_condition
insert-of_type k v [] = refl
insert-of_type k v (w ∷ ws) = ground (
  arith,
  insert-of_type k v ws,
  less_irrefl k,
  eq_iff (condition_sort_key v) k,
  eq_iff (condition_sort_key w) k,
)

sort-of_type : (k : String) (vs : List Value) → of_type k (sort_by_type vs) ≡ of_type k vs
unfolding sort_by_type
sort-of_type k [] = refl
sort-of_type k (v ∷ vs) = insert-of_type k v (sort_by_type vs) ∙ ground (arith, sort-of_type k vs)

differ_none : (xs ys : List String) → differ xs ys ≡ false → xs ≡ ys
differ_none [] [] h = refl
differ_none (x ∷ xs) (y ∷ ys) h = ground (arith, differ_none xs ys, eq_iff x y)
differ_none [] (y ∷ ys) h = cc
differ_none (x ∷ xs) [] h = cc

insert_in_front :
    (v : Value) (vs : List Value)
    → IsSorted (condition_order (v ∷ vs))
    → insert_condition v vs ≡ v ∷ vs
unfolding insert_condition
insert_in_front v [] h = refl
insert_in_front v (w ∷ ws) h = ground arith

IsSorted-tail : (x : String) (xs : List String) → IsSorted (x ∷ xs) → IsSorted xs
IsSorted-tail x [] h = tt
IsSorted-tail x (y ∷ ys) h = h.1

sort_fixed : (vs : List Value) → IsSorted (condition_order vs) → sort_by_type vs ≡ vs
unfolding sort_by_type
sort_fixed [] h = refl
sort_fixed (v ∷ vs) h =
    rw (sort_fixed vs (IsSorted-tail (condition_sort_key v) (condition_order vs) h))
      (insert_in_front v vs h)

-- What sortConditionsByType leaves is a permutation of the conditions, in the order of their types,
-- and the conditions of one type keep their order.
pub sort_conditions-IsSorted :
    (vs : List Value)
    → Perm (sort_conditions vs).0 vs
      × IsSorted (condition_order (sort_conditions vs).0)
      × ((k : String) → of_type k (sort_conditions vs).0 ≡ of_type k vs)
unfolding sort_conditions
sort_conditions-IsSorted vs = (sort-perm vs, sort-IsSorted vs, λ k. sort-of_type k vs)

-- Where sortConditionsByType says that the order is as before, the conditions are what they were.
pub sort_conditions_unmoved :
    (vs : List Value) → (sort_conditions vs).1 ≡ false → (sort_conditions vs).0 ≡ vs
unfolding sort_conditions
sort_conditions_unmoved vs h =
    sort_fixed vs (
      rw (differ_none (condition_order vs) (condition_order (sort_by_type vs)) h)
        (sort-IsSorted vs))

-- Sorting what is sorted moves nothing.
differ_same : (xs : List String) → differ xs xs ≡ false
differ_same [] = refl
differ_same (x ∷ xs) = ground (arith, differ_same xs, eq_iff x x)

pub sort_conditions_settled :
    (vs : List Value) → sort_conditions (sort_conditions vs).0 ≡ ((sort_conditions vs).0, false)
unfolding sort_conditions
sort_conditions_settled vs =
    rw (sort_fixed (sort_by_type vs) (sort-IsSorted vs))
      (rw (differ_same (condition_order (sort_by_type vs))))
