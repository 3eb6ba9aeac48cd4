-- ===== src/Filter/Conditions/Laws.antt =====
-- What the two filters of status conditions promise.
use kube_insight.Prelude.{
  String, Option, none, some, ◌≡◌, refl, ap, if◌then◌else◌, List, [], ◌∷◌, arith, Option-cases, inl,
  inr, eq_refl, contains,
}
use kube_insight.Core.{Observation}
use kube_insight.Json.{
  Value, Fields, get, get_opt, delete, set, obj, arr, items, of_items, as_arr, as_obj,
}
use kube_insight.Json.Laws.{get-delete, get-set, delete_absent}
use kube_insight.Filter.Objects.{fields_of}
use kube_insight.Filter.Objects.Laws.{Honest}
use kube_insight.Filter.Conditions.{
  strip, strip_condition, strip_conditions, condition_timestamps_apply, condition_set_apply,
  timestamp_fields, set_fields, with_conditions, sort_conditions,
}
use kube_insight.Filter.Conditions.Sorting.{sort_conditions_unmoved}

pub condition_timestamps-Honest : (obs : Observation) → Honest obs (condition_timestamps_apply obs)
unfolding condition_timestamps_apply
condition_timestamps-Honest obs = ground arith

pub condition_set-Honest : (obs : Observation) → Honest obs (condition_set_apply obs)
unfolding condition_set_apply
condition_set-Honest obs = ground arith

-- A stripped condition has none of the listed fields, and the others read as before.
pub get-strip :
    (ks : List String) (m : Fields) (k : String)
    → get k (strip ks m).0 ≡ (if contains ks k then none else get k m)
unfolding strip
get-strip [] m k = refl
get-strip (j ∷ js) m k = ground (arith, get-strip js (delete j m) k, get-delete k j m)

-- Where nothing is counted nothing is changed.
strip_zero : (ks : List String) (m : Fields) → (strip ks m).1 ≡ 0 → (strip ks m).0 ≡ m
unfolding strip
strip_zero [] m h = refl
strip_zero (k ∷ ks) m h = ground (arith, strip_zero ks (delete k m), delete_absent k m)

strip_condition_zero :
    (ks : List String) (v : Value) → (strip_condition ks v).1 ≡ 0 → (strip_condition ks v).0 ≡ v
unfolding strip_condition
strip_condition_zero ks (obj m) h = ap obj (strip_zero ks m h)
strip_condition_zero ks _ h = refl

strip_conditions_zero :
    (ks : List String) (vs : List Value)
    → (strip_conditions ks vs).1 ≡ 0
    → (strip_conditions ks vs).0 ≡ vs
unfolding strip_conditions
strip_conditions_zero ks [] h = refl
strip_conditions_zero ks (v ∷ vs) h =
    ground (arith, strip_condition_zero ks v, strip_conditions_zero ks vs)

items-of_items : (vs : List Value) → items (of_items vs) ≡ vs
items-of_items [] = refl
items-of_items (v ∷ vs) = ap (λ rest. v ∷ rest) (items-of_items vs)

-- The conditions in the status of an object.
abbrev pub conditions_of : Option Fields → Option (List Value)
conditions_of object = as_arr (get_opt "conditions" (as_obj (get_opt "status" object)))

conditions_of-with_conditions :
    (object status : Fields) (vs : List Value)
    → conditions_of (some (with_conditions object status vs)) ≡ some vs
conditions_of-with_conditions object status vs = ground (
  arith,
  get-set "status" "status" (obj (set "conditions" (arr (of_items vs)) status)) object,
  get-set "conditions" "conditions" (arr (of_items vs)) status,
  eq_refl "status",
  eq_refl "conditions",
  items-of_items vs,
)

-- The conditions that StatusConditionTimestampFilter leaves are the given ones without their
-- timestamps, whichever way it decides.
pub condition_timestamps_lem :
    (obs : Observation) (vs : List Value)
    → conditions_of obs.object ≡ some vs
    → conditions_of (condition_timestamps_apply obs).0.object
      ≡ some (strip_conditions timestamp_fields vs).0
unfolding condition_timestamps_apply
condition_timestamps_lem obs vs h = elim (Option-cases (as_obj (get_opt "status" obs.object))) [
  | inl e ↦ ground (arith, e)
  | inr (status, e) ↦ ground (
    arith,
    e,
    strip_conditions_zero timestamp_fields vs,
    conditions_of-with_conditions (fields_of obs.object) status
        (strip_conditions timestamp_fields vs).0,
  )
]

-- What StatusConditionSetFilter leaves: the conditions without the three times, sorted by type.
abbrev pub normal_conditions : List Value → List Value
normal_conditions vs = (sort_conditions (strip_conditions set_fields vs).0).0

-- The conditions that StatusConditionSetFilter leaves are the given ones in normal form, whichever
-- way it decides.
pub condition_set_lem :
    (obs : Observation) (vs : List Value)
    → conditions_of obs.object ≡ some vs
    → conditions_of (condition_set_apply obs).0.object ≡ some (normal_conditions vs)
unfolding condition_set_apply
condition_set_lem obs vs h = elim (Option-cases obs.object) [
  | inl e ↦ ground (arith, e)
  | inr (object, e) ↦ elim (Option-cases (as_obj (get "status" object))) [
    | inl e' ↦ ground (arith, e, e')
    | inr (status, e') ↦ ground (
      arith,
      e,
      e',
      strip_conditions_zero set_fields vs,
      sort_conditions_unmoved (strip_conditions set_fields vs).0,
      conditions_of-with_conditions (fields_of obs.object) status (normal_conditions vs),
    )
  ]
]
