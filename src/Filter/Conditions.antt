-- ===== src/Filter/Conditions.antt =====
-- internal/filter: the filters that normalise status conditions, StatusConditionTimestampFilter of
-- filter.go and StatusConditionSetFilter of status_conditions.go.
pub mod Laws
pub mod Sorting
pub mod Settled
use kube_insight.Prelude.{
  String, Bool, true, false, not, ◌&&◌, ◌||◌, Option, none, some, ◌==◌, is_some, if◌then◌else◌, ℕ,
  ◌+◌, List, [], ◌∷◌, eqb, map,
}
use kube_insight.Prelude.Text.Order.{less}
use kube_insight.Core.{Observation}
use kube_insight.Json.{
  Value, Fields, end, field, obj, arr, int, get, get_opt, delete, set, as_obj, as_arr, as_str,
  of_items, str_or_empty,
}
use kube_insight.Filter.{Filter, Decision, keep, pass, total}
use kube_insight.Filter.Objects.{modified_by, removed_fields, fields_of}

abbrev pub timestamp_fields : List String
timestamp_fields = "lastHeartbeatTime" ∷ "lastTransitionTime" ∷ []

abbrev pub set_fields : List String
set_fields = "lastHeartbeatTime" ∷ "lastTransitionTime" ∷ "lastUpdateTime" ∷ []

-- The loop over the fields to take out of one condition: what is left, and how many there were.
unfoldable pub strip : List String → Fields → Fields × ℕ
strip [] m = (m, 0)
strip (k ∷ ks) m =
    let (rest, n) = strip ks (delete k m) in (rest, (if is_some (get k m) then 1 else 0) + n)

-- One round of the loop over the conditions.
strip_condition : List String → Value → Value × ℕ
unfolding strip
strip_condition ks (obj m) = let (rest, n) = strip ks m in (obj rest, n)
strip_condition ks v = (v, 0)

unfoldable pub strip_conditions : List String → List Value → List Value × ℕ
unfolding strip_condition
strip_conditions ks [] = ([], 0)
strip_conditions ks (v ∷ vs) =
    let (v', n) = strip_condition ks v in let (vs', m) = strip_conditions ks vs in (v' ∷ vs', n + m)

-- The object with new conditions in its status.
abbrev pub with_conditions : Fields → Fields → List Value → Fields
with_conditions object status vs =
    set "status" (obj (set "conditions" (arr (of_items vs)) status)) object

timestamps_of : Observation → Fields → List Value → Observation × Decision
unfolding strip_conditions
timestamps_of obs status conditions =
    let (next, removed) = strip_conditions timestamp_fields conditions in
    if eqb removed 0
    then pass obs keep "condition_timestamps_absent"
    else modified_by obs (with_conditions (fields_of obs.object) status next)
        "condition_timestamps_removed" (removed_fields removed)

-- StatusConditionTimestampFilter.Apply
unfoldable pub condition_timestamps_apply : Observation → Observation × Decision
unfolding timestamps_of
condition_timestamps_apply obs = elim (as_obj (get_opt "status" obs.object)) [
  | none ↦ pass obs keep "no_status"
  | some status ↦ elim (as_arr (get "conditions" status)) [
    | none ↦ pass obs keep "conditions_absent"
    | some conditions ↦ timestamps_of obs status conditions
  ]
]

abbrev pub condition_timestamps : Filter
condition_timestamps =
    total "status_condition_timestamp_normalization_filter" condition_timestamps_apply

abbrev pub condition_sort_key : Value → String
condition_sort_key (obj m) = str_or_empty (get "type" m)
condition_sort_key _ = ""

-- sort.SliceStable by the sort key: an element goes behind those that are not greater.
unfoldable pub insert_condition : Value → List Value → List Value
insert_condition v [] = v ∷ []
insert_condition v (w ∷ ws) =
    let behind = w ∷ insert_condition v ws in
    if less (condition_sort_key w) (condition_sort_key v) then behind else v ∷ w ∷ ws

unfoldable pub sort_by_type : List Value → List Value
unfolding insert_condition
sort_by_type [] = []
sort_by_type (v ∷ vs) = insert_condition v (sort_by_type vs)

abbrev pub condition_order : List Value → List String
condition_order vs = map condition_sort_key vs

-- The comparison of the two orders: their lengths, then each place.
abbrev pub differ : List String → List String → Bool
differ [] [] = false
differ (x ∷ xs) (y ∷ ys) = not (x == y) || differ xs ys
differ _ _ = true

-- sortConditionsByType: the sorted slice, and whether the order of the keys has changed.
unfoldable pub sort_conditions : List Value → List Value × Bool
unfolding sort_by_type
sort_conditions vs =
    let after = sort_by_type vs in (after, differ (condition_order vs) (condition_order after))

abbrev bool_to_int : Bool → ℕ
bool_to_int value = if value then 1 else 0

condition_set_of : Observation → Fields → List Value → Observation × Decision
unfolding strip_conditions sort_conditions
condition_set_of obs status conditions =
    let (stripped, removed) = strip_conditions set_fields conditions in
    let (next, sorted) = sort_conditions stripped in
    if eqb removed 0 && not sorted
    then pass obs keep "condition_set_already_normalized"
    else modified_by obs (with_conditions (fields_of obs.object) status next)
        "condition_set_normalized"
        (field "removedFields" (int removed) (field "sortedLists" (int (bool_to_int sorted)) end))

-- StatusConditionSetFilter.Apply
unfoldable pub condition_set_apply : Observation → Observation × Decision
unfolding condition_set_of
condition_set_apply obs = elim obs.object [
  | none ↦ pass obs keep "no_object"
  | some object ↦ elim (as_obj (get "status" object)) [
    | none ↦ pass obs keep "no_status"
    | some status ↦ elim (as_arr (get "conditions" status)) [
      | none ↦ pass obs keep "conditions_absent"
      | some conditions ↦ condition_set_of obs status conditions
    ]
  ]
]

abbrev pub condition_set : Filter
condition_set = total "status_condition_set_normalization_filter" condition_set_apply
