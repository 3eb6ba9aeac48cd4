-- ===== src/Tests/Conditions.antt =====
-- Runs of the filters of status conditions.
use mathlib.Core.List.{Perm}
use kube_insight.Prelude.{String, false, some, List, [], ◌∷◌, ◌≡◌, refl}
use kube_insight.Json.{Value, get}
use kube_insight.Filter.{keep}
use kube_insight.Filter.Conditions.{condition_set_apply, sort_conditions, condition_order}
use kube_insight.Filter.Conditions.Sorting.{IsSorted, of_type, sort_conditions-IsSorted}
use kube_insight.Filter.Conditions.Laws.{conditions_of, normal_conditions, condition_set_lem}
use kube_insight.Filter.Conditions.Settled.{condition_set_settles}
use kube_insight.Tests.{condition, conditions, pod}

sort_conditions-IsSorted_example :
    Perm (sort_conditions conditions).0 conditions
    × IsSorted (condition_order (sort_conditions conditions).0)
    × ((k : String) → of_type k (sort_conditions conditions).0 ≡ of_type k conditions)
sort_conditions-IsSorted_example = sort_conditions-IsSorted conditions

abbrev sorted : List Value
sorted = condition "Initialized" "True" "09:00" ∷ condition "Ready" "True" "10:00" ∷ []

sorted_before : (sort_conditions sorted).1 ≡ false
unfolding sort_conditions get
sorted_before = refl

condition_set_lem_example :
    conditions_of (condition_set_apply pod).0.object ≡ some (normal_conditions conditions)
unfolding get
condition_set_lem_example = condition_set_lem pod conditions refl

condition_set_settles_example :
    ((condition_set_apply (condition_set_apply pod).0).1.outcome ≡ keep)
    × ((condition_set_apply (condition_set_apply pod).0).0 ≡ (condition_set_apply pod).0)
unfolding get
condition_set_settles_example = condition_set_settles pod conditions refl
