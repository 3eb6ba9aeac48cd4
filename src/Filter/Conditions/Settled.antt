-- ===== src/Filter/Conditions/Settled.antt =====
-- The condition filters settle: what they return they leave alone.
use kube_insight.Prelude.{
  String, true, false, none, some, ◌≡◌, refl, List, [], ◌∷◌, arith, Bool-cases, Option-cases, inl,
  inr, eq_iff, contains, All,
}
use kube_insight.Prelude.Text.Order.{less}
use kube_insight.Core.{Observation}
use kube_insight.Json.{Value, Fields, obj, get, as_obj}
use kube_insight.Json.Laws.{delete_absent}
use kube_insight.Filter.{keep}
use kube_insight.Filter.Conditions.{
  strip, strip_condition, strip_conditions, insert_condition, sort_by_type, sort_conditions,
  condition_sort_key, condition_set_apply, set_fields,
}
use kube_insight.Filter.Conditions.Sorting.{sort_conditions_settled}
use kube_insight.Filter.Conditions.Laws.{
  get-strip, conditions_of, normal_conditions, condition_set_lem,
}

-- A condition has none of the listed fields.
abbrev pub Lacks : List String → Value → Type 0
Lacks ks (obj m) = All (λ k. get k m ≡ none) ks
Lacks ks _ = Unit

strip_of_Lacks :
    (ks : List String) (m : Fields) → All (λ k. get k m ≡ none) ks → strip ks m ≡ (m, 0)
unfolding strip
strip_of_Lacks [] m h = refl
strip_of_Lacks (k ∷ ks) m h = rw (delete_absent k m h.0) (rw (strip_of_Lacks ks m h.1, h.0))

strip_conditions_of_Lacks :
    (ks : List String) (vs : List Value) → All (Lacks ks) vs → strip_conditions ks vs ≡ (vs, 0)
unfolding strip_conditions strip_condition
strip_conditions_of_Lacks ks [] h = refl
strip_conditions_of_Lacks ks (obj m ∷ vs) h =
    rw (strip_of_Lacks ks m h.0, strip_conditions_of_Lacks ks vs h.1)
strip_conditions_of_Lacks ks (_ ∷ vs) h = rw (strip_conditions_of_Lacks ks vs h.1)

absent_mono :
    (ks js : List String) (m : Fields)
    → ((k : String) → contains ks k ≡ true → contains js k ≡ true)
    → All (λ k. get k (strip js m).0 ≡ none) ks
absent_mono [] js m sub = tt
absent_mono (k ∷ ks) js m sub = (
  ground (arith, get-strip js m k, sub k, eq_iff k k),
  absent_mono ks js m (λ j h. sub j (ground arith)),
)

strip_conditions-Lacks :
    (ks : List String) (vs : List Value) → All (Lacks ks) (strip_conditions ks vs).0
unfolding strip_conditions strip_condition
strip_conditions-Lacks ks [] = tt
strip_conditions-Lacks ks (obj m ∷ vs) =
    (absent_mono ks ks m (λ k h. h), strip_conditions-Lacks ks vs)
strip_conditions-Lacks ks (_ ∷ vs) = (tt, strip_conditions-Lacks ks vs)

insert-All :
    (P : Value → Type 0) (v : Value) (vs : List Value)
    → P v
    → All P vs
    → All P (insert_condition v vs)
unfolding insert_condition
insert-All P v [] p h = (p, tt)
insert-All P v (w ∷ ws) p h =
    elim (Bool-cases (less (condition_sort_key w) (condition_sort_key v))) [
      | inl behind ↦ rw behind (h.0, insert-All P v ws p h.1)
      | inr before ↦ rw before (p, h)
    ]

sort-All : (P : Value → Type 0) (vs : List Value) → All P vs → All P (sort_by_type vs)
unfolding sort_by_type
sort-All P [] h = tt
sort-All P (v ∷ vs) h = insert-All P v (sort_by_type vs) h.0 (sort-All P vs h.1)

-- No condition in the normal form that StatusConditionSetFilter gives has one of the three times.
pub normal_conditions-Lacks : (vs : List Value) → All (Lacks set_fields) (normal_conditions vs)
unfolding sort_conditions
normal_conditions-Lacks vs =
    sort-All (Lacks set_fields) (strip_conditions set_fields vs).0
      (strip_conditions-Lacks set_fields vs)

strip-normal_conditions :
    (vs : List Value)
    → strip_conditions set_fields (normal_conditions vs) ≡ (normal_conditions vs, 0)
strip-normal_conditions vs =
    strip_conditions_of_Lacks set_fields (normal_conditions vs) (normal_conditions-Lacks vs)

-- On conditions that nothing is stripped from and that sorting leaves alone, the filter keeps.
condition_set_keeps :
    (obs : Observation) (vs : List Value)
    → conditions_of obs.object ≡ some vs
    → strip_conditions set_fields vs ≡ (vs, 0)
    → sort_conditions vs ≡ (vs, false)
    → ((condition_set_apply obs).1.outcome ≡ keep) × ((condition_set_apply obs).0 ≡ obs)
unfolding condition_set_apply
condition_set_keeps obs vs h s t = elim (Option-cases obs.object) [
  | inl e ↦ ground (arith, e)
  | inr (object, e) ↦ elim (Option-cases (as_obj (get "status" object))) [
    | inl e' ↦ ground (arith, e, e')
    | inr (status, e') ↦ ground (arith, e, e')
  ]
]

-- A second run of StatusConditionSetFilter keeps the observation, where there are conditions.
pub condition_set_settles :
    (obs : Observation) (vs : List Value)
    → conditions_of obs.object ≡ some vs
    → let r = (condition_set_apply obs).0 in
      ((condition_set_apply r).1.outcome ≡ keep) × ((condition_set_apply r).0 ≡ r)
condition_set_settles obs vs h =
    condition_set_keeps (condition_set_apply obs).0 (normal_conditions vs)
      (condition_set_lem obs vs h) (strip-normal_conditions vs)
      (sort_conditions_settled (strip_conditions set_fields vs).0)
