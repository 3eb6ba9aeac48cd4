-- ===== src/Extractor/Kinds/Nodes.antt =====
-- The extractor of nodes is owned.
use kube_insight.Prelude.{
  String, ◌||◌, Option, List, [], ◌∷◌, ◌==◌, refl, Option-cases, inl, inr, map, All,
}
use kube_insight.Core.{Observation}
use kube_insight.Json.{Value, Fields, get, get_opt, as_obj, as_arr, str_or_empty}
use kube_insight.Extractor.{no_evidence}
use kube_insight.Extractor.Objects.{fact, change}
use kube_insight.Extractor.Owned.{
  Owned, merge_evidence-Owned, all_of-Owned, each_map-Owned, no_evidence-Owned, if-Owned,
}
use kube_insight.Extractor.Node.{
  NodeField, node_fields, value_text, node_condition, node_resource_fact, node_extract,
}

node_condition-Owned :
    (obs : Observation) (condition : Fields) → Owned obs (node_condition obs condition)
unfolding node_condition fact change
node_condition-Owned obs condition =
    if-Owned obs
      (str_or_empty (get "type" condition) == "" || str_or_empty (get "status" condition) == "")
      no_evidence _ (no_evidence-Owned obs) (((refl, refl), tt), tt, ((refl, refl), tt))

module _ (print : Value → String) (quantity : (field value : String) → Option String) where
  node_resource_fact-Owned :
      (obs : Observation) (status : Fields) (spec : NodeField)
      → Owned obs (node_resource_fact print quantity obs status spec)
  unfolding node_resource_fact fact
  node_resource_fact-Owned obs status spec =
      elim (Option-cases
        (value_text print quantity (get_opt spec.name (as_obj (get spec.section status))))) [
          | inl absent ↦ rw (node_resource_fact, absent) (no_evidence-Owned obs)
          | inr (value, found) ↦ rw (node_resource_fact, found) (((refl, refl), tt), tt, tt)
        ]

  facts-Owned :
      (obs : Observation) (status : Fields) (specs : List NodeField)
      → All (Owned obs) (map (node_resource_fact print quantity obs status) specs)
  facts-Owned obs status [] = tt
  facts-Owned obs status (spec ∷ specs) =
      (node_resource_fact-Owned obs status spec, facts-Owned obs status specs)

  pub node_extract-Owned : (obs : Observation) → Owned obs (node_extract print quantity obs)
  unfolding node_extract
  node_extract-Owned obs = elim (Option-cases (as_obj (get_opt "status" obs.object))) [
    | inl absent ↦ rw (node_extract, absent) (no_evidence-Owned obs)
    | inr (status, found) ↦
        let specs = all_of-Owned obs _ (facts-Owned obs status node_fields) in
        elim (Option-cases (as_arr (get "conditions" status))) [
          | inl bare ↦
              rw (node_extract, found, bare)
                (merge_evidence-Owned obs _ no_evidence specs (no_evidence-Owned obs))
          | inr (conditions, listed) ↦
              rw (node_extract, found, listed)
                (merge_evidence-Owned obs _ _ specs
                  (each_map-Owned obs _ conditions (node_condition-Owned obs)))
        ]
  ]
