-- ===== src/Extractor/Node.antt =====
-- internal/extractor/node.go. The parsing of a quantity, and fmt.Sprint of a number, are parameters.
use kube_insight.Prelude.{
  String, not, ◌&&◌, ◌||◌, Option, none, some, List, [], ◌∷◌, ◌==◌, if◌then◌else◌, map,
}
use kube_insight.Prelude.Text.{concat}
use kube_insight.Prelude.Result.{ok}
use kube_insight.Core.{Observation}
use kube_insight.Json.{
  Value, Fields, int, negative, float, str, get, get_opt, as_obj, as_arr, str_or_empty,
}
use kube_insight.Extractor.{Evidence, no_evidence, Extractor, merge_evidence}
use kube_insight.Extractor.Objects.{fact, change, of_fact, all_of, each_map}

-- One condition of a node.
unfoldable pub node_condition : Observation → Fields → Evidence
node_condition obs condition =
    let type = str_or_empty (get "type" condition) in
    let value = str_or_empty (get "status" condition) in
    let severity = if not (type == "Ready") && value == "True" then 80 else 20 in
    if type == "" || value == "" then no_evidence else record {
      facts = fact obs (concat ("node_condition." ∷ type ∷ [])) value severity ∷ [];
      edges = [];
      changes =
          change obs "status" (concat ("status.conditions." ∷ type ∷ [])) "replace" "" value
            severity
          ∷ [];
    }

pub record NodeField : Type 0 where
  pub section : String
  pub name : String
  pub key : String

abbrev pub node_fields : List NodeField
node_fields =
    record { section = "capacity"; name = "cpu"; key = "node_capacity.cpu" }
    ∷ record { section = "capacity"; name = "memory"; key = "node_capacity.memory" }
    ∷ record { section = "capacity"; name = "pods"; key = "node_capacity.pods" }
    ∷ record {
      section = "capacity";
      name = "ephemeral-storage";
      key = "node_capacity.ephemeral_storage";
    }
    ∷ record { section = "allocatable"; name = "cpu"; key = "node_allocatable.cpu" }
    ∷ record { section = "allocatable"; name = "memory"; key = "node_allocatable.memory" }
    ∷ record { section = "allocatable"; name = "pods"; key = "node_allocatable.pods" }
    ∷ record {
      section = "allocatable";
      name = "ephemeral-storage";
      key = "node_allocatable.ephemeral_storage";
    }
    ∷ []

module _ (print : Value → String) (quantity : (field value : String) → Option String) where
  -- The type switch of nodeResourceValue, on what JSON decodes to.
  abbrev pub value_text : Option Value → Option String
  value_text (some (str s)) = if s == "" then none else some s
  value_text (some (int n)) = some (print (int n))
  value_text (some (negative n)) = some (print (negative n))
  value_text (some (float literal)) = some (print (float literal))
  value_text _ = none

  -- One round of the loop of appendNodeResourceFacts, with nodeResourceValue.
  unfoldable pub node_resource_fact : Observation → Fields → NodeField → Evidence
  node_resource_fact obs status spec =
      elim (value_text (get_opt spec.name (as_obj (get spec.section status)))) [
        | none ↦ no_evidence
        | some value ↦
            of_fact
              (record (fact obs spec.key value 10) { numeric_value = quantity spec.name value })
      ]

  -- NodeExtractor.Extract
  unfoldable pub node_extract : Observation → Evidence
  unfolding node_resource_fact node_condition
  node_extract obs = elim (as_obj (get_opt "status" obs.object)) [
    | none ↦ no_evidence
    | some status ↦
        merge_evidence (all_of (map (node_resource_fact obs status) node_fields))
          (elim (as_arr (get "conditions" status)) [
            | none ↦ no_evidence
            | some conditions ↦ each_map (node_condition obs) conditions
          ])
  ]

  abbrev pub node : Extractor
  node = record { kind = "Node"; extract = λ obs. ok (node_extract obs) }
