-- ===== src/Extractor/EndpointSlice.antt =====
-- internal/extractor/endpointslice.go
use kube_insight.Prelude.{String, Bool, not, ◌&&◌, Option, none, some, [], ◌∷◌, ◌==◌, if◌then◌else◌}
use kube_insight.Prelude.Text.{concat}
use kube_insight.Prelude.Result.{ok}
use kube_insight.Core.{Observation}
use kube_insight.Json.{Value, Fields, bool, get, get_opt, as_obj, as_arr, str_or_empty}
use kube_insight.Extractor.{Evidence, no_evidence, Extractor, merge_evidence}
use kube_insight.Extractor.Objects.{
  string_at, fact, change, edge, of_edge, all_of, each_map, bool_text,
}

-- `value, ok := conditions[key].(bool)`
abbrev pub as_bool : Option Value → Option Bool
as_bool (some (bool b)) = some b
as_bool _ = none

abbrev pub or_empty : Option String → String
or_empty none = ""
or_empty (some s) = s

-- The name of the pod that an endpoint of a service is for.
unfoldable pub target_name : String → Fields → String
target_name service endpoint = elim (as_obj (get "targetRef" endpoint)) [
  | none ↦ ""
  | some ref ↦
      if not (service == "") && str_or_empty (get "kind" ref) == "Pod"
      then str_or_empty (get "name" ref)
      else ""
]

unfoldable pub target_namespace : Observation → Fields → String
target_namespace obs endpoint =
    let namespace = str_or_empty (get_opt "namespace" (as_obj (get "targetRef" endpoint))) in
    if namespace == "" then obs.ref.namespace else namespace

-- The edge and the change for the target of an endpoint.
unfoldable pub target_evidence : Observation → String → Fields → Evidence
unfolding target_name target_namespace
target_evidence obs service endpoint =
    let name = target_name service endpoint in
    if name == "" then no_evidence else record {
      facts = [];
      edges =
          edge obs "endpointslice_targets_pod"
            (concat ("pods/" ∷ target_namespace obs endpoint ∷ "/" ∷ name ∷ []))
          ∷ [];
      changes =
          change obs "topology" "endpoints.targetRef" "add" "" (concat ("Pod/" ∷ name ∷ [])) 30
          ∷ [];
    }

-- One condition of an endpoint.
unfoldable pub condition_evidence : Observation → String → Fields → String → Evidence
condition_evidence obs name conditions key = elim (as_bool (get key conditions)) [
  | none ↦ no_evidence
  | some value ↦
      let path =
        if not (name == "")
        then concat ("endpoints." ∷ name ∷ ".conditions." ∷ key ∷ [])
        else concat ("endpoints.conditions." ∷ key ∷ []) in
      record {
        facts = fact obs (concat ("endpoint." ∷ key ∷ [])) (bool_text value) 20 ∷ [];
        edges = [];
        changes = change obs "status" path "replace" "" (bool_text value) 20 ∷ [];
      }
]

unfoldable pub endpoint_evidence : Observation → String → Fields → Evidence
unfolding target_evidence condition_evidence
endpoint_evidence obs service endpoint =
    let name = target_name service endpoint in
    merge_evidence (target_evidence obs service endpoint)
      (elim (as_obj (get "conditions" endpoint)) [
        | none ↦ no_evidence
        | some conditions ↦ all_of (
            condition_evidence obs name conditions "ready"
            ∷ condition_evidence obs name conditions "serving"
            ∷ condition_evidence obs name conditions "terminating"
            ∷ [])
      ])

-- EndpointSliceExtractor.Extract
unfoldable pub endpoint_slice_extract : Observation → Evidence
unfolding endpoint_evidence
endpoint_slice_extract obs =
    let service =
      or_empty (string_at ("metadata" ∷ "labels" ∷ "kubernetes.io/service-name" ∷ []) obs.object) in
    elim (as_arr (get_opt "endpoints" obs.object)) [
      | none ↦ no_evidence
      | some endpoints ↦
          merge_evidence
            (if not (service == "")
              then of_edge (
                  edge obs "endpointslice_for_service"
                    (concat ("services/" ∷ obs.ref.namespace ∷ "/" ∷ service ∷ [])))
              else no_evidence)
            (each_map (endpoint_evidence obs service) endpoints)
    ]

abbrev pub endpoint_slice : Extractor
endpoint_slice = record { kind = "EndpointSlice"; extract = λ obs. ok (endpoint_slice_extract obs) }
