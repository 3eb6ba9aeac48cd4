-- ===== src/Extractor/Service.antt =====
-- internal/extractor/service.go
use kube_insight.Prelude.{
  String, not, ◌&&◌, Option, none, some, [], ◌∷◌, ◌==◌, if◌then◌else◌, length, is_empty,
}
use kube_insight.Prelude.Result.{ok}
use kube_insight.Core.{Observation}
use kube_insight.Json.{Fields, int, end, field, str, get, get_opt, as_obj, as_arr, str_or_empty}
use kube_insight.Extractor.{Evidence, no_evidence, Extractor, merge_evidence}
use kube_insight.Extractor.Objects.{
  Numbers, string_at, fact, change, of_fact, all_of, each_map, items_of, deletion,
}
use kube_insight.Extractor.EndpointSlice.{or_empty}

-- `detail`, where it has a field.
abbrev pub mode_detail : String → Option Fields
mode_detail mode = if not (mode == "") then some (field "ipMode" (str mode) end) else none

-- The fact and the change for one address of a load balancer.
unfoldable pub address_evidence : Observation → (key path mode value : String) → Evidence
address_evidence obs key path mode value =
    if not (value == "")
    then record {
      facts = record (fact obs key value 10) { detail = mode_detail mode } ∷ [];
      edges = [];
      changes = change obs "status" path "replace" "" value 10 ∷ [];
    }
    else no_evidence

unfoldable pub ingress_evidence : Observation → Fields → Evidence
unfolding address_evidence
ingress_evidence obs item =
    let mode = str_or_empty (get "ipMode" item) in
    merge_evidence
      (address_evidence obs "service.load_balancer.ingress_ip" "status.loadBalancer.ingress.ip" mode
        (str_or_empty (get "ip" item)))
      (address_evidence obs "service.load_balancer.ingress_hostname"
        "status.loadBalancer.ingress.hostname" mode (str_or_empty (get "hostname" item)))

-- A load balancer without an address, and a service of a type.
abbrev pub pending : Observation → Evidence
pending obs = record {
  facts = fact obs "service.load_balancer.pending" "true" 50 ∷ [];
  edges = [];
  changes = change obs "status" "status.loadBalancer.ingress" "replace" "" "pending" 50 ∷ [];
}

abbrev pub typed : Observation → String → Evidence
typed obs type = record {
  facts = fact obs "service.type" type 10 ∷ [];
  edges = [];
  changes = change obs "spec" "spec.type" "replace" "" type 10 ∷ [];
}

module _ (numbers : Numbers) where
  -- appendLoadBalancerEvidence
  unfoldable pub load_balancer_evidence : Observation → Evidence
  unfolding ingress_evidence
  load_balancer_evidence obs =
      let status = as_obj (get_opt "status" obs.object) in
      let ingress =
        items_of (as_arr (get_opt "ingress" (as_obj (get_opt "loadBalancer" status)))) in
      let count = numbers.text (int (length ingress)) in
      merge_evidence
        (of_fact (record (fact obs "service.load_balancer.ingress_count" count 10) {
          numeric_value = some count;
        }))
        (if is_empty ingress
          then pending obs
          else merge_evidence (of_fact (fact obs "service.load_balancer.pending" "false" 10))
              (each_map (ingress_evidence obs) ingress))

  -- ServiceExtractor.Extract
  unfoldable pub service_extract : Observation → Evidence
  unfolding load_balancer_evidence
  service_extract obs =
      let type = or_empty (string_at ("spec" ∷ "type" ∷ []) obs.object) in
      all_of (
        (if not (type == "") then typed obs type else no_evidence)
        ∷ (elim (string_at ("spec" ∷ "clusterIP" ∷ []) obs.object) [
          | none ↦ no_evidence
          | some address ↦
              if not (address == "") && not (address == "None")
              then of_fact (fact obs "service.cluster_ip" address 10)
              else no_evidence
        ])
        ∷ (if type == "LoadBalancer" then load_balancer_evidence obs else no_evidence)
        ∷ deletion obs "service.deleted"
        ∷ [])

  abbrev pub service : Extractor
  service = record { kind = "Service"; extract = λ obs. ok (service_extract obs) }
