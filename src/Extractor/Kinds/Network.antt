-- ===== src/Extractor/Kinds/Network.antt =====
-- The extractors of services and endpoint slices are owned.
use kube_insight.Prelude.{
  String, not, ◌&&◌, Option, none, some, [], ◌∷◌, ◌==◌, refl, Option-cases, inl, inr, if◌then◌else◌,
  is_empty,
}
use kube_insight.Core.{Observation}
use kube_insight.Json.{Fields, get, get_opt, as_obj, as_arr}
use kube_insight.Extractor.{no_evidence}
use kube_insight.Extractor.Objects.{Numbers, string_at, fact, change, edge, of_fact, items_of}
use kube_insight.Extractor.Owned.{
  Owned, merge_evidence-Owned, all_of-Owned, each_map-Owned, no_evidence-Owned, if-Owned,
  deletion-Owned,
}
use kube_insight.Extractor.EndpointSlice.{
  as_bool, or_empty, target_name, target_evidence, condition_evidence, endpoint_evidence,
  endpoint_slice_extract,
}
use kube_insight.Extractor.Service.{
  address_evidence, ingress_evidence, load_balancer_evidence, service_extract, pending, typed,
}

target_evidence-Owned :
    (obs : Observation) (service : String) (endpoint : Fields)
    → Owned obs (target_evidence obs service endpoint)
unfolding target_evidence change edge
target_evidence-Owned obs service endpoint =
    if-Owned obs (target_name service endpoint == "") no_evidence _ (no_evidence-Owned obs)
      (tt, ((refl, refl), tt), ((refl, refl), tt))

condition_evidence-Owned :
    (obs : Observation) (name : String) (conditions : Fields) (key : String)
    → Owned obs (condition_evidence obs name conditions key)
unfolding condition_evidence fact change
condition_evidence-Owned obs name conditions key =
    elim (Option-cases (as_bool (get key conditions))) [
      | inl absent ↦ rw (condition_evidence, absent) (no_evidence-Owned obs)
      | inr (value, found) ↦
          rw (condition_evidence, found) (((refl, refl), tt), tt, ((refl, refl), tt))
    ]

endpoint_evidence-Owned :
    (obs : Observation) (service : String) (endpoint : Fields)
    → Owned obs (endpoint_evidence obs service endpoint)
unfolding endpoint_evidence
endpoint_evidence-Owned obs service endpoint =
    let aimed = target_evidence-Owned obs service endpoint in
    elim (Option-cases (as_obj (get "conditions" endpoint))) [
      | inl absent ↦
          rw (endpoint_evidence, absent)
            (merge_evidence-Owned obs (target_evidence obs service endpoint) no_evidence aimed
              (no_evidence-Owned obs))
      | inr (conditions, found) ↦
          let one = condition_evidence-Owned obs (target_name service endpoint) conditions in
          rw (endpoint_evidence, found)
            (merge_evidence-Owned obs (target_evidence obs service endpoint) _ aimed
              (all_of-Owned obs _ (one "ready", (one "serving", (one "terminating", tt)))))
    ]

pub endpoint_slice_extract-Owned : (obs : Observation) → Owned obs (endpoint_slice_extract obs)
unfolding endpoint_slice_extract edge
endpoint_slice_extract-Owned obs =
    let service =
      or_empty (string_at ("metadata" ∷ "labels" ∷ "kubernetes.io/service-name" ∷ []) obs.object) in
    elim (Option-cases (as_arr (get_opt "endpoints" obs.object))) [
      | inl absent ↦ rw (endpoint_slice_extract, absent) (no_evidence-Owned obs)
      | inr (endpoints, found) ↦
          rw (endpoint_slice_extract, found)
            (merge_evidence-Owned obs _ _
              (if-Owned obs (not (service == "")) _ no_evidence (tt, ((refl, refl), tt), tt)
                (no_evidence-Owned obs))
              (each_map-Owned obs _ endpoints (endpoint_evidence-Owned obs service)))
    ]

address_evidence-Owned :
    (obs : Observation) (key path mode value : String)
    → Owned obs (address_evidence obs key path mode value)
unfolding address_evidence fact change
address_evidence-Owned obs key path mode value =
    if-Owned obs (not (value == "")) _ no_evidence (((refl, refl), tt), tt, ((refl, refl), tt))
      (no_evidence-Owned obs)

ingress_evidence-Owned : (obs : Observation) (item : Fields) → Owned obs (ingress_evidence obs item)
unfolding ingress_evidence
ingress_evidence-Owned obs item =
    merge_evidence-Owned obs _ _ (address_evidence-Owned obs _ _ _ _)
      (address_evidence-Owned obs _ _ _ _)

module _ (numbers : Numbers) where
  load_balancer-Owned : (obs : Observation) → Owned obs (load_balancer_evidence numbers obs)
  unfolding load_balancer_evidence fact change
  load_balancer-Owned obs =
      let status = as_obj (get_opt "status" obs.object) in
      let ingress =
        items_of (as_arr (get_opt "ingress" (as_obj (get_opt "loadBalancer" status)))) in
      merge_evidence-Owned obs _ _ (((refl, refl), tt), tt, tt)
        (if-Owned obs (is_empty ingress) (pending obs) _
          (((refl, refl), tt), tt, ((refl, refl), tt))
          (merge_evidence-Owned obs (of_fact (fact obs "service.load_balancer.pending" "false" 10))
            _ (((refl, refl), tt), tt, tt)
            (each_map-Owned obs _ ingress (ingress_evidence-Owned obs))))

  address-Owned :
      (obs : Observation) (found : Option String)
      → Owned obs (elim found [
        | none ↦ no_evidence
        | some address ↦
            if not (address == "") && not (address == "None")
            then of_fact (fact obs "service.cluster_ip" address 10)
            else no_evidence
      ])
  unfolding fact
  address-Owned obs none = no_evidence-Owned obs
  address-Owned obs (some address) =
      if-Owned obs (not (address == "") && not (address == "None"))
        (of_fact (fact obs "service.cluster_ip" address 10)) no_evidence
        (((refl, refl), tt), tt, tt) (no_evidence-Owned obs)

  pub service_extract-Owned : (obs : Observation) → Owned obs (service_extract numbers obs)
  unfolding service_extract fact change
  service_extract-Owned obs =
      let type = or_empty (string_at ("spec" ∷ "type" ∷ []) obs.object) in
      all_of-Owned obs _ (
        if-Owned obs (not (type == "")) (typed obs type) no_evidence
            (((refl, refl), tt), tt, ((refl, refl), tt)) (no_evidence-Owned obs),
        (
          address-Owned obs (string_at ("spec" ∷ "clusterIP" ∷ []) obs.object),
          (
            if-Owned obs _ _ no_evidence (load_balancer-Owned obs) (no_evidence-Owned obs),
            (deletion-Owned obs "service.deleted", tt),
          ),
        ),
      )
