-- ===== src/Extractor/Kinds.antt =====
-- The extractors of single kinds are owned.
pub mod Network
pub mod Nodes
use kube_insight.Prelude.{
  String, ℕ, Bool, true, false, not, ◌&&◌, ◌||◌, Option, none, some, List, [], ◌∷◌, ◌==◌, ◌≡◌, refl,
  arith, All, Bool-cases, Option-cases, inl, inr, if◌then◌else◌, map,
}
use kube_insight.Prelude.Text.{concat, trim_space}
use kube_insight.Core.{Observation}
use kube_insight.Json.{Value, Fields, get_opt, as_obj}
use kube_insight.Kubeapi.{Resolver}
use kube_insight.Extractor.{Evidence, no_evidence, merge_evidence}
use kube_insight.Extractor.Objects.{
  Numbers, object_id, string_at, numeric_at, fact, change, edge, all_of, each_map, deletion,
  of_fact,
}
use kube_insight.Extractor.Owned.{
  Owned, merge_evidence-Owned, all_of-Owned, each_map-Owned, no_evidence-Owned, if-Owned,
  deletion-Owned,
}
use kube_insight.Extractor.Event.{
  event_extract, text_fact, said, message_evidence, count_evidence, reference_edge, edge_to_ref,
  object_ref_from_map, target, TargetObjectRef,
}
use kube_insight.Extractor.Pod.{
  pod_extract, pod_ready, container_status_evidence, container_evidence, restart_evidence,
  reason_evidence, container_reason,
}

text_fact-Owned :
    (obs : Observation) (path : List String) (key : String) (severity : ℕ)
    → Owned obs (text_fact obs path key severity)
unfolding text_fact fact
text_fact-Owned obs path key severity = elim (Option-cases (string_at path obs.object)) [
  | inl absent ↦ rw (text_fact, absent) (no_evidence-Owned obs)
  | inr (value, found) ↦ rw (text_fact, found) (((refl, refl), tt), tt, tt)
]

reason_evidence-Owned :
    (obs : Observation) (name key state reason : String)
    → Owned obs (reason_evidence obs name key state reason)
unfolding reason_evidence fact change
reason_evidence-Owned obs name key state reason =
    if-Owned obs (not (reason == "")) _ no_evidence (((refl, refl), tt), tt, ((refl, refl), tt))
      (no_evidence-Owned obs)

restart_evidence-Owned :
    (numbers : Numbers) (obs : Observation) (name : String) (count : Option Value)
    → Owned obs (restart_evidence numbers obs name count)
unfolding restart_evidence fact change
restart_evidence-Owned numbers obs name none = no_evidence-Owned obs
restart_evidence-Owned numbers obs name (some count) = elim (Bool-cases (numbers.positive count)) [
  | inl more ↦ rw more (((refl, refl), tt), tt, ((refl, refl), tt))
  | inr never ↦ rw never (((refl, refl), tt), tt, tt)
]

module _ (numbers : Numbers) where
  container_evidence-Owned :
      (obs : Observation) (container : Fields)
      → Owned obs (container_evidence numbers obs container)
  unfolding container_evidence
  container_evidence-Owned obs container = all_of-Owned obs _ (
    restart_evidence-Owned numbers obs _ _,
    (reason_evidence-Owned obs _ _ "state" _, (reason_evidence-Owned obs _ _ "lastState" _, tt)),
  )

  container_status-Owned : (obs : Observation) → Owned obs (container_status_evidence numbers obs)
  unfolding container_status_evidence
  container_status-Owned obs =
      let each = container_evidence-Owned obs in
      all_of-Owned obs _ (
        each_map-Owned obs _ _ each,
        (each_map-Owned obs _ _ each, (each_map-Owned obs _ _ each, tt)),
      )

  phase-Owned :
      (obs : Observation) (phase : Option String)
      → Owned obs (elim phase [
        | none ↦ no_evidence
        | some value ↦ of_fact (fact obs "pod_status.phase" value 10)
      ])
  unfolding fact
  phase-Owned obs none = no_evidence-Owned obs
  phase-Owned obs (some value) = (((refl, refl), tt), tt, tt)

  ready-Owned :
      (obs : Observation) (found : Option String)
      → Owned obs (elim found [
        | none ↦ no_evidence
        | some ready ↦
            let severity = if ready == "False" then 50 else 20 in
            record {
              facts = fact obs "pod_status.ready" ready severity ∷ [];
              edges = [];
              changes =
                  change obs "status" "status.conditions.Ready" "replace" "" ready severity ∷ [];
            }
      ])
  unfolding fact change
  ready-Owned obs none = no_evidence-Owned obs
  ready-Owned obs (some value) = (((refl, refl), tt), tt, ((refl, refl), tt))

  placed-Owned :
      (obs : Observation) (found : Option String)
      → Owned obs (elim found [
        | none ↦ no_evidence
        | some node ↦
            if not (node == "")
            then record {
              facts = fact obs "pod_placement.node_assigned" node 20 ∷ [];
              edges = edge obs "pod_on_node" (concat ("nodes/" ∷ node ∷ [])) ∷ [];
              changes = [];
            }
            else no_evidence
      ])
  unfolding fact edge
  placed-Owned obs none = no_evidence-Owned obs
  placed-Owned obs (some node) =
      if-Owned obs (not (node == "")) _ no_evidence (((refl, refl), tt), ((refl, refl), tt), tt)
        (no_evidence-Owned obs)

  pub pod_extract-Owned : (obs : Observation) → Owned obs (pod_extract numbers obs)
  unfolding pod_extract
  pod_extract-Owned obs = all_of-Owned obs _ (
    phase-Owned obs (string_at ("status" ∷ "phase" ∷ []) obs.object),
    (
      ready-Owned obs (pod_ready obs.object),
      (
        placed-Owned obs (string_at ("spec" ∷ "nodeName" ∷ []) obs.object),
        (container_status-Owned obs, (deletion-Owned obs "pod_placement.deleted", tt)),
      ),
    ),
  )

edge_to_ref-Owned :
    (r : Resolver) (obs : Observation) (type : String) (t : TargetObjectRef)
    → Owned obs (edge_to_ref r obs type t)
unfolding edge_to_ref edge
edge_to_ref-Owned r obs type t =
    if-Owned obs (target r t == "") no_evidence _ (no_evidence-Owned obs)
      (tt, ((refl, refl), tt), tt)

reference_edge-Owned :
    (r : Resolver) (obs : Observation) (key type : String)
    → Owned obs (reference_edge r obs key type)
unfolding reference_edge
reference_edge-Owned r obs key type = elim (Option-cases (as_obj (get_opt key obs.object))) [
  | inl absent ↦ rw (reference_edge, absent) (no_evidence-Owned obs)
  | inr (m, found) ↦ elim (Option-cases (object_ref_from_map r obs.ref.namespace m)) [
    | inl broken ↦ rw (reference_edge, found, broken) (no_evidence-Owned obs)
    | inr (t, made) ↦ rw (reference_edge, found, made) (edge_to_ref-Owned r obs type t)
  ]
]

module _ (numbers : Numbers) (fingerprint : String → String) (r : Resolver) where
  message_evidence-Owned :
      (obs : Observation) (message : String)
      → Owned obs (message_evidence numbers fingerprint r obs message)
  unfolding message_evidence fact
  message_evidence-Owned obs message =
      if-Owned obs (trim_space message == "") no_evidence _ (no_evidence-Owned obs)
        (((refl, refl), ((refl, refl), tt)), tt, tt)

  said-Owned : (obs : Observation) → Owned obs (said numbers fingerprint r obs)
  unfolding said
  said-Owned obs = elim (Option-cases (string_at ("message" ∷ []) obs.object)) [
    | inr (message, found) ↦ rw (said, found) (message_evidence-Owned obs message)
    | inl absent ↦ elim (Option-cases (string_at ("note" ∷ []) obs.object)) [
      | inl silent ↦ rw (said, absent, silent) (no_evidence-Owned obs)
      | inr (note, found) ↦ rw (said, absent, found) (message_evidence-Owned obs note)
    ]
  ]

  count_evidence-Owned :
      (obs : Observation) (at : List String) (key path : String)
      → Owned obs (count_evidence numbers fingerprint r obs at key path)
  unfolding count_evidence fact change
  count_evidence-Owned obs at key path = elim (Option-cases (numeric_at at obs.object)) [
    | inl absent ↦ rw (count_evidence, absent) (no_evidence-Owned obs)
    | inr (count, found) ↦ rw (count_evidence, found) (((refl, refl), tt), tt, ((refl, refl), tt))
  ]

  pub event_extract-Owned :
      (obs : Observation) → Owned obs (event_extract numbers fingerprint r obs)
  unfolding event_extract
  event_extract-Owned obs =
      let text = text_fact-Owned obs in
      let count = count_evidence-Owned obs in
      let edge = reference_edge-Owned r obs in
      all_of-Owned obs _ (
        text _ _ _,
        (
          text _ _ _,
          (
            said-Owned obs,
            (
              text _ _ _,
              (
                text _ _ _,
                (
                  text _ _ _,
                  (
                    text _ _ _,
                    (
                      text _ _ _,
                      (
                        text _ _ _,
                        (count _ _ _, (count _ _ _, (edge _ _, (edge _ _, (edge _ _, tt))))),
                      ),
                    ),
                  ),
                ),
              ),
            ),
          ),
        ),
      )
