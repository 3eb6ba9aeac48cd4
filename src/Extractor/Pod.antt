-- ===== src/Extractor/Pod.antt =====
-- internal/extractor/pod.go
use kube_insight.Prelude.{
  String, ℕ, not, Option, none, some, List, [], ◌∷◌, ◌==◌, if◌then◌else◌, contains,
}
use kube_insight.Prelude.Text.{concat}
use kube_insight.Prelude.Result.{ok}
use kube_insight.Core.{Observation}
use kube_insight.Json.{Value, Fields, get, get_opt, as_obj, as_arr, str_or_empty}
use kube_insight.Extractor.{Evidence, no_evidence, Extractor}
use kube_insight.Extractor.Objects.{
  Numbers, string_at, as_number, fact, change, edge, of_fact, all_of, each_map, items_of, deletion,
}

-- The loop of podReady: the first condition that is a map of type Ready decides.
unfoldable pub ready_of : List Value → Option String
ready_of [] = none
ready_of (v ∷ vs) = elim (as_obj (some v)) [
  | none ↦ ready_of vs
  | some condition ↦
      let later = ready_of vs in
      let value = str_or_empty (get "status" condition) in
      if not (str_or_empty (get "type" condition) == "Ready")
      then later
      else if value == ""
      then none
      else some value
]

-- podReady
unfoldable pub pod_ready : Option Fields → Option String
unfolding ready_of
pod_ready object =
    ready_of (items_of (as_arr (get_opt "conditions" (as_obj (get_opt "status" object)))))

-- containerReason
unfoldable pub container_reason : Fields → String → String
container_reason container key =
    let state = as_obj (get key container) in
    let waiting = str_or_empty (get_opt "reason" (as_obj (get_opt "waiting" state))) in
    let terminated = str_or_empty (get_opt "reason" (as_obj (get_opt "terminated" state))) in
    if not (waiting == "") then waiting else terminated

-- podReasonSeverity
unfoldable pub pod_reason_severity : String → ℕ
pod_reason_severity reason =
    if contains ("OOMKilled" ∷ "CrashLoopBackOff" ∷ "Error" ∷ "Evicted" ∷ []) reason then 90 else 50

-- The fact and the change for a reason.
unfoldable pub reason_evidence : Observation → (name key state reason : String) → Evidence
unfolding pod_reason_severity
reason_evidence obs name key state reason =
    if not (reason == "")
    then record {
      facts = fact obs key reason (pod_reason_severity reason) ∷ [];
      edges = [];
      changes =
          change obs "status"
            (concat ("status.containerStatuses." ∷ name ∷ "." ∷ state ∷ ".reason" ∷ [])) "replace"
            "" reason (pod_reason_severity reason)
          ∷ [];
    }
    else no_evidence

module _ (numbers : Numbers) where
  unfoldable pub restart_evidence : Observation → String → Option Value → Evidence
  restart_evidence obs name none = no_evidence
  restart_evidence obs name (some count) =
      let value = numbers.text count in
      record {
        facts =
            record (fact obs "pod_status.restart_count" value 30) { numeric_value = some value }
            ∷ [];
        edges = [];
        changes =
            if numbers.positive count
            then change obs "status"
                (concat ("status.containerStatuses." ∷ name ∷ ".restartCount" ∷ [])) "replace" ""
                value 50
              ∷ []
            else [];
      }

  -- One round of the loop of appendContainerStatusEvidence.
  unfoldable pub container_evidence : Observation → Fields → Evidence
  unfolding restart_evidence reason_evidence container_reason
  container_evidence obs container =
      let name = str_or_empty (get "name" container) in
      all_of (
        restart_evidence obs name (as_number (get "restartCount" container))
        ∷ reason_evidence obs name "pod_status.reason" "state" (container_reason container "state")
        ∷ reason_evidence obs name "pod_status.last_reason" "lastState"
            (container_reason container "lastState")
        ∷ [])

  -- appendContainerStatusEvidence
  unfoldable pub container_status_evidence : Observation → Evidence
  unfolding container_evidence
  container_status_evidence obs =
      let status = as_obj (get_opt "status" obs.object) in
      all_of (
        each_map (container_evidence obs)
          (items_of (as_arr (get_opt "initContainerStatuses" status)))
        ∷ each_map (container_evidence obs) (items_of (as_arr (get_opt "containerStatuses" status)))
        ∷ each_map (container_evidence obs)
            (items_of (as_arr (get_opt "ephemeralContainerStatuses" status)))
        ∷ [])

  -- PodExtractor.Extract
  unfoldable pub pod_extract : Observation → Evidence
  unfolding container_status_evidence pod_ready
  pod_extract obs = all_of (
      (elim (string_at ("status" ∷ "phase" ∷ []) obs.object) [
        | none ↦ no_evidence
        | some phase ↦ of_fact (fact obs "pod_status.phase" phase 10)
      ])
      ∷ (elim (pod_ready obs.object) [
        | none ↦ no_evidence
        | some ready ↦
            let severity = if ready == "False" then 50 else 20 in
            record {
              facts = fact obs "pod_status.ready" ready severity ∷ [];
              edges = [];
              changes =
                  change obs "status" "status.conditions.Ready" "replace" "" ready severity ∷ [];
            }
      ])
      ∷ (elim (string_at ("spec" ∷ "nodeName" ∷ []) obs.object) [
        | none ↦ no_evidence
        | some node ↦
            if not (node == "")
            then record {
              facts = fact obs "pod_placement.node_assigned" node 20 ∷ [];
              edges = edge obs "pod_on_node" (concat ("nodes/" ∷ node ∷ [])) ∷ [];
              changes = [];
            }
            else no_evidence
      ])
      ∷ container_status_evidence obs
      ∷ deletion obs "pod_placement.deleted"
      ∷ [])

  abbrev pub pod : Extractor
  pod = record { kind = "Pod"; extract = λ obs. ok (pod_extract obs) }
