-- ===== src/Extractor/Event.antt =====
-- internal/extractor/event.go, and the references of extractor.go and reference.go that it follows. The
-- fingerprint of a text is a parameter. A reference of an event never says its resource, so that the
-- field is left out, and ResolveTarget does not fail for it.
use kube_insight.Prelude.{
  String, ℕ, zero, suc, ◌&&◌, ◌||◌, Option, none, some, List, [], ◌∷◌, ◌==◌, if◌then◌else◌,
}
use kube_insight.Prelude.Text.{trim_space}
use kube_insight.Prelude.Result.{ok}
use kube_insight.Core.{Observation}
use kube_insight.Json.{Fields, get, get_opt, as_obj, str_or_empty}
use kube_insight.Kubeapi.{Resolver, split_api_version}
use kube_insight.Kubeapi.Target.{resolve_target, is_namespaced_kind, logical_path}
use kube_insight.Extractor.{Evidence, no_evidence, Extractor}
use kube_insight.Extractor.Objects.{
  Numbers, string_at, numeric_at, fact, change, edge, of_fact, of_edge, all_of,
}

pub record TargetObjectRef : Type 0 where
  pub api_version : String
  pub group : String
  pub kind : String
  pub namespace : String
  pub name : String

-- objectRefFromMap
unfoldable pub object_ref_from_map : Resolver → String → Fields → Option TargetObjectRef
object_ref_from_map r default_namespace ref =
    let name = str_or_empty (get "name" ref) in
    let kind = str_or_empty (get "kind" ref) in
    let namespace = str_or_empty (get "namespace" ref) in
    let group = str_or_empty (get "group" ref) in
    if name == "" || kind == ""
    then none
    else some (record {
      api_version = str_or_empty (get "apiVersion" ref);
      group = if group == "" then str_or_empty (get "apiGroup" ref) else group;
      kind = kind;
      namespace =
          if namespace == "" && is_namespaced_kind r kind then default_namespace else namespace;
      name = name;
    })

-- targetObjectRef.Target
unfoldable pub target : Resolver → TargetObjectRef → String
target r t =
    let parts = if t.api_version == "" then ("", "") else split_api_version t.api_version in
    let group = if t.group == "" then parts.0 else t.group in
    if t.name == ""
    then ""
    else elim (resolve_target r group parts.1 t.kind "" t.namespace t.name) [
      | none ↦ ""
      | some (ref, known) ↦ if ref.resource == "" then "" else logical_path ref
    ]

-- edgeToRef
unfoldable pub edge_to_ref : Resolver → Observation → String → TargetObjectRef → Evidence
unfolding target
edge_to_ref r obs type t =
    if target r t == "" then no_evidence else of_edge (edge obs type (target r t))

-- objectRefAt, and the edge that follows from it.
unfoldable pub reference_edge : Resolver → Observation → (key type : String) → Evidence
unfolding object_ref_from_map edge_to_ref
reference_edge r obs key type = elim (as_obj (get_opt key obs.object)) [
  | none ↦ no_evidence
  | some m ↦ elim (object_ref_from_map r obs.ref.namespace m) [
    | none ↦ no_evidence
    | some t ↦ edge_to_ref r obs type t
  ]
]

-- truncateRunes
unfoldable pub truncate_runes : ℕ → String → String
truncate_runes n String.[] = ""
truncate_runes zero (String.◌∷◌ c s) = ""
truncate_runes (suc n) (String.◌∷◌ c s) = String.◌∷◌ c (truncate_runes n s)

-- A fact of the text at a path, where there is one.
unfoldable pub text_fact : Observation → List String → String → ℕ → Evidence
text_fact obs path key severity = elim (string_at path obs.object) [
  | none ↦ no_evidence
  | some value ↦ of_fact (fact obs key value severity)
]

module _ (numbers : Numbers) (fingerprint : String → String) (r : Resolver) where
  -- appendEventMessageFacts
  unfoldable pub message_evidence : Observation → String → Evidence
  unfolding truncate_runes trim_space
  message_evidence obs message =
      let trimmed = trim_space message in
      if trimmed == "" then no_evidence else record no_evidence {
        facts =
            fact obs "k8s_event.message_fingerprint" (fingerprint trimmed) 20
            ∷ fact obs "k8s_event.message_preview" (truncate_runes 512 trimmed) 20
            ∷ [];
      }

  -- The message, or the note where there is no message.
  unfoldable pub said : Observation → Evidence
  unfolding message_evidence
  said obs = elim (string_at ("message" ∷ []) obs.object) [
    | some message ↦ message_evidence obs message
    | none ↦ elim (string_at ("note" ∷ []) obs.object) [
      | some note ↦ message_evidence obs note
      | none ↦ no_evidence
    ]
  ]

  unfoldable pub count_evidence : Observation → List String → (key path : String) → Evidence
  count_evidence obs at key path = elim (numeric_at at obs.object) [
    | none ↦ no_evidence
    | some count ↦
        let value = numbers.text count in
        record {
          facts = record (fact obs key value 20) { numeric_value = some value } ∷ [];
          edges = [];
          changes = change obs "event_rollup" path "replace" "" value 20 ∷ [];
        }
  ]

  -- EventExtractor.Extract
  unfoldable pub event_extract : Observation → Evidence
  unfolding text_fact said count_evidence reference_edge
  event_extract obs = all_of (
      text_fact obs ("reason" ∷ []) "k8s_event.reason" 40
      ∷ text_fact obs ("type" ∷ []) "k8s_event.type" 20
      ∷ said obs
      ∷ text_fact obs ("action" ∷ []) "k8s_event.action" 20
      ∷ text_fact obs ("reportingController" ∷ []) "k8s_event.reporting_controller" 20
      ∷ text_fact obs ("reportingInstance" ∷ []) "k8s_event.reporting_instance" 20
      ∷ text_fact obs ("reportingComponent" ∷ []) "k8s_event.reporting_controller" 20
      ∷ text_fact obs ("source" ∷ "component" ∷ []) "k8s_event.reporting_controller" 20
      ∷ text_fact obs ("source" ∷ "host" ∷ []) "k8s_event.reporting_instance" 20
      ∷ count_evidence obs ("count" ∷ []) "k8s_event.count" "count"
      ∷ count_evidence obs ("series" ∷ "count" ∷ []) "k8s_event.series_count" "series.count"
      ∷ reference_edge r obs "involvedObject" "event_involves_object"
      ∷ reference_edge r obs "regarding" "event_regarding_object"
      ∷ reference_edge r obs "related" "event_related_object"
      ∷ [])

  abbrev pub event : Extractor
  event = record { kind = "Event"; extract = λ obs. ok (event_extract obs) }
