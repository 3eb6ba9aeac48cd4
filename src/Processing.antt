-- ===== src/Processing.antt =====
-- internal/processing/registry.go: the filters and extractors that a configuration can name. The
-- extractors by kind, and the readers of JSON and YAML that two filters need, are parameters. A map is
-- an association list in the order of the source.
pub mod Outcomes
pub mod Filters
pub mod Laws
use kube_insight.Prelude.{
  String, Bool, true, false, not, Option, none, some, List, [], ◌∷◌, ◌==◌, if◌then◌else◌, is_empty,
  is_some, map,
}
use kube_insight.Prelude.Result.{Result, ok, err}
use kube_insight.Filter.{
  Outcome, keep_modified, discard_resource, Filter, lease_skip, static_decision,
}
use kube_insight.Filter.Objects.{
  secret_redaction, managed_fields, resource_version, leader_election,
}
use kube_insight.Filter.Conditions.{condition_timestamps, condition_set}
use kube_insight.Filter.Paths.{path_remove}
use kube_insight.Filter.Heartbeat.{Heartbeat, gke_webhook, sort_texts}
use kube_insight.Filter.Autoscaler.{Node, cluster_autoscaler}
use kube_insight.Extractor.{Extractor}

pub record FilterOptions : Type 0 where
  pub name : String
  pub remove_paths : List String
  pub keep_secret_keys : Bool
  pub script : String

-- builtInFilterDefinition: the action, which the source keeps as a text, is the outcome.
pub record FilterDefinition : Type 0 where
  pub action : Outcome
  pub build : FilterOptions → Filter

-- `string(outcome)`
abbrev pub outcome_text : Outcome → String
outcome_text Outcome.keep = "keep"
outcome_text Outcome.keep_modified = "keep_modified"
outcome_text Outcome.discard_change = "discard_change"
outcome_text Outcome.discard_resource = "discard_resource"

-- A read of a map.
unfoldable pub find {ℓ} : {A : Type ℓ} → String → List (String × A) → Option A
find key [] = none
find key ((k, v) ∷ m) = if k == key then some v else find key m

-- pathRemoveFilter
abbrev pub path_remove_filter : FilterOptions → String → Filter
path_remove_filter options reason = path_remove options.name reason options.remove_paths

-- The filter for configured paths, or the one without.
abbrev pub configured_paths : String → Filter → FilterOptions → Filter
configured_paths reason without options =
    if not (is_empty options.remove_paths) then path_remove_filter options reason else without

abbrev pub report_skip : Filter
report_skip = static_decision "report_skip_filter" (some discard_resource) "report_skipped"

abbrev pub modifying : (FilterOptions → Filter) → FilterDefinition
modifying build = record { action = keep_modified; build = build }

abbrev pub discarding : Filter → FilterDefinition
discarding f = record { action = discard_resource; build = λ options. f }

-- The readers of a heartbeat and of YAML, and the printer of YAML.
pub record Readers : Type 0 where
  pub read : String → Option Heartbeat
  pub parse : String → Option Node
  pub print : Node → Option String

module _ (r : Readers) where
  -- builtInFilters
  abbrev pub built_in_filters : List (String × FilterDefinition)
  built_in_filters =
      ("secret_metadata_only", modifying (λ options. secret_redaction))
      ∷ ("secret_redaction_filter", modifying (λ options. secret_redaction))
      ∷ ("managed_fields", modifying (configured_paths "managed_fields_removed" managed_fields))
      ∷ (
        "metadata_normalization_filter",
        modifying (configured_paths "managed_fields_removed" managed_fields),
      )
      ∷ (
        "resource_version",
        modifying (configured_paths "resource_version_removed" resource_version),
      )
      ∷ (
        "resource_version_normalization_filter",
        modifying (configured_paths "resource_version_removed" resource_version),
      )
      ∷ (
        "status_condition_timestamps",
        modifying (configured_paths "condition_timestamps_removed" condition_timestamps),
      )
      ∷ (
        "status_condition_timestamp_normalization_filter",
        modifying (configured_paths "condition_timestamps_removed" condition_timestamps),
      )
      ∷ ("status_condition_set", modifying (λ options. condition_set))
      ∷ ("status_condition_set_normalization_filter", modifying (λ options. condition_set))
      ∷ (
        "metadata_generation",
        modifying (λ options. path_remove_filter options "metadata_generation_removed"),
      )
      ∷ (
        "metadata_generation_normalization_filter",
        modifying (λ options. path_remove_filter options "metadata_generation_removed"),
      )
      ∷ (
        "leader_election_configmap",
        modifying (configured_paths "leader_annotation_removed" leader_election),
      )
      ∷ (
        "leader_election_configmap_normalization_filter",
        modifying (configured_paths "leader_annotation_removed" leader_election),
      )
      ∷ ("event_series", modifying (λ options. path_remove_filter options "event_series_removed"))
      ∷ (
        "event_series_normalization_filter",
        modifying (λ options. path_remove_filter options "event_series_removed"),
      )
      ∷ ("cluster_autoscaler_status", modifying (λ options. cluster_autoscaler r.parse r.print))
      ∷ (
        "cluster_autoscaler_status_normalization_filter",
        modifying (λ options. cluster_autoscaler r.parse r.print),
      )
      ∷ ("gke_webhook_heartbeat", modifying (λ options. gke_webhook r.read))
      ∷ ("gke_webhook_heartbeat_normalization_filter", modifying (λ options. gke_webhook r.read))
      ∷ ("lease_skip", discarding lease_skip)
      ∷ ("lease_skip_filter", discarding lease_skip)
      ∷ ("report_skip", discarding report_skip)
      ∷ ("report_skip_filter", discarding report_skip)
      ∷ []

  -- NewBuiltInFilter: the filter, and its action.
  unfoldable pub new_built_in_filter : String → FilterOptions → Result (Filter × Outcome)
  unfolding find
  new_built_in_filter name options = elim (find name built_in_filters) [
    | none ↦ err "unsupported built-in filter"
    | some def ↦
        let named = if options.name == "" then record options { name = name } else options in
        ok (def.build named, def.action)
  ]

  -- BuiltInFilterAction
  unfoldable pub built_in_filter_action : String → Option Outcome
  unfolding find
  built_in_filter_action name = elim (find name built_in_filters) [
    | none ↦ none
    | some def ↦ some def.action
  ]

  -- BuiltInFilterNames
  unfoldable pub built_in_filter_names : List String
  unfolding sort_texts
  built_in_filter_names = sort_texts (map (λ (f : String × FilterDefinition). f.0) built_in_filters)

  -- BuiltInFilterCatalog: each name with its action.
  unfoldable pub built_in_filter_catalog : List (String × Option Outcome)
  unfolding built_in_filter_names
  built_in_filter_catalog = map (λ name. (name, built_in_filter_action name)) built_in_filter_names

-- The extractors of internal/extractor, by kind.
pub record Extractors : Type 0 where
  pub reference : Extractor
  pub pod : Extractor
  pub node : Extractor
  pub event : Extractor
  pub service : Extractor
  pub endpoint_slice : Extractor

-- builtInExtractors
abbrev pub built_in_extractors : Extractors → List (String × Extractor)
built_in_extractors e =
    ("reference", e.reference)
    ∷ ("pod", e.pod)
    ∷ ("node", e.node)
    ∷ ("event", e.event)
    ∷ ("service", e.service)
    ∷ ("endpointslice", e.endpoint_slice)
    ∷ []

-- NewBuiltInExtractor
unfoldable pub new_built_in_extractor : Extractors → String → Result Extractor
unfolding find
new_built_in_extractor e name = elim (find name (built_in_extractors e)) [
  | none ↦ err "unsupported built-in extractor"
  | some found ↦ ok found
]

-- IsBuiltInExtractor
unfoldable pub is_built_in_extractor : Extractors → String → Bool
unfolding find
is_built_in_extractor e name = is_some (find name (built_in_extractors e))

-- BuiltInExtractorNames, and the names of BuiltInExtractorCatalog
unfoldable pub built_in_extractor_names : Extractors → List String
unfolding sort_texts
built_in_extractor_names e =
    sort_texts (map (λ (x : String × Extractor). x.0) (built_in_extractors e))
