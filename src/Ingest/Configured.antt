-- ===== src/Ingest/Configured.antt =====
-- internal/ingest/filters.go and extractors.go: the chains and the registry that a configuration
-- describes.
pub mod Laws
pub mod Valid
pub mod App
pub mod Evidence
use kube_insight.Prelude.{
  String, Bool, true, false, not, ◌&&◌, ◌||◌, Option, none, some, List, [], ◌∷◌, ◌++◌, ◌==◌,
  is_some, is_empty, if◌then◌else◌,
}
use kube_insight.Prelude.Result.{Result, ok, err}
use kube_insight.Filter.{Outcome, Filter}
use kube_insight.Filter.Scope.{Scope, scoped, scope_empty}
use kube_insight.Extractor.{Extractor, Entry, Registry, new_registry}
use kube_insight.Ingest.Pipeline.{FilterChains}
use kube_insight.Processing.{
  Readers, Extractors, FilterOptions, find, new_built_in_filter, new_built_in_extractor,
  outcome_text,
}
use kube_insight.Config.Processing.{
  ProcessingConfig, ProcessingFilterConfig, ProcessingExtractorConfig, ResourceGuardConfig,
  processing_component_type, is_off,
}

abbrev pub scope_of : ResourceGuardConfig → Scope
scope_of guard = record {
  resources = guard.resources;
  kinds = guard.kinds;
  namespaces = guard.namespaces;
  names = guard.names;
}

-- The filter, in a scope where the guard has one.
unfoldable pub guarded : ResourceGuardConfig → Filter → Filter
unfolding scope_empty
guarded guard f = if scope_empty (scope_of guard) then f else scoped (scope_of guard) f

abbrev pub options_of : String → ProcessingFilterConfig → FilterOptions
unfolding processing_component_type
options_of name cfg = record {
  name = processing_component_type name cfg.type;
  remove_paths = cfg.remove_paths;
  keep_secret_keys = cfg.keep_secret_keys;
  script = cfg.script;
}

-- A filter in front of a chain that may have failed.
abbrev pub in_front : Filter → Result (List Filter) → Result (List Filter)
in_front f (ok fs) = ok (f ∷ fs)
in_front f (err e) = err e

module _ (r : Readers) where
  -- One round of the loop of filterChainFromProcessingNames, from the filter that was built on.
  unfoldable pub take_filter :
      ProcessingFilterConfig
      → Result (Filter × Outcome)
      → Result (List Filter)
      → Result (List Filter)
  unfolding guarded
  take_filter cfg (err e) rest = err e
  take_filter cfg (ok (f, expected)) rest =
      if not (cfg.action == "") && not (cfg.action == outcome_text expected)
      then err "action does not match built-in action"
      else in_front (guarded cfg.guard f) rest

  -- filterChainFromProcessingNames
  unfoldable pub filter_chain_from_names :
      List (String × ProcessingFilterConfig) → List String → Result (List Filter)
  unfolding take_filter find options_of
  filter_chain_from_names configs [] = ok []
  filter_chain_from_names configs (name ∷ names) =
      let rest = filter_chain_from_names configs names in
      elim (find name configs) [
        | none ↦ err "unknown filter"
        | some cfg ↦
            if is_off cfg.enabled
            then rest
            else take_filter cfg
                (new_built_in_filter r (processing_component_type name cfg.type)
                  (options_of name cfg))
                rest
      ]

  -- The loop of FilterChainsFromProcessing.
  unfoldable pub build_chains :
      List (String × ProcessingFilterConfig)
      → List (String × List String)
      → FilterChains
      → Result FilterChains
  unfolding filter_chain_from_names
  build_chains configs [] chains = ok chains
  build_chains configs ((name, names) ∷ rest) chains =
      elim (filter_chain_from_names configs names) [
        | err e ↦ err e
        | ok chain ↦ build_chains configs rest (
            if name == "default"
            then record chains { default = some chain }
            else record chains { by_name = chains.by_name ++ (name, chain) ∷ [] })
      ]

  abbrev pub with_none : Bool → FilterChains → FilterChains
  with_none known chains =
      if known then chains else record chains { by_name = chains.by_name ++ ("none", []) ∷ [] }

  -- FilterChainsFromProcessing
  unfoldable pub filter_chains_from_processing : ProcessingConfig → Result FilterChains
  unfolding build_chains find
  filter_chains_from_processing cfg =
      elim (build_chains cfg.filters cfg.filter_chains (record { default = none; by_name = [] })) [
        | err e ↦ err e
        | ok chains ↦ ok (with_none (is_some (find "none" cfg.filter_chains)) chains)
      ]

abbrev pub entry_of : String → ProcessingExtractorConfig → Extractor → Entry
entry_of name cfg found = record {
  name = name;
  extractor = found;
  resources = cfg.guard.resources;
  kinds = cfg.guard.kinds;
}

module _ (e : Extractors) where
  -- The loop of ExtractorRegistryFromProcessing.
  unfoldable pub build_entries : List (String × ProcessingExtractorConfig) → Result (List Entry)
  unfolding processing_component_type
  build_entries [] = ok []
  build_entries ((name, cfg) ∷ rest) =
      let later = build_entries rest in
      if is_off cfg.enabled
      then later
      else elim (new_built_in_extractor e (processing_component_type name cfg.type)) [
        | err x ↦ err x
        | ok found ↦ elim later [
          | err x ↦ err x
          | ok entries ↦ ok (entry_of name cfg found ∷ entries)
        ]
      ]

  -- ExtractorRegistryFromProcessing
  unfoldable pub extractor_registry_from_processing : ProcessingConfig → Result Registry
  unfolding build_entries
  extractor_registry_from_processing cfg = elim (build_entries cfg.extractors) [
    | err x ↦ err x
    | ok entries ↦ ok (new_registry cfg.extractor_sets entries)
  ]
