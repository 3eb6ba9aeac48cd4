-- ===== src/Config/Processing.antt =====
-- internal/config: the filters, chains, extractors and sets of a configuration. A map is an association
-- list; the order of a range over a map decides only which error is found first.
use kube_insight.Prelude.{
  String, Bool, false, not, ◌&&◌, ◌||◌, Option, none, some, List, [], ◌∷◌, ◌==◌, is_some, contains,
  if◌then◌else◌,
}
use kube_insight.Processing.{
  Readers, Extractors, find, built_in_filter_action, is_built_in_extractor, outcome_text,
}
use kube_insight.Config.{then_check, check_all}
use kube_insight.Config.Names.{validate_config_name}

pub record ResourceGuardConfig : Type 0 where
  pub resources : List String
  pub kinds : List String
  pub namespaces : List String
  pub names : List String

pub record ProcessingFilterConfig : Type 0 where
  pub type : String
  pub enabled : Option Bool
  pub action : String
  pub remove_paths : List String
  pub keep_secret_keys : Bool
  pub guard : ResourceGuardConfig
  pub script : String

pub record ProcessingExtractorConfig : Type 0 where
  pub type : String
  pub enabled : Option Bool
  pub guard : ResourceGuardConfig
  pub script : String

pub record ProcessingConfig : Type 0 where
  pub filter_chains : List (String × List String)
  pub filters : List (String × ProcessingFilterConfig)
  pub extractor_sets : List (String × List String)
  pub extractors : List (String × ProcessingExtractorConfig)

-- processingComponentType
unfoldable pub processing_component_type : String → String → String
processing_component_type name type = if type == "" || type == "builtin" then name else type

-- `cfg.Enabled != nil && !*cfg.Enabled`
abbrev pub is_off : Option Bool → Bool
is_off none = false
is_off (some enabled) = not enabled

abbrev pub actions : List String
actions = "" ∷ "keep" ∷ "keep_modified" ∷ "discard_change" ∷ "discard_resource" ∷ []

abbrev pub check_name {ℓ} : {A : Type ℓ} → List (String × A) → String → Option String
check_name m name = if is_some (find name m) then none else some "references an unknown name"

-- Every name is a key of a map.
unfoldable pub check_known {ℓ} : {A : Type ℓ} → List (String × A) → List String → Option String
unfolding check_all
check_known m names = check_all (check_name m) names

module _ (r : Readers) (e : Extractors) where
  -- The loop of validateProcessing over the filters.
  unfoldable pub check_filter : String × ProcessingFilterConfig → Option String
  unfolding processing_component_type
  check_filter (name, f) =
      then_check (validate_config_name name)
        (elim (built_in_filter_action r (processing_component_type name f.type)) [
          | none ↦ some "unsupported built-in filter"
          | some expected ↦
              if not (contains actions f.action)
              then some "unsupported action"
              else if not (f.action == "") && not (f.action == outcome_text expected)
              then some "action does not match built-in action"
              else none
        ])

  unfoldable pub check_chain :
      List (String × ProcessingFilterConfig) → String × List String → Option String
  check_chain filters (name, names) =
      then_check (validate_config_name name) (check_known filters names)

  unfoldable pub check_extractor : String × ProcessingExtractorConfig → Option String
  unfolding processing_component_type
  check_extractor (name, x) = then_check (validate_config_name name) (
      if not (is_built_in_extractor e (processing_component_type name x.type))
      then some "unsupported built-in extractor"
      else none)

  unfoldable pub check_set :
      List (String × ProcessingExtractorConfig) → String × List String → Option String
  check_set extractors (name, names) =
      then_check (validate_config_name name) (check_known extractors names)

  -- validateProcessing
  unfoldable pub validate_processing : ProcessingConfig → Option String
  unfolding check_filter check_chain check_extractor check_set
  validate_processing cfg = then_check (check_all check_filter cfg.filters) (
      then_check (check_all (check_chain cfg.filters) cfg.filter_chains) (
        then_check (check_all check_extractor cfg.extractors)
          (check_all (check_set cfg.extractors) cfg.extractor_sets)))
