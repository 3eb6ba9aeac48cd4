-- ===== src/Tests/Configured.antt =====
-- A configuration, and what is built from it.
use kube_insight.Prelude.{
  String, true, false, none, some, List, [], ◌∷◌, ◌≡◌, refl, ◌==◌, if◌then◌else◌, length,
}
use kube_insight.Prelude.Result.{ok}
use kube_insight.Prelude.Text.{to_lower}
use kube_insight.Collector.Int.{pos, less_int}
use kube_insight.Core.{Observation}
use kube_insight.Filter.{Filter, discard_resource, lease_skip, apply_chain}
use kube_insight.Filter.Chain.Honest.{Accounted}
use kube_insight.Filter.Autoscaler.{
  Node, node, mapping, sequence, scalar, also, no_nodes, normalize_node,
}
use kube_insight.Filter.Autoscaler.Laws.{Clean, normalize_node-Clean}
use kube_insight.Extractor.{Extractor, no_evidence, Registry}
use kube_insight.Profile.{Profile, select}
use kube_insight.Processing.{
  Readers, Extractors, FilterOptions, find, new_built_in_filter, built_in_filter_action,
  is_built_in_extractor, new_built_in_extractor,
}
use kube_insight.Processing.Outcomes.{Sound}
use kube_insight.Processing.Filters.{new_built_in_filter-Sound}
use kube_insight.Config.{then_check, check_all}
use kube_insight.Config.Names.{validate_config_name, is_lower_snake_name, snake_from}
use kube_insight.Config.Processing.{
  ProcessingConfig, ResourceGuardConfig, validate_processing, processing_component_type,
  check_filter, check_chain, check_extractor, check_set, check_known,
}
use kube_insight.Config.Settings.{Config, ResourceProfileRuleConfig, effective_api_key_env}
use kube_insight.Config.Profiles.{rule_from_config, profile_rules, with_effective_profile_rules}
use kube_insight.Config.Profiles.Laws.{with_effective_profile_rules_lem}
use kube_insight.Config.Validation.{
  validate, validate_head, validate_collection, validate_storage, validate_resource_profiles,
  validate_server, validate_maintenance, validate_retention, check_policy,
  validate_profile_defaults, check_rule, validate_driver, validate_role,
}
use kube_insight.Config.Validation.Laws.{IsUsable, validate-IsUsable}
use kube_insight.Ingest.Pipeline.{Pipeline, FilterChains, filter_chain_for_profile}
use kube_insight.Ingest.Configured.{
  filter_chain_from_names, filter_chains_from_processing, extractor_registry_from_processing,
}
use kube_insight.Ingest.Configured.Valid.{switched_on, validate_processing-builds}
use kube_insight.Ingest.Configured.App.{pipeline_for_app_config, pipeline_for_app_config-Accounted}
use kube_insight.Storage.Memory.{MemoryStore}
use kube_insight.Kubeapi.{empty}
use kube_insight.Extractor.Objects.{Numbers}
use kube_insight.Extractor.Owned.{IsOwned}
use kube_insight.Ingest.Configured.Evidence.{extractors_with, new_built_in_extractor-IsOwned}
use kube_insight.Tests.Watch.{pipeline, pods}

abbrev pub readers : Readers
readers = record {
  read =
      λ raw. if raw == "beat" then some (record { hostname = "node-1"; version = "1.2" }) else none;
  parse = λ text. some (node scalar text "" no_nodes);
  print = λ n. none;
}

abbrev silent : String → Extractor
silent kind = record { kind = kind; extract = λ obs. ok no_evidence }

abbrev extractors : Extractors
extractors = record {
  reference = silent "*";
  pod = silent "Pod";
  node = silent "Node";
  event = silent "Event";
  service = silent "Service";
  endpoint_slice = silent "EndpointSlice";
}

abbrev anywhere : ResourceGuardConfig
anywhere = record { resources = []; kinds = []; namespaces = []; names = [] }

abbrev processing : ProcessingConfig
processing = record {
  filter_chains =
      ("default", "secret_redaction_filter" ∷ "quiet_leases" ∷ [])
      ∷ ("quiet", "quiet_leases" ∷ [])
      ∷ [];
  filters =
      (
        "secret_redaction_filter",
        record {
          type = "builtin";
          enabled = none;
          action = "keep_modified";
          remove_paths = [];
          keep_secret_keys = false;
          guard = record anywhere { resources = "secrets" ∷ [] };
          script = "";
        },
      )
      ∷ (
        "quiet_leases",
        record {
          type = "lease_skip";
          enabled = some false;
          action = "";
          remove_paths = [];
          keep_secret_keys = false;
          guard = anywhere;
          script = "";
        },
      )
      ∷ [];
  extractor_sets = ("default", "pod" ∷ []) ∷ [];
  extractors = ("pod", record { type = ""; enabled = none; guard = anywhere; script = "" }) ∷ [];
}

abbrev pods_rule : ResourceProfileRuleConfig
pods_rule = record {
  name = "pods";
  enabled = none;
  groups = [];
  resources = [];
  kinds = "Pod" ∷ [];
  retention_policy = "";
  filter_chain = "quiet";
  extractor_set = "";
  compaction_strategy = "";
  priority = "";
  max_event_buffer = pos 0;
}

abbrev config : Config
config = record {
  version = "1";
  instance_role = record { role = "writer" };
  logging = record { level = ""; format = "" };
  storage = record {
    driver = "sqlite";
    sqlite = record { path = "kube-insight.db" };
    postgres = record { dsn_env = "" };
    cockroach = record { dsn_env = "" };
    clickhouse = record {
      init_on_start = false;
      dsn_env = "";
      database = "";
      cluster = "";
      hot_volume = "";
      cold_volume = "";
      cold_after_seconds = pos 0;
      use_json_type = false;
      async_insert = false;
      batch_size = pos 0;
      flush_interval_ms = pos 0;
    };
    chdb = record { path = ""; database = ""; max_sessions = pos 0 };
    maintenance = record {
      enabled = false;
      interval_seconds = pos 0;
      min_wal_bytes = pos 0;
      incremental_vacuum_pages = pos 0;
      journal_size_limit_bytes = pos 0;
      run_on_start = false;
      skip_when_database_busy = false;
      log_unchanged_maintenance_runs = false;
    };
    retention = record {
      enabled = true;
      max_age_seconds = pos 3600;
      min_versions_per_object = pos 0;
      filter_decision_max_age_seconds = pos 0;
      policies = [];
    };
  };
  collection = record {
    enabled = true;
    kubeconfig = "";
    use_client_go = false;
    contexts = [];
    all_contexts = false;
    namespace = "";
    concurrency = pos 0;
    watch = record {
      disable_http2 = false;
      max_concurrent_streams = pos 0;
      min_backoff_millis = pos 500;
      max_backoff_millis = pos 30000;
      stream_start_stagger_ms = pos 0;
      queued_relist_interval_seconds = pos 0;
      stream_rotation_seconds = pos 0;
    };
    resources = record { all = false; include = []; exclude = [] };
  };
  resource_profiles = record {
    defaults = record {
      enabled = none;
      retention_policy = "";
      filter_chain = "";
      extractor_set = "";
      compaction_strategy = "";
      priority = "";
      max_event_buffer = pos 0;
    };
    replace_defaults = false;
    rules = pods_rule ∷ [];
  };
  processing = processing;
  server = record {
    api = record { enabled = false; listen = "" };
    metrics = record { enabled = false; listen = "" };
    web = record { enabled = false; listen = "" };
    chat = record {
      enabled = false;
      provider = "";
      api_key_env = "";
      base_url_env = "";
      model = "";
      max_iterations = pos 0;
      openai_api_key_env = "";
    };
    agent_retention = record { enabled = false; interval_seconds = pos 0; run_on_start = false };
  };
  mcp = record { enabled = false; listen = "" };
}

processing_valid : validate_processing readers extractors processing ≡ none
unfolding validate_processing then_check check_all check_filter check_chain check_extractor
    check_set check_known validate_config_name is_lower_snake_name snake_from
    processing_component_type find built_in_filter_action is_built_in_extractor
processing_valid = refl

config_valid : validate readers extractors config ≡ none
unfolding validate then_check check_all validate_head validate_collection validate_storage
    validate_resource_profiles validate_server validate_maintenance validate_retention check_policy
    validate_profile_defaults check_rule validate_driver validate_role validate_config_name
    is_lower_snake_name snake_from to_lower effective_api_key_env less_int validate_processing
    check_filter check_chain check_extractor check_set check_known processing_component_type find
    built_in_filter_action is_built_in_extractor
config_valid = refl

validate-IsUsable_example : IsUsable config
validate-IsUsable_example = validate-IsUsable readers extractors config config_valid

validate_processing-builds_example :
    ((chains : FilterChains) × (filter_chains_from_processing readers processing ≡ ok chains))
    × ((registry : Registry) × (extractor_registry_from_processing extractors processing
          ≡ ok registry))
    × ((name : String) (names : List String)
        → find name processing.filter_chains ≡ some names
        → (fs : List Filter) × (filter_chain_from_names readers processing.filters names ≡ ok fs)
          × (length fs ≡ switched_on readers extractors processing.filters names))
validate_processing-builds_example =
    validate_processing-builds readers extractors processing processing_valid

pipeline_for_app_config-Accounted_example :
    (q : Pipeline MemoryStore) × (pipeline_for_app_config readers extractors [] pipeline config
      ≡ ok q)
    × ((profile : Profile) (obs : Observation)
        → Accounted obs
            (apply_chain (filter_chain_for_profile q profile) obs).observation
            (apply_chain (filter_chain_for_profile q profile) obs).decisions)
pipeline_for_app_config-Accounted_example =
    pipeline_for_app_config-Accounted readers extractors [] pipeline config config_valid

with_effective_profile_rules_lem_example :
    select pods (
      profile_rules
        (rule_from_config pods_rule ∷ [])
        (with_effective_profile_rules (rule_from_config pods_rule ∷ []) config.resource_profiles))
    ≡ select pods (profile_rules (rule_from_config pods_rule ∷ []) config.resource_profiles)
unfolding rule_from_config
with_effective_profile_rules_lem_example =
    with_effective_profile_rules_lem (rule_from_config pods_rule ∷ []) config.resource_profiles pods
      ((refl, refl), tt)

abbrev no_options : FilterOptions
no_options = record { name = ""; remove_paths = []; keep_secret_keys = false; script = "" }

leases_built :
    new_built_in_filter readers "lease_skip" no_options ≡ ok (lease_skip, discard_resource)
unfolding new_built_in_filter find
leases_built = refl

new_built_in_filter-Sound_example : Sound discard_resource lease_skip
new_built_in_filter-Sound_example =
    new_built_in_filter-Sound readers "lease_skip" no_options lease_skip discard_resource
      leases_built

-- A status with a probe time.
abbrev text : String → Node
text value = node scalar value "" no_nodes

abbrev status : Node
status = node mapping "" "" (
    also (text "lastProbeTime") (
      also (text "10:00")
        (also (text "nodeGroups") (also (node sequence "" "" no_nodes) no_nodes))))

normalize_node-Clean_example : Clean (normalize_node status).0
normalize_node-Clean_example = normalize_node-Clean status

abbrev numbers : Numbers
numbers = record { text = λ v. "1"; positive = λ v. true }

abbrev built : Extractors
built =
    extractors_with numbers (λ v. "1") (λ name value. some value) (λ text. text) empty (silent "*")

pods_built : new_built_in_extractor built "pod" ≡ ok built.pod
unfolding new_built_in_extractor find
pods_built = refl

new_built_in_extractor-IsOwned_example : IsOwned built.pod
new_built_in_extractor-IsOwned_example =
    new_built_in_extractor-IsOwned numbers (λ v. "1") (λ name value. some value) (λ text. text)
      empty (silent "*") "pod" built.pod (λ e. cc e) pods_built
