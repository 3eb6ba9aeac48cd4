-- ===== src/Config/Settings.antt =====
-- internal/config/config.go: the settings of a configuration. An int is an integer; the fields of the
-- validation targets, which are floats, and of the plugins are left out.
use kube_insight.Prelude.{String, Bool, Option, List, ◌==◌, not, if◌then◌else◌}
use kube_insight.Collector.Int.{ℤ, pos, less_int}
use kube_insight.Config.Processing.{ProcessingConfig}

pub record InstanceConfig : Type 0 where
  pub role : String

pub record LoggingConfig : Type 0 where
  pub level : String
  pub format : String

pub record SqliteConfig : Type 0 where
  pub path : String

pub record MaintenanceConfig : Type 0 where
  pub enabled : Bool
  pub interval_seconds : ℤ
  pub min_wal_bytes : ℤ
  pub incremental_vacuum_pages : ℤ
  pub journal_size_limit_bytes : ℤ
  pub run_on_start : Bool
  pub skip_when_database_busy : Bool
  pub log_unchanged_maintenance_runs : Bool

pub record RetentionPolicyConfig : Type 0 where
  pub max_age_seconds : ℤ
  pub min_versions_per_object : ℤ

pub record RetentionConfig : Type 0 where
  pub enabled : Bool
  pub max_age_seconds : ℤ
  pub min_versions_per_object : ℤ
  pub filter_decision_max_age_seconds : ℤ
  pub policies : List (String × RetentionPolicyConfig)

pub record SqlDatabaseConfig : Type 0 where
  pub dsn_env : String

pub record ChdbConfig : Type 0 where
  pub path : String
  pub database : String
  pub max_sessions : ℤ

pub record ClickhouseConfig : Type 0 where
  pub init_on_start : Bool
  pub dsn_env : String
  pub database : String
  pub cluster : String
  pub hot_volume : String
  pub cold_volume : String
  pub cold_after_seconds : ℤ
  pub use_json_type : Bool
  pub async_insert : Bool
  pub batch_size : ℤ
  pub flush_interval_ms : ℤ

pub record StorageConfig : Type 0 where
  pub driver : String
  pub sqlite : SqliteConfig
  pub postgres : SqlDatabaseConfig
  pub cockroach : SqlDatabaseConfig
  pub clickhouse : ClickhouseConfig
  pub chdb : ChdbConfig
  pub maintenance : MaintenanceConfig
  pub retention : RetentionConfig

pub record WatchConfig : Type 0 where
  pub disable_http2 : Bool
  pub max_concurrent_streams : ℤ
  pub min_backoff_millis : ℤ
  pub max_backoff_millis : ℤ
  pub stream_start_stagger_ms : ℤ
  pub queued_relist_interval_seconds : ℤ
  pub stream_rotation_seconds : ℤ

pub record ResourcePolicy : Type 0 where
  pub all : Bool
  pub include : List String
  pub exclude : List String

pub record CollectionConfig : Type 0 where
  pub enabled : Bool
  pub kubeconfig : String
  pub use_client_go : Bool
  pub contexts : List String
  pub all_contexts : Bool
  pub namespace : String
  pub concurrency : ℤ
  pub watch : WatchConfig
  pub resources : ResourcePolicy

pub record ResourceProfileDefaultsConfig : Type 0 where
  pub enabled : Option Bool
  pub retention_policy : String
  pub filter_chain : String
  pub extractor_set : String
  pub compaction_strategy : String
  pub priority : String
  pub max_event_buffer : ℤ

pub record ResourceProfileRuleConfig : Type 0 where
  pub name : String
  pub enabled : Option Bool
  pub groups : List String
  pub resources : List String
  pub kinds : List String
  pub retention_policy : String
  pub filter_chain : String
  pub extractor_set : String
  pub compaction_strategy : String
  pub priority : String
  pub max_event_buffer : ℤ

pub record ResourceProfilesConfig : Type 0 where
  pub defaults : ResourceProfileDefaultsConfig
  pub replace_defaults : Bool
  pub rules : List ResourceProfileRuleConfig

pub record ListenerConfig : Type 0 where
  pub enabled : Bool
  pub listen : String

pub record ChatConfig : Type 0 where
  pub enabled : Bool
  pub provider : String
  pub api_key_env : String
  pub base_url_env : String
  pub model : String
  pub max_iterations : ℤ
  pub openai_api_key_env : String

pub record AgentRetentionConfig : Type 0 where
  pub enabled : Bool
  pub interval_seconds : ℤ
  pub run_on_start : Bool

pub record ServerConfig : Type 0 where
  pub api : ListenerConfig
  pub metrics : ListenerConfig
  pub web : ListenerConfig
  pub chat : ChatConfig
  pub agent_retention : AgentRetentionConfig

pub record McpConfig : Type 0 where
  pub enabled : Bool
  pub listen : String

pub record Config : Type 0 where
  pub version : String
  pub instance_role : InstanceConfig
  pub logging : LoggingConfig
  pub storage : StorageConfig
  pub collection : CollectionConfig
  pub resource_profiles : ResourceProfilesConfig
  pub processing : ProcessingConfig
  pub server : ServerConfig
  pub mcp : McpConfig

abbrev pub is_negative : ℤ → Bool
is_negative n = less_int n (pos 0)

abbrev pub is_positive : ℤ → Bool
is_positive n = less_int (pos 0) n

-- ChatConfig.EffectiveAPIKeyEnv
unfoldable pub effective_api_key_env : ChatConfig → String
effective_api_key_env c = if not (c.api_key_env == "") then c.api_key_env else c.openai_api_key_env

-- ChatConfig.EffectiveMaxIterations
unfoldable pub effective_max_iterations : ChatConfig → ℤ
effective_max_iterations c = if is_positive c.max_iterations then c.max_iterations else pos 32
