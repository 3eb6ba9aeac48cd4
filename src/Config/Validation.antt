-- ===== src/Config/Validation.antt =====
-- internal/config/validation.go and profiles.go: what makes a configuration valid. The checks are made
-- in the source's order, and the first that fails is the error.
pub mod Laws
use kube_insight.Prelude.{
  String, Bool, true, false, not, ◌&&◌, ◌||◌, Option, none, some, List, [], ◌∷◌, ◌==◌, is_empty,
  contains, any, if◌then◌else◌,
}
use kube_insight.Prelude.Text.{to_lower}
use kube_insight.Collector.Int.{ℤ, pos, less_int}
use kube_insight.Processing.{Readers, Extractors}
use kube_insight.Config.{then_check, check_all}
use kube_insight.Config.Names.{validate_config_name}
use kube_insight.Config.Processing.{validate_processing}
use kube_insight.Config.Settings.{
  Config, StorageConfig, MaintenanceConfig, RetentionConfig, RetentionPolicyConfig,
  CollectionConfig, ResourceProfilesConfig, ResourceProfileDefaultsConfig,
  ResourceProfileRuleConfig, ServerConfig, ChatConfig, is_negative, is_positive,
  effective_api_key_env,
}

-- `if bad { return errors.New(message) }`
abbrev pub reject : Bool → String → Option String
reject bad message = if bad then some message else none

-- Integers that must not be negative.
abbrev pub check_counts : List ℤ → Option String
check_counts counts = check_all (λ n. reject (is_negative n) "must be non-negative") counts

-- validateCollection
unfoldable pub validate_collection : CollectionConfig → Option String
unfolding check_all
validate_collection c =
    let w = c.watch in
    then_check
      (check_counts (
        c.concurrency ∷ w.min_backoff_millis ∷ w.max_concurrent_streams ∷ w.max_backoff_millis
        ∷ []))
      (then_check
        (reject
          (is_positive w.min_backoff_millis
            && is_positive w.max_backoff_millis
            && less_int w.max_backoff_millis w.min_backoff_millis)
          "maxBackoffMillis must be greater than or equal to minBackoffMillis")
        (check_counts (
          w.stream_start_stagger_ms ∷ w.queued_relist_interval_seconds ∷ w.stream_rotation_seconds
          ∷ [])))

unfoldable pub validate_maintenance : MaintenanceConfig → Option String
unfolding check_all
validate_maintenance m =
    if m.enabled
    then then_check
        (reject (not (is_positive m.interval_seconds)) "intervalSeconds must be positive")
        (check_counts
          (m.min_wal_bytes ∷ m.incremental_vacuum_pages ∷ m.journal_size_limit_bytes ∷ []))
    else none

-- One round of the loop over the retention policies.
unfoldable pub check_policy : String × RetentionPolicyConfig → Option String
check_policy (name, policy) =
    then_check (validate_config_name name)
      (check_counts (policy.max_age_seconds ∷ policy.min_versions_per_object ∷ []))

abbrev pub policy_enabled : RetentionConfig → Bool
policy_enabled r =
    any (λ (p : String × RetentionPolicyConfig). is_positive p.1.max_age_seconds) r.policies

-- The end of validateStorage.
unfoldable pub validate_retention : RetentionConfig → Option String
unfolding check_policy
validate_retention r =
    then_check
      (check_counts
        (r.max_age_seconds ∷ r.min_versions_per_object ∷ r.filter_decision_max_age_seconds ∷ []))
      (then_check (check_all check_policy r.policies) (
        reject
          (r.enabled
            && not (is_positive r.max_age_seconds)
            && not (is_positive r.filter_decision_max_age_seconds)
            && not (policy_enabled r))
          "maxAgeSeconds or filterDecisionMaxAgeSeconds must be positive when retention is enabled"))

-- validateStorage
unfoldable pub validate_storage : StorageConfig → Option String
unfolding validate_maintenance validate_retention
validate_storage s = then_check (validate_maintenance s.maintenance) (
    then_check
      (check_counts (
        s.clickhouse.cold_after_seconds ∷ s.clickhouse.batch_size ∷ s.clickhouse.flush_interval_ms
        ∷ s.chdb.max_sessions ∷ []))
      (validate_retention s.retention))

abbrev pub priorities : List String
priorities = "" ∷ "high" ∷ "normal" ∷ "low" ∷ []

-- validateProfileDefaults
unfoldable pub validate_profile_defaults : ResourceProfileDefaultsConfig → Option String
validate_profile_defaults d =
    then_check (reject (not (contains priorities d.priority)) "priority is unsupported")
      (reject (is_negative d.max_event_buffer) "maxEventBuffer must be non-negative")

-- The loop of validateResourceProfiles.
unfoldable pub check_rule : ResourceProfileRuleConfig → Option String
check_rule rule = then_check (validate_config_name rule.name) (
    then_check
      (reject (is_empty rule.groups && is_empty rule.resources && is_empty rule.kinds)
        "must set at least one of groups, resources, or kinds")
      (then_check (reject (not (contains priorities rule.priority)) "priority is unsupported")
        (reject (is_negative rule.max_event_buffer) "maxEventBuffer must be non-negative")))

-- validateResourceProfiles
unfoldable pub validate_resource_profiles : ResourceProfilesConfig → Option String
unfolding validate_profile_defaults check_rule
validate_resource_profiles p = then_check (validate_profile_defaults p.defaults) (
    then_check (check_all check_rule p.rules) (
      reject (p.replace_defaults && is_empty p.rules)
        "rules must not be empty when replaceDefaults is true"))

-- The switch on the driver.
unfoldable pub validate_driver : StorageConfig → Option String
validate_driver s =
    if s.driver == "sqlite"
    then reject (s.sqlite.path == "") "storage.sqlite.path is required"
    else if s.driver == "postgres"
    then reject (s.postgres.dsn_env == "") "postgres dsnEnv is required"
    else if s.driver == "cockroach"
    then reject (s.cockroach.dsn_env == "") "cockroach dsnEnv is required"
    else if s.driver == "clickhouse"
    then then_check (reject (s.clickhouse.dsn_env == "") "clickhouse dsnEnv is required")
        (reject (s.clickhouse.database == "") "clickhouse database is required")
    else if s.driver == "chdb"
    then then_check (reject (s.chdb.path == "") "chdb path is required")
        (reject (s.chdb.database == "") "chdb database is required")
    else some "unsupported storage.driver"

-- The end of Validate.
unfoldable pub validate_server : ServerConfig → Option String
unfolding effective_api_key_env
validate_server s =
    then_check
      (if s.chat.enabled
        then then_check (reject (s.chat.provider == "") "server.chat.provider is required") (
            then_check
              (reject (effective_api_key_env s.chat == "") "server.chat.apiKeyEnv is required")
              (reject (is_negative s.chat.max_iterations) "maxIterations must be non-negative"))
        else none)
      (reject (s.agent_retention.enabled && not (is_positive s.agent_retention.interval_seconds))
        "server.agentRetention.intervalSeconds must be positive")

abbrev pub role_of : Config → String
role_of c = if c.instance_role.role == "" then "all" else c.instance_role.role

-- A listener that a writer must not have.
abbrev pub listens : Config → Bool
listens c =
    c.server.api.enabled || c.server.metrics.enabled || c.server.web.enabled
    || c.server.chat.enabled || c.mcp.enabled

unfoldable pub validate_role : Config → Option String
validate_role c =
    then_check
      (reject (role_of c == "api" && c.collection.enabled)
        "collection.enabled must be false when instance.role is api")
      (reject (role_of c == "writer" && listens c)
        "listeners must be disabled when instance.role is writer")

-- The head of Validate.
unfoldable pub validate_head : Config → Option String
unfolding validate_driver validate_role
validate_head c = then_check (reject (c.version == "") "version is required") (
    then_check
      (reject (not (contains ("all" ∷ "writer" ∷ "api" ∷ []) (role_of c)))
        "unsupported instance.role")
      (then_check
        (reject
          (not (
            contains ("" ∷ "debug" ∷ "info" ∷ "warn" ∷ "warning" ∷ "error" ∷ [])
              (to_lower c.logging.level)))
          "unsupported logging.level")
        (then_check
          (reject
            (not (contains ("" ∷ "text" ∷ "json" ∷ "logfmt" ∷ []) (to_lower c.logging.format)))
            "unsupported logging.format")
          (then_check (validate_driver c.storage) (validate_role c)))))

-- Config.Validate
unfoldable pub validate : Readers → Extractors → Config → Option String
unfolding validate_head validate_collection validate_storage validate_resource_profiles
    validate_server
validate r e c = then_check (validate_head c) (
    then_check (validate_collection c.collection) (
      then_check (validate_storage c.storage) (
        then_check (validate_resource_profiles c.resource_profiles)
          (then_check (validate_processing r e c.processing) (validate_server c.server)))))
