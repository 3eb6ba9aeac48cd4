-- ===== src/Config/Validation/Laws.antt =====
-- What Validate promises of a configuration that it accepts.
use kube_insight.Prelude.{
  true, false, not, ◌&&◌, ◌||◌, none, List, [], ◌∷◌, ◌==◌, ◌≡◌, arith, All, eq_iff, is_empty,
  contains,
}
use kube_insight.Collector.Int.{less_int}
use kube_insight.Processing.{Readers, Extractors}
use kube_insight.Config.{check_all}
use kube_insight.Config.Checks.{then_check-none, check_all-none, reject-none, check_counts-none}
use kube_insight.Config.Names.{validate_config_name}
use kube_insight.Config.Processing.{validate_processing}
use kube_insight.Config.Settings.{Config, ResourceProfileRuleConfig, is_negative, is_positive}
use kube_insight.Config.Validation.{
  reject, check_counts, validate_collection, validate_maintenance, check_policy, policy_enabled,
  validate_retention, validate_storage, validate_profile_defaults, check_rule,
  validate_resource_profiles, validate_driver, validate_server, role_of, listens, validate_role,
  validate_head, validate,
}

module _ (r : Readers) (e : Extractors) (c : Config) (valid : validate r e c ≡ none) where
  -- The parts of a valid configuration are valid.
  record Parts : Type 0 where
    head : validate_head c ≡ none
    collection : validate_collection c.collection ≡ none
    storage : validate_storage c.storage ≡ none
    profiles : validate_resource_profiles c.resource_profiles ≡ none
    processing : validate_processing r e c.processing ≡ none
    server : validate_server c.server ≡ none

  parts : Parts
  unfolding validate
  parts =
      let (head, a) = then_check-none (validate_head c) _ valid in
      let (collection, b) = then_check-none (validate_collection c.collection) _ a in
      let (storage, d) = then_check-none (validate_storage c.storage) _ b in
      let (profiles, f) = then_check-none (validate_resource_profiles c.resource_profiles) _ d in
      let (processing, server) = then_check-none (validate_processing r e c.processing) _ f in
      record {
        head = head;
        collection = collection;
        storage = storage;
        profiles = profiles;
        processing = processing;
        server = server;
      }

  pub valid_processing : validate_processing r e c.processing ≡ none
  valid_processing = parts.processing

  roles : validate_role c ≡ none
  unfolding validate_head
  roles =
      let (version, a) =
        then_check-none (reject (c.version == "") "version is required") _ parts.head in
      let (role, b) =
        then_check-none
          (reject (not (contains ("all" ∷ "writer" ∷ "api" ∷ []) (role_of c)))
            "unsupported instance.role")
          _ a in
      let (level, d) = then_check-none _ _ b in
      let (format, f) = then_check-none _ _ d in
      (then_check-none (validate_driver c.storage) (validate_role c) f).1

  -- An instance that only serves does not collect, and one that only writes does not listen.
  valid_roles :
      (role_of c ≡ "api" → c.collection.enabled ≡ false)
      × (role_of c ≡ "writer" → listens c ≡ false)
  unfolding validate_role
  valid_roles =
      let (api, writer) =
        then_check-none
          (reject (role_of c == "api" && c.collection.enabled)
            "collection.enabled must be false when instance.role is api")
          _ roles in
      (
        λ is. ground (arith, reject-none _ _ api, eq_iff (role_of c) "api", is),
        λ is. ground (arith, reject-none _ _ writer, eq_iff (role_of c) "writer", is),
      )

  -- The bounds of the backoff that a valid configuration gives are in order, and no count of the
  -- collection is negative.
  valid_backoff :
      (is_negative c.collection.watch.min_backoff_millis ≡ false)
      × (is_negative c.collection.watch.max_backoff_millis ≡ false)
      × (is_positive c.collection.watch.min_backoff_millis ≡ true
          → is_positive c.collection.watch.max_backoff_millis ≡ true
          → less_int c.collection.watch.max_backoff_millis c.collection.watch.min_backoff_millis
            ≡ false)
  unfolding validate_collection
  valid_backoff =
      let w = c.collection.watch in
      let (counts, a) =
        then_check-none
          (check_counts (
            c.collection.concurrency ∷ w.min_backoff_millis ∷ w.max_concurrent_streams
            ∷ w.max_backoff_millis ∷ []))
          _ parts.collection in
      let (order, b) =
        then_check-none
          (reject
            (is_positive w.min_backoff_millis
              && is_positive w.max_backoff_millis
              && less_int w.max_backoff_millis w.min_backoff_millis)
            "maxBackoffMillis must be greater than or equal to minBackoffMillis")
          _ a in
      let some_counts =
        check_counts-none
          (c.collection.concurrency ∷ w.min_backoff_millis ∷ w.max_concurrent_streams
            ∷ w.max_backoff_millis ∷ [])
          counts in
      (some_counts.1.0, some_counts.1.1.1.0, ground (arith, reject-none _ _ order))

  valid_retention : validate_retention c.storage.retention ≡ none
  unfolding validate_storage
  valid_retention =
      let (maintenance, a) =
        then_check-none (validate_maintenance c.storage.maintenance) _ parts.storage in
      (then_check-none _ (validate_retention c.storage.retention) a).1

  -- Where retention is switched on, some age that it goes by is positive.
  retention_acts :
      c.storage.retention.enabled ≡ true
      → (is_positive c.storage.retention.max_age_seconds
          || is_positive c.storage.retention.filter_decision_max_age_seconds
          || policy_enabled c.storage.retention)
        ≡ true
  unfolding validate_retention
  retention_acts on =
      let k = c.storage.retention in
      let (counts, a) = then_check-none _ _ valid_retention in
      let (policies, acts) = then_check-none (check_all check_policy k.policies) _ a in
      ground (arith, on, reject-none _ _ acts)

  -- A rule of a configuration asks for something.
  abbrev Narrow : ResourceProfileRuleConfig → Type 0
  Narrow rule = (is_empty rule.groups && is_empty rule.resources && is_empty rule.kinds) ≡ false

  check_rule-Narrow :
      (rules : List ResourceProfileRuleConfig)
      → All (λ x. check_rule x ≡ none) rules
      → All Narrow rules
  unfolding check_rule
  check_rule-Narrow [] h = tt
  check_rule-Narrow (rule ∷ rules) h =
      let (named, a) = then_check-none (validate_config_name rule.name) _ h.0 in
      let (asks, b) =
        then_check-none
          (reject (is_empty rule.groups && is_empty rule.resources && is_empty rule.kinds)
            "must set at least one of groups, resources, or kinds")
          _ a in
      (reject-none _ _ asks, check_rule-Narrow rules h.1)

  rules_ask : All Narrow c.resource_profiles.rules
  unfolding validate_resource_profiles
  rules_ask =
      let (defaults, a) =
        then_check-none (validate_profile_defaults c.resource_profiles.defaults) _ parts.profiles in
      let (rules, b) = then_check-none (check_all check_rule c.resource_profiles.rules) _ a in
      check_rule-Narrow c.resource_profiles.rules
        (check_all-none check_rule c.resource_profiles.rules rules)

-- What a configuration needs to be of use.
pub record IsUsable (c : Config) : Type 0 where
  pub api_collects_nothing : role_of c ≡ "api" → c.collection.enabled ≡ false
  pub writer_serves_nothing : role_of c ≡ "writer" → listens c ≡ false
  pub least_backoff : is_negative c.collection.watch.min_backoff_millis ≡ false
  pub most_backoff : is_negative c.collection.watch.max_backoff_millis ≡ false
  pub backoff_in_order :
      is_positive c.collection.watch.min_backoff_millis ≡ true
      → is_positive c.collection.watch.max_backoff_millis ≡ true
      → less_int c.collection.watch.max_backoff_millis c.collection.watch.min_backoff_millis ≡ false
  pub retention_goes_by_an_age :
      c.storage.retention.enabled ≡ true
      → (is_positive c.storage.retention.max_age_seconds
          || is_positive c.storage.retention.filter_decision_max_age_seconds
          || policy_enabled c.storage.retention)
        ≡ true
  pub rules_are_narrow :
      All
        (λ (rule : ResourceProfileRuleConfig).
          (is_empty rule.groups && is_empty rule.resources && is_empty rule.kinds) ≡ false)
        c.resource_profiles.rules

-- A configuration that Validate accepts: an instance that only serves does not collect, one that only
-- writes does not listen, the bounds of the backoff are not negative and in order, retention that is
-- switched on goes by a positive age, and every rule asks for a group, a resource or a kind.
pub validate-IsUsable :
    (r : Readers) (e : Extractors) (c : Config) → validate r e c ≡ none → IsUsable c
validate-IsUsable r e c valid =
    let roles = valid_roles r e c valid in
    let backoff = valid_backoff r e c valid in
    record {
      api_collects_nothing = roles.0;
      writer_serves_nothing = roles.1;
      least_backoff = backoff.0;
      most_backoff = backoff.1;
      backoff_in_order = backoff.2;
      retention_goes_by_an_age = retention_acts r e c valid;
      rules_are_narrow = rules_ask r e c valid;
    }
