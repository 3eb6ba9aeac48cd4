-- ===== src/Tests/Defaults.antt =====
-- A pipeline over the store in memory with the filter chains of default.yaml in internal/config and the
-- rules of default_rules.yaml in internal/resourceprofile, up to the one of secrets. It has no
-- extractors, and its resolver knows only what the store and the documents say.
use kube_insight.Prelude.{String, Bool, not, ◌==◌, true, false, some, List, [], ◌∷◌, ◌≡◌, refl}
use kube_insight.Prelude.Result.{ok}
use kube_insight.Core.{Observation}
use kube_insight.Json.{str}
use kube_insight.Kubeapi.{empty}
use kube_insight.Match.{
  match_any_string, match_any_resource, match_resource, resource_candidates, match,
}
use kube_insight.Match
use kube_insight.Profile
use kube_insight.Profile.{Profile, Rule, select, select_from, matches, apply, merge_profile}
use kube_insight.Filter.{Filter, lease_skip}
use kube_insight.Filter.Objects.{secret_redaction}
use kube_insight.Filter.Conditions.{condition_set}
use kube_insight.Filter.Paths.{path_remove}
use kube_insight.Filter.Scope.{scoped}
use kube_insight.Filter.Heartbeat.{gke_webhook}
use kube_insight.Filter.Autoscaler.{cluster_autoscaler}
use kube_insight.Processing.{find, new_built_in_filter, report_skip}
use kube_insight.Config.Processing.{
  ProcessingConfig, ProcessingFilterConfig, ResourceGuardConfig, processing_component_type,
}
use kube_insight.Config.Profiles.{no_profile}
use kube_insight.Extractor.{new_registry}
use kube_insight.Storage.Memory.{MemoryStore}
use kube_insight.Ingest.Memory.{memory_store}
use kube_insight.Ingest.Pipeline.{
  FilterChains, Pipeline, filter_chain_for_profile, profile_for_observation, select_chain,
  find_chain,
}
use kube_insight.Ingest.Configured.{
  guarded, take_filter, filter_chain_from_names, build_chains, filter_chains_from_processing,
}
use kube_insight.Tests.Configured.{readers}

abbrev anywhere : ResourceGuardConfig
anywhere = record { resources = []; kinds = []; namespaces = []; names = [] }

abbrev of : List String → ResourceGuardConfig
of resources = record anywhere { resources = resources }

abbrev builtin : String → ResourceGuardConfig → List String → ProcessingFilterConfig
builtin action guard paths = record {
  type = "builtin";
  enabled = some true;
  action = action;
  remove_paths = paths;
  keep_secret_keys = false;
  guard = guard;
  script = "";
}

abbrev event_paths : List String
event_paths =
    "/deprecatedCount" ∷ "/deprecatedLastTimestamp" ∷ "/series" ∷ "/series/count"
    ∷ "/series/lastObservedTime" ∷ "/eventTime" ∷ []

abbrev pub processing : ProcessingConfig
processing = record {
  filter_chains =
      (
        "default",
        "managed_fields" ∷ "resource_version" ∷ "metadata_generation" ∷ "status_condition_set"
            ∷ "leader_election_configmap" ∷ "cluster_autoscaler_status" ∷ "gke_webhook_heartbeat"
            ∷ [],
      )
      ∷ ("event_rollup", "managed_fields" ∷ "resource_version" ∷ "event_series" ∷ [])
      ∷ (
        "secret_metadata_only",
        "managed_fields" ∷ "resource_version" ∷ "secret_metadata_only" ∷ [],
      )
      ∷ ("lease_skip", "lease_skip" ∷ [])
      ∷ ("report_skip", "report_skip" ∷ [])
      ∷ ("none", [])
      ∷ [];
  filters =
      ("lease_skip", builtin "discard_resource" (of ("leases.coordination.k8s.io" ∷ [])) [])
      ∷ ("report_skip", builtin "discard_resource" anywhere [])
      ∷ (
        "secret_metadata_only",
        record (builtin "keep_modified" (of ("secrets" ∷ [])) ("/data" ∷ "/stringData" ∷ [])) {
          keep_secret_keys = true;
        },
      )
      ∷ ("managed_fields", builtin "keep_modified" anywhere ("/metadata/managedFields" ∷ []))
      ∷ ("resource_version", builtin "keep_modified" anywhere ("/metadata/resourceVersion" ∷ []))
      ∷ ("metadata_generation", builtin "keep_modified" anywhere ("/metadata/generation" ∷ []))
      ∷ ("status_condition_set", builtin "keep_modified" anywhere [])
      ∷ (
        "leader_election_configmap",
        builtin "keep_modified" (of ("configmaps" ∷ []))
            ("/metadata/annotations/control-plane.alpha.kubernetes.io~1leader" ∷ []),
      )
      ∷ (
        "cluster_autoscaler_status",
        builtin "keep_modified"
            (record (of ("configmaps" ∷ [])) {
              namespaces = "kube-system" ∷ [];
              names = "cluster-autoscaler-status" ∷ [];
            })
            [],
      )
      ∷ (
        "gke_webhook_heartbeat",
        builtin "keep_modified"
            (record (of ("configmaps" ∷ [])) {
              namespaces = "kube-system" ∷ [];
              names = "gke-common-webhook-heartbeat" ∷ [];
            })
            [],
      )
      ∷ ("event_series", builtin "keep_modified" (of ("events.events.k8s.io" ∷ [])) event_paths)
      ∷ [];
  extractor_sets = [];
  extractors = [];
}

abbrev pub fields : Filter
fields = path_remove "managed_fields" "managed_fields_removed" ("/metadata/managedFields" ∷ [])

abbrev pub version : Filter
version =
    path_remove "resource_version" "resource_version_removed" ("/metadata/resourceVersion" ∷ [])

abbrev pub secrets_only : Filter
secrets_only =
    scoped (record { resources = "secrets" ∷ []; kinds = []; namespaces = []; names = [] })
      secret_redaction

abbrev in_configmaps : List String → List String → Filter → Filter
in_configmaps namespaces names f =
    scoped
      (record { resources = "configmaps" ∷ []; kinds = []; namespaces = namespaces; names = names })
      f

abbrev pub default_chain : List Filter
default_chain =
    fields
    ∷ version
    ∷ path_remove "metadata_generation" "metadata_generation_removed" ("/metadata/generation" ∷ [])
    ∷ condition_set
    ∷ in_configmaps [] [] (
        path_remove "leader_election_configmap" "leader_annotation_removed"
          ("/metadata/annotations/control-plane.alpha.kubernetes.io~1leader" ∷ []))
    ∷ in_configmaps ("kube-system" ∷ []) ("cluster-autoscaler-status" ∷ [])
        (cluster_autoscaler readers.parse readers.print)
    ∷ in_configmaps ("kube-system" ∷ []) ("gke-common-webhook-heartbeat" ∷ [])
        (gke_webhook readers.read)
    ∷ []

abbrev pub secret_chain : List Filter
secret_chain = fields ∷ version ∷ secrets_only ∷ []

abbrev pub chains : FilterChains
chains = record {
  default = some default_chain;
  by_name =
      (
        "event_rollup",
        fields
            ∷ version
            ∷ scoped
                (record {
                  resources = "events.events.k8s.io" ∷ [];
                  kinds = [];
                  namespaces = [];
                  names = [];
                })
                (path_remove "event_series" "event_series_removed" event_paths)
            ∷ [],
      )
      ∷ ("secret_metadata_only", secret_chain)
      ∷ (
        "lease_skip",
        scoped
              (record {
                resources = "leases.coordination.k8s.io" ∷ [];
                kinds = [];
                namespaces = [];
                names = [];
              })
              lease_skip
            ∷ [],
      )
      ∷ ("report_skip", report_skip ∷ [])
      ∷ ("none", [])
      ∷ [];
}

pub chains_built : filter_chains_from_processing readers processing ≡ ok chains
unfolding filter_chains_from_processing build_chains filter_chain_from_names take_filter guarded
    find new_built_in_filter processing_component_type
chains_built = refl

abbrev rule : String → List String → List String → List String → String → Rule
rule name groups resources kinds chain = record {
  name = name;
  groups = groups;
  resources = resources;
  kinds = kinds;
  disabled = false;
  base = no_profile;
  profile = record no_profile { filter_chain = chain };
}

abbrev pub rules : List Rule
rules =
    rule "pod_fast_path" ("" ∷ []) ("pods" ∷ []) [] ""
    ∷ rule "node_summary" ("" ∷ []) ("nodes" ∷ []) [] ""
    ∷ rule "event_rollup" [] ("events" ∷ []) ("event" ∷ []) "event_rollup"
    ∷ rule "endpointslice_topology" ("discovery.k8s.io" ∷ []) ("endpointslices" ∷ []) [] ""
    ∷ record (rule "lease_skip_or_downsample" ("coordination.k8s.io" ∷ []) ("leases" ∷ []) []
        "lease_skip") { disabled = true }
    ∷ record (rule "low_signal_report" ("wgpolicyk8s.io" ∷ [])
        ("policyreports" ∷ "clusterpolicyreports" ∷ []) [] "report_skip") { disabled = true }
    ∷ record (rule "low_signal_report" ("reports.kyverno.io" ∷ [])
        ("ephemeralreports" ∷ "clusterephemeralreports" ∷ []) [] "report_skip") { disabled = true }
    ∷ rule "secret_metadata_only" ("" ∷ []) ("secrets" ∷ []) [] "secret_metadata_only"
    ∷ []

abbrev pub pipeline : Pipeline MemoryStore
pipeline = record {
  cluster_id = "local";
  filters = default_chain;
  filter_chains = chains;
  extractors = new_registry [] [];
  profile_rules = rules;
  resolver = empty;
  store = memory_store;
  now = λ n. n;
  number = λ literal. str literal;
  round_trip = λ m. ok m;
}

chosen_for : (resource kind : String) (namespaced : Bool) → Profile
chosen_for resource kind namespaced =
    select
      (record {
        group = "";
        version = "v1";
        resource = resource;
        kind = kind;
        namespaced = namespaced;
        verbs = [];
      })
      rules

secrets_chain :
    (kind : String) (namespaced : Bool)
    → (chosen_for "secrets" kind namespaced).filter_chain ≡ "secret_metadata_only"
unfolding chosen_for select select_from matches apply merge_profile Profile.normalize
    match_any_string match_any_resource match_resource resource_candidates match Match.normalize
secrets_chain kind namespaced = refl

pods_chain :
    (kind : String) (namespaced : Bool)
    → (chosen_for "pods" kind namespaced).filter_chain ≡ "default"
unfolding chosen_for select select_from matches apply merge_profile Profile.normalize
    match_any_string match_any_resource match_resource resource_candidates match Match.normalize
pods_chain kind namespaced = refl

-- The chain of an observation of a core v1 secret, and of a core v1 pod.
pub secrets_filtered :
    (obs : Observation)
    → obs.ref.group ≡ ""
    → obs.ref.version ≡ "v1"
    → obs.ref.resource ≡ "secrets"
    → filter_chain_for_profile pipeline (profile_for_observation pipeline obs) ≡ secret_chain
unfolding filter_chain_for_profile profile_for_observation select_chain find_chain chosen_for
secrets_filtered obs group version resource =
    let chosen = secrets_chain obs.ref.kind (not (obs.ref.namespace == "")) in
    rw
      (
        filter_chain_for_profile, profile_for_observation, select_chain, find_chain, group, version,
        resource, chosen,
      )
      refl

pub pods_filtered :
    (obs : Observation)
    → obs.ref.group ≡ ""
    → obs.ref.version ≡ "v1"
    → obs.ref.resource ≡ "pods"
    → filter_chain_for_profile pipeline (profile_for_observation pipeline obs) ≡ default_chain
unfolding filter_chain_for_profile profile_for_observation select_chain find_chain chosen_for
pods_filtered obs group version resource =
    let chosen = pods_chain obs.ref.kind (not (obs.ref.namespace == "")) in
    rw
      (
        filter_chain_for_profile, profile_for_observation, select_chain, find_chain, group, version,
        resource, chosen,
      )
      refl
