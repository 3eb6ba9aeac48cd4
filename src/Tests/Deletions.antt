-- ===== src/Tests/Deletions.antt =====
-- Deletions, over the default filter chains.
use kube_insight.Prelude.{
  String, ◌<◌, true, false, Option, none, some, List, [], ◌∷◌, ◌++◌, ◌≡◌, refl, ap, sym, All, ◌∙◌,
  is_some,
}
use kube_insight.Prelude.Result.{ok}
use kube_insight.Json.{Fields, str, end, get, str_or_empty}
use kube_insight.Core.{ResourceRef, Observation, deleted}
use kube_insight.Kubeapi.{
  ResourceInfo, Resolver, empty, register, register_from_object, resolve_gvk, lookup, insert,
  insert_core, api_version, split_api_version, register_all, resource_ref_from_object,
}
use kube_insight.Filter.{Decision, apply_chain, Filter, keep_modified, apply_from}
use kube_insight.Extractor.{new_registry, extract_set, extract_entries, of_kind}
use kube_insight.Storage.Memory
use kube_insight.Storage.Memory.{
  MemoryStore, new_memory_store, upsert_ingestion_offset, latest_resource_refs, put_observation,
  put_filter_decisions, put_raw_latest,
}
use kube_insight.Ingest.Memory.{memory_store}
use kube_insight.Ingest.Memory.Log.{memory_log, memory-Steady, memory_loads}
use kube_insight.Ingest.Entries.{Log}
use kube_insight.Ingest.Deletion.{Passes, apply_chain-keeps, scoped-Acts, ingest_json-deletion}
use kube_insight.Processing.{FilterOptions, find, new_built_in_filter}
use kube_insight.Processing.Outcomes.{Acts}
use kube_insight.Processing.Filters.{new_built_in_filter-Sound}
use kube_insight.Ingest.Configured.Laws.{configured_chain-Accounted}
use kube_insight.Collector.Watch.Reconcile.Laws.{
  only, delete_all, delete_summary, gone_from, count, reconcile_accounts,
}
use kube_insight.Tests.Configured.{readers}
use kube_insight.Ingest.Secrets.{ok_inj}
use kube_insight.Ingest.Pipeline.{
  Pipeline, no_summary, filter_chain_for_profile, has_decision, load_resources, ingest_json,
  ingest_one, after_decisions, ingest_inputs, is_deletion, put_decisions, put_raw, register_inputs,
  select_chain, store_filtered, profile_for_observation,
}
use kube_insight.Collector.Watch.{Options, Backend, WatchSummary, pipeline_for, plain, ingest_list}
use kube_insight.Collector.Watch.Reconcile.{
  deleted_observation, deleted_object, reconcile_refs, deleted_metadata, resource_ref_key,
  set_unless_empty, reconcile_deleted_from_list, current_keys, elsewhere,
}
use kube_insight.Collector.Watch.Reconcile.Deletion.{
  object_reads, deletion_of, deleted_observation-back,
}
use kube_insight.Collector.Watch.Reconcile.Delist.{reconcile_delists}
use kube_insight.Collector.Watch.Reconcile.Listed.{IsOurs, Unlisted}
use kube_insight.Ingest.Decode.{
  decode_observation_inputs, decode_items, decode_observation_input, normalize_numbers,
  observation_type, observation_from_object,
}
use kube_insight.Ingest.Raw.{raw_latest_observation}
use kube_insight.Profile.{select, default_profile}
use kube_insight.Prelude.Text.{equal_fold}
use mathlib.Core.Path.{subst}
use kube_insight.Collector.Int.{pos, less_int}
use kube_insight.Ingest.Rounds.{taken}
use kube_insight.Tests.{pod_ref, pod}
use kube_insight.Tests.Watch.{pods}
use kube_insight.Tests.Defaults.{
  pipeline, processing, chains, chains_built, default_chain, pods_filtered,
}

abbrev backend : Backend MemoryStore
backend = record {
  default_pipeline = pipeline;
  latest_refs =
      some (λ cluster_id info namespace s. ok (latest_resource_refs s cluster_id info namespace));
  put_offset = some (λ offset s. (upsert_ingestion_offset offset s, none));
  encode = λ document. ok document;
  now = λ s. 0;
  error_of = plain;
}

abbrev options : Options
options = record {
  cluster_id = "local";
  info = pods;
  namespace = "shop";
  max_events = 2;
  max_retries = some 1;
  deadline = none;
  overrides = record {
    filters = none;
    filter_chains = record { default = none; by_name = [] };
    extractors = none;
    profile_rules = [];
  };
}

abbrev p : Pipeline MemoryStore
p = pipeline_for backend options

p_memory : p.store ≡ memory_store
unfolding pipeline_for
p_memory = refl

p_chains :
    (obs : Observation)
    → filter_chain_for_profile p (profile_for_observation p obs)
      ≡ filter_chain_for_profile pipeline (profile_for_observation pipeline obs)
unfolding pipeline_for filter_chain_for_profile profile_for_observation
p_chains obs = refl

abbrev paths : String → List String → FilterOptions
paths name remove = record {
  name = name;
  remove_paths = remove;
  keep_secret_keys = false;
  script = "";
}

abbrev log : Log p
log = memory_log p p_memory

built-Acts :
    (name : String) (remove : List String) (f : Filter)
    → new_built_in_filter readers name (paths name remove) ≡ ok (f, keep_modified)
    → Acts keep_modified f
built-Acts name remove f built =
    (new_built_in_filter-Sound readers name (paths name remove) f keep_modified built).1

default_chain-Acts : All (Acts keep_modified) default_chain
unfolding new_built_in_filter find
default_chain-Acts = (
  built-Acts "managed_fields" ("/metadata/managedFields" ∷ []) _ refl,
  (
    built-Acts "resource_version" ("/metadata/resourceVersion" ∷ []) _ refl,
    (
      built-Acts "metadata_generation" ("/metadata/generation" ∷ []) _ refl,
      (
        built-Acts "status_condition_set" [] _ refl,
        (
          scoped-Acts keep_modified _ _ (
              built-Acts "leader_election_configmap"
                ("/metadata/annotations/control-plane.alpha.kubernetes.io~1leader" ∷ []) _ refl),
          (
            scoped-Acts keep_modified _ _ (built-Acts "cluster_autoscaler_status" [] _ refl),
            (scoped-Acts keep_modified _ _ (built-Acts "gke_webhook_heartbeat" [] _ refl), tt),
          ),
        ),
      ),
    ),
  ),
)

-- The chain of pods discards nothing.
pods-Passes :
    (obs : Observation)
    → obs.type ≡ deleted
    → obs.ref.group ≡ ""
    → obs.ref.version ≡ "v1"
    → obs.ref.resource ≡ "pods"
    → Passes p obs
unfolding select_chain
pods-Passes obs gone group version resource =
    rw (p_chains obs ∙ pods_filtered obs group version resource) (
      apply_chain-keeps default_chain obs default_chain-Acts,
      (configured_chain-Accounted readers processing chains "default" obs chains_built).0,
    )

-- The resolver of the pipeline, with the resources of the store.
abbrev loaded : Resolver
loaded = register_all (pods ∷ []) pipeline.resolver

register_pod :
    (object : Fields)
    → str_or_empty (get "kind" object) ≡ "Pod"
    → str_or_empty (get "apiVersion" object) ≡ "v1"
    → (resolve_gvk (register_from_object object loaded) "" "v1" "Pod").0.resource ≡ "pods"
unfolding register_from_object register resolve_gvk split_api_version lookup insert insert_core
    register_all
register_pod object kind version = rw (register_from_object, kind, version) refl

pod_reads :
    (ref : ResourceRef) (rv : String)
    → IsOurs options ref
    → (str_or_empty (get "kind" (deleted_object ref rv)) ≡ "Pod")
      × (str_or_empty (get "apiVersion" (deleted_object ref rv)) ≡ "v1")
pod_reads ref rv ours =
    let reads = object_reads ref rv in
    (reads.0 ∙ ours.kind, reads.1 ∙ ap (λ g. api_version g ref.version) ours.group ∙ ours.version)

p-knows :
    (ref : ResourceRef) (rv : String)
    → IsOurs options ref
    → (resolve_gvk
        (register_from_object (deleted_object ref rv) loaded)
        ref.group
        ref.version
        ref.kind).0.resource
      ≡ "pods"
p-knows ref rv ours =
    let object = deleted_object ref rv in
    let reads = pod_reads ref rv ours in
    ap (λ g. (resolve_gvk (register_from_object object loaded) g ref.version ref.kind).0.resource)
      ours.group
    ∙ ap (λ v. (resolve_gvk (register_from_object object loaded) "" v ref.kind).0.resource)
        ours.version
    ∙ ap (λ k. (resolve_gvk (register_from_object object loaded) "" "v1" k).0.resource) ours.kind
    ∙ register_pod object reads.0 reads.1

abbrev before : MemoryStore
before = record new_memory_store { observations = pod ∷ []; resources = pods ∷ [] }

pod-IsOurs : IsOurs options pod_ref
pod-IsOurs = record {
  cluster = refl;
  group = refl;
  version = refl;
  resource = refl;
  kind = refl;
  plain = tt;
  core = λ e. ((λ h. cc h), ((λ h. cc h), tt));
}

reconciled_fine :
    (reconcile_refs backend options "7" [] (pod_ref ∷ []) 0 0 no_summary before).error ≡ none
unfolding reconcile_refs pipeline_for ingest_json get apply_chain filter_chain_for_profile
    has_decision load_resources register_from_object register resolve_gvk split_api_version lookup
    insert insert_core deleted_object deleted_observation new_registry ingest_list
    decode_observation_inputs decode_items decode_observation_input normalize_numbers
    observation_type observation_from_object ingest_one after_decisions ingest_inputs is_deletion
    put_decisions put_raw register_inputs select_chain store_filtered profile_for_observation
    raw_latest_observation apply_from extract_set extract_entries of_kind select equal_fold
    resource_ref_from_object deleted_metadata resource_ref_key set_unless_empty
    kube_insight.Match.match_any_string kube_insight.Match.normalize
    kube_insight.Match.match_any_resource kube_insight.Match.match_resource register_all
    kube_insight.Filter.Paths.path_remove kube_insight.Filter.Paths.path_remove_apply
    kube_insight.Filter.Paths.remove_paths kube_insight.Filter.Paths.remove_path
    kube_insight.Filter.Paths.parse_pointer kube_insight.Filter.Paths.remove_step
    kube_insight.Json.set kube_insight.Json.delete
    kube_insight.Filter.Conditions.condition_set_apply kube_insight.Filter.Scope.scoped
    kube_insight.Collector.Int.same_int kube_insight.Collector.Watch.add_ingest
    kube_insight.Filter.Paths.at_key kube_insight.Filter.Scope.scope_empty
    kube_insight.Filter.Scope.scope_matches kube_insight.Ingest.Pipeline.find_chain
    kube_insight.Kubeapi.fallback_info kube_insight.Kubeapi.register_crd kube_insight.Match.match
    kube_insight.Match.resource_candidates kube_insight.Profile.apply kube_insight.Profile.matches
    kube_insight.Profile.merge_profile kube_insight.Profile.normalize
    kube_insight.Profile.select_from Memory.api_resources
reconciled_fine = refl

reconcile_delists_example :
    All
      (λ ref.
        gone_from "shop" [] ref ≡ true
        → Unlisted backend options log
            (Memory.resource_ref_key ref)
            (reconcile_refs backend options "7" [] (pod_ref ∷ []) 0 0 no_summary before).state)
      (pod_ref ∷ [])
    × ((key : String)
        → Unlisted backend options log key before
        → Unlisted backend options log key
            (reconcile_refs backend options "7" [] (pod_ref ∷ []) 0 0 no_summary before).state)
unfolding pipeline_for
reconcile_delists_example =
    reconcile_delists backend options log (memory-Steady p p_memory) loaded (λ e. cc e) pods-Passes
      (λ ref rv. refl) p-knows "7" [] (pod_ref ∷ []) 0 0 no_summary before
      (memory_loads p p_memory before) (pod-IsOurs, tt) reconciled_fine

reconcile_accounts_example :
    let r = reconcile_deleted_from_list backend options "7" (pod_ref ∷ []) [] before in
    let gone = only (gone_from "shop" (current_keys "local" pods [])) (pod_ref ∷ []) in
    (r.error ≡ none
      → (r.deleted ≡ count (gone_from "shop" (current_keys "local" pods [])) (pod_ref ∷ []))
        × (r.unknown_visibility ≡ count (elsewhere "shop") (pod_ref ∷ []))
        × (r.state ≡ delete_all backend options "7" gone before)
        × (r.ingest ≡ delete_summary backend options "7" gone no_summary before))
    × (is_some r.error ≡ true
        → r.deleted < count (gone_from "shop" (current_keys "local" pods [])) (pod_ref ∷ []))
reconcile_accounts_example = reconcile_accounts backend options "7" (pod_ref ∷ []) [] before

deleted_observation-back_example :
    (decode_observation_inputs pipeline.number (deleted_observation pod_ref "7")
      ≡ ok (record { type = deleted; object = deleted_object pod_ref "7" } ∷ []))
    × (observation_from_object "local" deleted 0 loaded (deleted_object pod_ref "7")
        ≡ deletion_of "local" 0 loaded pod_ref "7")
deleted_observation-back_example =
    deleted_observation-back pipeline.number "local" 0 loaded pod_ref "7" tt
      (λ e. ((λ h. cc h), ((λ h. cc h), tt)))

one_deletion :
    decode_observation_inputs p.number (deleted_observation pod_ref "7")
    ≡ ok (record { type = deleted; object = deleted_object pod_ref "7" } ∷ [])
unfolding pipeline_for
one_deletion = deleted_observation-back_example.0

deletion_fine : (ingest_json p (deleted_observation pod_ref "7") before).error ≡ none
unfolding pipeline_for ingest_json get apply_chain filter_chain_for_profile has_decision
    load_resources register_from_object register resolve_gvk split_api_version lookup insert
    insert_core deleted_object deleted_observation new_registry ingest_list
    decode_observation_inputs decode_items decode_observation_input normalize_numbers
    observation_type observation_from_object ingest_one after_decisions ingest_inputs is_deletion
    put_decisions put_raw register_inputs select_chain store_filtered profile_for_observation
    raw_latest_observation apply_from extract_set extract_entries of_kind select equal_fold
    resource_ref_from_object deleted_metadata resource_ref_key set_unless_empty
    kube_insight.Match.match_any_string kube_insight.Match.normalize
    kube_insight.Match.match_any_resource kube_insight.Match.match_resource register_all
    kube_insight.Filter.Paths.path_remove kube_insight.Filter.Paths.path_remove_apply
    kube_insight.Filter.Paths.remove_paths kube_insight.Filter.Paths.remove_path
    kube_insight.Filter.Paths.parse_pointer kube_insight.Filter.Paths.remove_step
    kube_insight.Json.set kube_insight.Json.delete
    kube_insight.Filter.Conditions.condition_set_apply kube_insight.Filter.Scope.scoped
    kube_insight.Collector.Int.same_int kube_insight.Collector.Watch.add_ingest
    kube_insight.Filter.Paths.at_key kube_insight.Filter.Scope.scope_empty
    kube_insight.Filter.Scope.scope_matches kube_insight.Ingest.Pipeline.find_chain
    kube_insight.Kubeapi.fallback_info kube_insight.Kubeapi.register_crd kube_insight.Match.match
    kube_insight.Match.resource_candidates kube_insight.Profile.apply kube_insight.Profile.matches
    kube_insight.Profile.merge_profile kube_insight.Profile.normalize
    kube_insight.Profile.select_from Memory.api_resources
deletion_fine = refl

deletion_taken :
    (r : Resolver)
    → taken p r (record { type = deleted; object = deleted_object pod_ref "7" }) no_summary
      ≡ deletion_of "local" 0 r pod_ref "7"
unfolding pipeline_for
deletion_taken r =
    (deleted_observation-back pipeline.number "local" 0 r pod_ref "7" tt
      (λ e. ((λ h. cc h), ((λ h. cc h), tt)))).1

deletion-Passes :
    (known : Resolver)
    → load_resources p before ≡ ok known
    → Passes p (
        taken p
          (register_from_object (deleted_object pod_ref "7") known)
          (record { type = deleted; object = deleted_object pod_ref "7" })
          no_summary)
unfolding pipeline_for
deletion-Passes known is =
    let same : loaded ≡ known = ok_inj (sym (memory_loads p p_memory before) ∙ is) in
    let object = deleted_object pod_ref "7" in
    subst
      (λ r. Passes p (
        taken p (register_from_object object r) (record { type = deleted; object = object })
          no_summary))
      same
      (subst (Passes p) (sym (deletion_taken (register_from_object object loaded))) (
        pods-Passes (deletion_of "local" 0 (register_from_object object loaded) pod_ref "7") refl
          refl refl (p-knows pod_ref "7" pod-IsOurs)))

ingest_json-deletion_example :
    (loaded : Resolver) × (left : Option Fields) × (load_resources p before ≡ ok loaded)
    × (log.entries (ingest_json p (deleted_observation pod_ref "7") before).state
        ≡ log.entries before
          ++ record (taken p
              (register_from_object (deleted_object pod_ref "7") loaded)
              (record { type = deleted; object = deleted_object pod_ref "7" })
              no_summary) { object = left }
            ∷ [])
ingest_json-deletion_example =
    ingest_json-deletion p log (deleted_observation pod_ref "7") (deleted_object pod_ref "7") before
      deletion-Passes one_deletion deletion_fine
