-- ===== src/Tests/Ingest.antt =====
-- Runs of the pipeline over the store in memory.
use mathlib.Core.Path.{subst}
use kube_insight.Prelude.{
  String, true, Option, none, some, List, [], ◌∷◌, ◌≡◌, refl, length, ◌≤◌, ◌+◌, if◌then◌else◌, ◌==◌,
  false, Bool-cases, inl, inr, ap, ◌∙◌, sym, is_some, ◌++◌,
}
use kube_insight.Prelude.Text.{equal_fold}
use kube_insight.Prelude.Result.{ok}
use kube_insight.Json.{Fields, str, obj, arr, end, field, nil, cons, get, set}
use kube_insight.Core.{Observation, deleted, modified, ResourceRef}
use kube_insight.Kubeapi.{ResourceInfo, register_all, Resolver}
use kube_insight.Filter.{Filter, Decision, apply_chain, keep_modified}
use kube_insight.Filter.Objects.{
  managed_fields, resource_version, secret_redaction, managed_fields_apply, resource_version_apply,
  secret_redaction_apply,
}
use kube_insight.Extractor.{Evidence}
use kube_insight.Storage.Memory.{
  MemoryStore, IngestionOffset, watch, new_memory_store, upsert_ingestion_offset, offset_key,
  latest_resource_refs, selects,
}
use kube_insight.Storage.Memory.Keys.{DistinctOffsets, find_offset, upsert_ingestion_offset_lem}
use kube_insight.Storage.Memory.Latest.{find_ref, live, last_of, latest_resource_refs_lem}
use kube_insight.Ingest.Decode.{
  ObservationInput, decode_observation_inputs, decode_items, decode_observation_input,
  normalize_numbers,
}
use kube_insight.Ingest.Raw.{raw_latest_observation}
use kube_insight.Ingest.Pipeline.{
  filter_chain_for_profile, ingest_json, profile_for_observation, register_inputs,
}
use kube_insight.Ingest.Accounting.{settled, ingest_json_accounts, kept_inputs}
use kube_insight.Ingest.Secrets.{
  IsPayloadFree, secret_redaction-Redacts, managed_fields-DiscardsNothing,
  resource_version-DiscardsNothing, apply_chain_redacts, Redacts, DiscardsNothing, ok_inj,
}
use kube_insight.Ingest.Secrets.Copies.{IsRedactedCopy, raw_latest-IsRedacted}
use kube_insight.Ingest.Secrets.Stored.{ingest_json-keeps}
use kube_insight.Ingest.Memory.{
  KeepsSecrets, some_inj, put_observation-Keeps, put_filter_decisions-Keeps, put_raw_latest-Keeps,
  memory-KeepsSecrets, IsSecretFree,
}
use kube_insight.Filter.Scope.{Scope, scoped, scope_matches, scope_empty}
use kube_insight.Match
use kube_insight.Match.{
  match_any_resource, match_resource, resource_candidates, unique_non_empty, match,
}
use kube_insight.Ingest.Entries.{Log}
use kube_insight.Processing.{new_built_in_filter, find}
use kube_insight.Processing.Filters.{new_built_in_filter-Sound}
use kube_insight.Ingest.Memory.Log.{memory_log, memory_loads}
use kube_insight.Ingest.Configured.Laws.{configured_chain-Accounted}
use kube_insight.Tests.Configured.{readers}
use kube_insight.Tests.Defaults.{
  pipeline, processing, chains, chains_built, secrets_only, secrets_filtered, fields,
  version as version_field,
}
use kube_insight.Tests.{secret, secret_object, pod}

abbrev secrets : ResourceInfo
secrets = record {
  group = "";
  version = "v1";
  resource = "secrets";
  kind = "Secret";
  namespaced = true;
  verbs = [];
}

abbrev offset_at : String → IngestionOffset
offset_at resource_version = record {
  cluster_id = "local";
  resource = secrets;
  namespace = "";
  resource_version = resource_version;
  event = watch;
  status = "";
  error = "";
  at = 0;
}

abbrev with_offset : MemoryStore
with_offset = record new_memory_store { offsets = offset_at "41" ∷ [] }

upsert_ingestion_offset_lem_example :
    DistinctOffsets (upsert_ingestion_offset (offset_at "42") with_offset).offsets
    × ((key : String)
        → find_offset key (upsert_ingestion_offset (offset_at "42") with_offset).offsets ≡ (
            if offset_key (offset_at "42") == key
            then some (offset_at "42")
            else find_offset key with_offset.offsets))
upsert_ingestion_offset_lem_example =
    upsert_ingestion_offset_lem (offset_at "42") with_offset (refl, tt)

-- The secret is seen, and then deleted.
abbrev history : MemoryStore
history = record new_memory_store {
  observations = secret ∷ pod ∷ record secret { type = deleted } ∷ [];
}

latest_resource_refs_lem_example :
    find_ref "key" (latest_resource_refs history "local" secrets "")
    ≡ live (last_of (selects "local" secrets "") "key" history.observations)
latest_resource_refs_lem_example = latest_resource_refs_lem history "local" secrets "" "key"

nothing_left : latest_resource_refs history "local" secrets "" ≡ []
unfolding latest_resource_refs
nothing_left = refl

abbrev chain : List Filter
chain = managed_fields ∷ resource_version ∷ secret_redaction ∷ []

abbrev document : Fields
document =
    field "items" (arr (cons (obj secret_object) (cons (obj (field "kind" (str "Pod") end)) nil)))
      end

abbrev inputs : List ObservationInput
inputs =
    record { type = modified; object = secret_object }
    ∷ record { type = modified; object = field "kind" (str "Pod") end }
    ∷ []

inputs_decoded : decode_observation_inputs pipeline.number document ≡ ok inputs
unfolding decode_observation_inputs get decode_items decode_observation_input normalize_numbers
inputs_decoded = refl

abbrev log : Log pipeline
log = memory_log pipeline refl

abbrev loaded : Resolver
loaded = register_all new_memory_store.resources pipeline.resolver

ingest_json_accounts_example :
    let r = ingest_json pipeline document new_memory_store in
    let resolver = register_inputs pipeline inputs loaded in
    (done : List ObservationInput) × (left : List ObservationInput) × (inputs ≡ done ++ left)
    × (log.entries r.state ≡ log.entries new_memory_store ++ kept_inputs pipeline resolver done 0)
    × (r.summary.stored_observations ≡ length (kept_inputs pipeline resolver done 0))
    × (settled r.summary ≡ length done)
    × (r.error ≡ none → (left ≡ []) × (r.summary.observations ≡ length inputs))
    × (is_some r.error ≡ true
        → (r.summary.observations ≡ length done + 1) × (length done + 1 ≤ length inputs))
ingest_json_accounts_example =
    ingest_json_accounts pipeline log document new_memory_store inputs loaded inputs_decoded
      (memory_loads pipeline refl new_memory_store)

chain_fine : (apply_chain chain secret).error ≡ none
unfolding apply_chain managed_fields_apply get resource_version_apply secret_redaction_apply
chain_fine = refl

apply_chain_redacts_example : IsPayloadFree (apply_chain chain secret).observation
apply_chain_redacts_example =
    apply_chain_redacts secret_redaction secret_redaction-Redacts
      (managed_fields ∷ resource_version ∷ []) [] secret
      (managed_fields-DiscardsNothing, (resource_version-DiscardsNothing, tt)) tt chain_fine

abbrev raw_copy : Observation
raw_copy = record secret {
  object = some (
      field "kind" (str "Secret") (
        field "data" (obj (field "password" (str "<redacted>") end))
          (field "type" (str "Opaque") end)));
}

copied : raw_latest_observation (λ m. ok m) secret ≡ ok raw_copy
unfolding raw_latest_observation equal_fold get set
copied = refl

raw_latest-IsRedacted_example : IsRedactedCopy raw_copy
raw_latest-IsRedacted_example = raw_latest-IsRedacted (λ m. ok m) secret raw_copy copied

secrets_within :
    (ref : ResourceRef)
    → ref.resource ≡ "secrets"
    → scope_matches
        (record { resources = "secrets" ∷ []; kinds = []; namespaces = []; names = [] })
        ref
      ≡ true
unfolding scope_matches scope_empty match_any_resource match_resource resource_candidates
    unique_non_empty Match.normalize match
secrets_within ref secret = rw (scope_matches, secret) refl

secrets_only-Redacts : Redacts secrets_only
unfolding scoped
secrets_only-Redacts obs next d done =
    let scope : Scope = record {
      resources = "secrets" ∷ [];
      kinds = [];
      namespaces = [];
      names = [];
    } in
    elim (Bool-cases (scope_matches scope obs.ref)) [
      | inl within ↦ secret_redaction-Redacts obs next d (rw (scoped, within) at done)
      | inr outside ↦
          let same : obs ≡ next = ap (λ r. r.0) (ok_inj (rw (scoped, outside) at done)) in
          subst IsPayloadFree same
            (λ secret. absurd (cc (rw (secrets_within obs.ref secret) at outside)))
    ]

path-DiscardsNothing :
    (name : String) (remove : List String) (f : Filter)
    → new_built_in_filter readers name
        (record { name = name; remove_paths = remove; keep_secret_keys = false; script = "" })
      ≡ ok (f, keep_modified)
    → DiscardsNothing f
path-DiscardsNothing name remove f built obs next d done =
    elim ((new_built_in_filter-Sound readers name
        (record { name = name; remove_paths = remove; keep_secret_keys = false; script = "" }) f
        keep_modified built).1
      obs next d done) [ inl kept ↦ rw kept refl | inr changed ↦ rw changed refl ]

secrets_free :
    (obs : Observation)
    → let chain = filter_chain_for_profile pipeline (profile_for_observation pipeline obs) in
      let r = apply_chain chain obs in r.error ≡ none → IsSecretFree r.observation
unfolding filter_chain_for_profile new_built_in_filter find
secrets_free obs fine group version resource =
    let profile = profile_for_observation pipeline obs in
    let kept =
      (configured_chain-Accounted readers processing chains profile.filter_chain obs
        chains_built).0 in
    let same = ap (λ o. o.ref) kept in
    let chain =
      secrets_filtered obs (sym (ap (λ x. x.group) same) ∙ group)
        (sym (ap (λ x. x.version) same) ∙ version) (sym (ap (λ x. x.resource) same) ∙ resource) in
    rw chain (
      apply_chain_redacts secrets_only secrets_only-Redacts (fields ∷ version_field ∷ []) [] obs
        (
          path-DiscardsNothing "managed_fields" ("/metadata/managedFields" ∷ []) _ refl,
          (path-DiscardsNothing "resource_version" ("/metadata/resourceVersion" ∷ []) _ refl, tt),
        )
        tt (rw chain at fine) (rw chain at resource))

memory-KeepsSecrets_example : KeepsSecrets (ingest_json pipeline document new_memory_store).state
memory-KeepsSecrets_example =
    memory-KeepsSecrets pipeline refl secrets_free document new_memory_store (tt, tt, tt)

keeps_observations :
    (obs : Observation) (e : Evidence) (s : MemoryStore)
    → IsSecretFree obs
    → KeepsSecrets s
    → KeepsSecrets (pipeline.store.put_observation obs e s).0
keeps_observations obs e s free h = put_observation-Keeps obs e s free h

keeps_decisions :
    (put : Observation → List Decision → MemoryStore → MemoryStore × Option String)
    → pipeline.store.put_filter_decisions ≡ some put
    → (obs : Observation) (ds : List Decision) (s : MemoryStore) → IsSecretFree obs
    → KeepsSecrets s
    → KeepsSecrets (put obs ds s).0
keeps_decisions put is obs ds s free h =
    subst (λ f. KeepsSecrets (f obs ds s).0) (some_inj is)
      (put_filter_decisions-Keeps obs ds s free h)

keeps_copies :
    (put : Observation → MemoryStore → MemoryStore × Option String)
    → pipeline.store.put_raw_latest ≡ some put
    → (obs : Observation) (s : MemoryStore) → IsRedactedCopy obs
    → KeepsSecrets s
    → KeepsSecrets (put obs s).0
keeps_copies put is obs s redacted h =
    subst (λ f. KeepsSecrets (f obs s).0) (some_inj is) (put_raw_latest-Keeps obs s redacted h)

ingest_json-keeps_example : KeepsSecrets (ingest_json pipeline document new_memory_store).state
ingest_json-keeps_example =
    ingest_json-keeps pipeline IsSecretFree KeepsSecrets keeps_observations keeps_decisions
      keeps_copies secrets_free document new_memory_store (tt, tt, tt)
