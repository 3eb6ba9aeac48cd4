-- ===== src/Ingest/Pipeline.antt =====
-- internal/ingest/json.go and filters.go: the pipeline, over any store. A store's operation returns
-- the store that it leaves and an error; the interfaces that a store need not have are optional. The
-- clock gives the time of each call of Now.
use kube_insight.Prelude.{
  String, ℕ, ◌+◌, Bool, true, false, not, ◌&&◌, ◌||◌, Option, none, some, List, [], ◌∷◌, ◌==◌,
  if◌then◌else◌, any, is_empty, is_some, length,
}
use kube_insight.Prelude.Result.{Result, ok, err}
use kube_insight.Core.{Observation, ObservationType, deleted}
use kube_insight.Json.{Value, Fields}
use kube_insight.Kubeapi.{ResourceInfo, Resolver, register_all, register_from_object}
use kube_insight.Filter.{
  Filter, Decision, Outcome, keep_modified, discard_change, discard_resource, same_outcome, Applied,
  apply_chain,
}
use kube_insight.Profile.{Profile, Rule, select}
use kube_insight.Extractor.{Registry, Evidence, extract_set}
use kube_insight.Ingest.Decode.{
  ObservationInput, decode_observation_inputs, observation_from_object,
}
use kube_insight.Ingest.Raw.{raw_latest_observation}

pub record Summary : Type 0 where
  pub observations : ℕ
  pub stored_observations : ℕ
  pub modified_observations : ℕ
  pub discarded_changes : ℕ
  pub discarded_resources : ℕ
  pub facts : ℕ
  pub edges : ℕ
  pub changes : ℕ

abbrev pub no_summary : Summary
no_summary = record {
  observations = 0;
  stored_observations = 0;
  modified_observations = 0;
  discarded_changes = 0;
  discarded_resources = 0;
  facts = 0;
  edges = 0;
  changes = 0;
}

-- storage.Store with the interfaces that the pipeline asks it for, over the states `S` of the store.
pub record Store (S : Type 0) : Type 0 where
  pub put_observation : Observation → Evidence → S → S × Option String
  pub api_resources : Option (S → Result (List ResourceInfo))
  pub put_filter_decisions : Option (Observation → List Decision → S → S × Option String)
  pub put_raw_latest : Option (Observation → S → S × Option String)

-- A chain that is nil is none; the chains by name are a map.
pub record FilterChains : Type 0 where
  pub default : Option (List Filter)
  pub by_name : List (String × List Filter)

abbrev pub chain_of : Option (List Filter) → List Filter
chain_of none = []
chain_of (some fs) = fs

unfoldable pub find_chain : String → List (String × List Filter) → Option (List Filter)
find_chain name [] = none
find_chain name ((n, fs) ∷ chains) = if n == name then some fs else find_chain name chains

-- FilterChains.Select
unfoldable pub select_chain : FilterChains → String → List Filter
unfolding find_chain
select_chain chains name =
    if name == "" || name == "default"
    then chain_of chains.default
    else if name == "none"
    then []
    else elim (find_chain name chains.by_name) [ some fs ↦ fs | none ↦ chain_of chains.default ]

pub record Pipeline (S : Type 0) : Type 0 where
  pub cluster_id : String
  pub filters : List Filter
  pub filter_chains : FilterChains
  pub extractors : Registry
  pub profile_rules : List Rule
  pub resolver : Resolver
  pub store : Store S
  pub now : ℕ → ℕ
  pub number : String → Value
  pub round_trip : Fields → Result Fields

unfoldable pub has_decision : List Decision → Outcome → Bool
has_decision ds outcome = any (λ d. same_outcome d.outcome outcome) ds

-- What IngestJSON returns, and the store that it leaves.
pub record Ingested (S : Type 0) : Type 0 where
  pub summary : Summary
  pub state : S
  pub error : Option String

module _ {S : Type 0} (p : Pipeline S) where
  unfoldable pub profile_for_observation : Observation → Profile
  profile_for_observation obs =
      select
        (record {
          group = obs.ref.group;
          version = obs.ref.version;
          resource = obs.ref.resource;
          kind = obs.ref.kind;
          namespaced = not (obs.ref.namespace == "");
          verbs = [];
        })
        p.profile_rules

  unfoldable pub filter_chain_for_profile : Profile → List Filter
  filter_chain_for_profile profile =
      if is_some p.filter_chains.default || not (is_empty p.filter_chains.by_name)
      then select_chain p.filter_chains profile.filter_chain
      else p.filters

  -- The end of a round: extraction, and the store of the filtered observation.
  unfoldable pub store_filtered : Profile → Applied → Summary → S → Ingested S
  store_filtered profile applied summary s =
      let counted =
        if has_decision applied.decisions keep_modified
        then record summary { modified_observations = summary.modified_observations + 1 }
        else summary in
      let extracted = extract_set p.extractors applied.observation profile.extractor_set in
      let put = p.store.put_observation applied.observation extracted.evidence s in
      elim extracted.error [
        | some e ↦ record { summary = counted; state = s; error = some e }
        | none ↦ elim put.1 [
          | some e ↦ record { summary = counted; state = put.0; error = some e }
          | none ↦ record {
            summary = record counted {
              stored_observations = counted.stored_observations + 1;
              facts = counted.facts + length extracted.evidence.facts;
              edges = counted.edges + length extracted.evidence.edges;
              changes = counted.changes + length extracted.evidence.changes;
            };
            state = put.0;
            error = none;
          }
        ]
      ]

  -- What the round does with the raw object, where the store keeps raw objects.
  unfoldable pub put_raw : Observation → S → S × Option String
  put_raw obs s = elim p.store.put_raw_latest [
    | none ↦ (s, none)
    | some put ↦ elim (raw_latest_observation p.round_trip obs) [
      | err e ↦ (s, some e)
      | ok raw ↦ put raw s
    ]
  ]

  unfoldable pub put_decisions : Applied → S → S × Option String
  put_decisions applied s = elim p.store.put_filter_decisions [
    | none ↦ (s, none)
    | some put ↦ put applied.observation applied.decisions s
  ]

  unfoldable pub is_deletion : ObservationType → Bool
  is_deletion deleted = true
  is_deletion _ = false

  -- The round behind the decisions: the discards, the raw object, and the store.
  unfoldable pub after_decisions : Observation → Profile → Applied → Summary → S → Ingested S
  unfolding store_filtered put_raw is_deletion
  after_decisions obs profile applied summary s =
      let raw = put_raw obs s in
      if has_decision applied.decisions discard_resource
      then record {
        summary = record summary { discarded_resources = summary.discarded_resources + 1 };
        state = s;
        error = none;
      }
      else elim raw.1 [
        | some e ↦ record { summary = summary; state = raw.0; error = some e }
        | none ↦
            if has_decision applied.decisions discard_change
              && not (is_deletion applied.observation.type)
            then record {
              summary = record summary { discarded_changes = summary.discarded_changes + 1 };
              state = raw.0;
              error = none;
            }
            else store_filtered profile applied summary raw.0
      ]

  -- One round of the loop over the inputs.
  unfoldable pub ingest_one : Resolver → ObservationInput → Summary → S → Ingested S
  unfolding after_decisions put_decisions
  ingest_one resolver input summary s =
      let obs =
        observation_from_object (if p.cluster_id == "" then "local" else p.cluster_id) input.type
          (p.now summary.observations) resolver input.object in
      let counted = record summary { observations = summary.observations + 1 } in
      let profile = profile_for_observation obs in
      let applied = apply_chain (filter_chain_for_profile profile) obs in
      let put = put_decisions applied s in
      elim applied.error [
        | some e ↦ record { summary = counted; state = s; error = some e }
        | none ↦ elim put.1 [
          | some e ↦ record { summary = counted; state = put.0; error = some e }
          | none ↦ after_decisions obs profile applied counted put.0
        ]
      ]

  -- The loop over the inputs: it ends at the first error.
  unfoldable pub ingest_inputs : Resolver → List ObservationInput → Summary → S → Ingested S
  ingest_inputs resolver [] summary s = record { summary = summary; state = s; error = none }
  ingest_inputs resolver (i ∷ is) summary s =
      let r = ingest_one resolver i summary s in
      elim r.error [ some e ↦ r | none ↦ ingest_inputs resolver is r.summary r.state ]

  unfoldable pub register_inputs : List ObservationInput → Resolver → Resolver
  register_inputs [] r = r
  register_inputs (i ∷ is) r = register_inputs is (register_from_object i.object r)

  -- The resolver with the resources of the store.
  unfoldable pub load_resources : S → Result Resolver
  load_resources s = elim p.store.api_resources [
    | none ↦ ok p.resolver
    | some read ↦ elim (read s) [ err e ↦ err e | ok rs ↦ ok (register_all rs p.resolver) ]
  ]

  -- IngestJSON, from the decoded document.
  unfoldable pub ingest_json : Fields → S → Ingested S
  unfolding load_resources register_inputs ingest_inputs
  ingest_json root s = elim (decode_observation_inputs p.number root) [
    | err e ↦ record { summary = no_summary; state = s; error = some e }
    | ok inputs ↦ elim (load_resources s) [
      | err e ↦ record { summary = no_summary; state = s; error = some e }
      | ok resolver ↦ ingest_inputs (register_inputs inputs resolver) inputs no_summary s
    ]
  ]
