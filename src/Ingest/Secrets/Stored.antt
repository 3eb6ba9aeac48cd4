-- ===== src/Ingest/Secrets/Stored.antt =====
-- What the pipeline hands to the store: a condition on the store that the writes keep, of what the
-- chains leave and of redacted copies, is kept by a run of the pipeline.
use kube_insight.Prelude.{
  String, Option, none, some, List, [], ◌∷◌, ◌≡◌, arith, Option-cases, inl, inr, ◌⊎◌,
}
use kube_insight.Json.{Fields}
use kube_insight.Core.{Observation}
use kube_insight.Kubeapi.{Resolver}
use kube_insight.Filter.{Decision, Applied, apply_chain}
use kube_insight.Filter.Chain.{Result-cases}
use kube_insight.Profile.{Profile}
use kube_insight.Extractor.{Evidence, extract_set}
use kube_insight.Ingest.Raw.{raw_latest_observation}
use kube_insight.Ingest.Decode.{ObservationInput, decode_observation_inputs}
use kube_insight.Ingest.Pipeline.{
  Summary, Pipeline, store_filtered, put_raw, put_decisions, after_decisions, ingest_one,
  ingest_inputs, ingest_json, filter_chain_for_profile, register_inputs, load_resources, no_summary,
  profile_for_observation,
}
use kube_insight.Ingest.Rounds.{taken, counted, ingest_one_lem}
use kube_insight.Ingest.Secrets.Copies.{IsRedactedCopy, raw_latest-IsRedacted}

module _ {S : Type 0} (p : Pipeline S) where
  after_decisions-state :
      (obs : Observation) (profile : Profile) (applied : Applied) (summary : Summary) (s : S)
      → let r = after_decisions p obs profile applied summary s in
        (r.state ≡ s)
        ⊎ (r.state ≡ (put_raw p obs s).0)
        ⊎ (r.state ≡ (store_filtered p profile applied summary (put_raw p obs s).0).state)
  unfolding after_decisions
  after_decisions-state obs profile applied summary s = ground arith

  -- A condition on what the chains leave, and one on the store that the three writes keep.
  module _ (Free : Observation → Type 0) (I : S → Type 0)
      (observations : (obs : Observation) (e : Evidence) (s : S)
        → Free obs
        → I s
        → I (p.store.put_observation obs e s).0)
      (decisions : (put : Observation → List Decision → S → S × Option String)
        → p.store.put_filter_decisions ≡ some put
        → (obs : Observation) (ds : List Decision) (s : S) → Free obs
        → I s
        → I (put obs ds s).0)
      (copies : (put : Observation → S → S × Option String)
        → p.store.put_raw_latest ≡ some put
        → (obs : Observation) (s : S) → IsRedactedCopy obs
        → I s
        → I (put obs s).0)
      (chains : (obs : Observation)
        → let chain = filter_chain_for_profile p (profile_for_observation p obs) in
          let r = apply_chain chain obs in r.error ≡ none → Free r.observation) where
    store_filtered-keeps :
        (profile : Profile) (applied : Applied) (summary : Summary) (s : S)
        → Free applied.observation
        → I s
        → I (store_filtered p profile applied summary s).state
    unfolding store_filtered
    store_filtered-keeps profile applied summary s free h =
        let extracted = extract_set p.extractors applied.observation profile.extractor_set in
        let put = p.store.put_observation applied.observation extracted.evidence s in
        let kept = observations applied.observation extracted.evidence s free h in
        elim (Option-cases extracted.error) [
          | inl fine ↦ elim (Option-cases put.1) [
            | inl stored ↦ rw (store_filtered, fine, stored) kept
            | inr (e, failed) ↦ rw (store_filtered, fine, failed) kept
          ]
          | inr (e, failed) ↦ rw (store_filtered, failed) h
        ]

    put_raw-keeps : (obs : Observation) (s : S) → I s → I (put_raw p obs s).0
    unfolding put_raw
    put_raw-keeps obs s h = elim (Option-cases p.store.put_raw_latest) [
      | inl absent ↦ rw (put_raw, absent) h
      | inr (put, present) ↦ elim (Result-cases (raw_latest_observation p.round_trip obs)) [
        | inl (e, failed) ↦ rw (put_raw, present, failed) h
        | inr (raw, done) ↦
            rw (put_raw, present, done)
              (copies put present raw s (raw_latest-IsRedacted p.round_trip obs raw done) h)
      ]
    ]

    put_decisions-keeps :
        (applied : Applied) (s : S)
        → Free applied.observation
        → I s
        → I (put_decisions p applied s).0
    unfolding put_decisions
    put_decisions-keeps applied s free h = elim (Option-cases p.store.put_filter_decisions) [
      | inl absent ↦ rw (absent) h
      | inr (put, present) ↦
          rw (present) (decisions put present applied.observation applied.decisions s free h)
    ]

    after_decisions-keeps :
        (obs : Observation) (profile : Profile) (applied : Applied) (summary : Summary) (s : S)
        → Free applied.observation
        → I s
        → I (after_decisions p obs profile applied summary s).state
    after_decisions-keeps obs profile applied summary s free h =
        let raw = put_raw-keeps obs s h in
        elim (after_decisions-state obs profile applied summary s) [
          | inl same ↦ rw (same) h
          | inr (inl copied) ↦ rw (copied) raw
          | inr (inr stored) ↦
              rw (stored)
                (store_filtered-keeps profile applied summary (put_raw p obs s).0 free raw)
        ]

    ingest_one-keeps :
        (resolver : Resolver) (input : ObservationInput) (summary : Summary) (s : S)
        → I s
        → I (ingest_one p resolver input summary s).state
    ingest_one-keeps resolver input summary s h =
        let obs = taken p resolver input summary in
        let profile = profile_for_observation p obs in
        let applied = apply_chain (filter_chain_for_profile p profile) obs in
        let put = put_decisions p applied s in
        elim (Option-cases applied.error) [
          | inr (e, failed) ↦ rw (ingest_one_lem p resolver input summary s, failed) h
          | inl fine ↦
              let free = chains obs fine in
              let kept = put_decisions-keeps applied s free h in
              elim (Option-cases put.1) [
                | inr (e, failed) ↦
                    rw (ingest_one_lem p resolver input summary s, fine, failed) kept
                | inl recorded ↦
                    rw (ingest_one_lem p resolver input summary s, fine, recorded)
                      (after_decisions-keeps obs profile applied (counted p summary) put.0 free
                        kept)
              ]
        ]

    ingest_inputs-keeps :
        (resolver : Resolver) (inputs : List ObservationInput) (summary : Summary) (s : S)
        → I s
        → I (ingest_inputs p resolver inputs summary s).state
    unfolding ingest_inputs
    ingest_inputs-keeps resolver [] summary s h = h
    ingest_inputs-keeps resolver (i ∷ is) summary s h =
        let r = ingest_one p resolver i summary s in
        let kept = ingest_one-keeps resolver i summary s h in
        elim (Option-cases r.error) [
          | inr (e, failed) ↦ rw (ingest_inputs, failed) kept
          | inl fine ↦
              rw (ingest_inputs, fine) (ingest_inputs-keeps resolver is r.summary r.state kept)
        ]

    -- Where the chain that the profile of an observation chooses leaves an observation for which a
    -- condition holds, unless it ends in an error: a condition on the store that the write of such an
    -- observation, with or without its decisions, keeps, and the write of a raw copy that is redacted
    -- if it is of a secret, is kept by a run of the pipeline on any document, whether it ends in an
    -- error or not.
    pub ingest_json-keeps : (root : Fields) (s : S) → I s → I (ingest_json p root s).state
    unfolding ingest_json
    ingest_json-keeps root s h = elim (Result-cases (decode_observation_inputs p.number root)) [
      | inl (e, failed) ↦ rw (ingest_json, failed) h
      | inr (inputs, decoded) ↦ elim (Result-cases (load_resources p s)) [
        | inl (e, failed) ↦ rw (ingest_json, decoded, failed) h
        | inr (resolver, loaded) ↦
            rw (ingest_json, decoded, loaded)
              (ingest_inputs-keeps (register_inputs p inputs resolver) inputs no_summary s h)
      ]
    ]
