-- ===== src/Ingest/Entries.antt =====
-- What internal/ingest/json.go writes to the observations of a store, write by write.
use kube_insight.Prelude.{
  String, Option, none, some, List, [], ◌∷◌, ◌++◌, ◌≡◌, arith, Option-cases, inl, inr, ◌+◌, true,
  length, is_some,
}
use kube_insight.Core.{Observation}
use kube_insight.Filter.{Decision, Applied}
use kube_insight.Filter.Chain.{Result-cases}
use kube_insight.Profile.{Profile}
use kube_insight.Extractor.{Evidence, extract_set}
use kube_insight.Ingest.Raw.{raw_latest_observation}
use kube_insight.Ingest.Pipeline.{
  Summary, Pipeline, Ingested, store_filtered, put_raw, put_decisions,
}

-- The observations of a store: a write of one puts it at the end unless it fails, and no other write
-- touches them.
pub record Log {S : Type 0} (p : Pipeline S) : Type 0 where
  pub entries : S → List Observation
  pub appends :
      (obs : Observation) (e : Evidence) (s : S)
      → (p.store.put_observation obs e s).1 ≡ none
      → entries (p.store.put_observation obs e s).0 ≡ entries s ++ obs ∷ []
  pub refuses :
      (obs : Observation) (e : Evidence) (s : S) (error : String)
      → (p.store.put_observation obs e s).1 ≡ some error
      → entries (p.store.put_observation obs e s).0 ≡ entries s
  pub keeps_decisions :
      (put : Observation → List Decision → S → S × Option String)
      → p.store.put_filter_decisions ≡ some put
      → (obs : Observation) (ds : List Decision) (s : S) → entries (put obs ds s).0 ≡ entries s
  pub keeps_copies :
      (put : Observation → S → S × Option String)
      → p.store.put_raw_latest ≡ some put
      → (obs : Observation) (s : S) → entries (put obs s).0 ≡ entries s

module _ {S : Type 0} (p : Pipeline S) (log : Log p) where
  pub put_raw-entries :
      (obs : Observation) (s : S) → log.entries (put_raw p obs s).0 ≡ log.entries s
  unfolding put_raw
  put_raw-entries obs s = elim (Option-cases p.store.put_raw_latest) [
    | inl absent ↦ rw (put_raw, absent)
    | inr (put, present) ↦ elim (Result-cases (raw_latest_observation p.round_trip obs)) [
      | inl (e, bad) ↦ rw (put_raw, present, bad)
      | inr (raw, done) ↦ rw (put_raw, present, done) (log.keeps_copies put present raw s)
    ]
  ]

  pub put_decisions-entries :
      (applied : Applied) (s : S) → log.entries (put_decisions p applied s).0 ≡ log.entries s
  unfolding put_decisions
  put_decisions-entries applied s = elim (Option-cases p.store.put_filter_decisions) [
    | inl absent ↦ rw (put_decisions, absent)
    | inr (put, present) ↦
        rw (put_decisions, present)
          (log.keeps_decisions put present applied.observation applied.decisions s)
  ]

  -- What a round leaves: the given observations more, counted as stored, or after an error no more.
  abbrev pub Writes : Summary → S → List Observation → Ingested S → Type 0
  Writes summary s kept r =
      (r.error ≡ none
        → (log.entries r.state ≡ log.entries s ++ kept)
          × (r.summary.stored_observations ≡ summary.stored_observations + length kept))
      × (is_some r.error ≡ true
          → (log.entries r.state ≡ log.entries s)
            × (r.summary.stored_observations ≡ summary.stored_observations))

  pub store_filtered-Writes :
      (profile : Profile) (applied : Applied) (summary : Summary) (s : S)
      → Writes summary s (applied.observation ∷ []) (store_filtered p profile applied summary s)
  unfolding store_filtered
  store_filtered-Writes profile applied summary s =
      let extracted = extract_set p.extractors applied.observation profile.extractor_set in
      let put = p.store.put_observation applied.observation extracted.evidence s in
      elim (Option-cases extracted.error) [
        | inl right ↦ elim (Option-cases put.1) [
          | inl stored ↦
              let kept = log.appends applied.observation extracted.evidence s stored in
              ground (arith, right, stored, kept)
          | inr (e, bad) ↦
              let kept = log.refuses applied.observation extracted.evidence s e bad in
              ground (arith, right, bad, kept)
        ]
        | inr (e, bad) ↦ ground (arith, bad)
      ]
