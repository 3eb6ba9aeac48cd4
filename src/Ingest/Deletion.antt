-- ===== src/Ingest/Deletion.antt =====
-- A deletion on its way through internal/ingest/json.go: it is stored, even where its change is
-- discarded, unless a filter discards its resource.
use mathlib.Core.Path.{subst}
use kube_insight.Filter.{
  Filter, Outcome, keep, keep_modified, discards, same_outcome, tag, apply_from, Decision,
  discard_resource, Applied, apply_chain,
}
use kube_insight.Filter.Scope.{Scope, scoped, scope_matches}
use kube_insight.Filter.Chain.{
  prefixed, apply_from_err, apply_from_stop, apply_from_go, apply_from-prefixed, Result-cases,
}
use kube_insight.Processing.Outcomes.{Acts}
use kube_insight.Ingest.Secrets.{ok_inj}
use kube_insight.Prelude.{
  ◌⊎◌, All, Bool-cases, String, false, Option, none, some, List, [], ◌∷◌, ◌++◌, ◌≡◌, refl, ap, ◌∙◌,
  arith, Option-cases, inl, inr,
}
use kube_insight.Prelude.Result.{ok}
use kube_insight.Json.{Fields}
use kube_insight.Core.{Observation, deleted}
use kube_insight.Kubeapi.{Resolver, register_from_object}
use kube_insight.Profile.{Profile}
use kube_insight.Ingest.Secrets.Stored.{ingest_json-keeps}
use kube_insight.Ingest.Entries.{Log, put_raw-entries, put_decisions-entries, store_filtered-Writes}
use kube_insight.Extractor.{Evidence}
use kube_insight.Ingest.Decode.{
  ObservationInput, decode_observation_inputs, observation_from_object,
}
use kube_insight.Ingest.Pipeline.{
  Summary, no_summary, Pipeline, has_decision, store_filtered, put_raw, put_decisions, is_deletion,
  after_decisions, ingest_one, ingest_inputs, ingest_json, filter_chain_for_profile,
  register_inputs, load_resources, profile_for_observation,
}
use kube_insight.Ingest.Rounds.{taken, counted, ingest_one_lem}

-- The chain that the profile of an observation chooses lets the observation pass, with nothing but its
-- object changed.
abbrev pub Passes : {S : Type 0} → Pipeline S → Observation → Type 0
Passes p obs =
    let r = apply_chain (filter_chain_for_profile p (profile_for_observation p obs)) obs in
    (has_decision r.decisions discard_resource ≡ false)
    × (r.observation ≡ record obs { object = r.observation.object })

abbrev Kept : Decision → Type 0
Kept d = (d.outcome ≡ keep) ⊎ (d.outcome ≡ keep_modified)

acts-Kept : (d : Decision) → Kept d → same_outcome d.outcome discard_resource ≡ false
acts-Kept d (inl same) = rw same refl
acts-Kept d (inr same) = rw same refl

-- A chain of filters that keep every observation, changed or not, discards no resource.
pub apply_chain-keeps :
    (fs : List Filter) (obs : Observation)
    → All (Acts keep_modified) fs
    → has_decision (apply_chain fs obs).decisions discard_resource ≡ false
unfolding apply_chain prefixed has_decision
apply_chain-keeps [] obs acts = unfold apply_from in refl
apply_chain-keeps (f ∷ fs) obs acts = elim (Result-cases (f.apply obs)) [
  | inl (e, failed) ↦ rw (apply_from_err f fs obs [] failed) refl
  | inr ((next, d), done) ↦
      let kept = acts-Kept d (acts.0 obs next d done) in
      elim (Bool-cases (discards d.outcome)) [
        | inl stops ↦ rw (apply_from_stop f fs obs [] done stops, kept) refl
        | inr goes ↦
            rw
              (
                apply_from_go f fs obs [] done goes,
                apply_from-prefixed fs next (tag f.name d ∷ []),
                kept,
              )
              (apply_chain-keeps fs next acts.1)
      ]
]

pub scoped-Acts :
    (action : Outcome) (scope : Scope) (f : Filter) → Acts action f → Acts action (scoped scope f)
unfolding scoped
scoped-Acts action scope f acts obs next d done = elim (Bool-cases (scope_matches scope obs.ref)) [
  | inl within ↦ acts obs next d (rw (scoped, within) at done)
  | inr outside ↦
      subst (λ (r : Observation × Decision). (r.1.outcome ≡ keep) ⊎ (r.1.outcome ≡ action))
        (ok_inj (rw (scoped, outside) at done)) (inl refl)
]

-- The writes of a store leave the resources that it knows as they are.
pub record Steady {S : Type 0} (p : Pipeline S) : Type 0 where
  pub observations :
      (obs : Observation) (e : Evidence) (s : S)
      → load_resources p (p.store.put_observation obs e s).0 ≡ load_resources p s
  pub decisions :
      (put : Observation → List Decision → S → S × Option String)
      → p.store.put_filter_decisions ≡ some put
      → (obs : Observation) (ds : List Decision) (s : S)
      → load_resources p (put obs ds s).0 ≡ load_resources p s
  pub copies :
      (put : Observation → S → S × Option String)
      → p.store.put_raw_latest ≡ some put
      → (obs : Observation) (s : S) → load_resources p (put obs s).0 ≡ load_resources p s

-- The resources that a store knows are the same after a run of the pipeline.
pub ingest_json-Steady :
    {S : Type 0} (p : Pipeline S) (steady : Steady p) (root : Fields) (s : S)
    → load_resources p (ingest_json p root s).state ≡ load_resources p s
ingest_json-Steady p steady root s =
    ingest_json-keeps p (λ obs. Unit) (λ t. load_resources p t ≡ load_resources p s)
      (λ obs e t free h. steady.observations obs e t ∙ h)
      (λ put is obs ds t free h. steady.decisions put is obs ds t ∙ h)
      (λ put is obs t redacted h. steady.copies put is obs t ∙ h) (λ obs fine. tt) root s refl

module _ {S : Type 0} (p : Pipeline S) (log : Log p) where
  after_decisions-deletion :
      (obs : Observation) (profile : Profile) (applied : Applied) (summary : Summary) (s : S)
      → has_decision applied.decisions discard_resource ≡ false
      → applied.observation.type ≡ deleted
      → (after_decisions p obs profile applied summary s).error ≡ none
      → after_decisions p obs profile applied summary s
        ≡ store_filtered p profile applied summary (put_raw p obs s).0
  unfolding after_decisions is_deletion
  after_decisions-deletion obs profile applied summary s kept gone fine =
      elim (Option-cases (put_raw p obs s).1) [
        | inr (e, bad) ↦ absurd (cc (rw (after_decisions, kept, bad) at fine))
        | inl copied ↦ rw (after_decisions, kept, copied, gone) (ground arith)
      ]

  ingest_one-deletion :
      (resolver : Resolver) (object : Fields) (summary : Summary) (s : S)
      → let input : ObservationInput = record { type = deleted; object = object } in
        Passes p (taken p resolver input summary)
        → let input : ObservationInput = record { type = deleted; object = object } in
          let r = ingest_one p resolver input summary s in
          r.error ≡ none
          → (left : Option Fields) × (log.entries r.state
              ≡ log.entries s ++ record (taken p resolver input summary) { object = left } ∷ [])
  unfolding observation_from_object
  ingest_one-deletion resolver object summary s passes fine =
      let input : ObservationInput = record { type = deleted; object = object } in
      let obs = taken p resolver input summary in
      let profile = profile_for_observation p obs in
      let applied = apply_chain (filter_chain_for_profile p profile) obs in
      let put = put_decisions p applied s in
      let lem = ingest_one_lem p resolver input summary s in
      let pass = passes in
      elim (Option-cases applied.error) [
        | inr (e, bad) ↦ absurd (cc (rw (lem, bad) at fine))
        | inl right ↦ elim (Option-cases put.1) [
          | inr (e, bad) ↦ absurd (cc (rw (lem, right, bad) at fine))
          | inl noted ↦
              let ended : (after_decisions p obs profile applied (counted p summary) put.0).error
                  ≡ none =
                rw (lem, right, noted) at fine in
              let same =
                after_decisions-deletion obs profile applied (counted p summary) put.0 pass.0
                  (ap (λ x. x.type) pass.1) ended in
              let stored =
                (store_filtered-Writes p log profile applied (counted p summary)
                    (put_raw p obs put.0).0).0
                  (rw same at ended) in
              (
                applied.observation.object,
                rw (lem, right, noted)
                    (rw same (
                      stored.0
                      ∙ ap (λ os. os ++ applied.observation ∷ [])
                          (put_raw-entries p log obs put.0 ∙ put_decisions-entries p log applied s)
                      ∙ ap (λ o. log.entries s ++ o ∷ []) pass.1)),
              )
        ]
      ]

  -- A document that decodes to one deletion, where the chain of its profile lets the deletion pass,
  -- and a store in which a write that does not fail puts its observation at the end and nothing else
  -- changes the observations: a run without an error stores exactly one observation more, the deletion
  -- of the object, as the resolver names it that knows the resources of the store and has taken in the
  -- object.
  pub ingest_json-deletion :
      (root object : Fields) (s : S)
      → ((loaded : Resolver)
          → load_resources p s ≡ ok loaded
          → Passes p (
              taken p
                (register_from_object object loaded)
                (record { type = deleted; object = object })
                no_summary))
      → decode_observation_inputs p.number root
        ≡ ok (record { type = deleted; object = object } ∷ [])
      → (ingest_json p root s).error ≡ none
      → (loaded : Resolver) × (left : Option Fields) × (load_resources p s ≡ ok loaded)
        × (log.entries (ingest_json p root s).state
            ≡ log.entries s
              ++ record (taken p
                  (register_from_object object loaded)
                  (record { type = deleted; object = object })
                  no_summary) { object = left }
                ∷ [])
  unfolding ingest_json ingest_inputs register_inputs
  ingest_json-deletion root object s passes decoded fine =
      elim (Result-cases (load_resources p s)) [
        | inl (e, bad) ↦ absurd (cc (rw (ingest_json, decoded, bad) at fine))
        | inr (loaded, known) ↦
            let resolver = register_from_object object loaded in
            let input : ObservationInput = record { type = deleted; object = object } in
            let r = ingest_one p resolver input no_summary s in
            elim (Option-cases r.error) [
              | inr (e, bad) ↦
                  absurd (cc (rw (ingest_json, decoded, known, ingest_inputs, bad) at fine))
              | inl right ↦
                  let one =
                    ingest_one-deletion resolver object no_summary s (passes loaded known) right in
                  (
                    loaded,
                    one.0,
                    known,
                    rw (ingest_json, decoded, known, ingest_inputs, right) one.1,
                  )
            ]
      ]
