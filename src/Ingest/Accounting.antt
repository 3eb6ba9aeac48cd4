-- ===== src/Ingest/Accounting.antt =====
-- Every observation that the pipeline takes up is stored, discarded as a change or discarded as a
-- resource: the summary says how often each has happened, and the store has what is kept.
use kube_insight.Prelude.{
  ℕ, ◌+◌, ◌≤◌, true, not, ◌&&◌, none, List, [], ◌∷◌, ◌++◌, ◌≡◌, ap, ◌∙◌, sym, refl, arith, inl, inr,
  length, length-append, is_some, if◌then◌else◌, Option-cases,
}
use mathlib.Core.List.{append-nil, append_assoc}
use kube_insight.Prelude.Result.{ok}
use kube_insight.Core.{Observation}
use kube_insight.Json.{Fields}
use kube_insight.Kubeapi.{Resolver}
use kube_insight.Filter.{Applied, discard_change, discard_resource, apply_chain}
use kube_insight.Profile.{Profile}
use kube_insight.Ingest.Decode.{ObservationInput, decode_observation_inputs}
use kube_insight.Ingest.Entries.{
  Log, Writes, store_filtered-Writes, put_raw-entries, put_decisions-entries,
}
use kube_insight.Ingest.Rounds.{taken, counted}
use kube_insight.Ingest.Pipeline.{
  Summary, no_summary, Pipeline, Ingested, has_decision, is_deletion, store_filtered, put_raw,
  put_decisions, after_decisions, ingest_one, ingest_inputs, ingest_json, register_inputs,
  load_resources, filter_chain_for_profile, profile_for_observation,
}

-- The observations that have come to an end.
abbrev pub settled : Summary → ℕ
settled s = s.stored_observations + s.discarded_changes + s.discarded_resources

-- A round settles its observation, unless it ends in an error; then it settles none.
abbrev Settles : {S : Type 0} → Summary → Ingested S → Type 0
Settles s r =
    (r.summary.observations ≡ s.observations)
    × (r.error ≡ none → settled r.summary ≡ settled s + 1)
    × (is_some r.error ≡ true → settled r.summary ≡ settled s)
    × (r.summary.modified_observations + s.stored_observations
        ≤ s.modified_observations + r.summary.stored_observations + 1)

module _ {S : Type 0} (p : Pipeline S) where
  store_filtered-Settles :
      (profile : Profile) (applied : Applied) (s : Summary) (state : S)
      → Settles s (store_filtered p profile applied s state)
  unfolding store_filtered
  store_filtered-Settles profile applied s state = ground arith

  after_decisions-Settles :
      (obs : Observation) (profile : Profile) (applied : Applied) (s : Summary) (state : S)
      → Settles s (after_decisions p obs profile applied s state)
  unfolding after_decisions
  after_decisions-Settles obs profile applied s state = ground arith

-- One round takes up one observation, and settles it unless it ends in an error.
abbrev Counted : {S : Type 0} → Summary → Ingested S → Type 0
Counted s r =
    (r.summary.observations ≡ s.observations + 1)
    × (r.error ≡ none → settled r.summary ≡ settled s + 1)
    × (is_some r.error ≡ true → settled r.summary ≡ settled s)

module _ {S : Type 0} (p : Pipeline S) where
  ingest_one-Counted :
      (resolver : Resolver) (input : ObservationInput) (s : Summary) (state : S)
      → Counted s (ingest_one p resolver input s state)
  unfolding ingest_one
  ingest_one-Counted resolver input s state = ground arith

  -- What is kept of an observation whose chain ends as given: nothing where its resource is discarded,
  -- nothing where its change is, unless it is a deletion, and else what the chain leaves.
  abbrev pub kept_of : Applied → List Observation
  kept_of applied =
      if has_decision applied.decisions discard_resource
      then []
      else if has_decision applied.decisions discard_change
          && not (is_deletion p applied.observation.type)
      then []
      else applied.observation ∷ []

  -- How the chain of its profile ends for an input, where so many were taken up before.
  abbrev pub taken_up : Resolver → ObservationInput → ℕ → Applied
  taken_up resolver i n =
      let obs = taken p resolver i (record no_summary { observations = n }) in
      apply_chain (filter_chain_for_profile p (profile_for_observation p obs)) obs

  -- What is kept of the inputs, where so many observations were taken up before them.
  abbrev pub kept_inputs : Resolver → List ObservationInput → ℕ → List Observation
  kept_inputs resolver [] n = []
  kept_inputs resolver (i ∷ is) n =
      kept_of (taken_up resolver i n) ++ kept_inputs resolver is (n + 1)

  module _ (log : Log p) where
    after_decisions-Writes :
        (obs : Observation) (profile : Profile) (applied : Applied) (summary : Summary) (s : S)
        → Writes p log summary s (kept_of applied) (after_decisions p obs profile applied summary s)
    unfolding after_decisions
    after_decisions-Writes obs profile applied summary s =
        let raw = put_raw p obs s in
        ground (
          arith,
          put_raw-entries p log obs s,
          store_filtered-Writes p log profile applied summary raw.0,
          append-nil (log.entries s),
        )

    ingest_one-Writes :
        (resolver : Resolver) (input : ObservationInput) (summary : Summary) (s : S)
        → let obs = taken p resolver input summary in
          Writes p log summary s
            (kept_of (apply_chain (filter_chain_for_profile p (profile_for_observation p obs)) obs))
            (ingest_one p resolver input summary s)
    unfolding ingest_one
    ingest_one-Writes resolver input summary s =
        let obs = taken p resolver input summary in
        let profile = profile_for_observation p obs in
        let applied = apply_chain (filter_chain_for_profile p profile) obs in
        let put = put_decisions p applied s in
        ground (
          arith,
          put_decisions-entries p log applied s,
          after_decisions-Writes obs profile applied (counted p summary) put.0,
        )

    -- Rounds in a row, in a result `r`: the inputs that are done are kept as they should be, and settled;
    -- none is left, or the one at which an error came up is.
    abbrev Runs : Resolver → List ObservationInput → Summary → S → Ingested S → Type 0
    Runs resolver inputs s state r =
        (done : List ObservationInput) × (left : List ObservationInput) × (inputs ≡ done ++ left)
        × (log.entries r.state ≡ log.entries state ++ kept_inputs resolver done s.observations)
        × (r.summary.stored_observations
            ≡ s.stored_observations + length (kept_inputs resolver done s.observations))
        × (settled r.summary ≡ settled s + length done)
        × (r.error ≡ none → (left ≡ []) × (r.summary.observations ≡ s.observations + length inputs))
        × (is_some r.error ≡ true
            → (r.summary.observations ≡ s.observations + length done + 1)
              × (length done + 1 ≤ length inputs))

    ingest_inputs-Runs :
        (resolver : Resolver) (inputs : List ObservationInput) (s : Summary) (state : S)
        → Runs resolver inputs s state (ingest_inputs p resolver inputs s state)
    unfolding ingest_inputs
    ingest_inputs-Runs resolver [] s state = (
      [],
      [],
      refl,
      sym (append-nil (log.entries state)),
      ground arith,
      ground arith,
      λ fine. (refl, ground arith),
      λ bad. absurd (cc bad),
    )
    ingest_inputs-Runs resolver (i ∷ is) s state =
        let r = ingest_one p resolver i s state in
        let one = ingest_one-Writes resolver i s state in
        let count = ingest_one-Counted resolver i s state in
        elim (Option-cases r.error) [
          | inr (e, bad) ↦
              rw (ingest_inputs, bad)
                (
                  [],
                  i ∷ is,
                  refl,
                  ground (arith, one, bad, append-nil (log.entries state)),
                  ground (arith, one, bad),
                  ground (arith, count, bad),
                  λ fine. absurd (cc fine),
                  λ failed. (ground (arith, count, bad), ground arith),
                )
          | inl fine ↦
              let (done, left, split, kept, stored, over, right, wrong) =
                ingest_inputs-Runs resolver is r.summary r.state in
              let (wrote, noted) = one.0 fine in
              let first = kept_of (taken_up resolver i s.observations) in
              let later = kept_inputs resolver done (s.observations + 1) in
              let moved : kept_inputs resolver done r.summary.observations ≡ later =
                ap (λ n. kept_inputs resolver done n) count.0 in
              rw (ingest_inputs, fine)
                (
                  i ∷ done,
                  left,
                  ap (λ xs. i ∷ xs) split,
                  kept
                      ∙ ap (λ xs. log.entries r.state ++ xs) moved
                      ∙ ap (λ xs. xs ++ later) wrote
                      ∙ append_assoc (log.entries state) first later,
                  ground
                      (arith, stored, noted, ap (λ xs. length xs) moved, length-append first later),
                  ground (arith, count, fine, over),
                  λ ended. ((right ended).0, ground (arith, right ended, count)),
                  λ failed. (ground (arith, wrong failed, count), ground (arith, wrong failed)),
                )
        ]

    -- For a document that holds the given inputs, a store whose resources can be read, and in which
    -- a write that does not fail puts its observation at the end and nothing else changes the
    -- observations: some of the inputs are done, from the first on, and the store has just what is
    -- kept of these more, in their order; as many observations as that are counted as stored, and with
    -- the discarded changes and resources all that are done are counted once. Without an error none of
    -- the inputs is left; with an error the next one was taken up, and nothing of it is kept.
    pub ingest_json_accounts :
        (root : Fields) (state : S) (inputs : List ObservationInput) (loaded : Resolver)
        → decode_observation_inputs p.number root ≡ ok inputs
        → load_resources p state ≡ ok loaded
        → let r = ingest_json p root state in
          let resolver = register_inputs p inputs loaded in
          (done : List ObservationInput) × (left : List ObservationInput) × (inputs ≡ done ++ left)
          × (log.entries r.state ≡ log.entries state ++ kept_inputs resolver done 0)
          × (r.summary.stored_observations ≡ length (kept_inputs resolver done 0))
          × (settled r.summary ≡ length done)
          × (r.error ≡ none → (left ≡ []) × (r.summary.observations ≡ length inputs))
          × (is_some r.error ≡ true
              → (r.summary.observations ≡ length done + 1) × (length done + 1 ≤ length inputs))
    unfolding ingest_json
    ingest_json_accounts root state inputs loaded decoded known =
        let (done, left, split, kept, stored, over, right, wrong) =
          ingest_inputs-Runs (register_inputs p inputs loaded) inputs no_summary state in
        rw (ingest_json, decoded, known)
          (
            done,
            left,
            split,
            kept,
            ground (arith, stored),
            ground (arith, over),
            λ fine. ((right fine).0, ground (arith, right fine)),
            λ bad. (ground (arith, wrong bad), (wrong bad).1),
          )
