-- ===== src/Ingest/Rounds.antt =====
-- One round of the loop of IngestJSON in internal/ingest/json.go, as an equation.
use kube_insight.Prelude.{◌+◌, none, some, ◌≡◌, refl, ◌==◌, if◌then◌else◌}
use kube_insight.Core.{Observation}
use kube_insight.Kubeapi.{Resolver}
use kube_insight.Filter.{apply_chain}
use kube_insight.Ingest.Decode.{ObservationInput, observation_from_object}
use kube_insight.Ingest.Pipeline.{
  Summary, Pipeline, put_decisions, after_decisions, ingest_one, filter_chain_for_profile,
  profile_for_observation,
}

module _ {S : Type 0} (p : Pipeline S) where
  -- The observation that a round takes up, and the summary that counts it.
  abbrev pub taken : Resolver → ObservationInput → Summary → Observation
  taken resolver input summary =
      observation_from_object (if p.cluster_id == "" then "local" else p.cluster_id) input.type
        (p.now summary.observations) resolver input.object

  abbrev pub counted : Summary → Summary
  counted summary = record summary { observations = summary.observations + 1 }

  pub ingest_one_lem :
      (resolver : Resolver) (input : ObservationInput) (summary : Summary) (s : S)
      → let obs = taken resolver input summary in
        let profile = profile_for_observation p obs in
        let applied = apply_chain (filter_chain_for_profile p profile) obs in
        let put = put_decisions p applied s in
        ingest_one p resolver input summary s ≡ elim applied.error [
          | some e ↦ record { summary = counted summary; state = s; error = some e }
          | none ↦ elim put.1 [
            | some e ↦ record { summary = counted summary; state = put.0; error = some e }
            | none ↦ after_decisions p obs profile applied (counted summary) put.0
          ]
        ]
  unfolding ingest_one
  ingest_one_lem resolver input summary s = refl
