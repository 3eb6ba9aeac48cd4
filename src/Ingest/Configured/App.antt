-- ===== src/Ingest/Configured/App.antt =====
-- PipelineForAppConfig of internal/ingest/filters.go: from a configuration to a pipeline.
use kube_insight.Prelude.{not, ◌||◌, none, List, ◌≡◌, refl, is_some, is_empty, Bool-cases, inl, inr}
use kube_insight.Prelude.Result.{Result, ok, err}
use kube_insight.Core.{Observation}
use kube_insight.Filter.{apply_chain}
use kube_insight.Filter.Chain.Honest.{Accounted}
use kube_insight.Profile.{Profile, Rule}
use kube_insight.Processing.{Readers, Extractors}
use kube_insight.Config.Settings.{Config}
use kube_insight.Config.Profiles.{profile_rules}
use kube_insight.Config.Validation.{validate}
use kube_insight.Config.Validation.Laws.{valid_processing}
use kube_insight.Ingest.Pipeline.{Pipeline, chain_of, filter_chain_for_profile, select_chain}
use kube_insight.Ingest.Configured.{
  filter_chains_from_processing, extractor_registry_from_processing,
}
use kube_insight.Ingest.Configured.Laws.{configured_chain-Accounted}
use kube_insight.Ingest.Configured.Valid.{validate_processing-builds}

-- PipelineForAppConfig, from the default pipeline of the store.
unfoldable pub pipeline_for_app_config :
    {S : Type 0} → Readers → Extractors → List Rule → Pipeline S → Config → Result (Pipeline S)
pipeline_for_app_config r e embedded p c = elim (filter_chains_from_processing r c.processing) [
  | err x ↦ err x
  | ok chains ↦ elim (extractor_registry_from_processing e c.processing) [
    | err x ↦ err x
    | ok registry ↦ ok (record p {
      filter_chains = chains;
      filters = chain_of chains.default;
      extractors = registry;
      profile_rules = profile_rules embedded c.resource_profiles;
    })
  ]
]

-- A configuration that Validate accepts gives a pipeline, and whatever the profile, the chain of that
-- pipeline touches nothing but the object of an observation, and changes that only where a decision
-- says so.
pub pipeline_for_app_config-Accounted :
    {S : Type 0} (r : Readers) (e : Extractors) (embedded : List Rule) (p : Pipeline S) (c : Config)
    → validate r e c ≡ none
    → (q : Pipeline S) × (pipeline_for_app_config r e embedded p c ≡ ok q)
      × ((profile : Profile) (obs : Observation)
          → let result = apply_chain (filter_chain_for_profile q profile) obs in
            Accounted obs result.observation result.decisions)
unfolding pipeline_for_app_config filter_chain_for_profile select_chain
pipeline_for_app_config-Accounted r e embedded p c valid =
    let builds = validate_processing-builds r e c.processing (valid_processing r e c valid) in
    let (chains, made) = builds.0 in
    let (registry, listed) = builds.1 in
    (
      record p {
        filter_chains = chains;
        filters = chain_of chains.default;
        extractors = registry;
        profile_rules = profile_rules embedded c.resource_profiles;
      },
      rw (pipeline_for_app_config, made, listed) refl,
      λ profile obs. elim (Bool-cases (is_some chains.default || not (is_empty chains.by_name))) [
        | inl named ↦
            rw (filter_chain_for_profile, named)
              (configured_chain-Accounted r c.processing chains profile.filter_chain obs made)
        | inr plain ↦
            rw (filter_chain_for_profile, plain)
              (configured_chain-Accounted r c.processing chains "default" obs made)
      ],
    )
