-- ===== src/Ingest/Configured/Evidence.antt =====
-- The registry that a configuration describes makes evidence about the observed object only.
use mathlib.Core.Path.{subst}
use kube_insight.Prelude.{
  String, Option, List, [], ◌∷◌, ◌==◌, ◌≡◌, ◌≢◌, false, eq_iff, arith, All, Bool-cases,
  Option-cases, inl, inr,
}
use kube_insight.Prelude.Result.{ok}
use kube_insight.Core.{Observation}
use kube_insight.Json.{Value}
use kube_insight.Kubeapi.{Resolver}
use kube_insight.Filter.Chain.{Result-cases}
use kube_insight.Ingest.Secrets.{ok_inj}
use kube_insight.Extractor.{Evidence, Extractor, Entry, Registry, new_registry, extract_set}
use kube_insight.Extractor.Objects.{Numbers}
use kube_insight.Extractor.Owned.{Owned, IsOwned, EntryOwned, extract_set-Owned}
use kube_insight.Extractor.Pod.{pod}
use kube_insight.Extractor.Service.{service}
use kube_insight.Extractor.EndpointSlice.{endpoint_slice}
use kube_insight.Extractor.Event.{event}
use kube_insight.Extractor.Node.{node}
use kube_insight.Extractor.Kinds.{pod_extract-Owned, event_extract-Owned}
use kube_insight.Extractor.Kinds.Network.{service_extract-Owned, endpoint_slice_extract-Owned}
use kube_insight.Extractor.Kinds.Nodes.{node_extract-Owned}
use kube_insight.Processing.{Extractors, find, built_in_extractors, new_built_in_extractor}
use kube_insight.Config.Processing.{
  ProcessingConfig, ProcessingExtractorConfig, processing_component_type, is_off,
}
use kube_insight.Ingest.Configured.{build_entries, extractor_registry_from_processing}
use kube_insight.Ingest.Configured.Valid.{All-find}

pure-IsOwned :
    (kind : String) (f : Observation → Evidence)
    → ((obs : Observation) → Owned obs (f obs))
    → IsOwned (record { kind = kind; extract = λ obs. ok (f obs) })
pure-IsOwned kind f owned obs e done = subst (Owned obs) (ok_inj done) (owned obs)

registry-Owned :
    (sets : List (String × List String)) (entries : List Entry)
    → All EntryOwned entries
    → All EntryOwned (new_registry sets entries).common
      × All EntryOwned (new_registry sets entries).by_kind
unfolding new_registry
registry-Owned sets [] h = (tt, tt)
registry-Owned sets (e ∷ es) h =
    let rest = registry-Owned sets es h.1 in
    elim (Bool-cases (e.extractor.kind == "*")) [
      | inl every ↦ rw (new_registry, every) ((h.0, rest.0), rest.1)
      | inr one ↦ rw (new_registry, one) (rest.0, (h.0, rest.1))
    ]

-- An extractor of a configuration that is off, or another than the one of references.
abbrev WithoutReferences : String × ProcessingExtractorConfig → Type 0
WithoutReferences (name, cfg) =
    is_off cfg.enabled ≡ false → processing_component_type name cfg.type ≢ "reference"

module _ (numbers : Numbers) (print : Value → String)
    (quantity : (field value : String) → Option String) (fingerprint : String → String)
    (r : Resolver) (reference : Extractor) where
  -- The extractors of internal/extractor, but for the one of references.
  abbrev pub extractors_with : Extractors
  extractors_with = record {
    reference = reference;
    pod = pod numbers;
    node = node print quantity;
    event = event numbers fingerprint r;
    service = service numbers;
    endpoint_slice = endpoint_slice;
  }

  abbrev NamedOwned : String × Extractor → Type 0
  NamedOwned (name, x) = IsOwned x

  others-Owned : All NamedOwned (
      ("pod", extractors_with.pod)
      ∷ ("node", extractors_with.node)
      ∷ ("event", extractors_with.event)
      ∷ ("service", extractors_with.service)
      ∷ ("endpointslice", extractors_with.endpoint_slice)
      ∷ [])
  others-Owned = (
    pure-IsOwned "Pod" _ (pod_extract-Owned numbers),
    (
      pure-IsOwned "Node" _ (node_extract-Owned print quantity),
      (
        pure-IsOwned "Event" _ (event_extract-Owned numbers fingerprint r),
        (
          pure-IsOwned "Service" _ (service_extract-Owned numbers),
          (pure-IsOwned "EndpointSlice" _ endpoint_slice_extract-Owned, tt),
        ),
      ),
    ),
  )

  -- Every extractor that is built by name, other than the one of references, makes no fact, edge or
  -- change about another object than the observed one, or of another time.
  pub new_built_in_extractor-IsOwned :
      (name : String) (x : Extractor)
      → name ≢ "reference"
      → new_built_in_extractor extractors_with name ≡ ok x
      → IsOwned x
  unfolding new_built_in_extractor find
  new_built_in_extractor-IsOwned name x other built =
      let others =
        ("pod", extractors_with.pod)
        ∷ ("node", extractors_with.node)
        ∷ ("event", extractors_with.event)
        ∷ ("service", extractors_with.service)
        ∷ ("endpointslice", extractors_with.endpoint_slice)
        ∷ [] in
      let skip : find name (built_in_extractors extractors_with) ≡ find name others =
        ground (arith, other, eq_iff "reference" name) in
      elim (Option-cases (find name others)) [
        | inl absent ↦ absurd (cc (rw (new_built_in_extractor, skip, absent) at built))
        | inr (y, found) ↦
            subst IsOwned (ok_inj (rw (new_built_in_extractor, skip, found) at built))
              (All-find NamedOwned others name y others-Owned found)
      ]

  build_entries-Owned :
      (named : List (String × ProcessingExtractorConfig)) (entries : List Entry)
      → All WithoutReferences named
      → build_entries extractors_with named ≡ ok entries
      → All EntryOwned entries
  unfolding build_entries
  build_entries-Owned [] entries without built = subst (All EntryOwned) (ok_inj built) tt
  build_entries-Owned ((name, cfg) ∷ rest) entries without built =
      let type = processing_component_type name cfg.type in
      elim (Bool-cases (is_off cfg.enabled)) [
        | inl off ↦ build_entries-Owned rest entries without.1 (rw (build_entries, off) at built)
        | inr on ↦ elim (Result-cases (new_built_in_extractor extractors_with type)) [
          | inl (e, bad) ↦ absurd (cc (rw (build_entries, on, bad) at built))
          | inr (x, found) ↦ elim (Result-cases (build_entries extractors_with rest)) [
            | inl (e, bad) ↦ absurd (cc (rw (build_entries, on, found, bad) at built))
            | inr (later, listed) ↦
                subst (All EntryOwned) (ok_inj (rw (build_entries, on, found, listed) at built)) (
                  new_built_in_extractor-IsOwned type x (without.0 on) found,
                  build_entries-Owned rest later without.1 listed,
                )
          ]
        ]
      ]

  -- The registry of a configuration in which the extractor of references is switched off makes no fact,
  -- edge or change about another object than the observed one, or of another time; also where it ends
  -- with an error.
  configured_evidence-Owned :
      (cfg : ProcessingConfig) (registry : Registry) (obs : Observation) (set : String)
      → All WithoutReferences cfg.extractors
      → extractor_registry_from_processing extractors_with cfg ≡ ok registry
      → Owned obs (extract_set registry obs set).evidence
  unfolding extractor_registry_from_processing
  configured_evidence-Owned cfg registry obs set without made =
      elim (Result-cases (build_entries extractors_with cfg.extractors)) [
        | inl (e, bad) ↦ absurd (cc (rw (extractor_registry_from_processing, bad) at made))
        | inr (entries, built) ↦
            let owned =
              registry-Owned cfg.extractor_sets entries
                (build_entries-Owned cfg.extractors entries without built) in
            subst (λ x. Owned obs (extract_set x obs set).evidence)
              (ok_inj (rw (extractor_registry_from_processing, built) at made))
              (extract_set-Owned (new_registry cfg.extractor_sets entries) set obs owned.0 owned.1)
      ]
