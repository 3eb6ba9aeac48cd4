-- ===== src/Collector/Watch/Reconcile/Delist.antt =====
-- From a list that an object is missing from to a store that does not list it any more: the deletions
-- of internal/collector/watch.go, through internal/ingest, against LatestResourceRefs of
-- internal/storage/memory.go.
use mathlib.Core.Path.{subst}
use kube_insight.Prelude.{
  String, ℕ, ◌+◌, true, false, none, List, [], ◌∷◌, ◌++◌, ◌≡◌, ◌≢◌, refl, ap, ◌∙◌, sym, arith,
  Bool-cases, inl, inr, All, ◌==◌, contains, eq_iff,
}
use kube_insight.Prelude.Result.{ok}
use kube_insight.Core.{ResourceRef, Observation, deleted}
use kube_insight.Kubeapi.{Resolver, empty, resolve_gvk, register_from_object}
use kube_insight.Storage.Memory.{selects, is_deleted}
use kube_insight.Storage.Memory
use kube_insight.Ingest.Decode.{ObservationInput, decode_observation_inputs}
use kube_insight.Ingest.Pipeline.{Summary, no_summary, ingest_json, load_resources}
use kube_insight.Ingest.Rounds.{taken}
use kube_insight.Ingest.Secrets.{ok_inj}
use kube_insight.Ingest.Entries.{Log}
use kube_insight.Ingest.Deletion.{Passes, Steady, ingest_json-Steady, ingest_json-deletion}
use kube_insight.Collector.Watch.{Options, Backend, pipeline_for, ingest_list, add_ingest}
use kube_insight.Collector.Watch.Reconcile.{
  resource_ref_key, elsewhere, Reconciled, reconcile_refs, deleted_observation, deleted_object,
}
use kube_insight.Collector.Watch.Reconcile.Laws.{gone_from}
use kube_insight.Collector.Watch.Reconcile.Deletion.{deletion_of, deleted_observation-back}
use kube_insight.Collector.Watch.Reconcile.Listed.{
  IsOurs, Unlisted, snoc-Unlisted, snoc-Unlists, selects_ours,
}

module _ {S : Type 0} (b : Backend S) (o : Options) (log : Log (pipeline_for b o)) where
  module _ (steady : Steady (pipeline_for b o)) (loaded : Resolver)
      (named_cluster : o.cluster_id ≢ "")
      (passes : (obs : Observation)
        → obs.type ≡ deleted
        → obs.ref.group ≡ o.info.group
        → obs.ref.version ≡ o.info.version
        → obs.ref.resource ≡ o.info.resource
        → Passes (pipeline_for b o) obs)
      (encodes : (ref : ResourceRef) (rv : String)
        → b.encode (deleted_observation ref rv) ≡ ok (deleted_observation ref rv))
      (knows : (ref : ResourceRef) (rv : String)
        → IsOurs o ref
        → (resolve_gvk
            (register_from_object (deleted_object ref rv) loaded)
            ref.group
            ref.version
            ref.kind).0.resource
          ≡ o.info.resource) where
    -- The store knows the resources of the resolver.
    abbrev pub Loads : S → Type 0
    Loads s = load_resources (pipeline_for b o) s ≡ ok loaded

    taken-deletion :
        (ref : ResourceRef) (rv : String) (r : Resolver)
        → IsOurs o ref
        → taken
            (pipeline_for b o)
            r
            (record { type = deleted; object = deleted_object ref rv })
            no_summary
          ≡ deletion_of o.cluster_id (b.default_pipeline.now 0) r ref rv
    unfolding pipeline_for
    taken-deletion ref rv r ours =
        let other : (o.cluster_id == "") ≡ false =
          ground (arith, named_cluster, eq_iff o.cluster_id "") in
        rw other
          (deleted_observation-back b.default_pipeline.number o.cluster_id
            (b.default_pipeline.now 0) r ref rv ours.plain ours.core).1

    ingest_list_lem :
        (ref : ResourceRef) (rv : String) (s : S)
        → ingest_list b o (deleted_observation ref rv) s
          ≡ ingest_json (pipeline_for b o) (deleted_observation ref rv) s
    unfolding ingest_list
    ingest_list_lem ref rv s = rw (ingest_list, encodes ref rv)

    decoded :
        (ref : ResourceRef) (rv : String)
        → IsOurs o ref
        → decode_observation_inputs (pipeline_for b o).number (deleted_observation ref rv)
          ≡ ok (record { type = deleted; object = deleted_object ref rv } ∷ [])
    decoded ref rv ours =
        (deleted_observation-back (pipeline_for b o).number "" 0 empty ref rv ours.plain
          ours.core).0

    taken-Passes :
        (ref : ResourceRef) (rv : String)
        → IsOurs o ref
        → Passes (pipeline_for b o) (
            taken
              (pipeline_for b o)
              (register_from_object (deleted_object ref rv) loaded)
              (record { type = deleted; object = deleted_object ref rv })
              no_summary)
    taken-Passes ref rv ours =
        let r = register_from_object (deleted_object ref rv) loaded in
        subst (Passes (pipeline_for b o)) (sym (taken-deletion ref rv r ours)) (
          passes (deletion_of o.cluster_id (b.default_pipeline.now 0) r ref rv) refl ours.group
            ours.version (knows ref rv ours))

    delist_one :
        (ref : ResourceRef) (rv : String) (s : S)
        → Loads s
        → IsOurs o ref
        → elsewhere o.namespace ref ≡ false
        → let r = ingest_list b o (deleted_observation ref rv) s in
          r.error ≡ none
          → Unlisted b o log (Memory.resource_ref_key ref) r.state
            × ((key : String) → Unlisted b o log key s → Unlisted b o log key r.state)
            × Loads r.state
    delist_one ref rv s knowing ours here fine =
        let same = ingest_list_lem ref rv s in
        let r = register_from_object (deleted_object ref rv) loaded in
        let at = b.default_pipeline.now 0 in
        let input : ObservationInput = record { type = deleted; object = deleted_object ref rv } in
        let (other, left, known, stored) =
          ingest_json-deletion (pipeline_for b o) log (deleted_observation ref rv)
            (deleted_object ref rv) s
            (λ other known.
              subst
                (λ x. Passes (pipeline_for b o) (
                  taken (pipeline_for b o) (register_from_object (deleted_object ref rv) x) input
                    no_summary))
                (ok_inj (sym knowing ∙ known)) (taken-Passes ref rv ours))
            (decoded ref rv ours) (rw same at fine) in
        let agree : loaded ≡ other = ok_inj (sym knowing ∙ known) in
        let obs : Observation = record (deletion_of o.cluster_id at r ref rv) { object = left } in
        let (wanted, own) = selects_ours b o log ref at r rv left ours here (knows ref rv ours) in
        let next = (ingest_json (pipeline_for b o) (deleted_observation ref rv) s).state in
        let written : log.entries next ≡ log.entries s ++ obs ∷ [] =
          subst
            (λ x.
              log.entries next
              ≡ log.entries s
                ++ record (taken (pipeline_for b o) (register_from_object (deleted_object ref rv) x)
                    input no_summary) { object = left }
                  ∷ [])
            (sym agree) stored
          ∙ ap (λ (x : Observation). log.entries s ++ record x { object = left } ∷ [])
              (taken-deletion ref rv r ours) in
        rw same (
          subst (λ x. Unlisted b o log (Memory.resource_ref_key x) next) own
              (snoc-Unlists b o log s next obs refl wanted written),
          snoc-Unlisted b o log s next obs refl written,
          ingest_json-Steady (pipeline_for b o) steady (deleted_observation ref rv) s ∙ knowing,
        )

    -- The steps of the loop.
    module _ (rv : String) (current : List String) (ref : ResourceRef) (refs : List ResourceRef)
        (count unknown : ℕ) (total : Summary) (s : S) where
      step_away :
          elsewhere o.namespace ref ≡ true
          → reconcile_refs b o rv current (ref ∷ refs) count unknown total s
            ≡ reconcile_refs b o rv current refs count (unknown + 1) total s
      unfolding reconcile_refs
      step_away away = ground (arith, away)

      step_listed :
          elsewhere o.namespace ref ≡ false
          → contains current (resource_ref_key ref) ≡ true
          → reconcile_refs b o rv current (ref ∷ refs) count unknown total s
            ≡ reconcile_refs b o rv current refs count unknown total s
      unfolding reconcile_refs
      step_listed here listed = ground (arith, here, listed)

      step_gone :
          elsewhere o.namespace ref ≡ false
          → contains current (resource_ref_key ref) ≡ false
          → (reconcile_refs b o rv current (ref ∷ refs) count unknown total s).error ≡ none
          → let ingested = ingest_list b o (deleted_observation ref rv) s in
            (ingested.error ≡ none)
            × (reconcile_refs b o rv current (ref ∷ refs) count unknown total s
                ≡ reconcile_refs b o rv current refs
                    (count + 1)
                    unknown
                    (add_ingest total ingested.summary)
                    ingested.state)
      unfolding reconcile_refs
      step_gone here gone fine = ground (arith, here, gone, fine)

    abbrev Delisted : String → List String → List ResourceRef → S → Reconciled S → Type 0
    Delisted namespace current refs s r =
        All
          (λ ref.
            gone_from namespace current ref ≡ true
            → Unlisted b o log (Memory.resource_ref_key ref) r.state)
          refs
        × ((key : String) → Unlisted b o log key s → Unlisted b o log key r.state)

    -- Where the watch names a cluster, where the store keeps the observations that are written to it,
    -- unless the write fails, and no others, where it knows the resources of a resolver and no write
    -- changes that, where the resolver that has taken in a deletion knows the kind of the watched
    -- objects, where the chains that are chosen for the watched resource let its deletions pass, and
    -- where deletions encode as they are: reconciliation of references to watched objects without an
    -- error leaves a store that lists none of them that are gone from the list, and no object that it
    -- did not list before.
    pub reconcile_delists :
        (rv : String) (current : List String) (refs : List ResourceRef) (count unknown : ℕ)
        (total : Summary) (s : S)
        → Loads s
        → All (IsOurs o) refs
        → let r = reconcile_refs b o rv current refs count unknown total s in
          r.error ≡ none
          → All
              (λ ref.
                gone_from o.namespace current ref ≡ true
                → Unlisted b o log (Memory.resource_ref_key ref) r.state)
              refs
            × ((key : String) → Unlisted b o log key s → Unlisted b o log key r.state)
    unfolding reconcile_refs
    reconcile_delists rv current [] count unknown total s knowing ours fine =
        (tt, λ key before. before)
    reconcile_delists rv current (ref ∷ refs) count unknown total s knowing ours fine =
        elim (Bool-cases (elsewhere o.namespace ref)) [
          | inl away ↦
              let step = step_away rv current ref refs count unknown total s away in
              let rest =
                reconcile_delists rv current refs count (unknown + 1) total s knowing ours.1
                  (ap (λ r. r.error) (sym step) ∙ fine) in
              subst (Delisted o.namespace current (ref ∷ refs) s) (sym step)
                ((λ h. absurd (cc (rw away at h)), rest.0), rest.1)
          | inr here ↦ elim (Bool-cases (contains current (resource_ref_key ref))) [
            | inl listed ↦
                let step = step_listed rv current ref refs count unknown total s here listed in
                let rest =
                  reconcile_delists rv current refs count unknown total s knowing ours.1
                    (ap (λ r. r.error) (sym step) ∙ fine) in
                subst (Delisted o.namespace current (ref ∷ refs) s) (sym step)
                  ((λ h. absurd (cc (rw (here, listed) at h)), rest.0), rest.1)
            | inr gone ↦
                let (right, step) =
                  step_gone rv current ref refs count unknown total s here gone fine in
                let ingested = ingest_list b o (deleted_observation ref rv) s in
                let one = delist_one ref rv s knowing ours.0 here right in
                let rest =
                  reconcile_delists rv current refs (count + 1) unknown
                    (add_ingest total ingested.summary) ingested.state one.2 ours.1
                    (ap (λ r. r.error) (sym step) ∙ fine) in
                subst (Delisted o.namespace current (ref ∷ refs) s) (sym step) (
                  (λ h. rest.1 (Memory.resource_ref_key ref) one.0, rest.0),
                  λ key before. rest.1 key (one.1 key before),
                )
          ]
        ]
