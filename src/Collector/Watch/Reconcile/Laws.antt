-- ===== src/Collector/Watch/Reconcile/Laws.antt =====
-- The deletions that follow from a list: every reference from before the list is accounted for.
use kube_insight.Prelude.{
  String, ℕ, ◌+◌, ◌<◌, ◌≤◌, Bool, true, false, not, ◌&&◌, none, List, [], ◌∷◌, ◌≡◌, refl, arith,
  inl, inr, length, contains, if◌then◌else◌, is_some,
}
use kube_insight.Json.{Fields}
use kube_insight.Core.{ResourceRef}
use kube_insight.Filter.Chain.{Result-cases}
use kube_insight.Ingest.Pipeline.{Summary, no_summary}
use kube_insight.Collector.Watch.{WatchSummary, Options, Backend, ingest_list, add_ingest}
use kube_insight.Collector.Watch.Reconcile.{
  Answer, Listing, resource_ref_key, current_keys, elsewhere, reconcile_refs,
  reconcile_deleted_from_list, after_list, take_listing, list_resource_once, deleted_observation,
  latest_resource_refs,
}
use kube_insight.Collector.Watch.Stream.Laws.{Untried, is_waiting, Answer-cases}

-- How many references a test holds of.
abbrev pub count : (ResourceRef → Bool) → List ResourceRef → ℕ
count test [] = 0
count test (ref ∷ refs) = (if test ref then 1 else 0) + count test refs

-- A reference that the watch can see and that is not listed any more.
abbrev pub gone_from : String → List String → ResourceRef → Bool
gone_from namespace current ref =
    not (elsewhere namespace ref) && not (contains current (resource_ref_key ref))

-- The references that a test holds of, in their order.
abbrev pub only : (ResourceRef → Bool) → List ResourceRef → List ResourceRef
only test [] = []
only test (ref ∷ refs) = if test ref then ref ∷ only test refs else only test refs

module _ {S : Type 0} (b : Backend S) (o : Options) where
  -- The deletions of the given references alone, one behind the other.
  abbrev pub delete_all : String → List ResourceRef → S → S
  delete_all rv [] s = s
  delete_all rv (ref ∷ refs) s =
      delete_all rv refs (ingest_list b o (deleted_observation ref rv) s).state

  -- What these deletions add to a summary of the pipeline.
  abbrev pub delete_summary : String → List ResourceRef → Summary → S → Summary
  delete_summary rv [] total s = total
  delete_summary rv (ref ∷ refs) total s =
      let ingested = ingest_list b o (deleted_observation ref rv) s in
      delete_summary rv refs (add_ingest total ingested.summary) ingested.state

  reconcile_refs-counts :
      (rv : String) (current : List String) (refs : List ResourceRef) (deleted unknown : ℕ)
      (total : Summary) (s : S)
      → let r = reconcile_refs b o rv current refs deleted unknown total s in
        (r.error ≡ none
          → (r.deleted ≡ deleted + count (gone_from o.namespace current) refs)
            × (r.unknown_visibility ≡ unknown + count (elsewhere o.namespace) refs))
        × (is_some r.error ≡ true
            → r.deleted + 1 ≤ deleted + count (gone_from o.namespace current) refs)
  unfolding reconcile_refs
  reconcile_refs-counts rv current [] deleted unknown total s = ground arith
  reconcile_refs-counts rv current (ref ∷ refs) deleted unknown total s =
      let ingested = ingest_list b o (deleted_observation ref rv) s in
      ground (
        arith,
        reconcile_refs-counts rv current refs deleted (unknown + 1) total s,
        reconcile_refs-counts rv current refs deleted unknown total s,
        reconcile_refs-counts rv current refs (deleted + 1) unknown
            (add_ingest total ingested.summary) ingested.state,
      )

  reconcile_refs-deletes :
      (rv : String) (current : List String) (refs : List ResourceRef) (deleted unknown : ℕ)
      (total : Summary) (s : S)
      → let r = reconcile_refs b o rv current refs deleted unknown total s in
        let gone = only (gone_from o.namespace current) refs in
        r.error ≡ none
        → (r.state ≡ delete_all rv gone s) × (r.ingest ≡ delete_summary rv gone total s)
  unfolding reconcile_refs
  reconcile_refs-deletes rv current [] deleted unknown total s fine = (refl, refl)
  reconcile_refs-deletes rv current (ref ∷ refs) deleted unknown total s fine =
      let ingested = ingest_list b o (deleted_observation ref rv) s in
      ground (
        arith,
        fine,
        reconcile_refs-deletes rv current refs deleted (unknown + 1) total s,
        reconcile_refs-deletes rv current refs deleted unknown total s,
        reconcile_refs-deletes rv current refs (deleted + 1) unknown
            (add_ingest total ingested.summary) ingested.state,
      )

  -- Without an error, reconciliation leaves the store that the deletions of exactly those references
  -- leave, in their order, that the watch can see and that are not listed any more; it counts each of
  -- them as deleted, each reference of another namespace as unknown, and what the deletions have
  -- ingested. With an error fewer references are counted as deleted than are gone.
  pub reconcile_accounts :
      (rv : String) (previous : List ResourceRef) (items : List Fields) (s : S)
      → let r = reconcile_deleted_from_list b o rv previous items s in
        let current = current_keys o.cluster_id o.info items in
        let gone = only (gone_from o.namespace current) previous in
        (r.error ≡ none
          → (r.deleted ≡ count (gone_from o.namespace current) previous)
            × (r.unknown_visibility ≡ count (elsewhere o.namespace) previous)
            × (r.state ≡ delete_all rv gone s)
            × (r.ingest ≡ delete_summary rv gone no_summary s))
        × (is_some r.error ≡ true → r.deleted < count (gone_from o.namespace current) previous)
  unfolding reconcile_deleted_from_list
  reconcile_accounts rv previous items s =
      let current = current_keys o.cluster_id o.info items in
      let counts = reconcile_refs-counts rv current previous 0 0 no_summary s in
      let deletes = reconcile_refs-deletes rv current previous 0 0 no_summary s in
      (
        λ fine. (
          ground (arith, counts, fine),
          ground (arith, counts, fine),
          (deletes fine).0,
          (deletes fine).1,
        ),
        λ bad. ground (arith, counts, bad),
      )

  after_list-Untried :
      (previous : List ResourceRef) (listing : Listing) (summary : WatchSummary) (s : S)
      → let r = after_list b o previous listing summary s in
        Untried summary r.summary × (is_waiting r.end ≡ false)
  unfolding after_list
  after_list-Untried previous listing summary s = ground arith

  take_listing-Untried :
      (previous : List ResourceRef) (listing : Listing) (summary : WatchSummary) (s : S)
      → let r = take_listing b o previous listing summary s in
        Untried summary r.summary × (is_waiting r.end ≡ false)
  unfolding take_listing
  take_listing-Untried previous listing summary s =
      let ingested = ingest_list b o listing.document s in
      let counted : WatchSummary = record summary {
        listed = summary.listed + length listing.items;
        latest_objects = length listing.items;
        resource_version = listing.resource_version;
        stored = summary.stored + ingested.summary.stored_observations;
        ingest = add_ingest summary.ingest ingested.summary;
      } in
      ground (arith, after_list-Untried previous listing counted ingested.state)

  pub list_resource_once-Untried :
      (client : String → Answer Listing) (rv : String) (summary : WatchSummary) (s : S)
      → let r = list_resource_once b o client rv summary s in
        Untried summary r.summary × (is_waiting r.end ≡ false)
  unfolding list_resource_once
  list_resource_once-Untried client rv summary s =
      elim (Result-cases (latest_resource_refs b o s)) [
        | inl (e, bad) ↦ ground (arith, bad)
        | inr (previous, known) ↦ elim (Answer-cases (client rv)) [
          | inl (e, bad) ↦ ground (arith, known, bad)
          | inr (listing, given) ↦
              ground (arith, known, given, take_listing-Untried previous listing summary s)
        ]
      ]
