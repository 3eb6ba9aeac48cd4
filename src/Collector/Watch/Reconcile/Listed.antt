-- ===== src/Collector/Watch/Reconcile/Listed.antt =====
-- The references that a store lists for a watch, by LatestResourceRefs of internal/storage/memory.go:
-- the ones whose last observation is no deletion.
use kube_insight.Prelude.{
  String, ℕ, Bool, true, false, ◌&&◌, Option, none, some, List, [], ◌∷◌, ◌++◌, ◌≡◌, arith, ◌==◌,
  if◌then◌else◌, eq_refl,
}
use kube_insight.Json.{Fields}
use kube_insight.Core.{ResourceRef, Observation, deleted}
use kube_insight.Kubeapi.{Resolver, resolve_gvk}
use kube_insight.Kubeapi.Laws.{NoSlash}
use kube_insight.Storage.Memory.{selects, is_deleted}
use kube_insight.Storage.Memory
use kube_insight.Storage.Memory.Latest.{last_of, live}
use kube_insight.Ingest.Entries.{Log}
use kube_insight.Collector.Watch.{Options, Backend, pipeline_for}
use kube_insight.Collector.Watch.Reconcile.{elsewhere}
use kube_insight.Collector.Watch.Reconcile.Deletion.{deletion_of}

last_of-snoc :
    (wanted : Observation → Bool) (key : String) (os : List Observation) (o : Observation)
    → last_of wanted key (os ++ o ∷ []) ≡ (
        if wanted o && (Memory.resource_ref_key o.ref == key)
        then some o
        else last_of wanted key os)
last_of-snoc wanted key [] o = ground arith
last_of-snoc wanted key (x ∷ xs) o = ground (arith, last_of-snoc wanted key xs o)

live_deleted : (obs : Observation) → obs.type ≡ deleted → live (some obs) ≡ none
live_deleted obs gone = ground (arith, gone)

live_if :
    (c : Bool) (obs : Observation) (l : Option Observation)
    → obs.type ≡ deleted
    → live l ≡ none
    → live (if c then some obs else l) ≡ none
live_if true obs l gone before = live_deleted obs gone
live_if false obs l gone before = before

-- A reference as the store lists it for the watch: of its cluster, its resource and its kind, in
-- spellings that an apiVersion keeps apart.
pub record IsOurs (o : Options) (ref : ResourceRef) : Type 0 where
  pub cluster : ref.cluster_id ≡ o.cluster_id
  pub group : ref.group ≡ o.info.group
  pub version : ref.version ≡ o.info.version
  pub resource : ref.resource ≡ o.info.resource
  pub kind : ref.kind ≡ o.info.kind
  pub plain : NoSlash ref.group
  pub core : ref.group ≡ "" → NoSlash ref.version

module _ {S : Type 0} (b : Backend S) (o : Options) (log : Log (pipeline_for b o)) where
  -- The store lists no object under a key.
  abbrev pub Unlisted : String → S → Type 0
  Unlisted key s =
      live (last_of (selects o.cluster_id o.info o.namespace) key (log.entries s)) ≡ none

  pub snoc-Unlisted :
      (s next : S) (obs : Observation)
      → obs.type ≡ deleted
      → log.entries next ≡ log.entries s ++ obs ∷ []
      → (key : String) → Unlisted key s
      → Unlisted key next
  snoc-Unlisted s next obs gone stored key before =
      rw (stored, last_of-snoc (selects o.cluster_id o.info o.namespace) key (log.entries s) obs)
        (live_if
          (selects o.cluster_id o.info o.namespace obs && (Memory.resource_ref_key obs.ref == key))
          obs _ gone before)

  pub snoc-Unlists :
      (s next : S) (obs : Observation)
      → obs.type ≡ deleted
      → selects o.cluster_id o.info o.namespace obs ≡ true
      → log.entries next ≡ log.entries s ++ obs ∷ []
      → Unlisted (Memory.resource_ref_key obs.ref) next
  snoc-Unlists s next obs gone wanted stored =
      rw
        (
          stored,
          last_of-snoc (selects o.cluster_id o.info o.namespace) (Memory.resource_ref_key obs.ref)
              (log.entries s) obs,
          wanted,
          eq_refl (Memory.resource_ref_key obs.ref),
        )
        (live_deleted obs gone)

  pub selects_ours :
      (ref : ResourceRef) (at : ℕ) (r : Resolver) (rv : String) (left : Option Fields)
      → IsOurs o ref
      → elsewhere o.namespace ref ≡ false
      → (resolve_gvk r ref.group ref.version ref.kind).0.resource ≡ o.info.resource
      → let obs = record (deletion_of o.cluster_id at r ref rv) { object = left } in
        (selects o.cluster_id o.info o.namespace obs ≡ true) × (obs.ref ≡ ref)
  unfolding selects
  selects_ours ref at r rv left ours here named = (
    ground (
      arith,
      ours.group,
      ours.version,
      named,
      here,
      eq_refl o.cluster_id,
      eq_refl o.info.group,
      eq_refl o.info.version,
      eq_refl o.info.resource,
    ),
    ground (arith, ours.cluster, ours.resource, named),
  )
