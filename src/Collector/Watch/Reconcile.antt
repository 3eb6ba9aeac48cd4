-- ===== src/Collector/Watch/Reconcile.antt =====
-- internal/collector/watch.go: a list of the resource, and the deletions that follow from it.
pub mod Laws
pub mod Deletion
pub mod Listed
pub mod Delist
use Prim.Native.Nat.{◌+◌}
use kube_insight.Prelude.{
  String, ℕ, Bool, true, false, not, ◌&&◌, ◌||◌, Option, none, some, List, [], ◌∷◌, ◌==◌, is_empty,
  if◌then◌else◌, contains, length, map,
}
use kube_insight.Prelude.Text.{concat}
use kube_insight.Prelude.Result.{Result, ok, err}
use kube_insight.Json.{Value, Fields, end, field, str, obj, set, get, get_opt, as_obj, str_or_empty}
use kube_insight.Core.{ResourceRef}
use kube_insight.Kubeapi.{ResourceInfo, api_version}
use kube_insight.Storage.Memory.{list}
use kube_insight.Ingest.Pipeline.{Summary, no_summary, Ingested}
use kube_insight.Collector.Watch.{
  WatchError, WatchSummary, add_ingest, Options, Backend, End, waiting, returned, failed, Watched,
  end_of, ingest_list, upsert_offset,
}

-- What a call of the client gives: an answer, or an error.
pub data Answer (A : Type 0) : Type 0 where
  refused : WatchError → Answer A
  answered : A → Answer A

-- An answered list: its objects, what json.Marshal reads of it, and its resourceVersion.
pub record Listing : Type 0 where
  pub items : List Fields
  pub document : Fields
  pub resource_version : String

-- resourceRefKey
unfoldable pub resource_ref_key : ResourceRef → String
resource_ref_key ref =
    if not (ref.uid == "")
    then concat ("uid:" ∷ ref.uid ∷ [])
    else concat ("name:" ∷ ref.namespace ∷ "/" ∷ ref.name ∷ [])

-- refFromUnstructured: GetNamespace, GetName and GetUID read the metadata.
unfoldable pub ref_from_unstructured : String → ResourceInfo → Fields → ResourceRef
ref_from_unstructured cluster_id info object =
    let metadata = as_obj (get "metadata" object) in
    record {
      cluster_id = cluster_id;
      group = info.group;
      version = info.version;
      resource = info.resource;
      kind = info.kind;
      namespace = str_or_empty (get_opt "namespace" metadata);
      name = str_or_empty (get_opt "name" metadata);
      uid = str_or_empty (get_opt "uid" metadata);
    }

-- `if value != "" { metadata[key] = value }`
unfoldable pub set_unless_empty : String → String → Fields → Fields
set_unless_empty key value m = if not (value == "") then set key (str value) m else m

unfoldable pub deleted_metadata : ResourceRef → String → Fields
unfolding set_unless_empty
deleted_metadata ref resource_version = set_unless_empty "resourceVersion" resource_version (
    set_unless_empty "uid" ref.uid
      (set_unless_empty "namespace" ref.namespace (field "name" (str ref.name) end)))

unfoldable pub deleted_object : ResourceRef → String → Fields
deleted_object ref resource_version = field "apiVersion" (str (api_version ref.group ref.version)) (
    field "kind" (str ref.kind)
      (field "metadata" (obj (deleted_metadata ref resource_version)) end))

-- deletedObservationJSON, before it is encoded.
unfoldable pub deleted_observation : ResourceRef → String → Fields
deleted_observation ref resource_version =
    field "type" (str "DELETED") (field "object" (obj (deleted_object ref resource_version)) end)

pub record Reconciled (S : Type 0) : Type 0 where
  pub deleted : ℕ
  pub unknown_visibility : ℕ
  pub ingest : Summary
  pub state : S
  pub error : Option String

-- The keys of the objects that are listed.
unfoldable pub current_keys : String → ResourceInfo → List Fields → List String
unfolding ref_from_unstructured resource_ref_key
current_keys cluster_id info items =
    map (λ item. resource_ref_key (ref_from_unstructured cluster_id info item)) items

-- Another namespace than the one that is watched.
abbrev pub elsewhere : String → ResourceRef → Bool
elsewhere namespace ref = not (namespace == "") && not (ref.namespace == namespace)

module _ {S : Type 0} (b : Backend S) (o : Options) where
  -- The loop of reconcileDeletedFromList over the references from before the list.
  unfoldable pub reconcile_refs :
      (resource_version : String) (current : List String)
      → List ResourceRef
      → (deleted unknown : ℕ) → Summary
      → S
      → Reconciled S
  reconcile_refs rv current [] deleted unknown total s = record {
    deleted = deleted;
    unknown_visibility = unknown;
    ingest = total;
    state = s;
    error = none;
  }
  reconcile_refs rv current (ref ∷ refs) deleted unknown total s =
      let ingested = ingest_list b o (deleted_observation ref rv) s in
      elim (elsewhere o.namespace ref) [
        | true ↦ reconcile_refs rv current refs deleted (unknown + 1) total s
        | false ↦ elim (contains current (resource_ref_key ref)) [
          | true ↦ reconcile_refs rv current refs deleted unknown total s
          | false ↦ elim ingested.error [
            | some e ↦ record {
              deleted = deleted;
              unknown_visibility = unknown;
              ingest = total;
              state = ingested.state;
              error = some e;
            }
            | none ↦
                reconcile_refs rv current refs (deleted + 1) unknown
                  (add_ingest total ingested.summary) ingested.state
          ]
        ]
      ]

  unfoldable pub reconcile_deleted_from_list :
      String → List ResourceRef → List Fields → S → Reconciled S
  unfolding reconcile_refs current_keys
  reconcile_deleted_from_list rv previous items s =
      reconcile_refs rv (current_keys o.cluster_id o.info items) previous 0 0 no_summary s

  unfoldable pub latest_resource_refs : S → Result (List ResourceRef)
  latest_resource_refs s = elim b.latest_refs [
    | none ↦ ok []
    | some read ↦ read o.cluster_id o.info o.namespace s
  ]

  -- The end of listResourceOnce: the deletions, and the offset.
  unfoldable pub after_list : List ResourceRef → Listing → WatchSummary → S → Watched S
  unfolding reconcile_deleted_from_list
  after_list previous listing summary s =
      let r = reconcile_deleted_from_list summary.resource_version previous listing.items s in
      let next = record summary {
        deleted = summary.deleted + r.deleted;
        reconciled_deleted = summary.reconciled_deleted + r.deleted;
        unknown_visibility = summary.unknown_visibility + r.unknown_visibility;
        stored = summary.stored + r.ingest.stored_observations;
        ingest = add_ingest summary.ingest r.ingest;
      } in
      let put = upsert_offset b o summary.resource_version list "listed" "" r.state in
      elim r.error [
        | some e ↦ record { summary = summary; state = r.state; end = failed (b.error_of e) }
        | none ↦ record { summary = next; state = put.0; end = end_of b o put.1 }
      ]

  -- What listResourceOnce does with an answer.
  unfoldable pub take_listing : List ResourceRef → Listing → WatchSummary → S → Watched S
  unfolding after_list
  take_listing previous listing summary s =
      let counted = record summary {
        listed = summary.listed + length listing.items;
        latest_objects = length listing.items;
        resource_version = listing.resource_version;
      } in
      let ingested = ingest_list b o listing.document s in
      elim ingested.error [
        | some e ↦ record { summary = counted; state = ingested.state; end = failed (b.error_of e) }
        | none ↦
            after_list previous listing
              (record counted {
                ingest = add_ingest counted.ingest ingested.summary;
                stored = counted.stored + ingested.summary.stored_observations;
              })
              ingested.state
      ]

  -- listResourceOnce: the client is asked for a list at a resourceVersion.
  unfoldable pub list_resource_once :
      (String → Answer Listing) → String → WatchSummary → S → Watched S
  unfolding latest_resource_refs take_listing
  list_resource_once client rv summary s = elim (latest_resource_refs s) [
    | err e ↦ record { summary = summary; state = s; end = failed (b.error_of e) }
    | ok previous ↦ elim (client rv) [
      | refused e ↦ record { summary = summary; state = s; end = failed e }
      | answered listing ↦ take_listing previous listing summary s
    ]
  ]
