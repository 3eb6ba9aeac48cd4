-- ===== src/Collector/Watch/Reconcile/Deletion.antt =====
-- A deletion on its way through the decoder of internal/ingest: the observation that comes out is the
-- deletion of the object that the reference names.
use kube_insight.Prelude.{
  String, ℕ, false, some, [], ◌∷◌, ◌≡◌, refl, ap, ◌∙◌, ◌==◌, eq_iff, eq_refl, if◌then◌else◌, arith,
}
use kube_insight.Prelude.Text.{equal_fold}
use kube_insight.Prelude.Result.{Result, ok}
use kube_insight.Json.{Value, Fields, end, field, str, obj, set, get, as_obj, str_or_empty}
use kube_insight.Json.Laws.{get-set}
use kube_insight.Core.{ResourceRef, Observation, deleted}
use kube_insight.Kubeapi.{Resolver, resolve_gvk, api_version, resource_ref_from_object}
use kube_insight.Kubeapi.Laws.{NoSlash, split-api_version}
use kube_insight.Ingest.Decode.{
  observation_type, normalize_numbers, decode_observation_input, decode_observation_inputs,
  observation_from_object,
}
use kube_insight.Collector.Watch.Reconcile.{
  set_unless_empty, deleted_metadata, deleted_object, deleted_observation,
}

text_of : String → Fields → String
text_of k m = str_or_empty (get k m)

-- What a read sees behind `if value != "" { metadata[key] = value }`.
text_of-set_unless_empty :
    (k j v : String) (m : Fields)
    → text_of k (set_unless_empty j v m)
      ≡ (if j == k then (if v == "" then text_of k m else v) else text_of k m)
unfolding text_of set_unless_empty
text_of-set_unless_empty k j v m = ground (arith, get-set k j (str v) m)

normalize-write :
    (number : String → Value) (k v : String) (m : Fields)
    → normalize_numbers number (set k (str v) m) ≡ set k (str v) (normalize_numbers number m)
unfolding normalize_numbers set
normalize-write number k v end = refl
normalize-write number k v (field j w m) = ground (arith, normalize-write number k v m)

text_of-same :
    (k v : String) (m : Fields) → text_of k m ≡ "" → text_of k (set_unless_empty k v m) ≡ v
text_of-same k v m h = ground (arith, text_of-set_unless_empty k k v m, eq_refl k, h, eq_iff v "")

text_of-other :
    (k j v : String) (m : Fields)
    → (j == k) ≡ false
    → text_of k (set_unless_empty j v m) ≡ text_of k m
text_of-other k j v m h = ground (arith, text_of-set_unless_empty k j v m, h)

normalize-set :
    (number : String → Value) (k v : String) (m : Fields)
    → normalize_numbers number (set_unless_empty k v m)
      ≡ set_unless_empty k v (normalize_numbers number m)
unfolding set_unless_empty
normalize-set number k v m = ground (arith, normalize-write number k v m)

module _ (ref : ResourceRef) (rv : String) where
  abbrev named : Fields
  named = field "name" (str ref.name) end

  abbrev placed : Fields
  placed = set_unless_empty "namespace" ref.namespace named

  abbrev known : Fields
  known = set_unless_empty "uid" ref.uid placed

  deleted_metadata_lem : deleted_metadata ref rv ≡ set_unless_empty "resourceVersion" rv known
  unfolding deleted_metadata
  deleted_metadata_lem = refl

  reads_name : text_of "name" (deleted_metadata ref rv) ≡ ref.name
  unfolding text_of get
  reads_name = rw deleted_metadata_lem (
      text_of-other "name" "resourceVersion" rv known refl
      ∙ text_of-other "name" "uid" ref.uid placed refl
      ∙ text_of-other "name" "namespace" ref.namespace named refl)

  reads_namespace : text_of "namespace" (deleted_metadata ref rv) ≡ ref.namespace
  unfolding text_of get
  reads_namespace = rw deleted_metadata_lem (
      text_of-other "namespace" "resourceVersion" rv known refl
      ∙ text_of-other "namespace" "uid" ref.uid placed refl
      ∙ text_of-same "namespace" ref.namespace named refl)

  placed_lacks :
      (k : String) → ("namespace" == k) ≡ false → ("name" == k) ≡ false → text_of k placed ≡ ""
  unfolding text_of get
  placed_lacks k h h' = text_of-other k "namespace" ref.namespace named h ∙ ground (arith, h')

  reads_uid : text_of "uid" (deleted_metadata ref rv) ≡ ref.uid
  reads_uid = rw deleted_metadata_lem (
      text_of-other "uid" "resourceVersion" rv known refl
      ∙ text_of-same "uid" ref.uid placed (placed_lacks "uid" refl refl))

  reads_version : text_of "resourceVersion" (deleted_metadata ref rv) ≡ rv
  reads_version = rw deleted_metadata_lem (
      text_of-same "resourceVersion" rv known (
        text_of-other "resourceVersion" "uid" ref.uid placed refl
        ∙ placed_lacks "resourceVersion" refl refl))

  deleted_metadata-normal :
      (number : String → Value)
      → normalize_numbers number (deleted_metadata ref rv) ≡ deleted_metadata ref rv
  unfolding normalize_numbers
  deleted_metadata-normal number = rw deleted_metadata_lem (
      normalize-set number "resourceVersion" rv known
      ∙ ap (set_unless_empty "resourceVersion" rv) (
          normalize-set number "uid" ref.uid placed
          ∙ ap (set_unless_empty "uid" ref.uid)
              (normalize-set number "namespace" ref.namespace named)))

  deleted_object-normal :
      (number : String → Value)
      → normalize_numbers number (deleted_object ref rv) ≡ deleted_object ref rv
  unfolding normalize_numbers deleted_object
  deleted_object-normal number =
      ap
        (λ m.
          field "apiVersion" (str (api_version ref.group ref.version))
            (field "kind" (str ref.kind) (field "metadata" (obj m) end)))
        (deleted_metadata-normal number)

  deleted_observation-decoded :
      (number : String → Value)
      → decode_observation_inputs number (deleted_observation ref rv)
        ≡ ok (record { type = deleted; object = deleted_object ref rv } ∷ [])
  unfolding decode_observation_inputs decode_observation_input deleted_observation get
      observation_type equal_fold
  deleted_observation-decoded number =
      ap (λ m. Result.ok (record { type = deleted; object = m } ∷ []))
        (deleted_object-normal number)

-- The observation of a deletion: of the object of a reference, as the resolver names its resource.
abbrev pub deletion_of : String → ℕ → Resolver → ResourceRef → String → Observation
deletion_of cluster_id at r ref rv = record {
  type = deleted;
  observed_at = at;
  resource_version = rv;
  ref = record ref {
    cluster_id = cluster_id;
    resource = (resolve_gvk r ref.group ref.version ref.kind).0.resource;
  };
  object = some (deleted_object ref rv);
  partial = false;
}

pub object_reads :
    (ref : ResourceRef) (rv : String)
    → (str_or_empty (get "kind" (deleted_object ref rv)) ≡ ref.kind)
      × (str_or_empty (get "apiVersion" (deleted_object ref rv))
          ≡ api_version ref.group ref.version)
      × (as_obj (get "metadata" (deleted_object ref rv)) ≡ some (deleted_metadata ref rv))
unfolding deleted_object get
object_reads ref rv = (refl, refl, refl)

ref_from_deleted :
    (cluster_id : String) (r : Resolver) (ref : ResourceRef) (rv : String)
    → NoSlash ref.group
    → (ref.group ≡ "" → NoSlash ref.version)
    → resource_ref_from_object r cluster_id (deleted_object ref rv) ≡ record ref {
      cluster_id = cluster_id;
      resource = (resolve_gvk r ref.group ref.version ref.kind).0.resource;
    }
unfolding resource_ref_from_object text_of
ref_from_deleted cluster_id r ref rv plain core =
    let o = object_reads ref rv in
    rw (
      resource_ref_from_object,
      o.0,
      o.1,
      o.2,
      split-api_version ref.group ref.version plain core,
      reads_name ref rv,
      reads_namespace ref rv,
      reads_uid ref rv,
    )

-- The document that is made of a deletion decodes to one input, and the observation of that input is
-- the deletion of the object that the reference names, at the given resourceVersion: for a reference
-- whose group has no slash, and whose version has none in the core group.
pub deleted_observation-back :
    (number : String → Value) (cluster_id : String) (at : ℕ) (r : Resolver) (ref : ResourceRef)
    (rv : String)
    → NoSlash ref.group
    → (ref.group ≡ "" → NoSlash ref.version)
    → (decode_observation_inputs number (deleted_observation ref rv)
        ≡ ok (record { type = deleted; object = deleted_object ref rv } ∷ []))
      × (observation_from_object cluster_id deleted at r (deleted_object ref rv)
          ≡ deletion_of cluster_id at r ref rv)
unfolding observation_from_object text_of
deleted_observation-back number cluster_id at r ref rv plain core = (
  deleted_observation-decoded ref rv number,
  rw (
    ref_from_deleted cluster_id r ref rv plain core,
    (object_reads ref rv).2,
    reads_version ref rv,
  ),
)
