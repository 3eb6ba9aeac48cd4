-- ===== src/Filter/Objects.antt =====
-- internal/filter/filter.go: the filters that take fields of an object away.
pub mod Laws
use kube_insight.Prelude.{
  String, Bool, true, false, not, ◌&&◌, ◌||◌, Option, none, some, ◌==◌, is_some, if◌then◌else◌, ℕ,
  ◌+◌, List, [], ◌∷◌, eqb,
}
use kube_insight.Prelude.Text.{equal_fold}
use kube_insight.Core.{Observation}
use kube_insight.Json.{
  Fields, end, field, obj, int, bool, get, get_opt, delete, set, has_fields, as_obj,
}
use kube_insight.Filter.{Filter, Decision, keep, keep_modified, pass, total}

-- The result of a filter that changed the object, with what it notes.
abbrev pub modified_by : Observation → Fields → String → Fields → Observation × Decision
modified_by obs next reason meta = (
  record obs { object = some next },
  record { outcome = keep_modified; reason = reason; meta = some meta },
)

abbrev pub removed_fields : ℕ → Fields
removed_fields n = field "removedFields" (int n) end

abbrev count_key : String → Fields → ℕ
count_key k m = if is_some (get k m) then 1 else 0

secret_object : Observation → Fields → Observation × Decision
secret_object obs m =
    let removed = count_key "data" m + count_key "stringData" m in
    if eqb removed 0
    then pass obs keep "secret_payload_absent"
    else modified_by obs (delete "stringData" (delete "data" m)) "secret_payload_removed" (
        field "redactedFields" (int removed)
          (field "removedFields" (int removed) (field "secretPayloadRemoved" (bool true) end)))

-- SecretRedactionFilter.Apply
unfoldable pub secret_redaction_apply : Observation → Observation × Decision
unfolding secret_object
secret_redaction_apply obs =
    if not (obs.ref.resource == "secrets")
    then pass obs keep "not_secret"
    else elim obs.object [ none ↦ pass obs keep "no_object" | some m ↦ secret_object obs m ]

abbrev pub secret_redaction : Filter
secret_redaction = total "secret_redaction_filter" secret_redaction_apply

-- What ManagedFieldsFilter and ResourceVersionFilter do with the metadata they have found.
drop_metadata_field :
    (key absent removed : String) → Observation → Fields → Fields → Observation × Decision
drop_metadata_field key absent removed obs object metadata =
    if is_some (get key metadata)
    then modified_by obs (set "metadata" (obj (delete key metadata)) object) removed
        (removed_fields 1)
    else pass obs keep absent

-- The object as a map, where one of its fields was found to be a map.
abbrev pub fields_of : Option Fields → Fields
fields_of none = end
fields_of (some m) = m

metadata_filter : (key absent removed : String) → Observation → Observation × Decision
unfolding drop_metadata_field
metadata_filter key absent removed obs = elim (as_obj (get_opt "metadata" obs.object)) [
  | none ↦ pass obs keep "no_metadata"
  | some metadata ↦ drop_metadata_field key absent removed obs (fields_of obs.object) metadata
]

-- ManagedFieldsFilter.Apply
unfoldable pub managed_fields_apply : Observation → Observation × Decision
unfolding metadata_filter
managed_fields_apply =
    metadata_filter "managedFields" "managed_fields_absent" "managed_fields_removed"

abbrev pub managed_fields : Filter
managed_fields = total "metadata_normalization_filter" managed_fields_apply

-- ResourceVersionFilter.Apply
unfoldable pub resource_version_apply : Observation → Observation × Decision
unfolding metadata_filter
resource_version_apply =
    metadata_filter "resourceVersion" "resource_version_absent" "resource_version_removed"

abbrev pub resource_version : Filter
resource_version = total "resource_version_normalization_filter" resource_version_apply

abbrev pub leader_annotation : String
leader_annotation = "control-plane.alpha.kubernetes.io/leader"

-- The metadata without the leader annotation, and without annotations where none is left.
leader_metadata : Fields → Fields → Fields
leader_metadata metadata annotations =
    let next = delete leader_annotation annotations in
    if has_fields next then set "annotations" (obj next) metadata else delete "annotations" metadata

leader_annotations : Observation → Fields → Fields → Observation × Decision
unfolding leader_metadata
leader_annotations obs metadata annotations =
    if is_some (get leader_annotation annotations)
    then modified_by obs
        (set "metadata" (obj (leader_metadata metadata annotations)) (fields_of obs.object))
        "leader_annotation_removed" (removed_fields 1)
    else pass obs keep "leader_annotation_absent"

-- LeaderElectionConfigMapFilter.Apply
unfoldable pub leader_election_apply : Observation → Observation × Decision
unfolding leader_annotations
leader_election_apply obs =
    if not (obs.ref.group == "") || not (equal_fold obs.ref.resource "configmaps")
    then pass obs keep "not_configmap"
    else elim (as_obj (get_opt "metadata" obs.object)) [
      | none ↦ pass obs keep "no_metadata"
      | some metadata ↦ elim (as_obj (get "annotations" metadata)) [
        | none ↦ pass obs keep "annotations_absent"
        | some annotations ↦ leader_annotations obs metadata annotations
      ]
    ]

abbrev pub leader_election : Filter
leader_election = total "leader_election_configmap_normalization_filter" leader_election_apply
