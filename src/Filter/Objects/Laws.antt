-- ===== src/Filter/Objects/Laws.antt =====
-- What the filters of Filter/Objects.antt and lease_skip promise.
use kube_insight.Prelude.{
  String, true, Option, none, some, ◌==◌, ◌≡◌, if◌then◌else◌, arith, Option-cases, inl, inr, eq_iff,
  eq_refl, ◌⊎◌,
}
use kube_insight.Prelude.Text.{equal_fold}
use kube_insight.Core.{Observation}
use kube_insight.Json.{Value, Fields, obj, get, get_opt, delete, set, as_obj}
use kube_insight.Json.Laws.{get-delete, get-set}
use kube_insight.Filter.{Decision, keep, keep_modified, lease_skip_apply}
use kube_insight.Filter.Objects.{
  fields_of, secret_redaction_apply, managed_fields_apply, resource_version_apply,
  leader_election_apply, metadata_filter, leader_annotation, leader_metadata, leader_annotations,
}

-- A filter's result is honest: it touches nothing but the object, and changes that only where its
-- outcome says so.
pub record Honest (obs : Observation) (result : Observation × Decision) : Type 0 where
  pub only_object : result.0 ≡ record obs { object = result.0.object }
  pub announced : (result.1.outcome ≡ keep_modified) ⊎ (result.0 ≡ obs)

pub secret_redaction-Honest : (obs : Observation) → Honest obs (secret_redaction_apply obs)
unfolding secret_redaction_apply
secret_redaction-Honest obs = ground arith

pub managed_fields-Honest : (obs : Observation) → Honest obs (managed_fields_apply obs)
unfolding managed_fields_apply
managed_fields-Honest obs = ground arith

pub resource_version-Honest : (obs : Observation) → Honest obs (resource_version_apply obs)
unfolding resource_version_apply
resource_version-Honest obs = ground arith

pub leader_election-Honest : (obs : Observation) → Honest obs (leader_election_apply obs)
unfolding leader_election_apply
leader_election-Honest obs = ground arith

pub lease_skip-Honest : (obs : Observation) → Honest obs (lease_skip_apply obs)
unfolding lease_skip_apply
lease_skip-Honest obs = ground arith

-- After SecretRedactionFilter the object of a secret has neither of the payload fields, and every
-- other field reads as before.
pub secret_redaction_removes :
    (obs : Observation) (k : String)
    → obs.ref.resource ≡ "secrets"
    → (get_opt k (secret_redaction_apply obs).0.object
        ≡ (if k == "data" then none else if k == "stringData" then none else get_opt k obs.object))
unfolding secret_redaction_apply
secret_redaction_removes obs k h = elim (Option-cases obs.object) [
  | inl e ↦ ground (arith, e, eq_iff obs.ref.resource "secrets")
  | inr (m, e) ↦ ground (
    arith,
    e,
    eq_iff obs.ref.resource "secrets",
    get-delete k "stringData" (delete "data" m),
    get-delete k "data" m,
    eq_iff "data" k,
    eq_iff "stringData" k,
    eq_iff k "data",
    eq_iff k "stringData",
  )
]

-- A second run of SecretRedactionFilter finds nothing more to do: it keeps the observation as it is.
pub secret_redaction_settles :
    (obs : Observation)
    → ((secret_redaction_apply (secret_redaction_apply obs).0).1.outcome ≡ keep)
      × ((secret_redaction_apply (secret_redaction_apply obs).0).0 ≡ (secret_redaction_apply obs).0)
unfolding secret_redaction_apply
secret_redaction_settles obs = elim (Option-cases obs.object) [
  | inl e ↦ ground (arith, e)
  | inr (m, e) ↦ ground (
    arith,
    e,
    get-delete "data" "stringData" (delete "data" m),
    get-delete "data" "data" m,
    get-delete "stringData" "stringData" (delete "data" m),
    eq_iff "stringData" "data",
    eq_refl "data",
    eq_refl "stringData",
  )
]

metadata_filter_settles :
    (key absent removed : String) (obs : Observation)
    → let r = metadata_filter key absent removed obs in
      let again = metadata_filter key absent removed r.0 in
      (again.1.outcome ≡ keep) × (again.0 ≡ r.0)
unfolding metadata_filter
metadata_filter_settles key absent removed obs =
    elim (Option-cases (as_obj (get_opt "metadata" obs.object))) [
      | inl e ↦ ground (arith, e)
      | inr (metadata, e) ↦ ground (
        arith,
        e,
        get-set "metadata" "metadata" (obj (delete key metadata)) (fields_of obs.object),
        get-delete key key metadata,
        eq_refl key,
        eq_refl "metadata",
      )
    ]

-- So does a second run of ManagedFieldsFilter.
pub managed_fields_settles :
    (obs : Observation)
    → ((managed_fields_apply (managed_fields_apply obs).0).1.outcome ≡ keep)
      × ((managed_fields_apply (managed_fields_apply obs).0).0 ≡ (managed_fields_apply obs).0)
unfolding managed_fields_apply
managed_fields_settles obs =
    metadata_filter_settles "managedFields" "managed_fields_absent" "managed_fields_removed" obs

-- So does a second run of ResourceVersionFilter.
pub resource_version_settles :
    (obs : Observation)
    → ((resource_version_apply (resource_version_apply obs).0).1.outcome ≡ keep)
      × ((resource_version_apply (resource_version_apply obs).0).0 ≡ (resource_version_apply obs).0)
unfolding resource_version_apply
resource_version_settles obs =
    metadata_filter_settles "resourceVersion" "resource_version_absent" "resource_version_removed"
      obs

-- The leader annotation of an object, where it has metadata with annotations.
abbrev pub leader_of : Option Fields → Option Value
leader_of object =
    get_opt leader_annotation (as_obj (get_opt "annotations" (as_obj (get_opt "metadata" object))))

leader_of-set :
    (metadata object : Fields)
    → leader_of (some (set "metadata" (obj metadata) object))
      ≡ get_opt leader_annotation (as_obj (get "annotations" metadata))
leader_of-set metadata object =
    ground (arith, get-set "metadata" "metadata" (obj metadata) object, eq_refl "metadata")

leader_metadata_lem :
    (metadata annotations : Fields)
    → get_opt leader_annotation (as_obj (get "annotations" (leader_metadata metadata annotations)))
      ≡ none
unfolding leader_metadata
leader_metadata_lem metadata annotations = ground (
  arith,
  get-delete leader_annotation leader_annotation annotations,
  eq_refl leader_annotation,
  get-set "annotations" "annotations" (obj (delete leader_annotation annotations)) metadata,
  eq_refl "annotations",
  get-delete "annotations" "annotations" metadata,
)

leader_annotations_lem :
    (obs : Observation) (metadata annotations : Fields)
    → as_obj (get_opt "metadata" obs.object) ≡ some metadata
    → as_obj (get "annotations" metadata) ≡ some annotations
    → leader_of (leader_annotations obs metadata annotations).0.object ≡ none
unfolding leader_annotations
leader_annotations_lem obs metadata annotations e e' = ground (
  arith,
  leader_of-set (leader_metadata metadata annotations) (fields_of obs.object),
  leader_metadata_lem metadata annotations,
)

-- After LeaderElectionConfigMapFilter no config map of the core group has the leader annotation.
pub leader_election_removes :
    (obs : Observation)
    → obs.ref.group ≡ ""
    → equal_fold obs.ref.resource "configmaps" ≡ true
    → leader_of (leader_election_apply obs).0.object ≡ none
unfolding leader_election_apply
leader_election_removes obs core_group config_map =
    elim (Option-cases (as_obj (get_opt "metadata" obs.object))) [
      | inl e ↦ ground (arith, e, eq_iff obs.ref.group "")
      | inr (metadata, e) ↦ elim (Option-cases (as_obj (get "annotations" metadata))) [
        | inl e' ↦ ground (arith, e, e', eq_iff obs.ref.group "")
        | inr (annotations, e') ↦
            ground (
              arith,
              e,
              e',
              eq_iff obs.ref.group "",
              leader_annotations_lem obs metadata annotations,
            )
      ]
    ]
