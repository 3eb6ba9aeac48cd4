-- ===== src/Storage/Memory/Latest.antt =====
-- LatestResourceRefs against its specification: the last observation of each object decides.
use kube_insight.Prelude.{
  String, Bool, Option, none, some, ◌≡◌, refl, List, [], ◌∷◌, ◌==◌, eq_iff, if◌then◌else◌, arith,
  Bool-cases, inl, inr,
}
use kube_insight.Core.{ResourceRef, Observation}
use kube_insight.Kubeapi.{ResourceInfo}
use kube_insight.Storage.Memory.{
  resource_ref_key, selects, put_latest, latest_of, is_deleted, live_refs, latest_resource_refs,
  MemoryStore,
}

abbrev key_of : Observation → String
key_of obs = resource_ref_key obs.ref

abbrev pub find_latest : String → List Observation → Option Observation
find_latest key [] = none
find_latest key (o ∷ os) = if key_of o == key then some o else find_latest key os

-- The last wanted observation of an object, where there is one.
abbrev pub last_of : (Observation → Bool) → String → List Observation → Option Observation
last_of wanted key [] = none
last_of wanted key (o ∷ os) = elim (last_of wanted key os) [
  | some later ↦ some later
  | none ↦ if wanted o then (if key_of o == key then some o else none) else none
]

abbrev or_else : Option Observation → Option Observation → Option Observation
or_else none b = b
or_else (some o) b = some o

abbrev DistinctKeys : List Observation → Type 0
DistinctKeys [] = Unit
DistinctKeys (o ∷ os) = (find_latest (key_of o) os ≡ none) × DistinctKeys os

find-put_latest :
    (obs : Observation) (latest : List Observation) (key : String)
    → find_latest key (put_latest obs latest)
      ≡ (if key_of obs == key then some obs else find_latest key latest)
unfolding put_latest
find-put_latest obs [] key = refl
find-put_latest obs (x ∷ xs) key = ground (
  arith,
  find-put_latest obs xs key,
  eq_iff (key_of x) (key_of obs),
  eq_iff (key_of x) key,
  eq_iff (key_of obs) key,
)

put_latest-Distinct :
    (obs : Observation) (latest : List Observation)
    → DistinctKeys latest
    → DistinctKeys (put_latest obs latest)
unfolding put_latest
put_latest-Distinct obs [] h = (refl, tt)
put_latest-Distinct obs (x ∷ xs) h = elim (Bool-cases (key_of x == key_of obs)) [
  | inl same ↦
      let keys : key_of x ≡ key_of obs = (eq_iff _ _).0 same in rw same (rw keys at h.0, h.1)
  | inr other ↦ rw other (
    ground (
      arith,
      find-put_latest obs xs (key_of x),
      eq_iff (key_of x) (key_of obs),
      eq_iff (key_of obs) (key_of x),
      h.0,
    ),
    put_latest-Distinct obs xs h.1,
  )
]

module _ (wanted : Observation → Bool) where
  latest_of-Distinct :
      (os latest : List Observation)
      → DistinctKeys latest
      → DistinctKeys (latest_of wanted os latest)
  unfolding latest_of
  latest_of-Distinct [] latest h = h
  latest_of-Distinct (o ∷ os) latest h = elim (Bool-cases (wanted o)) [
    | inl e ↦ rw e (latest_of-Distinct os (put_latest o latest) (put_latest-Distinct o latest h))
    | inr e ↦ rw e (latest_of-Distinct os latest h)
  ]

  find-latest_of :
      (os latest : List Observation) (key : String)
      → find_latest key (latest_of wanted os latest)
        ≡ or_else (last_of wanted key os) (find_latest key latest)
  unfolding latest_of
  find-latest_of [] latest key = refl
  find-latest_of (o ∷ os) latest key = elim (Bool-cases (wanted o)) [
    | inl e ↦ rw e (
        ground
          (arith, e, find-latest_of os (put_latest o latest) key, find-put_latest o latest key))
    | inr e ↦ rw e (ground (arith, e, find-latest_of os latest key))
  ]

abbrev pub find_ref : String → List ResourceRef → Option ResourceRef
find_ref key [] = none
find_ref key (r ∷ rs) = if resource_ref_key r == key then some r else find_ref key rs

-- The reference that an observation stands for, unless it is a deletion.
abbrev pub live : Option Observation → Option ResourceRef
live none = none
live (some o) = if is_deleted o.type then none else some o.ref

find-live_refs :
    (os : List Observation) (key : String)
    → DistinctKeys os
    → find_ref key (live_refs os) ≡ live (find_latest key os)
unfolding live_refs
find-live_refs [] key h = refl
find-live_refs (o ∷ os) key h = ground (arith, find-live_refs os key, eq_iff (key_of o) key)

-- An object is listed exactly when its last observation in the cluster, the resource and the namespace
-- that are asked for is not a deletion, and then by the reference of that observation.
pub latest_resource_refs_lem :
    (s : MemoryStore) (cluster_id : String) (resource : ResourceInfo) (namespace key : String)
    → find_ref key (latest_resource_refs s cluster_id resource namespace)
      ≡ live (last_of (selects cluster_id resource namespace) key s.observations)
unfolding latest_resource_refs
latest_resource_refs_lem s cluster_id resource namespace key =
    let wanted = selects cluster_id resource namespace in
    rw
      (find-live_refs (latest_of wanted s.observations []) key
        (latest_of-Distinct wanted s.observations [] tt))
      (rw (find-latest_of wanted s.observations [] key) (ground arith))
