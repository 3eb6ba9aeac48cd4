-- ===== src/Storage/Memory.antt =====
-- internal/storage/memory.go: the store that keeps everything in memory. Its lock is left out, since
-- every method holds it from beginning to end. A map that is built and read within a method is an
-- association list; where the source ranges over a map, the order here is that of the first writes.
pub mod Keys
pub mod Latest
use kube_insight.Prelude.{
  String, ℕ, zero, suc, Bool, true, false, not, ◌&&◌, ◌||◌, Option, none, some, List, [], ◌∷◌, ◌++◌,
  ◌==◌, if◌then◌else◌, length,
}
use kube_insight.Prelude.Text.{concat}
use kube_insight.Core.{ResourceRef, Observation, ObservationType, deleted, Fact, Edge, Change}
use kube_insight.Kubeapi.{ResourceInfo}
use kube_insight.Filter.{Decision}
use kube_insight.Extractor.{Evidence}

pub data OffsetEvent : Type 0 where
  list watch bookmark : OffsetEvent

pub record IngestionOffset : Type 0 where
  pub cluster_id : String
  pub resource : ResourceInfo
  pub namespace : String
  pub resource_version : String
  pub event : OffsetEvent
  pub status : String
  pub error : String
  pub at : ℕ

pub record FilterDecisionRecord : Type 0 where
  pub observation : Observation
  pub decision : Decision

pub record MemoryStore : Type 0 where
  pub observations : List Observation
  pub raw_latest : List Observation
  pub facts : List Fact
  pub edges : List Edge
  pub changes : List Change
  pub resources : List ResourceInfo
  pub filter_decisions : List FilterDecisionRecord
  pub offsets : List IngestionOffset

abbrev pub new_memory_store : MemoryStore
new_memory_store = record {
  observations = [];
  raw_latest = [];
  facts = [];
  edges = [];
  changes = [];
  resources = [];
  filter_decisions = [];
  offsets = [];
}

unfoldable pub put_raw_latest : Observation → MemoryStore → MemoryStore
put_raw_latest obs s = record s { raw_latest = s.raw_latest ++ obs ∷ [] }

unfoldable pub put_observation : Observation → Evidence → MemoryStore → MemoryStore
put_observation obs evidence s = record s {
  observations = s.observations ++ obs ∷ [];
  facts = s.facts ++ evidence.facts;
  edges = s.edges ++ evidence.edges;
  changes = s.changes ++ evidence.changes;
}

unfoldable pub put_filter_decisions : Observation → List Decision → MemoryStore → MemoryStore
put_filter_decisions obs [] s = s
put_filter_decisions obs (d ∷ ds) s = put_filter_decisions obs ds (record s {
  filter_decisions = s.filter_decisions ++ record { observation = obs; decision = d } ∷ [];
})

facts_of : String → List Fact → List Fact
facts_of object_id [] = []
facts_of object_id (f ∷ fs) =
    let rest = facts_of object_id fs in if f.object_id == object_id then f ∷ rest else rest

unfoldable pub get_facts : MemoryStore → String → List Fact
unfolding facts_of
get_facts s object_id = facts_of object_id s.facts

edges_of : String → List Edge → List Edge
edges_of source_id [] = []
edges_of source_id (e ∷ es) =
    let rest = edges_of source_id es in if e.source_id == source_id then e ∷ rest else rest

unfoldable pub get_edges : MemoryStore → String → List Edge
unfolding edges_of
get_edges s source_id = edges_of source_id s.edges

abbrev pub api_resource_key : ResourceInfo → String
api_resource_key r = concat (r.group ∷ "\0" ∷ r.version ∷ "\0" ∷ r.resource ∷ [])

-- A map from keys to positions.
abbrev pub Index : Type 0
Index = List (String × ℕ)

unfoldable pub position : String → Index → Option ℕ
position key [] = none
position key ((k, i) ∷ m) = if k == key then some i else position key m

-- `byKey[key] = i`: the newest entry of a key is in front.
abbrev pub index_at : String → ℕ → Index → Index
index_at key i m = (key, i) ∷ m

-- `for i, resource := range s.Resources`
unfoldable pub index_from : ℕ → List ResourceInfo → Index → Index
index_from i [] m = m
index_from i (r ∷ rs) m = index_from (suc i) rs (index_at (api_resource_key r) i m)

-- `s.Resources[i] = resource`, for an index that is in range.
unfoldable pub set_at {ℓ} : {A : Type ℓ} → List A → ℕ → A → List A
set_at [] i v = []
set_at (x ∷ xs) zero v = v ∷ xs
set_at (x ∷ xs) (suc i) v = x ∷ set_at xs i v

-- The loop of UpsertAPIResources over the given resources.
unfoldable pub upsert_from : List ResourceInfo → Index → List ResourceInfo → List ResourceInfo
unfolding position
upsert_from stored by_key [] = stored
upsert_from stored by_key (r ∷ rs) = elim (position (api_resource_key r) by_key) [
  | some i ↦ upsert_from (set_at stored i r) by_key rs
  | none ↦ upsert_from (stored ++ r ∷ []) (index_at (api_resource_key r) (length stored) by_key) rs
]

unfoldable pub upsert_api_resources : List ResourceInfo → MemoryStore → MemoryStore
unfolding upsert_from index_from
upsert_api_resources rs s = record s {
  resources = upsert_from s.resources (index_from 0 s.resources []) rs;
}

unfoldable pub api_resources : MemoryStore → List ResourceInfo
api_resources s = s.resources

abbrev pub offset_key : IngestionOffset → String
offset_key o = concat (o.cluster_id ∷ "\0" ∷ api_resource_key o.resource ∷ "\0" ∷ o.namespace ∷ [])

-- The loop of UpsertIngestionOffset: the first entry of the key is replaced, and an offset with a new
-- key is added behind the others.
unfoldable pub upsert_offset : IngestionOffset → List IngestionOffset → List IngestionOffset
upsert_offset o [] = o ∷ []
upsert_offset o (x ∷ xs) = if offset_key x == offset_key o then o ∷ xs else x ∷ upsert_offset o xs

unfoldable pub upsert_ingestion_offset : IngestionOffset → MemoryStore → MemoryStore
unfolding upsert_offset
upsert_ingestion_offset o s = record s { offsets = upsert_offset o s.offsets }

abbrev pub resource_ref_key : ResourceRef → String
resource_ref_key ref =
    if not (ref.uid == "")
    then concat ("uid:" ∷ ref.uid ∷ [])
    else concat ("name:" ∷ ref.namespace ∷ "/" ∷ ref.name ∷ [])

-- An observation that LatestResourceRefs looks at.
unfoldable pub selects : String → ResourceInfo → String → Observation → Bool
selects cluster_id resource namespace obs =
    if not (obs.ref.cluster_id == cluster_id)
      || not (obs.ref.group == resource.group)
      || not (obs.ref.version == resource.version)
      || not (obs.ref.resource == resource.resource)
    then false
    else if not (namespace == "") && not (obs.ref.namespace == namespace)
    then false
    else true

-- `latest[key] = obs`
unfoldable pub put_latest : Observation → List Observation → List Observation
put_latest obs [] = obs ∷ []
put_latest obs (x ∷ xs) =
    if resource_ref_key x.ref == resource_ref_key obs.ref then obs ∷ xs else x ∷ put_latest obs xs

unfoldable pub latest_of :
    (Observation → Bool) → List Observation → List Observation → List Observation
unfolding put_latest
latest_of wanted [] latest = latest
latest_of wanted (obs ∷ rest) latest =
    latest_of wanted rest (if wanted obs then put_latest obs latest else latest)

abbrev pub is_deleted : ObservationType → Bool
is_deleted deleted = true
is_deleted _ = false

unfoldable pub live_refs : List Observation → List ResourceRef
live_refs [] = []
live_refs (obs ∷ rest) =
    let refs = live_refs rest in if is_deleted obs.type then refs else obs.ref ∷ refs

unfoldable pub latest_resource_refs :
    MemoryStore → String → ResourceInfo → String → List ResourceRef
unfolding latest_of live_refs selects
latest_resource_refs s cluster_id resource namespace =
    live_refs (latest_of (selects cluster_id resource namespace) s.observations [])
