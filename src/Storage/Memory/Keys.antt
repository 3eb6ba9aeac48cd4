-- ===== src/Storage/Memory/Keys.antt =====
-- Upserts keep one entry for each key, and what is written last under a key is what is found.
use kube_insight.Prelude.{
  String, Bool, false, Option, none, some, ◌≡◌, ◌≢◌, refl, List, [], ◌∷◌, ◌==◌, eq_iff,
  if◌then◌else◌, arith, Bool-cases, inl, inr, any,
}
use kube_insight.Storage.Memory.{
  IngestionOffset, offset_key, upsert_offset, MemoryStore, upsert_ingestion_offset,
}

-- The offset of a key: the first one that has it.
abbrev pub find_offset : String → List IngestionOffset → Option IngestionOffset
find_offset key [] = none
find_offset key (o ∷ os) = if offset_key o == key then some o else find_offset key os

find-upsert_offset :
    (o : IngestionOffset) (os : List IngestionOffset) (key : String)
    → find_offset key (upsert_offset o os)
      ≡ (if offset_key o == key then some o else find_offset key os)
unfolding upsert_offset
find-upsert_offset o [] key = refl
find-upsert_offset o (x ∷ xs) key = ground (
  arith,
  find-upsert_offset o xs key,
  eq_iff (offset_key x) (offset_key o),
  eq_iff (offset_key x) key,
  eq_iff (offset_key o) key,
)

abbrev has_key : String → List IngestionOffset → Bool
has_key key os = any (λ o. offset_key o == key) os

-- No two offsets have one key.
abbrev pub DistinctOffsets : List IngestionOffset → Type 0
DistinctOffsets [] = Unit
DistinctOffsets (o ∷ os) = (has_key (offset_key o) os ≡ false) × DistinctOffsets os

has_key-upsert :
    (o : IngestionOffset) (os : List IngestionOffset) (key : String)
    → offset_key o ≢ key
    → has_key key (upsert_offset o os) ≡ has_key key os
unfolding upsert_offset
has_key-upsert o [] key ne = ground (arith, eq_iff (offset_key o) key)
has_key-upsert o (x ∷ xs) key ne = ground (
  arith,
  has_key-upsert o xs key ne,
  eq_iff (offset_key o) key,
  eq_iff (offset_key x) (offset_key o),
  eq_iff (offset_key x) key,
)

upsert-Distinct :
    (o : IngestionOffset) (os : List IngestionOffset)
    → DistinctOffsets os
    → DistinctOffsets (upsert_offset o os)
unfolding upsert_offset
upsert-Distinct o [] h = (refl, tt)
upsert-Distinct o (x ∷ xs) h = elim (Bool-cases (offset_key x == offset_key o)) [
  | inl same ↦
      let keys : offset_key x ≡ offset_key o = (eq_iff _ _).0 same in rw same (rw keys at h.0, h.1)
  | inr other ↦ rw other (
    ground (
      arith,
      has_key-upsert o xs (offset_key x),
      eq_iff (offset_key x) (offset_key o),
      eq_iff (offset_key o) (offset_key x),
      h.0,
    ),
    upsert-Distinct o xs h.1,
  )
]

-- An upserted offset is the one that is found under its key, the offsets of all other keys are found
-- as before, and no key has two offsets if none had.
pub upsert_ingestion_offset_lem :
    (o : IngestionOffset) (s : MemoryStore)
    → DistinctOffsets s.offsets
    → DistinctOffsets (upsert_ingestion_offset o s).offsets
      × ((key : String)
          → find_offset key (upsert_ingestion_offset o s).offsets
            ≡ (if offset_key o == key then some o else find_offset key s.offsets))
unfolding upsert_ingestion_offset
upsert_ingestion_offset_lem o s h =
    (upsert-Distinct o s.offsets h, λ key. find-upsert_offset o s.offsets key)
