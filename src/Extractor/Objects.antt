-- ===== src/Extractor/Objects.antt =====
-- internal/extractor/extractor.go: what the extractors read of an object, and the evidence that they make
-- of it. The text of a number and its sign are parameters, since a float is only its literal.
use kube_insight.Prelude.{
  String, ℕ, Bool, true, false, not, Option, none, some, List, [], ◌∷◌, ◌==◌, if◌then◌else◌,
}
use kube_insight.Prelude.Text.{concat}
use kube_insight.Core.{ResourceRef, Observation, ObservationType, deleted, Fact, Edge, Change}
use kube_insight.Json.{Value, Fields, int, negative, float, obj, get_opt, as_obj, as_str}
use kube_insight.Extractor.{Evidence, no_evidence, merge_evidence}

-- ResourceRef.HumanKey
abbrev pub human_key : ResourceRef → String
human_key ref =
    if ref.namespace == ""
    then concat (ref.group ∷ "/" ∷ ref.resource ∷ "/" ∷ ref.name ∷ [])
    else concat (ref.group ∷ "/" ∷ ref.resource ∷ "/" ∷ ref.namespace ∷ "/" ∷ ref.name ∷ [])

-- objectID
unfoldable pub object_id : Observation → String
object_id obs =
    if not (obs.ref.uid == "")
    then concat (obs.ref.cluster_id ∷ "/" ∷ obs.ref.uid ∷ [])
    else concat (obs.ref.cluster_id ∷ "/" ∷ human_key obs.ref ∷ [])

-- The walk of stringAt and numericAt.
unfoldable pub value_at : List String → Option Value → Option Value
value_at [] v = v
value_at (key ∷ keys) v = value_at keys (get_opt key (as_obj v))

abbrev pub object_value : Option Fields → Option Value
object_value none = none
object_value (some m) = some (obj m)

-- stringAt
unfoldable pub string_at : List String → Option Fields → Option String
unfolding value_at
string_at path object = as_str (value_at path (object_value object))

-- The type switch of numericFromAny.
abbrev pub as_number : Option Value → Option Value
as_number (some (int n)) = some (int n)
as_number (some (negative n)) = some (negative n)
as_number (some (float literal)) = some (float literal)
as_number _ = none

-- numericAt
unfoldable pub numeric_at : List String → Option Fields → Option Value
unfolding value_at
numeric_at path object = as_number (value_at path (object_value object))

-- strconv.FormatFloat of a number, and whether the number is positive.
pub record Numbers : Type 0 where
  pub text : Value → String
  pub positive : Value → Bool

-- fact
unfoldable pub fact : Observation → (key value : String) → ℕ → Fact
unfolding object_id
fact obs key value severity = record {
  time = obs.observed_at;
  object_id = object_id obs;
  key = key;
  value = value;
  numeric_value = none;
  severity = severity;
  detail = none;
}

-- change
unfoldable pub change : Observation → (family path op old new : String) → ℕ → Change
unfolding object_id
change obs family path op old new severity = record {
  time = obs.observed_at;
  object_id = object_id obs;
  family = family;
  path = path;
  op = op;
  old = old;
  new = new;
  severity = severity;
}

-- edge
unfoldable pub edge : Observation → (type target : String) → Edge
unfolding object_id
edge obs type target = record {
  type = type;
  source_id = object_id obs;
  target_id = concat (obs.ref.cluster_id ∷ "/" ∷ target ∷ []);
  valid_from = obs.observed_at;
  valid_to = none;
  detail = none;
}

abbrev pub of_fact : Fact → Evidence
of_fact f = record no_evidence { facts = f ∷ [] }

abbrev pub of_change : Change → Evidence
of_change c = record no_evidence { changes = c ∷ [] }

abbrev pub of_edge : Edge → Evidence
of_edge e = record no_evidence { edges = e ∷ [] }

-- Evidence that is appended piece by piece.
unfoldable pub all_of : List Evidence → Evidence
unfolding merge_evidence
all_of [] = no_evidence
all_of (e ∷ es) = merge_evidence e (all_of es)

-- A loop over the items of a slice that are maps.
unfoldable pub each_map : (Fields → Evidence) → List Value → Evidence
unfolding merge_evidence
each_map f [] = no_evidence
each_map f (v ∷ vs) = elim (as_obj (some v)) [
  | none ↦ each_map f vs
  | some m ↦ merge_evidence (f m) (each_map f vs)
]

-- A slice that may be nil.
abbrev pub items_of : Option (List Value) → List Value
items_of none = []
items_of (some vs) = vs

abbrev pub bool_text : Bool → String
bool_text value = if value then "true" else "false"

abbrev pub is_deletion : ObservationType → Bool
is_deletion deleted = true
is_deletion _ = false

-- What a deleted object leaves, under the key of its kind.
abbrev pub deletion : Observation → String → Evidence
deletion obs key =
    if is_deletion obs.type
    then record {
      facts = fact obs key "true" 60 ∷ [];
      edges = [];
      changes = change obs "status" "metadata.deletionTimestamp" "delete" "" "deleted" 60 ∷ [];
    }
    else no_evidence
