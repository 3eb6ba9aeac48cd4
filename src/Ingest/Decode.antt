-- ===== src/Ingest/Decode.antt =====
-- internal/ingest/json.go: from a decoded document to the observations that it holds. The document is
-- what json.Decoder gives under UseNumber, where every number is its literal, a `float` here; and
-- `number` is what json.Number's Int64 and Float64 make of a literal.
use kube_insight.Prelude.{String, false, none, some, List, [], ◌∷◌, if◌then◌else◌, ℕ}
use kube_insight.Prelude.Text.{equal_fold}
use kube_insight.Prelude.Result.{Result, ok, err, ◌>>=◌}
use kube_insight.Core.{ObservationType, added, modified, deleted, bookmark, Observation}
use kube_insight.Json.{
  Value, Items, Fields, null, bool, int, negative, float, str, arr, obj, nil, cons, end, field, get,
  get_opt, as_obj, as_arr, str_or_empty,
}
use kube_insight.Kubeapi.{Resolver, resource_ref_from_object}

-- The switch on strings.ToUpper(value).
unfoldable pub observation_type : String → ObservationType
unfolding equal_fold
observation_type value =
    if equal_fold value "ADDED"
    then added
    else if equal_fold value "DELETED"
    then deleted
    else if equal_fold value "BOOKMARK"
    then bookmark
    else modified

pub record ObservationInput : Type 0 where
  pub type : ObservationType
  pub object : Fields

module _ (number : String → Value) where
  -- normalizeValue and normalizeNumbers
  unfoldable mutual
    pub normalize_value : Value → Value
    normalize_value (obj m) = obj (normalize_numbers m)
    normalize_value (arr vs) = arr (normalize_items vs)
    normalize_value (float literal) = number literal
    normalize_value null = null
    normalize_value (bool b) = bool b
    normalize_value (int n) = int n
    normalize_value (negative n) = negative n
    normalize_value (str s) = str s

    pub normalize_items : Items → Items
    normalize_items nil = nil
    normalize_items (cons v vs) = cons (normalize_value v) (normalize_items vs)

    pub normalize_numbers : Fields → Fields
    normalize_numbers end = end
    normalize_numbers (field k v m) = field k (normalize_value v) (normalize_numbers m)

  unfoldable pub decode_observation_input : Fields → ObservationInput
  decode_observation_input m = elim (as_obj (get "object" m)) [
    | some wrapped ↦ record {
      type = observation_type (str_or_empty (get "type" m));
      object = normalize_numbers wrapped;
    }
    | none ↦ record { type = modified; object = normalize_numbers m }
  ]

  -- The loop over `items`: one that is no object is an error.
  unfoldable pub decode_items : List Value → Result (List ObservationInput)
  decode_items [] = ok []
  decode_items (v ∷ vs) = elim (as_obj (some v)) [
    | none ↦ err "an item is not an object"
    | some m ↦ decode_items vs >>= λ rest. ok (decode_observation_input m ∷ rest)
  ]

  unfoldable pub decode_observation_inputs : Fields → Result (List ObservationInput)
  decode_observation_inputs root = elim (as_arr (get "items" root)) [
    | some vs ↦ decode_items vs
    | none ↦ ok (decode_observation_input root ∷ [])
  ]

-- observationFromObject
unfoldable pub observation_from_object :
    String → ObservationType → ℕ → Resolver → Fields → Observation
observation_from_object cluster_id type observed_at resolver object = record {
  type = type;
  observed_at = observed_at;
  resource_version = str_or_empty (get_opt "resourceVersion" (as_obj (get "metadata" object)));
  ref = resource_ref_from_object resolver cluster_id object;
  object = some object;
  partial = false;
}
