-- ===== src/Ingest/Raw.antt =====
-- internal/ingest/raw_latest.go: the copy that is kept as the latest raw object, with the values of a
-- secret's payload replaced. `round_trip` is json.Marshal followed by json.Unmarshal into a map.
use kube_insight.Prelude.{String, not, ◌||◌, none, some, ◌==◌, if◌then◌else◌}
use kube_insight.Prelude.Text.{equal_fold}
use kube_insight.Prelude.Result.{Result, ok, ◌>>=◌}
use kube_insight.Core.{Observation}
use kube_insight.Json.{Fields, end, field, str, obj, get, set, as_obj}

-- Every key with the text that stands for its value.
unfoldable pub redact_values : Fields → Fields
redact_values end = end
redact_values (field k v m) = field k (str "<redacted>") (redact_values m)

-- redactStringMapValues
unfoldable pub redact_field : String → Fields → Fields
unfolding redact_values
redact_field name object = elim (as_obj (get name object)) [
  | none ↦ object
  | some values ↦ set name (obj (redact_values values)) object
]

-- redactSecretPayloadKeys, on the object of the copy.
unfoldable pub redact_secret_payload_keys : Observation → Fields → Fields
unfolding redact_field
redact_secret_payload_keys obs object =
    if not (obs.ref.group == "") || not (equal_fold obs.ref.resource "secrets")
    then object
    else redact_field "stringData" (redact_field "data" object)

unfoldable pub raw_latest_observation : (Fields → Result Fields) → Observation → Result Observation
unfolding redact_secret_payload_keys
raw_latest_observation round_trip obs = elim obs.object [
  | none ↦ ok obs
  | some m ↦ round_trip m >>= λ copy.
      ok (record obs { object = some (redact_secret_payload_keys obs copy) })
]
