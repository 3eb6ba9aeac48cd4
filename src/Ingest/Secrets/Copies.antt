-- ===== src/Ingest/Secrets/Copies.antt =====
-- What internal/ingest/raw_latest.go keeps of a secret.
use kube_insight.Prelude.{
  String, true, Option, none, some, ◌≡◌, ◌≢◌, refl, arith, Option-cases, inl, inr, eq_iff, eq_refl,
}
use kube_insight.Prelude.Text.{equal_fold}
use kube_insight.Prelude.Result.{Result, ok, ◌>>=◌}
use kube_insight.Json.{Value, Fields, end, field, str, obj, get, get_opt, as_obj}
use kube_insight.Json.Laws.{get-set}
use kube_insight.Core.{Observation}
use kube_insight.Filter.Chain.{Result-cases}
use kube_insight.Ingest.Raw.{
  redact_values, redact_field, redact_secret_payload_keys, raw_latest_observation,
}
use kube_insight.Ingest.Secrets.{ok_inj}

-- Every value of a payload that is a map is the text that stands for it.
abbrev pub IsRedactedMap : Fields → Type 0
IsRedactedMap end = Unit
IsRedactedMap (field k v m) = (v ≡ str "<redacted>") × IsRedactedMap m

abbrev pub IsRedactedValue : Option Value → Type 0
IsRedactedValue (some (obj m)) = IsRedactedMap m
IsRedactedValue _ = Unit

-- The raw copy of a secret of the core group.
abbrev pub IsRedactedCopy : Observation → Type 0
IsRedactedCopy obs =
    obs.ref.group ≡ ""
    → equal_fold obs.ref.resource "secrets" ≡ true
    → IsRedactedValue (get_opt "data" obs.object)
      × IsRedactedValue (get_opt "stringData" obs.object)

redact_values-IsRedacted : (m : Fields) → IsRedactedMap (redact_values m)
unfolding redact_values
redact_values-IsRedacted end = tt
redact_values-IsRedacted (field k v m) = (refl, redact_values-IsRedacted m)

not_a_map : (v : Option Value) → as_obj v ≡ none → IsRedactedValue v
not_a_map none h = tt
not_a_map (some (obj m)) h = absurd (cc h)
not_a_map (some _) h = tt

redact_field_here : (name : String) (m : Fields) → IsRedactedValue (get name (redact_field name m))
unfolding redact_field
redact_field_here name m = elim (Option-cases (as_obj (get name m))) [
  | inl e ↦ rw (e, redact_field) (not_a_map (get name m) e)
  | inr (values, e) ↦
      let written : get name (redact_field name m) ≡ some (obj (redact_values values)) =
        ground (arith, e, get-set name name (obj (redact_values values)) m, eq_refl name) in
      rw written (redact_values-IsRedacted values)
]

redact_field_other :
    (name k : String) (m : Fields) → name ≢ k → get k (redact_field name m) ≡ get k m
unfolding redact_field
redact_field_other name k m ne = elim (Option-cases (as_obj (get name m))) [
  | inl e ↦ rw (e, redact_field)
  | inr (values, e) ↦
      ground (arith, e, get-set k name (obj (redact_values values)) m, eq_iff name k)
]

redact_payload-IsRedacted :
    (obs : Observation) (m : Fields)
    → obs.ref.group ≡ ""
    → equal_fold obs.ref.resource "secrets" ≡ true
    → let left = redact_secret_payload_keys obs m in
      IsRedactedValue (get "data" left) × IsRedactedValue (get "stringData" left)
unfolding redact_secret_payload_keys
redact_payload-IsRedacted obs m core secret =
    let same : redact_secret_payload_keys obs m
        ≡ redact_field "stringData" (redact_field "data" m) =
      rw (core, secret) in
    rw (same, redact_field_other "stringData" "data" (redact_field "data" m) (λ e. cc e))
      (redact_field_here "data" m, redact_field_here "stringData" (redact_field "data" m))

raw_latest_none :
    (round_trip : Fields → Result Fields) (obs : Observation)
    → obs.object ≡ none
    → raw_latest_observation round_trip obs ≡ ok obs
unfolding raw_latest_observation
raw_latest_none round_trip obs h = rw (h)

raw_latest_some :
    (round_trip : Fields → Result Fields) (obs : Observation) (m : Fields)
    → obs.object ≡ some m
    → raw_latest_observation round_trip obs ≡ (
        round_trip m >>= λ copy.
        ok (record obs { object = some (redact_secret_payload_keys obs copy) }))
unfolding raw_latest_observation
raw_latest_some round_trip obs m h = rw (h)

-- The copy that is kept as the raw object of a secret of the core group, however the resource is
-- spelled, has the text `<redacted>` for every value of its `data` and its `stringData`.
pub raw_latest-IsRedacted :
    (round_trip : Fields → Result Fields) (obs raw : Observation)
    → raw_latest_observation round_trip obs ≡ ok raw
    → IsRedactedCopy raw
raw_latest-IsRedacted round_trip obs raw h = elim (Option-cases obs.object) [
  | inl nothing ↦
      let same : obs ≡ raw = ok_inj (rw (raw_latest_none round_trip obs nothing) at h) in
      λ core secret. rw (← same, nothing) (tt, tt)
  | inr (m, has) ↦ elim (Result-cases (round_trip m)) [
    | inl (e, failed) ↦ absurd (cc (rw (raw_latest_some round_trip obs m has, failed) at h))
    | inr (copy, done) ↦
        let same = ok_inj (rw (raw_latest_some round_trip obs m has, done) at h) in
        rw (← same) (redact_payload-IsRedacted obs copy)
  ]
]
