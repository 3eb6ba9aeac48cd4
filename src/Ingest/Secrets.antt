-- ===== src/Ingest/Secrets.antt =====
-- What the filter chains of internal/filter leave of a secret.
pub mod Copies
pub mod Stored
use mathlib.Core.List.{append_assoc}
use kube_insight.Prelude.{
  String, ℕ, Bool, true, false, not, Option, none, some, List, [], ◌∷◌, ◌++◌, ◌≡◌, ◌≢◌, refl, ap,
  arith, Bool-cases, Option-cases, inl, inr, All, ◌==◌, eq_iff, eq_refl, is_some, if◌then◌else◌,
  any,
}
use kube_insight.Prelude.Text.{equal_fold}
use kube_insight.Prelude.Result.{Result, ok, err, ◌>>=◌}
use kube_insight.Json.{Value, Fields, end, field, str, obj, get, get_opt, set, as_obj}
use kube_insight.Json.Laws.{get-set}
use kube_insight.Core.{Observation}
use kube_insight.Filter.{Filter, Decision, discards, tag, Applied, apply_from, apply_chain}
use kube_insight.Filter.Objects.{
  managed_fields, resource_version, secret_redaction, secret_redaction_apply, managed_fields_apply,
  resource_version_apply,
}
use kube_insight.Filter.Objects.Laws.{
  Honest, secret_redaction-Honest, secret_redaction_removes, managed_fields-Honest,
  resource_version-Honest,
}
use kube_insight.Filter.Chain.{
  Result-cases, apply_from_err, apply_from_stop, apply_from_go, apply_from-prefixed, prefixed,
}
use kube_insight.Ingest.Raw.{
  redact_values, redact_field, redact_secret_payload_keys, raw_latest_observation,
}

-- An observation of a secret has no payload.
abbrev pub IsPayloadFree : Observation → Type 0
IsPayloadFree obs =
    obs.ref.resource ≡ "secrets"
    → (get_opt "data" obs.object ≡ none) × (get_opt "stringData" obs.object ≡ none)

-- A filter that adds no payload; one that discards nothing; and one that leaves no payload.
abbrev pub AddsNoPayload : Filter → Type 0
AddsNoPayload f =
    (obs next : Observation) (d : Decision)
    → f.apply obs ≡ ok (next, d)
    → IsPayloadFree obs
    → IsPayloadFree next

abbrev pub DiscardsNothing : Filter → Type 0
DiscardsNothing f =
    (obs next : Observation) (d : Decision)
    → f.apply obs ≡ ok (next, d)
    → discards d.outcome ≡ false

abbrev pub Redacts : Filter → Type 0
Redacts f =
    (obs next : Observation) (d : Decision) → f.apply obs ≡ ok (next, d) → IsPayloadFree next

secret_redaction-free : (obs : Observation) → IsPayloadFree (secret_redaction_apply obs).0
secret_redaction-free obs h =
    let same : (secret_redaction_apply obs).0.ref ≡ obs.ref =
      ap (λ o. o.ref) (secret_redaction-Honest obs).only_object in
    let secret : obs.ref.resource ≡ "secrets" = rw (← same) h in
    (secret_redaction_removes obs "data" secret, secret_redaction_removes obs "stringData" secret)

pub ok_inj : {A : Type 0} {a b : A} → Result.ok a ≡ Result.ok b → a ≡ b
ok_inj e = cc

pub secret_redaction-Redacts : Redacts secret_redaction
secret_redaction-Redacts obs next d e =
    let same : secret_redaction_apply obs ≡ (next, d) = ok_inj e in
    rw (← ap (λ r. r.0) same) (secret_redaction-free obs)

-- The observation that the rest of a chain leaves is as free of payload as what it was given.
chain_keeps_free :
    (fs : List Filter) (obs : Observation) (ds : List Decision)
    → All AddsNoPayload fs
    → IsPayloadFree obs
    → IsPayloadFree (apply_from fs obs ds).observation
chain_keeps_free [] obs ds h free = unfold apply_from in free
chain_keeps_free (f ∷ fs) obs ds h free = elim (Result-cases (f.apply obs)) [
  | inl (e, failed) ↦ rw (apply_from_err f fs obs ds failed) free
  | inr ((next, d), done) ↦ elim (Bool-cases (discards d.outcome)) [
    | inl stops ↦ rw (apply_from_stop f fs obs ds done stops) (h.0 obs next d done free)
    | inr goes ↦
        rw (apply_from_go f fs obs ds done goes)
          (chain_keeps_free fs next (ds ++ tag f.name d ∷ []) h.1 (h.0 obs next d done free))
  ]
]

module _ (g : Filter) (redacts : Redacts g) where
  chain_redacts :
      (before after : List Filter) (obs : Observation) (ds : List Decision)
      → All DiscardsNothing before
      → All AddsNoPayload after
      → (apply_from (before ++ g ∷ after) obs ds).error ≡ none
      → IsPayloadFree (apply_from (before ++ g ∷ after) obs ds).observation
  chain_redacts [] after obs ds h k fine = elim (Result-cases (g.apply obs)) [
    | inl (e, failed) ↦ absurd (cc (rw (apply_from_err g after obs ds failed) at fine))
    | inr ((next, d), done) ↦ elim (Bool-cases (discards d.outcome)) [
      | inl stops ↦ rw (apply_from_stop g after obs ds done stops) (redacts obs next d done)
      | inr goes ↦
          rw (apply_from_go g after obs ds done goes)
            (chain_keeps_free after next _ k (redacts obs next d done))
    ]
  ]
  chain_redacts (f ∷ fs) after obs ds h k fine = elim (Result-cases (f.apply obs)) [
    | inl (e, failed) ↦ absurd (cc (rw (apply_from_err f (fs ++ g ∷ after) obs ds failed) at fine))
    | inr ((next, d), done) ↦
        let step = apply_from_go f (fs ++ g ∷ after) obs ds done (h.0 obs next d done) in
        rw step (chain_redacts fs after next (ds ++ tag f.name d ∷ []) h.1 k (rw step at fine))
  ]

  -- A chain that ends without an error, and in which a redacting filter stands behind filters that
  -- discard nothing and before filters that add no payload, leaves an observation of a secret without
  -- its payload.
  pub apply_chain_redacts :
      (before after : List Filter) (obs : Observation)
      → All DiscardsNothing before
      → All AddsNoPayload after
      → let r = apply_chain (before ++ g ∷ after) obs in
        r.error ≡ none → IsPayloadFree r.observation
  unfolding apply_chain
  apply_chain_redacts before after obs h k fine = chain_redacts before after obs [] h k fine

managed_fields-discards :
    (obs : Observation) → discards (managed_fields_apply obs).1.outcome ≡ false
unfolding managed_fields_apply
managed_fields-discards obs = ground arith

pub managed_fields-DiscardsNothing : DiscardsNothing managed_fields
managed_fields-DiscardsNothing obs next d e = rw (ok_inj e) at (managed_fields-discards obs)

resource_version-discards :
    (obs : Observation) → discards (resource_version_apply obs).1.outcome ≡ false
unfolding resource_version_apply
resource_version-discards obs = ground arith

pub resource_version-DiscardsNothing : DiscardsNothing resource_version
resource_version-DiscardsNothing obs next d e = rw (ok_inj e) at (resource_version-discards obs)
