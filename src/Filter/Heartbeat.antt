-- ===== src/Filter/Heartbeat.antt =====
-- internal/filter/gke_webhook_heartbeat.go: the heartbeats of the GKE webhook. json.Unmarshal into the
-- two fields of a heartbeat is a parameter; it gives nothing for a text that is none.
use Prim.Native.Nat.{ℕ, ◌+◌}
use kube_insight.Prelude.{
  String, not, ◌||◌, Option, none, some, List, [], ◌∷◌, ◌==◌, eqb, if◌then◌else◌, ◌≡◌, arith, ◌⊎◌,
  refl, Bool-cases, Option-cases, inl, inr,
}
use kube_insight.Prelude.Text.Order.{less}
use kube_insight.Core.{Observation}
use kube_insight.Json.{Value, Fields, end, field, str, obj, get, set, as_obj, has_fields}
use kube_insight.Json.Equal.{deep_equal}
use kube_insight.Filter.{Filter, Decision, keep, keep_modified, pass, total}
use kube_insight.Filter.Objects.{modified_by, removed_fields}
use kube_insight.Filter.Objects.Laws.{Honest}

pub record Heartbeat : Type 0 where
  pub hostname : String
  pub version : String

abbrev keys : Fields → List String
keys end = []
keys (field k v m) = k ∷ keys m

-- sort.Strings
unfoldable pub insert_text : String → List String → List String
insert_text s [] = s ∷ []
insert_text s (t ∷ ts) =
    let behind = t ∷ insert_text s ts in if less t s then behind else s ∷ t ∷ ts

unfoldable pub sort_texts : List String → List String
unfolding insert_text
sort_texts [] = []
sort_texts (s ∷ ss) = insert_text s (sort_texts ss)

module _ (read : String → Option Heartbeat) where
  -- The value that one key leaves, and whether it was a heartbeat.
  unfoldable pub put_heartbeat : String → Option Value → Fields → Fields × ℕ
  put_heartbeat key none out = (out, 0)
  put_heartbeat key (some (str raw)) out = elim (read raw) [
    | none ↦ (set key (str raw) out, 0)
    | some h ↦
        if h.hostname == ""
        then (set key (str raw) out, 0)
        else (set h.hostname (str h.version) out, 1)
  ]
  put_heartbeat key (some v) out = (set key v out, 0)

  -- The loop of normalizeGKEWebhookHeartbeatData over the sorted keys.
  unfoldable pub put_heartbeats : List String → Fields → Fields × ℕ → Fields × ℕ
  unfolding put_heartbeat
  put_heartbeats [] m (out, parsed) = (out, parsed)
  put_heartbeats (key ∷ ks) m (out, parsed) =
      let one = put_heartbeat key (get key m) out in put_heartbeats ks m (one.0, parsed + one.1)

  unfoldable pub normalize_heartbeats : Fields → Fields × ℕ
  unfolding put_heartbeats sort_texts
  normalize_heartbeats m = put_heartbeats (sort_texts (keys m)) m (end, 0)

  heartbeats_of : Observation → Fields → Fields → Observation × Decision
  unfolding normalize_heartbeats deep_equal
  heartbeats_of obs object m =
      let normalized = normalize_heartbeats m in
      if eqb normalized.1 0 || deep_equal (obj m) (obj normalized.0)
      then pass obs keep "gke_webhook_heartbeat_already_normalized"
      else modified_by obs (set "data" (obj normalized.0) object) "gke_webhook_heartbeat_normalized"
          (removed_fields normalized.1)

  -- GKEWebhookHeartbeatFilter.Apply
  unfoldable pub gke_webhook_apply : Observation → Observation × Decision
  unfolding heartbeats_of
  gke_webhook_apply obs = elim obs.object [
    | none ↦ pass obs keep "no_object"
    | some object ↦ elim (as_obj (get "data" object)) [
      | none ↦ pass obs keep "data_absent"
      | some m ↦
          if not (has_fields m) then pass obs keep "data_absent" else heartbeats_of obs object m
    ]
  ]

  abbrev pub gke_webhook : Filter
  gke_webhook = total "gke_webhook_heartbeat_normalization_filter" gke_webhook_apply

  heartbeats_of-Honest :
      (obs : Observation) (object m : Fields) → Honest obs (heartbeats_of obs object m)
  unfolding heartbeats_of
  heartbeats_of-Honest obs object m =
      elim (Bool-cases
        (eqb (normalize_heartbeats m).1 0 || deep_equal (obj m) (obj (normalize_heartbeats m).0))) [
          | inl same ↦
              rw (heartbeats_of, same) (record { only_object = refl; announced = inr refl })
          | inr new ↦ rw (heartbeats_of, new) (record { only_object = refl; announced = inl refl })
        ]

  pub gke_webhook-Honest : (obs : Observation) → Honest obs (gke_webhook_apply obs)
  unfolding gke_webhook_apply
  gke_webhook-Honest obs = elim (Option-cases obs.object) [
    | inl absent ↦ ground (arith, absent)
    | inr (object, here) ↦ elim (Option-cases (as_obj (get "data" object))) [
      | inl absent ↦ ground (arith, here, absent)
      | inr (m, found) ↦ ground (arith, here, found, heartbeats_of-Honest obs object m)
    ]
  ]

  heartbeats_of-outcome :
      (obs : Observation) (object m : Fields)
      → let o = (heartbeats_of obs object m).1.outcome in (o ≡ keep) ⊎ (o ≡ keep_modified)
  unfolding heartbeats_of
  heartbeats_of-outcome obs object m =
      elim (Bool-cases
        (eqb (normalize_heartbeats m).1 0 || deep_equal (obj m) (obj (normalize_heartbeats m).0))) [
          | inl same ↦ rw (heartbeats_of, same) (inl refl)
          | inr new ↦ rw (heartbeats_of, new) (inr refl)
        ]

  pub gke_webhook-outcome :
      (obs : Observation)
      → let o = (gke_webhook_apply obs).1.outcome in (o ≡ keep) ⊎ (o ≡ keep_modified)
  unfolding gke_webhook_apply
  gke_webhook-outcome obs = elim (Option-cases obs.object) [
    | inl absent ↦ ground (arith, absent)
    | inr (object, here) ↦ elim (Option-cases (as_obj (get "data" object))) [
      | inl absent ↦ ground (arith, here, absent)
      | inr (m, found) ↦ ground (arith, here, found, heartbeats_of-outcome obs object m)
    ]
  ]
