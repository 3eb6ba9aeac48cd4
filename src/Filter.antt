-- ===== src/Filter.antt =====
-- internal/filter: what a filter is, the filters that decide without looking at the object, and the
-- chain that the pipeline runs.
pub mod Scope
pub mod Objects
pub mod Conditions
pub mod Paths
pub mod Chain
pub mod Heartbeat
pub mod Autoscaler
use kube_insight.Prelude.{
  String, Bool, true, false, Option, none, some, List, [], ◌∷◌, ◌++◌, ◌&&◌, ◌||◌, ◌==◌,
  if◌then◌else◌,
}
use kube_insight.Prelude.Text.{equal_fold}
use kube_insight.Prelude.Result.{Result, ok, err}
use kube_insight.Json.{Fields, end, str, set}
use kube_insight.Core.{Observation}

pub data Outcome : Type 0 where
  keep keep_modified discard_change discard_resource : Outcome

-- `==` on outcomes.
abbrev pub same_outcome : Outcome → Outcome → Bool
same_outcome keep keep = true
same_outcome keep_modified keep_modified = true
same_outcome discard_change discard_change = true
same_outcome discard_resource discard_resource = true
same_outcome _ _ = false

pub record Decision : Type 0 where
  pub outcome : Outcome
  pub reason : String
  pub meta : Option Fields

-- The interface: a name, and what Apply returns, which may be an error.
pub record Filter : Type 0 where
  pub name : String
  pub apply : Observation → Result (Observation × Decision)

-- A decision that leaves the observation as it is.
abbrev pub pass : Observation → Outcome → String → Observation × Decision
pass obs outcome reason = (obs, record { outcome = outcome; reason = reason; meta = none })

-- A filter that never fails.
abbrev pub total : String → (Observation → Observation × Decision) → Filter
total name f = record { name = name; apply = λ obs. ok (f obs) }

unfoldable pub static_decision : String → Option Outcome → String → Filter
static_decision name outcome reason = record {
  name = if name == "" then "static_decision_filter" else name;
  apply = λ obs. ok (
      pass obs (elim outcome [ none ↦ keep | some o ↦ o ])
        (if reason == "" then "static_decision" else reason));
}

unfoldable pub lease_skip_apply : Observation → Observation × Decision
lease_skip_apply obs =
    if obs.ref.group == "coordination.k8s.io" && equal_fold obs.ref.resource "leases"
    then pass obs discard_resource "lease_skipped"
    else pass obs keep "not_lease"

abbrev pub lease_skip : Filter
lease_skip = total "lease_skip_filter" lease_skip_apply

-- `decision.Meta["filter"] = f.Name()`, on a map that may be nil.
abbrev pub tag : String → Decision → Decision
tag name d = record d {
  meta = some (set "filter" (str name) (elim d.meta [ none ↦ end | some m ↦ m ]));
}

abbrev pub discards : Outcome → Bool
discards outcome = same_outcome outcome discard_resource || same_outcome outcome discard_change

-- What Chain.Apply returns: the observation, the decisions so far, and the error.
pub record Applied : Type 0 where
  pub observation : Observation
  pub decisions : List Decision
  pub error : Option String

-- The loop of Chain.Apply.
unfoldable pub apply_from : List Filter → Observation → List Decision → Applied
apply_from [] obs decisions = record { observation = obs; decisions = decisions; error = none }
apply_from (f ∷ fs) obs decisions = elim (f.apply obs) [
  | err e ↦ record { observation = obs; decisions = decisions; error = some e }
  | ok (next, decision) ↦
      let so_far = decisions ++ tag f.name decision ∷ [] in
      let rest = apply_from fs next so_far in
      if discards decision.outcome
      then record { observation = next; decisions = so_far; error = none }
      else rest
]

unfoldable pub apply_chain : List Filter → Observation → Applied
unfolding apply_from
apply_chain fs obs = apply_from fs obs []
