-- ===== src/Processing/Outcomes.antt =====
-- What each filter can decide.
use mathlib.Core.Path.{subst}
use kube_insight.Prelude.{String, Option, List, ◌≡◌, arith, ◌⊎◌}
use kube_insight.Prelude.Result.{ok}
use kube_insight.Core.{Observation}
use kube_insight.Filter.{Outcome, keep, keep_modified, discard_resource, Filter, Decision, total}
use kube_insight.Filter.Chain.Honest.{IsHonest}
use kube_insight.Filter.Objects.Laws.{Honest}
use kube_insight.Ingest.Secrets.{ok_inj}
use kube_insight.Filter.{lease_skip_apply}
use kube_insight.Filter.Objects.{
  secret_redaction_apply, managed_fields_apply, resource_version_apply, leader_election_apply,
}
use kube_insight.Filter.Autoscaler.{Node, cluster_autoscaler_apply}
use kube_insight.Filter.Paths.{path_remove_apply}
use kube_insight.Filter.Conditions.{condition_timestamps_apply, condition_set_apply}

-- Whatever such a filter decides, it keeps the observation or takes the action.
abbrev pub Acts : Outcome → Filter → Type 0
Acts action f =
    (obs next : Observation) (d : Decision)
    → f.apply obs ≡ ok (next, d)
    → (d.outcome ≡ keep) ⊎ (d.outcome ≡ action)

-- A filter that is honest and acts as announced.
abbrev pub Sound : Outcome → Filter → Type 0
Sound action f = IsHonest f × Acts action f

abbrev pub Outcomes : Outcome → (Observation → Observation × Decision) → Type 0
Outcomes action f = (obs : Observation) → ((f obs).1.outcome ≡ keep) ⊎ ((f obs).1.outcome ≡ action)

pub total-Sound :
    (name : String) (f : Observation → Observation × Decision) (action : Outcome)
    → ((obs : Observation) → Honest obs (f obs))
    → Outcomes action f
    → Sound action (total name f)
total-Sound name f action honest acts = (
  λ obs next d done. subst (Honest obs) (ok_inj done) (honest obs),
  λ obs next d done.
      subst (λ (r : Observation × Decision). (r.1.outcome ≡ keep) ⊎ (r.1.outcome ≡ action))
        (ok_inj done) (acts obs),
)

pub Outcomes-secret_redaction : Outcomes keep_modified secret_redaction_apply
unfolding secret_redaction_apply
Outcomes-secret_redaction obs = ground arith

pub Outcomes-managed_fields : Outcomes keep_modified managed_fields_apply
unfolding managed_fields_apply
Outcomes-managed_fields obs = ground arith

pub Outcomes-resource_version : Outcomes keep_modified resource_version_apply
unfolding resource_version_apply
Outcomes-resource_version obs = ground arith

pub Outcomes-leader_election : Outcomes keep_modified leader_election_apply
unfolding leader_election_apply
Outcomes-leader_election obs = ground arith

pub Outcomes-condition_timestamps : Outcomes keep_modified condition_timestamps_apply
unfolding condition_timestamps_apply
Outcomes-condition_timestamps obs = ground arith

pub Outcomes-condition_set : Outcomes keep_modified condition_set_apply
unfolding condition_set_apply
Outcomes-condition_set obs = ground arith

pub Outcomes-path_remove :
    (paths : List String) (reason : String)
    → Outcomes keep_modified (path_remove_apply paths reason)
unfolding path_remove_apply
Outcomes-path_remove paths reason obs = ground arith

pub Outcomes-lease_skip : Outcomes discard_resource lease_skip_apply
unfolding lease_skip_apply
Outcomes-lease_skip obs = ground arith

pub Outcomes-cluster_autoscaler :
    (parse : String → Option Node) (print : Node → Option String)
    → Outcomes keep_modified (cluster_autoscaler_apply parse print)
unfolding cluster_autoscaler_apply
Outcomes-cluster_autoscaler parse print obs = ground arith
