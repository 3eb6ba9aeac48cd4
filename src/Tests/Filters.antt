-- ===== src/Tests/Filters.antt =====
-- Runs of the filters and of the chain on small observations.
use kube_insight.Prelude.{
  String, none, some, List, [], ◌∷◌, ◌++◌, ◌≡◌, refl, All, contains, ◌==◌, if◌then◌else◌, ◌&&◌,
}
use kube_insight.Json.{str, obj, end, field, get_opt}
use kube_insight.Core.{Observation}
use kube_insight.Match.{normalize, normalize_values}
use kube_insight.Match.Laws.{
  IsNormalSet, normal_form_of, normalize_values-IsNormalSet, contains-normalize_values,
}
use kube_insight.Filter.{Filter, discard_resource, apply_chain, apply_from, static_decision}
use kube_insight.Filter.Scope.{Scope, scope_matches}
use kube_insight.Filter.Scope.Laws.{open_or, scope_matches-kinds}
use kube_insight.Filter.Objects.{secret_redaction, secret_redaction_apply, managed_fields}
use kube_insight.Filter.Objects.Laws.{
  secret_redaction-Honest, managed_fields-Honest, secret_redaction_removes,
}
use kube_insight.Filter.Chain.{stopped, apply_chain-append}
use kube_insight.Filter.Chain.Honest.{IsHonest, Accounted, apply_chain-Accounted}
use kube_insight.Ingest.Secrets.{ok_inj}
use kube_insight.Tests.{ref_of, observed, secret_ref, secret}

abbrev words : List String
words = " Pods" ∷ "pods" ∷ "" ∷ "Secrets" ∷ []

words_normal : normalize_values words ≡ "pods" ∷ "secrets" ∷ []
unfolding normalize_values normalize
words_normal = refl

normalize_values-IsNormalSet_example :
    IsNormalSet [] (normalize_values words)
    × (normalize_values (normalize_values words) ≡ normalize_values words)
normalize_values-IsNormalSet_example = normalize_values-IsNormalSet words

contains-normalize_values_example :
    contains (normalize_values words) "secrets" ≡ normal_form_of words "secrets"
contains-normalize_values_example = contains-normalize_values words "secrets" (λ e. cc e)

abbrev secrets_scope : Scope
secrets_scope = record { resources = "secrets" ∷ []; kinds = []; namespaces = []; names = [] }

-- A scope that is meant for pods.
abbrev pods_scope : Scope
pods_scope = record { resources = []; kinds = "Pod" ∷ []; namespaces = []; names = [] }

scope_matches-kinds_example :
    scope_matches pods_scope secret_ref
    ≡ (open_or [] secret_ref.namespace && open_or [] secret_ref.name)
scope_matches-kinds_example = scope_matches-kinds pods_scope secret_ref refl

secret_redaction_removes_example : get_opt "data" (secret_redaction_apply secret).0.object ≡ (
    if "data" == "data"
    then none
    else if "data" == "stringData"
    then none
    else get_opt "data" secret.object)
secret_redaction_removes_example = secret_redaction_removes secret "data" refl

-- A config map that carries the annotation of a leader election.
abbrev election : Observation
election = observed (ref_of "" "v1" "ConfigMaps" "ConfigMap" "kube-system" "lock") (
    field "metadata"
      (obj (
        field "annotations"
          (obj (field "control-plane.alpha.kubernetes.io/leader" (str "node-1") end)) end))
      end)

abbrev chain : List Filter
chain = managed_fields ∷ secret_redaction ∷ []

chain-IsHonest : All IsHonest chain
chain-IsHonest = (
  λ obs next d e. rw (ok_inj e) at (managed_fields-Honest obs),
  (λ obs next d e. rw (ok_inj e) at (secret_redaction-Honest obs), tt),
)

apply_chain-Accounted_example :
    Accounted secret (apply_chain chain secret).observation (apply_chain chain secret).decisions
apply_chain-Accounted_example = apply_chain-Accounted chain secret chain-IsHonest

abbrev stopping : List Filter
stopping = static_decision "drop" (some discard_resource) "" ∷ []

apply_chain-append_example : apply_chain (stopping ++ chain) secret ≡ (
    if stopped (apply_chain stopping secret)
    then apply_chain stopping secret
    else apply_from chain
        (apply_chain stopping secret).observation
        (apply_chain stopping secret).decisions)
apply_chain-append_example = apply_chain-append stopping chain secret

dropped :
    (apply_chain (stopping ++ chain) secret).decisions ≡ (apply_chain stopping secret).decisions
unfolding apply_chain static_decision
dropped = refl
