-- ===== src/Tests/Naming.antt =====
-- Runs of the resolver and of the choice of a profile.
use kube_insight.Prelude.{String, true, false, [], ◌∷◌, ◌≡◌, refl, any}
use kube_insight.Prelude.Text.{to_lower}
use kube_insight.Json.{Fields, str, obj, end, field}
use kube_insight.Kubeapi.{
  ResourceInfo, Resolver, empty, register, resolve_gvk, register_from_object,
}
use kube_insight.Prelude.{none}
use kube_insight.Kubeapi.{lookup, gvk_key, group_kind_key}
use kube_insight.Kubeapi.Target.{resolve_gvr, resolve_gvr_panics}
use kube_insight.Kubeapi.Laws.{resolve_gvk-register}
use kube_insight.Kubeapi.Names.{HasLowerNames, empty-HasLowerNames, register-HasLowerNames}
use kube_insight.Kubeapi.Names.Resolved.{register_from_object-HasLowerNames}
use kube_insight.Match.{match_any_string, match, normalize as match_normalize}
use kube_insight.Collector.Int.{pos}
use kube_insight.Profile.{Profile, Rule, normalize, matches}

abbrev deployments : ResourceInfo
deployments = record {
  group = "apps";
  version = "v1";
  resource = "Deployments";
  kind = "Deployment";
  namespaced = true;
  verbs = [];
}

abbrev resolver : Resolver
resolver = register deployments empty

resolve_gvk-register_example :
    resolve_gvk resolver "apps" "v1" "Deployment"
    ≡ (record deployments { resource = to_lower "Deployments" }, true)
resolve_gvk-register_example = resolve_gvk-register deployments empty (λ e. cc e) (λ e. cc e)

resolver-HasLowerNames : HasLowerNames resolver
resolver-HasLowerNames = register-HasLowerNames deployments empty empty-HasLowerNames

-- A definition of custom resources.
abbrev crd : Fields
crd = field "apiVersion" (str "apiextensions.k8s.io/v1") (
    field "kind" (str "CustomResourceDefinition") (
      field "spec"
        (obj (
          field "group" (str "shop.io") (
            field "version" (str "v1") (
              field "names" (obj (field "kind" (str "Cart") (field "plural" (str "Carts") end)))
                end))))
        end))

register_from_object-HasLowerNames_example : HasLowerNames (register_from_object crd resolver)
register_from_object-HasLowerNames_example =
    register_from_object-HasLowerNames crd resolver resolver-HasLowerNames

-- A profile that sets nothing.
abbrev blank : Profile
blank = record {
  name = "";
  retention_policy = "";
  filter_chain = "";
  extractor_set = "";
  compaction_strategy = "";
  priority = "";
  max_event_buffer = pos 0;
  enabled = false;
}

abbrev rule_for : String → String → Rule
rule_for kind chain = record {
  name = "rule";
  groups = [];
  resources = [];
  kinds = kind ∷ [];
  disabled = false;
  base = blank;
  profile = record blank { filter_chain = chain };
}

abbrev secrets_rule : Rule
secrets_rule = rule_for "Secret" "secret_metadata_only"

abbrev deployments_rule : Rule
deployments_rule = rule_for "Deployment" "workload"

not_a_secret : any (λ x. matches x (normalize deployments)) (secrets_rule ∷ []) ≡ false
unfolding matches normalize match_any_string match_normalize match
not_a_secret = refl

unknown : (key : String) → lookup key [] ≡ none
unfolding lookup
unknown key = refl

lowered : to_lower "S" ≡ "s"
unfolding to_lower
lowered = refl

resolve_gvr_panics_example : resolve_gvr empty "shop.io" "v1" "S" ≡ none
resolve_gvr_panics_example =
    resolve_gvr_panics empty "shop.io" "v1" "S" lowered (unknown (gvk_key "shop.io" "v1" "s"))
      (unknown (group_kind_key "shop.io" "s")) (unknown "s")
