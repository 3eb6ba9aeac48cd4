-- ===== src/Filter/Scope.antt =====
-- internal/filter/filter.go: the scope that guards a filter.
pub mod Laws
use kube_insight.Prelude.{
  String, Bool, true, not, ◌&&◌, ◌||◌, List, [], ◌∷◌, any, is_empty, if◌then◌else◌,
}
use kube_insight.Prelude.Result.{ok}
use kube_insight.Core.{ResourceRef}
use kube_insight.Match.{from_core_ref, match_any_string, match_any_resource}
use kube_insight.Filter.{Filter, keep, pass}

pub record Scope : Type 0 where
  pub resources : List String
  pub kinds : List String
  pub namespaces : List String
  pub names : List String

unfoldable pub scope_empty : Scope → Bool
scope_empty s =
    is_empty s.resources && is_empty s.kinds && is_empty s.namespaces && is_empty s.names

unfoldable pub scope_matches : Scope → ResourceRef → Bool
unfolding scope_empty
scope_matches s ref =
    if scope_empty s
    then true
    else if not (is_empty s.namespaces) && not (match_any_string s.namespaces ref.namespace)
    then not true
    else if not (is_empty s.names) && not (match_any_string s.names ref.name)
    then not true
    else if not (not (is_empty s.resources) || not (is_empty s.kinds))
    then true
    else if any (λ kind. match_any_string (kind ∷ []) ref.kind) s.kinds
    then true
    else match_any_resource s.resources (from_core_ref ref)

unfoldable pub scoped : Scope → Filter → Filter
unfolding scope_matches
scoped scope inner = record {
  name = inner.name;
  apply = λ obs.
      if scope_matches scope obs.ref then inner.apply obs else ok (pass obs keep "scope_mismatch");
}
