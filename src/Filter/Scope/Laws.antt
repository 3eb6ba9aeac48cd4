-- ===== src/Filter/Scope/Laws.antt =====
-- What a scope lets through.
use kube_insight.Prelude.{
  String, Bool, true, false, ◌&&◌, ◌||◌, ◌≡◌, refl, List, [], ◌∷◌, arith, any, is_empty,
}
use kube_insight.Core.{ResourceRef}
use kube_insight.Match.{from_core_ref, match_any_string, match_any_resource}
use kube_insight.Filter.Scope.{Scope, scope_matches}

-- A list of patterns that is empty, or of which one fits.
abbrev pub open_or : List String → String → Bool
open_or patterns value = is_empty patterns || match_any_string patterns value

match_any_resource-nil : (ref : ResourceRef) → match_any_resource [] (from_core_ref ref) ≡ true
unfolding match_any_resource
match_any_resource-nil ref = refl

-- A scope with resources matches exactly when its namespaces and its names are empty or fit, and one
-- of its kinds or one of its resources fits.
pub scope_matches-resources :
    (s : Scope) (ref : ResourceRef)
    → is_empty s.resources ≡ false
    → scope_matches s ref ≡ (
        open_or s.namespaces ref.namespace
        && open_or s.names ref.name
        && (any (λ kind. match_any_string (kind ∷ []) ref.kind) s.kinds
            || match_any_resource s.resources (from_core_ref ref)))
unfolding scope_matches
scope_matches-resources s ref h = ground arith

-- A scope without resources matches exactly when its namespaces and its names are empty or fit: its
-- kinds exclude nothing.
pub scope_matches-kinds :
    (s : Scope) (ref : ResourceRef)
    → s.resources ≡ []
    → scope_matches s ref ≡ (open_or s.namespaces ref.namespace && open_or s.names ref.name)
unfolding scope_matches
scope_matches-kinds s ref h = ground (arith, match_any_resource-nil ref)
