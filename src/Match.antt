-- ===== src/Match.antt =====
-- internal/resourcematch/match.go: the patterns by which filters, profiles and extractors choose
-- resources.
pub mod Glob
pub mod Laws
pub use Glob.{path_match}
use kube_insight.Prelude.{
  String, Bool, true, false, not, ◌&&◌, ◌||◌, List, [], ◌∷◌, ◌++◌, any, is_empty, contains, ◌==◌,
  if◌then◌else◌,
}
use kube_insight.Prelude.Text.{trim_space, to_lower, concat}
use kube_insight.Core.{ResourceRef}

pub record Resource : Type 0 where
  pub group : String
  pub version : String
  pub resource : String
  pub kind : String
  pub name : String

abbrev pub from_core_ref : ResourceRef → Resource
from_core_ref ref = record {
  group = ref.group;
  version = ref.version;
  resource = ref.resource;
  kind = ref.kind;
  name = "";
}

unfoldable pub normalize : String → String
unfolding trim_space to_lower
normalize value = to_lower (trim_space value)

unfoldable pub match : String → String → Bool
unfolding path_match
match pattern value =
    if pattern == ""
    then false
    else if pattern == "*" || pattern == value
    then true
    else path_match pattern value

-- The loop of uniqueNonEmpty, and of NormalizeValues: what was seen is what was kept.
unique_from : List String → List String → List String
unique_from seen [] = []
unique_from seen (value ∷ values) =
    let v = normalize value in
    let fresh = v ∷ unique_from (v ∷ seen) values in
    let rest = unique_from seen values in if v == "" || contains seen v then rest else fresh

unfoldable pub unique_non_empty : List String → List String
unfolding unique_from
unique_non_empty values = unique_from [] values

unfoldable pub normalize_values : List String → List String
unfolding unique_from
normalize_values values = unique_from [] values

abbrev when : Bool → List String → List String
when test xs = if test then xs else []

unfoldable pub resource_candidates : Resource → List String
unfolding unique_non_empty
resource_candidates r =
    let group = normalize r.group in
    let version = normalize r.version in
    let name = normalize r.name in
    let res = normalize r.resource in
    unique_non_empty (
      unique_non_empty (name ∷ res ∷ [])
      ++ (when (not (group == "") && not (res == "")) (concat (res ∷ "." ∷ group ∷ []) ∷ [])
          ++ (when (group == "" && not (version == "") && not (res == ""))
                (concat (version ∷ "/" ∷ res ∷ []) ∷ [])
              ++ when (not (group == "") && not (version == "") && not (res == ""))
                  (concat (group ∷ "/" ∷ version ∷ "/" ∷ res ∷ []) ∷ []))))

unfoldable pub match_resource : String → Resource → Bool
unfolding match resource_candidates
match_resource pattern r =
    let p = normalize pattern in if p == "" then false else any (match p) (resource_candidates r)

unfoldable pub match_any_resource : List String → Resource → Bool
match_any_resource [] r = true
match_any_resource (p ∷ ps) r = any (λ pattern. match_resource pattern r) (p ∷ ps)

-- One round of the loop of MatchAnyString.
abbrev matches_string : String → String → Bool
matches_string value pattern =
    let p = normalize pattern in (p == "" && value == "") || match p value

unfoldable pub match_any_string : List String → String → Bool
match_any_string [] value = true
match_any_string (p ∷ ps) value = any (matches_string (normalize value)) (p ∷ ps)
