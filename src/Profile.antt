-- ===== src/Profile.antt =====
-- internal/resourceprofile/profile.go: the profile of a resource, chosen by the first rule that
-- matches. The rules come from a configuration file, or from the embedded default_rules.yaml.
pub mod Laws
use kube_insight.Prelude.{
  String, Bool, true, false, not, ◌&&◌, List, [], ◌∷◌, ◌==◌, is_empty, if◌then◌else◌,
}
use kube_insight.Prelude.Text.{to_lower, trim_space}
use kube_insight.Collector.Int.{ℤ, pos, same_int}
use kube_insight.Kubeapi.{ResourceInfo}
use kube_insight.Match.{match_any_string, match_any_resource, Resource as MatchedResource}

pub record Profile : Type 0 where
  pub name : String
  pub retention_policy : String
  pub filter_chain : String
  pub extractor_set : String
  pub compaction_strategy : String
  pub priority : String
  pub max_event_buffer : ℤ
  pub enabled : Bool

pub record Resource : Type 0 where
  pub group : String
  pub version : String
  pub resource : String
  pub kind : String

pub record Rule : Type 0 where
  pub name : String
  pub groups : List String
  pub resources : List String
  pub kinds : List String
  pub disabled : Bool
  pub base : Profile
  pub profile : Profile

abbrev pub default_profile : Profile
default_profile = record {
  name = "generic";
  retention_policy = "standard";
  filter_chain = "default";
  extractor_set = "generic";
  compaction_strategy = "full_json";
  priority = "normal";
  max_event_buffer = pos 256;
  enabled = true;
}

unfoldable pub normalize : ResourceInfo → Resource
normalize info = record {
  group = to_lower (trim_space info.group);
  version = to_lower (trim_space info.version);
  resource = to_lower (trim_space info.resource);
  kind = to_lower (trim_space info.kind);
}

abbrev pub match_resource : Resource → MatchedResource
match_resource r = record {
  group = r.group;
  version = r.version;
  resource = r.resource;
  kind = r.kind;
  name = "";
}

-- Rule.matches
unfoldable pub matches : Rule → Resource → Bool
matches rule r =
    if not (is_empty rule.groups) && not (match_any_string rule.groups r.group)
    then false
    else if not (is_empty rule.resources)
        && not (match_any_resource rule.resources (match_resource r))
    then false
    else if not (is_empty rule.kinds) && not (match_any_string rule.kinds r.kind)
    then false
    else true

abbrev pub or_else : String → String → String
or_else override base = if not (override == "") then override else base

unfoldable pub merge_profile : Profile → Profile → Profile
merge_profile base override = record {
  name = or_else override.name base.name;
  retention_policy = or_else override.retention_policy base.retention_policy;
  filter_chain = or_else override.filter_chain base.filter_chain;
  extractor_set = or_else override.extractor_set base.extractor_set;
  compaction_strategy = or_else override.compaction_strategy base.compaction_strategy;
  priority = or_else override.priority base.priority;
  max_event_buffer =
      if not (same_int override.max_event_buffer (pos 0))
      then override.max_event_buffer
      else base.max_event_buffer;
  enabled = if override.enabled then true else base.enabled;
}

abbrev disable : Bool → Profile → Profile
disable disabled p = if disabled then record p { enabled = false } else p

-- Rule.apply
unfoldable pub apply : Rule → Profile → Profile
unfolding merge_profile
apply rule base =
    let chosen = if not (rule.base.name == "") then rule.base else base in
    let named = if not (rule.name == "") then record chosen { name = rule.name } else chosen in
    disable rule.disabled (merge_profile named rule.profile)

-- The loop of Select.
unfoldable pub select_from : Resource → Profile → List Rule → Profile
unfolding matches apply
select_from r base [] = base
select_from r base (rule ∷ rules) =
    let later = select_from r base rules in if matches rule r then apply rule base else later

unfoldable pub select : ResourceInfo → List Rule → Profile
unfolding select_from normalize
select info rules = select_from (normalize info) default_profile rules
