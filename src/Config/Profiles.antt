-- ===== src/Config/Profiles.antt =====
-- internal/config/profiles.go, and the rules of internal/resourceprofile/default_rules.go: the rules that
-- choose a profile. The embedded rules are a parameter; their entries have the fields of a configured
-- rule. What the source clones is a value here.
pub mod Laws
use kube_insight.Prelude.{
  String, Bool, true, false, not, Option, none, some, List, [], ◌∷◌, ◌++◌, ◌==◌, any, is_empty, map,
  if◌then◌else◌,
}
use kube_insight.Prelude.Result.{Result, ok, err}
use kube_insight.Collector.Int.{ℤ, pos, same_int}
use kube_insight.Profile.{Profile, Rule, default_profile, or_else, apply}
use kube_insight.Config.Settings.{
  ResourceProfilesConfig, ResourceProfileDefaultsConfig, ResourceProfileRuleConfig,
}

-- `*cfg.Enabled`, and true where it is nil.
abbrev pub on_unless_off : Option Bool → Bool
on_unless_off none = true
on_unless_off (some enabled) = enabled

-- The zero value of a profile.
abbrev pub no_profile : Profile
no_profile = record {
  name = "";
  retention_policy = "";
  filter_chain = "";
  extractor_set = "";
  compaction_strategy = "";
  priority = "";
  max_event_buffer = pos 0;
  enabled = false;
}

-- One round of the loop of profileRulesFromConfig, and of that of parseDefaultRules.
unfoldable pub rule_from_config : ResourceProfileRuleConfig → Rule
rule_from_config cfg = record {
  name = cfg.name;
  groups = cfg.groups;
  resources = cfg.resources;
  kinds = cfg.kinds;
  disabled = not (on_unless_off cfg.enabled);
  base = no_profile;
  profile = record no_profile {
    retention_policy = cfg.retention_policy;
    filter_chain = cfg.filter_chain;
    extractor_set = cfg.extractor_set;
    compaction_strategy = cfg.compaction_strategy;
    priority = cfg.priority;
    max_event_buffer = cfg.max_event_buffer;
  };
}

-- parseDefaultRules, from the decoded entries.
unfoldable pub parse_default_rules : List ResourceProfileRuleConfig → Result (List Rule)
unfolding rule_from_config
parse_default_rules entries =
    if is_empty entries
    then err "embedded default profile rules are empty"
    else if any (λ (r : ResourceProfileRuleConfig). r.name == "") entries
    then err "name is required"
    else ok (map rule_from_config entries)

-- profileDefaultsFromConfig
unfoldable pub profile_defaults : ResourceProfileDefaultsConfig → Profile
profile_defaults cfg = record {
  name = default_profile.name;
  retention_policy = or_else cfg.retention_policy default_profile.retention_policy;
  filter_chain = or_else cfg.filter_chain default_profile.filter_chain;
  extractor_set = or_else cfg.extractor_set default_profile.extractor_set;
  compaction_strategy = or_else cfg.compaction_strategy default_profile.compaction_strategy;
  priority = or_else cfg.priority default_profile.priority;
  max_event_buffer =
      if not (same_int cfg.max_event_buffer (pos 0))
      then cfg.max_event_buffer
      else default_profile.max_event_buffer;
  enabled = elim cfg.enabled [ none ↦ default_profile.enabled | some enabled ↦ enabled ];
}

-- withBaseProfile, and DefaultRulesWithBase
unfoldable pub with_base_profile : Profile → List Rule → List Rule
with_base_profile base rules = map (λ (rule : Rule). record rule { base = base }) rules

-- One round of the loop of WithEffectiveProfileRules.
unfoldable pub effective_rule : Profile → Rule → ResourceProfileRuleConfig
effective_rule base rule =
    let p = apply rule base in
    record {
      name = p.name;
      enabled = some p.enabled;
      groups = rule.groups;
      resources = rule.resources;
      kinds = rule.kinds;
      retention_policy = p.retention_policy;
      filter_chain = p.filter_chain;
      extractor_set = p.extractor_set;
      compaction_strategy = p.compaction_strategy;
      priority = p.priority;
      max_event_buffer = p.max_event_buffer;
    }

module _ (embedded : List Rule) where
  -- Config.ProfileRules
  unfoldable pub profile_rules : ResourceProfilesConfig → List Rule
  unfolding profile_defaults with_base_profile rule_from_config
  profile_rules c =
      let base = profile_defaults c.defaults in
      let custom = with_base_profile base (map rule_from_config c.rules) in
      if c.replace_defaults then custom else custom ++ with_base_profile base embedded

  -- Config.WithEffectiveProfileRules
  unfoldable pub with_effective_profile_rules : ResourceProfilesConfig → ResourceProfilesConfig
  unfolding profile_rules effective_rule
  with_effective_profile_rules c = record c {
    replace_defaults = true;
    rules = map (effective_rule (profile_defaults c.defaults)) (profile_rules c);
  }
