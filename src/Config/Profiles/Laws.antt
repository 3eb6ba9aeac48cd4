-- ===== src/Config/Profiles/Laws.antt =====
-- Writing out the effective rules of a configuration does not change which profile a resource has.
use kube_insight.Prelude.{
  String, false, not, List, [], ◌∷◌, ◌==◌, ◌≡◌, refl, ◌∙◌, sym, arith, map, All, All-append,
  if◌then◌else◌, Bool-cases, inl, inr,
}
use kube_insight.Collector.Int.{ℤ, pos, same_int}
use kube_insight.Kubeapi.{ResourceInfo}
use kube_insight.Profile.{
  Profile, Rule, Resource, default_profile, or_else, apply, matches, select, select_from, normalize,
}
use kube_insight.Config.Settings.{ResourceProfilesConfig, ResourceProfileRuleConfig}
use kube_insight.Config.Profiles.{
  rule_from_config, profile_defaults, with_base_profile, profile_rules, effective_rule,
  with_effective_profile_rules,
}

-- A rule as a configuration file gives it: its profile has no name and says nothing of being enabled.
abbrev pub FromConfig : Rule → Type 0
FromConfig rule = (rule.profile.name ≡ "") × (rule.profile.enabled ≡ false)

abbrev HasBase : Profile → Rule → Type 0
HasBase base rule = (rule.base ≡ base) × FromConfig rule

-- The rule that is read back from an effective rule.
abbrev again : Profile → Rule → Rule
again base rule = record (rule_from_config (effective_rule base rule)) { base = base }

or_int : ℤ → ℤ → ℤ
or_int override base = if not (same_int override (pos 0)) then override else base

or_else-again : (a b : String) → or_else (or_else a b) b ≡ or_else a b
or_else-again a b = ground arith

or_int-again : (a b : ℤ) → or_int (or_int a b) b ≡ or_int a b
unfolding or_int
or_int-again a b = ground arith

-- What a rule makes of its base.
abbrev overridden : Profile → Rule → Profile
unfolding or_int
overridden base rule = record {
  name = or_else rule.name base.name;
  retention_policy = or_else rule.profile.retention_policy base.retention_policy;
  filter_chain = or_else rule.profile.filter_chain base.filter_chain;
  extractor_set = or_else rule.profile.extractor_set base.extractor_set;
  compaction_strategy = or_else rule.profile.compaction_strategy base.compaction_strategy;
  priority = or_else rule.profile.priority base.priority;
  max_event_buffer = or_int rule.profile.max_event_buffer base.max_event_buffer;
  enabled = if rule.disabled then false else base.enabled;
}

named_base :
    (base : Profile) (name : String)
    → (if not (name == "") then record base { name = name } else base)
      ≡ record base { name = or_else name base.name }
named_base base name = ground arith

apply_lem :
    (base other : Profile) (rule : Rule)
    → (base.name == "") ≡ false
    → HasBase base rule
    → apply rule other ≡ overridden base rule
unfolding apply or_int
apply_lem base other rule named h =
    rw (apply, h.0, named, named_base base rule.name, h.1.0, h.1.1) (ground arith)

apply-again :
    (base other : Profile) (rule : Rule)
    → (base.name == "") ≡ false
    → HasBase base rule
    → apply (again base rule) other ≡ apply rule other
unfolding rule_from_config effective_rule or_int
apply-again base other rule named h =
    let p = apply_lem base base rule named h in
    apply_lem base other (again base rule) named (refl, (refl, refl))
    ∙ rw
        (
          rule_from_config,
          effective_rule,
          p,
          or_else-again rule.name base.name,
          or_else-again rule.profile.retention_policy base.retention_policy,
          or_else-again rule.profile.filter_chain base.filter_chain,
          or_else-again rule.profile.extractor_set base.extractor_set,
          or_else-again rule.profile.compaction_strategy base.compaction_strategy,
          or_else-again rule.profile.priority base.priority,
          or_int-again rule.profile.max_event_buffer base.max_event_buffer,
        )
        (ground arith)
    ∙ sym (apply_lem base other rule named h)

matches-again :
    (base : Profile) (rule : Rule) (r : Resource) → matches (again base rule) r ≡ matches rule r
unfolding matches rule_from_config effective_rule
matches-again base rule r = refl

-- Rules that were written out decide as the rules that they come from.
select-again :
    (base other : Profile) (r : Resource) (rules : List Rule)
    → (base.name == "") ≡ false
    → All (HasBase base) rules
    → select_from r other
        (with_base_profile base (map rule_from_config (map (effective_rule base) rules)))
      ≡ select_from r other rules
unfolding select_from with_base_profile
select-again base other r [] named h = refl
select-again base other r (rule ∷ rules) named h = elim (Bool-cases (matches rule r)) [
  | inl hit ↦
      rw (select_from, matches-again base rule r, hit) (apply-again base other rule named h.0)
  | inr miss ↦
      rw (select_from, matches-again base rule r, miss) (select-again base other r rules named h.1)
]

with_base-HasBase :
    (base : Profile) (rules : List Rule)
    → All FromConfig rules
    → All (HasBase base) (with_base_profile base rules)
unfolding with_base_profile
with_base-HasBase base [] h = tt
with_base-HasBase base (rule ∷ rules) h = ((refl, h.0), with_base-HasBase base rules h.1)

rule_from_config-FromConfig :
    (entries : List ResourceProfileRuleConfig) → All FromConfig (map rule_from_config entries)
unfolding rule_from_config
rule_from_config-FromConfig [] = tt
rule_from_config-FromConfig (entry ∷ entries) = ((refl, refl), rule_from_config-FromConfig entries)

profile_rules-HasBase :
    (embedded : List Rule) (c : ResourceProfilesConfig)
    → All FromConfig embedded
    → All (HasBase (profile_defaults c.defaults)) (profile_rules embedded c)
unfolding profile_rules
profile_rules-HasBase embedded c h =
    let base = profile_defaults c.defaults in
    let custom =
      with_base-HasBase base (map rule_from_config c.rules) (rule_from_config-FromConfig c.rules) in
    elim (Bool-cases c.replace_defaults) [
      | inl only ↦ rw (profile_rules, only) custom
      | inr both ↦
          rw (profile_rules, both)
            (All-append (HasBase base) (with_base_profile base (map rule_from_config c.rules))
              (with_base_profile base embedded) custom (with_base-HasBase base embedded h))
    ]

-- Where the embedded rules come from a file, as those of a configuration do, a configuration and the
-- one with its effective rules written out choose the same profile for every resource.
pub with_effective_profile_rules_lem :
    (embedded : List Rule) (c : ResourceProfilesConfig) (info : ResourceInfo)
    → All FromConfig embedded
    → select info (profile_rules embedded (with_effective_profile_rules embedded c))
      ≡ select info (profile_rules embedded c)
unfolding select profile_rules with_effective_profile_rules profile_defaults
with_effective_profile_rules_lem embedded c info h =
    select-again (profile_defaults c.defaults) default_profile (normalize info)
      (profile_rules embedded c) refl (profile_rules-HasBase embedded c h)
