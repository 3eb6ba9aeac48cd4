-- ===== src/Profile/Laws.antt =====
-- Which rule decides a profile, and what a rule may change.
use mathlib.Core.List.{append-nil}
use kube_insight.Prelude.{
  ◌∙◌, true, false, ◌≡◌, refl, if◌then◌else◌, List, [], ◌∷◌, ◌++◌, arith, any, ◌||◌, eq_iff,
}
use kube_insight.Kubeapi.{ResourceInfo}
use kube_insight.Profile.{
  Profile, Rule, Resource, matches, apply, select_from, select, normalize, default_profile, or_else,
}

select_from_skip :
    (r : Resource) (base : Profile) (rule : Rule) (rules : List Rule)
    → matches rule r ≡ false
    → select_from r base (rule ∷ rules) ≡ select_from r base rules
unfolding select_from
select_from_skip r base rule rules h = rw (h, select_from)

select_from_hit :
    (r : Resource) (base : Profile) (rule : Rule) (rules : List Rule)
    → matches rule r ≡ true
    → select_from r base (rule ∷ rules) ≡ apply rule base
unfolding select_from
select_from_hit r base rule rules h = rw (h, select_from)

select_from-append :
    (r : Resource) (base : Profile) (xs ys : List Rule)
    → any (λ rule. matches rule r) xs ≡ false
    → select_from r base (xs ++ ys) ≡ select_from r base ys
select_from-append r base [] ys h = refl
select_from-append r base (x ∷ xs) ys h =
    rw (select_from_skip r base x (xs ++ ys) (ground arith))
      (select_from-append r base xs ys (ground arith))

-- The first rule that matches decides the profile, and no rule behind it is looked at; a resource that
-- no rule matches has the default profile.
pub select_first :
    (info : ResourceInfo) (before after : List Rule) (rule : Rule)
    → any (λ x. matches x (normalize info)) before ≡ false
    → (select info before ≡ default_profile)
      × (matches rule (normalize info) ≡ true
          → select info (before ++ rule ∷ after) ≡ apply rule default_profile)
unfolding select
select_first info before after rule h = (
  rw (← append-nil before) (select_from-append (normalize info) default_profile before [] h),
  λ hit.
      select_from-append (normalize info) default_profile before (rule ∷ after) h
      ∙ select_from_hit (normalize info) default_profile rule after hit,
)

-- A rule without a base of its own changes a field of the profile only where it sets that field, and a
-- disabled rule disables the profile.
pub apply_overrides :
    (rule : Rule) (base : Profile)
    → rule.base.name ≡ ""
    → let p = apply rule base in
      (p.filter_chain ≡ or_else rule.profile.filter_chain base.filter_chain)
      × (p.extractor_set ≡ or_else rule.profile.extractor_set base.extractor_set)
      × (p.retention_policy ≡ or_else rule.profile.retention_policy base.retention_policy)
      × (p.enabled ≡ (if rule.disabled then false else rule.profile.enabled || base.enabled))
unfolding apply
apply_overrides rule base h = ground (arith, eq_iff rule.base.name "")
