-- ===== src/Ingest/Configured/Laws.antt =====
-- What a configuration that is valid leads to: chains that can be built, of filters that are honest.
use mathlib.Core.Path.{subst}
use kube_insight.Prelude.{
  String, Bool, true, false, not, ◌&&◌, ◌||◌, none, some, List, [], ◌∷◌, ◌++◌, ◌==◌, ◌≡◌, refl,
  arith, is_some, Bool-cases, Option-cases, inl, inr, All, All-append,
}
use kube_insight.Prelude.Result.{Result, ok}
use kube_insight.Core.{Observation}
use kube_insight.Filter.{Outcome, Filter, apply_chain}
use kube_insight.Filter.Scope.{Scope, scoped, scope_matches, scope_empty}
use kube_insight.Filter.Objects.Laws.{Honest}
use kube_insight.Filter.Chain.{Result-cases}
use kube_insight.Filter.Chain.Honest.{IsHonest, Accounted, apply_chain-Accounted}
use kube_insight.Ingest.Pipeline.{FilterChains, select_chain, chain_of, find_chain}
use kube_insight.Ingest.Secrets.{ok_inj}
use kube_insight.Ingest.Memory.{some_inj}
use kube_insight.Processing.{Readers, FilterOptions, find, new_built_in_filter, outcome_text}
use kube_insight.Processing.Filters.{new_built_in_filter-Sound}
use kube_insight.Config.Processing.{
  ProcessingConfig, ProcessingFilterConfig, ResourceGuardConfig, processing_component_type, is_off,
}
use kube_insight.Ingest.Configured.{
  scope_of, guarded, options_of, take_filter, filter_chain_from_names, build_chains, with_none,
  filter_chains_from_processing,
}

scoped-IsHonest : (scope : Scope) (f : Filter) → IsHonest f → IsHonest (scoped scope f)
unfolding scoped
scoped-IsHonest scope f honest obs next d done = elim (Bool-cases (scope_matches scope obs.ref)) [
  | inl within ↦ honest obs next d (rw (scoped, within) at done)
  | inr outside ↦
      subst (Honest obs) (ok_inj (rw (scoped, outside) at done))
        (record { only_object = refl; announced = inr refl })
]

guarded-IsHonest :
    (guard : ResourceGuardConfig) (f : Filter) → IsHonest f → IsHonest (guarded guard f)
unfolding guarded
guarded-IsHonest guard f honest = elim (Bool-cases (scope_empty (scope_of guard))) [
  | inl empty ↦ rw (guarded, empty) honest
  | inr narrow ↦ rw (guarded, narrow) (scoped-IsHonest (scope_of guard) f honest)
]

-- A configured action that is not the one that a filter has.
abbrev pub clashes : String → Outcome → Bool
clashes action expected = not (action == "") && not (action == outcome_text expected)

module _ (r : Readers) where
  -- The rounds of the loop over the names of a chain.
  module _ (configs : List (String × ProcessingFilterConfig)) (name : String) (names : List String)
      (cfg : ProcessingFilterConfig) (found : find name configs ≡ some cfg) where
    chain_off :
        is_off cfg.enabled ≡ true
        → filter_chain_from_names r configs (name ∷ names) ≡ filter_chain_from_names r configs names
    unfolding filter_chain_from_names
    chain_off off = ground (arith, found, off)

    pub chain_on :
        is_off cfg.enabled ≡ false
        → filter_chain_from_names r configs (name ∷ names)
          ≡ take_filter r cfg
              (new_built_in_filter r
                (processing_component_type name cfg.type)
                (options_of name cfg))
              (filter_chain_from_names r configs names)
    unfolding filter_chain_from_names
    chain_on on = rw (filter_chain_from_names, found, on)

  take_filter-IsHonest :
      (cfg : ProcessingFilterConfig) (name : String) (options : FilterOptions)
      (rest : Result (List Filter)) (fs : List Filter)
      → ((gs : List Filter) → rest ≡ ok gs → All IsHonest gs)
      → take_filter r cfg (new_built_in_filter r name options) rest ≡ ok fs
      → All IsHonest fs
  unfolding take_filter
  take_filter-IsHonest cfg name options rest fs honest taken =
      elim (Result-cases (new_built_in_filter r name options)) [
        | inl (e, bad) ↦ absurd (cc (rw (take_filter, bad) at taken))
        | inr ((f, expected), built) ↦ elim (Bool-cases (clashes cfg.action expected)) [
          | inl clash ↦ absurd (cc (rw (take_filter, built, clash) at taken))
          | inr fits ↦ elim (Result-cases rest) [
            | inl (e, bad) ↦ absurd (cc (rw (take_filter, built, fits, bad) at taken))
            | inr (gs, rested) ↦
                let sound = new_built_in_filter-Sound r name options f expected built in
                subst (All IsHonest) (ok_inj (rw (take_filter, built, fits, rested) at taken))
                  (guarded-IsHonest cfg.guard f sound.0, honest gs rested)
          ]
        ]
      ]

  chain-IsHonest :
      (configs : List (String × ProcessingFilterConfig)) (names : List String) (fs : List Filter)
      → filter_chain_from_names r configs names ≡ ok fs
      → All IsHonest fs
  unfolding filter_chain_from_names
  chain-IsHonest configs [] fs built = subst (All IsHonest) (ok_inj built) tt
  chain-IsHonest configs (name ∷ names) fs built = elim (Option-cases (find name configs)) [
    | inl unknown ↦ absurd (cc (rw (filter_chain_from_names, unknown) at built))
    | inr (cfg, found) ↦ elim (Bool-cases (is_off cfg.enabled)) [
      | inl off ↦
          chain-IsHonest configs names fs (rw (chain_off configs name names cfg found off) at built)
      | inr on ↦
          take_filter-IsHonest cfg (processing_component_type name cfg.type) (options_of name cfg)
            (filter_chain_from_names r configs names) fs (chain-IsHonest configs names)
            (rw (chain_on configs name names cfg found on) at built)
    ]
  ]

  -- All chains are of honest filters.
  abbrev pub HonestChains : FilterChains → Type 0
  HonestChains chains =
      All IsHonest (chain_of chains.default)
      × All (λ (c : String × List Filter). All IsHonest c.1) chains.by_name

  build_chains-HonestChains :
      (configs : List (String × ProcessingFilterConfig)) (named : List (String × List String))
      (chains out : FilterChains)
      → HonestChains chains
      → build_chains r configs named chains ≡ ok out
      → HonestChains out
  unfolding build_chains
  build_chains-HonestChains configs [] chains out honest built =
      subst HonestChains (ok_inj built) honest
  build_chains-HonestChains configs ((name, names) ∷ rest) chains out honest built =
      elim (Result-cases (filter_chain_from_names r configs names)) [
        | inl (e, bad) ↦ absurd (cc (rw (build_chains, bad) at built))
        | inr (chain, made) ↦
            let good = chain-IsHonest configs names chain made in
            elim (Bool-cases (name == "default")) [
              | inl first ↦
                  build_chains-HonestChains configs rest (record chains { default = some chain })
                    out (good, honest.1) (rw (build_chains, made, first) at built)
              | inr other ↦
                  build_chains-HonestChains configs rest
                    (record chains { by_name = chains.by_name ++ (name, chain) ∷ [] }) out
                    (
                      honest.0,
                      All-append (λ (c : String × List Filter). All IsHonest c.1) chains.by_name
                          ((name, chain) ∷ []) honest.1 (good, tt),
                    )
                    (rw (build_chains, made, other) at built)
            ]
      ]

  find_chain-IsHonest :
      (name : String) (named : List (String × List Filter)) (fs : List Filter)
      → All (λ (c : String × List Filter). All IsHonest c.1) named
      → find_chain name named ≡ some fs
      → All IsHonest fs
  unfolding find_chain
  find_chain-IsHonest name [] fs h found = absurd (cc found)
  find_chain-IsHonest name ((n, gs) ∷ named) fs h found = elim (Bool-cases (n == name)) [
    | inl here ↦ subst (All IsHonest) (some_inj (rw here at found)) h.0
    | inr other ↦ find_chain-IsHonest name named fs h.1 (rw other at found)
  ]

  select_chain-IsHonest :
      (chains : FilterChains) (name : String)
      → HonestChains chains
      → All IsHonest (select_chain chains name)
  unfolding select_chain
  select_chain-IsHonest chains name h = elim (Bool-cases (name == "" || name == "default")) [
    | inl first ↦ rw (select_chain, first) h.0
    | inr other ↦ elim (Bool-cases (name == "none")) [
      | inl nothing ↦ rw (select_chain, other, nothing) tt
      | inr plain ↦ elim (Option-cases (find_chain name chains.by_name)) [
        | inl absent ↦ rw (select_chain, other, plain, absent) h.0
        | inr (fs, found) ↦
            rw (select_chain, other, plain, found)
              (find_chain-IsHonest name chains.by_name fs h.1 found)
      ]
    ]
  ]

  with_none-HonestChains :
      (known : Bool) (chains : FilterChains)
      → HonestChains chains
      → HonestChains (with_none r known chains)
  with_none-HonestChains true chains h = h
  with_none-HonestChains false chains h = (
    h.0,
    All-append (λ (c : String × List Filter). All IsHonest c.1) chains.by_name (("none", []) ∷ [])
        h.1 (tt, tt),
  )

  -- Whatever chains a configuration describes, the chain that is selected under a name touches nothing
  -- but the object of an observation, and changes that only where a decision says so.
  pub configured_chain-Accounted :
      (cfg : ProcessingConfig) (chains : FilterChains) (name : String) (obs : Observation)
      → filter_chains_from_processing r cfg ≡ ok chains
      → let result = apply_chain (select_chain chains name) obs in
        Accounted obs result.observation result.decisions
  unfolding filter_chains_from_processing
  configured_chain-Accounted cfg chains name obs made =
      let start : FilterChains = record { default = none; by_name = [] } in
      elim (Result-cases (build_chains r cfg.filters cfg.filter_chains start)) [
        | inl (e, bad) ↦ absurd (cc (rw (filter_chains_from_processing, bad) at made))
        | inr (out, built) ↦
            let good =
              build_chains-HonestChains cfg.filters cfg.filter_chains start out (tt, tt) built in
            let same = ok_inj (rw (filter_chains_from_processing, built) at made) in
            let all_good =
              subst HonestChains same
                (with_none-HonestChains (is_some (find "none" cfg.filter_chains)) out good) in
            apply_chain-Accounted (select_chain chains name) obs
              (select_chain-IsHonest chains name all_good)
      ]
