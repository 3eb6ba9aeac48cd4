-- ===== src/Ingest/Configured/Valid.antt =====
-- A configuration that is valid can be built.
use mathlib.Core.Path.{subst}
use kube_insight.Prelude.{
  ap, ◌∙◌, ℕ, ◌+◌, length, String, false, none, some, List, [], ◌∷◌, ◌++◌, ◌==◌, ◌≡◌, refl, arith,
  is_some, Bool-cases, Option-cases, inl, inr, All, eq_iff, if◌then◌else◌,
}
use kube_insight.Prelude.Result.{Result, ok}
use kube_insight.Filter.{Outcome, Filter}
use kube_insight.Extractor.{new_registry, Registry, Entry, Extractor}
use kube_insight.Ingest.Pipeline.{FilterChains}
use kube_insight.Ingest.Memory.{some_inj}
use kube_insight.Processing.{
  Readers, Extractors, FilterOptions, find, built_in_filters, built_in_extractors,
  new_built_in_filter, new_built_in_extractor, built_in_filter_action, is_built_in_extractor,
}
use kube_insight.Config.Names.{validate_config_name}
use kube_insight.Config.Checks.{then_check-none, check_all-none}
use kube_insight.Config.Processing.{
  ProcessingConfig, ProcessingFilterConfig, ProcessingExtractorConfig, processing_component_type,
  is_off, check_filter, check_chain, check_extractor, check_known, check_name, validate_processing,
}
use kube_insight.Ingest.Configured.Laws.{clashes, chain_on}
use kube_insight.Ingest.Configured.{
  guarded, options_of, take_filter, filter_chain_from_names, build_chains, with_none, entry_of,
  filter_chains_from_processing, build_entries, extractor_registry_from_processing,
}

-- What holds of every entry holds of one that is found.
pub All-find :
    {A : Type 0} (P : String × A → Type 0) (m : List (String × A)) (key : String) (v : A)
    → All P m
    → find key m ≡ some v
    → P (key, v)
unfolding find
All-find P [] key v h found = absurd (cc found)
All-find P ((k, w) ∷ m) key v h found = elim (Bool-cases (k == key)) [
  | inl here ↦
      let same : w ≡ v = some_inj (rw here at found) in
      let named : k ≡ key = (eq_iff k key).0 here in
      subst (λ x. P (key, x)) same (subst (λ x. P (x, w)) named h.0)
  | inr other ↦ All-find P m key v h.1 (rw other at found)
]

-- What a chain names is known, and every configured filter can be built.
module _ (r : Readers) (e : Extractors) where
  built_in_action :
      (name : String) (options : FilterOptions) (action : Outcome)
      → built_in_filter_action r name ≡ some action
      → (f : Filter) × (new_built_in_filter r name options ≡ ok (f, action))
  unfolding built_in_filter_action new_built_in_filter
  built_in_action name options action known = elim (Option-cases (find name (built_in_filters r))) [
    | inl absent ↦ absurd (cc (rw (built_in_filter_action, absent) at known))
    | inr (def, found) ↦
        let same = some_inj (rw (built_in_filter_action, found) at known) in
        let named = if options.name == "" then record options { name = name } else options in
        (
          def.build named,
          rw (new_built_in_filter, found) (ap (λ a. Result.ok (def.build named, a)) same),
        )
  ]

  check_filter-Known :
      (name : String) (f : ProcessingFilterConfig)
      → check_filter r e (name, f) ≡ none
      → (action : Outcome) × (built_in_filter_action r (processing_component_type name f.type)
          ≡ some action)
        × (clashes f.action action ≡ false)
  unfolding check_filter
  check_filter-Known name f valid =
      elim (Option-cases (built_in_filter_action r (processing_component_type name f.type))) [
        | inl absent ↦ absurd (
            cc
              (then_check-none (validate_config_name name) _
                (rw (check_filter, absent) at valid)).1)
        | inr (action, known) ↦
            let (named, fits) =
              then_check-none (validate_config_name name) _ (rw (check_filter, known) at valid) in
            (action, known, ground (arith, fits))
      ]

  -- What a filter's entry says when it is valid.
  abbrev KnownFilter : String × ProcessingFilterConfig → Type 0
  KnownFilter (name, f) = check_filter r e (name, f) ≡ none

  known_found :
      {A : Type 0} (m : List (String × A)) (name : String)
      → check_name m name ≡ none
      → (v : A) × (find name m ≡ some v)
  known_found m name here = elim (Option-cases (find name m)) [
    | inl absent ↦ absurd (cc (rw absent at here))
    | inr (v, found) ↦ (v, found)
  ]

  -- The filters that a chain names and that are switched on.
  abbrev pub switched_on : List (String × ProcessingFilterConfig) → List String → ℕ
  switched_on configs [] = 0
  switched_on configs (name ∷ names) =
      (elim (find name configs) [ none ↦ 0 | some cfg ↦ if is_off cfg.enabled then 0 else 1 ])
      + switched_on configs names

  chain-builds :
      (configs : List (String × ProcessingFilterConfig)) (names : List String)
      → All KnownFilter configs
      → check_known configs names ≡ none
      → (fs : List Filter) × (filter_chain_from_names r configs names ≡ ok fs)
        × (length fs ≡ switched_on configs names)
  unfolding filter_chain_from_names check_known
  chain-builds configs [] known valid = ([], refl, refl)
  chain-builds configs (name ∷ names) known valid =
      let (one, others) =
        then_check-none (check_name configs name) (check_known configs names) valid in
      let (cfg, found) = known_found configs name one in
      let (fs, rest, many) = chain-builds configs names known others in
      elim (Bool-cases (is_off cfg.enabled)) [
        | inl off ↦ (fs, ground (arith, found, off, rest), ground (arith, found, off, many))
        | inr on ↦
            let type = processing_component_type name cfg.type in
            let options = options_of name cfg in
            let (action, acts, fits) =
              check_filter-Known name cfg (All-find KnownFilter configs name cfg known found) in
            let (f, built) = built_in_action type options action acts in
            (
              guarded cfg.guard f ∷ fs,
              chain_on r configs name names cfg found on ∙ rw (built, take_filter, fits, rest) refl,
              ground (arith, found, on, many),
            )
      ]

  build_chains-builds :
      (configs : List (String × ProcessingFilterConfig)) (named : List (String × List String))
      (chains : FilterChains)
      → All KnownFilter configs
      → All (λ c. check_chain r e configs c ≡ none) named
      → (out : FilterChains) × (build_chains r configs named chains ≡ ok out)
  unfolding build_chains check_chain
  build_chains-builds configs [] chains known valid = (chains, refl)
  build_chains-builds configs ((name, names) ∷ rest) chains known valid =
      let (snake, refers) = then_check-none (validate_config_name name) _ valid.0 in
      let (fs, made, many) = chain-builds configs names known refers in
      elim (Bool-cases (name == "default")) [
        | inl first ↦
            let (out, built) =
              build_chains-builds configs rest (record chains { default = some fs }) known
                valid.1 in
            (out, rw (build_chains, made, first) built)
        | inr other ↦
            let (out, built) =
              build_chains-builds configs rest
                (record chains { by_name = chains.by_name ++ (name, fs) ∷ [] }) known valid.1 in
            (out, rw (build_chains, made, other) built)
      ]

  check_extractor-Known :
      (name : String) (x : ProcessingExtractorConfig)
      → check_extractor r e (name, x) ≡ none
      → (found : Extractor) × (new_built_in_extractor e (processing_component_type name x.type)
          ≡ ok found)
  unfolding check_extractor new_built_in_extractor is_built_in_extractor
  check_extractor-Known name x valid =
      let type = processing_component_type name x.type in
      elim (Option-cases (find type (built_in_extractors e))) [
        | inl absent ↦ absurd (
            cc
              (then_check-none (validate_config_name name) _
                (rw (check_extractor, is_built_in_extractor, absent) at valid)).1)
        | inr (found, here) ↦ (found, rw (new_built_in_extractor, here) refl)
      ]

  build_entries-builds :
      (named : List (String × ProcessingExtractorConfig))
      → All (λ x. check_extractor r e x ≡ none) named
      → (entries : List Entry) × (build_entries e named ≡ ok entries)
  unfolding build_entries
  build_entries-builds [] valid = ([], refl)
  build_entries-builds ((name, x) ∷ rest) valid =
      let (later, built) = build_entries-builds rest valid.1 in
      let (found, known) = check_extractor-Known name x valid.0 in
      elim (Bool-cases (is_off x.enabled)) [
        | inl off ↦ (later, rw (build_entries, off) built)
        | inr on ↦ (entry_of name x found ∷ later, rw (build_entries, on, known, built) refl)
      ]

  -- A configuration that validateProcessing accepts can be built: its chains and its registry of
  -- extractors come without an error, and each chain that it describes has one filter for each filter
  -- that it names and that is switched on.
  pub validate_processing-builds :
      (cfg : ProcessingConfig)
      → validate_processing r e cfg ≡ none
      → ((chains : FilterChains) × (filter_chains_from_processing r cfg ≡ ok chains))
        × ((registry : Registry) × (extractor_registry_from_processing e cfg ≡ ok registry))
        × ((name : String) (names : List String)
            → find name cfg.filter_chains ≡ some names
            → (fs : List Filter) × (filter_chain_from_names r cfg.filters names ≡ ok fs)
              × (length fs ≡ switched_on cfg.filters names))
  unfolding validate_processing filter_chains_from_processing extractor_registry_from_processing
      check_chain
  validate_processing-builds cfg valid =
      let (filters, rest) = then_check-none _ _ valid in
      let (chains, more) = then_check-none _ _ rest in
      let (extractors, sets) = then_check-none _ _ more in
      let known = check_all-none (check_filter r e) cfg.filters filters in
      let named = check_all-none (check_chain r e cfg.filters) cfg.filter_chains chains in
      let (out, built) =
        build_chains-builds cfg.filters cfg.filter_chains (record { default = none; by_name = [] })
          known named in
      let (entries, listed) =
        build_entries-builds cfg.extractors
          (check_all-none (check_extractor r e) cfg.extractors extractors) in
      (
        (
          with_none r (is_some (find "none" cfg.filter_chains)) out,
          rw (filter_chains_from_processing, built) refl,
        ),
        (
          new_registry cfg.extractor_sets entries,
          rw (extractor_registry_from_processing, listed) refl,
        ),
        λ name names found.
            let checked =
              All-find (λ c. check_chain r e cfg.filters c ≡ none) cfg.filter_chains name names
                named found in
            chain-builds cfg.filters names known
              (then_check-none (validate_config_name name) _ checked).1,
      )
