-- ===== src/Extractor.antt =====
-- internal/extractor/extractor.go: the registry that runs the extractors on an observation. An
-- extractor is the source's interface: a kind, and what Extract returns.
pub mod Objects
pub mod Pod
pub mod Service
pub mod EndpointSlice
pub mod Event
pub mod Node
pub mod Owned
pub mod Kinds
use kube_insight.Prelude.{
  String, Bool, true, false, not, ◌&&◌, ◌||◌, Option, none, some, List, [], ◌∷◌, ◌++◌, ◌==◌,
  if◌then◌else◌, is_empty, contains,
}
use kube_insight.Prelude.Result.{Result, ok, err}
use kube_insight.Core.{Observation, Fact, Edge, Change}
use kube_insight.Match.{match_any_string, match_any_resource, from_core_ref}

pub record Evidence : Type 0 where
  pub facts : List Fact
  pub edges : List Edge
  pub changes : List Change

abbrev pub no_evidence : Evidence
no_evidence = record { facts = []; edges = []; changes = [] }

pub record Extractor : Type 0 where
  pub kind : String
  pub extract : Observation → Result Evidence

pub record Entry : Type 0 where
  pub name : String
  pub extractor : Extractor
  pub resources : List String
  pub kinds : List String

-- A map from kinds to entries is the list of the entries, read by their extractor's kind. The sets are
-- none where no set is configured.
pub record Registry : Type 0 where
  pub by_kind : List Entry
  pub common : List Entry
  pub sets : List (String × List String)

-- NewScopedRegistryWithSets, for entries that have a name and an extractor.
unfoldable pub new_registry : List (String × List String) → List Entry → Registry
new_registry sets [] = record { by_kind = []; common = []; sets = sets }
new_registry sets (e ∷ es) =
    let r = new_registry sets es in
    if e.extractor.kind == "*"
    then record r { common = e ∷ r.common }
    else record r { by_kind = e ∷ r.by_kind }

-- Entry.matches
unfoldable pub entry_matches : Entry → Observation → Bool
entry_matches e obs =
    if not (is_empty e.kinds) && not (match_any_string e.kinds obs.ref.kind)
    then false
    else match_any_resource e.resources (from_core_ref obs.ref)

set_members : String → List (String × List String) → Option (List String)
set_members name [] = none
set_members name ((n, names) ∷ sets) = if n == name then some names else set_members name sets

in_configured : List (String × List String) → String → String → Bool
unfolding set_members
in_configured sets name set =
    if set == "none"
    then false
    else elim (set_members (if set == "" then "default" else set) sets) [
      | none ↦ false
      | some names ↦ contains names name
    ]

-- Registry.entryMatchesSet
unfoldable pub entry_matches_set : Registry → Entry → String → Bool
unfolding in_configured
entry_matches_set r e set =
    if not (is_empty r.sets)
    then in_configured r.sets e.name set
    else if set == "" || set == "default"
    then true
    else if set == "generic" || set == "none"
    then false
    else e.name == set

unfoldable pub merge_evidence : Evidence → Evidence → Evidence
merge_evidence a b = record {
  facts = a.facts ++ b.facts;
  edges = a.edges ++ b.edges;
  changes = a.changes ++ b.changes;
}

-- What extract returns: the evidence so far, and the error.
pub record Extracted : Type 0 where
  pub evidence : Evidence
  pub error : Option String

-- One loop of extract over entries.
unfoldable pub extract_entries : Registry → String → Observation → List Entry → Evidence → Extracted
unfolding merge_evidence
extract_entries r set obs [] out = record { evidence = out; error = none }
extract_entries r set obs (e ∷ es) out =
    let skipped = extract_entries r set obs es out in
    let run : Extracted = elim (e.extractor.extract obs) [
      | err x ↦ record { evidence = out; error = some x }
      | ok found ↦ extract_entries r set obs es (merge_evidence out found)
    ] in
    if not (entry_matches e obs) || not (entry_matches_set r e set) then skipped else run

-- `r.byKind[kind]`
unfoldable pub of_kind : String → List Entry → List Entry
of_kind kind [] = []
of_kind kind (e ∷ es) =
    let rest = of_kind kind es in if e.extractor.kind == kind then e ∷ rest else rest

-- Registry.extract, as ExtractSet calls it.
unfoldable pub extract_set : Registry → Observation → String → Extracted
extract_set r obs set =
    let common = extract_entries r set obs r.common no_evidence in
    let rest : Extracted = elim common.error [
      | some x ↦ common
      | none ↦ extract_entries r set obs (of_kind obs.ref.kind r.by_kind) common.evidence
    ] in
    if set == "none" then record { evidence = no_evidence; error = none } else rest
