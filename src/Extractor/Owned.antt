-- ===== src/Extractor/Owned.antt =====
-- All evidence that the extractors make is about the object of the observation, at its time.
use kube_insight.Prelude.{
  String, Bool, true, false, not, ◌||◌, some, List, [], ◌∷◌, ◌==◌, ◌≡◌, refl, All, All-append,
  Bool-cases, Option-cases, inl, inr, if◌then◌else◌,
}
use kube_insight.Prelude.Result.{ok}
use kube_insight.Core.{Observation, Fact, Edge, Change}
use kube_insight.Json.{Value, Fields, as_obj}
use kube_insight.Filter.Chain.{Result-cases}
use kube_insight.Extractor.{
  Evidence, no_evidence, Extractor, Entry, Registry, extract_entries, extract_set, of_kind,
  merge_evidence, entry_matches, entry_matches_set,
}
use kube_insight.Extractor.Objects.{
  object_id, fact, change, all_of, each_map, deletion, is_deletion,
}

module _ (obs : Observation) where
  abbrev pub OwnedFact : Fact → Type 0
  OwnedFact f = (f.object_id ≡ object_id obs) × (f.time ≡ obs.observed_at)

  abbrev pub OwnedEdge : Edge → Type 0
  OwnedEdge e = (e.source_id ≡ object_id obs) × (e.valid_from ≡ obs.observed_at)

  abbrev pub OwnedChange : Change → Type 0
  OwnedChange c = (c.object_id ≡ object_id obs) × (c.time ≡ obs.observed_at)

  -- Evidence about the object of the observation, at its time.
  abbrev pub Owned : Evidence → Type 0
  Owned e = All OwnedFact e.facts × All OwnedEdge e.edges × All OwnedChange e.changes

  pub merge_evidence-Owned : (a b : Evidence) → Owned a → Owned b → Owned (merge_evidence a b)
  unfolding merge_evidence
  merge_evidence-Owned a b h k = (
    All-append OwnedFact a.facts b.facts h.0 k.0,
    All-append OwnedEdge a.edges b.edges h.1 k.1,
    All-append OwnedChange a.changes b.changes h.2 k.2,
  )

  pub all_of-Owned : (es : List Evidence) → All Owned es → Owned (all_of es)
  unfolding all_of
  all_of-Owned [] h = (tt, tt, tt)
  all_of-Owned (e ∷ es) h = merge_evidence-Owned e (all_of es) h.0 (all_of-Owned es h.1)

  pub each_map-Owned :
      (f : Fields → Evidence) (vs : List Value)
      → ((m : Fields) → Owned (f m))
      → Owned (each_map f vs)
  unfolding each_map
  each_map-Owned f [] h = (tt, tt, tt)
  each_map-Owned f (v ∷ vs) h = elim (Option-cases (as_obj (some v))) [
    | inl other ↦ rw (each_map, other) (each_map-Owned f vs h)
    | inr (m, object) ↦
        rw (each_map, object)
          (merge_evidence-Owned (f m) (each_map f vs) (h m) (each_map-Owned f vs h))
  ]

  pub no_evidence-Owned : Owned no_evidence
  no_evidence-Owned = (tt, tt, tt)

  pub if-Owned : (c : Bool) (a b : Evidence) → Owned a → Owned b → Owned (if c then a else b)
  if-Owned true a b h k = h
  if-Owned false a b h k = k

  pub deletion-Owned : (key : String) → Owned (deletion obs key)
  unfolding fact change
  deletion-Owned key =
      if-Owned (is_deletion obs.type) _ no_evidence (((refl, refl), tt), tt, ((refl, refl), tt))
        no_evidence-Owned

-- An extractor whose evidence is always owned.
abbrev pub IsOwned : Extractor → Type 0
IsOwned x = (obs : Observation) (e : Evidence) → x.extract obs ≡ ok e → Owned obs e

abbrev pub EntryOwned : Entry → Type 0
EntryOwned e = IsOwned e.extractor

module _ (r : Registry) (set : String) (obs : Observation) where
  extract_entries-Owned :
      (es : List Entry) (out : Evidence)
      → All EntryOwned es
      → Owned obs out
      → Owned obs (extract_entries r set obs es out).evidence
  unfolding extract_entries
  extract_entries-Owned [] out h k = k
  extract_entries-Owned (e ∷ es) out h k =
      elim (Bool-cases (not (entry_matches e obs) || not (entry_matches_set r e set))) [
        | inl skipped ↦ rw (extract_entries, skipped) (extract_entries-Owned es out h.1 k)
        | inr runs ↦ elim (Result-cases (e.extractor.extract obs)) [
          | inl (x, bad) ↦ rw (extract_entries, runs, bad) k
          | inr (found, done) ↦
              rw (extract_entries, runs, done)
                (extract_entries-Owned es (merge_evidence out found) h.1
                  (merge_evidence-Owned obs out found k (h.0 obs found done)))
        ]
      ]

  of_kind-Owned :
      (kind : String) (es : List Entry) → All EntryOwned es → All EntryOwned (of_kind kind es)
  unfolding of_kind
  of_kind-Owned kind [] h = tt
  of_kind-Owned kind (e ∷ es) h = elim (Bool-cases (e.extractor.kind == kind)) [
    | inl this ↦ rw (of_kind, this) (h.0, of_kind-Owned kind es h.1)
    | inr other ↦ rw (of_kind, other) (of_kind-Owned kind es h.1)
  ]

  -- A registry of such extractors makes no evidence about another object, or of another time, whether it
  -- ends with an error or without.
  pub extract_set-Owned :
      All EntryOwned r.common
      → All EntryOwned r.by_kind
      → Owned obs (extract_set r obs set).evidence
  unfolding extract_set
  extract_set-Owned common by_kind =
      let first = extract_entries r set obs r.common no_evidence in
      let one = extract_entries-Owned r.common no_evidence common (no_evidence-Owned obs) in
      let two =
        extract_entries-Owned (of_kind obs.ref.kind r.by_kind) first.evidence
          (of_kind-Owned obs.ref.kind r.by_kind by_kind) one in
      elim (Bool-cases (set == "none")) [
        | inl nothing ↦ rw (extract_set, nothing) (no_evidence-Owned obs)
        | inr some_set ↦ elim (Option-cases first.error) [
          | inl fine ↦ rw (extract_set, some_set, fine) two
          | inr (x, bad) ↦ rw (extract_set, some_set, bad) one
        ]
      ]
