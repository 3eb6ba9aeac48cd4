-- ===== src/Filter/Chain.antt =====
-- What Chain.Apply guarantees for any filters: the order of the filters, the stop at the first
-- discard or error, and what filters that keep their word leave alone.
pub mod Honest
use mathlib.Core.List.{append_assoc, append-nil}
use kube_insight.Prelude.{
  String, Bool, true, false, Option, none, some, ◌≡◌, ◌⊎◌, refl, ap, sym, ◌∙◌, if◌then◌else◌, ℕ,
  ◌+◌, ◌≤◌, List, [], ◌∷◌, ◌++◌, arith, Bool-cases, inl, inr, is_some, any, ◌||◌, All, length,
  length-append, any-append, map,
}
use kube_insight.Prelude.Result.{Result, ok, err}
use kube_insight.Core.{Observation}
use kube_insight.Filter.{
  Outcome, keep_modified, Decision, Filter, tag, discards, same_outcome, Applied, apply_from,
  apply_chain,
}

pub Result-cases :
    {A : Type 0} (r : Result A) → ((e : String) × (r ≡ err e)) ⊎ ((a : A) × (r ≡ ok a))
Result-cases (ok a) = inr (a, refl)
Result-cases (err e) = inl (e, refl)

-- The decisions so far stand in front of those to come.
unfoldable pub prefixed : List Decision → Applied → Applied
prefixed ds r = record r { decisions = ds ++ r.decisions }

module _ (f : Filter) (fs : List Filter) (obs : Observation) (ds : List Decision) where
  pub apply_from_err :
      {e : String}
      → f.apply obs ≡ err e
      → apply_from (f ∷ fs) obs ds ≡ record { observation = obs; decisions = ds; error = some e }
  unfolding apply_from
  apply_from_err failed = rw (failed, apply_from)

  pub apply_from_stop :
      {next : Observation} {d : Decision}
      → f.apply obs ≡ ok (next, d)
      → discards d.outcome ≡ true
      → apply_from (f ∷ fs) obs ds
        ≡ record { observation = next; decisions = ds ++ tag f.name d ∷ []; error = none }
  unfolding apply_from
  apply_from_stop done stops = rw (done, apply_from) (rw stops)

  pub apply_from_go :
      {next : Observation} {d : Decision}
      → f.apply obs ≡ ok (next, d)
      → discards d.outcome ≡ false
      → apply_from (f ∷ fs) obs ds ≡ apply_from fs next (ds ++ tag f.name d ∷ [])
  unfolding apply_from
  apply_from_go done goes = rw (done, apply_from) (rw goes)

pub apply_from-prefixed :
    (fs : List Filter) (obs : Observation) (ds : List Decision)
    → apply_from fs obs ds ≡ prefixed ds (apply_from fs obs [])
unfolding prefixed
apply_from-prefixed [] obs ds = unfold apply_from in rw (append-nil ds)
apply_from-prefixed (f ∷ fs) obs ds = elim (Result-cases (f.apply obs)) [
  | inl (e, failed) ↦
      rw (apply_from_err f fs obs ds failed, apply_from_err f fs obs [] failed) (rw (append-nil ds))
  | inr ((next, d), done) ↦ elim (Bool-cases (discards d.outcome)) [
    | inl stops ↦
        rw (apply_from_stop f fs obs ds done stops, apply_from_stop f fs obs [] done stops)
    | inr goes ↦
        rw (apply_from_go f fs obs ds done goes, apply_from_go f fs obs [] done goes)
          (rw
            (
              apply_from-prefixed fs next (ds ++ tag f.name d ∷ []),
              apply_from-prefixed fs next (tag f.name d ∷ []),
            )
            (rw append_assoc))
  ]
]

-- The chain has stopped: a filter failed, or one discarded.
abbrev pub stopped : Applied → Bool
stopped r = is_some r.error || any (λ d. discards d.outcome) r.decisions

apply_from-append :
    (fs gs : List Filter) (obs : Observation) (ds : List Decision)
    → let r = apply_from fs obs [] in
      apply_from (fs ++ gs) obs ds
      ≡ (if stopped r then prefixed ds r else apply_from gs r.observation (ds ++ r.decisions))
apply_from-append [] gs obs ds = unfold apply_from in rw (append-nil ds)
apply_from-append (f ∷ fs) gs obs ds = elim (Result-cases (f.apply obs)) [
  | inl (e, failed) ↦
      rw (apply_from_err f (fs ++ gs) obs ds failed, apply_from_err f fs obs [] failed)
        (unfold prefixed in rw (append-nil ds))
  | inr ((next, d), done) ↦ elim (Bool-cases (discards d.outcome)) [
    | inl stops ↦
        rw (apply_from_stop f (fs ++ gs) obs ds done stops, apply_from_stop f fs obs [] done stops)
          (unfold prefixed in rw stops)
    | inr goes ↦
        rw (apply_from_go f (fs ++ gs) obs ds done goes, apply_from_go f fs obs [] done goes)
          (rw
            (
              apply_from-append fs gs next (ds ++ tag f.name d ∷ []),
              apply_from-prefixed fs next (tag f.name d ∷ []),
            )
            (unfold prefixed in rw goes (rw append_assoc)))
  ]
]

-- Running one chain behind another is running their concatenation, unless the first has stopped at a
-- discard or an error: then the second is not run at all.
pub apply_chain-append :
    (fs gs : List Filter) (obs : Observation)
    → let r = apply_chain fs obs in
      apply_chain (fs ++ gs) obs
      ≡ (if stopped r then r else apply_from gs r.observation r.decisions)
unfolding apply_chain prefixed
apply_chain-append fs gs obs = apply_from-append fs gs obs []
