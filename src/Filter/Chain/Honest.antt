-- ===== src/Filter/Chain/Honest.antt =====
-- A chain of honest filters is honest, and its decisions name the filters in their order.
use kube_insight.Prelude.{
  String, Bool, true, Option, none, some, ◌≡◌, ◌⊎◌, refl, ap, List, [], ◌∷◌, ◌++◌, arith,
  Bool-cases, inl, inr, any, All, map, eq_refl,
}
use kube_insight.Prelude.Result.{ok}
use kube_insight.Json.{Value, str, end, get_opt}
use kube_insight.Json.Laws.{get-set}
use kube_insight.Core.{Observation}
use kube_insight.Filter.{
  keep_modified, Decision, Filter, tag, discards, same_outcome, apply_from, apply_chain,
}
use kube_insight.Filter.Objects.Laws.{Honest}
use kube_insight.Filter.Chain.{
  Result-cases, prefixed, apply_from_err, apply_from_stop, apply_from_go, apply_from-prefixed,
}

-- Whatever such a filter returns is honest; it may fail.
abbrev pub IsHonest : Filter → Type 0
IsHonest f =
    (obs next : Observation) (d : Decision) → f.apply obs ≡ ok (next, d) → Honest obs (next, d)

-- A decision says that the object was changed.
abbrev pub modifies : Decision → Bool
modifies d = same_outcome d.outcome keep_modified

-- Nothing but the object differs, and it differs only if a decision says so.
abbrev pub Accounted : Observation → Observation → List Decision → Type 0
Accounted obs result ds =
    (result ≡ record obs { object = result.object }) × ((any modifies ds ≡ true) ⊎ (result ≡ obs))

Accounted-cons :
    (f : Filter) (obs next result : Observation) (d : Decision) (ds : List Decision)
    → Honest obs (next, d)
    → Accounted next result ds
    → Accounted obs result (tag f.name d ∷ ds)
Accounted-cons f obs next result d ds h a = ground arith

chain-Accounted :
    (fs : List Filter) (obs : Observation)
    → All IsHonest fs
    → let r = apply_from fs obs [] in Accounted obs r.observation r.decisions
unfolding prefixed
chain-Accounted [] obs h = unfold apply_from in (refl, inr refl)
chain-Accounted (f ∷ fs) obs h = elim (Result-cases (f.apply obs)) [
  | inl (e, failed) ↦ rw (apply_from_err f fs obs [] failed) (refl, inr refl)
  | inr ((next, d), done) ↦ elim (Bool-cases (discards d.outcome)) [
    | inl stops ↦
        rw (apply_from_stop f fs obs [] done stops)
          (Accounted-cons f obs next next d [] (h.0 obs next d done) (refl, inr refl))
    | inr goes ↦ rw (apply_from_go f fs obs [] done goes) (
        rw (apply_from-prefixed fs next (tag f.name d ∷ [])) (
          Accounted-cons f obs next (apply_from fs next []).observation d
            (apply_from fs next []).decisions (h.0 obs next d done) (chain-Accounted fs next h.1)))
  ]
]

-- A chain of honest filters touches nothing but the object, whether it ends, discards or fails; and
-- where no decision says keep_modified, the observation is the given one.
pub apply_chain-Accounted :
    (fs : List Filter) (obs : Observation)
    → All IsHonest fs
    → let r = apply_chain fs obs in Accounted obs r.observation r.decisions
unfolding apply_chain
apply_chain-Accounted fs obs h = chain-Accounted fs obs h

-- The name under which a decision was noted.
abbrev pub decided_by : Decision → Option Value
decided_by d = get_opt "filter" d.meta

decided_by-tag : (name : String) (d : Decision) → decided_by (tag name d) ≡ some (str name)
decided_by-tag name d = ground (
  arith,
  get-set "filter" "filter" (str name) (elim d.meta [ none ↦ end | some m ↦ m ]),
  eq_refl "filter",
)

-- The decisions stand in the order of the filters, each under its filter's name, up to the place
-- where the chain stops.
pub decisions_named :
    (fs : List Filter) (obs : Observation)
    → (rest : List (Option Value)) × (map decided_by (apply_chain fs obs).decisions ++ rest
        ≡ map (λ f. some (str f.name)) fs)
unfolding apply_chain prefixed
decisions_named [] obs = unfold apply_from in ([], refl)
decisions_named (f ∷ fs) obs = elim (Result-cases (f.apply obs)) [
  | inl (e, failed) ↦
      (map (λ f. some (str f.name)) (f ∷ fs), rw (apply_from_err f fs obs [] failed))
  | inr ((next, d), done) ↦ elim (Bool-cases (discards d.outcome)) [
    | inl stops ↦ (
      map (λ f. some (str f.name)) fs,
      rw (apply_from_stop f fs obs [] done stops) (rw (decided_by-tag f.name d)),
    )
    | inr goes ↦
        let (rest, same) = decisions_named fs next in
        (
          rest,
          rw (apply_from_go f fs obs [] done goes) (
              rw (apply_from-prefixed fs next (tag f.name d ∷ []))
                (rw (decided_by-tag f.name d) (ap (λ r. some (str f.name) ∷ r) same))),
        )
  ]
]
