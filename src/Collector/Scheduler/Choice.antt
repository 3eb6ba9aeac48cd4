-- ===== src/Collector/Scheduler/Choice.antt =====
-- Which request the scheduler lets through.
use mathlib.Core.Path.{subst, sym}
use kube_insight.Prelude.{
  String, ℕ, ◌+◌, ◌<◌, true, false, Option, some, List, [], ◌∷◌, ◌≡◌, refl, ◌==◌, eq_refl, arith,
  Bool-cases, inl, inr, All, leb, ◌⊎◌,
}
use kube_insight.Collector.Int.{
  ℤ, less_int_irrefl, less_int_total, less_int_trans, less_int_asym, same_int_sym, same_int-eq,
}
use kube_insight.Collector.Scheduler.Steps.{waits, tried}
use kube_insight.Collector.Scheduler.{
  Request, Scheduler, score_of, beats, best_from, best, try_acquire, delete_request,
}

-- A request is one of the list.
abbrev pub Among : Request → List Request → Type 0
Among b [] = ⊥
Among b (r ∷ rs) = (b ≡ r) ⊎ Among b rs

further :
    (b r : Request) (rs : List Request) (m : Request) → Among m (b ∷ rs) → Among m (b ∷ r ∷ rs)
further b r rs m (inl e) = inl e
further b r rs m (inr a) = inr (inr a)

chosen_inj : {a b : Request} → Option.some a ≡ some b → a ≡ b
chosen_inj e = cc

delete_request-waits :
    (key : String) (rs : List Request) → waits key (delete_request key rs) ≡ false
unfolding delete_request
delete_request-waits key [] = refl
delete_request-waits key (r ∷ rs) = ground (arith, delete_request-waits key rs)

best_of_some :
    (now : ℕ) (s : Scheduler) (r : Request) (rs : List Request)
    → s.requests ≡ r ∷ rs
    → best now s.score s.requests ≡ some (best_from now s.score r rs)
unfolding best
best_of_some now s r rs waiting = rw waiting

granted_best :
    (now : ℕ) (s : Scheduler) (b : Request)
    → s.active < s.limit
    → best now s.score s.requests ≡ some b
    → (try_acquire now b.key s).1 ≡ true
unfolding try_acquire
granted_best now s b free chosen =
    let room : leb s.limit s.active ≡ false = ground arith in
    let same : (b.key == b.key) ≡ true = eq_refl b.key in rw (try_acquire, room, chosen, same)

module _ (now : ℕ) (score : Option (String → ℕ → ℤ)) where
  beats_irrefl : (r : Request) → beats now score r r ≡ false
  unfolding beats
  beats_irrefl r = ground (arith, less_int_irrefl (score_of now score r))

  beats_asym : (a b : Request) → beats now score a b ≡ true → beats now score b a ≡ false
  unfolding beats
  beats_asym a b h =
      let x = score_of now score a in
      let y = score_of now score b in
      ground (
        arith,
        less_int_asym x y,
        less_int_asym y x,
        same_int_sym x y,
        same_int-eq x y,
        less_int_irrefl x,
      )

  -- A request that does not beat one that does not beat a third does not beat the third.
  unbeaten_trans :
      (a b c : Request)
      → beats now score a b ≡ false
      → beats now score b c ≡ false
      → beats now score a c ≡ false
  unfolding beats
  unbeaten_trans a b c h k =
      let x = score_of now score a in
      let y = score_of now score b in
      let z = score_of now score c in
      ground (
        arith,
        less_int_trans z y x,
        less_int_total y x,
        less_int_total z y,
        less_int_total x y,
        less_int_total y z,
        same_int_sym x y,
        same_int_sym y z,
        same_int-eq x z,
      )

  abbrev pub Unbeaten : Request → List Request → Type 0
  Unbeaten b rs = All (λ r. beats now score r b ≡ false) rs

  best_from_better :
      (b r : Request) (rs : List Request)
      → beats now score r b ≡ true
      → best_from now score b (r ∷ rs) ≡ best_from now score r rs
  unfolding best_from
  best_from_better b r rs h = rw h

  best_from_worse :
      (b r : Request) (rs : List Request)
      → beats now score r b ≡ false
      → best_from now score b (r ∷ rs) ≡ best_from now score b rs
  unfolding best_from
  best_from_worse b r rs h = rw h

  best_from_nil : (b : Request) → best_from now score b [] ≡ b
  unfolding best_from
  best_from_nil b = refl

  best_from-Unbeaten :
      (b : Request) (rs : List Request)
      → (beats now score b (best_from now score b rs) ≡ false)
        × Unbeaten (best_from now score b rs) rs
  best_from-Unbeaten b [] = rw (best_from_nil b) (beats_irrefl b, tt)
  best_from-Unbeaten b (r ∷ rs) = elim (Bool-cases (beats now score r b)) [
    | inl better ↦
        let ih = best_from-Unbeaten r rs in
        let m = best_from now score r rs in
        subst (λ x. (beats now score b x ≡ false) × Unbeaten x (r ∷ rs))
          (sym (best_from_better b r rs better))
          (unbeaten_trans b r m (beats_asym r b better) ih.0, (ih.0, ih.1))
    | inr worse ↦
        let ih = best_from-Unbeaten b rs in
        let m = best_from now score b rs in
        subst (λ x. (beats now score b x ≡ false) × Unbeaten x (r ∷ rs))
          (sym (best_from_worse b r rs worse)) (ih.0, (unbeaten_trans r b m worse ih.0, ih.1))
  ]

  -- The best request is one of those that it was chosen from.
  best_from-Among : (b : Request) (rs : List Request) → Among (best_from now score b rs) (b ∷ rs)
  best_from-Among b [] = inl (best_from_nil b)
  best_from-Among b (r ∷ rs) = elim (Bool-cases (beats now score r b)) [
    | inl better ↦
        subst (λ x. Among x (b ∷ r ∷ rs)) (sym (best_from_better b r rs better))
          (inr (best_from-Among r rs))
    | inr worse ↦
        subst (λ x. Among x (b ∷ r ∷ rs)) (sym (best_from_worse b r rs worse))
          (further b r rs (best_from now score b rs) (best_from-Among b rs))
  ]

  best_lem :
      (b : Request) (rs : List Request) → best now score rs ≡ some b → Among b rs × Unbeaten b rs
  unfolding best
  best_lem b [] h = absurd (cc h)
  best_lem b (r ∷ rs) h =
      let ih = best_from-Unbeaten r rs in
      subst (λ x. Among x (r ∷ rs) × Unbeaten x (r ∷ rs)) (chosen_inj h)
        (best_from-Among r rs, (ih.0, ih.1))

-- A key that is granted a slot belongs to a waiting request that no waiting request beats; a slot was
-- free, one more is held, and no request of the key is left.
pub try_acquire_fair :
    (now : ℕ) (key : String) (s : Scheduler)
    → (try_acquire now key s).1 ≡ true
    → ((b : Request) × (b.key ≡ key) × Among b s.requests × Unbeaten now s.score b s.requests)
      × (s.active < s.limit)
      × ((try_acquire now key s).0.active ≡ s.active + 1)
      × (waits key (try_acquire now key s).0.requests ≡ false)
try_acquire_fair now key s h = elim (tried now key s) [
  | inl refused ↦ absurd (cc (rw refused at h))
  | inr (free, b, chosen, same, granted) ↦
      let l = best_lem now s.score b s.requests chosen in
      rw granted ((b, same, l.0, l.1), free, refl, delete_request-waits key s.requests)
]

-- Where a slot is free and a request waits, the key of some waiting request is granted the slot.
pub try_acquire_serves :
    (now : ℕ) (s : Scheduler) (r : Request) (rs : List Request)
    → s.requests ≡ r ∷ rs
    → s.active < s.limit
    → (b : Request) × Among b s.requests × ((try_acquire now b.key s).1 ≡ true)
try_acquire_serves now s r rs waiting free =
    let chosen = best_of_some now s r rs waiting in
    (
      best_from now s.score r rs,
      (best_lem now s.score _ s.requests chosen).0,
      granted_best now s _ free chosen,
    )
