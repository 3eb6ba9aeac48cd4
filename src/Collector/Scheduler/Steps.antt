-- ===== src/Collector/Scheduler/Steps.antt =====
-- What the scheduler keeps under its methods, in whatever order they are called.
use kube_insight.Prelude.{
  String, ℕ, ◌+◌, ◌<◌, ◌≤◌, Bool, true, false, Option, none, some, List, [], ◌∷◌, ◌≡◌, refl, ◌==◌,
  eq_iff, arith, Bool-cases, Option-cases, inl, inr, any, ltb, leb, eqb, ◌⊎◌,
}
use kube_insight.Collector.Int.{ℤ}
use kube_insight.Collector.Scheduler.{
  Request, Scheduler, new_scheduler, find_request, delete_request, register, unregister, best,
  try_acquire, release,
}

-- Some request has the key.
abbrev pub waits : String → List Request → Bool
waits key rs = any (λ r. r.key == key) rs

-- One request for each key, and numbers that fall along the list from below a bound.
abbrev pub Ordered : ℕ → List Request → Type 0
Ordered bound [] = Unit
Ordered bound (r ∷ rs) = (waits r.key rs ≡ false) × (r.seq < bound) × Ordered r.seq rs

abbrev pub IsSound : Scheduler → Type 0
IsSound s = (s.active ≤ s.limit) × Ordered (s.next_seq + 1) s.requests

-- One call of a method.
pub data Step : Scheduler → Scheduler → Type 0 where
  registers : (now : ℕ) (key : String) (s : Scheduler) → Step s (register now key s).0
  unregisters : (req : Request) (s : Scheduler) → Step s (unregister req s)
  tries : (now : ℕ) (key : String) (s : Scheduler) → Step s (try_acquire now key s).0
  releases : (s : Scheduler) → Step s (release s)

-- The states that calls lead to from a new scheduler.
pub data Reachable (limit : ℕ) (score : Option (String → ℕ → ℤ)) : Scheduler → Type 0 where
  starts : Reachable limit score (new_scheduler limit score)
  steps : {s next : Scheduler} → Reachable limit score s → Step s next → Reachable limit score next

waits-delete :
    (k key : String) (rs : List Request)
    → waits k rs ≡ false
    → waits k (delete_request key rs) ≡ false
unfolding delete_request
waits-delete k key [] h = refl
waits-delete k key (r ∷ rs) h = ground (arith, waits-delete k key rs)

Ordered-mono : (m n : ℕ) (rs : List Request) → m ≤ n → Ordered m rs → Ordered n rs
Ordered-mono m n [] le h = tt
Ordered-mono m n (r ∷ rs) le h = (h.0, omega arith, h.2)

pub delete-Ordered :
    (key : String) (bound : ℕ) (rs : List Request)
    → Ordered bound rs
    → Ordered bound (delete_request key rs)
unfolding delete_request
delete-Ordered key bound [] h = tt
delete-Ordered key bound (r ∷ rs) h = elim (Bool-cases (r.key == key)) [
  | inl same ↦ rw same (Ordered-mono r.seq bound _ (omega arith) (delete-Ordered key r.seq rs h.2))
  | inr other ↦ rw other (waits-delete r.key key rs h.0, h.1, delete-Ordered key r.seq rs h.2)
]

find_request-none :
    (key : String) (rs : List Request) → find_request key rs ≡ none → waits key rs ≡ false
unfolding find_request
find_request-none key [] h = refl
find_request-none key (r ∷ rs) h = ground (arith, find_request-none key rs)

register-IsSound :
    (now : ℕ) (key : String) (s : Scheduler) → IsSound s → IsSound (register now key s).0
unfolding register
register-IsSound now key s h = elim (Option-cases (find_request key s.requests)) [
  | inl absent ↦
      rw (register, absent) (h.0, (find_request-none key s.requests absent, omega arith, h.1))
  | inr (existing, present) ↦ rw (register, present) h
]

unregister-IsSound : (req : Request) (s : Scheduler) → IsSound s → IsSound (unregister req s)
unfolding unregister
unregister-IsSound req s h = elim (Option-cases (find_request req.key s.requests)) [
  | inl absent ↦ rw (unregister, absent) h
  | inr (existing, present) ↦ elim (Bool-cases (eqb existing.seq req.seq)) [
    | inl same ↦
        rw (unregister, present, same) (h.0, delete-Ordered req.key (s.next_seq + 1) s.requests h.1)
    | inr other ↦ rw (unregister, present, other) h
  ]
]

-- A try leaves the scheduler as it was, or it takes the request out and a slot that was free.
pub tried :
    (now : ℕ) (key : String) (s : Scheduler)
    → (try_acquire now key s ≡ (s, false))
      ⊎ ((s.active < s.limit)
          × (b : Request) × (best now s.score s.requests ≡ some b)
          × (b.key ≡ key)
          × (try_acquire now key s ≡ (
            record s { requests = delete_request key s.requests; active = s.active + 1 },
            true,
          )))
unfolding try_acquire
tried now key s = elim (Bool-cases (leb s.limit s.active)) [
  | inl full ↦ inl (rw (try_acquire, full))
  | inr free ↦ elim (Option-cases (best now s.score s.requests)) [
    | inl nobody ↦ inl (rw (try_acquire, free, nobody))
    | inr (b, chosen) ↦ elim (Bool-cases (b.key == key)) [
      | inl same ↦ inr (
        ground (arith, free),
        b,
        chosen,
        (eq_iff b.key key).0 same,
        rw (try_acquire, free, chosen, same),
      )
      | inr other ↦ inl (rw (try_acquire, free, chosen, other))
    ]
  ]
]

try_acquire-IsSound :
    (now : ℕ) (key : String) (s : Scheduler) → IsSound s → IsSound (try_acquire now key s).0
try_acquire-IsSound now key s h = elim (tried now key s) [
  | inl refused ↦ rw refused h
  | inr (free, b, chosen, same, granted) ↦
      rw granted (omega arith, delete-Ordered key (s.next_seq + 1) s.requests h.1)
]

release-IsSound : (s : Scheduler) → IsSound s → IsSound (release s)
unfolding release
release-IsSound s h = elim (Bool-cases (ltb 0 s.active)) [
  | inl held ↦ rw held (omega arith, h.1)
  | inr free ↦ rw free h
]

Step-IsSound : (s next : Scheduler) → Step s next → IsSound s → IsSound next
Step-IsSound _ _ (registers now key s) h = register-IsSound now key s h
Step-IsSound _ _ (unregisters req s) h = unregister-IsSound req s h
Step-IsSound _ _ (tries now key s) h = try_acquire-IsSound now key s h
Step-IsSound _ _ (releases s) h = release-IsSound s h

-- In every state that calls of the methods lead to from a new scheduler, in whatever order: no more
-- slots are held than the limit, each key has one request at most, and the numbers of the requests
-- differ and were all given out.
pub Reachable-IsSound :
    (limit : ℕ) (score : Option (String → ℕ → ℤ)) (s : Scheduler)
    → Reachable limit score s
    → IsSound s
Reachable-IsSound limit score s starts = (omega arith, tt)
Reachable-IsSound limit score s (steps before step) =
    Step-IsSound _ s step (Reachable-IsSound limit score _ before)
