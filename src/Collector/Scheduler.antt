-- ===== src/Collector/Scheduler.antt =====
-- internal/collector/watch_tuning.go: the scheduler that shares out the slots for watch streams. Its
-- methods hold its lock from beginning to end, so each is one step; a request is known by its number,
-- as the source knows it by its pointer. The map of requests is the list of them, in any order.
pub mod Choice
pub mod Steps
use Prim.Native.Nat.{◌-◌}
use kube_insight.Prelude.{
  String, ℕ, zero, suc, ◌+◌, Bool, true, false, not, ◌&&◌, ◌||◌, Option, none, some, List, [], ◌∷◌,
  ◌==◌, if◌then◌else◌, ltb, leb, eqb,
}
use kube_insight.Collector.Int.{ℤ, pos, less_int, same_int}

pub record Request : Type 0 where
  pub key : String
  pub seq : ℕ
  pub queued_at : ℕ

-- The score of a key that has been queued for a time is none where the scheduler has no function.
pub record Scheduler : Type 0 where
  pub limit : ℕ
  pub active : ℕ
  pub next_seq : ℕ
  pub requests : List Request
  pub score : Option (String → ℕ → ℤ)

abbrev pub new_scheduler : ℕ → Option (String → ℕ → ℤ) → Scheduler
new_scheduler limit score = record {
  limit = limit;
  active = 0;
  next_seq = 0;
  requests = [];
  score = score;
}

unfoldable pub find_request : String → List Request → Option Request
find_request key [] = none
find_request key (r ∷ rs) = if r.key == key then some r else find_request key rs

unfoldable pub delete_request : String → List Request → List Request
delete_request key [] = []
delete_request key (r ∷ rs) =
    let rest = delete_request key rs in if r.key == key then rest else r ∷ rest

-- register, at a time.
unfoldable pub register : ℕ → String → Scheduler → Scheduler × Request
unfolding find_request
register now key s = elim (find_request key s.requests) [
  | some existing ↦ (s, existing)
  | none ↦
      let req : Request = record { key = key; seq = s.next_seq + 1; queued_at = now } in
      (record s { next_seq = s.next_seq + 1; requests = req ∷ s.requests }, req)
]

-- unregister
unfoldable pub unregister : Request → Scheduler → Scheduler
unfolding find_request delete_request
unregister req s = elim (find_request req.key s.requests) [
  | none ↦ s
  | some existing ↦
      if eqb existing.seq req.seq
      then record s { requests = delete_request req.key s.requests }
      else s
]

-- The score of a request at a time.
unfoldable pub score_of : ℕ → Option (String → ℕ → ℤ) → Request → ℤ
score_of now none r = pos 0
score_of now (some score) r = score r.key (now - r.queued_at)

-- The test of the loop of bestLocked: the first request is better than the second.
unfoldable pub beats : ℕ → Option (String → ℕ → ℤ) → Request → Request → Bool
unfolding score_of
beats now score r best =
    less_int (score_of now score best) (score_of now score r)
    || (same_int (score_of now score r) (score_of now score best) && ltb r.seq best.seq)

best_from : ℕ → Option (String → ℕ → ℤ) → Request → List Request → Request
unfolding beats
best_from now score best [] = best
best_from now score best (r ∷ rs) =
    best_from now score (if beats now score r best then r else best) rs

-- bestLocked
unfoldable pub best : ℕ → Option (String → ℕ → ℤ) → List Request → Option Request
unfolding best_from
best now score [] = none
best now score (r ∷ rs) = some (best_from now score r rs)

-- tryAcquire, at a time.
unfoldable pub try_acquire : ℕ → String → Scheduler → Scheduler × Bool
unfolding best delete_request
try_acquire now key s =
    if leb s.limit s.active then (s, false) else elim (best now s.score s.requests) [
      | none ↦ (s, false)
      | some b ↦
          if not (b.key == key)
          then (s, false)
          else (record s { requests = delete_request key s.requests; active = s.active + 1 }, true)
    ]

-- The function that releaseFunc returns.
unfoldable pub release : Scheduler → Scheduler
release s = if ltb 0 s.active then record s { active = s.active - 1 } else s
