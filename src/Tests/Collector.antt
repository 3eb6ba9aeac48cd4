-- ===== src/Tests/Collector.antt =====
-- Runs of the scheduler of watch streams and of the delays between attempts.
use Prim.Native.Nat.{◌-◌}
use kube_insight.Prelude.{
  String, ℕ, ◌+◌, ◌<◌, ◌≤◌, true, false, Option, some, [], ◌∷◌, ◌≡◌, refl, ◌==◌, arith,
  if◌then◌else◌,
}
use kube_insight.Collector.Int.{same_int, ℤ, pos, negsuc, less_int}
use kube_insight.Collector.Scheduler.{Request, Scheduler, new_scheduler, register, try_acquire}
use kube_insight.Collector.Scheduler.Steps.{
  waits, IsSound, Reachable, starts, steps, registers, tries, Reachable-IsSound,
}
use kube_insight.Collector.Scheduler.Choice.{Among, Unbeaten, try_acquire_fair, try_acquire_serves}
use kube_insight.Collector.Backoff.{retry_delay}
use kube_insight.Collector.Backoff.Bounds.{capped, doubled, retry_delay-bounds}

-- Pods come first.
abbrev score : Option (String → ℕ → ℤ)
score = some (λ key waited. if key == "/v1/pods" then pos 100 else negsuc 0)

abbrev request : String → ℕ → Request
request key seq = record { key = key; seq = seq; queued_at = 0 }

abbrev crowded : Scheduler
crowded = record (new_scheduler 1 score) {
  next_seq = 2;
  requests = request "/v1/pods" 2 ∷ request "/v1/events" 1 ∷ [];
}

granted : (try_acquire 5 "/v1/pods" crowded).1 ≡ true
unfolding try_acquire less_int same_int
granted = refl

refused : (try_acquire 5 "/v1/events" crowded).1 ≡ false
unfolding try_acquire less_int same_int
refused = refl

try_acquire_fair_example :
    ((b : Request) × (b.key ≡ "/v1/pods")
      × Among b crowded.requests
      × Unbeaten 5 crowded.score b crowded.requests)
    × (crowded.active < crowded.limit)
    × ((try_acquire 5 "/v1/pods" crowded).0.active ≡ crowded.active + 1)
    × (waits "/v1/pods" (try_acquire 5 "/v1/pods" crowded).0.requests ≡ false)
try_acquire_fair_example = try_acquire_fair 5 "/v1/pods" crowded granted

try_acquire_serves_example :
    (b : Request) × Among b crowded.requests × ((try_acquire 5 b.key crowded).1 ≡ true)
try_acquire_serves_example =
    try_acquire_serves 5 crowded (request "/v1/pods" 2) (request "/v1/events" 1 ∷ []) refl
      (omega arith)

abbrev registered : Scheduler
registered = (register 0 "/v1/pods" (new_scheduler 1 score)).0

registered-Reachable : Reachable 1 score registered
registered-Reachable = steps starts (registers 0 "/v1/pods" (new_scheduler 1 score))

Reachable-IsSound_example : IsSound (try_acquire 1 "/v1/pods" registered).0
Reachable-IsSound_example =
    Reachable-IsSound 1 score (try_acquire 1 "/v1/pods" registered).0
      (steps registered-Reachable (tries 1 "/v1/pods" registered))

third : retry_delay 7 3 (pos 500) (pos 30000) ≡ pos 2007
unfolding retry_delay
third = refl

retry_delay-bounds_example :
    (d : ℕ) × (retry_delay 7 3 (pos 500) (pos 30000) ≡ pos d)
    × (capped 30000 (doubled (3 - 1) 500) ≤ d)
    × (d ≤ 30000)
retry_delay-bounds_example = retry_delay-bounds 7 3 500 30000 (omega arith) (omega arith)
