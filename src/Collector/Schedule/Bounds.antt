-- ===== src/Collector/Schedule/Bounds.antt =====
-- How far a score can go.
use Prim.Native.Nat.{◌/◌}
use kube_insight.Prelude.{
  ℕ, ◌+◌, ◌*◌, ◌≤◌, true, false, Option, none, some, ◌≡◌, refl, arith, String, Bool-cases, inl, inr,
  leb,
}
use kube_insight.Profile.{Profile}
use kube_insight.Collector.Int.{ℤ, pos, negsuc, less_int}
use kube_insight.Collector.Watch.{WatchSummary}
use kube_insight.Collector.Schedule.{
  lesser, difference, priority_score, queue_score, activity_score, trouble_score,
  watch_schedule_score,
}

lesser-bound : (a b : ℕ) → lesser a b ≤ a
lesser-bound a b = ground arith

priority_score-bound : (priority : String) → priority_score priority ≤ 100
unfolding priority_score
priority_score-bound priority = ground arith

trouble_score-bound : (summary : Option WatchSummary) → trouble_score summary ≤ 120
unfolding trouble_score
trouble_score-bound none = ground arith
trouble_score-bound (some s) = ground arith

queue_score-bound : (queued_for : ℕ) → queue_score queued_for ≤ 80
unfolding queue_score
queue_score-bound queued_for = lesser-bound 80 (queued_for / 60000000000 * 20)

activity_score-bound : (summary : Option WatchSummary) → activity_score summary ≤ 50
unfolding activity_score
activity_score-bound none = ground arith
activity_score-bound (some s) = lesser-bound 50 (s.events * 5 + s.bookmarks * 2)

-- At least -120 and at most 230.
abbrev pub Moderate : ℤ → Type 0
Moderate score = (less_int score (negsuc 119) ≡ false) × (less_int (pos 230) score ≡ false)

difference-Moderate : (gain loss : ℕ) → gain ≤ 230 → loss ≤ 120 → Moderate (difference gain loss)
unfolding difference less_int
difference-Moderate gain loss few little = elim (Bool-cases (leb loss gain)) [
  | inl up ↦ rw (difference, up) (ground arith)
  | inr down ↦ rw (difference, down) (ground arith)
]

moderate_above :
    (score : ℤ) → less_int score (negsuc 119) ≡ false → less_int (negsuc 99999) score ≡ true
unfolding less_int
moderate_above (pos n) h = refl
moderate_above (negsuc n) h = ground arith

-- The score of a resource whose profile is enabled lies between -120 and 230, and so above that of
-- every resource whose profile is disabled, however long that one has waited.
pub watch_schedule_score-Moderate :
    (profile other : Profile) (summary before : Option WatchSummary) (waited queued : ℕ)
    → profile.enabled ≡ true
    → other.enabled ≡ false
    → Moderate (watch_schedule_score profile summary queued)
      × (less_int
            (watch_schedule_score other before waited)
            (watch_schedule_score profile summary queued)
          ≡ true)
unfolding watch_schedule_score
watch_schedule_score-Moderate profile other summary before waited queued on off =
    let gain = priority_score profile.priority + queue_score queued + activity_score summary in
    let moderate =
      difference-Moderate gain (trouble_score summary)
        (omega (
          arith,
          priority_score-bound profile.priority,
          queue_score-bound queued,
          activity_score-bound summary,
        ))
        (trouble_score-bound summary) in
    rw (watch_schedule_score, on, off) (moderate, moderate_above _ moderate.0)
