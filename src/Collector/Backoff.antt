-- ===== src/Collector/Backoff.antt =====
-- internal/collector/watch_tuning.go: how long the watch of a resource waits before it tries again. A
-- duration is a number of nanoseconds in 64 bits, and an addition or a doubling wraps around. `nanos`
-- is the clock that the jitter reads, not before 1970.
pub mod Bounds
use Prim.Native.Nat.{◌-◌, ◌%◌, ◌/◌}
use kube_insight.Prelude.{
  String, ℕ, zero, suc, ◌+◌, ◌*◌, Bool, true, false, not, ◌&&◌, ◌||◌, if◌then◌else◌, ltb, leb, eqb,
}
use kube_insight.Collector.Int.{ℤ, pos, negsuc, less_int}

-- The number that 64 bits make of a sum that is not negative.
unfoldable pub wrap : ℕ → ℤ
wrap n =
    let bits = n % 18446744073709551616 in
    if ltb bits 9223372036854775808 then pos bits else negsuc (18446744073709551615 - bits)

abbrev pub positive : ℤ → Bool
positive d = less_int (pos 0) d

-- normalizedBackoff: 500 milliseconds and 30 seconds stand for what is not positive.
unfoldable pub normalized_backoff : ℤ → ℤ → ℤ × ℤ
unfolding less_int
normalized_backoff min_backoff max_backoff =
    let least = if positive min_backoff then min_backoff else pos 500000000 in
    let most = if positive max_backoff then max_backoff else pos 30000000000 in
    (least, if less_int most least then least else most)

-- `d * 2` in 64 bits; a number below zero wraps as its distance from 2 ^ 64 does.
unfoldable pub double : ℤ → ℤ
unfolding wrap
double (pos n) = wrap (n * 2)
double (negsuc n) = wrap (18446744073709551616 - (n * 2 + 2) % 18446744073709551616)

-- The loop of retryDelay, with the rounds that are left.
unfoldable pub grow : ℕ → ℤ → ℤ → ℤ
unfolding less_int double
grow zero most delay = delay
grow (suc rounds) most delay =
    let doubled = double delay in
    let rest = grow rounds most (if less_int most doubled then most else doubled) in
    if less_int delay most then rest else delay

-- retryJitter
unfoldable pub retry_jitter : ℕ → ℤ → ℕ
retry_jitter nanos (pos delay) = if eqb (delay / 2) 0 then 0 else nanos % (delay / 2)
retry_jitter nanos (negsuc n) = 0

-- A duration and its jitter, which is 0 for one that is not positive.
unfoldable pub add_jitter : ℤ → ℕ → ℤ
unfolding wrap
add_jitter (pos delay) jitter = wrap (delay + jitter)
add_jitter (negsuc n) jitter = negsuc n

-- retryDelay. An attempt below 1 counts as the first.
unfoldable pub retry_delay : ℕ → ℕ → ℤ → ℤ → ℤ
unfolding grow retry_jitter add_jitter less_int
retry_delay nanos attempt least most =
    let delay = grow (attempt - 1) most least in
    let jittered = add_jitter delay (retry_jitter nanos delay) in
    if less_int most jittered then most else jittered
