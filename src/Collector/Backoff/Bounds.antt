-- ===== src/Collector/Backoff/Bounds.antt =====
-- The delay before a retry, within bounds that no doubling leaves.
use Prim.Native.Nat.{◌-◌, ◌%◌, ◌/◌}
use native.Mathlib.Omega.{arith}
use native.Mathlib.Nat.{mod-eq_of_lt, mod-lt}
use kube_insight.Prelude.{
  ℕ, zero, suc, ◌+◌, ◌*◌, ◌<◌, ◌≤◌, true, false, ◌≡◌, if◌then◌else◌, Bool-cases, inl, inr, ltb, eqb,
  ap,
}
use kube_insight.Collector.Int.{ℤ, pos, negsuc, less_int}
use kube_insight.Collector.Backoff.{
  wrap, normalized_backoff, double, grow, retry_jitter, add_jitter, retry_delay, positive,
}

wrap_small : (n : ℕ) → n < 9223372036854775808 → wrap n ≡ pos n
unfolding wrap
wrap_small n h =
    let same : n % 18446744073709551616 ≡ n = mod-eq_of_lt (omega arith) in
    let low : ltb n 9223372036854775808 ≡ true = ground (arith, h) in rw (same, low)

double_small : (n : ℕ) → n < 4611686018427387904 → double (pos n) ≡ pos (n * 2)
unfolding double
double_small n h = wrap_small (n * 2) (omega arith)

-- A duration that is doubled a number of times, and the lesser of it and a bound.
abbrev pub doubled : ℕ → ℕ → ℕ
doubled zero n = n
doubled (suc times) n = doubled times (n * 2)

abbrev pub capped : ℕ → ℕ → ℕ
capped most n = if ltb most n then most else n

doubled_grows : (times n : ℕ) → n ≤ doubled times n
doubled_grows zero n = omega arith
doubled_grows (suc times) n = let ih = doubled_grows times (n * 2) in omega arith

capped_at : (most n : ℕ) → most ≤ n → capped most n ≡ most
capped_at most n h = ground (arith, h)

capped_le : (most n : ℕ) → capped most n ≤ most
capped_le most n = ground arith

-- One round of the loop of retryDelay, and the end of the loop.
grow_over :
    (rounds most delay : ℕ)
    → ltb delay most ≡ true
    → ltb most (delay * 2) ≡ true
    → double (pos delay) ≡ pos (delay * 2)
    → grow (suc rounds) (pos most) (pos delay) ≡ grow rounds (pos most) (pos most)
unfolding grow less_int
grow_over rounds most delay below over twice = rw (below, twice, less_int, over)

grow_under :
    (rounds most delay : ℕ)
    → ltb delay most ≡ true
    → ltb most (delay * 2) ≡ false
    → double (pos delay) ≡ pos (delay * 2)
    → grow (suc rounds) (pos most) (pos delay) ≡ grow rounds (pos most) (pos (delay * 2))
unfolding grow less_int
grow_under rounds most delay below under twice = rw (below, twice, less_int, under)

grow_end :
    (rounds most delay : ℕ)
    → ltb delay most ≡ false
    → grow (suc rounds) (pos most) (pos delay) ≡ pos delay
unfolding grow less_int
grow_end rounds most delay reached = rw reached

grow_lem :
    (rounds most delay : ℕ)
    → delay ≤ most
    → most < 4611686018427387904
    → grow rounds (pos most) (pos delay) ≡ pos (capped most (doubled rounds delay))
unfolding grow
grow_lem zero most delay low small = ground (arith, low)
grow_lem (suc rounds) most delay low small = elim (Bool-cases (ltb delay most)) [
  | inl below ↦
      let twice = double_small delay (omega arith) in
      elim (Bool-cases (ltb most (delay * 2))) [
        | inl over ↦
            let far : most ≤ doubled rounds (delay * 2) =
              ground (arith, over, doubled_grows rounds (delay * 2)) in
            rw (grow_over rounds most delay below over twice) (
              rw (
                grow_lem rounds most most (omega arith) small,
                capped_at most (doubled rounds most) (doubled_grows rounds most),
                capped_at most (doubled rounds (delay * 2)) far,
              ))
        | inr under ↦
            rw (grow_under rounds most delay below under twice)
              (grow_lem rounds most (delay * 2) (ground (arith, under)) small)
      ]
  | inr reached ↦
      let same : delay ≡ most = ground (arith, reached, low) in
      let far : most ≤ doubled rounds (delay * 2) =
        ground (arith, reached, doubled_grows rounds (delay * 2)) in
      rw (grow_end rounds most delay reached, capped_at most (doubled rounds (delay * 2)) far)
        (ap pos same)
]

jitter_le : (nanos delay : ℕ) → retry_jitter nanos (pos delay) ≤ delay
unfolding retry_jitter
jitter_le nanos delay = elim (Bool-cases (eqb (delay / 2) 0)) [
  | inl nothing ↦ rw nothing (omega arith)
  | inr window ↦
      let low : nanos % (delay / 2) < delay / 2 = mod-lt nanos (ground (arith, window)) in
      rw window (omega arith)
]

jittered :
    (most delay jitter : ℕ)
    → delay ≤ most
    → jitter ≤ delay
    → most < 4611686018427387904
    → let total = add_jitter (pos delay) jitter in
      (if less_int (pos most) total then pos most else total) ≡ pos (capped most (delay + jitter))
unfolding add_jitter less_int
jittered most delay jitter low small bound =
    let same = wrap_small (delay + jitter) (omega arith) in rw same (ground arith)

-- For bounds least ≤ most below 2 ^ 62 nanoseconds, neither of them negative: the delay before any attempt is at least the
-- least one doubled once for each attempt behind the first, as far as the bound goes, and never above
-- the bound.
pub retry_delay-bounds :
    (nanos attempt least most : ℕ)
    → least ≤ most
    → most < 4611686018427387904
    → (d : ℕ) × (retry_delay nanos attempt (pos least) (pos most) ≡ pos d)
      × (capped most (doubled (attempt - 1) least) ≤ d)
      × (d ≤ most)
unfolding retry_delay
retry_delay-bounds nanos attempt least most low small =
    let delay = capped most (doubled (attempt - 1) least) in
    let grown = grow_lem (attempt - 1) most least low small in
    let jitter = retry_jitter nanos (pos delay) in
    (
      capped most (delay + jitter),
      rw grown (jittered most delay jitter (capped_le most _) (jitter_le nanos delay) small),
      ground (arith, capped_le most (doubled (attempt - 1) least)),
      capped_le most (delay + jitter),
    )

-- Whatever bounds are configured, the normalized ones are positive and in order.
pub normalized_backoff-ordered :
    (x y : ℤ)
    → let b = normalized_backoff x y in
      (positive b.0 ≡ true) × (positive b.1 ≡ true) × (less_int b.1 b.0 ≡ false)
unfolding normalized_backoff less_int
normalized_backoff-ordered (pos m) (pos n) = ground arith
normalized_backoff-ordered (pos m) (negsuc n) = ground arith
normalized_backoff-ordered (negsuc m) (pos n) = ground arith
normalized_backoff-ordered (negsuc m) (negsuc n) = ground arith
