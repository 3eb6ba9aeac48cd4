-- ===== src/Collector/Int.antt =====
-- The integers that internal/collector/watch_tuning.go uses for scores, with their order.
use kube_insight.Prelude.{ℕ, Bool, true, false, ◌≡◌, refl, ltb, eqb, arith}

pub data ℤ : Type 0 where
  pos : ℕ → ℤ
  negsuc : ℕ → ℤ

unfoldable pub less_int : ℤ → ℤ → Bool
less_int (pos m) (pos n) = ltb m n
less_int (pos m) (negsuc n) = false
less_int (negsuc m) (pos n) = true
less_int (negsuc m) (negsuc n) = ltb n m

unfoldable pub same_int : ℤ → ℤ → Bool
same_int (pos m) (pos n) = eqb m n
same_int (pos m) (negsuc n) = false
same_int (negsuc m) (pos n) = false
same_int (negsuc m) (negsuc n) = eqb m n

pub less_int_irrefl : (a : ℤ) → less_int a a ≡ false
unfolding less_int
less_int_irrefl (pos m) = ground arith
less_int_irrefl (negsuc m) = ground arith

pub same_int-eq : (a b : ℤ) → same_int a b ≡ true → a ≡ b
unfolding same_int
same_int-eq (pos m) (pos n) h = ground (arith, h)
same_int-eq (pos m) (negsuc n) h = absurd (cc h)
same_int-eq (negsuc m) (pos n) h = absurd (cc h)
same_int-eq (negsuc m) (negsuc n) h = ground (arith, h)

-- Of the three comparisons of two integers one holds.
pub less_int_total : (a b : ℤ) → less_int a b ≡ false → same_int a b ≡ false → less_int b a ≡ true
unfolding less_int same_int
less_int_total (pos m) (pos n) h k = ground arith
less_int_total (pos m) (negsuc n) h k = refl
less_int_total (negsuc m) (pos n) h k = absurd (cc h)
less_int_total (negsuc m) (negsuc n) h k = ground arith

pub less_int_trans :
    (a b c : ℤ) → less_int a b ≡ false → less_int b c ≡ false → less_int a c ≡ false
unfolding less_int
less_int_trans (pos l) (pos m) (pos n) h k = ground arith
less_int_trans (pos l) (pos m) (negsuc n) h k = refl
less_int_trans (pos l) (negsuc m) (pos n) h k = absurd (cc k)
less_int_trans (pos l) (negsuc m) (negsuc n) h k = refl
less_int_trans (negsuc l) (pos m) c h k = absurd (cc h)
less_int_trans (negsuc l) (negsuc m) (pos n) h k = absurd (cc k)
less_int_trans (negsuc l) (negsuc m) (negsuc n) h k = ground arith

pub less_int_asym : (a b : ℤ) → less_int a b ≡ true → less_int b a ≡ false
unfolding less_int
less_int_asym (pos m) (pos n) h = ground arith
less_int_asym (pos m) (negsuc n) h = absurd (cc h)
less_int_asym (negsuc m) (pos n) h = refl
less_int_asym (negsuc m) (negsuc n) h = ground arith

pub same_int_sym : (a b : ℤ) → same_int a b ≡ same_int b a
unfolding same_int
same_int_sym (pos m) (pos n) = ground arith
same_int_sym (pos m) (negsuc n) = refl
same_int_sym (negsuc m) (pos n) = refl
same_int_sym (negsuc m) (negsuc n) = ground arith
