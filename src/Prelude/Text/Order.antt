-- ===== src/Prelude/Text/Order.antt =====
-- Go's `<` on texts, by bytes: the order of the code points.
use Prim.Native.Nat.{Ordering, compare as compare_nat}
use Prim.Native.Char.{Char, code}
use Prim.Native.String.{String, [], ◌∷◌, compare}
use Prim.Native.String.compare
use mathlib.Core.Path.{◌≡◌, refl}
use mathlib.Core.Bool.{Bool, true, false}
use native.Mathlib.Omega.{arith}

abbrev pub less : String → String → Bool
less s t = elim (compare s t) [ Ordering.lt ↦ true | _ ↦ false ]

less_cons :
    (c d : Char) (s t : String)
    → less (c ∷ s) (d ∷ t) ≡ elim (compare_nat (code c) (code d)) [
      | Ordering.lt ↦ true
      | Ordering.eq ↦ less s t
      | Ordering.gt ↦ false
    ]
less_cons c d s t = ground (arith, compare.cons-cons c d s t)

pub less_asym : (s t : String) → less s t ≡ true → less t s ≡ false
less_asym [] [] h = refl
less_asym [] (d ∷ t) h = ground (arith, compare.cons-nil d t)
less_asym (c ∷ s) [] h = ground (arith, compare.cons-nil c s)
less_asym (c ∷ s) (d ∷ t) h = ground (arith, less_cons c d s t, less_cons d c t s, less_asym s t)

pub less_irrefl : (s : String) → less s s ≡ false
less_irrefl [] = refl
less_irrefl (c ∷ s) = ground (arith, less_cons c c s s, less_irrefl s)

pub less_trans : (s t u : String) → less s t ≡ true → less t u ≡ true → less s u ≡ true
less_trans [] [] u h k = ground arith
less_trans [] (d ∷ t) [] h k = ground (arith, compare.cons-nil d t)
less_trans [] (d ∷ t) (e ∷ u) h k = ground (arith, compare.nil-cons e u)
less_trans (c ∷ s) [] u h k = ground (arith, compare.cons-nil c s)
less_trans (c ∷ s) (d ∷ t) [] h k = ground (arith, compare.cons-nil d t)
less_trans (c ∷ s) (d ∷ t) (e ∷ u) h k =
    ground (arith, less_cons c d s t, less_cons d e t u, less_cons c e s u, less_trans s t u)
