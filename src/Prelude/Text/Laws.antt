-- ===== src/Prelude/Text/Laws.antt =====
-- Trimming and lower-casing commute, and each is idempotent.
use Prim.Native.Nat.{ℕ, zero, suc, ◌+◌, ◌-◌, ◌≤◌, ◌<◌}
use Prim.Native.Char.{Char, code}
use Prim.Native.String.{String, [], ◌∷◌, char_at}
use mathlib.Core.Path.{◌≡◌, refl, sym, ap, ◌∙◌}
use mathlib.Core.Logic.{◌⊎◌, inl, inr}
use mathlib.Core.Bool.{Bool, true, false, ◌&&◌}
use native.Mathlib.Omega.{arith}
use kube_insight.Prelude.Tests.{eqb, Bool-cases}
use kube_insight.Prelude.Text.{
  is_space, is_upper, lower_char, to_lower, trim_left, trim_cons, trim_right, trim_space,
}

abbrev lower_letter : ℕ → Char
lower_letter n = char_at "abcdefghijklmnopqrstuvwxyz" n

-- A test that the numbers `lo`, `lo + 1`, … pass, `count` of them.
passes : (ℕ → Bool) → (lo count : ℕ) → Bool
passes test lo zero = true
passes test lo (suc count) = test lo && passes test (lo + 1) count

passed :
    (test : ℕ → Bool) (lo count i : ℕ)
    → passes test lo count ≡ true
    → lo ≤ i
    → i < lo + count
    → test i ≡ true
unfolding passes
passed test lo zero i done low high = absurd (omega arith)
passed test lo (suc count) i done low high = elim (Bool-cases (eqb lo i)) [
  | inl here ↦ ground (arith, here)
  | inr above ↦ passed test (lo + 1) count i (ground arith) (ground arith) (omega arith)
]

letter_table : passes (λ n. eqb (code (lower_letter n)) (n + 97)) 0 26 ≡ true
unfolding passes
letter_table = refl

code-lower_letter : (n : ℕ) → n < 26 → code (lower_letter n) ≡ n + 97
code-lower_letter n h =
    ground (arith, passed (λ m. eqb (code (lower_letter m)) (m + 97)) 0 26 n letter_table)

code-lower_char :
    (c : Char)
    → ((is_upper c ≡ true) × (97 ≤ code (lower_char c)) × (code (lower_char c) ≤ 122))
      ⊎ ((is_upper c ≡ false) × (lower_char c ≡ c))
unfolding lower_char
code-lower_char c = elim (Bool-cases (is_upper c)) [
  | inl h ↦ inl (
    h,
    ground (arith, code-lower_letter (code c - 65)),
    ground (arith, code-lower_letter (code c - 65)),
  )
  | inr h ↦ inr (h, rw h)
]

not-is_upper : (c : Char) → 97 ≤ code c → is_upper c ≡ false
unfolding is_upper
not-is_upper c h = ground arith

lower_char_fixed : (c : Char) → is_upper c ≡ false → lower_char c ≡ c
unfolding lower_char
lower_char_fixed c h = rw h

pub lower_char_idem : (c : Char) → lower_char (lower_char c) ≡ lower_char c
lower_char_idem c = elim (code-lower_char c) [
  | inl (up, low, high) ↦ lower_char_fixed (lower_char c) (not-is_upper (lower_char c) low)
  | inr (down, same) ↦ ap lower_char same
]

pub to_lower_idem : (s : String) → to_lower (to_lower s) ≡ to_lower s
unfolding to_lower
to_lower_idem [] = refl
to_lower_idem (c ∷ s) = rw (lower_char_idem c, to_lower_idem s)

is_space-letter : (c : Char) → 97 ≤ code c → code c ≤ 122 → is_space c ≡ false
is_space-letter c low high = ground arith

is_space-upper : (c : Char) → is_upper c ≡ true → is_space c ≡ false
unfolding is_upper
is_space-upper c h = ground arith

is_space-lower_char : (c : Char) → is_space (lower_char c) ≡ is_space c
is_space-lower_char c = elim (code-lower_char c) [
  | inl (up, low, high) ↦ is_space-letter (lower_char c) low high ∙ sym (is_space-upper c up)
  | inr (down, same) ↦ ap (λ d. is_space d) same
]

trim_left-to_lower : (s : String) → trim_left (to_lower s) ≡ to_lower (trim_left s)
unfolding trim_left to_lower
trim_left-to_lower [] = refl
trim_left-to_lower (c ∷ s) = elim (Bool-cases (is_space c)) [
  | inl h ↦ rw (is_space-lower_char c, h) (trim_left-to_lower s)
  | inr h ↦ rw (is_space-lower_char c, h)
]

trim_cons-to_lower :
    (c : Char) (s : String) → trim_cons (lower_char c) (to_lower s) ≡ to_lower (trim_cons c s)
unfolding trim_cons to_lower
trim_cons-to_lower c [] = elim (Bool-cases (is_space c)) [
  | inl h ↦ rw (is_space-lower_char c, h)
  | inr h ↦ rw (is_space-lower_char c, h)
]
trim_cons-to_lower c (d ∷ s) = refl

trim_right-to_lower : (s : String) → trim_right (to_lower s) ≡ to_lower (trim_right s)
unfolding trim_right to_lower
trim_right-to_lower [] = refl
trim_right-to_lower (c ∷ s) =
    ap (trim_cons (lower_char c)) (trim_right-to_lower s) ∙ trim_cons-to_lower c (trim_right s)

pub trim_space-to_lower : (s : String) → trim_space (to_lower s) ≡ to_lower (trim_space s)
unfolding trim_space
trim_space-to_lower s = ap trim_right (trim_left-to_lower s) ∙ trim_right-to_lower (trim_left s)

trim_right-trim_cons :
    (c : Char) (s : String) → trim_right s ≡ s → trim_right (trim_cons c s) ≡ trim_cons c s
unfolding trim_right trim_cons
trim_right-trim_cons c [] h = elim (Bool-cases (is_space c)) [ inl e ↦ rw e | inr e ↦ rw e (rw e) ]
trim_right-trim_cons c (d ∷ s) h = rw (h, trim_cons)

trim_right_idem : (s : String) → trim_right (trim_right s) ≡ trim_right s
unfolding trim_right
trim_right_idem [] = refl
trim_right_idem (c ∷ s) = trim_right-trim_cons c (trim_right s) (trim_right_idem s)

-- The first character, when there is one, is no space.
abbrev NoLead : String → Type 0
NoLead [] = Unit
NoLead (c ∷ s) = is_space c ≡ false

trim_left-NoLead : (s : String) → NoLead (trim_left s)
unfolding trim_left
trim_left-NoLead [] = tt
trim_left-NoLead (c ∷ s) = elim (Bool-cases (is_space c)) [
  | inl h ↦ rw h (trim_left-NoLead s)
  | inr h ↦ rw h h
]

trim_left_fixed : (s : String) → NoLead s → trim_left s ≡ s
unfolding trim_left
trim_left_fixed [] h = refl
trim_left_fixed (c ∷ s) h = rw h

trim_cons-NoLead : (c : Char) (s : String) → is_space c ≡ false → NoLead (trim_cons c s)
unfolding trim_cons
trim_cons-NoLead c [] h = rw h h
trim_cons-NoLead c (d ∷ s) h = h

trim_right-NoLead : (s : String) → NoLead s → NoLead (trim_right s)
unfolding trim_right
trim_right-NoLead [] h = tt
trim_right-NoLead (c ∷ s) h = trim_cons-NoLead c (trim_right s) h

pub trim_space_idem : (s : String) → trim_space (trim_space s) ≡ trim_space s
unfolding trim_space
trim_space_idem s =
    ap trim_right (
      trim_left_fixed (trim_right (trim_left s))
        (trim_right-NoLead (trim_left s) (trim_left-NoLead s)))
    ∙ trim_right_idem (trim_left s)
