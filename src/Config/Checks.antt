-- ===== src/Config/Checks.antt =====
-- What a sequence of checks that all pass says.
use kube_insight.Prelude.{
  String, Bool, true, false, Option, none, some, List, [], ◌∷◌, ◌≡◌, refl, All,
}
use kube_insight.Collector.Int.{ℤ}
use kube_insight.Config.{then_check, check_all}
use kube_insight.Config.Settings.{is_negative}
use kube_insight.Config.Validation.{reject, check_counts}

pub then_check-none :
    (first second : Option String)
    → then_check first second ≡ none
    → (first ≡ none) × (second ≡ none)
unfolding then_check
then_check-none none second h = (refl, h)
then_check-none (some e) second h = absurd (cc h)

pub check_all-none :
    {A : Type 0} (check : A → Option String) (xs : List A)
    → check_all check xs ≡ none
    → All (λ x. check x ≡ none) xs
unfolding check_all
check_all-none check [] h = tt
check_all-none check (x ∷ xs) h =
    let (one, rest) = then_check-none (check x) (check_all check xs) h in
    (one, check_all-none check xs rest)

pub reject-none : (bad : Bool) (message : String) → reject bad message ≡ none → bad ≡ false
reject-none true message h = absurd (cc h)
reject-none false message h = refl

pub check_counts-none :
    (counts : List ℤ) → check_counts counts ≡ none → All (λ n. is_negative n ≡ false) counts
unfolding check_all
check_counts-none [] h = tt
check_counts-none (n ∷ ns) h =
    let (one, rest) =
      then_check-none (reject (is_negative n) "must be non-negative") (check_counts ns) h in
    (reject-none (is_negative n) "must be non-negative" one, check_counts-none ns rest)
