-- ===== src/Config.antt =====
-- internal/config: what a configuration says, and what makes it valid. The reading of YAML, of the
-- environment and of overrides is left out. An error is some text; a check that passes is none.
pub mod Names
pub mod Processing
pub mod Settings
pub mod Profiles
pub mod Validation
pub mod Checks
use kube_insight.Prelude.{String, Bool, Option, none, some, List, [], ◌∷◌}

-- The first error of two checks.
unfoldable pub then_check : Option String → Option String → Option String
then_check first second = elim first [ some e ↦ some e | none ↦ second ]

-- The first error of a check in a loop.
unfoldable pub check_all {ℓ} : {A : Type ℓ} → (A → Option String) → List A → Option String
unfolding then_check
check_all check [] = none
check_all check (x ∷ xs) = then_check (check x) (check_all check xs)
