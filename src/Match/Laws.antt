-- ===== src/Match/Laws.antt =====
-- Normal forms of names, and lists of patterns without repetition.
use kube_insight.Prelude.{
  String, ◌≡◌, refl, ap, ◌∙◌, ◌≢◌, Bool, false, ◌||◌, List, [], ◌∷◌, arith, contains, ◌==◌, eq_iff,
}
use kube_insight.Prelude.Text.{trim_space, to_lower}
use kube_insight.Prelude.Text.Laws.{to_lower_idem, trim_space-to_lower, trim_space_idem}
use kube_insight.Match.{normalize, unique_from, normalize_values}

-- Normalising a name twice is normalising it once.
pub normalize_idem : (s : String) → normalize (normalize s) ≡ normalize s
unfolding normalize
normalize_idem s =
    ap to_lower (trim_space-to_lower (trim_space s))
    ∙ (to_lower_idem (trim_space (trim_space s)) ∙ ap to_lower (trim_space_idem s))

-- Every text of the list stands there once, is its own normal form and is not empty.
abbrev pub IsNormalSet : List String → List String → Type 0
IsNormalSet seen [] = Unit
IsNormalSet seen (v ∷ vs) =
    (contains seen v ≡ false) × (normalize v ≡ v) × (v ≢ "") × IsNormalSet (v ∷ seen) vs

unique_from-IsNormalSet : (seen values : List String) → IsNormalSet seen (unique_from seen values)
unfolding unique_from
unique_from-IsNormalSet seen [] = tt
unique_from-IsNormalSet seen (value ∷ values) = ground (
  arith,
  unique_from-IsNormalSet seen values,
  unique_from-IsNormalSet (normalize value ∷ seen) values,
  normalize_idem value,
  eq_iff (normalize value) "",
)

-- Where a text is kept: some value has it as normal form, and it is neither empty nor seen.
abbrev pub normal_form_of : List String → String → Bool
normal_form_of [] s = false
normal_form_of (v ∷ vs) s = normalize v == s || normal_form_of vs s

unique_from-contains :
    (seen values : List String) (s : String)
    → s ≢ ""
    → contains seen s ≡ false
    → contains (unique_from seen values) s ≡ normal_form_of values s
unfolding unique_from
unique_from-contains seen [] s ne h = refl
unique_from-contains seen (value ∷ values) s ne h = ground (
  arith,
  unique_from-contains seen values s ne,
  unique_from-contains (normalize value ∷ seen) values s ne,
  eq_iff (normalize value) "",
  eq_iff (normalize value) s,
)

unique_from_fixed :
    (seen values : List String) → IsNormalSet seen values → unique_from seen values ≡ values
unfolding unique_from
unique_from_fixed seen [] h = refl
unique_from_fixed seen (v ∷ vs) h = ground (arith, unique_from_fixed (v ∷ seen) vs, eq_iff v "", h)

-- NormalizeValues returns each normal form once and no empty text, and nothing is left to do for it
-- on its own result.
pub normalize_values-IsNormalSet :
    (values : List String)
    → IsNormalSet [] (normalize_values values)
      × (normalize_values (normalize_values values) ≡ normalize_values values)
unfolding normalize_values
normalize_values-IsNormalSet values =
    let normal = unique_from-IsNormalSet [] values in
    (normal, unique_from_fixed [] (unique_from [] values) normal)

-- A text other than the empty one is in the result of NormalizeValues exactly when it is the normal
-- form of a given value.
pub contains-normalize_values :
    (values : List String) (s : String)
    → s ≢ ""
    → contains (normalize_values values) s ≡ normal_form_of values s
unfolding normalize_values
contains-normalize_values values s ne = unique_from-contains [] values s ne refl
