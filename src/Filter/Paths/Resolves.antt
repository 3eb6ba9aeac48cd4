-- ===== src/Filter/Paths/Resolves.antt =====
-- What the count of removed fields says: whether a pointer names a field.
use kube_insight.Filter.Paths.Laws.{at_key-none, at_key-some}
use kube_insight.Prelude.{
  String, Bool, true, false, Option, none, some, ◌≡◌, ◌≢◌, refl, if◌then◌else◌, ℕ, zero, suc, List,
  [], ◌∷◌, arith, Option-cases, inl, inr, eq_iff, is_empty,
}
use kube_insight.Json.{Value, Items, Fields, nil, cons, obj, arr, get, delete, as_obj}
use kube_insight.Json.Laws.{get-delete, get-set}
use kube_insight.Filter.Paths.{
  at_index, at_key, delete_key, remove_step, remove_path, index_of, path_remove_apply,
}
use kube_insight.Core.{Observation}
use kube_insight.Filter.Objects.Laws.{Honest}

abbrev item_at : ℕ → Items → Option Value
item_at i nil = none
item_at zero (cons v vs) = some v
item_at (suc i) (cons v vs) = item_at i vs

-- Whether a pointer without wildcards names a field of an object within the value.
pub resolves : List String → Value → Bool
resolves [] v = false
resolves (part ∷ parts) (obj m) = elim (get part m) [
  | none ↦ false
  | some child ↦ let deeper = resolves parts child in if is_empty parts then true else deeper
]
resolves (part ∷ parts) (arr vs) = elim (index_of part) [
  | none ↦ false
  | some i ↦ elim (item_at i vs) [ none ↦ false | some child ↦ resolves parts child ]
]
resolves (part ∷ parts) _ = false

abbrev pub NoWildcard : List String → Type 0
NoWildcard [] = Unit
NoWildcard (part ∷ parts) = (part ≢ "*") × NoWildcard parts

abbrev pub one_if : Bool → ℕ
one_if b = if b then 1 else 0

at_index_item :
    (f : Value → Value × ℕ) (i : ℕ) (vs : Items)
    → (at_index f i vs).1 ≡ elim (item_at i vs) [ none ↦ 0 | some child ↦ (f child).1 ]
unfolding at_index
at_index_item f i nil = refl
at_index_item f zero (cons v vs) = refl
at_index_item f (suc i) (cons v vs) = at_index_item f i vs

at_key_count :
    (f : Value → Value × ℕ) (k : String) (m : Fields)
    → (at_key f k m).1 ≡ elim (get k m) [ none ↦ 0 | some child ↦ (f child).1 ]
unfolding at_key
at_key_count f k m = ground arith

-- For a pointer without a wildcard the count of removed fields is one where the pointer resolves, and
-- zero elsewhere.
pub remove_path-resolves :
    (parts : List String) (v : Value)
    → NoWildcard parts
    → (remove_path parts v).1 ≡ one_if (resolves parts v)
unfolding remove_path remove_step delete_key resolves
remove_path-resolves [] v plain = refl
remove_path-resolves (part ∷ []) (obj m) plain = ground arith
remove_path-resolves (part ∷ p ∷ ps) (obj m) plain = elim (Option-cases (get part m)) [
  | inl e ↦ ground (arith, e, eq_iff part "*", at_key_count (remove_path (p ∷ ps)) part m)
  | inr (child, e) ↦ ground (
    arith,
    e,
    eq_iff part "*",
    at_key_count (remove_path (p ∷ ps)) part m,
    remove_path-resolves (p ∷ ps) child,
  )
]
remove_path-resolves (part ∷ parts) (arr vs) plain = elim (Option-cases (index_of part)) [
  | inl e ↦ ground (arith, e, eq_iff part "*")
  | inr (i, e) ↦ elim (Option-cases (item_at i vs)) [
    | inl out ↦ ground (arith, e, out, eq_iff part "*", at_index_item (remove_path parts) i vs)
    | inr (child, found) ↦ ground (
      arith,
      e,
      found,
      eq_iff part "*",
      at_index_item (remove_path parts) i vs,
      remove_path-resolves parts child,
    )
  ]
]
remove_path-resolves (part ∷ parts) _ plain = refl

pub path_remove-Honest :
    (paths : List String) (reason : String) (obs : Observation)
    → Honest obs (path_remove_apply paths reason obs)
unfolding path_remove_apply
path_remove-Honest paths reason obs = ground arith

-- The first part of a path, for a path that has one.
abbrev pub head_part : List String → String
head_part [] = ""
head_part (part ∷ parts) = part

-- The object that a removal leaves, given the object.
abbrev pub remains : List String → Fields → Option Fields
remains parts m = as_obj (some (remove_path parts (obj m)).0)

at_key_other :
    (f : Value → Value × ℕ) (k j : String) (m : Fields) → k ≢ j → get j (at_key f k m).0 ≡ get j m
at_key_other f k j m ne = elim (Option-cases (get k m)) [
  | inl e ↦ rw (at_key-none f k m e)
  | inr (v, e) ↦ rw (at_key-some f k m e) (ground (arith, get-set j k (f v).0 m, eq_iff k j))
]

-- The removal of a path, other than one that begins with a wildcard, leaves an object, and in it every
-- field as it was that the path does not begin with.
pub remains_other :
    (parts : List String) (m : Fields) (j : String)
    → head_part parts ≢ j
    → head_part parts ≢ "*"
    → (m' : Fields) × (remains parts m ≡ some m') × (get j m' ≡ get j m)
unfolding remove_path remove_step delete_key
remains_other [] m j ne plain = (m, refl, refl)
remains_other (part ∷ []) m j ne plain = elim (Option-cases (get part m)) [
  | inl e ↦ (m, rw e, refl)
  | inr (v, e) ↦ (delete part m, rw e, ground (arith, get-delete j part m, eq_iff part j))
]
remains_other (part ∷ p ∷ ps) m j ne plain = (
  (at_key (remove_path (p ∷ ps)) part m).0,
  ground (arith, eq_iff part "*"),
  at_key_other (remove_path (p ∷ ps)) part j m ne,
)
