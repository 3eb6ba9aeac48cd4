-- ===== src/Filter/Paths.antt =====
-- internal/filter/path_remove.go: the removal of JSON pointer paths. The filter works on a deep copy,
-- so the removal is a function of the value; a wildcard goes to every child, in whatever order.
pub mod Laws
pub mod Resolves
use Prim.Native.Char.{code}
use Prim.Native.String.{◌++◌ as text_append}
use kube_insight.Prelude.{
  String, Bool, true, false, not, ◌&&◌, ◌||◌, Option, none, some, ◌==◌, if◌then◌else◌, ℕ, zero, suc,
  ◌+◌, ◌*◌, ◌-◌, List, [], ◌∷◌, eqb, leb, ltb, map, is_empty, is_some,
}
use kube_insight.Prelude.Text.{trim_space}
use kube_insight.Prelude.Result.{ok}
use kube_insight.Core.{Observation}
use kube_insight.Json.{
  Value, Items, Fields, nil, cons, end, field, obj, arr, get, delete, set, as_obj,
}
use kube_insight.Filter.{Filter, Decision, keep, pass}
use kube_insight.Filter.Objects.{modified_by, removed_fields, fields_of}

-- strings.ReplaceAll(s, "~" + digit, with), for a one-character replacement.
replace_escape : (digit : ℕ) → (with : String) → String → String
replace_escape digit with String.[] = ""
replace_escape digit with (String.◌∷◌ c String.[]) = String.◌∷◌ c String.[]
replace_escape digit with (String.◌∷◌ c (String.◌∷◌ d s)) =
    let replaced = text_append with (replace_escape digit with s) in
    let kept = String.◌∷◌ c (replace_escape digit with (String.◌∷◌ d s)) in
    if eqb (code c) b'~' && eqb (code d) digit then replaced else kept

abbrev on_head : (String → String) → List String → List String
on_head f [] = []
on_head f (s ∷ ss) = f s ∷ ss

-- strings.Split(s, "/")
split_slash : String → List String
split_slash String.[] = "" ∷ []
split_slash (String.◌∷◌ c s) =
    let parts = split_slash s in
    if eqb (code c) b'/' then "" ∷ parts else on_head (λ t. String.◌∷◌ c t) parts

-- strings.TrimPrefix(s, "/")
trim_slash : String → String
trim_slash String.[] = ""
trim_slash (String.◌∷◌ c s) = if eqb (code c) b'/' then s else String.◌∷◌ c s

unescape : String → String
unfolding replace_escape
unescape part = replace_escape b'0' "~" (replace_escape b'1' "/" part)

unfoldable pub parse_pointer : String → List String
unfolding split_slash trim_slash unescape
parse_pointer path =
    let p = trim_space path in
    if p == "" || p == "/" then [] else map unescape (split_slash (trim_slash p))

-- strconv.Atoi, where a negative number, or one past int64, is as good as an error.
digits_from : ℕ → String → Option ℕ
digits_from n String.[] = some n
digits_from n (String.◌∷◌ c s) =
    let rest = digits_from (n * 10 + (code c - b'0')) s in
    if leb b'0' (code c) && leb (code c) b'9' then rest else none

unsigned : String → Option ℕ
unfolding digits_from
unsigned String.[] = none
unsigned (String.◌∷◌ c s) = digits_from 0 (String.◌∷◌ c s)

in_int64 : Option ℕ → Option ℕ
in_int64 none = none
in_int64 (some n) = if ltb n 0x8000000000000000 then some n else none

only_zero : Option ℕ → Option ℕ
only_zero none = none
only_zero (some n) = if eqb n 0 then some n else none

unfoldable pub index_of : String → Option ℕ
unfolding unsigned in_int64 only_zero
index_of String.[] = none
index_of (String.◌∷◌ c s) =
    if eqb (code c) b'+'
    then in_int64 (unsigned s)
    else if eqb (code c) b'-'
    then only_zero (unsigned s)
    else in_int64 (unsigned (String.◌∷◌ c s))

module _ (f : Value → Value × ℕ) where
  -- `for _, child := range typed`
  unfoldable pub each_field : Fields → Fields × ℕ
  each_field end = (end, 0)
  each_field (field k v m) =
      let (v', n) = f v in let (m', rest) = each_field m in (field k v' m', n + rest)

  unfoldable pub each_item : Items → Items × ℕ
  each_item nil = (nil, 0)
  each_item (cons v vs) =
      let (v', n) = f v in let (vs', rest) = each_item vs in (cons v' vs', n + rest)

  -- `typed[index]`, and nothing at an index that is out of range.
  unfoldable pub at_index : ℕ → Items → Items × ℕ
  at_index i nil = (nil, 0)
  at_index zero (cons v vs) = let (v', n) = f v in (cons v' vs, n)
  at_index (suc i) (cons v vs) = let (vs', n) = at_index i vs in (cons v vs', n)

  unfoldable pub at_key : String → Fields → Fields × ℕ
  at_key k m = elim (get k m) [
    | none ↦ (m, 0)
    | some child ↦ let (child', n) = f child in (set k child' m, n)
  ]

abbrev pub in_obj : Fields × ℕ → Value × ℕ
in_obj (m, n) = (obj m, n)

abbrev pub in_arr : Items × ℕ → Value × ℕ
in_arr (vs, n) = (arr vs, n)

delete_key : String → Fields → Fields × ℕ
delete_key k m = if is_some (get k m) then (delete k m, 1) else (m, 0)

-- One step of removePath: `last` when no part follows, and `f` the removal of the parts that do.
unfoldable pub remove_step : String → (last : Bool) → (Value → Value × ℕ) → Value → Value × ℕ
unfolding delete_key each_field at_key each_item at_index
remove_step part last f (obj m) =
    in_obj
      (if last then delete_key part m else if part == "*" then each_field f m else at_key f part m)
remove_step part last f (arr vs) = in_arr (
    if part == "*"
    then each_item f vs
    else elim (index_of part) [ none ↦ (vs, 0) | some i ↦ at_index f i vs ])
remove_step part last f v = (v, 0)

-- removePath: the value without what stood at the path, and how many fields were removed.
unfoldable pub remove_path : List String → Value → Value × ℕ
remove_path [] v = (v, 0)
remove_path (part ∷ parts) v = remove_step part (is_empty parts) (remove_path parts) v

-- The loop over the paths.
unfoldable pub remove_paths : List String → Value → Value × ℕ
remove_paths [] v = (v, 0)
remove_paths (path ∷ paths) v =
    let (v', n) = remove_path (parse_pointer path) v in
    let (v'', rest) = remove_paths paths v' in (v'', n + rest)

removed_from : List String → String → Observation → Fields → Observation × Decision
removed_from paths reason obs m =
    let (next, removed) = remove_paths paths (obj m) in
    if eqb removed 0
    then pass obs keep "paths_absent"
    else modified_by obs (fields_of (as_obj (some next)))
        (if reason == "" then "paths_removed" else reason) (removed_fields removed)

-- PathRemoveFilter.Apply
unfoldable pub path_remove_apply : List String → String → Observation → Observation × Decision
unfolding removed_from
path_remove_apply paths reason obs = elim obs.object [
  | none ↦ pass obs keep "remove_paths_absent"
  | some m ↦
      if is_empty paths
      then pass obs keep "remove_paths_absent"
      else removed_from paths reason obs m
]

-- PathRemoveFilter
unfoldable pub path_remove : String → String → List String → Filter
path_remove name reason paths = record {
  name = if not (name == "") then name else "path_remove_filter";
  apply = λ obs. ok (path_remove_apply paths reason obs);
}
