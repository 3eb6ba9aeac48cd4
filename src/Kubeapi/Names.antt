-- ===== src/Kubeapi/Names.antt =====
-- The names of resources in the maps of a resolver are in lower case.
pub mod Resolved
use Prim.Native.Char.{Char}
use Prim.Native.String.{◌++◌ as text_append}
use mathlib.Core.Option
use text.Mathlib.TextLemmas.{nil-append, cons-append}
use kube_insight.Prelude.{
  String, Bool, true, false, not, ◌≡◌, refl, Option, none, some, List, [], ◌∷◌, arith, ◌==◌,
  if◌then◌else◌, Option-cases, Bool-cases, inl, inr, All, is_some, ◌||◌, is_empty,
}
use kube_insight.Prelude.Text.{to_lower, lower_char}
use kube_insight.Prelude.Text.Laws.{lower_char_idem}
use kube_insight.Json.{Value, Fields, get, get_opt, as_obj, str_or_empty}
use kube_insight.Kubeapi.{
  ResourceInfo, Resolver, Table, lookup, insert, insert_core, register, register_lower,
  register_all, custom_resource, register_version, register_versions, register_names, register_crd,
  register_from_object, gvk_key, group_kind_key, resolve_gvk, at_version, fallback_resource,
  strip_suffix, trim_suffix, has_suffix, empty, resource_ref_from_object, split_api_version,
}

abbrev pub IsLower : String → Type 0
IsLower String.[] = Unit
IsLower (String.◌∷◌ c s) = (lower_char c ≡ c) × IsLower s

pub to_lower-IsLower : (s : String) → IsLower (to_lower s)
unfolding to_lower
to_lower-IsLower String.[] = tt
to_lower-IsLower (String.◌∷◌ c s) = (lower_char_idem c, to_lower-IsLower s)

append-IsLower : (s t : String) → IsLower s → IsLower t → IsLower (text_append s t)
append-IsLower String.[] t h k = rw nil-append k
append-IsLower (String.◌∷◌ c s) t h k = rw cons-append (h.0, append-IsLower s t h.1 k)

-- What is left of a text when a suffix is cut off, where it has the suffix.
abbrev RestIsLower : Option String → Type 0
RestIsLower none = Unit
RestIsLower (some t) = IsLower t

map_cons-IsLower :
    (c : Char) (o : Option String)
    → lower_char c ≡ c
    → RestIsLower o
    → RestIsLower (Option.map (λ t. String.◌∷◌ c t) o)
map_cons-IsLower c none h k = tt
map_cons-IsLower c (some t) h k = (h, k)

strip_suffix-IsLower : (suffix s : String) → IsLower s → RestIsLower (strip_suffix suffix s)
unfolding strip_suffix
strip_suffix-IsLower suffix String.[] h = elim (Bool-cases (suffix == "")) [
  | inl e ↦ rw e tt
  | inr e ↦ rw e tt
]
strip_suffix-IsLower suffix (String.◌∷◌ c s) h =
    let ih = map_cons-IsLower c (strip_suffix suffix s) h.0 (strip_suffix-IsLower suffix s h.1) in
    elim (Bool-cases (String.◌∷◌ c s == suffix)) [ inl e ↦ rw e tt | inr e ↦ rw e ih ]

trim_suffix-IsLower : (suffix s : String) → IsLower s → IsLower (trim_suffix suffix s)
unfolding trim_suffix
trim_suffix-IsLower suffix s h =
    let kept = strip_suffix-IsLower suffix s h in
    elim (Option-cases (strip_suffix suffix s)) [
      | inl e ↦ rw (e, trim_suffix) h
      | inr (t, e) ↦ rw (e, trim_suffix) (rw e at kept)
    ]

plural_endings : IsLower "ies" × IsLower "es" × IsLower "s"
unfolding lower_char
plural_endings = ((refl, (refl, (refl, tt))), (refl, (refl, tt)), (refl, tt))

if-IsLower : (b : Bool) (s t : String) → IsLower s → IsLower t → IsLower (if b then s else t)
if-IsLower true s t h k = h
if-IsLower false s t h k = k

fallback_resource-IsLower : (kind : String) → IsLower (fallback_resource kind)
unfolding fallback_resource
fallback_resource-IsLower kind =
    let base = to_lower-IsLower kind in
    if-IsLower (kind == "") _ _ tt (
      if-IsLower (has_suffix "y" (to_lower kind)) _ _
        (append-IsLower _ "ies" (trim_suffix-IsLower "y" (to_lower kind) base) plural_endings.0)
        (if-IsLower
          (has_suffix "s" (to_lower kind)
            || has_suffix "x" (to_lower kind)
            || has_suffix "ch" (to_lower kind)
            || has_suffix "sh" (to_lower kind))
          _ _ (append-IsLower (to_lower kind) "es" base plural_endings.1)
          (append-IsLower (to_lower kind) "s" base plural_endings.2)))

-- Every entry of a map has its resource in lower case.
abbrev AllLower : Table → Type 0
AllLower m = All (λ (e : String × ResourceInfo). IsLower e.1.resource) m

pub record HasLowerNames (r : Resolver) : Type 0 where
  pub gvk : AllLower r.by_gvk
  pub group_kind : AllLower r.by_group_kind
  pub kind : AllLower r.by_kind
  pub gvr : AllLower r.by_gvr
  pub group_resource : AllLower r.by_group_resource
  pub resource : AllLower r.by_resource

insert-AllLower :
    (key : String) (info : ResourceInfo) (m : Table)
    → IsLower info.resource
    → AllLower m
    → AllLower (insert key info m)
unfolding insert
insert-AllLower key info [] h k = (h, tt)
insert-AllLower key info ((j, old) ∷ m) h k = elim (Bool-cases (j == key)) [
  | inl e ↦ rw e (h, k.1)
  | inr e ↦ rw e (k.0, insert-AllLower key info m h k.1)
]

insert_core-AllLower :
    (key : String) (info : ResourceInfo) (m : Table)
    → IsLower info.resource
    → AllLower m
    → AllLower (insert_core key info m)
unfolding insert_core
insert_core-AllLower key info m h k =
    elim (Bool-cases (not (is_some (lookup key m)) || info.group == "")) [
      | inl e ↦ rw e (insert-AllLower key info m h k)
      | inr e ↦ rw e k
    ]

register_lower-HasLowerNames :
    (info : ResourceInfo) (r : Resolver)
    → IsLower info.resource
    → HasLowerNames r
    → HasLowerNames (register_lower info r)
unfolding register_lower
register_lower-HasLowerNames info r h k = record {
  gvk = insert-AllLower _ info r.by_gvk h k.gvk;
  group_kind = insert-AllLower _ info r.by_group_kind h k.group_kind;
  kind = insert_core-AllLower _ info r.by_kind h k.kind;
  gvr = insert-AllLower _ info r.by_gvr h k.gvr;
  group_resource = insert-AllLower _ info r.by_group_resource h k.group_resource;
  resource = insert_core-AllLower _ info r.by_resource h k.resource;
}

pub register-HasLowerNames :
    (info : ResourceInfo) (r : Resolver) → HasLowerNames r → HasLowerNames (register info r)
unfolding register
register-HasLowerNames info r k = elim (Bool-cases (info.kind == "" || info.resource == "")) [
  | inl e ↦ rw e k
  | inr e ↦ rw e (
      register_lower-HasLowerNames (record info { resource = to_lower info.resource }) r
        (to_lower-IsLower info.resource) k)
]

pub register_all-HasLowerNames :
    (infos : List ResourceInfo) (r : Resolver)
    → HasLowerNames r
    → HasLowerNames (register_all infos r)
unfolding register_all
register_all-HasLowerNames [] r k = k
register_all-HasLowerNames (info ∷ infos) r k =
    register_all-HasLowerNames infos (register info r) (register-HasLowerNames info r k)

pub empty-HasLowerNames : HasLowerNames empty
empty-HasLowerNames = record {
  gvk = tt;
  group_kind = tt;
  kind = tt;
  gvr = tt;
  group_resource = tt;
  resource = tt;
}

lookup-IsLower :
    (key : String) (m : Table) (info : ResourceInfo)
    → AllLower m
    → lookup key m ≡ some info
    → IsLower info.resource
unfolding lookup
lookup-IsLower key [] info h e = cc
lookup-IsLower key ((j, old) ∷ m) info h e = elim (Bool-cases (j == key)) [
  | inl same ↦ let found : old ≡ info = ground arith in rw (← found) h.0
  | inr other ↦ lookup-IsLower key m info h.1 (ground arith)
]
