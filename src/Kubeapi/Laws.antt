-- ===== src/Kubeapi/Laws.antt =====
-- What a resolver answers: the resource that was registered last under a kind, and names of
-- resources in lower case.
use Prim.Native.Char.{code}
use Prim.Native.String.{◌++◌ as text_append}
use text.Mathlib.TextLemmas.{nil-append, cons-append, append-nil}
use kube_insight.Prelude.{
  String, true, ◌≡◌, ◌≢◌, refl, ap, none, some, [], ◌∷◌, arith, ◌==◌, eq_iff, eq_refl,
  if◌then◌else◌, Bool-cases, inl, inr,
}
use kube_insight.Prelude.Text.{to_lower, lower_char}
use kube_insight.Kubeapi.{
  ResourceInfo, Resolver, Table, lookup, insert, register, gvk_key, resolve_gvk, split_slash,
  split_api_version, api_version,
}

pub lookup-insert :
    (k j : String) (info : ResourceInfo) (m : Table)
    → lookup j (insert k info m) ≡ (if k == j then some info else lookup j m)
unfolding lookup insert
lookup-insert k j info [] = refl
lookup-insert k j info ((name, old) ∷ rest) =
    ground (arith, lookup-insert k j info rest, eq_iff name k, eq_iff name j, eq_iff k j)

-- A resource with a kind and a name that was just registered is found under its group, version and
-- kind, with its name in lower case, whatever was registered before.
pub resolve_gvk-register :
    (info : ResourceInfo) (r : Resolver)
    → info.kind ≢ ""
    → info.resource ≢ ""
    → resolve_gvk (register info r) info.group info.version info.kind
      ≡ (record info { resource = to_lower info.resource }, true)
unfolding resolve_gvk register
resolve_gvk-register info r has_kind has_resource = ground (
  arith,
  eq_iff info.kind "",
  eq_iff info.resource "",
  lookup-insert (gvk_key info.group info.version info.kind)
      (gvk_key info.group info.version info.kind)
      (record info { resource = to_lower info.resource }) r.by_gvk,
  eq_refl (gvk_key info.group info.version info.kind),
)

-- No slash stands in the text.
abbrev pub NoSlash : String → Type 0
NoSlash String.[] = Unit
NoSlash (String.◌∷◌ c s) = (code c ≢ b'/') × NoSlash s

split_slash-append :
    (s t : String) → NoSlash s → split_slash (text_append s (text_append "/" t)) ≡ some (s, t)
unfolding split_slash
split_slash-append String.[] t h = rw (nil-append, cons-append) (rw nil-append)
split_slash-append (String.◌∷◌ c s) t h =
    rw cons-append (rw (split_slash-append s t h.1) (ground arith))

split_slash-none : (s : String) → NoSlash s → split_slash s ≡ none
unfolding split_slash
split_slash-none String.[] h = refl
split_slash-none (String.◌∷◌ c s) h = rw (split_slash-none s h.1) (ground arith)

split_of_some :
    (s : String) {parts : String × String}
    → split_slash s ≡ some parts
    → split_api_version s ≡ parts
unfolding split_api_version
split_of_some s h = rw (h, split_api_version)

split_of_none : (s : String) → split_slash s ≡ none → split_api_version s ≡ ("", s)
unfolding split_api_version
split_of_none s h = rw (h, split_api_version)

-- The apiVersion that a group and a version make splits into them again, for a group without a slash
-- and, in the core group, a version without one.
pub split-api_version :
    (group version : String)
    → NoSlash group
    → (group ≡ "" → NoSlash version)
    → split_api_version (api_version group version) ≡ (group, version)
split-api_version group version h k = elim (Bool-cases (group == "")) [
  | inl core ↦
      let same : group ≡ "" = (eq_iff group "").0 core in
      rw core (rw (split_of_none version (split_slash-none version (k same))) (rw same))
  | inr other ↦
      rw other (rw (append-nil version) (split_of_some _ (split_slash-append group version h)))
]

to_lower-append :
    (s t : String) → to_lower (text_append s t) ≡ text_append (to_lower s) (to_lower t)
unfolding to_lower
to_lower-append String.[] t = rw (nil-append, nil-append)
to_lower-append (String.◌∷◌ c s) t =
    rw (cons-append, cons-append) (ap (λ u. String.◌∷◌ (lower_char c) u) (to_lower-append s t))
