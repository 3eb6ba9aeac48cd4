-- ===== src/Kubeapi/Target.antt =====
-- internal/kubeapi/resolver.go: what a reference by group, version and resource points to. A slice
-- beyond the end of a text panics in the source: such a call is none here. Resource names are taken to
-- be ASCII.
use Prim.Native.Char.{Char, code}
use Prim.Native.String.{char_at}
use Prim.Native.Nat.{◌-◌}
use mathlib.Core.Path.{subst, sym}
use kube_insight.Prelude.{
  String, Bool, true, false, not, ◌&&◌, ◌||◌, Option, none, some, ◌≡◌, ◌≢◌, ◌==◌, eq_iff, eq_refl,
  leb, if◌then◌else◌, arith, [], ◌∷◌,
}
use kube_insight.Prelude.Text.{to_lower, concat}
use kube_insight.Core.{ResourceRef}
use kube_insight.Kubeapi.{
  ResourceInfo, Resolver, lookup, register, gvk_key, group_kind_key, at_version, trim_suffix,
  cluster_scoped_kind, split_slash, split_api_version, resolve_gvk,
}
use kube_insight.Kubeapi.Laws.{lookup-insert}

upper_char : Char → Char
upper_char c =
    if leb b'a' (code c) && leb (code c) b'z'
    then char_at "ABCDEFGHIJKLMNOPQRSTUVWXYZ" (code c - 97)
    else c

-- `strings.ToUpper(s[:1]) + s[1:]`
capital : String → Option String
unfolding upper_char
capital String.[] = none
capital (String.◌∷◌ c s) = some (String.◌∷◌ (upper_char c) s)

fallback_kind : String → Option String
unfolding trim_suffix capital
fallback_kind resource = if resource == "" then some "" else capital (trim_suffix "s" resource)

-- fallbackInfo, as ResolveGVR calls it: with no kind.
fallback_of : (group version resource : String) → Option ResourceInfo
unfolding fallback_kind cluster_scoped_kind
fallback_of group version resource = elim (fallback_kind resource) [
  | none ↦ none
  | some kind ↦ some (record {
    group = group;
    version = if version == "" then "v1" else version;
    resource = resource;
    kind = kind;
    namespaced = if group == "" then not (cluster_scoped_kind kind) else true;
    verbs = [];
  })
]

-- ResolveGVR, of a name in lower case: the resource, and whether the resolver knows it.
resolve_name : Resolver → (group version name : String) → Option (ResourceInfo × Bool)
unfolding fallback_of
resolve_name r group version name = elim (lookup (gvk_key group version name) r.by_gvr) [
  | some info ↦ some (info, true)
  | none ↦ elim (lookup (group_kind_key group name) r.by_group_resource) [
    | some info ↦ some (at_version version info, true)
    | none ↦ elim (if group == "" then lookup name r.by_resource else none) [
      | some info ↦ some (at_version version info, true)
      | none ↦ elim (fallback_of group version name) [
        | none ↦ none
        | some info ↦ some (info, false)
      ]
    ]
  ]
]

unfoldable pub resolve_gvr :
    Resolver → (group version resource : String) → Option (ResourceInfo × Bool)
unfolding resolve_name
resolve_gvr r group version resource = resolve_name r group version (to_lower resource)

abbrev has_slash : String → Bool
has_slash s = elim (split_slash s) [ none ↦ false | some parts ↦ true ]

-- ResolveTarget, which leaves the cluster and the UID of the reference empty.
unfoldable pub resolve_target :
    Resolver → (group version kind resource namespace name : String) → Option (ResourceRef × Bool)
unfolding resolve_gvr split_slash
resolve_target r group version kind resource namespace name =
    let parts =
      if group == "" && not (version == "") && has_slash version
      then split_api_version version
      else (group, version) in
    elim (if resource == ""
      then some (resolve_gvk r parts.0 parts.1 kind)
      else resolve_gvr r parts.0 parts.1 resource) [
        | none ↦ none
        | some (info, known) ↦ some (
          record {
            cluster_id = "";
            group = info.group;
            version = info.version;
            resource = info.resource;
            kind = info.kind;
            namespace = namespace;
            name = name;
            uid = "";
          },
          known,
        )
      ]

unfoldable pub is_namespaced_kind : Resolver → String → Bool
is_namespaced_kind r kind =
    let (info, known) = resolve_gvk r "" "" kind in not known || info.namespaced

unfoldable pub logical_path : ResourceRef → String
logical_path ref =
    let prefix =
      if ref.group == "" then ref.resource else concat (ref.group ∷ "/" ∷ ref.resource ∷ []) in
    if ref.namespace == ""
    then concat (prefix ∷ "/" ∷ ref.name ∷ [])
    else concat (prefix ∷ "/" ∷ ref.namespace ∷ "/" ∷ ref.name ∷ [])

-- A resource with a kind and a name that was just registered is found under its group, version and
-- name, in whatever case the name is asked for, whatever was registered before.
pub resolve_gvr-register :
    (info : ResourceInfo) (r : Resolver) (resource : String)
    → info.kind ≢ ""
    → info.resource ≢ ""
    → to_lower resource ≡ to_lower info.resource
    → resolve_gvr (register info r) info.group info.version resource
      ≡ some (record info { resource = to_lower info.resource }, true)
unfolding resolve_gvr register
resolve_gvr-register info r resource has_kind has_resource same = ground (
  arith,
  eq_iff info.kind "",
  eq_iff info.resource "",
  same,
  lookup-insert (gvk_key info.group info.version (to_lower info.resource))
      (gvk_key info.group info.version (to_lower info.resource))
      (record info { resource = to_lower info.resource }) r.by_gvr,
  eq_refl (gvk_key info.group info.version (to_lower info.resource)),
)

resolve_name_s :
    (r : Resolver) (group version : String)
    → lookup (gvk_key group version "s") r.by_gvr ≡ none
    → lookup (group_kind_key group "s") r.by_group_resource ≡ none
    → lookup "s" r.by_resource ≡ none
    → resolve_name r group version "s" ≡ none
unfolding resolve_name
resolve_name_s r group version exact in_group plain = ground (arith, exact, in_group, plain)

-- For a resource named `s`, in either case, that the resolver does not know, ResolveGVR panics,
-- whatever the group and the version.
pub resolve_gvr_panics :
    (r : Resolver) (group version resource : String)
    → to_lower resource ≡ "s"
    → lookup (gvk_key group version "s") r.by_gvr ≡ none
    → lookup (group_kind_key group "s") r.by_group_resource ≡ none
    → lookup "s" r.by_resource ≡ none
    → resolve_gvr r group version resource ≡ none
unfolding resolve_gvr
resolve_gvr_panics r group version resource named exact in_group plain =
    subst (λ name. resolve_name r group version name ≡ none) (sym named)
      (resolve_name_s r group version exact in_group plain)
