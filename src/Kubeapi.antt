-- ===== src/Kubeapi.antt =====
-- internal/kubeapi/resolver.go: what kind of resource an object is. The six maps of a resolver are
-- association lists under the keys that the source builds; its lock is left out, since every method
-- holds it from its first read or write to its last.
pub mod Standard
pub mod Laws
pub mod Names
pub mod Target
use Prim.Native.Char.{code}
use Prim.Native.Nat.{◌-◌}
use Prim.Native.String.{◌++◌ as text_append}
use mathlib.Core.Option
use kube_insight.Prelude.{
  String, Bool, true, false, not, ◌&&◌, ◌||◌, Option, none, some, List, [], ◌∷◌, ◌==◌, eqb, is_some,
  if◌then◌else◌, contains, is_empty, ◌++◌, map,
}
use kube_insight.Prelude.Text.{to_lower, concat}
use kube_insight.Json.{Value, Fields, obj, get, get_opt, as_obj, as_arr, str_or_empty}
use kube_insight.Core.{ResourceRef}

pub record ResourceInfo : Type 0 where
  pub group : String
  pub version : String
  pub resource : String
  pub kind : String
  pub namespaced : Bool
  pub verbs : List String

abbrev pub Table : Type 0
Table = List (String × ResourceInfo)

-- `m[key]`, and `m[key] = info`.
unfoldable pub lookup : String → Table → Option ResourceInfo
lookup key [] = none
lookup key ((k, info) ∷ m) = if k == key then some info else lookup key m

unfoldable pub insert : String → ResourceInfo → Table → Table
insert key info [] = (key, info) ∷ []
insert key info ((k, old) ∷ m) = if k == key then (key, info) ∷ m else (k, old) ∷ insert key info m

pub record Resolver : Type 0 where
  pub by_gvk : Table
  pub by_group_kind : Table
  pub by_kind : Table
  pub by_gvr : Table
  pub by_group_resource : Table
  pub by_resource : Table

abbrev pub empty : Resolver
empty = record {
  by_gvk = [];
  by_group_kind = [];
  by_kind = [];
  by_gvr = [];
  by_group_resource = [];
  by_resource = [];
}

abbrev pub gvk_key : String → String → String → String
gvk_key group version kind = concat (group ∷ "\0" ∷ version ∷ "\0" ∷ kind ∷ [])

abbrev pub group_kind_key : String → String → String
group_kind_key group kind = concat (group ∷ "\0" ∷ kind ∷ [])

-- A write that only the core group may use to replace an entry.
unfoldable pub insert_core : String → ResourceInfo → Table → Table
insert_core key info m =
    if not (is_some (lookup key m)) || info.group == "" then insert key info m else m

register_lower : ResourceInfo → Resolver → Resolver
unfolding insert_core
register_lower info r = record {
  by_gvk = insert (gvk_key info.group info.version info.kind) info r.by_gvk;
  by_group_kind = insert (group_kind_key info.group info.kind) info r.by_group_kind;
  by_kind = insert_core info.kind info r.by_kind;
  by_gvr = insert (gvk_key info.group info.version info.resource) info r.by_gvr;
  by_group_resource = insert (group_kind_key info.group info.resource) info r.by_group_resource;
  by_resource = insert_core info.resource info r.by_resource;
}

-- Resolver.Register
unfoldable pub register : ResourceInfo → Resolver → Resolver
unfolding register_lower
register info r =
    if info.kind == "" || info.resource == ""
    then r
    else register_lower (record info { resource = to_lower info.resource }) r

unfoldable pub register_all : List ResourceInfo → Resolver → Resolver
register_all [] r = r
register_all (info ∷ infos) r = register_all infos (register info r)

-- SplitAPIVersion: the group in front of the first slash, and the version behind it.
split_slash : String → Option (String × String)
split_slash String.[] = none
split_slash (String.◌∷◌ c s) =
    let later =
      Option.map (λ (parts : String × String). (String.◌∷◌ c parts.0, parts.1)) (split_slash s) in
    if eqb (code c) b'/' then some ("", s) else later

unfoldable pub split_api_version : String → String × String
unfolding split_slash
split_api_version api_version = elim (split_slash api_version) [
  | some parts ↦ parts
  | none ↦ ("", api_version)
]

abbrev pub api_version : String → String → String
api_version group version = if group == "" then version else concat (group ∷ "/" ∷ version ∷ [])

-- strings.HasSuffix, and strings.TrimSuffix of a text that has the suffix.
strip_suffix : String → String → Option String
strip_suffix suffix String.[] = if suffix == "" then some "" else none
strip_suffix suffix (String.◌∷◌ c s) =
    let later = Option.map (λ t. String.◌∷◌ c t) (strip_suffix suffix s) in
    if String.◌∷◌ c s == suffix then some "" else later

abbrev has_suffix : String → String → Bool
has_suffix suffix s = is_some (strip_suffix suffix s)

trim_suffix : String → String → String
unfolding strip_suffix
trim_suffix suffix s = elim (strip_suffix suffix s) [ none ↦ s | some t ↦ t ]

fallback_resource : String → String
unfolding trim_suffix to_lower
fallback_resource kind =
    let base = to_lower kind in
    if kind == ""
    then ""
    else if has_suffix "y" base
    then text_append (trim_suffix "y" base) "ies"
    else if has_suffix "s" base
        || has_suffix "x" base
        || has_suffix "ch" base
        || has_suffix "sh" base
    then text_append base "es"
    else text_append base "s"

cluster_scoped_kinds : List String
cluster_scoped_kinds =
    "APIService" ∷ "ClusterIssuer" ∷ "ClusterRole" ∷ "ClusterRoleBinding"
    ∷ "CustomResourceDefinition" ∷ "GatewayClass" ∷ "Group" ∷ "MutatingWebhookConfiguration"
    ∷ "Namespace" ∷ "Node" ∷ "PersistentVolume" ∷ "PriorityClass" ∷ "StorageClass" ∷ "User"
    ∷ "ValidatingWebhookConfiguration" ∷ []

cluster_scoped_kind : String → Bool
unfolding cluster_scoped_kinds
cluster_scoped_kind kind = contains cluster_scoped_kinds kind

-- fallbackInfo, as ResolveGVK calls it: with no resource.
unfoldable pub fallback_info : (group version kind : String) → ResourceInfo
unfolding fallback_resource cluster_scoped_kind
fallback_info group version kind = record {
  group = group;
  version = if version == "" then "v1" else version;
  resource = fallback_resource kind;
  kind = kind;
  namespaced = if group == "" then not (cluster_scoped_kind kind) else true;
  verbs = [];
}

-- `if version != "" { info.Version = version }`
abbrev pub at_version : String → ResourceInfo → ResourceInfo
at_version version info = if not (version == "") then record info { version = version } else info

-- ResolveGVK: the resource, and whether the resolver knows it.
unfoldable pub resolve_gvk : Resolver → (group version kind : String) → ResourceInfo × Bool
unfolding fallback_info
resolve_gvk r group version kind = elim (lookup (gvk_key group version kind) r.by_gvk) [
  | some info ↦ (info, true)
  | none ↦ elim (lookup (group_kind_key group kind) r.by_group_kind) [
    | some info ↦ (at_version version info, true)
    | none ↦ elim (if group == "" then lookup kind r.by_kind else none) [
      | some info ↦ (at_version version info, true)
      | none ↦ (fallback_info group version kind, false)
    ]
  ]
]

abbrev pub custom_resource : (group kind plural : String) → Bool → (version : String) → ResourceInfo
custom_resource group kind plural namespaced version = record {
  group = group;
  version = version;
  resource = plural;
  kind = kind;
  namespaced = namespaced;
  verbs = [];
}

-- What RegisterCRD does with a version: nothing, unless it has a name.
unfoldable pub register_version :
    (group kind plural : String) → Bool → (version : String) → Resolver → Resolver
unfolding register
register_version group kind plural namespaced version r =
    if version == "" then r else register (custom_resource group kind plural namespaced version) r

-- The loop of RegisterCRD over the versions of a definition.
register_versions : (group kind plural : String) → Bool → List Value → Resolver → Resolver
unfolding register_version
register_versions group kind plural namespaced [] r = r
register_versions group kind plural namespaced (v ∷ vs) r =
    register_versions group kind plural namespaced vs (
      register_version group kind plural namespaced
        (str_or_empty (get_opt "name" (as_obj (some v)))) r)

abbrev pub or_empty_list : Option (List Value) → List Value
or_empty_list none = []
or_empty_list (some vs) = vs

-- RegisterCRD, from the fields that it reads on.
unfoldable pub register_names :
    (group kind plural version : String) → Bool → List Value → Resolver → Resolver
unfolding register_versions
register_names group kind plural version namespaced versions r =
    if group == "" || kind == "" || plural == ""
    then r
    else if is_empty versions
    then register_version group kind plural namespaced version r
    else register_versions group kind plural namespaced versions r

-- RegisterCRD
unfoldable pub register_crd : Fields → Resolver → Resolver
register_crd object r =
    let spec = as_obj (get "spec" object) in
    let names = as_obj (get_opt "names" spec) in
    register_names (str_or_empty (get_opt "group" spec)) (str_or_empty (get_opt "kind" names))
      (str_or_empty (get_opt "plural" names)) (str_or_empty (get_opt "version" spec))
      (not (str_or_empty (get_opt "scope" spec) == "Cluster"))
      (or_empty_list (as_arr (get_opt "versions" spec))) r

-- RegisterFromObject
unfoldable pub register_from_object : Fields → Resolver → Resolver
register_from_object object r =
    let kind = str_or_empty (get "kind" object) in
    let (group, version) = split_api_version (str_or_empty (get "apiVersion" object)) in
    let (info, known) = resolve_gvk r group version kind in
    if kind == "CustomResourceDefinition"
    then register_crd object r
    else if known
    then register info r
    else r

-- ResourceRefFromObject
unfoldable pub resource_ref_from_object : Resolver → String → Fields → ResourceRef
resource_ref_from_object r cluster_id object =
    let kind = str_or_empty (get "kind" object) in
    let (group, version) = split_api_version (str_or_empty (get "apiVersion" object)) in
    let metadata = as_obj (get "metadata" object) in
    record {
      cluster_id = cluster_id;
      group = group;
      version = version;
      resource = (resolve_gvk r group version kind).0.resource;
      kind = kind;
      namespace = str_or_empty (get_opt "namespace" metadata);
      name = str_or_empty (get_opt "name" metadata);
      uid = str_or_empty (get_opt "uid" metadata);
    }
