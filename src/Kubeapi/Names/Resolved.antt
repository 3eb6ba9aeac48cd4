-- ===== src/Kubeapi/Names/Resolved.antt =====
-- The names of resources that a resolver hands out are in lower case.
use kube_insight.Prelude.{
  String, Bool, true, ◌≡◌, none, some, List, [], ◌∷◌, arith, ◌==◌, if◌then◌else◌, Option-cases,
  Bool-cases, inl, inr, ◌||◌, is_empty,
}
use kube_insight.Json.{Value, Fields, get, get_opt, as_obj, str_or_empty}
use kube_insight.Kubeapi.{
  ResourceInfo, Resolver, lookup, custom_resource, register_version, register_versions,
  register_names, register_crd, register_from_object, gvk_key, group_kind_key, resolve_gvk,
  at_version, fallback_resource, resource_ref_from_object, split_api_version,
}
use kube_insight.Kubeapi.Names.{
  IsLower, HasLowerNames, lookup-IsLower, fallback_resource-IsLower, register-HasLowerNames,
}

at_version-resource :
    (version : String) (info : ResourceInfo) → (at_version version info).resource ≡ info.resource
at_version-resource version info = ground arith

-- Where the name of a resolved resource comes from.
abbrev resolved : Resolver → (group version kind : String) → String
resolved r group version kind = (resolve_gvk r group version kind).0.resource

module _ (r : Resolver) (group version kind : String) (h : HasLowerNames r) where
  resolved-exact :
      (info : ResourceInfo)
      → lookup (gvk_key group version kind) r.by_gvk ≡ some info
      → IsLower (resolved r group version kind)
  unfolding resolve_gvk
  resolved-exact info e =
      let same : resolved r group version kind ≡ info.resource = ground (arith, e) in
      rw same (lookup-IsLower _ r.by_gvk info h.gvk e)

  resolved-group_kind :
      (info : ResourceInfo)
      → lookup (gvk_key group version kind) r.by_gvk ≡ none
      → lookup (group_kind_key group kind) r.by_group_kind ≡ some info
      → IsLower (resolved r group version kind)
  unfolding resolve_gvk
  resolved-group_kind info e e' =
      let same : resolved r group version kind ≡ info.resource = ground (arith, e, e') in
      rw same (lookup-IsLower _ r.by_group_kind info h.group_kind e')

  resolved-kind :
      (info : ResourceInfo)
      → lookup (gvk_key group version kind) r.by_gvk ≡ none
      → lookup (group_kind_key group kind) r.by_group_kind ≡ none
      → (group == "") ≡ true
      → lookup kind r.by_kind ≡ some info
      → IsLower (resolved r group version kind)
  unfolding resolve_gvk
  resolved-kind info e e' core e'' =
      let same : resolved r group version kind ≡ info.resource = ground (arith, e, e', core, e'') in
      rw same (lookup-IsLower kind r.by_kind info h.kind e'')

  resolved-fallback :
      lookup (gvk_key group version kind) r.by_gvk ≡ none
      → lookup (group_kind_key group kind) r.by_group_kind ≡ none
      → (if group == "" then lookup kind r.by_kind else none) ≡ none
      → IsLower (resolved r group version kind)
  unfolding resolve_gvk
  resolved-fallback e e' e'' =
      let same : (resolve_gvk r group version kind).0.resource ≡ fallback_resource kind =
        rw (e, resolve_gvk) (rw e' (rw e'')) in
      rw same (fallback_resource-IsLower kind)

  -- In a resolver whose names are in lower case: whether it knows the kind or makes a plural of it, the
  -- resource is in lower case.
  pub resolve_gvk-IsLower : IsLower (resolve_gvk r group version kind).0.resource
  resolve_gvk-IsLower = elim (Option-cases (lookup (gvk_key group version kind) r.by_gvk)) [
    | inr (info, e) ↦ resolved-exact info e
    | inl e ↦ elim (Option-cases (lookup (group_kind_key group kind) r.by_group_kind)) [
      | inr (info, e') ↦ resolved-group_kind info e e'
      | inl e' ↦ elim (Bool-cases (group == "")) [
        | inr other ↦ resolved-fallback e e' (rw other)
        | inl core ↦ elim (Option-cases (lookup kind r.by_kind)) [
          | inr (info, e'') ↦ resolved-kind info e e' core e''
          | inl e'' ↦ resolved-fallback e e' (rw core e'')
        ]
      ]
    ]
  ]

register_version-HasLowerNames :
    (group kind plural : String) (namespaced : Bool) (version : String) (r : Resolver)
    → HasLowerNames r
    → HasLowerNames (register_version group kind plural namespaced version r)
unfolding register_version
register_version-HasLowerNames group kind plural namespaced version r h =
    elim (Bool-cases (version == "")) [
      | inl e ↦ rw e h
      | inr e ↦
          rw e (register-HasLowerNames (custom_resource group kind plural namespaced version) r h)
    ]

register_versions-HasLowerNames :
    (group kind plural : String) (namespaced : Bool) (vs : List Value) (r : Resolver)
    → HasLowerNames r
    → HasLowerNames (register_versions group kind plural namespaced vs r)
unfolding register_versions
register_versions-HasLowerNames group kind plural namespaced [] r h = h
register_versions-HasLowerNames group kind plural namespaced (v ∷ vs) r h =
    register_versions-HasLowerNames group kind plural namespaced vs
      (register_version group kind plural namespaced
        (str_or_empty (get_opt "name" (as_obj (some v)))) r)
      (register_version-HasLowerNames group kind plural namespaced _ r h)

register_names-HasLowerNames :
    (group kind plural version : String) (namespaced : Bool) (versions : List Value) (r : Resolver)
    → HasLowerNames r
    → HasLowerNames (register_names group kind plural version namespaced versions r)
unfolding register_names
register_names-HasLowerNames group kind plural version namespaced versions r h =
    elim (Bool-cases (group == "" || kind == "" || plural == "")) [
      | inl e ↦ rw e h
      | inr e ↦ elim (Bool-cases (is_empty versions)) [
        | inl e' ↦
            rw (e, e') (register_version-HasLowerNames group kind plural namespaced version r h)
        | inr e' ↦
            rw (e, e') (register_versions-HasLowerNames group kind plural namespaced versions r h)
      ]
    ]

register_crd-HasLowerNames :
    (object : Fields) (r : Resolver) → HasLowerNames r → HasLowerNames (register_crd object r)
unfolding register_crd
register_crd-HasLowerNames object r h = register_names-HasLowerNames _ _ _ _ _ _ r h

-- Taking an object in, a definition of custom resources among them, keeps the names in lower case.
pub register_from_object-HasLowerNames :
    (object : Fields) (r : Resolver)
    → HasLowerNames r
    → HasLowerNames (register_from_object object r)
unfolding register_from_object
register_from_object-HasLowerNames object r h =
    elim (Bool-cases (str_or_empty (get "kind" object) == "CustomResourceDefinition")) [
      | inl e ↦ rw e (register_crd-HasLowerNames object r h)
      | inr e ↦
          let (group, version) = split_api_version (str_or_empty (get "apiVersion" object)) in
          elim (Bool-cases (resolve_gvk r group version (str_or_empty (get "kind" object))).1) [
            | inl e' ↦ rw (e, e') (register-HasLowerNames _ r h)
            | inr e' ↦ rw (e, e') h
          ]
    ]

-- The reference of any object, by a resolver whose names are in lower case, names its resource in
-- lower case.
pub resource_ref-IsLower :
    (r : Resolver) (cluster_id : String) (object : Fields)
    → HasLowerNames r
    → IsLower (resource_ref_from_object r cluster_id object).resource
unfolding resource_ref_from_object
resource_ref-IsLower r cluster_id object h = resolve_gvk-IsLower r _ _ _ h
