-- ===== src/Filter/Autoscaler.antt =====
-- internal/filter/cluster_autoscaler.go: the status of the cluster autoscaler. The parsing and printing
-- of YAML are parameters; a node is its kind, its value and its content, and a label for what else the
-- parser keeps of it.
pub mod Laws
use Prim.Native.Char.{code}
use Prim.Native.Nat.{ℕ, ◌+◌}
use kube_insight.Prelude.{
  String, Bool, true, false, not, ◌||◌, ◌&&◌, Option, none, some, List, [], ◌∷◌, ◌==◌, eqb,
  if◌then◌else◌, is_some, map,
}
use kube_insight.Prelude.Text.Order.{less}
use kube_insight.Core.{Observation}
use kube_insight.Json.{Value, Fields, str, obj, get, set, delete, as_obj, has_fields, str_or_empty}
use kube_insight.Filter.{Filter, Decision, keep, pass, total}
use kube_insight.Filter.Conditions.{differ}
use kube_insight.Filter.Objects.{modified_by, removed_fields}

pub data Kind : Type 0 where
  document mapping sequence scalar alias : Kind

mutual
  pub data Node : Type 0 where
    node : (kind : Kind) (value label : String) → Nodes → Node

  pub data Nodes : Type 0 where
    no_nodes : Nodes
    also : Node → Nodes → Nodes

abbrev pub value_of : Node → String
value_of (node kind value label content) = value

abbrev pub is_sequence : Node → Bool
is_sequence (node sequence value label content) = true
is_sequence (node _ value label content) = false

-- The scan of yamlMappingStringValue over the pairs.
unfoldable pub find_pair : String → Nodes → String
find_pair key no_nodes = ""
find_pair key (also k no_nodes) = ""
find_pair key (also k (also v rest)) =
    let later = find_pair key rest in if value_of k == key then value_of v else later

-- yamlMappingStringValue
unfoldable pub mapping_value : String → Node → String
unfolding find_pair
mapping_value key (node mapping value label content) = find_pair key content
mapping_value key (node _ value label content) = ""

-- yamlSequenceNameOrder
unfoldable pub name_order : Nodes → List String
unfolding mapping_value
name_order no_nodes = []
name_order (also n ns) = mapping_value "name" n ∷ name_order ns

-- A stable sort of children by the names that they are given.
unfoldable pub insert_named : String → Node → List (String × Node) → List (String × Node)
insert_named s n [] = (s, n) ∷ []
insert_named s n ((t, m) ∷ rest) =
    let behind = (t, m) ∷ insert_named s n rest in
    if less t s then behind else (s, n) ∷ (t, m) ∷ rest

unfoldable pub sort_named : List String → Nodes → List (String × Node)
unfolding insert_named
sort_named (s ∷ ss) (also n ns) = insert_named s n (sort_named ss ns)
sort_named _ _ = []

abbrev pub nodes_of : List (String × Node) → Nodes
nodes_of [] = no_nodes
nodes_of ((s, n) ∷ rest) = also n (nodes_of rest)

abbrev pub names_of : List (String × Node) → List String
names_of ns = map (λ (n : String × Node). n.0) ns

abbrev pub is_probe : String → Bool
is_probe key = key == "time" || key == "lastProbeTime"

-- sortYAMLSequenceByName of children that have been normalized: the sort goes by their names from
-- before. A node that is no sequence is left alone.
unfoldable pub sort_sequence : List String → Node → Node × Bool
unfolding sort_named
sort_sequence names (node sequence value label content) =
    let sorted = sort_named names content in
    (node sequence value label (nodes_of sorted), differ names (names_of sorted))
sort_sequence names n = (n, false)

abbrev pub content_names : Node → List String
unfolding name_order
content_names (node kind value label content) = name_order content

-- normalizeAutoscalerYAMLNode, with removeAutoscalerProbeKeys and sortYAMLSequenceByName where it
-- calls them: the node, and whether it has changed. The children of a sequence are normalized in front
-- of the sort that the source makes first.
unfoldable mutual
  unfolding sort_sequence content_names

  pub normalize_node : Node → Node × Bool
  normalize_node (node document value label content) =
      let next = normalize_each content in (node document value label next.0, next.1)
  normalize_node (node sequence value label content) =
      let next = normalize_each content in (node sequence value label next.0, next.1)
  normalize_node (node mapping value label content) =
      let next = normalize_pairs content in (node mapping value label next.0, next.1)
  normalize_node (node scalar value label content) = (node scalar value label content, false)
  normalize_node (node alias value label content) = (node alias value label content, false)

  pub normalize_each : Nodes → Nodes × Bool
  normalize_each no_nodes = (no_nodes, false)
  normalize_each (also n ns) =
      let next = normalize_node n in
      let rest = normalize_each ns in (also next.0 rest.0, next.1 || rest.1)

  pub normalize_pairs : Nodes → Nodes × Bool
  normalize_pairs no_nodes = (no_nodes, false)
  normalize_pairs (also k no_nodes) = (no_nodes, false)
  normalize_pairs (also k (also v rest)) =
      let later = normalize_pairs rest in
      let next = normalize_node v in
      let sorted = sort_sequence (content_names v) next.0 in
      if is_probe (value_of k)
      then (later.0, true)
      else if value_of k == "nodeGroups" && is_sequence v
      then (also k (also sorted.0 later.0), sorted.1 || next.1 || later.1)
      else (also k (also next.0 later.0), next.1 || later.1)

-- strings.TrimRight(s, "\n")
trim_newlines : String → String
trim_newlines String.[] = ""
trim_newlines (String.◌∷◌ c s) =
    let rest = trim_newlines s in if eqb (code c) 10 && rest == "" then "" else String.◌∷◌ c rest

abbrev pub last_updated : String
last_updated = "cluster-autoscaler.kubernetes.io/last-updated"

-- removeClusterAutoscalerLastUpdated: the object, and how many annotations it has lost.
unfoldable pub remove_last_updated : Fields → Fields × ℕ
remove_last_updated object = elim (as_obj (get "metadata" object)) [
  | none ↦ (object, 0)
  | some metadata ↦ elim (as_obj (get "annotations" metadata)) [
    | none ↦ (object, 0)
    | some annotations ↦
        let left = delete last_updated annotations in
        let next =
          if not (has_fields left)
          then delete "annotations" metadata
          else set "annotations" (obj left) metadata in
        if not (is_some (get last_updated annotations))
        then (object, 0)
        else (set "metadata" (obj next) object, 1)
  ]
]

module _ (parse : String → Option Node) (print : Node → Option String) where
  -- normalizeClusterAutoscalerStatus
  unfoldable pub normalize_status : String → String × Bool
  unfolding normalize_node trim_newlines
  normalize_status status = elim (parse status) [
    | none ↦ (status, false)
    | some doc ↦
        let next = normalize_node doc in
        elim (print next.0) [
          | none ↦ (status, false)
          | some out ↦
              let normalized = trim_newlines out in
              (normalized, next.1 || not (normalized == trim_newlines status))
        ]
  ]

  -- The object with its status normalized, and the number of changes.
  unfoldable pub with_status : Fields → Fields → Fields × ℕ
  unfolding normalize_status
  with_status object m =
      let status = str_or_empty (get "status" m) in
      let next = normalize_status status in
      if not (status == "") && next.1
      then (set "data" (obj (set "status" (str next.0) m)) object, 1)
      else (object, 0)

  -- ClusterAutoscalerStatusFilter.Apply
  unfoldable pub cluster_autoscaler_apply : Observation → Observation × Decision
  unfolding with_status remove_last_updated
  cluster_autoscaler_apply obs = elim obs.object [
    | none ↦ pass obs keep "no_object"
    | some object ↦ elim (as_obj (get "data" object)) [
      | none ↦ pass obs keep "data_absent"
      | some m ↦
          let one = with_status object m in
          let two = remove_last_updated one.0 in
          if eqb (one.1 + two.1) 0
          then pass obs keep "autoscaler_status_already_normalized"
          else modified_by obs two.0 "cluster_autoscaler_status_normalized"
              (removed_fields (one.1 + two.1))
    ]
  ]

  abbrev pub cluster_autoscaler : Filter
  cluster_autoscaler =
      total "cluster_autoscaler_status_normalization_filter" cluster_autoscaler_apply
