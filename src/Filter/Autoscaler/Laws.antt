-- ===== src/Filter/Autoscaler/Laws.antt =====
-- What the filter of the autoscaler's status promises: no probe time is left, and nothing but the object
-- is touched.
use kube_insight.Prelude.{
  String, false, ◌&&◌, Option, List, [], ◌∷◌, ◌==◌, ◌≡◌, arith, Bool-cases, Option-cases, inl, inr,
}
use kube_insight.Prelude.Text.Order.{less}
use kube_insight.Core.{Observation}
use kube_insight.Json.{as_obj, get}
use kube_insight.Filter.Objects.Laws.{Honest}
use kube_insight.Filter.Autoscaler.{
  document, mapping, sequence, scalar, alias, Node, node, Nodes, no_nodes, also, value_of,
  is_sequence, is_probe, insert_named, sort_named, nodes_of, sort_sequence, content_names,
  normalize_node, normalize_each, normalize_pairs, cluster_autoscaler_apply,
}

-- No mapping below a node, on the way through values and items, has a probe time.
abbrev mutual
  pub Clean : Node → Type 0
  Clean (node document value label content) = CleanItems content
  Clean (node sequence value label content) = CleanItems content
  Clean (node mapping value label content) = CleanPairs content
  Clean (node scalar value label content) = Unit
  Clean (node alias value label content) = Unit

  pub CleanItems : Nodes → Type 0
  CleanItems no_nodes = Unit
  CleanItems (also n ns) = Clean n × CleanItems ns

  pub CleanPairs : Nodes → Type 0
  CleanPairs no_nodes = Unit
  CleanPairs (also k no_nodes) = Unit
  CleanPairs (also k (also v rest)) = (is_probe (value_of k) ≡ false) × Clean v × CleanPairs rest

abbrev CleanNamed : List (String × Node) → Type 0
CleanNamed [] = Unit
CleanNamed ((s, n) ∷ rest) = Clean n × CleanNamed rest

nodes_of-Clean : (ns : List (String × Node)) → CleanNamed ns → CleanItems (nodes_of ns)
nodes_of-Clean [] h = tt
nodes_of-Clean ((s, n) ∷ rest) h = (h.0, nodes_of-Clean rest h.1)

insert_named-Clean :
    (s : String) (n : Node) (rest : List (String × Node))
    → Clean n
    → CleanNamed rest
    → CleanNamed (insert_named s n rest)
unfolding insert_named
insert_named-Clean s n [] clean h = (clean, tt)
insert_named-Clean s n ((t, m) ∷ rest) clean h = elim (Bool-cases (less t s)) [
  | inl behind ↦ rw (insert_named, behind) (h.0, insert_named-Clean s n rest clean h.1)
  | inr front ↦ rw (insert_named, front) (clean, (h.0, h.1))
]

sort_named-Clean :
    (names : List String) (ns : Nodes) → CleanItems ns → CleanNamed (sort_named names ns)
unfolding sort_named
sort_named-Clean [] ns h = tt
sort_named-Clean (s ∷ ss) no_nodes h = tt
sort_named-Clean (s ∷ ss) (also n ns) h =
    insert_named-Clean s n (sort_named ss ns) h.0 (sort_named-Clean ss ns h.1)

sort_sequence-Clean : (names : List String) (n : Node) → Clean n → Clean (sort_sequence names n).0
unfolding sort_sequence
sort_sequence-Clean names (node document value label content) h = h
sort_sequence-Clean names (node mapping value label content) h = h
sort_sequence-Clean names (node scalar value label content) h = h
sort_sequence-Clean names (node alias value label content) h = h
sort_sequence-Clean names (node sequence value label content) h =
    nodes_of-Clean (sort_named names content) (sort_named-Clean names content h)

mutual
  unfolding normalize_node normalize_each normalize_pairs

  normalized_node-Clean : (n : Node) → Clean (normalize_node n).0
  normalized_node-Clean (node document value label content) = normalize_each-CleanItems content
  normalized_node-Clean (node sequence value label content) = normalize_each-CleanItems content
  normalized_node-Clean (node mapping value label content) = normalize_pairs-CleanPairs content
  normalized_node-Clean (node scalar value label content) = tt
  normalized_node-Clean (node alias value label content) = tt

  normalize_each-CleanItems : (ns : Nodes) → CleanItems (normalize_each ns).0
  normalize_each-CleanItems no_nodes = tt
  normalize_each-CleanItems (also n ns) = (normalized_node-Clean n, normalize_each-CleanItems ns)

  normalize_pairs-CleanPairs : (ns : Nodes) → CleanPairs (normalize_pairs ns).0
  normalize_pairs-CleanPairs no_nodes = tt
  normalize_pairs-CleanPairs (also k no_nodes) = tt
  normalize_pairs-CleanPairs (also k (also v rest)) =
      let later = normalize_pairs-CleanPairs rest in
      let next = normalized_node-Clean v in
      elim (Bool-cases (is_probe (value_of k))) [
        | inl probe ↦ rw probe later
        | inr kept ↦ elim (Bool-cases (value_of k == "nodeGroups" && is_sequence v)) [
          | inl groups ↦
              rw (kept, groups)
                (kept, sort_sequence-Clean (content_names v) (normalize_node v).0 next, later)
          | inr other ↦ rw (kept, other) (kept, next, later)
        ]
      ]

-- The normalized status of the autoscaler has no probe time in any mapping that is reached through
-- values and items.
pub normalize_node-Clean : (n : Node) → Clean (normalize_node n).0
normalize_node-Clean n = normalized_node-Clean n

pub cluster_autoscaler-Honest :
    (parse : String → Option Node) (print : Node → Option String) (obs : Observation)
    → Honest obs (cluster_autoscaler_apply parse print obs)
unfolding cluster_autoscaler_apply
cluster_autoscaler-Honest parse print obs = elim (Option-cases obs.object) [
  | inl absent ↦ ground (arith, absent)
  | inr (object, here) ↦ elim (Option-cases (as_obj (get "data" object))) [
    | inl absent ↦ ground (arith, here, absent)
    | inr (m, found) ↦ ground (arith, here, found)
  ]
]
