-- ===== src/CallGraph/Reducing.antt =====
-- The reductions of checker/src/call_graph.rs. Where the source panics the result is `none`; so it is where
-- the fuel of the search through excluded nodes runs out, which it does not.
use hepha.Prelude.{
  ℕ, Bool, false, not, ◌||◌, ◌==◌, Option, none, some, List, [], ◌∷◌, if◌then◌else◌,
}
use hepha.Prelude.Lists.{get_elem?}
use hepha.CallGraph.Sets.{HalfRawEdge, RawEdge, has_node, has_half, insert_half}
use hepha.CallGraph.Nodes.{
  Text, CallGraphNode, CallGraphReduction, slice, fold, deduplicate, clean, is_croot, is_excluded,
}
use hepha.CallGraph.Petgraph.{Petgraph}
use hepha.CallGraph.Folding.{MidpointExcludedMap, contains_key, condense_edge_set}
use hepha.CallGraph.Graphs.{CallGraph, update}
use hepha.CallGraph.Building.{get_node_by_name, insert_node}

-- The second closure of `deduplicate_edges`: an edge stays if its ends are new.
unfoldable pub first_of_pair : List HalfRawEdge → RawEdge → List HalfRawEdge × Option ℕ
unfolding has_half
first_of_pair edges e =
    if has_half (e.0, e.1) edges then (edges, none) else ((e.0, e.1) ∷ edges, some e.2)

pub record Reached : Type 0 where
  pub reachable : List ℕ
  pub croot : Option ℕ

-- The body of the loop of `reachable_from`: of the crate roots only the first is taken.
unfoldable pub visit_croot : Reached → ℕ → Option ℕ → Reached
unfolding insert_node
visit_croot s node_id none = record {
  reachable = insert_node node_id s.reachable;
  croot = some node_id;
}
visit_croot s node_id (some _) = s

unfoldable pub visit_node : List CallGraphNode → Reached → ℕ → Reached
unfolding visit_croot insert_node is_croot
visit_node ws s node_id = elim (get_elem? ws node_id) [
  | none ↦ s
  | some node ↦
      if is_croot node
      then visit_croot s node_id s.croot
      else record s { reachable = insert_node node_id s.reachable }
]

unfoldable pub visit_reachable : List CallGraphNode → Reached → List ℕ → Reached
unfolding visit_node
visit_reachable ws s [] = s
visit_reachable ws s (n ∷ ns) = visit_reachable ws (visit_node ws s n) ns

unfoldable pub has_in_edges : ℕ → List RawEdge → Bool
has_in_edges n [] = false
has_in_edges n (e ∷ es) = e.1 == n || has_in_edges n es

unfoldable pub has_out_edges : ℕ → List RawEdge → Bool
has_out_edges n [] = false
has_out_edges n (e ∷ es) = e.0 == n || has_out_edges n es

-- The first closure of `fold_excluded`: an excluded node gets an entry.
unfoldable pub mark_excluded :
    List Text → MidpointExcludedMap → ℕ → CallGraphNode → MidpointExcludedMap
unfolding is_excluded insert_node
mark_excluded crates excluded node_id node =
    if is_excluded node crates
    then record {
      keys = insert_node node_id excluded.keys;
      in_edges = λ n. if n == node_id then [] else excluded.in_edges n;
      out_edges = λ n. if n == node_id then [] else excluded.out_edges n;
    }
    else excluded

-- `excluded.get_mut(&node).map(|entry| entry.0.insert(..))`, and the same for `entry.1`.
unfoldable pub insert_in : MidpointExcludedMap → ℕ → HalfRawEdge → MidpointExcludedMap
unfolding contains_key insert_half
insert_in excluded k i =
    if contains_key k excluded
    then record excluded {
      in_edges = λ n. if n == k then insert_half i (excluded.in_edges n) else excluded.in_edges n;
    }
    else excluded

unfoldable pub insert_out : MidpointExcludedMap → ℕ → HalfRawEdge → MidpointExcludedMap
unfolding contains_key insert_half
insert_out excluded k o =
    if contains_key k excluded
    then record excluded {
      out_edges =
          λ n. if n == k then insert_half o (excluded.out_edges n) else excluded.out_edges n;
    }
    else excluded

-- The closure of the second step of `fold_excluded`.
unfoldable pub mark_edge : MidpointExcludedMap → RawEdge → MidpointExcludedMap
unfolding insert_in insert_out
mark_edge excluded e = insert_out (insert_in excluded e.1 (e.0, e.2)) e.0 (e.1, e.2)

abbrev pub no_excluded : MidpointExcludedMap
no_excluded = record { keys = []; in_edges = λ _. []; out_edges = λ _. [] }

module _ (P : Petgraph) where
  unfoldable pub deduplicate_edges : CallGraph P → CallGraph P
  unfolding first_of_pair update
  deduplicate_edges cg =
      update P cg (P.filter_map (λ s _ w. (s, some w)) first_of_pair [] cg.graph).1

  unfoldable pub reachable_from : CallGraph P → ℕ → List ℕ
  unfolding visit_reachable
  reachable_from cg start_node =
      let start : Reached = record { reachable = []; croot = none } in
      (visit_reachable (P.node_weights cg.graph) start (P.bfs cg.graph start_node)).reachable

  -- The nodes that pass the test stay, with the edges between them.
  abbrev pub keep_nodes : (ℕ → CallGraphNode → Bool) → P.Graph → P.Graph
  keep_nodes test graph =
      (P.filter_map {S = Unit {0}} (λ s n w. (s, if test n w then some w else none))
        (λ s e. (s, some e.2)) tt graph).1

  unfoldable pub filter_reachable : CallGraph P → Text → Option (CallGraph P)
  unfolding get_node_by_name reachable_from has_node update
  filter_reachable cg name = elim (get_node_by_name P cg name) [
    | none ↦ none
    | some start_node ↦
        let reachable = reachable_from cg start_node in
        some (update P cg (keep_nodes (λ n _. has_node n reachable) cg.graph))
  ]

  unfoldable pub filter_no_edges : CallGraph P → CallGraph P
  unfolding has_in_edges has_out_edges update
  filter_no_edges cg =
      let es = P.edge_references cg.graph in
      update P cg (keep_nodes (λ n _. has_in_edges n es || has_out_edges n es) cg.graph)

  -- The loop of the third step of `fold_excluded`.
  unfoldable pub add_edges : P.Graph → List RawEdge → P.Graph
  add_edges graph [] = graph
  add_edges graph (e ∷ es) = add_edges (P.add_edge graph e) es

  -- The first two steps: the excluded nodes with their edges, and a copy of the graph.
  unfoldable pub find_excluded : CallGraph P → MidpointExcludedMap × P.Graph
  unfolding mark_excluded mark_edge
  find_excluded cg =
      let marked =
        P.filter_map (λ s n w. (mark_excluded cg.config.included_crates s n w, some w))
          (λ s e. (s, some e.2)) no_excluded cg.graph in
      P.filter_map (λ s _ w. (s, some w)) (λ s e. (mark_edge s e, some e.2)) marked.0 marked.1

  -- The last two: the condensed edges are added, and the excluded nodes are removed.
  unfoldable pub remove_excluded :
      CallGraph P → MidpointExcludedMap → P.Graph → Option (CallGraph P)
  unfolding condense_edge_set add_edges contains_key update
  remove_excluded cg excluded graph = elim (condense_edge_set excluded) [
    | none ↦ none
    | some condensed ↦ some (
        update P cg (keep_nodes (λ n _. not (contains_key n excluded)) (add_edges graph condensed)))
  ]

  unfoldable pub fold_excluded : CallGraph P → Option (CallGraph P)
  unfolding find_excluded remove_excluded
  fold_excluded cg = let (excluded, graph) = find_excluded cg in remove_excluded cg excluded graph

  -- One step of the fold over the reductions.
  unfoldable pub reduce : CallGraph P → CallGraphReduction → Option (CallGraph P)
  unfolding filter_reachable fold_excluded deduplicate_edges filter_no_edges
  reduce cg (slice name) = filter_reachable cg name
  reduce cg fold = fold_excluded cg
  reduce cg deduplicate = some (deduplicate_edges cg)
  reduce cg clean = some (filter_no_edges cg)

  unfoldable pub reduce_graph : CallGraph P → List CallGraphReduction → Option (CallGraph P)
  unfolding reduce
  reduce_graph cg [] = some cg
  reduce_graph cg (r ∷ reductions) = elim (reduce cg r) [
    | none ↦ none
    | some next ↦ reduce_graph next reductions
  ]
