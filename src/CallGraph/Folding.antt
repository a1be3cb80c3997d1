-- ===== src/CallGraph/Folding.antt =====
-- The helpers of `fold_excluded` in checker/src/call_graph.rs: the map of excluded nodes, the search through
-- them, and the edges that replace them.
use hepha.Prelude.{
  ℕ, zero, suc, ◌+◌, Bool, Option, none, some, List, [], ◌∷◌, ◌++◌, map, if◌then◌else◌,
}
use hepha.CallGraph.Sets.{HalfRawEdge, RawEdge, has_node, has_half, insert_edge}

-- A hash map from a node to its incoming and outgoing half edges: its keys, and the two sets of a key.
pub record MidpointExcludedMap : Type 0 where
  pub keys : List ℕ
  pub in_edges : ℕ → List HalfRawEdge
  pub out_edges : ℕ → List HalfRawEdge

unfoldable pub contains_key : ℕ → MidpointExcludedMap → Bool
unfolding has_node
contains_key n excluded = has_node n excluded.keys

-- The edges that a loop over `excluded.get(&node_id)` visits.
unfoldable pub child_edges : MidpointExcludedMap → ℕ → List HalfRawEdge
unfolding contains_key
child_edges excluded n = if contains_key n excluded then excluded.out_edges n else []

pub record Search : Type 0 where
  pub reachable : List HalfRawEdge
  pub queue : List ℕ

-- The body of the loop over the child edges.
unfoldable pub add_child : MidpointExcludedMap → Search → HalfRawEdge → Search
unfolding has_half contains_key
add_child excluded s e = if has_half e s.reachable then s else record {
  reachable = e ∷ s.reachable;
  queue = if contains_key e.0 excluded then s.queue ++ e.0 ∷ [] else s.queue;
}

unfoldable pub add_children : MidpointExcludedMap → Search → List HalfRawEdge → Search
unfolding add_child
add_children excluded s [] = s
add_children excluded s (e ∷ es) = add_children excluded (add_child excluded s e) es

-- The loop `while let Some(node_id) = queue.pop_front()`; `none` means that the fuel ran out.
unfoldable pub search_loop :
    ℕ → MidpointExcludedMap → List HalfRawEdge → List ℕ → Option (List HalfRawEdge)
unfolding child_edges add_children
search_loop fuel excluded reachable [] = some reachable
search_loop zero excluded reachable (n ∷ queue) = none
search_loop (suc fuel) excluded reachable (n ∷ queue) =
    let start : Search = record { reachable = reachable; queue = queue } in
    let next : Search = add_children excluded start (child_edges excluded n) in
    search_loop fuel excluded next.reachable next.queue

-- All half edges that leave the nodes listed.
unfoldable pub all_children : MidpointExcludedMap → List ℕ → List HalfRawEdge
all_children excluded [] = []
all_children excluded (n ∷ ns) = excluded.out_edges n ++ all_children excluded ns

abbrev pub length {ℓ} : {A : Type ℓ} → List A → ℕ
length [] = 0
length (_ ∷ xs) = suc (length xs)

-- Enough rounds: each takes a node off the queue, and a node enters it with a new half edge.
unfoldable pub enough : MidpointExcludedMap → List HalfRawEdge → ℕ
unfolding all_children
enough excluded initial_set = length (all_children excluded excluded.keys) + length initial_set

unfoldable pub reachable_raw_edges :
    MidpointExcludedMap → List HalfRawEdge → Option (List HalfRawEdge)
unfolding search_loop enough
reachable_raw_edges excluded initial_set =
    search_loop (enough excluded initial_set) excluded initial_set
      (map (λ (e : HalfRawEdge). e.0) initial_set)

-- The loop over `out_nodes2`.
unfoldable pub join_out :
    MidpointExcludedMap → HalfRawEdge → List HalfRawEdge → List RawEdge → List RawEdge
unfolding contains_key insert_edge
join_out excluded i [] condensed = condensed
join_out excluded i (o ∷ outs) condensed =
    join_out excluded i outs
      (if contains_key o.0 excluded then condensed else insert_edge (i.0, o.0, i.1) condensed)

-- The loop over `in_nodes`.
unfoldable pub join_in :
    MidpointExcludedMap → List HalfRawEdge → List HalfRawEdge → List RawEdge → List RawEdge
unfolding contains_key join_out
join_in excluded [] outs condensed = condensed
join_in excluded (i ∷ ins) outs condensed =
    join_in excluded ins outs
      (if contains_key i.0 excluded then condensed else join_out excluded i outs condensed)

-- The loop over the excluded nodes.
unfoldable pub condense_nodes : MidpointExcludedMap → List ℕ → List RawEdge → Option (List RawEdge)
unfolding reachable_raw_edges join_in
condense_nodes excluded [] condensed = some condensed
condense_nodes excluded (n ∷ ns) condensed =
    elim (reachable_raw_edges excluded (excluded.out_edges n)) [
      | none ↦ none
      | some outs ↦
          condense_nodes excluded ns (join_in excluded (excluded.in_edges n) outs condensed)
    ]

unfoldable pub condense_edge_set : MidpointExcludedMap → Option (List RawEdge)
unfolding condense_nodes
condense_edge_set excluded = condense_nodes excluded excluded.keys []
