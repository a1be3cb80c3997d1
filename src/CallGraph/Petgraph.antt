-- ===== src/CallGraph/Petgraph.antt =====
-- The graphs of the crate `petgraph` (`Graph`), as far as checker/src/call_graph.rs uses them: the operations,
-- and what the crate documents of them, in terms of the nodes and the edges in the order of their indices.
use hepha.Prelude.{ℕ, zero, suc, ◌<◌, ◌≡◌, ◌↔◌, true, Option, none, some, List, [], ◌∷◌, ◌++◌}
use hepha.Prelude.Lists.{size, set}
use hepha.CallGraph.Sets.{RawEdge, has_edge, has_node}
use hepha.CallGraph.Nodes.{CallGraphNode}

-- `filter_map` hands each node to the first closure, the edges whose ends stay to the second, and numbers
-- the nodes that stay anew. A closure may change what it captures, the state `S`.
module _ {S : Type 0} where
  unfoldable pub mapped_nodes :
      (S → ℕ → CallGraphNode → S × Option CallGraphNode)
      → S
      → ℕ
      → List CallGraphNode
      → S × List (Option CallGraphNode)
  mapped_nodes f s i [] = (s, [])
  mapped_nodes f s i (w ∷ ws) =
      let (s', o) = f s i w in let (s'', os) = mapped_nodes f s' (suc i) ws in (s'', o ∷ os)

  unfoldable pub attach : ℕ → ℕ → S × Option ℕ → S × List RawEdge
  attach a b (s, none) = (s, [])
  attach a b (s, some t) = (s, (a, b, t) ∷ [])

  unfoldable pub mapped_edge :
      (S → RawEdge → S × Option ℕ) → S → RawEdge → Option ℕ → Option ℕ → S × List RawEdge
  unfolding attach
  mapped_edge f s e (some a) (some b) = attach a b (f s e)
  mapped_edge f s e (some a) none = (s, [])
  mapped_edge f s e none b = (s, [])

  unfoldable pub mapped_edges :
      (S → RawEdge → S × Option ℕ) → (ℕ → Option ℕ) → S → List RawEdge → S × List RawEdge
  unfolding mapped_edge
  mapped_edges f index s [] = (s, [])
  mapped_edges f index s (e ∷ es) =
      let (s', out) = mapped_edge f s e (index e.0) (index e.1) in
      let (s'', outs) = mapped_edges f index s' es in (s'', out ++ outs)

unfoldable pub somes : List (Option CallGraphNode) → List CallGraphNode
somes [] = []
somes (none ∷ os) = somes os
somes (some w ∷ os) = w ∷ somes os

unfoldable pub next : Option ℕ → Option ℕ
next none = none
next (some i) = some (suc i)

-- The new index of a node that stays: how many stay before it.
unfoldable pub new_index : List (Option CallGraphNode) → ℕ → Option ℕ
unfolding next
new_index [] i = none
new_index (none ∷ os) zero = none
new_index (none ∷ os) (suc i) = new_index os i
new_index (some w ∷ os) zero = some 0
new_index (some w ∷ os) (suc i) = next (new_index os i)

-- A walk along edges.
pub data Reach (edges : List RawEdge) (start : ℕ) : ℕ → Type 0 where
  here : Reach edges start start
  step :
      {m n : ℕ} (t : ℕ)
      → Reach edges start m
      → has_edge (m, n, t) edges ≡ true
      → Reach edges start n

pub record Petgraph : Type 1 where
  pub Graph : Type 0
  pub new : Graph
  pub node_weights : Graph → List CallGraphNode
  pub edge_references : Graph → List RawEdge
  pub add_node : Graph → CallGraphNode → Graph × ℕ
  pub set_node_weight : Graph → ℕ → CallGraphNode → Graph
  pub add_edge : Graph → RawEdge → Graph
  pub filter_map :
      {S : Type 0}
      → (S → ℕ → CallGraphNode → S × Option CallGraphNode)
      → (S → RawEdge → S × Option ℕ)
      → S
      → Graph
      → S × Graph
  pub bfs : Graph → ℕ → List ℕ
  pub new_lem : (node_weights new ≡ []) × (edge_references new ≡ [])
  pub add_node_lem :
      (g : Graph) (w : CallGraphNode)
      → (node_weights (add_node g w).0 ≡ node_weights g ++ w ∷ [])
        × (edge_references (add_node g w).0 ≡ edge_references g)
        × ((add_node g w).1 ≡ size (node_weights g))
  pub set_node_weight_lem :
      (g : Graph) (i : ℕ) (w : CallGraphNode)
      → (node_weights (set_node_weight g i w) ≡ set (node_weights g) i w)
        × (edge_references (set_node_weight g i w) ≡ edge_references g)
  -- It panics if an end of the edge is no node.
  pub add_edge_lem :
      (g : Graph) (e : RawEdge)
      → e.0 < size (node_weights g)
      → e.1 < size (node_weights g)
      → (node_weights (add_edge g e) ≡ node_weights g)
        × (edge_references (add_edge g e) ≡ edge_references g ++ e ∷ [])
  pub filter_map_lem :
      {S : Type 0} (node_map : S → ℕ → CallGraphNode → S × Option CallGraphNode)
      (edge_map : S → RawEdge → S × Option ℕ) (s : S) (g : Graph)
      → let nodes = mapped_nodes node_map s 0 (node_weights g) in
        let edges = mapped_edges edge_map (new_index nodes.1) nodes.0 (edge_references g) in
        (node_weights (filter_map node_map edge_map s g).1 ≡ somes nodes.1)
        × (edge_references (filter_map node_map edge_map s g).1 ≡ edges.1)
        × ((filter_map node_map edge_map s g).0 ≡ edges.0)
  -- A breadth-first search visits the nodes that walks lead to.
  pub bfs_lem :
      (g : Graph) (start n : ℕ)
      → start < size (node_weights g)
      → (has_node n (bfs g start) ≡ true) ↔ Reach (edge_references g) start n
