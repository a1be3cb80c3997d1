-- ===== src/CallGraph/ListGraph.antt =====
-- A graph as two lists: an instance of what is assumed of the graphs of checker/src/call_graph.rs.
use hepha.Prelude.{
  ℕ, ◌≡◌, ◌↔◌, inl, inr, refl, sym, ◌∙◌, arith, true, ◌==◌, ==_iff, Option, none, some, List, [],
  ◌∷◌, ◌++◌, map, if◌then◌else◌, Bool-cases, or_cases,
}
use hepha.Prelude.Lists.{size, set}
use hepha.CallGraph.Sets.{HalfRawEdge, RawEdge, has_node, has_half, has_edge, half_eq_lem, raw_eq}
use hepha.CallGraph.Nodes.{CallGraphNode}
use hepha.CallGraph.Petgraph.{
  Petgraph, Reach, here, step, mapped_nodes, mapped_edges, somes, new_index,
}
use hepha.CallGraph.Folding.{MidpointExcludedMap, contains_key, child_edges, reachable_raw_edges}
use hepha.CallGraph.Reaching.{Leads, start, through, starts, queued, reachable_raw_edges_exact}

outs_of : ℕ → List RawEdge → List HalfRawEdge
outs_of n [] = []
outs_of n (e ∷ es) = if n == e.0 then (e.1, e.2) ∷ outs_of n es else outs_of n es

outs_of_lem :
    (n : ℕ) (h : HalfRawEdge) (es : List RawEdge)
    → has_half h (outs_of n es) ≡ has_edge (n, h.0, h.1) es
unfolding outs_of has_half has_edge
outs_of_lem n h [] = refl
outs_of_lem n h (e ∷ es) = elim (Bool-cases (n == e.0)) [
  | inl same ↦ rw same (rw (outs_of_lem n h es) refl)
  | inr other ↦ rw other (outs_of_lem n h es)
]

sources : List RawEdge → List ℕ
sources [] = []
sources (e ∷ es) = e.0 ∷ sources es

sources_lem :
    (n b t : ℕ) (es : List RawEdge) → has_edge (n, b, t) es ≡ true → has_node n (sources es) ≡ true
unfolding sources has_node has_edge
sources_lem n b t [] h = h
sources_lem n b t (e ∷ es) h =
    or_cases (raw_eq (n, b, t) e) (has_edge (n, b, t) es) h (λ k. ground (arith, k))
      (λ k. ground (arith, sources_lem n b t es k))

edge_map : List RawEdge → MidpointExcludedMap
unfolding sources outs_of
edge_map es = record { keys = sources es; in_edges = λ _. []; out_edges = λ n. outs_of n es }

child-edge_map :
    (n : ℕ) (h : HalfRawEdge) (es : List RawEdge)
    → has_half h (child_edges (edge_map es) n) ≡ has_edge (n, h.0, h.1) es
unfolding child_edges contains_key edge_map has_half
child-edge_map n h es = elim (Bool-cases (has_node n (sources es))) [
  | inl key ↦ rw key (outs_of_lem n h es)
  | inr out ↦ rw out (elim (Bool-cases (has_edge (n, h.0, h.1) es)) [
    | inl e ↦ absurd (ground (arith, sources_lem n h.0 h.1 es e, out))
    | inr e ↦ sym e
  ])
]

abbrev firsts : List HalfRawEdge → List ℕ
firsts = map (λ (e : HalfRawEdge). e.0)

-- The nodes that the search of the half edges finds.
pub search : List RawEdge → ℕ → List ℕ
unfolding reachable_raw_edges edge_map
search es n = elim (reachable_raw_edges (edge_map es) ((n, 0) ∷ [])) [
  | none ↦ []
  | some out ↦ firsts out
]

Leads-Reach :
    (es : List RawEdge) (n : ℕ) {h : HalfRawEdge}
    → Leads (edge_map es) ((n, 0) ∷ []) h
    → Reach es n h.0
unfolding has_half
Leads-Reach es n (start {e} h) = let same = half_eq_lem e (n, 0) (ground (arith, h)) in rw same here
Leads-Reach es n (through {d} {e} l h) =
    step e.1 (Leads-Reach es n l) (sym (child-edge_map d.0 e es) ∙ h)

Reach-Leads :
    (es : List RawEdge) (n : ℕ) {m : ℕ}
    → Reach es n m
    → (t : ℕ) × Leads (edge_map es) ((n, 0) ∷ []) (m, t)
unfolding has_half
Reach-Leads es n here = (0, start (ground (arith, ==_iff n n)))
Reach-Leads es n {m = b} (step {m} t w h) =
    let (u, l) = Reach-Leads es n w in (t, through l (child-edge_map m (b, t) es ∙ h))

pub search_lem : (es : List RawEdge) (n m : ℕ) → (has_node m (search es n) ≡ true) ↔ Reach es n m
unfolding search
search_lem es n m =
    let (out, ends, exact) = reachable_raw_edges_exact (edge_map es) ((n, 0) ∷ []) in
    rw (ends, search)
      (
        λ h.
            let (t, k) = starts (edge_map es) ((n, 0) ∷ []) m out h in
            Leads-Reach es n ((exact (m, t)).0 k),
        λ w.
            let (t, l) = Reach-Leads es n w in
            queued (edge_map es) ((n, 0) ∷ []) (m, t) out ((exact (m, t)).1 l),
      )

-- The nodes and the edges, in the order of their indices.
abbrev pub Lists : Type 0
Lists = List CallGraphNode × List RawEdge

unfoldable pub filter_lists :
    {S : Type 0}
    → (S → ℕ → CallGraphNode → S × Option CallGraphNode)
    → (S → RawEdge → S × Option ℕ)
    → S
    → Lists
    → S × Lists
unfolding mapped_nodes mapped_edges somes new_index
filter_lists node_map edge_map s g =
    let nodes = mapped_nodes node_map s 0 g.0 in
    let edges = mapped_edges edge_map (new_index nodes.1) nodes.0 g.1 in
    (edges.0, (somes nodes.1, edges.1))

unfoldable pub list_graph : Petgraph
unfolding filter_lists search
list_graph = record {
  Graph = Lists;
  new = ([], []);
  node_weights = λ g. g.0;
  edge_references = λ g. g.1;
  add_node = λ g w. ((g.0 ++ w ∷ [], g.1), size g.0);
  set_node_weight = λ g i w. (set g.0 i w, g.1);
  add_edge = λ g e. (g.0, g.1 ++ e ∷ []);
  filter_map = filter_lists;
  bfs = λ g n. search g.1 n;
  new_lem = (refl, refl);
  add_node_lem = λ g w. (refl, refl, refl);
  set_node_weight_lem = λ g i w. (refl, refl);
  add_edge_lem = λ g e a b. (refl, refl);
  filter_map_lem = λ f k s g. (refl, refl, refl);
  bfs_lem = λ g n m r. search_lem g.1 n m;
}
