-- ===== src/CallGraph/Deduplicated.antt =====
-- What `deduplicate_edges` of checker/src/call_graph.rs makes of a call graph.
use hepha.Prelude.{
  ℕ, suc, ◌≡◌, inl, inr, refl, ap, ◌∙◌, arith, Bool, true, false, ◌&&◌, ◌||◌, ◌==◌, some, List, [],
  ◌∷◌, map, if◌then◌else◌, Bool-cases, or_cases,
}
use hepha.Prelude.Lists.{size}
use hepha.CallGraph.Sets.{HalfRawEdge, RawEdge, has_half, has_edge, half_eq_refl, raw_eq}
use hepha.CallGraph.Nodes.{CallGraphNode}
use hepha.CallGraph.Petgraph.{Petgraph, mapped_edge, mapped_edges, attach, new_index}
use hepha.CallGraph.Filtering.{InRange, visit_nodes, mapped_nodes_all, new_index_all, somes_all}
use hepha.CallGraph.Graphs.{CallGraph, update}
use hepha.CallGraph.Reducing.{first_of_pair, deduplicate_edges}

-- Some edge of the list leads from `a` to `b`.
unfoldable pub connects : ℕ → ℕ → List RawEdge → Bool
connects a b [] = false
connects a b (e ∷ es) = (a == e.0 && b == e.1) || connects a b es

-- No two edges of the list have the same ends.
abbrev pub DistinctEnds : List RawEdge → Type 0
DistinctEnds [] = Unit {0}
DistinctEnds (e ∷ es) = (connects e.0 e.1 es ≡ false) × DistinctEnds es

-- The edges that are the first of their ends, apart from the ends that are seen already.
firsts : List HalfRawEdge → List RawEdge → List RawEdge
firsts seen [] = []
firsts seen (e ∷ es) =
    if has_half (e.0, e.1) seen then firsts seen es else e ∷ firsts ((e.0, e.1) ∷ seen) es

mapped_edges-firsts :
    (ws : List CallGraphNode) (seen : List HalfRawEdge) (es : List RawEdge)
    → InRange (size ws) es
    → (mapped_edges first_of_pair (new_index (map some ws)) seen es).1 ≡ firsts seen es
unfolding mapped_edges mapped_edge attach first_of_pair firsts
mapped_edges-firsts ws seen [] r = refl
mapped_edges-firsts ws seen (e ∷ es) r = rw (new_index_all ws e.0 r.0) (
    rw (new_index_all ws e.1 r.1) (elim (Bool-cases (has_half (e.0, e.1) seen)) [
      | inl old ↦ rw old (mapped_edges-firsts ws seen es r.2)
      | inr new ↦
          rw new
            (ap (λ (l : List RawEdge). e ∷ l) (mapped_edges-firsts ws ((e.0, e.1) ∷ seen) es r.2))
    ]))

has_edge-firsts :
    (seen : List HalfRawEdge) (es : List RawEdge) (e : RawEdge)
    → has_edge e (firsts seen es) ≡ true
    → has_edge e es ≡ true
unfolding firsts has_edge
has_edge-firsts seen [] e h = h
has_edge-firsts seen (f ∷ es) e h = elim (Bool-cases (has_half (f.0, f.1) seen)) [
  | inl old ↦ ground (arith, has_edge-firsts seen es e (rw old at h))
  | inr new ↦
      or_cases (raw_eq e f) (has_edge e (firsts ((f.0, f.1) ∷ seen) es)) (rw new at h)
        (λ k. ground (arith, k)) (λ k. ground (arith, has_edge-firsts ((f.0, f.1) ∷ seen) es e k))
]

connects-firsts :
    (seen : List HalfRawEdge) (es : List RawEdge) (a b : ℕ)
    → (has_half (a, b) seen || connects a b (firsts seen es))
      ≡ (has_half (a, b) seen || connects a b es)
unfolding firsts connects has_half
connects-firsts seen [] a b = refl
connects-firsts seen (e ∷ es) a b = elim (Bool-cases (has_half (e.0, e.1) seen)) [
  | inl old ↦ rw old (elim (Bool-cases (a == e.0 && b == e.1)) [
    | inl same ↦
        let eq : ◌≡◌ {A = HalfRawEdge} (a, b) (e.0, e.1) = ground (arith, same) in
        let seen_ab : has_half (a, b) seen ≡ true = rw eq old in rw seen_ab refl
    | inr other ↦ rw other (connects-firsts seen es a b)
  ])
  | inr new ↦ rw new (ground (arith, connects-firsts ((e.0, e.1) ∷ seen) es a b))
]

connects-firsts_seen :
    (seen : List HalfRawEdge) (es : List RawEdge) (a b : ℕ)
    → has_half (a, b) seen ≡ true
    → connects a b (firsts seen es) ≡ false
unfolding firsts connects has_half
connects-firsts_seen seen [] a b h = refl
connects-firsts_seen seen (e ∷ es) a b h = elim (Bool-cases (has_half (e.0, e.1) seen)) [
  | inl old ↦ rw old (connects-firsts_seen seen es a b h)
  | inr new ↦ rw new (elim (Bool-cases (a == e.0 && b == e.1)) [
    | inl same ↦
        let eq : ◌≡◌ {A = HalfRawEdge} (a, b) (e.0, e.1) = ground (arith, same) in
        absurd (ground (arith, rw eq at h, new))
    | inr other ↦ rw other (connects-firsts_seen ((e.0, e.1) ∷ seen) es a b (ground (arith, h)))
  ])
]

firsts-DistinctEnds : (seen : List HalfRawEdge) (es : List RawEdge) → DistinctEnds (firsts seen es)
unfolding firsts has_half
firsts-DistinctEnds seen [] = tt
firsts-DistinctEnds seen (e ∷ es) = elim (Bool-cases (has_half (e.0, e.1) seen)) [
  | inl old ↦ rw old (firsts-DistinctEnds seen es)
  | inr new ↦ rw new (
    connects-firsts_seen ((e.0, e.1) ∷ seen) es e.0 e.1 (ground (arith, half_eq_refl (e.0, e.1))),
    firsts-DistinctEnds ((e.0, e.1) ∷ seen) es,
  )
]

-- Of a graph whose edges have their ends in it, the nodes stay; no two edges of the result have the same ends,
-- each is an edge of the graph, and one node has an edge to another exactly if it had one.
pub deduplicate_edges_exact :
    (P : Petgraph) (cg : CallGraph P)
    → InRange (size (P.node_weights cg.graph)) (P.edge_references cg.graph)
    → let es = P.edge_references cg.graph in
      let out = deduplicate_edges P cg in
      let fs = P.edge_references out.graph in
      (P.node_weights out.graph ≡ P.node_weights cg.graph)
      × DistinctEnds fs
      × ((e : RawEdge) → has_edge e fs ≡ true → has_edge e es ≡ true)
      × ((a b : ℕ) → connects a b fs ≡ connects a b es)
unfolding deduplicate_edges update has_half visit_nodes
deduplicate_edges_exact P cg r =
    let es = P.edge_references cg.graph in
    let ws = P.node_weights cg.graph in
    let (ns, fs, _) =
      P.filter_map_lem (λ (s : List HalfRawEdge) _ w. (s, some w)) first_of_pair [] cg.graph in
    let nodes = mapped_nodes_all (λ (s : List HalfRawEdge) _ _. s) [] 0 ws in
    let same = visit_same [] 0 ws in
    let eq = (rw (nodes, same) at fs) ∙ mapped_edges-firsts ws [] es r in
    (
      (rw nodes at ns) ∙ somes_all ws,
      rw eq (firsts-DistinctEnds [] es),
      λ e h. has_edge-firsts [] es e (rw eq at h),
      λ a b. rw eq (connects-firsts [] es a b),
    )
  where
    visit_same :
        (s : List HalfRawEdge) (i : ℕ) (ws : List CallGraphNode)
        → visit_nodes (λ (t : List HalfRawEdge) _ _. t) s i ws ≡ s
    visit_same s i [] = refl
    visit_same s i (w ∷ ws) = visit_same s (suc i) ws
