-- ===== src/CallGraph/Cleaned.antt =====
-- What `filter_no_edges` of checker/src/call_graph.rs makes of a call graph.
use hepha.Prelude.{
  ℕ, zero, suc, ◌+◌, ◌<◌, ◌≡◌, refl, ◌∙◌, arith, Bool, true, ◌||◌, ◌==◌, Option, none, some, List,
  [], ◌∷◌, or_cases,
}
use hepha.Prelude.Lists.{size, get_elem?}
use hepha.CallGraph.Sets.{RawEdge, has_edge, raw_eq}
use hepha.CallGraph.Nodes.{CallGraphNode}
use hepha.CallGraph.Petgraph.{Petgraph, somes, next, new_index}
use hepha.CallGraph.Filtering.{
  InRange, InRange-has_edge, chosen, chosen-new_index, new_index-chosen,
}
use hepha.CallGraph.Graphs.{CallGraph, update}
use hepha.CallGraph.Folded.{keep_nodes_lem}
use hepha.CallGraph.Reducing.{has_in_edges, has_out_edges, filter_no_edges}

has_out_edges_found :
    (n : ℕ) (es : List RawEdge)
    → has_out_edges n es ≡ true
    → (b : ℕ) × (t : ℕ) × (has_edge (n, b, t) es ≡ true)
unfolding has_out_edges has_edge
has_out_edges_found n [] h = absurd cc
has_out_edges_found n (e ∷ es) h =
    or_cases (e.0 == n) (has_out_edges n es) h (λ k. (e.1, e.2, ground (arith, k)))
      (λ k. let (b, t, r) = has_out_edges_found n es k in (b, t, ground (arith, r)))

has_in_edges_found :
    (n : ℕ) (es : List RawEdge)
    → has_in_edges n es ≡ true
    → (a : ℕ) × (t : ℕ) × (has_edge (a, n, t) es ≡ true)
unfolding has_in_edges has_edge
has_in_edges_found n [] h = absurd cc
has_in_edges_found n (e ∷ es) h =
    or_cases (e.1 == n) (has_in_edges n es) h (λ k. (e.0, e.2, ground (arith, k)))
      (λ k. let (b, t, r) = has_in_edges_found n es k in (b, t, ground (arith, r)))

has_out_edges_of :
    (n b t : ℕ) (es : List RawEdge) → has_edge (n, b, t) es ≡ true → has_out_edges n es ≡ true
unfolding has_out_edges has_edge
has_out_edges_of n b t [] h = absurd cc
has_out_edges_of n b t (e ∷ es) h =
    or_cases (raw_eq (n, b, t) e) (has_edge (n, b, t) es) h (λ k. ground (arith, k))
      (λ k. ground (arith, has_out_edges_of n b t es k))

has_in_edges_of :
    (a n t : ℕ) (es : List RawEdge) → has_edge (a, n, t) es ≡ true → has_in_edges n es ≡ true
unfolding has_in_edges has_edge
has_in_edges_of a n t [] h = absurd cc
has_in_edges_of a n t (e ∷ es) h =
    or_cases (raw_eq (a, n, t) e) (has_edge (a, n, t) es) h (λ k. ground (arith, k))
      (λ k. ground (arith, has_in_edges_of a n t es k))

-- Each index of the result is the new index of a node that stays.
old_index :
    (os : List (Option CallGraphNode)) (c : ℕ)
    → c < size (somes os)
    → (a : ℕ) × (new_index os a ≡ some c)
unfolding somes new_index next
old_index [] c h = absurd (omega arith)
old_index (none ∷ os) c h = let (a, e) = old_index os c h in (suc a, e)
old_index (some w ∷ os) zero h = (zero, refl)
old_index (some w ∷ os) (suc c) h = let (a, e) = old_index os c (omega arith) in (suc a, rw e refl)

element :
    (ws : List CallGraphNode) (n : ℕ)
    → n < size ws
    → (w : CallGraphNode) × (get_elem? ws n ≡ some w)
element [] n h = absurd (omega arith)
element (w ∷ ws) zero h = (w, refl)
element (w ∷ ws) (suc n) h = element ws n (omega arith)

module _ (P : Petgraph) (cg : CallGraph P) where
  abbrev weights : List CallGraphNode
  weights = P.node_weights cg.graph

  abbrev references : List RawEdge
  references = P.edge_references cg.graph

  abbrev connected : ℕ → CallGraphNode → Bool
  connected n _ = has_in_edges n references || has_out_edges n references

  -- Of a graph whose edges have their ends in it: the nodes that have an edge stay, in order; between them the
  -- edges stay; both ends of every edge stay; and every node of the result has an edge.
  pub filter_no_edges_exact :
      InRange (size weights) references
      → let kept = chosen connected 0 weights in
        let out = (filter_no_edges P cg).graph in
        (P.node_weights out ≡ somes kept)
        × ((a b c d t : ℕ)
            → new_index kept a ≡ some c
            → new_index kept b ≡ some d
            → has_edge (c, d, t) (P.edge_references out) ≡ has_edge (a, b, t) references)
        × ((a b t : ℕ)
            → has_edge (a, b, t) references ≡ true
            → (c : ℕ) × (d : ℕ) × (new_index kept a ≡ some c) × (new_index kept b ≡ some d))
        × ((c : ℕ)
            → c < size (P.node_weights out)
            → (has_in_edges c (P.edge_references out) || has_out_edges c (P.edge_references out))
              ≡ true)
  unfolding filter_no_edges update
  filter_no_edges_exact r =
      let (ns, es) = keep_nodes_lem P connected cg.graph in
      (
        ns,
        es,
        ends,
        λ c h. joined c (P.edge_references (filter_no_edges P cg).graph) (rw ns at h) es,
      )
    where
      kept : List (Option CallGraphNode)
      kept = chosen connected 0 weights

      zero_plus : (n : ℕ) → 0 + n ≡ n
      zero_plus n = omega arith

      stays :
          (n : ℕ)
          → n < size weights
          → (has_in_edges n references || has_out_edges n references) ≡ true
          → (c : ℕ) × (new_index kept n ≡ some c)
      stays n h k =
          let (w, e) = element weights n h in
          new_index-chosen connected 0 weights n w e (rw (zero_plus n) k)

      ends :
          (a b t : ℕ)
          → has_edge (a, b, t) references ≡ true
          → (c : ℕ) × (d : ℕ) × (new_index kept a ≡ some c) × (new_index kept b ≡ some d)
      ends a b t e =
          let (ra, rb) = InRange-has_edge (size weights) references (a, b, t) r e in
          let (c, ec) = stays a ra (ground (arith, has_out_edges_of a b t references e)) in
          let (d, ed) = stays b rb (ground (arith, has_in_edges_of a b t references e)) in
          (c, d, ec, ed)

      joined :
          (c : ℕ) (fs : List RawEdge)
          → c < size (somes kept)
          → ((a b c d t : ℕ)
              → new_index kept a ≡ some c
              → new_index kept b ≡ some d
              → has_edge (c, d, t) fs ≡ has_edge (a, b, t) references)
          → (has_in_edges c fs || has_out_edges c fs) ≡ true
      joined c fs h es =
          let (a, ea) = old_index kept c h in
          let (_, _, pass) = chosen-new_index connected 0 weights a c ea in
          or_cases (has_in_edges a references) (has_out_edges a references)
            (rw (zero_plus a) at pass)
            (λ k.
              let (x, t, e) = has_in_edges_found a references k in
              let (y, _, ey, _) = ends x a t e in
              ground (arith, has_in_edges_of y c t fs (es x a y c t ey ea ∙ e)))
            (λ k.
              let (x, t, e) = has_out_edges_found a references k in
              let (_, y, _, ey) = ends a x t e in
              ground (arith, has_out_edges_of c y t fs (es a x c y t ea ey ∙ e)))
