-- ===== src/CallGraph/Folded.antt =====
-- What `fold_excluded` of checker/src/call_graph.rs makes of a call graph.
use mathlib.Core.Path.{subst, fun_ext}
use hepha.Prelude.{
  ℕ, suc, ◌+◌, ◌≡◌, ◌↔◌, ◌⊎◌, inl, inr, refl, sym, ap, ◌∙◌, arith, Bool, true, false, not, ◌||◌,
  Option, none, some, List, [], ◌∷◌, map, if◌then◌else◌, or_cases,
}
use hepha.Prelude.Lists.{size}
use hepha.CallGraph.Sets.{RawEdge, has_edge, has_edge-append}
use hepha.CallGraph.Nodes.{Text, CallGraphNode}
use hepha.CallGraph.Petgraph.{Petgraph, somes, new_index}
use hepha.CallGraph.Filtering.{
  InRange, InRange-has_edge, InRange-of_has_edge, visit_nodes, visit_edges, mapped_nodes_all,
  mapped_edges_all, somes_all, chosen, mapped_nodes-chosen, chosen-new_index, has_edge-mapped_edges,
}
use hepha.CallGraph.Folding.{contains_key}
use hepha.CallGraph.Condensing.{Bridges, condense_edge_set_exact}
use hepha.CallGraph.Marking.{excluded_at, excluded_map, contains_key-excluded_map}
use hepha.CallGraph.Graphs.{CallGraph, update}
use hepha.CallGraph.Reducing.{
  mark_excluded, mark_edge, no_excluded, keep_nodes, add_edges, find_excluded, remove_excluded,
  fold_excluded,
}
use hepha.CallGraph.Walks.{Bypass, Bypass-Bridges, Bridges-Bypass, end-lt-size}

module _ (P : Petgraph) where
  -- A `filter_map` whose closures keep all they are handed.
  filter_map_all :
      {S : Type 0} (g : S → ℕ → CallGraphNode → S) (k : S → RawEdge → S) (s : S) (graph : P.Graph)
      → InRange (size (P.node_weights graph)) (P.edge_references graph)
      → let result = P.filter_map (λ s n w. (g s n w, some w)) (λ s e. (k s e, some e.2)) s graph in
        (P.node_weights result.1 ≡ P.node_weights graph)
        × (P.edge_references result.1 ≡ P.edge_references graph)
        × (result.0
            ≡ visit_edges k (visit_nodes g s 0 (P.node_weights graph)) (P.edge_references graph))
  filter_map_all g k s graph r =
      let (ns, es, st) =
        P.filter_map_lem (λ s n w. (g s n w, some w)) (λ s e. (k s e, some e.2)) s graph in
      let nodes = mapped_nodes_all g s 0 (P.node_weights graph) in
      let edges =
        mapped_edges_all k (P.node_weights graph) (visit_nodes g s 0 (P.node_weights graph))
          (P.edge_references graph) r in
      (
        (rw nodes at ns) ∙ somes_all (P.node_weights graph),
        (rw nodes at es) ∙ ap (λ p. p.1) edges,
        (rw nodes at st) ∙ ap (λ p. p.0) edges,
      )

  -- The nodes that pass stay, and the edges between them.
  pub keep_nodes_lem :
      (test : ℕ → CallGraphNode → Bool) (graph : P.Graph)
      → let kept = chosen test 0 (P.node_weights graph) in
        (P.node_weights (keep_nodes P test graph) ≡ somes kept)
        × ((a b c d t : ℕ)
            → new_index kept a ≡ some c
            → new_index kept b ≡ some d
            → has_edge (c, d, t) (P.edge_references (keep_nodes P test graph))
              ≡ has_edge (a, b, t) (P.edge_references graph))
  keep_nodes_lem test graph =
      let (ns, es, _) =
        P.filter_map_lem {S = Unit {0}} (λ s n w. (s, if test n w then some w else none))
          (λ s e. (s, some e.2)) tt graph in
      let nodes = mapped_nodes-chosen test 0 (P.node_weights graph) in
      (
        rw nodes at ns,
        λ a b c d t p q. rw (rw nodes at es) (
            has_edge-mapped_edges (chosen test 0 (P.node_weights graph)) tt
              (P.edge_references graph) a b c d t p q),
      )

  add_edges_lem :
      (graph : P.Graph) (cs : List RawEdge)
      → InRange (size (P.node_weights graph)) cs
      → (P.node_weights (add_edges P graph cs) ≡ P.node_weights graph)
        × ((e : RawEdge)
            → has_edge e (P.edge_references (add_edges P graph cs))
              ≡ (has_edge e (P.edge_references graph) || has_edge e cs))
  unfolding add_edges has_edge
  add_edges_lem graph [] r = (refl, λ e. ground arith)
  add_edges_lem graph (c ∷ cs) r =
      let (ns, es) = P.add_edge_lem graph c r.0 r.1 in
      let (ns', es') =
        add_edges_lem (P.add_edge graph c) cs
          (subst (λ (l : List CallGraphNode). InRange (size l) cs) (sym ns) r.2) in
      (
        ns' ∙ ns,
        λ e. es' e ∙ rw es (ground (arith, has_edge-append e (P.edge_references graph) (c ∷ []))),
      )

  visit_edges_same : {S : Type 0} (s : S) (es : List RawEdge) → visit_edges (λ t _. t) s es ≡ s
  unfolding visit_edges
  visit_edges_same s [] = refl
  visit_edges_same s (e ∷ es) = visit_edges_same s es

  visit_nodes_same :
      {S : Type 0} (s : S) (i : ℕ) (ws : List CallGraphNode) → visit_nodes (λ t _ _. t) s i ws ≡ s
  unfolding visit_nodes
  visit_nodes_same s i [] = refl
  visit_nodes_same s i (w ∷ ws) = visit_nodes_same s (suc i) ws

  module _ (cg : CallGraph P) where
    abbrev pub weights : List CallGraphNode
    weights = P.node_weights cg.graph

    abbrev pub references : List RawEdge
    references = P.edge_references cg.graph

    abbrev pub crates_of : List Text
    crates_of = cg.config.included_crates

    find_excluded_lem :
        InRange (size weights) references
        → ((find_excluded P cg).0 ≡ excluded_map crates_of weights references)
          × (P.node_weights (find_excluded P cg).1 ≡ weights)
          × (P.edge_references (find_excluded P cg).1 ≡ references)
    unfolding find_excluded excluded_map
    find_excluded_lem r =
        let (ns, es, st) =
          filter_map_all (mark_excluded crates_of) (λ s _. s) no_excluded cg.graph r in
        let marked =
          P.filter_map (λ s n w. (mark_excluded crates_of s n w, some w)) (λ s e. (s, some e.2))
            no_excluded cg.graph in
        let (ns', es', st') =
          filter_map_all (λ s _ _. s) mark_edge marked.0 marked.1 (rw (ns, es) r) in
        (
          st'
              ∙ rw (ns, es)
                  (rw (visit_nodes_same marked.0 0 weights) (
                    rw
                      (st
                        ∙ visit_edges_same
                            (visit_nodes (mark_excluded crates_of) no_excluded 0 weights)
                            references)
                      refl)),
          ns' ∙ ns,
          es' ∙ es,
        )

    -- The nodes that stay, each at its old index.
    abbrev pub included : List (Option CallGraphNode)
    included = chosen (λ n _. not (excluded_at crates_of weights n)) 0 weights

    abbrev pub Result : CallGraph P → Type 0
    Result out =
        (P.node_weights out.graph ≡ somes included)
        × ((a b c d t : ℕ)
            → new_index included a ≡ some c
            → new_index included b ≡ some d
            → (has_edge (c, d, t) (P.edge_references out.graph) ≡ true) ↔ (
                (has_edge (a, b, t) references ≡ true)
                ⊎ Bypass crates_of weights references (a, b, t)))

    stays : (a c : ℕ) → new_index included a ≡ some c → excluded_at crates_of weights a ≡ false
    stays a c h =
        let (_, _, pass) =
          chosen-new_index (λ n _. not (excluded_at crates_of weights n)) 0 weights a c h in
        ground (arith, rw (zero_plus a) at pass)
      where
        zero_plus : (n : ℕ) → 0 + n ≡ n
        zero_plus n = omega arith

    remove_excluded_lem :
        (graph : P.Graph)
        → InRange (size weights) references
        → P.node_weights graph ≡ weights
        → P.edge_references graph ≡ references
        → (out : CallGraph P) × (remove_excluded P cg
              (excluded_map crates_of weights references)
              graph
            ≡ some out)
          × Result out
    unfolding remove_excluded update
    remove_excluded_lem graph r ns es =
        let map = excluded_map crates_of weights references in
        let test : ℕ → CallGraphNode → Bool = λ n _. not (contains_key n map) in
        let (condensed, ends, exact) = condense_edge_set_exact map in
        let added = add_edges_lem graph condensed (rw ns (ranged condensed exact)) in
        let same : test ≡ (λ n _. not (excluded_at crates_of weights n)) =
          fun_ext (λ n.
            fun_ext (λ _. ap not (contains_key-excluded_map crates_of weights references n))) in
        let graph' = add_edges P graph condensed in
        let (kn, ke) = keep_nodes_lem test graph' in
        (
          update P cg (keep_nodes P test graph'),
          rw (ends, remove_excluded) refl,
          (
            kn
                ∙ ap (λ (l : List CallGraphNode). somes (chosen test 0 l)) (added.0 ∙ ns)
                ∙ ap (λ (p : ℕ → CallGraphNode → Bool). somes (chosen p 0 weights)) same,
            λ a b c d t p q.
                let eq =
                  ke a b c d t (rw (added.0 ∙ ns) (rw same p)) (rw (added.0 ∙ ns) (rw same q))
                  ∙ added.1 (a, b, t) in
                (
                  λ h.
                      or_cases (has_edge (a, b, t) (P.edge_references graph))
                        (has_edge (a, b, t) condensed) (sym eq ∙ h) (λ k. inl (rw es at k))
                        (λ k. inr (
                          Bypass-Bridges crates_of weights references (a, b, t)
                            ((exact (a, b, t)).0 k))),
                  λ s. eq ∙ elim s [
                    | inl k ↦ rw es (ground (arith, k))
                    | inr y ↦
                        let k = (exact (a, b, t)).1 (
                          Bridges-Bypass crates_of weights references (a, b, t) (stays a c p)
                            (stays b d q) y) in
                        ground (arith, k)
                  ],
                ),
          ),
        )
      where
        ranged :
            (condensed : List RawEdge)
            → ((e : RawEdge)
                → (has_edge e condensed ≡ true)
                  ↔ Bridges
                      (excluded_map crates_of weights references)
                      (excluded_map crates_of weights references).keys
                      e)
            → InRange (size weights) condensed
        ranged condensed exact = InRange-of_has_edge (size weights) condensed (λ e h.
            let y = Bypass-Bridges crates_of weights references e ((exact e).0 h) in
            (
              (InRange-has_edge (size weights) references (e.0, y.middle, e.2) r y.enters).0,
              end-lt-size crates_of weights references y.middle r y.leads,
            ))

    -- Of a graph whose edges have their ends in it: folding ends; its nodes are those that are not excluded, in
    -- order; and of the nodes that stay, one has an edge of a type to another exactly if it had one, or had one
    -- of that type to an excluded node from which a walk through excluded nodes led to the other.
    pub fold_excluded_exact :
        InRange (size weights) references
        → (out : CallGraph P) × (fold_excluded P cg ≡ some out) × Result out
    unfolding fold_excluded
    fold_excluded_exact r =
        let (map, ns, es) = find_excluded_lem r in
        let (out, returns, result) = remove_excluded_lem (find_excluded P cg).1 r ns es in
        (out, rw (map, fold_excluded) returns, result)
