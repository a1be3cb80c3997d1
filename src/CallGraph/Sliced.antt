-- ===== src/CallGraph/Sliced.antt =====
-- What `reachable_from` and `filter_reachable` of checker/src/call_graph.rs make of a call graph.
use hepha.Prelude.{
  ℕ, ◌<◌, ◌≡◌, inl, inr, refl, sym, ◌∙◌, arith, Bool, true, false, not, ◌&&◌, ◌||◌, ◌==◌, ==_iff,
  Option, none, some, List, [], ◌∷◌, if◌then◌else◌, Bool-cases, or_cases, both,
}
use hepha.Prelude.Lists.{size, get_elem?}
use hepha.CallGraph.Sets.{RawEdge, has_node}
use hepha.CallGraph.Nodes.{CallGraphNode, is_croot}
use hepha.CallGraph.Petgraph.{Petgraph, Reach}
use hepha.CallGraph.Graphs.{CallGraph, is_some}
use hepha.CallGraph.Marking.{has_node-insert_node}
use hepha.CallGraph.Reducing.{Reached, visit_croot, visit_node, visit_reachable, reachable_from}

module _ (ws : List CallGraphNode) where
  -- The node at an index is there and is no crate root; is there and is one.
  unfoldable pub is_regular : ℕ → Bool
  unfolding is_croot
  is_regular n = elim (get_elem? ws n) [ none ↦ false | some w ↦ not (is_croot w) ]

  unfoldable pub is_root_at : ℕ → Bool
  unfolding is_croot
  is_root_at n = elim (get_elem? ws n) [ none ↦ false | some w ↦ is_croot w ]

  regular_xor_root : (n : ℕ) → (is_regular n && is_root_at n) ≡ false
  unfolding is_regular is_root_at
  regular_xor_root n = ground arith

  -- The first crate root of a list of indices.
  first_root : List ℕ → Option ℕ
  unfolding is_root_at
  first_root [] = none
  first_root (n ∷ ns) = if is_root_at n then some n else first_root ns

  abbrev is_it : ℕ → Option ℕ → Bool
  is_it n none = false
  is_it n (some m) = n == m

  is_regular_eq : (m n : ℕ) → (m == n && is_regular n) ≡ (m == n && is_regular m)
  is_regular_eq m n = elim (Bool-cases (m == n)) [
    | inl e ↦ rw ((==_iff m n).0 e) refl
    | inr e ↦ rw e refl
  ]

  visit-reachable :
      (s : Reached) (m n : ℕ)
      → has_node m (visit_node ws s n).reachable ≡ (
          has_node m s.reachable
          || (m == n && (is_regular n || (is_root_at n && not (is_some s.croot)))))
  unfolding visit_node visit_croot is_regular is_root_at is_some
  visit-reachable s m n = ground (arith, has_node-insert_node m n s.reachable)

  visit-croot :
      (s : Reached) (n : ℕ) → is_some (visit_node ws s n).croot ≡ (is_some s.croot || is_root_at n)
  unfolding visit_node visit_croot is_root_at is_some
  visit-croot s n = ground arith

  -- What the loop takes of the indices it visits.
  visit_reachable_lem :
      (s : Reached) (ns : List ℕ) (m : ℕ)
      → has_node m (visit_reachable ws s ns).reachable ≡ (
          has_node m s.reachable
          || ((has_node m ns && is_regular m)
              || (not (is_some s.croot) && is_it m (first_root ns))))
  unfolding visit_reachable has_node first_root
  visit_reachable_lem s [] m = ground arith
  visit_reachable_lem s (n ∷ ns) m =
      visit_reachable_lem (visit_node ws s n) ns m
      ∙ rw (visit-reachable s m n, visit-croot s n)
          (elim (Bool-cases (is_root_at n)) [
            | inl root ↦ rw root (ground (arith, regular_xor_root n, is_regular_eq m n, root))
            | inr other ↦ rw other (ground (arith, is_regular_eq m n))
          ])

  first_root_found :
      (ns : List ℕ) (n : ℕ)
      → first_root ns ≡ some n
      → (is_root_at n ≡ true) × (has_node n ns ≡ true)
  unfolding first_root has_node
  first_root_found [] n h = absurd cc
  first_root_found (m ∷ ns) n h = elim (Bool-cases (is_root_at m)) [
    | inl root ↦
        let same : m ≡ n = ground (arith, rw root at h) in
        (rw (← same) root, ground (arith, ==_iff n m, same))
    | inr other ↦ let (r, k) = first_root_found ns n (rw other at h) in (r, ground (arith, k))
  ]

  first_root_exists :
      (ns : List ℕ) (m : ℕ)
      → is_root_at m ≡ true
      → has_node m ns ≡ true
      → (n : ℕ) × (first_root ns ≡ some n)
  unfolding first_root has_node
  first_root_exists [] m r h = absurd cc
  first_root_exists (n ∷ ns) m r h = elim (Bool-cases (is_root_at n)) [
    | inl root ↦ (n, rw root refl)
    | inr other ↦
        or_cases (m == n) (has_node m ns) h
          (λ k. absurd (ground (arith, rw ((==_iff m n).0 k) at r, other)))
          (λ k. let (x, e) = first_root_exists ns m r k in (x, rw other e))
  ]

  is_it_eq : (m : ℕ) (o : Option ℕ) → is_it m o ≡ true → o ≡ some m
  is_it_eq m none h = absurd cc
  is_it_eq m (some n) h = ground (arith, ==_iff m n)

module _ (P : Petgraph) (cg : CallGraph P) (start_node : ℕ) where
  abbrev pub weights : List CallGraphNode
  weights = P.node_weights cg.graph

  abbrev visited : List ℕ
  visited = P.bfs cg.graph start_node

  taken :
      (m : ℕ)
      → has_node m (reachable_from P cg start_node) ≡ (
          (has_node m visited && is_regular weights m)
          || is_it weights m (first_root weights visited))
  unfolding reachable_from has_node is_some
  taken m =
      visit_reachable_lem weights (record { reachable = []; croot = none }) visited m ∙ ground arith

  abbrev pub references : List RawEdge
  references = P.edge_references cg.graph

  -- If the start is a node of the graph: all that is taken can be reached from it; what can be reached and is no
  -- crate root is taken; at most one crate root is taken, and one is if one can be reached.
  pub reachable_from_exact :
      start_node < size weights
      → let reachable = reachable_from P cg start_node in
        ((m : ℕ) → has_node m reachable ≡ true → Reach references start_node m)
        × ((m : ℕ)
            → is_regular weights m ≡ true
            → Reach references start_node m
            → has_node m reachable ≡ true)
        × ((m n : ℕ)
            → is_root_at weights m ≡ true
            → is_root_at weights n ≡ true
            → has_node m reachable ≡ true
            → has_node n reachable ≡ true
            → m ≡ n)
        × ((m : ℕ)
            → is_root_at weights m ≡ true
            → Reach references start_node m
            → (n : ℕ) × (is_root_at weights n ≡ true) × (has_node n reachable ≡ true))
  reachable_from_exact r = (
    λ m h.
        or_cases (has_node m visited && is_regular weights m)
          (is_it weights m (first_root weights visited)) (sym (taken m) ∙ h)
          (λ k.
            (P.bfs_lem cg.graph start_node m r).0
              (both (has_node m visited) (is_regular weights m) k).0)
          (λ k.
            (P.bfs_lem cg.graph start_node m r).0
              (first_root_found weights visited m
                (is_it_eq weights m (first_root weights visited) k)).1),
    λ m x w. taken m ∙ ground (arith, x, (P.bfs_lem cg.graph start_node m r).1 w),
    λ m n x y h k. ground (arith, first_of m x h, first_of n y k),
    λ m x w.
        let (n, e) =
          first_root_exists weights visited m x ((P.bfs_lem cg.graph start_node m r).1 w) in
        let (root, _) = first_root_found weights visited n e in
        (n, root, taken n ∙ rw e (ground (arith, ==_iff n n))),
  )
    where
      first_of :
          (m : ℕ)
          → is_root_at weights m ≡ true
          → has_node m (reachable_from P cg start_node) ≡ true
          → first_root weights visited ≡ some m
      first_of m x h =
          or_cases (has_node m visited && is_regular weights m)
            (is_it weights m (first_root weights visited)) (sym (taken m) ∙ h)
            (λ k. absurd (
              ground (
                arith,
                regular_xor_root weights m,
                x,
                both (has_node m visited) (is_regular weights m) k,
              )))
            (λ k. is_it_eq weights m (first_root weights visited) k)
