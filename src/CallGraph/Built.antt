-- ===== src/CallGraph/Built.antt =====
-- The operations of checker/src/call_graph.rs that build a call graph keep its invariant.
use hepha.Prelude.{
  ℕ, ◌<◌, ◌≡◌, inl, inr, refl, sym, ap, ◌∙◌, arith, true, false, ◌||◌, ◌==◌, ==_iff, none, some,
  Option-cases, List, [], ◌∷◌, ◌++◌, Bool-cases,
}
use hepha.Prelude.Lists.{size, lt-size_of_get_elem?}
use hepha.TreeMap.{assoc, assoc-put}
use hepha.CallGraph.Sets.{RawEdge, has_node, has_edge, has_edge-append, raw_eq, raw_eq_lem}
use hepha.CallGraph.Nodes.{DefId, Text, CallGraphNode, new_croot, new_root}
use hepha.CallGraph.Petgraph.{Petgraph}
use hepha.CallGraph.Filtering.{InRange}
use hepha.CallGraph.Graphs.{CallGraph, CallGraphConfig, new_graph}
use hepha.CallGraph.Building.{
  existing_types, add_edge_type, add_new, add_croot, add_root, get_or_insert_node, add_edge,
}
use hepha.CallGraph.Marking.{has_node-insert_node}
use hepha.CallGraph.Invariant.{Agrees, Distinct, replace-Agrees, append-Agrees}

existing_types_lem :
    (a b t : ℕ) (es : List RawEdge) → has_node t (existing_types a b es) ≡ has_edge (a, b, t) es
unfolding existing_types has_node has_edge
existing_types_lem a b t [] = refl
existing_types_lem a b t (e ∷ es) =
    ground (arith, existing_types_lem a b t es, has_node-insert_node t e.2 (existing_types a b es))

InRange-snoc :
    (n : ℕ) (es : List RawEdge) (e : RawEdge)
    → InRange n es
    → e.0 < n
    → e.1 < n
    → InRange n (es ++ e ∷ [])
InRange-snoc n [] e r a b = (a, b, tt)
InRange-snoc n (f ∷ es) e r a b = (r.0, r.1, InRange-snoc n es e r.2 a b)

Distinct-snoc :
    (es : List RawEdge) (e : RawEdge)
    → Distinct es
    → has_edge e es ≡ false
    → Distinct (es ++ e ∷ [])
unfolding has_edge
Distinct-snoc [] e d h = (refl, tt)
Distinct-snoc (f ∷ es) e d h = (
  has_edge-append f es (e ∷ []) ∙ ground (arith, d.0, h),
  Distinct-snoc es e d.1 (ground (arith, h)),
)

module _ (P : Petgraph) where
  -- The map and the graph agree.
  abbrev pub IsValid : CallGraph P → Type 0
  IsValid cg = Agrees cg.nodes (P.node_weights cg.graph) (P.edge_references cg.graph)

  pub new_graph-IsValid : (config : CallGraphConfig) → IsValid (new_graph P config)
  unfolding new_graph
  new_graph-IsValid config =
      let (ws, es) = P.new_lem in
      rw (ws, es)
        (record {
          found = λ d i h. absurd cc;
          named = λ i w h. absurd cc;
          in_range = tt;
          distinct = tt;
        })

  module _ (format_name : DefId → Text) where
    -- What an operation that may add the node of a definition keeps.
    record Keeps (cg out : CallGraph P) : Type 0 where
      valid : IsValid out
      old : (d i : ℕ) → assoc ◌==◌ d cg.nodes ≡ some i → assoc ◌==◌ d out.nodes ≡ some i
      same : P.edge_references out.graph ≡ P.edge_references cg.graph

    add_new_lem :
        (cg : CallGraph P) (v : CallGraphNode)
        → assoc ◌==◌ v.defid cg.nodes ≡ none
        → IsValid cg
        → Keeps cg (add_new P format_name cg v).0
          × (assoc ◌==◌ v.defid (add_new P format_name cg v).0.nodes
              ≡ some (add_new P format_name cg v).1)
    unfolding add_new
    add_new_lem cg v fresh a =
        let (ws, es, id) = P.add_node_lem cg.graph v in
        (
          record {
            valid = rw (ws, es, id) (append-Agrees v fresh a);
            old = λ d i h.
                assoc-put ◌==◌ ==_iff cg.nodes v.defid (P.add_node cg.graph v).1 d
                ∙ elim (Bool-cases (v.defid == d)) [
                  | inl e ↦ absurd (ground (arith, fresh, rw (sym ((==_iff v.defid d).0 e)) at h))
                  | inr e ↦ rw e h
                ];
            same = es;
          },
          assoc-put ◌==◌ ==_iff cg.nodes v.defid (P.add_node cg.graph v).1 v.defid
              ∙ ground (arith, ==_iff v.defid v.defid),
        )

    pub add_root-IsValid :
        (cg : CallGraph P) (d : DefId) → IsValid cg → IsValid (add_root P format_name cg d)
    unfolding add_root new_root
    add_root-IsValid cg d a = elim (Option-cases (assoc ◌==◌ d cg.nodes)) [
      | inl e ↦ rw (e, add_root) (add_new_lem cg (new_root format_name d) e a).0.valid
      | inr (i, e) ↦ rw (e, add_root) a
    ]

    pub add_croot-IsValid :
        (cg : CallGraph P) (d : DefId) → IsValid cg → IsValid (add_croot P format_name cg d)
    unfolding add_croot new_croot
    add_croot-IsValid cg d a = elim (Option-cases (assoc ◌==◌ d cg.nodes)) [
      | inl e ↦ rw (e, add_croot) (add_new_lem cg (new_croot format_name d) e a).0.valid
      | inr (i, e) ↦
          let (ws, es) = P.set_node_weight_lem cg.graph i (new_croot format_name d) in
          rw (e, add_croot) (rw (ws, es) (replace-Agrees i (new_croot format_name d) e a))
    ]

    get_or_insert_node_lem :
        (cg : CallGraph P) (d : DefId)
        → IsValid cg
        → Keeps cg (get_or_insert_node P format_name cg d).0
          × (assoc ◌==◌ d (get_or_insert_node P format_name cg d).0.nodes
              ≡ some (get_or_insert_node P format_name cg d).1)
    unfolding get_or_insert_node new_root
    get_or_insert_node_lem cg d a = elim (Option-cases (assoc ◌==◌ d cg.nodes)) [
      | inl e ↦ rw (e, get_or_insert_node) (add_new_lem cg (new_root format_name d) e a)
      | inr (i, e) ↦
          rw (e, get_or_insert_node) (record { valid = a; old = λ _ _ h. h; same = refl }, e)
    ]

    edge_type_keeps :
        (cg : CallGraph P) (s : Text)
        → ((add_edge_type P cg s).0.nodes ≡ cg.nodes) × ((add_edge_type P cg s).0.graph ≡ cg.graph)
    unfolding add_edge_type
    edge_type_keeps cg s = ground arith

    module _ (cg : CallGraph P) (caller callee : DefId) (s : Text) where
      abbrev typed : CallGraph P × ℕ
      typed = add_edge_type P cg s

      abbrev with_caller : CallGraph P × ℕ
      with_caller = get_or_insert_node P format_name typed.0 caller

      abbrev with_callee : CallGraph P × ℕ
      with_callee = get_or_insert_node P format_name with_caller.0 callee

      record BothEnds : Type 0 where
        valid : IsValid with_callee.0
        kept :
            (d i : ℕ) → assoc ◌==◌ d cg.nodes ≡ some i → assoc ◌==◌ d with_callee.0.nodes ≡ some i
        has_caller : assoc ◌==◌ caller with_callee.0.nodes ≡ some with_caller.1
        has_callee : assoc ◌==◌ callee with_callee.0.nodes ≡ some with_callee.1
        same : P.edge_references with_callee.0.graph ≡ P.edge_references cg.graph

      both_ends : IsValid cg → BothEnds
      both_ends a =
          let (ns, gr) = edge_type_keeps cg s in
          let a1 : IsValid typed.0 = rw (ns, gr) a in
          let (k1, e1) = get_or_insert_node_lem typed.0 caller a1 in
          let (k2, e2) = get_or_insert_node_lem with_caller.0 callee k1.valid in
          record {
            valid = k2.valid;
            kept = λ d i h. k2.old d i (k1.old d i (rw ns h));
            has_caller = k2.old caller with_caller.1 e1;
            has_callee = e2;
            same = k2.same ∙ k1.same ∙ ap P.edge_references gr;
          }

      -- If map and graph agree and no edge stands twice, then so it is after a call is added; the nodes that the
      -- map had are kept, both definitions have nodes, and the edges are those that were there and the one
      -- between these two nodes with the id of the type.
      pub add_edge_exact :
          IsValid cg
          → let out = add_edge P format_name cg caller callee s in
            IsValid out
            × ((d i : ℕ) → assoc ◌==◌ d cg.nodes ≡ some i → assoc ◌==◌ d out.nodes ≡ some i)
            × ((a : ℕ) × (b : ℕ) × (assoc ◌==◌ caller out.nodes ≡ some a)
                × (assoc ◌==◌ callee out.nodes ≡ some b)
                × ((e : RawEdge)
                    → has_edge e (P.edge_references out.graph) ≡ (
                        has_edge e (P.edge_references cg.graph)
                        || raw_eq e (a, b, (add_edge_type P cg s).1))))
      unfolding add_edge has_edge
      add_edge_exact a =
          let ends = both_ends a in
          let caller_node = with_caller.1 in
          let callee_node = with_callee.1 in
          let es = P.edge_references with_callee.0.graph in
          let known = existing_types_lem caller_node callee_node typed.1 es in
          let (wa, ga, _) = ends.valid.found caller caller_node ends.has_caller in
          let (wb, gb, _) = ends.valid.found callee callee_node ends.has_callee in
          let ws = P.node_weights with_callee.0.graph in
          let (ns', es') =
            P.add_edge_lem with_callee.0.graph (caller_node, callee_node, typed.1)
              (lt-size_of_get_elem? ws caller_node wa ga)
              (lt-size_of_get_elem? ws callee_node wb gb) in
          elim (Bool-cases (has_edge (caller_node, callee_node, typed.1) es)) [
            | inl old ↦ rw (known ∙ old) (
              ends.valid,
              ends.kept,
              (
                caller_node,
                callee_node,
                ends.has_caller,
                ends.has_callee,
                λ e. rw (← ends.same) (repeated e es old),
              ),
            )
            | inr new ↦ rw (known ∙ new) (
              rw (ns', es')
                  (record {
                    found = ends.valid.found;
                    named = ends.valid.named;
                    in_range =
                        InRange-snoc (size ws) es (caller_node, callee_node, typed.1)
                          ends.valid.in_range (lt-size_of_get_elem? ws caller_node wa ga)
                          (lt-size_of_get_elem? ws callee_node wb gb);
                    distinct =
                        Distinct-snoc es (caller_node, callee_node, typed.1) ends.valid.distinct
                          new;
                  }),
              ends.kept,
              (
                caller_node,
                callee_node,
                ends.has_caller,
                ends.has_callee,
                λ e.
                    rw (es', ← ends.same)
                      (has_edge-append e es ((caller_node, callee_node, typed.1) ∷ [])
                        ∙ ground arith),
              ),
            )
          ]
        where
          repeated :
              (e : RawEdge) (es : List RawEdge)
              → has_edge (with_caller.1, with_callee.1, typed.1) es ≡ true
              → has_edge e es ≡ (has_edge e es || raw_eq e (with_caller.1, with_callee.1, typed.1))
          repeated e es old = elim (Bool-cases (raw_eq e (with_caller.1, with_callee.1, typed.1))) [
            | inl k ↦
                rw (raw_eq_lem e (with_caller.1, with_callee.1, typed.1) k) (ground (arith, old))
            | inr k ↦ rw k (ground arith)
          ]
