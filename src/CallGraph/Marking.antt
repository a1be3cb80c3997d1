-- ===== src/CallGraph/Marking.antt =====
-- The map of excluded nodes that the first two steps of `fold_excluded` of checker/src/call_graph.rs make.
use hepha.Prelude.{
  ℕ, zero, suc, ◌-◌, ◌≡◌, inl, inr, refl, ◌∙◌, arith, Bool, false, ◌&&◌, ◌||◌, ◌==◌, leb, ==_iff,
  none, some, List, [], ◌∷◌, Bool-cases,
}
use hepha.Prelude.Lists.{get_elem?}
use hepha.CallGraph.Sets.{
  HalfRawEdge, RawEdge, has_node, has_half, has_edge, raw_eq, has_half-insert_half,
}
use hepha.CallGraph.Nodes.{Text, CallGraphNode, is_excluded}
use hepha.CallGraph.Filtering.{visit_nodes, visit_edges}
use hepha.CallGraph.Folding.{MidpointExcludedMap, contains_key}
use hepha.CallGraph.Building.{insert_node}
use hepha.CallGraph.Reducing.{mark_excluded, mark_edge, insert_in, insert_out, no_excluded}

pub has_node-insert_node :
    (m n : ℕ) (s : List ℕ) → has_node m (insert_node n s) ≡ (m == n || has_node m s)
unfolding insert_node has_node
has_node-insert_node m n s = elim (Bool-cases (has_node n s)) [
  | inl old ↦ rw old (elim (Bool-cases (m == n)) [
    | inl same ↦ rw same (rw ((==_iff m n).0 same) old)
    | inr other ↦ rw other refl
  ])
  | inr new ↦ rw new refl
]

-- The node at an index is there, and no included crate is named in its name.
unfoldable pub excluded_at : List Text → List CallGraphNode → ℕ → Bool
unfolding is_excluded
excluded_at crates ws n = elim (get_elem? ws n) [ none ↦ false | some w ↦ is_excluded w crates ]

module _ (crates : List Text) where
  abbrev mark_all : MidpointExcludedMap → ℕ → List CallGraphNode → MidpointExcludedMap
  mark_all = visit_nodes (mark_excluded crates)

  has_node-mark :
      (s : MidpointExcludedMap) (k m : ℕ) (w : CallGraphNode)
      → has_node m (mark_excluded crates s k w).keys
        ≡ (has_node m s.keys || (m == k && is_excluded w crates))
  unfolding mark_excluded
  has_node-mark s k m w = ground (arith, has_node-insert_node m k s.keys)

  has_node-mark_all :
      (s : MidpointExcludedMap) (k : ℕ) (ws : List CallGraphNode) (m : ℕ)
      → has_node m (mark_all s k ws).keys
        ≡ (has_node m s.keys || (leb k m && excluded_at crates ws (m - k)))
  unfolding visit_nodes excluded_at
  has_node-mark_all s k [] m = ground arith
  has_node-mark_all s k (w ∷ ws) m =
      has_node-mark_all (mark_excluded crates s k w) (suc k) ws m
      ∙ rw (has_node-mark s k m w) (elim (Bool-cases (leb (suc k) m)) [
        | inl above ↦
            let e : m - k ≡ suc (m - suc k) = ground (arith, above) in rw e (ground (arith, above))
        | inr below ↦ elim (Bool-cases (m == k)) [
          | inl same ↦ let e : m - k ≡ zero = ground (arith, same) in rw e (ground (arith, same))
          | inr other ↦ ground (arith, below, other)
        ]
      ])

  abbrev Empty : MidpointExcludedMap → Type 0
  Empty s = (n : ℕ) → (s.in_edges n ≡ []) × (s.out_edges n ≡ [])

  mark-Empty :
      (s : MidpointExcludedMap) (k : ℕ) (w : CallGraphNode)
      → Empty s
      → Empty (mark_excluded crates s k w)
  unfolding mark_excluded
  mark-Empty s k w h n = ground (arith, h n)

  mark_all-Empty :
      (s : MidpointExcludedMap) (k : ℕ) (ws : List CallGraphNode)
      → Empty s
      → Empty (mark_all s k ws)
  unfolding visit_nodes
  mark_all-Empty s k [] h = h
  mark_all-Empty s k (w ∷ ws) h =
      mark_all-Empty (mark_excluded crates s k w) (suc k) ws (mark-Empty s k w h)

mark_edge-keys : (s : MidpointExcludedMap) (e : RawEdge) → (mark_edge s e).keys ≡ s.keys
unfolding mark_edge insert_in insert_out
mark_edge-keys s e = ground arith

visit-keys :
    (s : MidpointExcludedMap) (es : List RawEdge) → (visit_edges mark_edge s es).keys ≡ s.keys
unfolding visit_edges
visit-keys s [] = refl
visit-keys s (e ∷ es) = visit-keys (mark_edge s e) es ∙ mark_edge-keys s e

in-mark_edge :
    (s : MidpointExcludedMap) (e : RawEdge) (h : HalfRawEdge) (n : ℕ)
    → has_half h ((mark_edge s e).in_edges n)
      ≡ (has_half h (s.in_edges n) || (has_node n s.keys && raw_eq (h.0, n, h.1) e))
unfolding mark_edge insert_in insert_out contains_key
in-mark_edge s e h n = elim (Bool-cases (n == e.1)) [
  | inl same ↦
      let eq = (==_iff n e.1).0 same in
      rw eq (ground (arith, has_half-insert_half h (e.0, e.2) (s.in_edges e.1)))
  | inr other ↦ ground (arith, other)
]

out-mark_edge :
    (s : MidpointExcludedMap) (e : RawEdge) (h : HalfRawEdge) (n : ℕ)
    → has_half h ((mark_edge s e).out_edges n)
      ≡ (has_half h (s.out_edges n) || (has_node n s.keys && raw_eq (n, h.0, h.1) e))
unfolding mark_edge insert_in insert_out contains_key
out-mark_edge s e h n = elim (Bool-cases (n == e.0)) [
  | inl same ↦
      let eq = (==_iff n e.0).0 same in
      rw eq (ground (arith, has_half-insert_half h (e.1, e.2) (s.out_edges e.0)))
  | inr other ↦ ground (arith, other)
]

spread : (a k x y : Bool) → ((a || (k && x)) || (k && y)) ≡ (a || (k && (x || y)))
spread a k x y = ground arith

in-visit :
    (s : MidpointExcludedMap) (es : List RawEdge) (h : HalfRawEdge) (n : ℕ)
    → has_half h ((visit_edges mark_edge s es).in_edges n)
      ≡ (has_half h (s.in_edges n) || (has_node n s.keys && has_edge (h.0, n, h.1) es))
unfolding visit_edges has_edge
in-visit s [] h n = ground arith
in-visit s (e ∷ es) h n =
    in-visit (mark_edge s e) es h n
    ∙ rw (in-mark_edge s e h n) (
        rw (mark_edge-keys s e) (
          spread (has_half h (s.in_edges n)) (has_node n s.keys) (raw_eq (h.0, n, h.1) e)
            (has_edge (h.0, n, h.1) es)))

out-visit :
    (s : MidpointExcludedMap) (es : List RawEdge) (h : HalfRawEdge) (n : ℕ)
    → has_half h ((visit_edges mark_edge s es).out_edges n)
      ≡ (has_half h (s.out_edges n) || (has_node n s.keys && has_edge (n, h.0, h.1) es))
unfolding visit_edges has_edge
out-visit s [] h n = ground arith
out-visit s (e ∷ es) h n =
    out-visit (mark_edge s e) es h n
    ∙ rw (out-mark_edge s e h n) (
        rw (mark_edge-keys s e) (
          spread (has_half h (s.out_edges n)) (has_node n s.keys) (raw_eq (n, h.0, h.1) e)
            (has_edge (n, h.0, h.1) es)))

-- The map that the first two steps make.
unfoldable pub excluded_map : List Text → List CallGraphNode → List RawEdge → MidpointExcludedMap
unfolding visit_edges visit_nodes mark_edge mark_excluded
excluded_map crates ws es =
    visit_edges mark_edge (visit_nodes (mark_excluded crates) no_excluded 0 ws) es

from_zero : (n : ℕ) → n - 0 ≡ n
from_zero n = omega arith

keys-marked :
    (crates : List Text) (ws : List CallGraphNode) (n : ℕ)
    → has_node n (visit_nodes (mark_excluded crates) no_excluded 0 ws).keys
      ≡ excluded_at crates ws n
unfolding has_node
keys-marked crates ws n =
    has_node-mark_all crates no_excluded 0 ws n ∙ rw (from_zero n) (ground arith)

-- Its keys are the excluded nodes, and the entry of a node holds the edges into it and out of it.
module _ (crates : List Text) (ws : List CallGraphNode) (es : List RawEdge) where
  pub contains_key-excluded_map :
      (n : ℕ) → contains_key n (excluded_map crates ws es) ≡ excluded_at crates ws n
  unfolding excluded_map contains_key
  contains_key-excluded_map n =
      rw (visit-keys (visit_nodes (mark_excluded crates) no_excluded 0 ws) es)
        (keys-marked crates ws n)

  pub in-excluded_map :
      (h : HalfRawEdge) (n : ℕ)
      → has_half h ((excluded_map crates ws es).in_edges n)
        ≡ (excluded_at crates ws n && has_edge (h.0, n, h.1) es)
  unfolding excluded_map has_half
  in-excluded_map h n =
      in-visit (visit_nodes (mark_excluded crates) no_excluded 0 ws) es h n
      ∙ rw ((mark_all-Empty crates no_excluded 0 ws (λ _. (refl, refl)) n).0)
          (rw (keys-marked crates ws n) refl)

  pub out-excluded_map :
      (h : HalfRawEdge) (n : ℕ)
      → has_half h ((excluded_map crates ws es).out_edges n)
        ≡ (excluded_at crates ws n && has_edge (n, h.0, h.1) es)
  unfolding excluded_map has_half
  out-excluded_map h n =
      out-visit (visit_nodes (mark_excluded crates) no_excluded 0 ws) es h n
      ∙ rw ((mark_all-Empty crates no_excluded 0 ws (λ _. (refl, refl)) n).1)
          (rw (keys-marked crates ws n) refl)
