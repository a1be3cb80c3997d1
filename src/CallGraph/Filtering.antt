-- ===== src/CallGraph/Filtering.antt =====
-- What `filter_map` of a graph of checker/src/call_graph.rs does for the closures that the source hands it.
use mathlib.Core.Path.{subst}
use hepha.Prelude.{
  ℕ, zero, suc, ◌+◌, ◌≤◌, ◌<◌, ◌≡◌, inl, inr, refl, ap, ◌∙◌, arith, Bool, true, false, ◌==◌, ==_iff,
  Option, none, some, Option-cases, List, [], ◌∷◌, map, if◌then◌else◌, Bool-cases, or_cases,
}
use hepha.Prelude.Lists.{size, get_elem?}
use hepha.CallGraph.Sets.{RawEdge, has_edge, raw_eq}
use hepha.CallGraph.Nodes.{CallGraphNode}
use hepha.CallGraph.Petgraph.{
  mapped_nodes, mapped_edge, mapped_edges, attach, somes, next, new_index,
}

-- Every end of every edge is one of `n` nodes.
abbrev pub InRange : ℕ → List RawEdge → Type 0
InRange n [] = Unit {0}
InRange n (e ∷ es) = (e.0 < n) × (e.1 < n) × InRange n es

pub InRange-has_edge :
    (n : ℕ) (es : List RawEdge) (e : RawEdge)
    → InRange n es
    → has_edge e es ≡ true
    → (e.0 < n) × (e.1 < n)
unfolding has_edge
InRange-has_edge n [] e r h = absurd cc
InRange-has_edge n (f ∷ es) e r h =
    or_cases (raw_eq e f) (has_edge e es) h (λ k. ground (arith, k))
      (λ k. InRange-has_edge n es e r.2 k)

pub InRange-of_has_edge :
    (n : ℕ) (es : List RawEdge)
    → ((e : RawEdge) → has_edge e es ≡ true → (e.0 < n) × (e.1 < n))
    → InRange n es
unfolding has_edge
InRange-of_has_edge n [] h = tt
InRange-of_has_edge n (e ∷ es) h =
    let first = h e (ground arith) in
    (first.0, first.1, InRange-of_has_edge n es (λ f k. h f (ground (arith, k))))

pub InRange-mono : (m n : ℕ) (es : List RawEdge) → InRange m es → m ≤ n → InRange n es
InRange-mono m n [] r le = tt
InRange-mono m n (e ∷ es) r le =
    (omega (arith, r.0), omega (arith, r.1), InRange-mono m n es r.2 le)

-- The index of a node that is still there, if every node stays.
pub new_index_all :
    (ws : List CallGraphNode) (i : ℕ) → i < size ws → new_index (map some ws) i ≡ some i
unfolding new_index next
new_index_all [] i h = absurd (omega arith)
new_index_all (w ∷ ws) zero h = refl
new_index_all (w ∷ ws) (suc i) h = rw (new_index_all ws i (omega arith)) refl

pub somes_all : (ws : List CallGraphNode) → somes (map some ws) ≡ ws
unfolding somes
somes_all [] = refl
somes_all (w ∷ ws) = ap (λ (l : List CallGraphNode). w ∷ l) (somes_all ws)

next-eq-some : (o : Option ℕ) (j : ℕ) → next o ≡ some j → (i : ℕ) × (o ≡ some i) × (j ≡ suc i)
unfolding next
next-eq-some none j h = absurd cc
next-eq-some (some i) j h = (i, refl, ground arith)

-- Two nodes that stay have different indices.
pub new_index_injective :
    (os : List (Option CallGraphNode)) (i j k : ℕ)
    → new_index os i ≡ some k
    → new_index os j ≡ some k
    → i ≡ j
unfolding new_index
new_index_injective [] i j k p q = absurd cc
new_index_injective (none ∷ os) zero j k p q = absurd cc
new_index_injective (none ∷ os) (suc i) zero k p q = absurd cc
new_index_injective (none ∷ os) (suc i) (suc j) k p q = ap suc (new_index_injective os i j k p q)
new_index_injective (some w ∷ os) zero zero k p q = refl
new_index_injective (some w ∷ os) zero (suc j) k p q =
    absurd (ground (arith, next-eq-some (new_index os j) k q))
new_index_injective (some w ∷ os) (suc i) zero k p q =
    absurd (ground (arith, next-eq-some (new_index os i) k p))
new_index_injective (some w ∷ os) (suc i) (suc j) k p q =
    let (a, ea, ka) = next-eq-some (new_index os i) k p in
    let (b, eb, kb) = next-eq-some (new_index os j) k q in
    ap suc (new_index_injective os i j a ea (ground (arith, ea, ka, eb, kb)))

-- A node that stays is found at its new index.
pub get_elem?-new_index :
    (os : List (Option CallGraphNode)) (i k : ℕ)
    → new_index os i ≡ some k
    → get_elem? os i ≡ some (get_elem? (somes os) k)
unfolding new_index somes
get_elem?-new_index [] i k p = absurd cc
get_elem?-new_index (none ∷ os) zero k p = absurd cc
get_elem?-new_index (none ∷ os) (suc i) k p = get_elem?-new_index os i k p
get_elem?-new_index (some w ∷ os) zero k p = ground (arith, p)
get_elem?-new_index (some w ∷ os) (suc i) k p =
    let (a, ea, ka) = next-eq-some (new_index os i) k p in rw ka (get_elem?-new_index os i a ea)

-- A closure that keeps all it is handed, and only changes its state.
module _ {S : Type 0} where
  unfoldable pub visit_nodes : (S → ℕ → CallGraphNode → S) → S → ℕ → List CallGraphNode → S
  visit_nodes g s i [] = s
  visit_nodes g s i (w ∷ ws) = visit_nodes g (g s i w) (suc i) ws

  unfoldable pub visit_edges : (S → RawEdge → S) → S → List RawEdge → S
  visit_edges g s [] = s
  visit_edges g s (e ∷ es) = visit_edges g (g s e) es

  pub mapped_nodes_all :
      (g : S → ℕ → CallGraphNode → S) (s : S) (i : ℕ) (ws : List CallGraphNode)
      → mapped_nodes (λ s j w. (g s j w, some w)) s i ws ≡ (visit_nodes g s i ws, map some ws)
  unfolding mapped_nodes visit_nodes
  mapped_nodes_all g s i [] = refl
  mapped_nodes_all g s i (w ∷ ws) = rw (mapped_nodes_all g (g s i w) (suc i) ws) refl

  pub mapped_edges_all :
      (g : S → RawEdge → S) (ws : List CallGraphNode) (s : S) (es : List RawEdge)
      → InRange (size ws) es
      → mapped_edges (λ s e. (g s e, some e.2)) (new_index (map some ws)) s es
        ≡ (visit_edges g s es, es)
  unfolding mapped_edges mapped_edge attach visit_edges
  mapped_edges_all g ws s [] r = refl
  mapped_edges_all g ws s (e ∷ es) r =
      rw (new_index_all ws e.0 r.0)
        (rw (new_index_all ws e.1 r.1) (rw (mapped_edges_all g ws (g s e) es r.2) refl))

-- The nodes that pass a test stay.
unfoldable pub chosen :
    (ℕ → CallGraphNode → Bool) → ℕ → List CallGraphNode → List (Option CallGraphNode)
chosen p i [] = []
chosen p i (w ∷ ws) = (if p i w then some w else none) ∷ chosen p (suc i) ws

pub mapped_nodes-chosen :
    (p : ℕ → CallGraphNode → Bool) (i : ℕ) (ws : List CallGraphNode)
    → mapped_nodes {S = Unit {0}} (λ s j w. (s, if p j w then some w else none)) tt i ws
      ≡ (tt, chosen p i ws)
unfolding mapped_nodes chosen
mapped_nodes-chosen p i [] = refl
mapped_nodes-chosen p i (w ∷ ws) = rw (mapped_nodes-chosen p (suc i) ws) refl

plus : (i n : ℕ) → suc i + n ≡ i + suc n
plus i n = omega arith

plus_zero : (i : ℕ) → i + 0 ≡ i
plus_zero i = omega arith

-- A node stays exactly if it is there and passes.
pub new_index-chosen :
    (p : ℕ → CallGraphNode → Bool) (i : ℕ) (ws : List CallGraphNode) (n : ℕ) (w : CallGraphNode)
    → get_elem? ws n ≡ some w
    → p (i + n) w ≡ true
    → (k : ℕ) × (new_index (chosen p i ws) n ≡ some k)
unfolding new_index chosen next
new_index-chosen p i [] n w h pass = absurd cc
new_index-chosen p i (v ∷ ws) zero w h pass =
    let same : v ≡ w = ground arith in
    let here : p i v ≡ true = rw same (subst (λ j. p j w ≡ true) (plus_zero i) pass) in
    (0, rw here refl)
new_index-chosen p i (v ∷ ws) (suc n) w h pass = elim (Bool-cases (p i v)) [
  | inl e ↦
      let (k, r) = new_index-chosen p (suc i) ws n w h (later pass) in (suc k, rw e (rw r refl))
  | inr e ↦ let (k, r) = new_index-chosen p (suc i) ws n w h (later pass) in (k, rw e r)
]
  where
    later : p (i + suc n) w ≡ true → p (suc i + n) w ≡ true
    later q = rw (plus i n) q

pub chosen-new_index :
    (p : ℕ → CallGraphNode → Bool) (i : ℕ) (ws : List CallGraphNode) (n k : ℕ)
    → new_index (chosen p i ws) n ≡ some k
    → (w : CallGraphNode) × (get_elem? ws n ≡ some w) × (p (i + n) w ≡ true)
unfolding new_index chosen next
chosen-new_index p i [] n k h = absurd cc
chosen-new_index p i (v ∷ ws) zero k h = elim (Bool-cases (p i v)) [
  | inl e ↦ (v, refl, rw (plus_zero i) e)
  | inr e ↦ absurd (ground (arith, rw e at h))
]
chosen-new_index p i (v ∷ ws) (suc n) k h = elim (Bool-cases (p i v)) [
  | inl e ↦
      let (j, ej, _) = next-eq-some (new_index (chosen p (suc i) ws) n) k (rw e at h) in
      let (w, ew, pw) = chosen-new_index p (suc i) ws n j ej in (w, ew, rw (← plus i n) pw)
  | inr e ↦
      let (w, ew, pw) = chosen-new_index p (suc i) ws n k (rw e at h) in (w, ew, rw (← plus i n) pw)
]

-- The edges between nodes that stay, at their new indices.
pub has_edge-mapped_edges :
    {S : Type 0} (os : List (Option CallGraphNode)) (s : S) (es : List RawEdge) (a b c d t : ℕ)
    → new_index os a ≡ some c
    → new_index os b ≡ some d
    → has_edge (c, d, t) (mapped_edges (λ s e. (s, some e.2)) (new_index os) s es).1
      ≡ has_edge (a, b, t) es
unfolding mapped_edges mapped_edge attach has_edge
has_edge-mapped_edges os s [] a b c d t p q = refl
has_edge-mapped_edges os s (e ∷ es) a b c d t p q = elim (Option-cases (new_index os e.0)) [
  | inl x ↦ rw x (
      has_edge-mapped_edges os s es a b c d t p q
      ∙ ground (arith, ==_iff a e.0, absent a e.0 c p x))
  | inr (x, ex) ↦ elim (Option-cases (new_index os e.1)) [
    | inl y ↦
        rw (ex, y)
          (has_edge-mapped_edges os s es a b c d t p q
            ∙ ground (arith, ==_iff b e.1, absent b e.1 d q y))
    | inr (y, ey) ↦ rw ex (
        rw ey (
          rw (has_edge-mapped_edges os s es a b c d t p q)
            (ground (arith, same a e.0 c x p ex, same b e.1 d y q ey))))
  ]
]
  where
    absent : (i j k : ℕ) → new_index os i ≡ some k → new_index os j ≡ none → (i == j) ≡ false
    absent i j k h l = elim (Bool-cases (i == j)) [
      | inl e ↦ absurd (ground (arith, rw ((==_iff i j).0 e) at h, l))
      | inr e ↦ e
    ]

    same : (i j k l : ℕ) → new_index os i ≡ some k → new_index os j ≡ some l → (k == l) ≡ (i == j)
    same i j k l h g = elim (Bool-cases (i == j)) [
      | inl e ↦
          let eq : some k ≡ some l = ground (arith, rw ((==_iff i j).0 e) at h, g) in
          ground (arith, eq)
      | inr e ↦ elim (Bool-cases (k == l)) [
        | inl f ↦
            absurd (ground (arith, new_index_injective os i j l (rw ((==_iff k l).0 f) at h) g))
        | inr f ↦ ground arith
      ]
    ]
