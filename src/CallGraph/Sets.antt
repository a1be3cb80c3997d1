-- ===== src/CallGraph/Sets.antt =====
-- The hash sets of checker/src/call_graph.rs: a list without order, with a test of membership.
use hepha.Prelude.{
  ℕ, ◌≡◌, inl, inr, refl, arith, Bool, true, false, ◌&&◌, ◌||◌, ◌==◌, List, [], ◌∷◌, ◌++◌,
  if◌then◌else◌, Bool-cases,
}

-- A half edge: the node at its other end, and its type.
abbrev pub HalfRawEdge : Type 0
HalfRawEdge = ℕ × ℕ

-- An edge: caller, callee, type.
abbrev pub RawEdge : Type 0
RawEdge = ℕ × ℕ × ℕ

abbrev pub half_eq : HalfRawEdge → HalfRawEdge → Bool
half_eq e f = e.0 == f.0 && e.1 == f.1

abbrev pub raw_eq : RawEdge → RawEdge → Bool
raw_eq e f = e.0 == f.0 && e.1 == f.1 && e.2 == f.2

pub half_eq_lem : (e f : HalfRawEdge) → half_eq e f ≡ true → e ≡ f
half_eq_lem (a, t) (b, u) h = ground arith

pub raw_eq_lem : (e f : RawEdge) → raw_eq e f ≡ true → e ≡ f
raw_eq_lem (a, b, t) (c, d, u) h = ground arith

pub half_eq_refl : (e : HalfRawEdge) → half_eq e e ≡ true
half_eq_refl e = ground arith

pub raw_eq_refl : (e : RawEdge) → raw_eq e e ≡ true
raw_eq_refl e = ground arith

-- `contains` of a set of nodes, of half edges and of edges.
unfoldable pub has_node : ℕ → List ℕ → Bool
has_node n [] = false
has_node n (m ∷ ms) = n == m || has_node n ms

unfoldable pub has_half : HalfRawEdge → List HalfRawEdge → Bool
has_half e [] = false
has_half e (f ∷ fs) = half_eq e f || has_half e fs

unfoldable pub has_edge : RawEdge → List RawEdge → Bool
has_edge e [] = false
has_edge e (f ∷ fs) = raw_eq e f || has_edge e fs

unfoldable pub insert_half : HalfRawEdge → List HalfRawEdge → List HalfRawEdge
insert_half e s = if has_half e s then s else e ∷ s

unfoldable pub insert_edge : RawEdge → List RawEdge → List RawEdge
insert_edge e s = if has_edge e s then s else e ∷ s

pub has_half-insert_half :
    (e f : HalfRawEdge) (s : List HalfRawEdge)
    → has_half e (insert_half f s) ≡ (half_eq e f || has_half e s)
unfolding has_half insert_half
has_half-insert_half e f s = elim (Bool-cases (has_half f s)) [
  | inl old ↦ rw old (elim (Bool-cases (half_eq e f)) [
    | inl same ↦ rw same (rw (half_eq_lem e f same) old)
    | inr other ↦ rw other refl
  ])
  | inr new ↦ rw new refl
]

pub has_edge-insert_edge :
    (e f : RawEdge) (s : List RawEdge) → has_edge e (insert_edge f s) ≡ (raw_eq e f || has_edge e s)
unfolding has_edge insert_edge
has_edge-insert_edge e f s = elim (Bool-cases (has_edge f s)) [
  | inl old ↦ rw old (elim (Bool-cases (raw_eq e f)) [
    | inl same ↦ rw same (rw (raw_eq_lem e f same) old)
    | inr other ↦ rw other refl
  ])
  | inr new ↦ rw new refl
]

pub has_half-append :
    (e : HalfRawEdge) (s t : List HalfRawEdge)
    → has_half e (s ++ t) ≡ (has_half e s || has_half e t)
unfolding has_half
has_half-append e [] t = refl
has_half-append e (f ∷ s) t = ground (arith, has_half-append e s t)

pub has_edge-append :
    (e : RawEdge) (s t : List RawEdge) → has_edge e (s ++ t) ≡ (has_edge e s || has_edge e t)
unfolding has_edge
has_edge-append e [] t = refl
has_edge-append e (f ∷ s) t = ground (arith, has_edge-append e s t)
