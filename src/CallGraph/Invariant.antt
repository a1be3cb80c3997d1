-- ===== src/CallGraph/Invariant.antt =====
-- The invariant of a call graph of checker/src/call_graph.rs while it is built: map and graph agree.
use mathlib.Core.Path.{subst}
use hepha.Prelude.{
  ℕ, ◌<◌, ◌≡◌, inl, inr, refl, sym, ◌∙◌, arith, false, ◌==◌, ==_iff, none, some, List, [], ◌∷◌,
  ◌++◌, Bool-cases,
}
use hepha.Prelude.Lists.{
  size, set, get_elem?, size-append, size-set, get_elem?-set_self, get_elem?-set_ne,
  get_elem?-append_left, get_elem?-append_last, lt-size_of_get_elem?,
}
use hepha.TreeMap.{assoc, put, assoc-put}
use hepha.CallGraph.Sets.{RawEdge, has_edge}
use hepha.CallGraph.Nodes.{DefId, CallGraphNode}
use hepha.CallGraph.Filtering.{InRange, InRange-mono}

-- No edge stands twice.
abbrev pub Distinct : List RawEdge → Type 0
Distinct [] = Unit {0}
Distinct (e ∷ es) = (has_edge e es ≡ false) × Distinct es

-- The map names the node of a definition, each node is named by the map, an edge has its ends in the graph,
-- and no edge stands twice.
pub record Agrees (nodes : List (DefId × ℕ)) (ws : List CallGraphNode) (es : List RawEdge)
    : Type 0 where
  pub found :
      (d i : ℕ)
      → assoc ◌==◌ d nodes ≡ some i
      → (w : CallGraphNode) × (get_elem? ws i ≡ some w) × (w.defid ≡ d)
  pub named :
      (i : ℕ) (w : CallGraphNode) → get_elem? ws i ≡ some w → assoc ◌==◌ w.defid nodes ≡ some i
  pub in_range : InRange (size ws) es
  pub distinct : Distinct es

pub replace-Agrees :
    {nodes : List (DefId × ℕ)} {ws : List CallGraphNode} {es : List RawEdge} (i : ℕ)
    (v : CallGraphNode)
    → assoc ◌==◌ v.defid nodes ≡ some i
    → Agrees nodes ws es
    → Agrees nodes (set ws i v) es
replace-Agrees {nodes} {ws} {es} i v known a = record {
  found = λ d j h. elim (Bool-cases (i == j)) [
    | inl e ↦
        let same = (==_iff i j).0 e in
        let (w, g, wd) = a.found d j h in
        let (x, gx, xd) = a.found v.defid i known in
        (
          v,
          rw (← same) (get_elem?-set_self ws i v (lt-size_of_get_elem? ws i x gx)),
          ground (arith, g, wd, subst (λ k. get_elem? ws k ≡ some x) same gx, xd),
        )
    | inr e ↦
        let (w, g, wd) = a.found d j h in
        (w, get_elem?-set_ne ws i j v (λ p. ground (arith, ==_iff i j, e, p)) ∙ g, wd)
  ];
  named = λ j w h. elim (Bool-cases (i == j)) [
    | inl e ↦
        let same = (==_iff i j).0 e in
        let (x, gx, xd) = a.found v.defid i known in
        let eq : some w ≡ some v =
          sym h ∙ rw (← same) (get_elem?-set_self ws i v (lt-size_of_get_elem? ws i x gx)) in
        let wv : w ≡ v = ground (arith, eq) in rw wv (known ∙ rw same refl)
    | inr e ↦
        a.named j w (sym (get_elem?-set_ne ws i j v (λ p. ground (arith, ==_iff i j, e, p))) ∙ h)
  ];
  in_range = rw (size-set ws i v) a.in_range;
  distinct = a.distinct;
}

pub append-Agrees :
    {nodes : List (DefId × ℕ)} {ws : List CallGraphNode} {es : List RawEdge} (v : CallGraphNode)
    → assoc ◌==◌ v.defid nodes ≡ none
    → Agrees nodes ws es
    → Agrees (put ◌==◌ ==_iff nodes v.defid (size ws)) (ws ++ v ∷ []) es
append-Agrees {nodes} {ws} {es} v fresh a = record {
  found = λ d j h. elim (Bool-cases (v.defid == d)) [
    | inl e ↦
        let same = (==_iff v.defid d).0 e in
        let eq : some (size ws) ≡ some j =
          rw (assoc-put ◌==◌ ==_iff nodes v.defid (size ws) d, e) at h in
        let at_end : size ws ≡ j = ground (arith, eq) in
        (v, rw (← at_end) (get_elem?-append_last ws v), same)
    | inr e ↦
        let (w, g, wd) =
          a.found d j (rw (assoc-put ◌==◌ ==_iff nodes v.defid (size ws) d, e) at h) in
        (w, get_elem?-append_left ws (v ∷ []) j (lt-size_of_get_elem? ws j w g) ∙ g, wd)
  ];
  named = λ j w h. elim (Bool-cases (j == size ws)) [
    | inl e ↦
        let same = (==_iff j (size ws)).0 e in
        let eq : some v ≡ some w = sym (get_elem?-append_last ws v) ∙ (rw same at h) in
        let vw : v ≡ w = ground (arith, eq) in
        rw (assoc-put ◌==◌ ==_iff nodes v.defid (size ws) w.defid)
          (rw (← vw) (ground (arith, ==_iff v.defid v.defid, same)))
    | inr e ↦
        let lt = lt-size_of_get_elem? (ws ++ v ∷ []) j w h in
        let below : j < size ws =
          ground (arith, lt, size-append ws (v ∷ []), ==_iff j (size ws), e) in
        let known = a.named j w (sym (get_elem?-append_left ws (v ∷ []) j below) ∙ h) in
        rw (assoc-put ◌==◌ ==_iff nodes v.defid (size ws) w.defid)
          (elim (Bool-cases (v.defid == w.defid)) [
            | inl k ↦
                absurd (ground (arith, fresh, rw (sym ((==_iff v.defid w.defid).0 k)) at known))
            | inr k ↦ rw k known
          ])
  ];
  in_range =
      InRange-mono (size ws) (size (ws ++ v ∷ [])) es a.in_range
        (omega (arith, size-append ws (v ∷ [])));
  distinct = a.distinct;
}
