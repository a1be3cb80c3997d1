-- ===== src/CallGraph/Walks.antt =====
-- Walks through the excluded nodes of a call graph of checker/src/call_graph.rs, and the edges that bridge them.
use hepha.Prelude.{ℕ, ◌<◌, ◌≡◌, inl, inr, sym, ◌∙◌, arith, true, false, List, Bool-cases, both}
use hepha.Prelude.Lists.{size}
use hepha.CallGraph.Sets.{HalfRawEdge, RawEdge, has_half, has_edge}
use hepha.CallGraph.Nodes.{Text, CallGraphNode}
use hepha.CallGraph.Filtering.{InRange, InRange-has_edge}
use hepha.CallGraph.Folding.{MidpointExcludedMap, contains_key, child_edges}
use hepha.CallGraph.Reaching.{Leads, start, through}
use hepha.CallGraph.Condensing.{Bridges}
use hepha.CallGraph.Marking.{
  excluded_at, excluded_map, contains_key-excluded_map, in-excluded_map, out-excluded_map,
}

-- A walk from a node whose inner nodes are all excluded.
pub data Walk (crates : List Text) (ws : List CallGraphNode) (es : List RawEdge) (from : ℕ)
    : ℕ → Type 0 where
  first : {b : ℕ} (t : ℕ) → has_edge (from, b, t) es ≡ true → Walk crates ws es from b
  beyond :
      {m b : ℕ} (t : ℕ)
      → Walk crates ws es from m
      → excluded_at crates ws m ≡ true
      → has_edge (m, b, t) es ≡ true
      → Walk crates ws es from b

-- The edge enters an excluded node, from which a walk through excluded nodes leads to its callee.
pub record Bypass (crates : List Text) (ws : List CallGraphNode) (es : List RawEdge) (e : RawEdge)
    : Type 0 where
  pub middle : ℕ
  pub skipped : excluded_at crates ws middle ≡ true
  pub enters : has_edge (e.0, middle, e.2) es ≡ true
  pub leads : Walk crates ws es middle e.1

module _ (crates : List Text) (ws : List CallGraphNode) (es : List RawEdge) where
  abbrev pub excluded : MidpointExcludedMap
  excluded = excluded_map crates ws es

  child_lem :
      (n : ℕ) (h : HalfRawEdge)
      → has_half h (child_edges excluded n) ≡ true
      → (excluded_at crates ws n ≡ true) × (has_edge (n, h.0, h.1) es ≡ true)
  unfolding child_edges has_half
  child_lem n h c = elim (Bool-cases (excluded_at crates ws n)) [
    | inl e ↦ (
      e,
      ground (
        arith,
        c,
        e,
        contains_key-excluded_map crates ws es n,
        out-excluded_map crates ws es h n,
      ),
    )
    | inr e ↦ absurd (ground (arith, c, e, contains_key-excluded_map crates ws es n))
  ]

  child-edge :
      (n : ℕ) (h : HalfRawEdge)
      → excluded_at crates ws n ≡ true
      → has_edge (n, h.0, h.1) es ≡ true
      → has_half h (child_edges excluded n) ≡ true
  unfolding child_edges
  child-edge n h x e =
      ground
        (arith, x, e, contains_key-excluded_map crates ws es n, out-excluded_map crates ws es h n)

  Walk-Leads :
      (n : ℕ) {h : HalfRawEdge} → Leads excluded (excluded.out_edges n) h → Walk crates ws es n h.0
  Walk-Leads n (start {e} h) =
      first e.1
        (both (excluded_at crates ws n) (has_edge (n, e.0, e.1) es)
          (sym (out-excluded_map crates ws es e n) ∙ h)).1
  Walk-Leads n (through {d} {e} l h) =
      let (x, edge) = child_lem d.0 e h in beyond e.1 (Walk-Leads n l) x edge

  Leads-Walk :
      (n : ℕ) {b : ℕ}
      → excluded_at crates ws n ≡ true
      → Walk crates ws es n b
      → (u : ℕ) × Leads excluded (excluded.out_edges n) (b, u)
  Leads-Walk n {b} x (first t h) =
      (t, start (ground (arith, out-excluded_map crates ws es (b, t) n)))
  Leads-Walk n {b} x (beyond {m} t w y h) =
      let (u, l) = Leads-Walk n x w in (t, through l (child-edge m (b, t) y h))

  pub Bypass-Bridges : (e : RawEdge) → Bridges excluded excluded.keys e → Bypass crates ws es e
  Bypass-Bridges e b =
      let (x, edge) =
        both (excluded_at crates ws b.middle) (has_edge (e.0, b.middle, e.2) es)
          (sym (in-excluded_map crates ws es (e.0, e.2) b.middle) ∙ b.enters) in
      record { middle = b.middle; skipped = x; enters = edge; leads = Walk-Leads b.middle b.leads }

  pub Bridges-Bypass :
      (e : RawEdge)
      → excluded_at crates ws e.0 ≡ false
      → excluded_at crates ws e.1 ≡ false
      → Bypass crates ws es e
      → Bridges excluded excluded.keys e
  unfolding contains_key
  Bridges-Bypass e x y b =
      let (u, l) = Leads-Walk b.middle b.skipped b.leads in
      record {
        kept = (
          contains_key-excluded_map crates ws es e.0 ∙ x,
          contains_key-excluded_map crates ws es e.1 ∙ y,
        );
        middle = b.middle;
        listed = contains_key-excluded_map crates ws es b.middle ∙ b.skipped;
        enters =
            in-excluded_map crates ws es (e.0, e.2) b.middle ∙ ground (arith, b.skipped, b.enters);
        last = u;
        leads = l;
      }

  pub end-lt-size : (n : ℕ) {b : ℕ} → InRange (size ws) es → Walk crates ws es n b → b < size ws
  end-lt-size n {b} r (first t h) = (InRange-has_edge (size ws) es (n, b, t) r h).1
  end-lt-size n {b} r (beyond {m} t w x h) = (InRange-has_edge (size ws) es (m, b, t) r h).1
