-- ===== src/CallGraph/Condensing.antt =====
-- The edges that replace the excluded nodes of a call graph, in checker/src/call_graph.rs.
use mathlib.Core.Path.{subst}
use hepha.Prelude.{
  ℕ, ◌≡◌, ◌↔◌, ◌⊎◌, inl, inr, refl, arith, true, false, ◌==◌, ==_iff, some, List, [], ◌∷◌,
  Bool-cases, or_cases,
}
use hepha.CallGraph.Sets.{
  HalfRawEdge, RawEdge, has_node, has_half, has_edge, raw_eq, insert_edge, has_edge-insert_edge,
  half_eq,
}
use hepha.CallGraph.Folding.{
  MidpointExcludedMap, contains_key, join_out, join_in, condense_nodes, condense_edge_set,
}
use hepha.CallGraph.Reaching.{Leads, reachable_raw_edges_exact}

module _ (excluded : MidpointExcludedMap) where
  -- Caller and callee are not excluded.
  abbrev Kept : RawEdge → Type 0
  Kept e = (contains_key e.0 excluded ≡ false) × (contains_key e.1 excluded ≡ false)

  abbrev Out : HalfRawEdge → List HalfRawEdge → RawEdge → Type 0
  Out i outs e =
      (e.0 ≡ i.0)
      × (e.2 ≡ i.1)
      × (contains_key e.1 excluded ≡ false)
      × ((u : ℕ) × (has_half (e.1, u) outs ≡ true))

  join_out_exact :
      (i : HalfRawEdge) (outs : List HalfRawEdge) (condensed : List RawEdge) (e : RawEdge)
      → (has_edge e (join_out excluded i outs condensed) ≡ true)
        ↔ ((has_edge e condensed ≡ true) ⊎ Out i outs e)
  unfolding join_out has_half
  join_out_exact i [] condensed e =
      (inl, λ s. elim s [ inl h ↦ h | inr (_, _, _, (_, h)) ↦ absurd cc ])
  join_out_exact i (o ∷ outs) condensed e = elim (Bool-cases (contains_key o.0 excluded)) [
    | inl key ↦ rw key (
      λ h. elim ((join_out_exact i outs condensed e).0 h) [
        | inl c ↦ inl c
        | inr (a, b, k, (u, m)) ↦ inr (a, b, k, (u, ground (arith, m)))
      ],
      λ s. (join_out_exact i outs condensed e).1 (elim s [
        | inl c ↦ inl c
        | inr (a, b, k, (u, m)) ↦
            or_cases (half_eq (e.1, u) o) (has_half (e.1, u) outs) m
              (λ same. absurd (clash o u k key same)) (λ later. inr (a, b, k, (u, later)))
      ]),
    )
    | inr kept ↦ rw kept (
      λ h. elim ((join_out_exact i outs (insert_edge (i.0, o.0, i.1) condensed) e).0 h) [
        | inl c ↦
            or_cases (raw_eq e (i.0, o.0, i.1)) (has_edge e condensed)
              (rw (has_edge-insert_edge e (i.0, o.0, i.1) condensed) at c)
              (λ same. inr (added o kept same)) inl
        | inr (a, b, k, (u, m)) ↦ inr (a, b, k, (u, ground (arith, m)))
      ],
      λ s. (join_out_exact i outs (insert_edge (i.0, o.0, i.1) condensed) e).1 (elim s [
        | inl c ↦ inl (rw (has_edge-insert_edge e (i.0, o.0, i.1) condensed) (ground (arith, c)))
        | inr (a, b, k, (u, m)) ↦
            or_cases (half_eq (e.1, u) o) (has_half (e.1, u) outs) m
              (λ same. inl (
                rw (has_edge-insert_edge e (i.0, o.0, i.1) condensed) (ground (arith, a, b, same))))
              (λ later. inr (a, b, k, (u, later)))
      ]),
    )
  ]
    where
      clash :
          (o : HalfRawEdge) (u : ℕ)
          → contains_key e.1 excluded ≡ false
          → contains_key o.0 excluded ≡ true
          → half_eq (e.1, u) o ≡ true
          → ⊥
      clash o u k key same =
          let eq : e.1 ≡ o.0 = ground (arith, same) in absurd (ground (arith, rw eq at k, key))

      added :
          (o : HalfRawEdge)
          → contains_key o.0 excluded ≡ false
          → raw_eq e (i.0, o.0, i.1) ≡ true
          → Out i (o ∷ outs) e
      added o kept same =
          let eq : e.1 ≡ o.0 = ground (arith, same) in
          (ground (arith, same), ground (arith, same), rw eq kept, (o.1, ground (arith, same)))

  abbrev In : List HalfRawEdge → List HalfRawEdge → RawEdge → Type 0
  In ins outs e =
      Kept e × (has_half (e.0, e.2) ins ≡ true) × ((u : ℕ) × (has_half (e.1, u) outs ≡ true))

  join_in_exact :
      (ins outs : List HalfRawEdge) (condensed : List RawEdge) (e : RawEdge)
      → (has_edge e (join_in excluded ins outs condensed) ≡ true)
        ↔ ((has_edge e condensed ≡ true) ⊎ In ins outs e)
  unfolding join_in has_half
  join_in_exact [] outs condensed e = (inl, λ s. elim s [ inl h ↦ h | inr (_, h, _) ↦ absurd cc ])
  join_in_exact (i ∷ ins) outs condensed e = elim (Bool-cases (contains_key i.0 excluded)) [
    | inl key ↦ rw key (
      λ h. elim ((join_in_exact ins outs condensed e).0 h) [
        | inl c ↦ inl c
        | inr (k, m, o) ↦ inr (k, ground (arith, m), o)
      ],
      λ s. (join_in_exact ins outs condensed e).1 (elim s [
        | inl c ↦ inl c
        | inr (k, m, o) ↦
            or_cases (half_eq (e.0, e.2) i) (has_half (e.0, e.2) ins) m
              (λ same.
                let eq : e.0 ≡ i.0 = ground (arith, same) in
                absurd (ground (arith, rw eq at k.0, key)))
              (λ later. inr (k, later, o))
      ]),
    )
    | inr kept ↦ rw kept (
      λ h. elim ((join_in_exact ins outs (join_out excluded i outs condensed) e).0 h) [
        | inl c ↦ elim ((join_out_exact i outs condensed e).0 c) [
          | inl old ↦ inl old
          | inr (a, b, k, o) ↦ inr ((rw a kept, k), ground (arith, a, b), o)
        ]
        | inr (k, m, o) ↦ inr (k, ground (arith, m), o)
      ],
      λ s. (join_in_exact ins outs (join_out excluded i outs condensed) e).1 (elim s [
        | inl c ↦ inl ((join_out_exact i outs condensed e).1 (inl c))
        | inr (k, m, o) ↦
            or_cases (half_eq (e.0, e.2) i) (has_half (e.0, e.2) ins) m
              (λ same. inl (
                (join_out_exact i outs condensed e).1
                  (inr (ground (arith, same), ground (arith, same), k.1, o))))
              (λ later. inr (k, later, o))
      ]),
    )
  ]

  -- The edge bridges excluded nodes: its caller has an edge of its type into one of the nodes listed, from
  -- which a walk through excluded nodes leads to its callee, and neither end is excluded.
  pub record Bridges (ns : List ℕ) (e : RawEdge) : Type 0 where
    pub kept : Kept e
    pub middle : ℕ
    pub listed : has_node middle ns ≡ true
    pub enters : has_half (e.0, e.2) (excluded.in_edges middle) ≡ true
    pub last : ℕ
    pub leads : Leads excluded (excluded.out_edges middle) (e.1, last)

  condense_nodes_exact :
      (ns : List ℕ) (condensed : List RawEdge)
      → (out : List RawEdge) × (condense_nodes excluded ns condensed ≡ some out)
        × ((e : RawEdge) → (has_edge e out ≡ true) ↔ ((has_edge e condensed ≡ true) ⊎ Bridges ns e))
  unfolding condense_nodes has_node
  condense_nodes_exact [] condensed = (
    condensed,
    refl,
    λ e. (inl, λ s. elim s [ inl h ↦ h | inr b ↦ absurd (ground (arith, b.listed)) ]),
  )
  condense_nodes_exact (n ∷ ns) condensed =
      let (reached, ends, reaches) = reachable_raw_edges_exact excluded (excluded.out_edges n) in
      let (out, returns, exact) =
        condense_nodes_exact ns (join_in excluded (excluded.in_edges n) reached condensed) in
      (
        out,
        rw (ends, condense_nodes) returns,
        λ e. (
          λ h. elim ((exact e).0 h) [
            | inl c ↦ elim ((join_in_exact (excluded.in_edges n) reached condensed e).0 c) [
              | inl old ↦ inl old
              | inr (k, m, (u, r)) ↦ inr (record {
                kept = k;
                middle = n;
                listed = ground (arith, ==_iff n n);
                enters = m;
                last = u;
                leads = (reaches (e.1, u)).0 r;
              })
            ]
            | inr b ↦ inr (record {
              kept = b.kept;
              middle = b.middle;
              listed = ground (arith, b.listed);
              enters = b.enters;
              last = b.last;
              leads = b.leads;
            })
          ],
          λ s. (exact e).1 (elim s [
            | inl c ↦ inl ((join_in_exact (excluded.in_edges n) reached condensed e).1 (inl c))
            | inr b ↦
                or_cases (b.middle == n) (has_node b.middle ns) b.listed
                  (λ k.
                    let same = (==_iff b.middle n).0 k in
                    inl (
                      (join_in_exact (excluded.in_edges n) reached condensed e).1 (
                        inr (
                          b.kept,
                          subst (λ m. has_half (e.0, e.2) (excluded.in_edges m) ≡ true) same
                              b.enters,
                          (
                            b.last,
                            (reaches (e.1, b.last)).1 (
                                subst (λ m. Leads excluded (excluded.out_edges m) (e.1, b.last))
                                  same b.leads),
                          ),
                        ))))
                  (λ k. inr (record {
                    kept = b.kept;
                    middle = b.middle;
                    listed = k;
                    enters = b.enters;
                    last = b.last;
                    leads = b.leads;
                  }))
          ]),
        ),
      )

  -- The condensation ends, and yields exactly the edges that bridge excluded nodes.
  pub condense_edge_set_exact :
      (out : List RawEdge) × (condense_edge_set excluded ≡ some out)
      × ((e : RawEdge) → (has_edge e out ≡ true) ↔ Bridges excluded.keys e)
  unfolding condense_edge_set has_edge
  condense_edge_set_exact =
      let (out, returns, exact) = condense_nodes_exact excluded.keys [] in
      (
        out,
        returns,
        λ e.
            (λ h. elim ((exact e).0 h) [ inl c ↦ absurd cc | inr b ↦ b ], λ b. (exact e).1 (inr b)),
      )
