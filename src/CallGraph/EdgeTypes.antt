-- ===== src/CallGraph/EdgeTypes.antt =====
-- The types of edges that checker/src/call_graph.rs numbers.
use hepha.Prelude.{
  ◌%◌, ◌<◌, ◌≡◌, inl, inr, refl, sym, ◌∙◌, arith, none, some, Option-cases, List, Bool-cases,
}
use hepha.Prelude.Lists.{size}
use hepha.TreeMap.{assoc, put, assoc-put, size-put}
use hepha.CallGraph.Nodes.{Text, text_eq, text_eq_iff}
use hepha.CallGraph.Petgraph.{Petgraph}
use hepha.CallGraph.Graphs.{CallGraph, EdgeType}
use hepha.CallGraph.Building.{add_edge_type}

-- Each type stands under its name, with an id below the number of types, and no two have the same id.
pub record TypesAgree (types : List (Text × EdgeType)) : Type 0 where
  pub named :
      (s : Text) (t : EdgeType)
      → assoc text_eq s types ≡ some t
      → (t.name ≡ s) × (t.id < size types)
  pub different :
      (s r : Text) (t u : EdgeType)
      → assoc text_eq s types ≡ some t
      → assoc text_eq r types ≡ some u
      → t.id ≡ u.id
      → s ≡ r

put-TypesAgree :
    (types : List (Text × EdgeType)) (t : EdgeType)
    → assoc text_eq t.name types ≡ none
    → t.id ≡ size types
    → TypesAgree types
    → TypesAgree (put text_eq text_eq_iff types t.name t)
put-TypesAgree types t fresh next a = record {
  named = λ s u h. elim (Bool-cases (text_eq t.name s)) [
    | inl e ↦
        let same : some t ≡ some u = rw (assoc-put text_eq text_eq_iff types t.name t s, e) at h in
        ground (
          arith,
          same,
          (text_eq_iff t.name s).0 e,
          next,
          size-put text_eq text_eq_iff types t.name t fresh,
        )
    | inr e ↦
        let (n, lt) = a.named s u (rw (assoc-put text_eq text_eq_iff types t.name t s, e) at h) in
        (n, omega (arith, lt, size-put text_eq text_eq_iff types t.name t fresh))
  ];
  different = λ s r u v h k same. elim (Bool-cases (text_eq t.name s)) [
    | inl e ↦
        let tu : some t ≡ some u = rw (assoc-put text_eq text_eq_iff types t.name t s, e) at h in
        elim (Bool-cases (text_eq t.name r)) [
          | inl f ↦ sym ((text_eq_iff t.name s).0 e) ∙ (text_eq_iff t.name r).0 f
          | inr f ↦
              let (_, lt) =
                a.named r v (rw (assoc-put text_eq text_eq_iff types t.name t r, f) at k) in
              absurd (ground (arith, tu, next, same, lt))
        ]
    | inr e ↦
        let old = rw (assoc-put text_eq text_eq_iff types t.name t s, e) at h in
        elim (Bool-cases (text_eq t.name r)) [
          | inl f ↦
              let tv : some t ≡ some v =
                rw (assoc-put text_eq text_eq_iff types t.name t r, f) at k in
              absurd (ground (arith, tv, next, same, (a.named s u old).1))
          | inr f ↦
              a.different s r u v old (rw (assoc-put text_eq text_eq_iff types t.name t r, f) at k)
                same
        ]
  ];
}

module _ (P : Petgraph) (cg : CallGraph P) (s : Text) where
  -- If each type stands under its name with an id below their number, no two with the same id, and there are
  -- fewer than 2 ^ 32 types, then so it is after a type is added, apart from the limit; the type is found under
  -- its name with the id that is returned, and the types that were there stay as they were.
  pub add_edge_type_exact :
      TypesAgree cg.edge_types
      → size cg.edge_types < 4294967296
      → let (out, id) = add_edge_type P cg s in
        TypesAgree out.edge_types
        × ((t : EdgeType) × (assoc text_eq s out.edge_types ≡ some t) × (t.id ≡ id))
        × ((r : Text) (t : EdgeType)
            → assoc text_eq r cg.edge_types ≡ some t
            → assoc text_eq r out.edge_types ≡ some t)
  unfolding add_edge_type
  add_edge_type_exact a lt = elim (Option-cases (assoc text_eq s cg.edge_types)) [
    | inr (t, e) ↦ rw (e, add_edge_type) (a, (t, e, refl), λ r u h. h)
    | inl e ↦
        rw (e, add_edge_type)
          (
            put-TypesAgree cg.edge_types fresh e below a,
            (
              fresh,
              assoc-put text_eq text_eq_iff cg.edge_types s fresh s
                  ∙ ground (arith, (text_eq_iff s s).1 refl),
              refl,
            ),
            λ r u h.
                assoc-put text_eq text_eq_iff cg.edge_types s fresh r
                ∙ elim (Bool-cases (text_eq s r)) [
                  | inl f ↦ absurd (ground (arith, e, rw (sym ((text_eq_iff s r).0 f)) at h))
                  | inr f ↦ rw f h
                ],
          )
  ]
    where
      fresh : EdgeType
      fresh = record { id = size cg.edge_types % 4294967296; name = s }

      below : size cg.edge_types % 4294967296 ≡ size cg.edge_types
      below = omega (arith, lt)
