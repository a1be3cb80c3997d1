-- ===== src/CallGraph/Derived.antt =====
-- checker/src/call_graph.rs, `derive_all_relations`: which relations hold between the types of a map, said
-- without its loops.
use hepha.Prelude.{
  ℕ, ◌≡◌, ◌↔◌, ◌⊎◌, inl, inr, refl, sym, arith, Bool, true, false, none, some, List, [], ◌∷◌,
  if◌then◌else◌, Bool-cases,
}
use hepha.CallGraph.Nodes.{Text, text_eq, text_eq_iff, text_lt}
use hepha.CallGraph.Types.{
  TypeRelation, eq, member, SimpleType, base, collection, has_relation, relation_of, simple_types,
  derive_all_relations, simple_type_eq, ordered_eq, new_eq, new_member,
}
use hepha.CallGraph.Relations.{Outer, derive_all_relations_exact, text_lt_total}
use hepha.CallGraph.Equivalence.{
  HasSimple, Equivalent, IsIn-simple_types, simple_type_eq_iff, swapped,
}

module _ (type_map : List (ℕ × Text)) (eq_map : List (Text × Text)) where
  -- The first type is one of collections of what the second one is, and is not the same type.
  abbrev pub HasMember : TypeRelation → Type 0
  HasMember r =
      (b : Text) × (c : Text) × (r.kind ≡ member)
      × (text_eq r.type1 r.type2 ≡ false)
      × HasSimple type_map r.type1 (collection b)
      × HasSimple type_map r.type2 (base c)
      × Equivalent eq_map b c

  -- Both types are collections, or neither is, of what is equivalent, and the first is the lesser text.
  abbrev pub AreEqual : TypeRelation → Type 0
  AreEqual r =
      (b : Text) × (c : Text) × (r.kind ≡ eq)
      × (text_lt r.type1 r.type2 ≡ true)
      × ((HasSimple type_map r.type1 (collection b) × HasSimple type_map r.type2 (collection c))
          ⊎ (HasSimple type_map r.type1 (base b) × HasSimple type_map r.type2 (base c)))
      × Equivalent eq_map b c

text_eq-swap : (t u : Text) → text_eq t u ≡ false → text_eq u t ≡ false
text_eq-swap t u h = elim (Bool-cases (text_eq u t)) [
  | inl e ↦ absurd (ground (arith, h, (text_eq_iff t u).1 (sym ((text_eq_iff u t).0 e))))
  | inr e ↦ e
]

text_lt-differ : (t u : Text) → text_lt t u ≡ true → text_eq t u ≡ false
unfolding text_lt text_eq
text_lt-differ [] [] h = absurd cc
text_lt-differ [] (b ∷ u) h = refl
text_lt-differ (a ∷ t) [] h = refl
text_lt-differ (a ∷ t) (b ∷ u) h = ground (arith, text_lt-differ t u)

-- A relation found under a test.
tested_for :
    (c : Bool) (q r : TypeRelation) → (if c then some q else none) ≡ some r → (c ≡ true) × (q ≡ r)
tested_for true q r h = (refl, ground (arith, h))
tested_for false q r h = absurd cc

module _ (type_map : List (ℕ × Text)) (eq_map : List (Text × Text)) where
  abbrev Holds : TypeRelation → Type 0
  Holds r = HasMember type_map eq_map r ⊎ AreEqual type_map eq_map r

  abbrev SameShape : Text → Text → Text → Text → Type 0
  SameShape t b u c =
      (HasSimple type_map t (collection b) × HasSimple type_map u (collection c))
      ⊎ (HasSimple type_map t (base b) × HasSimple type_map u (base c))

  turned : (t b u c : Text) → SameShape t b u c → SameShape u c t b
  turned t b u c s = elim s [ inl (x, y) ↦ inl (y, x) | inr (x, y) ↦ inr (y, x) ]

  member-Holds :
      (t b u c : Text) (r : TypeRelation)
      → text_eq t u ≡ false
      → HasSimple type_map t (collection b)
      → HasSimple type_map u (base c)
      → Equivalent eq_map b c
      → new_member t u ≡ r
      → Holds r
  unfolding new_member
  member-Holds t b u c r other x y s e = rw (← e) (inl (b, c, refl, other, x, y, s))

  equal-Holds :
      (t b u c : Text) (r : TypeRelation)
      → text_eq t u ≡ false
      → SameShape t b u c
      → Equivalent eq_map b c
      → ordered_eq t u ≡ r
      → Holds r
  unfolding ordered_eq new_eq
  equal-Holds t b u c r other x s e = rw (← e) (elim (Bool-cases (text_lt t u)) [
    | inl lt ↦ rw lt (inr (b, c, refl, lt, x, s))
    | inr ge ↦
        rw ge (inr (c, b, refl, text_lt_total t u other ge, turned t b u c x, swapped eq_map b c s))
  ])

  relation_of-Holds :
      (t : Text) (p : SimpleType) (u : Text) (q : SimpleType) (r : TypeRelation)
      → text_eq t u ≡ false
      → HasSimple type_map t p
      → HasSimple type_map u q
      → relation_of eq_map t p u q ≡ some r
      → Holds r
  unfolding relation_of
  relation_of-Holds t (collection b) u (base c) r other x y e =
      let (s, same) = tested_for (simple_type_eq b c eq_map) (new_member t u) r e in
      member-Holds t b u c r other x y ((simple_type_eq_iff b c eq_map).0 s) same
  relation_of-Holds t (base b) u (collection c) r other x y e =
      let (s, same) = tested_for (simple_type_eq b c eq_map) (new_member u t) r e in
      member-Holds u c t b r (text_eq-swap t u other) y x
        (swapped eq_map b c ((simple_type_eq_iff b c eq_map).0 s)) same
  relation_of-Holds t (collection b) u (collection c) r other x y e =
      let (s, same) = tested_for (simple_type_eq b c eq_map) (ordered_eq t u) r e in
      equal-Holds t b u c r other (inl (x, y)) ((simple_type_eq_iff b c eq_map).0 s) same
  relation_of-Holds t (base b) u (base c) r other x y e =
      let (s, same) = tested_for (simple_type_eq b c eq_map) (ordered_eq t u) r e in
      equal-Holds t b u c r other (inr (x, y)) ((simple_type_eq_iff b c eq_map).0 s) same

  -- Two simple types of the map whose relation is `r`.
  visited :
      (t : Text) (p : SimpleType) (u : Text) (q : SimpleType) (r : TypeRelation)
      → HasSimple type_map t p
      → HasSimple type_map u q
      → text_eq t u ≡ false
      → relation_of eq_map t p u q ≡ some r
      → Outer eq_map (simple_types type_map) (simple_types type_map) r
  visited t p u q r x y other e =
      let (i, g) = (IsIn-simple_types type_map t p).1 x in
      let (j, h) = (IsIn-simple_types type_map u q).1 y in
      (i, (t, p), g, (j, (u, q), h, rw other e))

  holds_visited :
      (r : TypeRelation) → Holds r → Outer eq_map (simple_types type_map) (simple_types type_map) r
  unfolding relation_of new_member ordered_eq new_eq
  holds_visited r s = elim s [
    | inl (b, c, kind, other, x, y, e) ↦
        visited r.type1 (collection b) r.type2 (base c) r x y other (
          rw ((simple_type_eq_iff b c eq_map).1 e)
            (λ i. some (record { kind = sym kind i; type1 = r.type1; type2 = r.type2 })))
    | inr (b, c, kind, lt, inl (x, y), e) ↦
        visited r.type1 (collection b) r.type2 (collection c) r x y
          (text_lt-differ r.type1 r.type2 lt)
          (rw ((simple_type_eq_iff b c eq_map).1 e, lt)
            (λ i. some (record { kind = sym kind i; type1 = r.type1; type2 = r.type2 })))
    | inr (b, c, kind, lt, inr (x, y), e) ↦
        visited r.type1 (base b) r.type2 (base c) r x y (text_lt-differ r.type1 r.type2 lt) (
          rw ((simple_type_eq_iff b c eq_map).1 e, lt)
            (λ i. some (record { kind = sym kind i; type1 = r.type1; type2 = r.type2 })))
  ]

-- A relation is there at the end exactly if it was there before, or if it is a membership of a type, that is no
-- collection, in a collection of an equivalent type, or an equivalence of two collections of equivalent types,
-- or of two equivalent types that are none, with the lesser text first; in both cases of two different types of
-- the map.
pub derive_all_relations_iff :
    (type_map : List (ℕ × Text)) (eq_map : List (Text × Text)) (relations : List TypeRelation)
    (r : TypeRelation)
    → (has_relation r (derive_all_relations type_map eq_map relations) ≡ true) ↔ (
        (has_relation r relations ≡ true)
        ⊎ (HasMember type_map eq_map r ⊎ AreEqual type_map eq_map r))
derive_all_relations_iff type_map eq_map relations r = (
  λ h. elim ((derive_all_relations_exact type_map eq_map relations r).0 h) [
    | inl old ↦ inl old
    | inr (i, (t, p), g, (j, (u, q), k, e)) ↦ inr (elim (Bool-cases (text_eq t u)) [
      | inl same ↦ absurd (ground (arith, rw same at e))
      | inr other ↦
          relation_of-Holds type_map eq_map t p u q r other
            ((IsIn-simple_types type_map t p).0 (i, g)) ((IsIn-simple_types type_map u q).0 (j, k))
            (rw other at e)
    ])
  ],
  λ s.
      (derive_all_relations_exact type_map eq_map relations r).1
        (elim s [ inl old ↦ inl old | inr k ↦ inr (holds_visited type_map eq_map r k) ]),
)
