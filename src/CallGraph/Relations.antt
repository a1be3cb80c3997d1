-- ===== src/CallGraph/Relations.antt =====
-- The relations between types that checker/src/call_graph.rs derives.
use hepha.Prelude.{
  ℕ, zero, suc, ◌≡◌, ◌↔◌, ◌⊎◌, inl, inr, refl, sym, ap, ◌∙◌, arith, Bool, true, false, ◌&&◌, ◌||◌,
  Option, none, some, List, [], ◌∷◌, if◌then◌else◌, Bool-cases, or_cases, both,
}
use hepha.Prelude.Lists.{get_elem?}
use hepha.CallGraph.Nodes.{Text, text_eq, text_eq_iff, text_lt}
use hepha.CallGraph.Types.{
  TypeRelation, TypeRelationKind, eq, member, SimpleType, base, collection, kind_eq, relation_eq,
  has_relation, insert_relation, relate, relate_all, relation_of, simple_types,
  derive_all_relations, simple_type_eq, ordered_eq, new_eq, new_member,
}

-- The equivalence of two simple types does not depend on their order.
pub simple_type_eq_comm :
    (s t : Text) (eq_map : List (Text × Text))
    → simple_type_eq s t eq_map ≡ simple_type_eq t s eq_map
unfolding simple_type_eq
simple_type_eq_comm s t eq_map =
    let symmetric : text_eq s t ≡ text_eq t s = elim (Bool-cases (text_eq s t)) [
      | inl e ↦ e ∙ sym ((text_eq_iff t s).1 (sym ((text_eq_iff s t).0 e)))
      | inr e ↦ elim (Bool-cases (text_eq t s)) [
        | inl f ↦ absurd (ground (arith, e, (text_eq_iff s t).1 (sym ((text_eq_iff t s).0 f))))
        | inr f ↦ e ∙ sym f
      ]
    ] in
    rw symmetric (ground arith)

kind_eq_lem : (k l : TypeRelationKind) → kind_eq k l ≡ true → k ≡ l
kind_eq_lem eq eq h = refl
kind_eq_lem eq member h = absurd cc
kind_eq_lem member eq h = absurd cc
kind_eq_lem member member h = refl

kind_eq_refl : (k : TypeRelationKind) → kind_eq k k ≡ true
kind_eq_refl eq = refl
kind_eq_refl member = refl

relation_eq_lem : (r q : TypeRelation) → relation_eq r q ≡ true → r ≡ q
relation_eq_lem r q h =
    let (k, ts) =
      both (kind_eq r.kind q.kind && text_eq r.type1 q.type1) (text_eq r.type2 q.type2) h in
    let (a, b) = both (kind_eq r.kind q.kind) (text_eq r.type1 q.type1) k in
    let ek = kind_eq_lem r.kind q.kind a in
    let e1 = (text_eq_iff r.type1 q.type1).0 b in
    let e2 = (text_eq_iff r.type2 q.type2).0 ts in
    λ i. record { kind = ek i; type1 = e1 i; type2 = e2 i }

relation_eq_refl : (r : TypeRelation) → relation_eq r r ≡ true
relation_eq_refl r = ground (
  arith,
  kind_eq_refl r.kind,
  (text_eq_iff r.type1 r.type1).1 refl,
  (text_eq_iff r.type2 r.type2).1 refl,
)

abbrev is_it : TypeRelation → Option TypeRelation → Bool
is_it r none = false
is_it r (some q) = relation_eq r q

has_relation-insert_relation :
    (r : TypeRelation) (o : Option TypeRelation) (qs : List TypeRelation)
    → has_relation r (insert_relation o qs) ≡ (is_it r o || has_relation r qs)
unfolding insert_relation has_relation
has_relation-insert_relation r none qs = refl
has_relation-insert_relation r (some q) qs = elim (Bool-cases (has_relation q qs)) [
  | inl old ↦ rw old (elim (Bool-cases (relation_eq r q)) [
    | inl same ↦ rw same (rw (relation_eq_lem r q same) old)
    | inr other ↦ rw other refl
  ])
  | inr new ↦ rw new refl
]

module _ (eq_map : List (Text × Text)) where
  -- The relation of two of the simple types, if they belong to different types and are related.
  abbrev pub related : Text × SimpleType → Text × SimpleType → Option TypeRelation
  related p q = if text_eq p.0 q.0 then none else relation_of eq_map p.0 p.1 q.0 q.1

  abbrev pub Inner : Text × SimpleType → List (Text × SimpleType) → TypeRelation → Type 0
  Inner p qs r =
      (j : ℕ) × (q : Text × SimpleType) × (get_elem? qs j ≡ some q) × (related p q ≡ some r)

  relate_exact :
      (p : Text × SimpleType) (qs : List (Text × SimpleType)) (relations : List TypeRelation)
      (r : TypeRelation)
      → (has_relation r (relate eq_map p qs relations) ≡ true)
        ↔ ((has_relation r relations ≡ true) ⊎ Inner p qs r)
  unfolding relate
  relate_exact p [] relations r = (inl, λ s. elim s [ inl h ↦ h | inr (j, q, g, _) ↦ absurd cc ])
  relate_exact p (q ∷ qs) relations r =
      let more = insert_relation (related p q) relations in
      let inserted = has_relation-insert_relation r (related p q) relations in
      (
        λ h. elim ((relate_exact p qs more r).0 h) [
          | inl k ↦
              or_cases (is_it r (related p q)) (has_relation r relations) (sym inserted ∙ k)
                (λ same. inr (zero, q, refl, found (related p q) same)) inl
          | inr (j, x, g, e) ↦ inr (suc j, x, g, e)
        ],
        λ s. (relate_exact p qs more r).1 (elim s [
          | inl k ↦ inl (inserted ∙ ground (arith, k))
          | inr (j, x, g, e) ↦ later j x g e inserted
        ]),
      )
    where
      found : (o : Option TypeRelation) → is_it r o ≡ true → o ≡ some r
      found none h = absurd cc
      found (some x) h = ap some (sym (relation_eq_lem r x h))

      later :
          (j : ℕ) (x : Text × SimpleType)
          → get_elem? (q ∷ qs) j ≡ some x
          → related p x ≡ some r
          → has_relation r (insert_relation (related p q) relations)
            ≡ (is_it r (related p q) || has_relation r relations)
          → (has_relation r (insert_relation (related p q) relations) ≡ true) ⊎ Inner p qs r
      later zero x g e inserted =
          let same : q ≡ x = ground (arith, g) in
          let is : is_it r (related p q) ≡ true = rw same (rw e (relation_eq_refl r)) in
          inl (inserted ∙ rw is refl)
      later (suc j) x g e inserted = inr (j, x, g, e)

  abbrev pub Outer : List (Text × SimpleType) → List (Text × SimpleType) → TypeRelation → Type 0
  Outer ps qs r = (i : ℕ) × (p : Text × SimpleType) × (get_elem? ps i ≡ some p) × Inner p qs r

  relate_all_exact :
      (ps qs : List (Text × SimpleType)) (relations : List TypeRelation) (r : TypeRelation)
      → (has_relation r (relate_all eq_map ps qs relations) ≡ true)
        ↔ ((has_relation r relations ≡ true) ⊎ Outer ps qs r)
  unfolding relate_all
  relate_all_exact [] qs relations r =
      (inl, λ s. elim s [ inl h ↦ h | inr (i, p, g, _) ↦ absurd cc ])
  relate_all_exact (p ∷ ps) qs relations r = (
    λ h. elim ((relate_all_exact ps qs (relate eq_map p qs relations) r).0 h) [
      | inl k ↦ elim ((relate_exact p qs relations r).0 k) [
        | inl old ↦ inl old
        | inr x ↦ inr (zero, p, refl, x)
      ]
      | inr (i, x, g, e) ↦ inr (suc i, x, g, e)
    ],
    λ s. (relate_all_exact ps qs (relate eq_map p qs relations) r).1 (elim s [
      | inl k ↦ inl ((relate_exact p qs relations r).1 (inl k))
      | inr (i, x, g, e) ↦ later i x g e
    ]),
  )
    where
      later :
          (i : ℕ) (x : Text × SimpleType)
          → get_elem? (p ∷ ps) i ≡ some x
          → Inner x qs r
          → (has_relation r (relate eq_map p qs relations) ≡ true) ⊎ Outer ps qs r
      later zero x g (j, q, h, e) =
          let same : x ≡ p = ground (arith, g) in
          inl ((relate_exact p qs relations r).1 (inr (j, q, h, (rw same at e))))
      later (suc i) x g e = inr (i, x, g, e)

-- A relation is there at the end exactly if it was there before, or if it relates two simple types of different
-- types of the map.
pub derive_all_relations_exact :
    (type_map : List (ℕ × Text)) (eq_map : List (Text × Text)) (relations : List TypeRelation)
    (r : TypeRelation)
    → (has_relation r (derive_all_relations type_map eq_map relations) ≡ true) ↔ (
        (has_relation r relations ≡ true)
        ⊎ Outer eq_map (simple_types type_map) (simple_types type_map) r)
unfolding derive_all_relations
derive_all_relations_exact type_map eq_map relations r =
    relate_all_exact eq_map (simple_types type_map) (simple_types type_map) relations r

pub text_lt_total : (s t : Text) → text_eq s t ≡ false → text_lt s t ≡ false → text_lt t s ≡ true
unfolding text_eq text_lt
text_lt_total [] [] e h = absurd cc
text_lt_total [] (b ∷ t) e h = absurd cc
text_lt_total (a ∷ s) [] e h = refl
text_lt_total (a ∷ s) (b ∷ t) e h = ground (arith, text_lt_total s t)

abbrev pub Ordered : TypeRelation → Type 0
Ordered r = r.kind ≡ eq → text_lt r.type1 r.type2 ≡ true

ordered_eq-Ordered : (s t : Text) → text_eq s t ≡ false → Ordered (ordered_eq s t)
unfolding ordered_eq new_eq
ordered_eq-Ordered s t e _ = elim (Bool-cases (text_lt s t)) [
  | inl h ↦ rw h h
  | inr h ↦ rw h (text_lt_total s t e h)
]

tested :
    (c : Bool) (q r : TypeRelation) → Ordered q → (if c then some q else none) ≡ some r → Ordered r
tested true q r o h = let same : q ≡ r = ground (arith, h) in rw (← same) o
tested false q r o h = absurd cc

member-Ordered : (s t : Text) → Ordered (new_member s t)
unfolding new_member
member-Ordered s t h = absurd cc

relation_of-Ordered :
    (eq_map : List (Text × Text)) (s : Text) (b : SimpleType) (t : Text) (c : SimpleType)
    (r : TypeRelation)
    → text_eq s t ≡ false
    → relation_of eq_map s b t c ≡ some r
    → Ordered r
unfolding relation_of
relation_of-Ordered eq_map s (base b) t (base c) r e h =
    tested (simple_type_eq b c eq_map) (ordered_eq s t) r (ordered_eq-Ordered s t e) h
relation_of-Ordered eq_map s (base b) t (collection c) r e h =
    tested (simple_type_eq b c eq_map) (new_member t s) r (member-Ordered t s) h
relation_of-Ordered eq_map s (collection b) t (base c) r e h =
    tested (simple_type_eq b c eq_map) (new_member s t) r (member-Ordered s t) h
relation_of-Ordered eq_map s (collection b) t (collection c) r e h =
    tested (simple_type_eq b c eq_map) (ordered_eq s t) r (ordered_eq-Ordered s t e) h

-- If the equivalences that are there before name the lesser text first, then so do all that are there after.
pub derived-Ordered :
    (type_map : List (ℕ × Text)) (eq_map : List (Text × Text)) (relations : List TypeRelation)
    → ((q : TypeRelation) → has_relation q relations ≡ true → Ordered q)
    → (r : TypeRelation) → has_relation r (derive_all_relations type_map eq_map relations) ≡ true
    → Ordered r
derived-Ordered type_map eq_map relations before r h =
    elim ((derive_all_relations_exact type_map eq_map relations r).0 h) [
      | inl old ↦ before r old
      | inr (_, p, _, (_, q, _, e)) ↦ elim (Bool-cases (text_eq p.0 q.0)) [
        | inl same ↦ absurd (ground (arith, rw same at e))
        | inr other ↦ relation_of-Ordered eq_map p.0 p.1 q.0 q.1 r other (rw other at e)
      ]
    ]
