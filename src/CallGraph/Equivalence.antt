-- ===== src/CallGraph/Equivalence.antt =====
-- checker/src/call_graph.rs, `simplify_type` and `simple_type_eq`: which simple types the types of a map have,
-- and which texts are equivalent.
use hepha.Prelude.{
  ℕ, zero, suc, ◌≡◌, ◌↔◌, ◌⊎◌, inl, inr, refl, sym, ap, arith, Bool, true, false, ◌||◌, Option,
  none, some, List, [], ◌∷◌, ◌++◌, map, or_cases,
}
use hepha.Prelude.Lists.{get_elem?}
use hepha.TreeMap.{assoc}
use hepha.CallGraph.Nodes.{Text, text_eq, text_eq_iff}
use hepha.CallGraph.Types.{SimpleType, simple_types, simplify_type, maps_to, simple_type_eq}

-- The element is in the list.
abbrev pub IsIn {ℓ} : {A : Type ℓ} → A → List A → Type ℓ
IsIn x xs = (i : ℕ) × (get_elem? xs i ≡ some x)

-- The type is in the map, and this is one of the types that its text simplifies to.
abbrev pub HasSimple : List (ℕ × Text) → Text → SimpleType → Type 0
HasSimple type_map t s = (id : ℕ) × IsIn {A = ℕ × Text} (id, t) type_map × IsIn s (simplify_type t)

-- Two texts are the same, or the map has one of them for the other.
abbrev pub Equivalent : List (Text × Text) → Text → Text → Type 0
Equivalent eq_map b c =
    (b ≡ c) ⊎ ((assoc text_eq c eq_map ≡ some b) ⊎ (assoc text_eq b eq_map ≡ some c))

IsIn-append : {A : Type 0} (x : A) (xs ys : List A) → IsIn x (xs ++ ys) ↔ (IsIn x xs ⊎ IsIn x ys)
IsIn-append x [] ys = (inr, λ s. elim s [ inl (i, h) ↦ absurd cc | inr h ↦ h ])
IsIn-append x (z ∷ xs) ys = (
  λ (i, h). there (IsIn-append x xs ys).0 i h,
  λ s. elim s [
    | inl (i, h) ↦ front (IsIn-append x xs ys).1 i h
    | inr h ↦ next ((IsIn-append x xs ys).1 (inr h))
  ],
)
  where
    next : IsIn x (xs ++ ys) → IsIn x (z ∷ xs ++ ys)
    next (i, h) = (suc i, h)

    there :
        (IsIn x (xs ++ ys) → IsIn x xs ⊎ IsIn x ys)
        → (i : ℕ) → get_elem? (z ∷ xs ++ ys) i ≡ some x
        → IsIn x (z ∷ xs) ⊎ IsIn x ys
    there rest zero h = inl (zero, h)
    there rest (suc i) h = elim (rest (i, h)) [ inl (j, k) ↦ inl (suc j, k) | inr k ↦ inr k ]

    front :
        (IsIn x xs ⊎ IsIn x ys → IsIn x (xs ++ ys))
        → (i : ℕ) → get_elem? (z ∷ xs) i ≡ some x
        → IsIn x (z ∷ xs ++ ys)
    front rest zero h = (zero, h)
    front rest (suc i) h = next (rest (inl (i, h)))

IsIn-map :
    (t u : Text) (s : SimpleType) (ss : List SimpleType)
    → ◌↔◌ (IsIn {A = Text × SimpleType} (u, s) (map (λ x. (t, x)) ss)) ((t ≡ u) × IsIn s ss)
IsIn-map t u s [] = (λ (i, h). absurd cc, λ (e, (i, h)). absurd cc)
IsIn-map t u s (x ∷ ss) =
    (λ (i, h). into (IsIn-map t u s ss).0 i h, λ (e, (i, h)). back (IsIn-map t u s ss).1 e i h)
  where
    into :
        (IsIn {A = Text × SimpleType} (u, s) (map (λ y. (t, y)) ss) → (t ≡ u) × IsIn s ss)
        → (i : ℕ) → get_elem? {A = Text × SimpleType} (map (λ y. (t, y)) (x ∷ ss)) i ≡ some (u, s)
        → (t ≡ u) × IsIn s (x ∷ ss)
    into rest zero h =
        let same : ◌≡◌ {A = Text × SimpleType} (t, x) (u, s) = ground (arith, h) in
        (ap (λ p. p.0) same, (zero, ap some (ap (λ p. p.1) same)))
    into rest (suc i) h = let (e, (j, k)) = rest (i, h) in (e, (suc j, k))

    back :
        ((t ≡ u) × IsIn s ss → IsIn {A = Text × SimpleType} (u, s) (map (λ y. (t, y)) ss))
        → t ≡ u
        → (i : ℕ) → get_elem? (x ∷ ss) i ≡ some s
        → IsIn {A = Text × SimpleType} (u, s) (map (λ y. (t, y)) (x ∷ ss))
    back rest e zero h = let same : x ≡ s = ground (arith, h) in (zero, rw (e, same) refl)
    back rest e (suc i) h = let (j, k) = rest (e, (i, h)) in (suc j, k)

pub IsIn-simple_types :
    (type_map : List (ℕ × Text)) (t : Text) (s : SimpleType)
    → IsIn {A = Text × SimpleType} (t, s) (simple_types type_map) ↔ HasSimple type_map t s
unfolding simple_types
IsIn-simple_types [] t s = (λ (i, h). absurd cc, λ (id, (i, h), k). absurd cc)
IsIn-simple_types ((n, u) ∷ type_map) t s = (
  λ h.
      elim ((IsIn-append {A = Text × SimpleType} (t, s) (map (λ x. (u, x)) (simplify_type u))
          (simple_types type_map)).0
        h) [
          | inl a ↦
              let (e, k) = (IsIn-map u t s (simplify_type u)).0 a in
              (n, (zero, rw e refl), rw (← e) k)
          | inr a ↦
              let (id, (i, g), k) = (IsIn-simple_types type_map t s).0 a in (id, (suc i, g), k)
        ],
  λ (id, (i, g), k).
      (IsIn-append {A = Text × SimpleType} (t, s) (map (λ x. (u, x)) (simplify_type u))
          (simple_types type_map)).1
        (at (IsIn-simple_types type_map t s).1 id i g k),
)
  where
    at :
        (HasSimple type_map t s → IsIn {A = Text × SimpleType} (t, s) (simple_types type_map))
        → (id i : ℕ) → get_elem? ((n, u) ∷ type_map) i ≡ some (id, t)
        → IsIn s (simplify_type t)
        → IsIn {A = Text × SimpleType} (t, s) (map (λ x. (u, x)) (simplify_type u))
          ⊎ IsIn {A = Text × SimpleType} (t, s) (simple_types type_map)
    at rest id zero g k =
        let same : ◌≡◌ {A = ℕ × Text} (n, u) (id, t) = ground (arith, g) in
        let e : u ≡ t = ap (λ p. p.1) same in inl ((IsIn-map u t s (simplify_type u)).1 (e, rw e k))
    at rest id (suc i) g k = inr (rest (id, (i, g), k))

maps_to_iff :
    (eq_map : List (Text × Text)) (x y : Text)
    → (maps_to eq_map x y ≡ true) ↔ (assoc text_eq x eq_map ≡ some y)
unfolding maps_to
maps_to_iff eq_map x y =
    (found (assoc text_eq x eq_map), λ h. rw (h, maps_to) ((text_eq_iff y y).1 refl))
  where
    found : (o : Option Text) → elim o [ none ↦ false | some t ↦ text_eq y t ] ≡ true → o ≡ some y
    found none k = absurd cc
    found (some t) k = ap some (sym ((text_eq_iff y t).0 k))

-- The equivalence of the source, said without its tests.
pub simple_type_eq_iff :
    (b c : Text) (eq_map : List (Text × Text))
    → (simple_type_eq b c eq_map ≡ true) ↔ Equivalent eq_map b c
unfolding simple_type_eq
simple_type_eq_iff b c eq_map = (
  λ h.
      or_cases (text_eq b c || maps_to eq_map c b) (maps_to eq_map b c) h
        (λ k.
          or_cases (text_eq b c) (maps_to eq_map c b) k (λ l. inl ((text_eq_iff b c).0 l))
            (λ l. inr (inl ((maps_to_iff eq_map c b).0 l))))
        (λ l. inr (inr ((maps_to_iff eq_map b c).0 l))),
  λ s. elim s [
    | inl e ↦ first (text_eq b c) (maps_to eq_map c b) (maps_to eq_map b c) ((text_eq_iff b c).1 e)
    | inr (inl e) ↦
        second (text_eq b c) (maps_to eq_map c b) (maps_to eq_map b c)
          ((maps_to_iff eq_map c b).1 e)
    | inr (inr e) ↦
        third (text_eq b c) (maps_to eq_map c b) (maps_to eq_map b c) ((maps_to_iff eq_map b c).1 e)
  ],
)
  where
    first : (p q r : Bool) → p ≡ true → (p || q || r) ≡ true
    first p q r h = ground arith

    second : (p q r : Bool) → q ≡ true → (p || q || r) ≡ true
    second p q r h = ground arith

    third : (p q r : Bool) → r ≡ true → (p || q || r) ≡ true
    third p q r h = ground arith

pub swapped :
    (eq_map : List (Text × Text)) (b c : Text) → Equivalent eq_map b c → Equivalent eq_map c b
swapped eq_map b c s = elim s [
  | inl e ↦ inl (sym e)
  | inr (inl e) ↦ inr (inr e)
  | inr (inr e) ↦ inr (inl e)
]
