-- ===== src/TreeMap.antt =====
-- The maps of the crate `rpds` (`RedBlackTreeMap`), as far as the checker uses them.
use hepha.Prelude.Lists.{size}
use hepha.Prelude.{
  ◌+◌, arith, refl, ◌∙◌, Bool-cases, inl, inr, Bool, true, ◌≡◌, ◌↔◌, Option, none, some, List, [],
  ◌∷◌, if◌then◌else◌,
}

-- The first value that an association list has for a key.
abbrev pub assoc : {K V : Type 0} → (K → K → Bool) → K → List (K × V) → Option V
assoc eq k [] = none
assoc eq k ((j, v) ∷ es) = if eq j k then some v else assoc eq k es

-- No key stands twice.
abbrev pub Distinct : {K V : Type 0} → (K → K → Bool) → List (K × V) → Type 0
Distinct eq [] = Unit
Distinct eq ((k, v) ∷ es) = (assoc eq k es ≡ none) × Distinct eq es

-- Lookup after insertion, and the pairs that an iterator visits: one for each key that is present.
pub record TreeMap (K V : Type 0) : Type 1 where
  pub eq : K → K → Bool
  pub eq_iff : (j k : K) → (eq j k ≡ true) ↔ (j ≡ k)
  pub Map : Type 0
  pub empty : Map
  pub get : Map → K → Option V
  pub insert : Map → K → V → Map
  pub entries : Map → List (K × V)
  pub get-empty : (k : K) → get empty k ≡ none
  pub get-insert :
      (m : Map) (j : K) (v : V) (k : K)
      → get (insert m j v) k ≡ (if eq j k then some v else get m k)
  pub get-entries : (m : Map) (k : K) → get m k ≡ assoc eq k (entries m)
  pub entries-Distinct : (m : Map) → Distinct eq (entries m)

module _ {K V : Type 0} (eq : K → K → Bool) (eq_iff : (j k : K) → (eq j k ≡ true) ↔ (j ≡ k)) where
  -- An association list with one pair for each key is such a map.
  unfoldable pub put : List (K × V) → K → V → List (K × V)
  put [] k v = (k, v) ∷ []
  put ((j, w) ∷ es) k v = if eq j k then (k, v) ∷ es else (j, w) ∷ put es k v

  pub assoc-put :
      (es : List (K × V)) (j : K) (v : V) (k : K)
      → assoc eq k (put es j v) ≡ (if eq j k then some v else assoc eq k es)
  unfolding put
  assoc-put [] j v k = refl
  assoc-put ((i, w) ∷ es) j v k =
      ground (arith, assoc-put es j v k, eq_iff i j, eq_iff j k, eq_iff i k)

  pub size-put :
      (es : List (K × V)) (k : K) (v : V) → assoc eq k es ≡ none → size (put es k v) ≡ size es + 1
  unfolding put
  size-put [] k v h = omega arith
  size-put ((j, w) ∷ es) k v h = elim (Bool-cases (eq j k)) [
    | inl e ↦ absurd (ground (arith, rw e at h))
    | inr e ↦ rw e (omega (arith, size-put es k v (rw e at h)))
  ]

  pub put-Distinct : (es : List (K × V)) (k : K) (v : V) → Distinct eq es → Distinct eq (put es k v)
  unfolding put
  put-Distinct [] k v d = (refl, tt)
  put-Distinct ((j, w) ∷ es) k v (fresh, d) = elim (Bool-cases (eq j k)) [
    | inl e ↦ rw e (rw ((eq_iff j k).0 e) at fresh, d)
    | inr e ↦
        rw e (assoc-put es k v j ∙ ground (arith, eq_iff j k, eq_iff k j), put-Distinct es k v d)
  ]

  unfoldable pub list_map : TreeMap K V
  unfolding put
  list_map = record {
    eq = eq;
    eq_iff = eq_iff;
    Map = (es : List (K × V)) × Distinct eq es;
    empty = ([], tt);
    get = λ m k. assoc eq k m.0;
    insert = λ m k v. (put m.0 k v, put-Distinct m.0 k v m.1);
    entries = λ m. m.0;
    get-empty = λ k. refl;
    get-insert = λ m j v k. assoc-put m.0 j v k;
    get-entries = λ m k. refl;
    entries-Distinct = λ m. m.1;
  }
