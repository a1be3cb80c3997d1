-- ===== src/TrieMap.antt =====
-- The maps of the crate `rpds` (`HashTrieMap`), as far as the checker uses them: the keys have an equality
-- of their own, which may hold of two keys that differ in what it does not compare.
use hepha.Prelude.{
  arith, refl, ◌∙◌, sym, Bool-cases, inl, inr, Bool, true, false, ◌≡◌, Option, none, some, List, [],
  ◌∷◌, if◌then◌else◌,
}
use hepha.TreeMap.{assoc, Distinct}

-- An equality of keys, by its answers.
pub record KeyEq {K : Type 0} (eq : K → K → Bool) : Type 0 where
  pub eq_refl : (k : K) → eq k k ≡ true
  pub eq_same : (i j k : K) → eq i j ≡ true → eq i k ≡ eq j k
  pub eq_sym : (i j : K) → eq i j ≡ eq j i

-- Lookup after insertion, and the pairs that an iterator visits: one for each key that is present.
pub record TrieMap {K : Type 0} (eq : K → K → Bool) (V : Type 0) : Type 1 where
  pub Map : Type 0
  pub empty : Map
  pub get : Map → K → Option V
  pub insert : Map → K → V → Map
  pub entries : Map → List (K × V)
  pub get-empty : (k : K) → get empty k ≡ none
  pub get-insert :
      (m : Map) (j : K) (v : V) (k : K)
      → get (insert m j v) k ≡ (if eq j k then some v else get m k)
  pub get-entries : (m : Map) (k : K) → get m k ≡ assoc eq k (entries m)
  pub entries-Distinct : (m : Map) → Distinct eq (entries m)

module _ {K V : Type 0} (eq : K → K → Bool) (laws : KeyEq eq) where
  open laws use {eq_refl, eq_same, eq_sym}

  pub assoc-same : (es : List (K × V)) (j k : K) → eq j k ≡ true → assoc eq j es ≡ assoc eq k es
  assoc-same [] j k h = refl
  assoc-same ((i, w) ∷ es) j k h =
      rw (eq_sym i j ∙ eq_same j k i h ∙ eq_sym k i) (rw (assoc-same es j k h) refl)

  -- An association list with one pair for each key is such a map.
  pub replace : List (K × V) → K → V → List (K × V)
  replace [] k v = (k, v) ∷ []
  replace ((j, w) ∷ es) k v = if eq j k then (k, v) ∷ es else (j, w) ∷ replace es k v

  pub assoc-replace :
      (es : List (K × V)) (j : K) (v : V) (k : K)
      → assoc eq k (replace es j v) ≡ (if eq j k then some v else assoc eq k es)
  unfolding replace
  assoc-replace [] j v k = refl
  assoc-replace ((i, w) ∷ es) j v k = elim (Bool-cases (eq i j)) [
    | inl e ↦ rw e (rw (eq_same i j k e) (if_twice (eq j k) (some v) (some w) (assoc eq k es)))
    | inr e ↦ rw e (
        rw (assoc-replace es j v k) (
          apart (eq i k) (eq j k) (some w) (some v) (assoc eq k es)
            (λ a b. ground (arith, eq_same i k j a, eq_sym k j))))
  ]
    where
      if_twice :
          (b : Bool) (x y z : Option V)
          → (if b then x else z) ≡ (if b then x else (if b then y else z))
      if_twice true x y z = refl
      if_twice false x y z = refl

      apart :
          (a b : Bool) (x y z : Option V)
          → (a ≡ true → b ≡ true → ⊥)
          → (if a then x else (if b then y else z)) ≡ (if b then y else (if a then x else z))
      apart true true x y z h = absurd (h refl refl)
      apart true false x y z h = refl
      apart false b x y z h = refl

  pub replace-Distinct :
      (es : List (K × V)) (k : K) (v : V) → Distinct eq es → Distinct eq (replace es k v)
  unfolding replace
  replace-Distinct [] k v d = (refl, tt)
  replace-Distinct ((j, w) ∷ es) k v (fresh, d) = elim (Bool-cases (eq j k)) [
    | inl e ↦ rw e (sym (assoc-same es j k e) ∙ fresh, d)
    | inr e ↦ rw e (assoc-replace es k v j ∙ rw (eq_sym k j ∙ e) fresh, replace-Distinct es k v d)
  ]

  unfoldable pub list_trie : TrieMap eq V
  unfolding replace
  list_trie = record {
    Map = (es : List (K × V)) × Distinct eq es;
    empty = ([], tt);
    get = λ m k. assoc eq k m.0;
    insert = λ m k v. (replace m.0 k v, replace-Distinct m.0 k v m.1);
    entries = λ m. m.0;
    get-empty = λ k. refl;
    get-insert = λ m j v k. assoc-replace m.0 j v k;
    get-entries = λ m k. refl;
    entries-Distinct = λ m. m.1;
  }
