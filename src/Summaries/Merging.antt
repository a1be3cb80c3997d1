-- ===== src/Summaries/Merging.antt =====
-- What the comparison of summaries of checker/src/summaries.rs decides.
use hepha.Prelude.{
  ℕ, zero, suc, ◌≡◌, inl, inr, refl, arith, Bool, true, false, some, List, [], ◌∷◌, if◌then◌else◌,
  Bool-cases,
}
use hepha.Prelude.Lists.{get_elem?}
use hepha.Value.{AbstractValue, PathEnum}
use hepha.AbstractValues.{subset}
use hepha.Summaries.{
  Precondition, Summary, merge_subset, is_subset_of_preconditions, is_subset_of_side_effects,
  is_subset_of,
}

module _ {A : Type 0} (less within : A → A → Bool) where
  -- An element of the list that is neither less nor greater than `x`, and within which `x` is.
  pub record Covered (x : A) (ys : List A) : Type 0 where
    pub at : ℕ
    pub cover : A
    pub there : get_elem? ys at ≡ some cover
    pub not_less : less x cover ≡ false
    pub not_greater : less cover x ≡ false
    pub inside : within x cover ≡ true

  abbrev pub AllCovered : List A → List A → Type 0
  AllCovered xs ys = (i : ℕ) (x : A) → get_elem? xs i ≡ some x → Covered x ys

  later : {x y : A} {ys : List A} → Covered x ys → Covered x (y ∷ ys)
  later c = record {
    at = suc c.at;
    cover = c.cover;
    there = c.there;
    not_less = c.not_less;
    not_greater = c.not_greater;
    inside = c.inside;
  }

  merge_subset_sound : (xs ys : List A) → merge_subset less within xs ys ≡ true → AllCovered xs ys
  unfolding merge_subset
  merge_subset_sound [] ys h i x g = absurd cc
  merge_subset_sound (x ∷ xs) [] h i z g = absurd cc
  merge_subset_sound (x ∷ xs) (y ∷ ys) h i z g = elim (Bool-cases (less x y)) [
    | inl lt ↦ absurd (ground (arith, rw lt at h))
    | inr ge ↦ elim (Bool-cases (less y x)) [
      | inl gt ↦ later (merge_subset_sound (x ∷ xs) ys (rw (ge, gt) at h) i z g)
      | inr le ↦ elim (Bool-cases (within x y)) [
        | inl ok ↦ step ge le ok i g (merge_subset_sound xs ys (rw (ge, le, ok) at h))
        | inr bad ↦ absurd (ground (arith, rw (ge, le, bad) at h))
      ]
    ]
  ]
    where
      step :
          less x y ≡ false
          → less y x ≡ false
          → within x y ≡ true
          → (i : ℕ) → get_elem? (x ∷ xs) i ≡ some z
          → AllCovered xs ys
          → Covered z (y ∷ ys)
      step ge le ok zero g rest =
          let same : x ≡ z = ground (arith, g) in
          rw (← same) (record {
            at = zero;
            cover = y;
            there = refl;
            not_less = ge;
            not_greater = le;
            inside = ok;
          })
      step ge le ok (suc i) g rest = later (rest i z g)

  -- The elements of the first list are each within the element at the same place of the second, and
  -- neither less nor greater.
  abbrev pub Pointwise : List A → List A → Type 0
  Pointwise [] ys = Unit {0}
  Pointwise (x ∷ xs) [] = ⊥
  Pointwise (x ∷ xs) (y ∷ ys) =
      (less x y ≡ false) × (less y x ≡ false) × (within x y ≡ true) × Pointwise xs ys

  merge_subset-Pointwise :
      (xs ys : List A) → Pointwise xs ys → merge_subset less within xs ys ≡ true
  unfolding merge_subset
  merge_subset-Pointwise [] ys h = refl
  merge_subset-Pointwise (x ∷ xs) [] h = absurd h
  merge_subset-Pointwise (x ∷ xs) (y ∷ ys) (ge, le, ok, rest) =
      rw (ge, le, ok, merge_subset-Pointwise xs ys rest) refl

module _ (span_lt : List ℕ → List ℕ → Bool) (path_lt : PathEnum → PathEnum → Bool) where
  abbrev pub by_spans : Precondition → Precondition → Bool
  by_spans p q = span_lt p.spans q.spans

  abbrev pub by_condition : Precondition → Precondition → Bool
  by_condition p q = subset p.condition q.condition

  abbrev pub by_path : PathEnum × AbstractValue → PathEnum × AbstractValue → Bool
  by_path e f = path_lt e.0 f.0

  abbrev pub by_value : PathEnum × AbstractValue → PathEnum × AbstractValue → Bool
  by_value e f = subset e.1 f.1

  -- Whatever the comparisons of paths and of stacks of locations are: if a summary is found to be a subset
  -- of another, each of its preconditions has one of the other at a location neither less nor greater
  -- whose condition its condition is a subset of, and each of its side effects has one on a path neither less
  -- nor greater whose value its value is a subset of. If they stand so at the same places of the two
  -- summaries, the summary is found to be a subset.
  pub is_subset_of_sound :
      (s other : Summary)
      → (is_subset_of span_lt path_lt s other ≡ true
          → AllCovered by_spans by_condition s.preconditions other.preconditions
            × AllCovered by_path by_value s.side_effects other.side_effects)
        × (Pointwise by_spans by_condition s.preconditions other.preconditions
            → Pointwise by_path by_value s.side_effects other.side_effects
            → is_subset_of span_lt path_lt s other ≡ true)
  unfolding is_subset_of is_subset_of_preconditions is_subset_of_side_effects
  is_subset_of_sound s other = (
    λ h.
        let (a, b) =
          split (merge_subset by_spans by_condition s.preconditions other.preconditions)
            (merge_subset by_path by_value s.side_effects other.side_effects) h in
        (
          merge_subset_sound by_spans by_condition s.preconditions other.preconditions a,
          merge_subset_sound by_path by_value s.side_effects other.side_effects b,
        ),
    λ p e.
        rw (merge_subset-Pointwise by_spans by_condition s.preconditions other.preconditions p)
          (merge_subset-Pointwise by_path by_value s.side_effects other.side_effects e),
  )
    where
      split : (a b : Bool) → (if a then b else false) ≡ true → (a ≡ true) × (b ≡ true)
      split a b h = ground arith
