-- ===== src/Environment/Comparison.antt =====
-- checker/src/environment.rs: when one environment is found to be within another, and which paths are
-- found to vary.
use hepha.Prelude.{
  arith, ◌≡◌, refl, sym, ◌∙◌, ◌↔◌, Bool-cases, inl, inr, Bool, true, false, not, ◌||◌, ◌&&◌, Option,
  none, some, List, [], ◌∷◌, ◌++◌, if◌then◌else◌,
}
use hepha.Value.{AbstractValue, PathEnum}
use hepha.Value.Codes.{eq_code-same, eq_code_refl}
use hepha.Value.Equality.{eq_path, of_path}
use hepha.TreeMap.{assoc, Distinct}
use hepha.TrieMap.{KeyEq, TrieMap, assoc-same}
use hepha.AbstractValues
use hepha.AbstractValues.{eq_value, is_bottom}
use hepha.Environment.{
  Environment, value_at, keeps_within, subset_from, subset, differs, is_missing, picked,
  get_loop_variants,
}

eq_path-code : (p q : PathEnum) → eq_path p q ≡ true → of_path p ≡ of_path q
unfolding eq_path
eq_path-code p q h = eq_code-same (of_path p) (of_path q) h

eq_path-same : (i j k : PathEnum) → eq_path i j ≡ true → eq_path i k ≡ eq_path j k
unfolding eq_path
eq_path-same i j k h = rw (eq_path-code i j h) refl

eq_path_refl : (k : PathEnum) → eq_path k k ≡ true
unfolding eq_path
eq_path_refl k = eq_code_refl (of_path k)

eq_path-swap : (i j : PathEnum) → eq_path i j ≡ true → eq_path j i ≡ true
eq_path-swap i j e = sym (eq_path-same i j i e) ∙ eq_path_refl i

same_answer : (a b : Bool) → (a ≡ true → b ≡ true) → (b ≡ true → a ≡ true) → a ≡ b
same_answer a b h k = ground arith

eq_path-sym : (i j : PathEnum) → eq_path i j ≡ eq_path j i
eq_path-sym i j = same_answer (eq_path i j) (eq_path j i) (eq_path-swap i j) (eq_path-swap j i)

-- The equality of paths is one of keys.
pub path_keys : KeyEq eq_path
path_keys = record { eq_refl = eq_path_refl; eq_same = eq_path-same; eq_sym = eq_path-sym }

-- The set has a path equal to this one.
abbrev pub contains : List PathEnum → PathEnum → Bool
contains [] path = false
contains (p ∷ ps) path = eq_path p path || contains ps path

-- Whether the values that two environments have for a path differ.
abbrev pub varies : Option AbstractValue → Option AbstractValue → Bool
varies none none = false
varies none (some v) = true
varies (some v) none = true
varies (some v) (some w) = not (eq_value v w)

chosen :
    (b : Bool) (w v : AbstractValue) (o : Option AbstractValue)
    → (if b then some w else o) ≡ some v
    → (b ≡ true → w ≡ v) × (b ≡ false → o ≡ some v)
chosen true w v o h = (λ _. cc, λ k. absurd (ground arith))
chosen false w v o h = (λ k. absurd (ground arith), λ _. h)

module _ (M : TrieMap eq_path AbstractValue) where
  get-same : (m : M.Map) (j k : PathEnum) → eq_path j k ≡ true → M.get m j ≡ M.get m k
  get-same m j k h =
      M.get-entries m j ∙ assoc-same eq_path path_keys (M.entries m) j k h ∙ sym (M.get-entries m k)

  -- A value that `subset` accepts at a path.
  abbrev Accepted : Environment M → AbstractValue → PathEnum → Type 0
  Accepted other v path = is_bottom v ≡ false → keeps_within M v (M.get other.value_map path) ≡ true

  accepts :
      (b c r : Bool)
      → (if b then r else if not c then false else r) ≡ true
      → (b ≡ false → c ≡ true) × (r ≡ true)
  accepts b c r h = ground arith

  accepted :
      (b c r : Bool)
      → (b ≡ false → c ≡ true)
      → r ≡ true
      → (if b then r else if not c then false else r) ≡ true
  accepted b c r h k = ground arith

  subset_into :
      (es : List (PathEnum × AbstractValue)) (other : Environment M)
      → subset_from M es other ≡ true
      → (path : PathEnum) (v : AbstractValue) → assoc eq_path path es ≡ some v
      → Accepted other v path
  unfolding subset_from
  subset_into [] other h path v e = absurd cc
  subset_into ((k, w) ∷ es) other h path v e =
      let now =
        accepts (is_bottom w) (keeps_within M w (M.get other.value_map k)) (subset_from M es other)
          h in
      elim (Bool-cases (eq_path k path)) [
        | inl x ↦
            rw (sym ((chosen (eq_path k path) w v (assoc eq_path path es) e).0 x))
              (λ b. rw (sym (get-same other.value_map k path x)) (now.0 b))
        | inr x ↦
            subset_into es other now.1 path v
              ((chosen (eq_path k path) w v (assoc eq_path path es) e).1 x)
      ]

  -- What is found behind an entry is found in front of it, too, as its key is not the entry's.
  passes_over :
      (k path : PathEnum) (w v : AbstractValue) (es : List (PathEnum × AbstractValue))
      → assoc eq_path k es ≡ none
      → assoc eq_path path es ≡ some v
      → assoc eq_path path ((k, w) ∷ es) ≡ some v
  passes_over k path w v es fresh e = elim (Bool-cases (eq_path k path)) [
    | inl x ↦
        let same : assoc eq_path path es ≡ none =
          sym (assoc-same eq_path path_keys es k path x) ∙ fresh in
        absurd cc
    | inr x ↦ rw x e
  ]

  subset_from-entries :
      (es : List (PathEnum × AbstractValue)) (other : Environment M)
      → Distinct eq_path es
      → ((path : PathEnum) (v : AbstractValue)
          → assoc eq_path path es ≡ some v
          → Accepted other v path)
      → subset_from M es other ≡ true
  unfolding subset_from
  subset_from-entries [] other d h = refl
  subset_from-entries ((k, w) ∷ es) other (fresh, d) h =
      accepted (is_bottom w) (keeps_within M w (M.get other.value_map k)) (subset_from M es other)
        (h k w (rw (eq_path_refl k) refl))
        (subset_from-entries es other d (λ path v e. h path v (passes_over k path w v es fresh e)))

  -- `v` is found to be within each value that there is.
  keeps :
      (v : AbstractValue) (o : Option AbstractValue)
      → ((w : AbstractValue) → o ≡ some w → AbstractValues.subset v w ≡ true)
      → keeps_within M v o ≡ true
  keeps v none h = refl
  keeps v (some w) h = h w refl

  kept :
      (v w : AbstractValue) (o : Option AbstractValue)
      → o ≡ some w
      → keeps_within M v o ≡ true
      → AbstractValues.subset v w ≡ true
  kept v w none e h = absurd cc
  kept v w (some x) e h = let same : x ≡ w = ground (arith, e) in rw (← same) h

  -- An environment is found to be within another exactly if, for each path with a value other than
  -- bottom for which the other environment has a value, too, the first value is found to be a subset of the
  -- second.
  pub subset_exact :
      (self other : Environment M)
      → (subset M self other ≡ true) ↔ (
          (path : PathEnum) (v w : AbstractValue)
          → value_at M self path ≡ some v
          → is_bottom v ≡ false
          → value_at M other path ≡ some w
          → AbstractValues.subset v w ≡ true)
  unfolding subset value_at
  subset_exact self other = (
    λ h path v w e b k. kept v w (M.get other.value_map path) k (
        subset_into (M.entries self.value_map) other h path v
          (sym (M.get-entries self.value_map path) ∙ e) b),
    λ h.
        subset_from-entries (M.entries self.value_map) other (M.entries-Distinct self.value_map)
          (λ path v e b.
            keeps v (M.get other.value_map path)
              (λ w k. h path v w (M.get-entries self.value_map path ∙ e) b k)),
  )

  -- The test of a loop at a path.
  test_at :
      (AbstractValue → Option AbstractValue → Bool)
      → Option AbstractValue
      → Option AbstractValue
      → Bool
  test_at test none o = false
  test_at test (some v) o = test v o

  -- A list with a path put in front under a condition.
  contains_if :
      (b : Bool) (k path : PathEnum) (ps : List PathEnum)
      → contains (if b then k ∷ ps else ps) path ≡ (b && eq_path k path || contains ps path)
  contains_if true k path ps = refl
  contains_if false k path ps = refl

  contains-picked :
      (test : AbstractValue → Option AbstractValue → Bool) (es : List (PathEnum × AbstractValue))
      (other : Environment M) (path : PathEnum)
      → Distinct eq_path es
      → contains (picked M test es other) path
        ≡ test_at test (assoc eq_path path es) (M.get other.value_map path)
  unfolding picked test_at
  contains-picked test [] other path d = refl
  contains-picked test ((k, w) ∷ es) other path (fresh, d) =
      contains_if (test w (M.get other.value_map k)) k path (picked M test es other)
      ∙ elim (Bool-cases (eq_path k path)) [
        | inl x ↦ rw x (
            rw (contains-picked test es other path d) (
              rw (sym (assoc-same eq_path path_keys es k path x) ∙ fresh) (
                rw (get-same other.value_map k path x)
                  (kept (test w (M.get other.value_map path))))))
        | inr x ↦ rw x (
            rw (contains-picked test es other path d)
              (dropped (test w (M.get other.value_map k)) _))
      ]
    where
      kept : (b : Bool) → (b && true || false) ≡ b
      kept b = ground arith

      dropped : (b c : Bool) → (b && false || c) ≡ c
      dropped b c = ground arith

  contains-append :
      (ps qs : List PathEnum) (path : PathEnum)
      → contains (ps ++ qs) path ≡ (contains ps path || contains qs path)
  contains-append [] qs path = refl
  contains-append (p ∷ ps) qs path = ground (arith, contains-append ps qs path)

  either_loop :
      (v w : Option AbstractValue)
      → (test_at (differs M) v w || test_at (is_missing M) w v) ≡ varies v w
  unfolding test_at
  either_loop none none = refl
  either_loop none (some w) = refl
  either_loop (some v) none = refl
  either_loop (some v) (some w) = ground arith

  -- The loop variants of two environments are exactly the paths for which they have different values, or
  -- for which one of them has a value and the other has none.
  pub get_loop_variants_exact :
      (self other : Environment M) (path : PathEnum)
      → contains (get_loop_variants M self other) path
        ≡ varies (value_at M self path) (value_at M other path)
  unfolding get_loop_variants value_at
  get_loop_variants_exact self other path =
      contains-append (picked M (differs M) (M.entries self.value_map) other)
        (picked M (is_missing M) (M.entries other.value_map) self) path
      ∙ rw
          (contains-picked (differs M) (M.entries self.value_map) other path
            (M.entries-Distinct self.value_map))
          (rw
            (contains-picked (is_missing M) (M.entries other.value_map) self path
              (M.entries-Distinct other.value_map))
            (rw (sym (M.get-entries self.value_map path)) (
              rw (sym (M.get-entries other.value_map path))
                (either_loop (M.get self.value_map path) (M.get other.value_map path)))))
