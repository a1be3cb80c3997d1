-- ===== src/FixedPoint/Result.antt =====
-- The list of blocks that the sort in checker/src/fixed_point_visitor.rs returns.
use mathlib.Core.List.{Memᴰ}
use mathlib.Core.Path.{subst}
use hepha.Prelude.{
  arith, ℕ, zero, suc, ◌+◌, ◌<◌, ◌≤◌, Bool, true, false, ◌||◌, ◌==◌, some, List, [], ◌∷◌, ◌++◌,
  if◌then◌else◌, ◌≡◌, inl, inr, refl, ltb, Bool-cases,
}
use hepha.FixedPoint.{contains, Sorting, sort_from, get_sorted_block_indices}
use hepha.FixedPoint.Sort
use hepha.FixedPoint.Order

-- No block stands twice.
abbrev pub Unique : List ℕ → Type 0
Unique [] = Unit
Unique (x ∷ xs) = (contains xs x ≡ false) × Unique xs

-- The block `p` stands before the first place of `b`.
abbrev pub precedes : List ℕ → ℕ → ℕ → Bool
precedes [] p b = false
precedes (x ∷ xs) p b = if x == b then false else x == p || precedes xs p b

Unique-snoc : (xs : List ℕ) (b : ℕ) → Unique xs → contains xs b ≡ false → Unique (xs ++ b ∷ [])
Unique-snoc [] b u e = (refl, tt)
Unique-snoc (x ∷ xs) b u e =
    (ground (arith, Sort.contains-append xs b x), Unique-snoc xs b u.1 (ground arith))

precedes-old :
    (xs : List ℕ) (c p b : ℕ) → contains xs b ≡ true → precedes (xs ++ c ∷ []) p b ≡ precedes xs p b
precedes-old [] c p b e = cc
precedes-old (x ∷ xs) c p b e = ground (arith, precedes-old xs c p b)

precedes-new :
    (xs : List ℕ) (p b : ℕ) → contains xs b ≡ false → precedes (xs ++ b ∷ []) p b ≡ contains xs p
precedes-new [] p b e = ground arith
precedes-new (x ∷ xs) p b e = ground (arith, precedes-new xs p b)

missing-le : (n : ℕ) (added : List ℕ) → Sort.missing n added ≤ n
missing-le zero added = omega arith
missing-le (suc n) added = ground (arith, missing-le n added)

module _ (n : ℕ) (predecessors : ℕ → List ℕ) (dominates : ℕ → ℕ → Bool) (rank : ℕ → ℕ)
    (Reducible : Type 0) where
  abbrev Ordered : List ℕ → Type 0
  Ordered = Sort.Ordered n predecessors dominates rank Reducible

  Ordered-Unique : {ys : List ℕ} → Ordered ys → Unique ys
  Ordered-Unique Sort.Ordered.nil = tt
  Ordered-Unique (Sort.Ordered.snoc {xs} b o out ready e) =
      rw e (Unique-snoc xs b (Ordered-Unique o) out)

  Ordered-precedes :
      {ys : List ℕ}
      → Ordered ys
      → Reducible
      → (b p : ℕ) → contains ys b ≡ true
      → Memᴰ p (predecessors b)
      → (precedes ys p b || dominates b p) ≡ true
  Ordered-precedes Sort.Ordered.nil r b p i m = cc
  Ordered-precedes (Sort.Ordered.snoc {xs} c o out ready e) r b p i m =
      rw e (elim (Bool-cases (contains xs b)) [
        | inl old ↦ rw (precedes-old xs c p b old) (Ordered-precedes o r b p old m)
        | inr new ↦
            let found : contains (xs ++ c ∷ []) b ≡ true = rw e at i in
            let q : c ≡ b = ground (arith, Sort.contains-append xs c b) in
            let here = rw (← q) at m in ground (arith, precedes-new xs p b new, ready r p here)
      ])

module _ (n : ℕ) (predecessors : ℕ → List ℕ) (dominates : ℕ → ℕ → Bool) (rank : ℕ → ℕ)
    (Reducible : Type 0) (in_range : (b p : ℕ) → b < n → Memᴰ p (predecessors b) → p < n)
    (falls : Reducible
      → (b p : ℕ) → Memᴰ p (predecessors b)
      → dominates b p ≡ false
      → rank p < rank b) where
  abbrev IsSorting : Sorting → Type 0
  IsSorting = Sort.IsSorting n predecessors dominates rank Reducible

  abbrev open_block : Sorting → ℕ → Bool
  open_block = Sort.open_block n predecessors dominates rank Reducible

  -- Between two calls of the loop: no call is open, and the blocks below `bb` are added.
  record Between (bb : ℕ) (s : Sorting) : Type 0 where
    sorting : IsSorting s
    none_open : (x : ℕ) → open_block s x ≡ false
    added : (x : ℕ) → x < bb → contains s.already_added x ≡ true

  sort_from_works :
      (fuel k bb : ℕ) (s : Sorting)
      → bb + k ≤ n
      → n < fuel
      → Between bb s
      → (t : Sorting) × (sort_from predecessors dominates fuel k bb s ≡ some t) × Between (bb + k) t
  unfolding sort_from
  sort_from_works fuel zero bb s l f h = (
    s,
    refl,
    record { sorting = h.sorting; none_open = h.none_open; added = λ x e. h.added x (omega arith) },
  )
  sort_from_works fuel (suc k) bb s l f h =
      let v =
        Order.visit-Works n predecessors dominates rank Reducible in_range falls fuel bb s
          (omega arith) (omega (arith, missing-le n s.already_added)) h.sorting
          (λ r x o. let c = h.none_open x in absurd (cc)) in
      let (t, e, b) = sort_from_works fuel k (suc bb) v.result (omega arith) f (record {
        sorting = v.sorting;
        none_open = λ x. ground (arith, h.none_open x, v.extends.closed x);
        added = λ x e. elim (Bool-cases (x == bb)) [
          | inl q ↦ let q' : x ≡ bb = ground arith in rw q' v.there
          | inr q ↦ v.extends.added x (h.added x (ground arith))
        ];
      }) in
      (
        t,
        rw (v.returned, sort_from) e,
        record {
          sorting = b.sorting;
          none_open = b.none_open;
          added = λ x l. b.added x (omega arith);
        },
      )

  sorted :
      (t : Sorting) × (get_sorted_block_indices predecessors dominates (suc n) n ≡ some t)
      × IsSorting t
      × ((x : ℕ) → x < n → contains t.block_indices x ≡ true)
  unfolding get_sorted_block_indices
  sorted =
      let (t, e, b) =
        sort_from_works (suc n) n 0
          (record { loop_anchors = []; block_indices = []; already_added = [] }) (omega arith)
          (omega arith)
          (record {
            sorting = record {
              ordered = Sort.Ordered.nil;
              listed = λ x e. cc;
              in_range = λ x e. cc;
              anchors = λ x e. cc;
            };
            none_open = λ x. refl;
            added = λ x l. absurd (omega arith);
          }) in
      (t, e, b.sorting, λ x l. ground (arith, b.added x, b.none_open x))

  -- What is so of the list that the sort is shown to return is so of every result.
  result_of :
      (P : Sorting → Type 0) (t : Sorting)
      → get_sorted_block_indices predecessors dominates (suc n) n ≡ some t
      → P sorted.0
      → P t
  result_of P t e h = let returned = sorted.1 in let same : sorted.0 ≡ t = cc in subst P same h

-- With fuel for one block more than there are the sort returns, and the returned list has each block
-- of the body exactly once.
pub sort_complete :
    (n : ℕ) (predecessors : ℕ → List ℕ) (dominates : ℕ → ℕ → Bool)
    → ((b p : ℕ) → b < n → Memᴰ p (predecessors b) → p < n)
    → (t : Sorting) × (get_sorted_block_indices predecessors dominates (suc n) n ≡ some t)
      × Unique t.block_indices
      × ((x : ℕ) → contains t.block_indices x ≡ ltb x n)
sort_complete n predecessors dominates in_range =
    let (t, e, s, all) =
      sorted n predecessors dominates (λ x. 0) ⊥ in_range (λ r b p m d. absurd r) in
    (
      t,
      e,
      Ordered-Unique n predecessors dominates (λ x. 0) ⊥ s.ordered,
      λ x. ground (arith, all x, s.in_range x, s.listed x),
    )

-- Each loop anchor that the sort returns dominates one of its predecessors.
pub sort_anchors :
    (n : ℕ) (predecessors : ℕ → List ℕ) (dominates : ℕ → ℕ → Bool)
    → ((b p : ℕ) → b < n → Memᴰ p (predecessors b) → p < n)
    → (t : Sorting) (x : ℕ) → get_sorted_block_indices predecessors dominates (suc n) n ≡ some t
    → contains t.loop_anchors x ≡ true
    → (p : ℕ) × Memᴰ p (predecessors x) × (dominates x p ≡ true)
sort_anchors n predecessors dominates in_range t x e =
    let no = λ (r : ⊥) (b p : ℕ) (m : Memᴰ p (predecessors b)) (d : dominates b p ≡ false).
      absurd {A = 0 < 0} r in
    result_of n predecessors dominates (λ x. 0) ⊥ in_range no
      (λ t.
        contains t.loop_anchors x ≡ true
        → (p : ℕ) × Memᴰ p (predecessors x) × (dominates x p ≡ true))
      t e ((sorted n predecessors dominates (λ x. 0) ⊥ in_range no).2.anchors x)

-- In a reducible graph (the edges from a block to one that does not dominate it go up in some rank)
-- every predecessor of a block stands before it in the returned list, unless the block dominates it.
pub sort_order :
    (n : ℕ) (predecessors : ℕ → List ℕ) (dominates : ℕ → ℕ → Bool) (rank : ℕ → ℕ)
    → ((b p : ℕ) → b < n → Memᴰ p (predecessors b) → p < n)
    → ((b p : ℕ) → Memᴰ p (predecessors b) → dominates b p ≡ false → rank p < rank b)
    → (t : Sorting) (b p : ℕ) → get_sorted_block_indices predecessors dominates (suc n) n ≡ some t
    → b < n
    → Memᴰ p (predecessors b)
    → (precedes t.block_indices p b || dominates b p) ≡ true
sort_order n predecessors dominates rank in_range falls t b p e l m =
    let s = sorted n predecessors dominates rank Unit in_range (λ r. falls) in
    result_of n predecessors dominates rank Unit in_range (λ r. falls)
      (λ t. (precedes t.block_indices p b || dominates b p) ≡ true) t e
      (Ordered-precedes n predecessors dominates rank Unit s.2.ordered tt b p (s.3 b l) m)
