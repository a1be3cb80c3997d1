-- ===== src/FixedPoint/Order.antt =====
-- The order that the sort in checker/src/fixed_point_visitor.rs gives.
use mathlib.Core.List.{Memᴰ}
use mathlib.Core.List.Memᴰ
use hepha.Prelude.{
  arith, ℕ, zero, suc, ◌<◌, ◌≤◌, Bool, true, false, ◌||◌, Option, List, [], ◌∷◌, ◌++◌, ◌≡◌, inl,
  inr, refl, Bool-cases,
}
use hepha.FixedPoint.{
  contains, insert, Sorting, add_predecessors, add_predecessors_then_root_block, push,
}
use hepha.FixedPoint.Sort

kept_or : (i j d : Bool) → (i ≡ true → j ≡ true) → (i || d) ≡ true → (j || d) ≡ true
kept_or i j d h k = ground arith

module _ (n : ℕ) (predecessors : ℕ → List ℕ) (dominates : ℕ → ℕ → Bool) (rank : ℕ → ℕ)
    (Reducible : Type 0) (in_range : (b p : ℕ) → b < n → Memᴰ p (predecessors b) → p < n)
    (falls : Reducible
      → (b p : ℕ) → Memᴰ p (predecessors b)
      → dominates b p ≡ false
      → rank p < rank b) where
  abbrev pub IsSorting : Sorting → Type 0
  IsSorting = Sort.IsSorting n predecessors dominates rank Reducible

  abbrev pub Extends : Sorting → Sorting → Type 0
  Extends = Sort.Extends n predecessors dominates rank Reducible

  abbrev pub Looped : Sorting → ℕ → List ℕ → Option Sorting → Type 0
  Looped = Sort.Looped n predecessors dominates rank Reducible

  abbrev pub Visited : Sorting → ℕ → Option Sorting → Type 0
  Visited = Sort.Visited n predecessors dominates rank Reducible

  abbrev pub open_block : Sorting → ℕ → Bool
  open_block = Sort.open_block n predecessors dominates rank Reducible

  -- A call that works for blocks while fewer than `f` are missing.
  abbrev pub Works : (ℕ → Sorting → Option Sorting) → ℕ → Type 0
  Works visit f =
      (p : ℕ) (s : Sorting)
      → p < n
      → Sort.missing n s.already_added < f
      → IsSorting s
      → (Reducible → (x : ℕ) → open_block s x ≡ true → rank p < rank x)
      → Visited s p (visit p s)

  anchor : ℕ → Sorting → Sorting
  anchor b s = record s { loop_anchors = insert b s.loop_anchors }

  anchor-IsSorting :
      (b p : ℕ) (s : Sorting)
      → Memᴰ p (predecessors b)
      → dominates b p ≡ true
      → IsSorting s
      → IsSorting (anchor b s)
  unfolding anchor
  anchor-IsSorting b p s m d h = record {
    ordered = h.ordered;
    listed = h.listed;
    in_range = h.in_range;
    anchors = λ x e. elim (Bool-cases (contains s.loop_anchors x)) [
      | inl f ↦ h.anchors x f
      | inr f ↦ let q : b ≡ x = ground arith in rw (← q) (p, m, d)
    ];
  }

  -- The loop over `p ∷ ps` from the loop over `ps`.
  extend_loop :
      (s s' : Sorting) (b p : ℕ) (ps : List ℕ) (r : Option Sorting)
      → Extends s s'
      → (Reducible → (contains s'.block_indices p || dominates b p) ≡ true)
      → Looped s' b ps r
      → Looped s b (p ∷ ps) r
  extend_loop s s' b p ps r e first k = record {
    result = k.result;
    returned = k.returned;
    sorting = k.sorting;
    extends = Sort.Extends-trans n predecessors dominates rank Reducible e k.extends;
    ready = λ t q m. elim (Memᴰ.cases_cons m) [
      | inl same ↦ rw same (
          kept_or (contains s'.block_indices p) (contains k.result.block_indices p) (dominates b p)
            (k.extends.kept p) (first t))
      | inr later ↦ k.ready t q later
    ];
  }

  module _ (visit : ℕ → Sorting → Option Sorting) (f : ℕ) (works : Works visit f) (b : ℕ)
      (bn : b < n) where
    -- A predecessor that was added before is in the list already, unless `b` dominates it.
    ready_added :
        (p : ℕ) (s : Sorting)
        → Memᴰ p (predecessors b)
        → (Reducible → (x : ℕ) → open_block s x ≡ true → rank b ≤ rank x)
        → contains s.already_added p ≡ true
        → Reducible
        → (contains s.block_indices p || dominates b p) ≡ true
    ready_added p s m above added r = elim (Bool-cases (dominates b p)) [
      | inl d ↦ ground arith
      | inr d ↦ elim (Bool-cases (contains s.block_indices p)) [
        | inl i ↦ ground arith
        | inr i ↦
            let low = falls r b p m d in let high = above r p (ground arith) in absurd (omega arith)
      ]
    ]

    ready-Visited :
        (p : ℕ) (s : Sorting) (o : Option Sorting) (v : Visited s p o)
        → contains s.already_added p ≡ false
        → contains v.result.block_indices p ≡ true
    ready-Visited p s o v fresh = elim (Bool-cases (contains v.result.block_indices p)) [
      | inl i ↦ i
      | inr i ↦ let there = v.there in let still = v.extends.closed p (ground arith) in ground arith
    ]

    add_predecessors_works :
        (ps : List ℕ) (s : Sorting)
        → ((p : ℕ) → Memᴰ p ps → Memᴰ p (predecessors b))
        → IsSorting s
        → Sort.missing n s.already_added < f
        → (Reducible → (x : ℕ) → open_block s x ≡ true → rank b ≤ rank x)
        → Looped s b ps (add_predecessors predecessors dominates visit b ps s)
    unfolding add_predecessors anchor
    add_predecessors_works [] s sub h l above = record {
      result = s;
      returned = refl;
      sorting = h;
      extends = Sort.Extends-refl n predecessors dominates rank Reducible s;
      ready = λ r p m. absurd (Memᴰ.not-nil m);
    }
    add_predecessors_works (p ∷ ps) s sub h l above =
        let m : Memᴰ p (predecessors b) = sub p (Memᴰ.head refl) in
        let later = λ (q : ℕ) (k : Memᴰ q ps). sub q (Memᴰ.tail k) in
        elim (Bool-cases (contains s.already_added p)) [
          | inl added ↦
              rw (added, add_predecessors)
                (extend_loop s s b p ps _
                  (Sort.Extends-refl n predecessors dominates rank Reducible s)
                  (ready_added p s m above added) (add_predecessors_works ps s later h l above))
          | inr fresh ↦ elim (Bool-cases (dominates b p)) [
            | inl d ↦
                rw (fresh, add_predecessors)
                  (rw (d, add_predecessors)
                    (extend_loop s (anchor b s) b p ps _
                      (record {
                        added = λ x k. k;
                        kept = λ x k. k;
                        closed = λ x k. k;
                        stays = λ x k. k;
                      })
                      (λ r. ground arith)
                      (add_predecessors_works ps (anchor b s) later (anchor-IsSorting b p s m d h) l
                        above)))
            | inr d ↦
                let v =
                  works p s (in_range b p bn m) l h
                    (λ r x o. omega (arith, falls r b p m d, above r x o)) in
                rw (fresh, add_predecessors)
                  (rw (d, add_predecessors)
                    (rw v.returned (
                      extend_loop s v.result b p ps _ v.extends
                        (λ r. ground (arith, ready-Visited p s _ v fresh))
                        (add_predecessors_works ps v.result later v.sorting
                          (omega (
                            arith,
                            Sort.missing_mono n s.already_added v.result.already_added
                                v.extends.added,
                          ))
                          (λ r x o. above r x (v.extends.closed x o))))))
          ]
        ]

  -- The state in which the predecessors of a new block are looked at, and the one after its push.
  begin_block : ℕ → Sorting → Sorting
  begin_block b s = record s { already_added = b ∷ s.already_added }

  end_block : ℕ → Sorting → Sorting
  end_block b s = record s { block_indices = s.block_indices ++ b ∷ [] }

  begin_block-IsSorting : (b : ℕ) (s : Sorting) → b < n → IsSorting s → IsSorting (begin_block b s)
  unfolding begin_block
  begin_block-IsSorting b s bn h = record {
    ordered = h.ordered;
    listed = λ x e. ground (arith, h.listed x);
    in_range = λ x e. ground (arith, h.in_range x);
    anchors = h.anchors;
  }

  module _ (b : ℕ) (s : Sorting) (h : IsSorting s) (fresh : contains s.already_added b ≡ false)
      (bn : b < n) where
    unlisted : contains s.block_indices b ≡ false
    unlisted = elim (Bool-cases (contains s.block_indices b)) [
      | inl e ↦ let a = h.listed b e in ground arith
      | inr e ↦ e
    ]

    -- The push ends the call for `b`, and no other.
    push_block :
        (r : Option Sorting)
        → Looped (begin_block b s) b (predecessors b) r
        → Visited s b (push predecessors dominates b r)
    unfolding begin_block end_block
    push_block r k =
        let t = k.result in
        let opened = k.extends.stays b (ground (arith, unlisted)) in
        let out : contains t.block_indices b ≡ false = ground arith in
        rw k.returned (record {
          result = end_block b t;
          returned = refl;
          sorting = record {
            ordered = Sort.Ordered.snoc b k.sorting.ordered out k.ready refl;
            listed = λ x e. ground (
              arith,
              Sort.contains-append t.block_indices b x,
              k.sorting.listed x,
              k.extends.added b,
            );
            in_range = k.sorting.in_range;
            anchors = k.sorting.anchors;
          };
          extends = record {
            added = λ x e. k.extends.added x (ground arith);
            kept =
                λ x e. ground (arith, Sort.contains-append t.block_indices b x, k.extends.kept x e);
            closed =
                λ x e. ground (arith, Sort.contains-append t.block_indices b x, k.extends.closed x);
            stays =
                λ x e. ground (arith, Sort.contains-append t.block_indices b x, k.extends.stays x);
          };
          there = k.extends.added b (ground arith);
        })

  -- With fuel above the number of missing blocks a call returns.
  pub visit-Works : (f : ℕ) → Works (add_predecessors_then_root_block predecessors dominates f) f
  unfolding add_predecessors_then_root_block begin_block
  visit-Works zero b s bn l h above = absurd (omega arith)
  visit-Works (suc f) b s bn l h above = elim (Bool-cases (contains s.already_added b)) [
    | inl added ↦ rw added (record {
      result = s;
      returned = refl;
      sorting = h;
      extends = Sort.Extends-refl n predecessors dominates rank Reducible s;
      there = added;
    })
    | inr fresh ↦ rw fresh (
        push_block b s h fresh bn _ (
          add_predecessors_works (add_predecessors_then_root_block predecessors dominates f) f
            (visit-Works f) b bn (predecessors b) (begin_block b s) (λ p m. m)
            (begin_block-IsSorting b s bn h)
            (omega (arith, Sort.missing_new n b s.already_added bn fresh))
            (λ r x o. ground (arith, above r x))))
  ]
