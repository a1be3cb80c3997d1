-- ===== src/FixedPoint/Tests.antt =====
-- The visit of the blocks in checker/src/fixed_point_visitor.rs for a small control flow graph.
use mathlib.Core.List.{Memᴰ}
use mathlib.Core.List.Memᴰ
use hepha.Prelude.{
  arith, ℕ, zero, suc, ◌<◌, Bool, true, false, ◌||◌, ◌==◌, some, List, [], ◌∷◌, ◌≡◌, refl, ltb, leb,
  ◌+◌,
}
use hepha.FixedPoint.{Sorting, contains, get_sorted_block_indices}
use hepha.FixedPoint.Result.{Unique, precedes, sort_complete, sort_order}
use hepha.FixedPoint.Loop.{Outcome, compute_fixed_point, Ends, compute_fixed_point-Ends}

-- Block 0 enters a loop of the blocks 1 and 2, which block 1 leaves for block 3.
abbrev predecessors : ℕ → List ℕ
predecessors zero = []
predecessors (suc zero) = 0 ∷ 2 ∷ []
predecessors (suc (suc zero)) = 1 ∷ []
predecessors (suc (suc (suc zero))) = 1 ∷ []
predecessors (suc (suc (suc (suc b)))) = []

abbrev dominates : ℕ → ℕ → Bool
dominates zero p = true
dominates (suc zero) zero = false
dominates (suc zero) (suc p) = true
dominates (suc (suc b)) p = suc (suc b) == p

one_of : {x p : ℕ} → Memᴰ p (x ∷ []) → p ≡ x
one_of (Memᴰ.head e) = ground arith
one_of (Memᴰ.tail m) = absurd (Memᴰ.not-nil m)

predecessors_in_range : (b p : ℕ) → b < 4 → Memᴰ p (predecessors b) → p < 4
predecessors_in_range zero p l m = absurd (Memᴰ.not-nil m)
predecessors_in_range (suc zero) p l (Memᴰ.head e) = ground arith
predecessors_in_range (suc zero) p l (Memᴰ.tail m) = omega (arith, one_of m)
predecessors_in_range (suc (suc zero)) p l m = omega (arith, one_of m)
predecessors_in_range (suc (suc (suc zero))) p l m = omega (arith, one_of m)
predecessors_in_range (suc (suc (suc (suc b)))) p l m = absurd (Memᴰ.not-nil m)

predecessors_fall : (b p : ℕ) → Memᴰ p (predecessors b) → dominates b p ≡ false → p < b
predecessors_fall zero p m d = absurd (Memᴰ.not-nil m)
predecessors_fall (suc zero) p (Memᴰ.head e) d = ground arith
predecessors_fall (suc zero) p (Memᴰ.tail m) d =
    let e = one_of m in let f : dominates 1 2 ≡ false = rw e at d in absurd (cc)
predecessors_fall (suc (suc zero)) p m d = omega (arith, one_of m)
predecessors_fall (suc (suc (suc zero))) p m d = omega (arith, one_of m)
predecessors_fall (suc (suc (suc (suc b)))) p m d = absurd (Memᴰ.not-nil m)

abbrev sorting : Sorting
sorting = record {
  loop_anchors = 1 ∷ [];
  block_indices = 0 ∷ 1 ∷ 2 ∷ 3 ∷ [];
  already_added = 3 ∷ 2 ∷ 1 ∷ 0 ∷ [];
}

sort_value : get_sorted_block_indices predecessors dominates 5 4 ≡ some sorting
unfolding get_sorted_block_indices
sort_value = refl

sort_complete_example :
    (t : Sorting) × (get_sorted_block_indices predecessors dominates 5 4 ≡ some t)
    × Unique t.block_indices
    × ((x : ℕ) → contains t.block_indices x ≡ ltb x 4)
sort_complete_example = sort_complete 4 predecessors dominates predecessors_in_range

sort_order_example : (precedes sorting.block_indices 1 3 || dominates 3 1) ≡ true
sort_order_example =
    sort_order 4 predecessors dominates (λ b. b) predecessors_in_range predecessors_fall sorting 3 1
      sort_value (omega arith) (Memᴰ.head refl)

-- The state counts the rounds up to forty, and sixty more say that the analysis was given up. A round
-- finds nothing new from the seventh one on.
abbrev restore : ℕ → ℕ → ℕ
restore saved s = s

abbrev visit_loop_body : ℕ → ℕ → (Bool × ℕ) × ℕ
visit_loop_body iteration_count s = ((ltb iteration_count 7, 2), suc s)

abbrev analysis_is_incomplete : ℕ → Bool
analysis_is_incomplete s = leb 60 s

abbrev out_of_time : ℕ → Bool
out_of_time s = leb 40 s

abbrev mark_incomplete : ℕ → ℕ
mark_incomplete s = s + 60

loop_value :
    compute_fixed_point restore visit_loop_body analysis_is_incomplete out_of_time mark_incomplete 1
      0
    ≡ some (record { state = 7; last_block = 2; changed = false; iteration_count = 8 })
unfolding compute_fixed_point
loop_value = refl

-- The clock runs out in the second round.
timeout_value :
    compute_fixed_point restore visit_loop_body analysis_is_incomplete out_of_time mark_incomplete 1
      38
    ≡ some (record { state = 100; last_block = 2; changed = true; iteration_count = 2 })
unfolding compute_fixed_point
timeout_value = refl

compute_fixed_point_example :
    (o : Outcome ℕ) × (compute_fixed_point restore visit_loop_body analysis_is_incomplete
        out_of_time mark_incomplete 1 0
      ≡ some o)
    × Ends restore visit_loop_body analysis_is_incomplete out_of_time mark_incomplete 1 0 o
compute_fixed_point_example =
    compute_fixed_point-Ends restore visit_loop_body analysis_is_incomplete out_of_time
      mark_incomplete 1 0
