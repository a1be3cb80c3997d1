-- ===== src/FixedPoint.antt =====
-- checker/src/fixed_point_visitor.rs: the order in which blocks are visited. The control flow graph
-- (`predecessors`) and the relation of dominance are the compiler's, and are parameters.
pub mod Sort
pub mod Order
pub mod Result
pub mod Loop
pub mod Tests
use hepha.Prelude.{
  ℕ, zero, suc, Bool, true, false, ◌||◌, ◌==◌, Option, none, some, List, [], ◌∷◌, ◌++◌,
  if◌then◌else◌,
}

-- A set, or a list of blocks, has a block.
abbrev pub contains : List ℕ → ℕ → Bool
contains [] x = false
contains (y ∷ ys) x = y == x || contains ys x

-- `insert` of a hash set.
abbrev pub insert : ℕ → List ℕ → List ℕ
insert x xs = if contains xs x then xs else x ∷ xs

-- The three `&mut` arguments of the sort.
pub record Sorting : Type 0 where
  pub loop_anchors : List ℕ
  pub block_indices : List ℕ
  pub already_added : List ℕ

module _ (predecessors : ℕ → List ℕ) (dominates : ℕ → ℕ → Bool) where
  -- The loop over the predecessors; `visit` is the recursive call.
  unfoldable pub add_predecessors :
      (ℕ → Sorting → Option Sorting) → ℕ → List ℕ → Sorting → Option Sorting
  add_predecessors visit root_block [] s = some s
  add_predecessors visit root_block (pred_bb ∷ ps) s = elim (contains s.already_added pred_bb) [
    | true ↦ add_predecessors visit root_block ps s
    | false ↦ elim (dominates root_block pred_bb) [
      | true ↦
          add_predecessors visit root_block ps
            (record s { loop_anchors = insert root_block s.loop_anchors })
      | false ↦ elim (visit pred_bb s) [
        | none ↦ none
        | some s' ↦ add_predecessors visit root_block ps s'
      ]
    ]
  ]

  -- `block_indices.push(root_block)`
  abbrev pub push : ℕ → Option Sorting → Option Sorting
  push root_block none = none
  push root_block (some s) = some (record s { block_indices = s.block_indices ++ root_block ∷ [] })

  -- The recursion is as deep as blocks are left to add; `none` means that the fuel ran out.
  unfoldable pub add_predecessors_then_root_block : ℕ → ℕ → Sorting → Option Sorting
  unfolding add_predecessors
  add_predecessors_then_root_block zero root_block s = none
  add_predecessors_then_root_block (suc fuel) root_block s =
      if contains s.already_added root_block
      then some s
      else push root_block (
          add_predecessors (add_predecessors_then_root_block fuel) root_block
            (predecessors root_block) (record s { already_added = root_block ∷ s.already_added }))

  -- The loop over the indices of the blocks, `k` of them from `bb` on.
  unfoldable pub sort_from : ℕ → ℕ → ℕ → Sorting → Option Sorting
  unfolding add_predecessors_then_root_block
  sort_from fuel zero bb s = some s
  sort_from fuel (suc k) bb s = elim (add_predecessors_then_root_block fuel bb s) [
    | none ↦ none
    | some s' ↦ sort_from fuel k (suc bb) s'
  ]

  -- The sort of a body of `n` blocks.
  unfoldable pub get_sorted_block_indices : ℕ → ℕ → Option Sorting
  unfolding sort_from
  get_sorted_block_indices fuel n =
      sort_from fuel n 0 (record { loop_anchors = []; block_indices = []; already_added = [] })
