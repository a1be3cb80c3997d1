-- ===== src/Summaries.antt =====
-- The comparison of function summaries, checker/src/summaries.rs. The tests `<` of paths and of stacks of
-- source locations are arguments, of which nothing is assumed; `p > q` is written as `q < p`.
pub mod Merging
mod Tests
use hepha.Prelude.{ℕ, Bool, true, false, ◌&&◌, Option, List, [], ◌∷◌, if◌then◌else◌}
use hepha.Value.{AbstractValue, PathEnum}
use hepha.AbstractValues.{subset}

abbrev pub Text : Type 0
Text = List ℕ

-- A source location is a number.
pub record Precondition : Type 0 where
  pub condition : AbstractValue
  pub message : Text
  pub provenance : Option Text
  pub spans : List ℕ

pub record Summary : Type 0 where
  pub is_computed : Bool
  pub is_incomplete : Bool
  pub preconditions : List Precondition
  pub side_effects : List (PathEnum × AbstractValue)
  pub post_condition : Option AbstractValue
  pub return_type_index : ℕ

-- The loop that both comparisons are.
unfoldable pub merge_subset {ℓ} :
    {A : Type ℓ} → (A → A → Bool) → (A → A → Bool) → List A → List A → Bool
merge_subset less within [] e2 = true
merge_subset less within (x ∷ e1) [] = false
merge_subset less within (x ∷ e1) (y ∷ e2) =
    let skip = merge_subset less within (x ∷ e1) e2 in
    let rest = merge_subset less within e1 e2 in
    if less x y then false else (if less y x then skip else (if within x y then rest else false))

module _ (span_lt : List ℕ → List ℕ → Bool) (path_lt : PathEnum → PathEnum → Bool) where
  unfoldable pub is_subset_of_preconditions : List Precondition → List Precondition → Bool
  unfolding merge_subset
  is_subset_of_preconditions =
      merge_subset (λ p q. span_lt p.spans q.spans) (λ p q. subset p.condition q.condition)

  unfoldable pub is_subset_of_side_effects :
      List (PathEnum × AbstractValue) → List (PathEnum × AbstractValue) → Bool
  unfolding merge_subset
  is_subset_of_side_effects = merge_subset (λ e f. path_lt e.0 f.0) (λ e f. subset e.1 f.1)

  unfoldable pub is_subset_of : Summary → Summary → Bool
  unfolding is_subset_of_preconditions is_subset_of_side_effects
  is_subset_of s other =
      if is_subset_of_preconditions s.preconditions other.preconditions
      then is_subset_of_side_effects s.side_effects other.side_effects
      else false
