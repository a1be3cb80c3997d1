-- ===== src/Summaries/Tests.antt =====
-- Runs of the comparison of summaries.
use hepha.Prelude.{ℕ, ◌≡◌, refl, Bool, true, false, not, ◌&&◌, ◌||◌, ltb, none, List, [], ◌∷◌}
use hepha.Value.{AbstractValue, PathEnum, parameter, result, value, top, bottom}
use hepha.AbstractValues.{subset}
use hepha.Summaries.{Precondition, Summary, is_subset_of}
use hepha.Summaries.Merging.{
  AllCovered, Pointwise, by_spans, by_condition, by_path, by_value, is_subset_of_sound,
}

-- As in the source, no two paths of different kinds are less than one another.
abbrev path_lt : PathEnum → PathEnum → Bool
path_lt (parameter m) (parameter n) = ltb m n
path_lt _ _ = false

abbrev span_lt : List ℕ → List ℕ → Bool
span_lt [] [] = false
span_lt [] (n ∷ _) = true
span_lt (m ∷ _) [] = false
span_lt (m ∷ ms) (n ∷ ns) = ltb m n || not (ltb n m) && span_lt ms ns

abbrev when_called : AbstractValue → List ℕ → Precondition
when_called condition spans = record {
  condition = condition;
  message = [];
  provenance = none;
  spans = spans;
}

abbrev made : List Precondition → List (PathEnum × AbstractValue) → Summary
made preconditions side_effects = record {
  is_computed = true;
  is_incomplete = false;
  preconditions = preconditions;
  side_effects = side_effects;
  post_condition = none;
  return_type_index = 0;
}

abbrev bottom_value : AbstractValue
bottom_value = value bottom 1

abbrev top_value : AbstractValue
top_value = value top 1

abbrev small : Summary
small = made (when_called bottom_value (5 ∷ []) ∷ []) ((parameter 1, bottom_value) ∷ [])

abbrev large : Summary
large =
    made (when_called bottom_value (2 ∷ []) ∷ when_called top_value (5 ∷ []) ∷ [])
      ((parameter 1, top_value) ∷ (result, top_value) ∷ [])

small_in_large : is_subset_of span_lt path_lt small large ≡ true
unfolding is_subset_of subset
small_in_large = refl

-- A value of the first parameter is compared with one of the result.
other_path :
    is_subset_of span_lt path_lt
      (made [] ((parameter 1, bottom_value) ∷ []))
      (made [] ((result, top_value) ∷ []))
    ≡ true
unfolding is_subset_of subset
other_path = refl

is_subset_of_example :
    (is_subset_of span_lt path_lt small large ≡ true
      → AllCovered
          (by_spans span_lt path_lt)
          (by_condition span_lt path_lt)
          small.preconditions
          large.preconditions
        × AllCovered
            (by_path span_lt path_lt)
            (by_value span_lt path_lt)
            small.side_effects
            large.side_effects)
    × (Pointwise
          (by_spans span_lt path_lt)
          (by_condition span_lt path_lt)
          small.preconditions
          large.preconditions
        → Pointwise
            (by_path span_lt path_lt)
            (by_value span_lt path_lt)
            small.side_effects
            large.side_effects
        → is_subset_of span_lt path_lt small large ≡ true)
is_subset_of_example = is_subset_of_sound span_lt path_lt small large
