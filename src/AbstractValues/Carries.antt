-- ===== src/AbstractValues/Carries.antt =====
-- checker/src/abstract_value.rs: the sets of tags that the concrete values of an expression may have.
use hepha.Prelude.{◌≡◌, ℕ, Bool, true, false, ◌||◌, ◌&&◌, some, List, [], ◌∷◌}
use hepha.BoolDomain.{BoolDomain}
use hepha.TagPropagation.{TagPropagation}
use hepha.Tag.{Tag, is_propagated_by}
use hepha.TreeMap.{TreeMap}
use hepha.Value.{Expression, AbstractValue, value, Cases, PathEnum}
use hepha.Value.Kinds.{get_tag_propagation}
use hepha.Value.Operands.{operands}
use hepha.AbstractValues.Evaluation.{ResultOf}

-- The tags of two values.
abbrev pub union : (Tag → Bool) → (Tag → Bool) → Tag → Bool
union s t tag = s tag || t tag

-- The tags that an operation propagates.
abbrev pub propagated : TagPropagation → (Tag → Bool) → Tag → Bool
propagated p s tag = s tag && is_propagated_by tag p

abbrev pub no_tags : Tag → Bool
no_tags tag = false

-- Expressions that never have a tag.
abbrev pub is_untagged : Expression → Bool
is_untagged Expression.top = true
is_untagged Expression.bottom = true
is_untagged (Expression.compile_time_constant _) = true
is_untagged (Expression.heap_block _ _) = true
is_untagged (Expression.heap_block_layout _ _ _) = true
is_untagged (Expression.reference _) = true
is_untagged (Expression.unknown_tag_check _ _ _) = true
is_untagged _ = false

-- Expressions for the unknown contents of a place, which may have any tags.
abbrev pub is_place : Expression → Bool
is_place (Expression.initial_parameter_value _ _) = true
is_place (Expression.unknown_model_field _ _) = true
is_place (Expression.unknown_tag_field _) = true
is_place (Expression.variable _ _) = true
is_place _ = false

module _ (M : TreeMap Tag BoolDomain) where
  mutual
    -- A concrete value of the expression may have this set of tags: those of the condition and of the
    -- chosen branch, a tag that is added, and of the operands of an operation those that the operation
    -- propagates.
    pub data Carries : AbstractValue → (Tag → Bool) → Type 0 where
      untagged : {e : Expression} (n : ℕ) → is_untagged e ≡ true → Carries (value e n) no_tags
      any_tags :
          {e : Expression} (n : ℕ) (s : Tag → Bool) → is_place e ≡ true → Carries (value e n) s
      consequent :
          {c l r : AbstractValue} {s t : Tag → Bool} (n : ℕ)
          → Carries c s
          → Carries l t
          → Carries (value (Expression.conditional_expression c l r) n) (union s t)
      alternate :
          {c l r : AbstractValue} {s t : Tag → Bool} (n : ℕ)
          → Carries c s
          → Carries r t
          → Carries (value (Expression.conditional_expression c l r) n) (union s t)
      left :
          {l r : AbstractValue} {s : Tag → Bool} (n : ℕ)
          → Carries l s
          → Carries (value (Expression.join l r) n) s
      right :
          {l r : AbstractValue} {s : Tag → Bool} (n : ℕ)
          → Carries r s
          → Carries (value (Expression.join l r) n) s
      default :
          {c d : AbstractValue} {cases : Cases} {s t : Tag → Bool} (n : ℕ)
          → Carries c s
          → Carries d t
          → Carries (value (Expression.switch c cases d) n) (union s t)
      one_case :
          {c d v : AbstractValue} {cases : Cases} {s t : Tag → Bool} (n : ℕ)
          → Carries c s
          → ResultOf v cases
          → Carries v t
          → Carries (value (Expression.switch c cases d) n) (union s t)
      added :
          {v : AbstractValue} {s : Tag → Bool} (tag : Tag) (n : ℕ)
          → Carries v s
          → Carries (value (Expression.tagged_expression v tag) n) (λ t. M.eq tag t || s t)
      widened :
          {v : AbstractValue} {s : Tag → Bool} (p : PathEnum) (n : ℕ)
          → Carries v s
          → Carries (value (Expression.widened_join p v) n) s
      operation :
          {e : Expression} {s : Tag → Bool} (p : TagPropagation) (n : ℕ)
          → get_tag_propagation e ≡ some p
          → AllCarry p (operands e) s
          → Carries (value e n) s

    -- The propagated tags of a list of operands.
    pub data AllCarry : TagPropagation → List AbstractValue → (Tag → Bool) → Type 0 where
      none_left : {p : TagPropagation} → AllCarry p [] no_tags
      one_more :
          {p : TagPropagation} {v : AbstractValue} {vs : List AbstractValue} {s t : Tag → Bool}
          → Carries v s
          → AllCarry p vs t
          → AllCarry p (v ∷ vs) (union (propagated p s) t)
