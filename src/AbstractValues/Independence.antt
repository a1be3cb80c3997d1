-- ===== src/AbstractValues/Independence.antt =====
-- checker/src/abstract_value.rs: an expression that uses none of some variables does not depend on them.
use hepha.Prelude.{
  neither, arith, ◌≡◌, refl, ℕ, Bool, true, false, ◌||◌, Option, none, some, List, [], ◌∷◌,
}
use hepha.Value.{
  Expression, AbstractValue, value, Cases, no_cases, case_of, Values, no_values, value_and,
  PathEnum,
}
use hepha.Value.Operands.{operands, case_operands, listed, All, value_induction}
use hepha.AbstractValues.Uses.{uses, any_case_uses, any_uses}

-- The path that stands directly in an expression and is part of its meaning.
abbrev pub reads : Expression → Option PathEnum
reads (Expression.reference path) = some path
reads (Expression.initial_parameter_value path _) = some path
reads (Expression.unknown_tag_field path) = some path
reads (Expression.variable path _) = some path
reads (Expression.unknown_model_field path _) = some path
reads (Expression.widened_join path _) = some path
reads _ = none

abbrev pub is_top_expression : Expression → Bool
is_top_expression Expression.top = true
is_top_expression _ = false

-- Two evaluations of expressions that differ in the values of these variables alone: they agree on an
-- expression, other than TOP, that reads none of them and on whose operands they agree.
abbrev pub Agree :
    {A : Type 0} → (PathEnum → Bool) → (AbstractValue → A) → (AbstractValue → A) → Type 0
Agree variables ρ σ =
    (e : Expression) (n : ℕ)
    → is_top_expression e ≡ false
    → ((p : PathEnum) → reads e ≡ some p → variables p ≡ false)
    → All (λ v. ρ v ≡ σ v) (operands e)
    → ρ (value e n) ≡ σ (value e n)

module _ (variables : PathEnum → Bool) where
  uses-top :
      (e : Expression) (n : ℕ) → uses variables (value e n) ≡ false → is_top_expression e ≡ false
  unfolding uses
  uses-top Expression.top n h = absurd (ground arith)
  uses-top e n h = refl

  uses-reads :
      (e : Expression) (n : ℕ) (p : PathEnum)
      → uses variables (value e n) ≡ false
      → reads e ≡ some p
      → variables p ≡ false
  unfolding uses
  uses-reads (Expression.widened_join q v) n p h k = grind arith
  uses-reads e n p h k = grind arith

  -- `||` of the tests of the values of a list.
  any_operand : Bool → List AbstractValue → Bool
  any_operand b [] = b
  any_operand b (v ∷ vs) = any_operand (b || uses variables v) vs

  Unused : List AbstractValue → Type 0
  Unused vs = All (λ v. uses variables v ≡ false) vs

  any_operand-Unused :
      (b : Bool) (vs : List AbstractValue) → any_operand b vs ≡ false → (b ≡ false) × Unused vs
  unfolding any_operand Unused
  any_operand-Unused b [] h = (h, tt)
  any_operand-Unused b (v ∷ vs) h =
      let rest = any_operand-Unused (b || uses variables v) vs h in
      let first = neither b (uses variables v) rest.0 in (first.0, (first.1, rest.1))

  cases-Unused :
      (cases : Cases) → any_case_uses variables cases ≡ false → Unused (case_operands cases)
  unfolding uses case_operands Unused
  cases-Unused no_cases h = tt
  cases-Unused (case_of l r cases) h =
      let rest = neither (uses variables l || uses variables r) (any_case_uses variables cases) h in
      let first = neither (uses variables l) (uses variables r) rest.0 in
      (first.0, (first.1, cases-Unused cases rest.1))

  values-Unused : (args : Values) → any_uses variables args ≡ false → Unused (listed args)
  unfolding uses listed Unused
  values-Unused no_values h = tt
  values-Unused (value_and l args) h =
      let rest = neither (uses variables l) (any_uses variables args) h in
      (rest.0, values-Unused args rest.1)

  unused : (e : Expression) (n : ℕ) → uses variables (value e n) ≡ false → Unused (operands e)
  unfolding uses operands Unused any_operand
  unused (Expression.switch l cases r) n h =
      let rest = neither (uses variables l || uses variables r) (any_case_uses variables cases) h in
      let first = neither (uses variables l) (uses variables r) rest.0 in
      (first.0, (first.1, cases-Unused cases rest.1))
  unused (Expression.uninterpreted_call l args t p) n h =
      let rest = neither (uses variables l) (any_uses variables args) h in
      (rest.0, values-Unused args rest.1)
  unused (Expression.unknown_model_field p v) n h =
      ((neither (variables p) (uses variables v) h).1, tt)
  unused (Expression.widened_join p v) n h = ((neither (uses variables v) (variables p) h).0, tt)
  unused (Expression.reference p) n h = tt
  unused (Expression.initial_parameter_value p t) n h = tt
  unused (Expression.unknown_tag_field p) n h = tt
  unused (Expression.variable p t) n h = tt
  unused Expression.top n h = tt
  unused e n h = (any_operand-Unused false (operands e) h).1

  module _ {A : Type 0} (ρ σ : AbstractValue → A) (agree : Agree variables ρ σ) where
    -- Where the operands of an expression use no variable, they have the same values.
    same_operands :
        (vs : List AbstractValue)
        → All (λ v. uses variables v ≡ false → ρ v ≡ σ v) vs
        → Unused vs
        → All (λ v. ρ v ≡ σ v) vs
    unfolding Unused
    same_operands [] h k = tt
    same_operands (v ∷ vs) h k = (h.0 k.0, same_operands vs h.1 k.1)

    -- Where `uses` answers that an expression uses none of the variables, two evaluations that differ in
    -- the values of these variables alone give the expression the same value.
    pub uses_sound : (v : AbstractValue) → uses variables v ≡ false → ρ v ≡ σ v
    uses_sound v =
        value_induction (λ w. uses variables w ≡ false → ρ w ≡ σ w)
          (λ e n ih h.
            agree e n (uses-top e n h) (λ p. uses-reads e n p h)
              (same_operands (operands e) ih (unused e n h)))
          v
