-- ===== src/AbstractValues/StateTests.antt =====
-- Conditions and sets of values of checker/src/abstract_value.rs at concrete values.
use hepha.Prelude.{
  arith, ℕ, ◌≡◌, refl, sym, ap, ◌∙◌, Bool, true, false, not, ◌&&◌, ◌||◌, ◌==◌, if◌then◌else◌, inl,
  ◌⊎◌,
}
use hepha.ExpressionType.{ExpressionType}
use hepha.Constant.{ConstantDomain}
use hepha.Value.{Expression, AbstractValue, value, PathEnum, parameter}
use hepha.Value.InferType
use hepha.Value.Codes.{Code, Codes, node, done, next, eq_code, eq_code-same}
use hepha.Value.Equality.{eq_expression, of_expression}
use hepha.AbstractValues.{
  eq_value, as_bool_if_known, true_value, false_value, implies, implies_disjunct,
  conditional_subset, join_subset, plain_subset, known_implication, is_unknown, subset,
}
use hepha.AbstractValues.Truth.{Truth, implies_sound}
use hepha.AbstractValues.Sets.{Sets, subset_sound}

abbrev condition : AbstractValue
condition = value (Expression.variable (parameter 2) ExpressionType.bool) 1

abbrev code_of : AbstractValue → Code
code_of (value e n) = of_expression e

equal_codes : (v w : AbstractValue) → eq_value v w ≡ true → code_of v ≡ code_of w
unfolding eq_value eq_expression
equal_codes (value e m) (value f n) h = eq_code-same (of_expression e) (of_expression f) h

-- The truth values where every variable is false.
unfoldable mutual
  truth : Code → Bool
  truth (node k cs) =
      let every = all_true cs in
      let some_one = any_true cs in
      if k == 4
      then every
      else if k == 31
      then some_one
      else if k == 25
      then not some_one
      else k == 10 && is_true_constant cs

  all_true : Codes → Bool
  all_true done = true
  all_true (next c cs) = truth c && all_true cs

  any_true : Codes → Bool
  any_true done = false
  any_true (next c cs) = truth c || any_true cs

  is_true_constant : Codes → Bool
  is_true_constant (next (node k _) _) = k == 9
  is_true_constant done = false

abbrev all_false : AbstractValue → Bool
all_false v = truth (code_of v)

all_false-and :
    (l r : AbstractValue) (n : ℕ)
    → all_false (value (Expression.and l r) n) ≡ (all_false l && all_false r)
unfolding truth of_expression
all_false-and (value e k) (value f m) n = regroup (all_false (value e k)) (all_false (value f m))
  where
    regroup : (a b : Bool) → (a && (b && true)) ≡ (a && b)
    regroup a b = ground arith

all_false-or :
    (l r : AbstractValue) (n : ℕ)
    → all_false (value (Expression.or l r) n) ≡ (all_false l || all_false r)
unfolding truth of_expression
all_false-or (value e k) (value f m) n = regroup (all_false (value e k)) (all_false (value f m))
  where
    regroup : (a b : Bool) → (a || (b || false)) ≡ (a || b)
    regroup a b = ground arith

all_false-not :
    (v : AbstractValue) (n : ℕ) → all_false (value (Expression.logical_not v) n) ≡ not (all_false v)
unfolding truth of_expression
all_false-not (value e k) n = regroup (all_false (value e k))
  where
    regroup : (a : Bool) → not (a || false) ≡ not a
    regroup a = ground arith

all_false-Truth : Truth all_false
unfolding truth of_expression
all_false-Truth = record {
  of_true = λ n. refl;
  of_false = λ n. refl;
  of_and = all_false-and;
  of_or = all_false-or;
  of_not = all_false-not;
  of_equal = λ v w h. ap truth (equal_codes v w h);
}

abbrev negated_false : AbstractValue
negated_false = value (Expression.logical_not false_value) 2

abbrev conjunction : AbstractValue
conjunction = value (Expression.and negated_false true_value) 3

abbrev disjunction : AbstractValue
disjunction = value (Expression.or condition negated_false) 3

implies_example : all_false disjunction ≡ true
unfolding implies implies_disjunct known_implication is_unknown truth of_expression eq_value
    eq_expression eq_code InferType.is_top as_bool_if_known
implies_example = implies_sound all_false all_false-Truth conjunction disjunction refl refl

-- The numbers that are among the constants of an abstract value, of which the conditions are not asked.
unfoldable mutual
  member : ℕ → Code → Bool
  member z (node k cs) =
      let operands = any_member z cs in
      let later_operands = any_later z cs in
      if k == 0
      then true
      else if k == 10
      then is_number z cs
      else if k == 22
      then operands
      else if k == 11
      then later_operands
      else if k == 49
      then later_operands
      else false

  any_member : ℕ → Codes → Bool
  any_member z done = false
  any_member z (next c cs) = member z c || any_member z cs

  any_later : ℕ → Codes → Bool
  any_later z done = false
  any_later z (next c cs) = any_member z cs

  is_number : ℕ → Codes → Bool
  is_number z (next (node k (next (node n _) _)) _) = k == 10 && n == z
  is_number z _ = false

abbrev Numbers : AbstractValue → ℕ → Type 0
Numbers v z = member z (code_of v) ≡ true

or_false : (a : Bool) → (a || false) ≡ true → a ≡ true
or_false a h = ground arith

false_or : (a b : Bool) → (a ≡ true) ⊎ (b ≡ true) → (a || (b || false)) ≡ true
false_or a b h = ground arith

either_of : (a b : Bool) → (a || (b || false)) ≡ true → (a ≡ true) ⊎ (b ≡ true)
either_of a b h = ground arith

Numbers-join :
    (l r : AbstractValue) (n z : ℕ)
    → (Numbers (value (Expression.join l r) n) z → Numbers l z ⊎ Numbers r z)
      × (Numbers l z ⊎ Numbers r z → Numbers (value (Expression.join l r) n) z)
unfolding member of_expression
Numbers-join (value e k) (value f m) n z =
    let a = member z (of_expression e) in
    let b = member z (of_expression f) in (either_of a b, false_or a b)

Numbers-conditional :
    (c l r : AbstractValue) (n z : ℕ)
    → (Numbers (value (Expression.conditional_expression c l r) n) z → Numbers l z ⊎ Numbers r z)
      × (Numbers l z ⊎ Numbers r z → Numbers (value (Expression.conditional_expression c l r) n) z)
unfolding member of_expression
Numbers-conditional (value d j) (value e k) (value f m) n z =
    let a = member z (of_expression e) in
    let b = member z (of_expression f) in (either_of a b, false_or a b)

Numbers-widened :
    (p : PathEnum) (v : AbstractValue) (n z : ℕ)
    → (Numbers v z → Numbers (value (Expression.widened_join p v) n) z)
      × (Numbers (value (Expression.widened_join p v) n) z → Numbers v z)
unfolding member of_expression
Numbers-widened p (value e k) n z =
    let a = member z (of_expression e) in (λ h. false_or a false (inl h), or_false a)

Numbers-Sets : Sets Numbers
unfolding member of_expression
Numbers-Sets = record {
  of_equal = λ v w h z k. sym (ap (member z) (equal_codes v w h)) ∙ k;
  of_bottom = λ n z h. absurd (false≢true h);
  of_top = λ n z. refl;
  of_conditional = Numbers-conditional;
  of_join = Numbers-join;
  of_widened = λ p v n z. (Numbers-widened p v n z).0;
  widened_mono =
      λ p q v w m n f z h. (Numbers-widened q w n z).0 (f z ((Numbers-widened p v m z).1 h));
}
  where
    false≢true : false ≡ true → ⊥
    false≢true h = absurd (ground arith)

abbrev three : AbstractValue
three = value (Expression.compile_time_constant (ConstantDomain.u128 3)) 1

abbrev four : AbstractValue
four = value (Expression.compile_time_constant (ConstantDomain.u128 4)) 1

abbrev three_or_four : AbstractValue
three_or_four = value (Expression.join three four) 2

abbrev chosen : AbstractValue
chosen = value (Expression.conditional_expression condition three_or_four four) 4

abbrev widened : AbstractValue
widened = value (Expression.widened_join (parameter 1) three_or_four) 3

subset_example : Numbers widened 3
unfolding subset conditional_subset join_subset plain_subset eq_value eq_expression eq_code
    of_expression member
subset_example =
    subset_sound Numbers Numbers-Sets
      (value (Expression.conditional_expression condition three_or_four three_or_four) 4) widened
      refl 3 refl
