-- ===== src/Value/Operands.antt =====
-- checker/src/expression.rs: the abstract values that stand directly in an expression, in the order in
-- which the traversals of an expression visit them, and induction on abstract values.
use hepha.Prelude.{ℕ, List, [], ◌∷◌}
use hepha.Value.{
  Expression, AbstractValue, value, Cases, no_cases, case_of, Values, no_values, value_and, top,
  bottom, add, add_overflows, and, bit_and, bit_not, bit_or, bit_xor, cast, compile_time_constant,
  conditional_expression, div, equals, greater_or_equal, greater_than, heap_block,
  heap_block_layout, initial_parameter_value, intrinsic_binary, intrinsic_bit_vector_unary,
  intrinsic_floating_point_unary, join, less_or_equal, less_than, logical_not, memcmp, mul,
  mul_overflows, ne, neg, or, offset, reference, rem, shl, shl_overflows, shr, shr_overflows, sub,
  sub_overflows, switch, tagged_expression, transmute, uninterpreted_call, unknown_model_field,
  unknown_tag_check, unknown_tag_field, variable, widened_join,
}

unfoldable pub case_operands : Cases → List AbstractValue
case_operands no_cases = []
case_operands (case_of l r cases) = l ∷ r ∷ case_operands cases

unfoldable pub listed : Values → List AbstractValue
listed no_values = []
listed (value_and l args) = l ∷ listed args

unfoldable pub operands : Expression → List AbstractValue
unfolding case_operands listed
operands top = []
operands bottom = []
operands (add l r) = l ∷ r ∷ []
operands (add_overflows l r _) = l ∷ r ∷ []
operands (and l r) = l ∷ r ∷ []
operands (bit_and l r) = l ∷ r ∷ []
operands (bit_not l _) = l ∷ []
operands (bit_or l r) = l ∷ r ∷ []
operands (bit_xor l r) = l ∷ r ∷ []
operands (cast l _) = l ∷ []
operands (compile_time_constant _) = []
operands (conditional_expression l r s) = l ∷ r ∷ s ∷ []
operands (div l r) = l ∷ r ∷ []
operands (equals l r) = l ∷ r ∷ []
operands (greater_or_equal l r) = l ∷ r ∷ []
operands (greater_than l r) = l ∷ r ∷ []
operands (heap_block _ _) = []
operands (heap_block_layout l r _) = l ∷ r ∷ []
operands (initial_parameter_value _ _) = []
operands (intrinsic_binary l r _) = l ∷ r ∷ []
operands (intrinsic_bit_vector_unary l _ _) = l ∷ []
operands (intrinsic_floating_point_unary l _) = l ∷ []
operands (join l r) = l ∷ r ∷ []
operands (less_or_equal l r) = l ∷ r ∷ []
operands (less_than l r) = l ∷ r ∷ []
operands (logical_not l) = l ∷ []
operands (memcmp l r s) = l ∷ r ∷ s ∷ []
operands (mul l r) = l ∷ r ∷ []
operands (mul_overflows l r _) = l ∷ r ∷ []
operands (ne l r) = l ∷ r ∷ []
operands (neg l) = l ∷ []
operands (or l r) = l ∷ r ∷ []
operands (offset l r) = l ∷ r ∷ []
operands (reference _) = []
operands (rem l r) = l ∷ r ∷ []
operands (shl l r) = l ∷ r ∷ []
operands (shl_overflows l r _) = l ∷ r ∷ []
operands (shr l r) = l ∷ r ∷ []
operands (shr_overflows l r _) = l ∷ r ∷ []
operands (sub l r) = l ∷ r ∷ []
operands (sub_overflows l r _) = l ∷ r ∷ []
operands (switch l cases r) = l ∷ r ∷ case_operands cases
operands (tagged_expression l _) = l ∷ []
operands (transmute l _) = l ∷ []
operands (uninterpreted_call l args _ _) = l ∷ listed args
operands (unknown_model_field _ l) = l ∷ []
operands (unknown_tag_check l _ _) = l ∷ []
operands (unknown_tag_field _) = []
operands (variable _ _) = []
operands (widened_join _ l) = l ∷ []

-- Of each value of a list.
abbrev pub All : (AbstractValue → Type 0) → List AbstractValue → Type 0
All P [] = Unit
All P (v ∷ vs) = P v × All P vs

-- What holds of an abstract value whenever it holds of the operands holds of all abstract values.
module _ (P : AbstractValue → Type 0)
    (step : (e : Expression) (n : ℕ) → All P (operands e) → P (value e n)) where
  mutual
    unfolding operands case_operands listed

    pub value_induction : (v : AbstractValue) → P v
    value_induction (value top n) = step top n tt
    value_induction (value bottom n) = step bottom n tt
    value_induction (value (add l r) n) =
        step (add l r) n (value_induction l, (value_induction r, tt))
    value_induction (value (add_overflows l r t) n) =
        step (add_overflows l r t) n (value_induction l, (value_induction r, tt))
    value_induction (value (and l r) n) =
        step (and l r) n (value_induction l, (value_induction r, tt))
    value_induction (value (bit_and l r) n) =
        step (bit_and l r) n (value_induction l, (value_induction r, tt))
    value_induction (value (bit_not l t) n) = step (bit_not l t) n (value_induction l, tt)
    value_induction (value (bit_or l r) n) =
        step (bit_or l r) n (value_induction l, (value_induction r, tt))
    value_induction (value (bit_xor l r) n) =
        step (bit_xor l r) n (value_induction l, (value_induction r, tt))
    value_induction (value (cast l t) n) = step (cast l t) n (value_induction l, tt)
    value_induction (value (compile_time_constant x) n) = step (compile_time_constant x) n tt
    value_induction (value (conditional_expression l r s) n) =
        step (conditional_expression l r s) n
          (value_induction l, (value_induction r, (value_induction s, tt)))
    value_induction (value (div l r) n) =
        step (div l r) n (value_induction l, (value_induction r, tt))
    value_induction (value (equals l r) n) =
        step (equals l r) n (value_induction l, (value_induction r, tt))
    value_induction (value (greater_or_equal l r) n) =
        step (greater_or_equal l r) n (value_induction l, (value_induction r, tt))
    value_induction (value (greater_than l r) n) =
        step (greater_than l r) n (value_induction l, (value_induction r, tt))
    value_induction (value (heap_block x y) n) = step (heap_block x y) n tt
    value_induction (value (heap_block_layout l r x) n) =
        step (heap_block_layout l r x) n (value_induction l, (value_induction r, tt))
    value_induction (value (initial_parameter_value path t) n) =
        step (initial_parameter_value path t) n tt
    value_induction (value (intrinsic_binary l r x) n) =
        step (intrinsic_binary l r x) n (value_induction l, (value_induction r, tt))
    value_induction (value (intrinsic_bit_vector_unary l x y) n) =
        step (intrinsic_bit_vector_unary l x y) n (value_induction l, tt)
    value_induction (value (intrinsic_floating_point_unary l x) n) =
        step (intrinsic_floating_point_unary l x) n (value_induction l, tt)
    value_induction (value (join l r) n) =
        step (join l r) n (value_induction l, (value_induction r, tt))
    value_induction (value (less_or_equal l r) n) =
        step (less_or_equal l r) n (value_induction l, (value_induction r, tt))
    value_induction (value (less_than l r) n) =
        step (less_than l r) n (value_induction l, (value_induction r, tt))
    value_induction (value (logical_not l) n) = step (logical_not l) n (value_induction l, tt)
    value_induction (value (memcmp l r s) n) =
        step (memcmp l r s) n (value_induction l, (value_induction r, (value_induction s, tt)))
    value_induction (value (mul l r) n) =
        step (mul l r) n (value_induction l, (value_induction r, tt))
    value_induction (value (mul_overflows l r t) n) =
        step (mul_overflows l r t) n (value_induction l, (value_induction r, tt))
    value_induction (value (ne l r) n) =
        step (ne l r) n (value_induction l, (value_induction r, tt))
    value_induction (value (neg l) n) = step (neg l) n (value_induction l, tt)
    value_induction (value (or l r) n) =
        step (or l r) n (value_induction l, (value_induction r, tt))
    value_induction (value (offset l r) n) =
        step (offset l r) n (value_induction l, (value_induction r, tt))
    value_induction (value (reference path) n) = step (reference path) n tt
    value_induction (value (rem l r) n) =
        step (rem l r) n (value_induction l, (value_induction r, tt))
    value_induction (value (shl l r) n) =
        step (shl l r) n (value_induction l, (value_induction r, tt))
    value_induction (value (shl_overflows l r t) n) =
        step (shl_overflows l r t) n (value_induction l, (value_induction r, tt))
    value_induction (value (shr l r) n) =
        step (shr l r) n (value_induction l, (value_induction r, tt))
    value_induction (value (shr_overflows l r t) n) =
        step (shr_overflows l r t) n (value_induction l, (value_induction r, tt))
    value_induction (value (sub l r) n) =
        step (sub l r) n (value_induction l, (value_induction r, tt))
    value_induction (value (sub_overflows l r t) n) =
        step (sub_overflows l r t) n (value_induction l, (value_induction r, tt))
    value_induction (value (switch l cases r) n) =
        step (switch l cases r) n (value_induction l, (value_induction r, cases_induction cases))
    value_induction (value (tagged_expression l x) n) =
        step (tagged_expression l x) n (value_induction l, tt)
    value_induction (value (transmute l t) n) = step (transmute l t) n (value_induction l, tt)
    value_induction (value (uninterpreted_call l args t path) n) =
        step (uninterpreted_call l args t path) n (value_induction l, values_induction args)
    value_induction (value (unknown_model_field path l) n) =
        step (unknown_model_field path l) n (value_induction l, tt)
    value_induction (value (unknown_tag_check l x y) n) =
        step (unknown_tag_check l x y) n (value_induction l, tt)
    value_induction (value (unknown_tag_field path) n) = step (unknown_tag_field path) n tt
    value_induction (value (variable path t) n) = step (variable path t) n tt
    value_induction (value (widened_join path l) n) =
        step (widened_join path l) n (value_induction l, tt)

    cases_induction : (cases : Cases) → All P (case_operands cases)
    cases_induction no_cases = tt
    cases_induction (case_of l r cases) =
        (value_induction l, (value_induction r, cases_induction cases))

    values_induction : (args : Values) → All P (listed args)
    values_induction no_values = tt
    values_induction (value_and l args) = (value_induction l, values_induction args)
