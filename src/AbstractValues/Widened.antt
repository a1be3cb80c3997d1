-- ===== src/AbstractValues/Widened.antt =====
-- checker/src/abstract_value.rs: the widened parts of an expression.
use hepha.Prelude.{Option, none, some, if◌then◌else◌}
use hepha.Value.{
  AbstractValue, value, Cases, no_cases, case_of, Values, no_values, value_and, PathEnum, top,
  bottom, add, add_overflows, and, bit_and, bit_not, bit_or, bit_xor, cast, compile_time_constant,
  conditional_expression, div, equals, greater_or_equal, greater_than, heap_block,
  heap_block_layout, initial_parameter_value, intrinsic_binary, intrinsic_bit_vector_unary,
  intrinsic_floating_point_unary, join, less_or_equal, less_than, logical_not, memcmp, mul,
  mul_overflows, ne, neg, or, offset, reference, rem, shl, shl_overflows, shr, shr_overflows, sub,
  sub_overflows, switch, tagged_expression, transmute, uninterpreted_call, unknown_model_field,
  unknown_tag_check, unknown_tag_field, variable, widened_join,
}
use hepha.Value.Equality.{eq_path}

-- `or_else`
abbrev pub or_else : Option AbstractValue → Option AbstractValue → Option AbstractValue
or_else none o = o
or_else (some v) o = some v

unfoldable mutual
  pub get_widened_subexpression : AbstractValue → PathEnum → Option AbstractValue
  get_widened_subexpression (value top _) p = none
  get_widened_subexpression (value bottom _) p = none
  get_widened_subexpression (value (add l r) _) p =
      or_else (get_widened_subexpression l p) (get_widened_subexpression r p)
  get_widened_subexpression (value (add_overflows l r _) _) p =
      or_else (get_widened_subexpression l p) (get_widened_subexpression r p)
  get_widened_subexpression (value (and l r) _) p =
      or_else (get_widened_subexpression l p) (get_widened_subexpression r p)
  get_widened_subexpression (value (bit_and l r) _) p =
      or_else (get_widened_subexpression l p) (get_widened_subexpression r p)
  get_widened_subexpression (value (bit_not l _) _) p = get_widened_subexpression l p
  get_widened_subexpression (value (bit_or l r) _) p =
      or_else (get_widened_subexpression l p) (get_widened_subexpression r p)
  get_widened_subexpression (value (bit_xor l r) _) p =
      or_else (get_widened_subexpression l p) (get_widened_subexpression r p)
  get_widened_subexpression (value (cast l _) _) p = get_widened_subexpression l p
  get_widened_subexpression (value (compile_time_constant _) _) p = none
  get_widened_subexpression (value (conditional_expression l r s) _) p =
      or_else (get_widened_subexpression l p)
        (or_else (get_widened_subexpression r p) (get_widened_subexpression s p))
  get_widened_subexpression (value (div l r) _) p =
      or_else (get_widened_subexpression l p) (get_widened_subexpression r p)
  get_widened_subexpression (value (equals l r) _) p =
      or_else (get_widened_subexpression l p) (get_widened_subexpression r p)
  get_widened_subexpression (value (greater_or_equal l r) _) p =
      or_else (get_widened_subexpression l p) (get_widened_subexpression r p)
  get_widened_subexpression (value (greater_than l r) _) p =
      or_else (get_widened_subexpression l p) (get_widened_subexpression r p)
  get_widened_subexpression (value (heap_block _ _) _) p = none
  get_widened_subexpression (value (heap_block_layout l r _) _) p =
      or_else (get_widened_subexpression l p) (get_widened_subexpression r p)
  get_widened_subexpression (value (initial_parameter_value _ _) _) p = none
  get_widened_subexpression (value (intrinsic_binary l r _) _) p =
      or_else (get_widened_subexpression l p) (get_widened_subexpression r p)
  get_widened_subexpression (value (intrinsic_bit_vector_unary l _ _) _) p =
      get_widened_subexpression l p
  get_widened_subexpression (value (intrinsic_floating_point_unary l _) _) p =
      get_widened_subexpression l p
  get_widened_subexpression (value (join l r) _) p =
      or_else (get_widened_subexpression l p) (get_widened_subexpression r p)
  get_widened_subexpression (value (less_or_equal l r) _) p =
      or_else (get_widened_subexpression l p) (get_widened_subexpression r p)
  get_widened_subexpression (value (less_than l r) _) p =
      or_else (get_widened_subexpression l p) (get_widened_subexpression r p)
  get_widened_subexpression (value (logical_not l) _) p = get_widened_subexpression l p
  get_widened_subexpression (value (memcmp l r s) _) p =
      or_else (get_widened_subexpression l p)
        (or_else (get_widened_subexpression r p) (get_widened_subexpression s p))
  get_widened_subexpression (value (mul l r) _) p =
      or_else (get_widened_subexpression l p) (get_widened_subexpression r p)
  get_widened_subexpression (value (mul_overflows l r _) _) p =
      or_else (get_widened_subexpression l p) (get_widened_subexpression r p)
  get_widened_subexpression (value (ne l r) _) p =
      or_else (get_widened_subexpression l p) (get_widened_subexpression r p)
  get_widened_subexpression (value (neg l) _) p = get_widened_subexpression l p
  get_widened_subexpression (value (or l r) _) p =
      or_else (get_widened_subexpression l p) (get_widened_subexpression r p)
  get_widened_subexpression (value (offset l r) _) p =
      or_else (get_widened_subexpression l p) (get_widened_subexpression r p)
  get_widened_subexpression (value (reference _) _) p = none
  get_widened_subexpression (value (rem l r) _) p =
      or_else (get_widened_subexpression l p) (get_widened_subexpression r p)
  get_widened_subexpression (value (shl l r) _) p =
      or_else (get_widened_subexpression l p) (get_widened_subexpression r p)
  get_widened_subexpression (value (shl_overflows l r _) _) p =
      or_else (get_widened_subexpression l p) (get_widened_subexpression r p)
  get_widened_subexpression (value (shr l r) _) p =
      or_else (get_widened_subexpression l p) (get_widened_subexpression r p)
  get_widened_subexpression (value (shr_overflows l r _) _) p =
      or_else (get_widened_subexpression l p) (get_widened_subexpression r p)
  get_widened_subexpression (value (sub l r) _) p =
      or_else (get_widened_subexpression l p) (get_widened_subexpression r p)
  get_widened_subexpression (value (sub_overflows l r _) _) p =
      or_else (get_widened_subexpression l p) (get_widened_subexpression r p)
  get_widened_subexpression (value (switch l cases r) _) p =
      or_else (get_widened_subexpression l p)
        (or_else (get_widened_subexpression r p) (find_case cases p))
  get_widened_subexpression (value (tagged_expression l _) _) p = get_widened_subexpression l p
  get_widened_subexpression (value (transmute l _) _) p = get_widened_subexpression l p
  get_widened_subexpression (value (uninterpreted_call l args _ _) _) p =
      or_else (get_widened_subexpression l p) (find_argument args p)
  get_widened_subexpression (value (unknown_model_field _ _) _) p = none
  get_widened_subexpression (value (unknown_tag_check l _ _) _) p = get_widened_subexpression l p
  get_widened_subexpression (value (unknown_tag_field _) _) p = none
  get_widened_subexpression (value (variable _ _) _) p = none
  get_widened_subexpression (value (widened_join path l) n) p =
      if eq_path path p then some (value (widened_join path l) n) else none

  pub find_case : Cases → PathEnum → Option AbstractValue
  find_case no_cases p = none
  find_case (case_of l r cases) p =
      or_else (or_else (get_widened_subexpression l p) (get_widened_subexpression r p))
        (find_case cases p)

  pub find_argument : Values → PathEnum → Option AbstractValue
  find_argument no_values p = none
  find_argument (value_and l args) p =
      or_else (get_widened_subexpression l p) (find_argument args p)
