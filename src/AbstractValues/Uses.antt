-- ===== src/AbstractValues/Uses.antt =====
-- checker/src/abstract_value.rs: the variables that an expression uses.
use hepha.Prelude.{Bool, true, false, ◌||◌}
use hepha.Value.{
  AbstractValue, value, Cases, no_cases, case_of, Values, no_values, value_and, PathEnum, top,
  bottom, add, add_overflows, and, bit_and, bit_not, bit_or, bit_xor, cast, compile_time_constant,
  conditional_expression, div, equals, greater_or_equal, greater_than, heap_block,
  heap_block_layout, initial_parameter_value, intrinsic_binary, intrinsic_bit_vector_unary,
  intrinsic_floating_point_unary, join, less_or_equal, less_than, logical_not, memcmp, mul,
  mul_overflows, ne, neg, or, offset, reference, rem, shl, shl_overflows, shr, shr_overflows, sub,
  sub_overflows, switch, tagged_expression, transmute, uninterpreted_call, unknown_model_field,
  unknown_tag_check, unknown_tag_field, variable, widened_join,
}

-- The set of variables is given by the test for membership.
unfoldable mutual
  pub uses : (PathEnum → Bool) → AbstractValue → Bool
  uses variables (value top _) = true
  uses variables (value bottom _) = false
  uses variables (value (add l r) _) = uses variables l || uses variables r
  uses variables (value (add_overflows l r _) _) = uses variables l || uses variables r
  uses variables (value (and l r) _) = uses variables l || uses variables r
  uses variables (value (bit_and l r) _) = uses variables l || uses variables r
  uses variables (value (bit_not l _) _) = uses variables l
  uses variables (value (bit_or l r) _) = uses variables l || uses variables r
  uses variables (value (bit_xor l r) _) = uses variables l || uses variables r
  uses variables (value (cast l _) _) = uses variables l
  uses variables (value (compile_time_constant _) _) = false
  uses variables (value (conditional_expression l r s) _) =
      uses variables l || uses variables r || uses variables s
  uses variables (value (div l r) _) = uses variables l || uses variables r
  uses variables (value (equals l r) _) = uses variables l || uses variables r
  uses variables (value (greater_or_equal l r) _) = uses variables l || uses variables r
  uses variables (value (greater_than l r) _) = uses variables l || uses variables r
  uses variables (value (heap_block _ _) _) = false
  uses variables (value (heap_block_layout l r _) _) = uses variables l || uses variables r
  uses variables (value (initial_parameter_value path _) _) = variables path
  uses variables (value (intrinsic_binary l r _) _) = uses variables l || uses variables r
  uses variables (value (intrinsic_bit_vector_unary l _ _) _) = uses variables l
  uses variables (value (intrinsic_floating_point_unary l _) _) = uses variables l
  uses variables (value (join l r) _) = uses variables l || uses variables r
  uses variables (value (less_or_equal l r) _) = uses variables l || uses variables r
  uses variables (value (less_than l r) _) = uses variables l || uses variables r
  uses variables (value (logical_not l) _) = uses variables l
  uses variables (value (memcmp l r s) _) = uses variables l || uses variables r || uses variables s
  uses variables (value (mul l r) _) = uses variables l || uses variables r
  uses variables (value (mul_overflows l r _) _) = uses variables l || uses variables r
  uses variables (value (ne l r) _) = uses variables l || uses variables r
  uses variables (value (neg l) _) = uses variables l
  uses variables (value (or l r) _) = uses variables l || uses variables r
  uses variables (value (offset l r) _) = uses variables l || uses variables r
  uses variables (value (reference path) _) = variables path
  uses variables (value (rem l r) _) = uses variables l || uses variables r
  uses variables (value (shl l r) _) = uses variables l || uses variables r
  uses variables (value (shl_overflows l r _) _) = uses variables l || uses variables r
  uses variables (value (shr l r) _) = uses variables l || uses variables r
  uses variables (value (shr_overflows l r _) _) = uses variables l || uses variables r
  uses variables (value (sub l r) _) = uses variables l || uses variables r
  uses variables (value (sub_overflows l r _) _) = uses variables l || uses variables r
  uses variables (value (switch l cases r) _) =
      uses variables l || uses variables r || any_case_uses variables cases
  uses variables (value (tagged_expression l _) _) = uses variables l
  uses variables (value (transmute l _) _) = uses variables l
  uses variables (value (uninterpreted_call l args _ _) _) =
      uses variables l || any_uses variables args
  uses variables (value (unknown_model_field path l) _) = variables path || uses variables l
  uses variables (value (unknown_tag_check l _ _) _) = uses variables l
  uses variables (value (unknown_tag_field path) _) = variables path
  uses variables (value (variable path _) _) = variables path
  uses variables (value (widened_join path l) _) = uses variables l || variables path

  pub any_case_uses : (PathEnum → Bool) → Cases → Bool
  any_case_uses variables no_cases = false
  any_case_uses variables (case_of l r cases) =
      uses variables l || uses variables r || any_case_uses variables cases

  pub any_uses : (PathEnum → Bool) → Values → Bool
  any_uses variables no_values = false
  any_uses variables (value_and l args) = uses variables l || any_uses variables args
