-- ===== src/Value/Tops.antt =====
-- checker/src/expression.rs and path.rs: whether an expression or a path has a part that is TOP.
use hepha.Prelude.{Bool, true, false, ◌||◌}
use hepha.Value.{
  Expression, value, Cases, no_cases, case_of, PathEnum, index, computed, heap_block_path,
  offset_path, local_variable, parameter, result, static_variable, phantom_data, promoted_constant,
  qualified_path, top, bottom, add, add_overflows, and, bit_and, bit_not, bit_or, bit_xor, cast,
  compile_time_constant, conditional_expression, div, equals, greater_or_equal, greater_than,
  heap_block, heap_block_layout, initial_parameter_value, intrinsic_binary,
  intrinsic_bit_vector_unary, intrinsic_floating_point_unary, join, less_or_equal, less_than,
  logical_not, memcmp, mul, mul_overflows, ne, neg, or, offset, reference, rem, shl, shl_overflows,
  shr, shr_overflows, sub, sub_overflows, switch, tagged_expression, transmute, uninterpreted_call,
  unknown_model_field, unknown_tag_check, unknown_tag_field, variable, widened_join,
}

unfoldable mutual
  pub contains_top : Expression → Bool
  contains_top top = true
  contains_top bottom = false
  contains_top (add (value l _) (value r _)) = contains_top l || contains_top r
  contains_top (add_overflows (value l _) (value r _) _) = contains_top l || contains_top r
  contains_top (and (value l _) (value r _)) = contains_top l || contains_top r
  contains_top (bit_and (value l _) (value r _)) = contains_top l || contains_top r
  contains_top (bit_not (value l _) _) = contains_top l
  contains_top (bit_or (value l _) (value r _)) = contains_top l || contains_top r
  contains_top (bit_xor (value l _) (value r _)) = contains_top l || contains_top r
  contains_top (cast (value l _) _) = contains_top l
  contains_top (compile_time_constant _) = false
  contains_top (conditional_expression (value l _) (value r _) (value s _)) =
      contains_top l || contains_top r || contains_top s
  contains_top (div (value l _) (value r _)) = contains_top l || contains_top r
  contains_top (equals (value l _) (value r _)) = contains_top l || contains_top r
  contains_top (greater_or_equal (value l _) (value r _)) = contains_top l || contains_top r
  contains_top (greater_than (value l _) (value r _)) = contains_top l || contains_top r
  contains_top (heap_block _ _) = false
  contains_top (heap_block_layout (value l _) (value r _) _) = contains_top l || contains_top r
  contains_top (initial_parameter_value path _) = path_contains_top path
  contains_top (intrinsic_binary (value l _) (value r _) _) = contains_top l || contains_top r
  contains_top (intrinsic_bit_vector_unary (value l _) _ _) = contains_top l
  contains_top (intrinsic_floating_point_unary (value l _) _) = contains_top l
  contains_top (join (value l _) (value r _)) = contains_top l || contains_top r
  contains_top (less_or_equal (value l _) (value r _)) = contains_top l || contains_top r
  contains_top (less_than (value l _) (value r _)) = contains_top l || contains_top r
  contains_top (logical_not (value l _)) = contains_top l
  contains_top (memcmp (value l _) (value r _) (value s _)) =
      contains_top l || contains_top r || contains_top s
  contains_top (mul (value l _) (value r _)) = contains_top l || contains_top r
  contains_top (mul_overflows (value l _) (value r _) _) = contains_top l || contains_top r
  contains_top (ne (value l _) (value r _)) = contains_top l || contains_top r
  contains_top (neg (value l _)) = contains_top l
  contains_top (or (value l _) (value r _)) = contains_top l || contains_top r
  contains_top (offset (value l _) (value r _)) = contains_top l || contains_top r
  contains_top (reference path) = path_contains_top path
  contains_top (rem (value l _) (value r _)) = contains_top l || contains_top r
  contains_top (shl (value l _) (value r _)) = contains_top l || contains_top r
  contains_top (shl_overflows (value l _) (value r _) _) = contains_top l || contains_top r
  contains_top (shr (value l _) (value r _)) = contains_top l || contains_top r
  contains_top (shr_overflows (value l _) (value r _) _) = contains_top l || contains_top r
  contains_top (sub (value l _) (value r _)) = contains_top l || contains_top r
  contains_top (sub_overflows (value l _) (value r _) _) = contains_top l || contains_top r
  contains_top (switch (value l _) cases (value r _)) =
      contains_top l || contains_top r || any_contains_top cases
  contains_top (tagged_expression (value l _) _) = contains_top l
  contains_top (transmute (value l _) _) = contains_top l
  contains_top (uninterpreted_call _ _ _ _) = true
  contains_top (unknown_model_field path (value l _)) = path_contains_top path || contains_top l
  contains_top (unknown_tag_check (value l _) _ _) = contains_top l
  contains_top (unknown_tag_field path) = path_contains_top path
  contains_top (variable path _) = path_contains_top path
  contains_top (widened_join _ (value l _)) = contains_top l

  -- Of the results of the cases.
  any_contains_top : Cases → Bool
  any_contains_top no_cases = false
  any_contains_top (case_of _ (value r _) cases) = contains_top r || any_contains_top cases

  pub path_contains_top : PathEnum → Bool
  path_contains_top (computed (value l _)) = contains_top l
  path_contains_top (heap_block_path _) = false
  path_contains_top (local_variable _ _) = true
  path_contains_top (offset_path (value l _)) = contains_top l
  path_contains_top (parameter _) = false
  path_contains_top result = false
  path_contains_top (static_variable _ _ _) = true
  path_contains_top phantom_data = false
  path_contains_top (promoted_constant _) = false
  path_contains_top (qualified_path _ path (index (value l _))) =
      path_contains_top path || contains_top l
  path_contains_top (qualified_path _ path _) = path_contains_top path
