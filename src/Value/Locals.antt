-- ===== src/Value/Locals.antt =====
-- checker/src/expression.rs and path.rs: whether a local variable occurs in an expression or a path.
use hepha.Prelude.{Bool, true, false, not, ◌||◌}
use hepha.Value.{
  Expression, value, Cases, no_cases, case_of, PathEnum, index, computed, heap_block_path,
  offset_path, local_variable, parameter, result, static_variable, phantom_data, promoted_constant,
  qualified_path, top, bottom, add, add_overflows, and, bit_and, bit_not, bit_or, bit_xor, cast,
  compile_time_constant, conditional_expression, div, equals, greater_or_equal, greater_than,
  heap_block, heap_block_layout, initial_parameter_value, intrinsic_binary,
  intrinsic_bit_vector_unary, intrinsic_floating_point_unary, join, less_or_equal, less_than,
  logical_not, memcmp, mul, mul_overflows, ne, neg, or, offset, reference, rem, shl, shl_overflows,
  shr, shr_overflows, sub, sub_overflows, switch, tagged_expression, transmute, uninterpreted_call,
  unknown_model_field, unknown_tag_check, unknown_tag_field, variable, widened_join,
}

unfoldable mutual
  pub contains_local_variable : Expression → Bool → Bool
  contains_local_variable top post = true
  contains_local_variable bottom post = true
  contains_local_variable (add (value l _) (value r _)) post =
      contains_local_variable l post || contains_local_variable r post
  contains_local_variable (add_overflows (value l _) (value r _) _) post =
      contains_local_variable l post || contains_local_variable r post
  contains_local_variable (and (value l _) (value r _)) post =
      contains_local_variable l post || contains_local_variable r post
  contains_local_variable (bit_and (value l _) (value r _)) post =
      contains_local_variable l post || contains_local_variable r post
  contains_local_variable (bit_not (value l _) _) post = contains_local_variable l post
  contains_local_variable (bit_or (value l _) (value r _)) post =
      contains_local_variable l post || contains_local_variable r post
  contains_local_variable (bit_xor (value l _) (value r _)) post =
      contains_local_variable l post || contains_local_variable r post
  contains_local_variable (cast (value l _) _) post = contains_local_variable l post
  contains_local_variable (compile_time_constant _) post = false
  contains_local_variable (conditional_expression (value l _) (value r _) (value s _)) post =
      contains_local_variable l post
      || contains_local_variable r post
      || contains_local_variable s post
  contains_local_variable (div (value l _) (value r _)) post =
      contains_local_variable l post || contains_local_variable r post
  contains_local_variable (equals (value l _) (value r _)) post =
      contains_local_variable l post || contains_local_variable r post
  contains_local_variable (greater_or_equal (value l _) (value r _)) post =
      contains_local_variable l post || contains_local_variable r post
  contains_local_variable (greater_than (value l _) (value r _)) post =
      contains_local_variable l post || contains_local_variable r post
  contains_local_variable (heap_block _ _) post = true
  contains_local_variable (heap_block_layout (value l _) (value r _) _) post =
      contains_local_variable l post || contains_local_variable r post
  contains_local_variable (initial_parameter_value path _) post =
      path_contains_local_variable path post
  contains_local_variable (intrinsic_binary (value l _) (value r _) _) post =
      contains_local_variable l post || contains_local_variable r post
  contains_local_variable (intrinsic_bit_vector_unary (value l _) _ _) post =
      contains_local_variable l post
  contains_local_variable (intrinsic_floating_point_unary (value l _) _) post =
      contains_local_variable l post
  contains_local_variable (join (value l _) (value r _)) post =
      contains_local_variable l post || contains_local_variable r post
  contains_local_variable (less_or_equal (value l _) (value r _)) post =
      contains_local_variable l post || contains_local_variable r post
  contains_local_variable (less_than (value l _) (value r _)) post =
      contains_local_variable l post || contains_local_variable r post
  contains_local_variable (logical_not (value l _)) post = contains_local_variable l post
  contains_local_variable (memcmp (value l _) (value r _) (value s _)) post =
      contains_local_variable l post
      || contains_local_variable r post
      || contains_local_variable s post
  contains_local_variable (mul (value l _) (value r _)) post =
      contains_local_variable l post || contains_local_variable r post
  contains_local_variable (mul_overflows (value l _) (value r _) _) post =
      contains_local_variable l post || contains_local_variable r post
  contains_local_variable (ne (value l _) (value r _)) post =
      contains_local_variable l post || contains_local_variable r post
  contains_local_variable (neg (value l _)) post = contains_local_variable l post
  contains_local_variable (or (value l _) (value r _)) post =
      contains_local_variable l post || contains_local_variable r post
  contains_local_variable (offset (value l _) (value r _)) post =
      contains_local_variable l post || contains_local_variable r post
  contains_local_variable (reference path) post = path_contains_local_variable path post
  contains_local_variable (rem (value l _) (value r _)) post =
      contains_local_variable l post || contains_local_variable r post
  contains_local_variable (shl (value l _) (value r _)) post =
      contains_local_variable l post || contains_local_variable r post
  contains_local_variable (shl_overflows (value l _) (value r _) _) post =
      contains_local_variable l post || contains_local_variable r post
  contains_local_variable (shr (value l _) (value r _)) post =
      contains_local_variable l post || contains_local_variable r post
  contains_local_variable (shr_overflows (value l _) (value r _) _) post =
      contains_local_variable l post || contains_local_variable r post
  contains_local_variable (sub (value l _) (value r _)) post =
      contains_local_variable l post || contains_local_variable r post
  contains_local_variable (sub_overflows (value l _) (value r _) _) post =
      contains_local_variable l post || contains_local_variable r post
  contains_local_variable (switch (value l _) cases (value r _)) post =
      contains_local_variable l post
      || contains_local_variable r post
      || any_contains_local_variable cases post
  contains_local_variable (tagged_expression (value l _) _) post = contains_local_variable l post
  contains_local_variable (transmute (value l _) _) post = contains_local_variable l post
  contains_local_variable (uninterpreted_call _ _ _ _) post = true
  contains_local_variable (unknown_model_field path (value l _)) post =
      path_contains_local_variable path post || contains_local_variable l post
  contains_local_variable (unknown_tag_check (value l _) _ _) post = contains_local_variable l post
  contains_local_variable (unknown_tag_field path) post = path_contains_local_variable path post
  contains_local_variable (variable path _) post = path_contains_local_variable path post
  contains_local_variable (widened_join _ (value l _)) post = contains_local_variable l post

  -- Of the results of the cases.
  any_contains_local_variable : Cases → Bool → Bool
  any_contains_local_variable no_cases post = false
  any_contains_local_variable (case_of _ (value r _) cases) post =
      contains_local_variable r post || any_contains_local_variable cases post

  pub path_contains_local_variable : PathEnum → Bool → Bool
  path_contains_local_variable (computed (value l _)) post = contains_local_variable l post
  path_contains_local_variable (heap_block_path _) post = true
  path_contains_local_variable (local_variable _ _) post = true
  path_contains_local_variable (offset_path (value l _)) post = contains_local_variable l post
  path_contains_local_variable (parameter _) post = false
  path_contains_local_variable result post = not post
  path_contains_local_variable (static_variable _ _ _) post = true
  path_contains_local_variable phantom_data post = false
  path_contains_local_variable (promoted_constant _) post = true
  path_contains_local_variable (qualified_path _ path (index (value l _))) post =
      path_contains_local_variable path post || contains_local_variable l post
  path_contains_local_variable (qualified_path _ path _) post =
      path_contains_local_variable path post
