-- ===== src/Value/Kinds.antt =====
-- checker/src/expression.rs: tests on the form of an expression.
use hepha.Prelude.{Bool, Option, none, some, ◌||◌, ◌&&◌, ◌==◌}
use hepha.ExpressionType.{ExpressionType}
use hepha.TagPropagation.{TagPropagation}
use hepha.Constant.{ConstantDomain}
use hepha.Value.{
  Expression, value, top, bottom, add, add_overflows, and, bit_and, bit_not, bit_or, bit_xor, cast,
  compile_time_constant, conditional_expression, div, equals, greater_or_equal, greater_than,
  heap_block, heap_block_layout, initial_parameter_value, intrinsic_binary,
  intrinsic_bit_vector_unary, intrinsic_floating_point_unary, join, less_or_equal, less_than,
  logical_not, memcmp, mul, mul_overflows, ne, neg, or, offset, reference, rem, shl, shl_overflows,
  shr, shr_overflows, sub, sub_overflows, switch, tagged_expression, transmute, uninterpreted_call,
  unknown_model_field, unknown_tag_check, unknown_tag_field, variable, widened_join,
}

unfoldable pub get_tag_propagation : Expression → Option TagPropagation
get_tag_propagation top = none
get_tag_propagation bottom = none
get_tag_propagation (add _ _) = some TagPropagation.add
get_tag_propagation (add_overflows _ _ _) = some TagPropagation.add_overflows
get_tag_propagation (and _ _) = some TagPropagation.and
get_tag_propagation (bit_and _ _) = some TagPropagation.bit_and
get_tag_propagation (bit_not _ _) = some TagPropagation.bit_not
get_tag_propagation (bit_or _ _) = some TagPropagation.bit_or
get_tag_propagation (bit_xor _ _) = some TagPropagation.bit_xor
get_tag_propagation (cast _ _) = some TagPropagation.cast
get_tag_propagation (compile_time_constant _) = none
get_tag_propagation (conditional_expression _ _ _) = none
get_tag_propagation (div _ _) = some TagPropagation.div
get_tag_propagation (equals _ _) = some TagPropagation.equals
get_tag_propagation (greater_or_equal _ _) = some TagPropagation.greater_or_equal
get_tag_propagation (greater_than _ _) = some TagPropagation.greater_than
get_tag_propagation (heap_block _ _) = none
get_tag_propagation (heap_block_layout _ _ _) = none
get_tag_propagation (initial_parameter_value _ _) = none
get_tag_propagation (intrinsic_binary _ _ _) = some TagPropagation.intrinsic_binary
get_tag_propagation (intrinsic_bit_vector_unary _ _ _) =
    some TagPropagation.intrinsic_bit_vector_unary
get_tag_propagation (intrinsic_floating_point_unary _ _) =
    some TagPropagation.intrinsic_floating_point_unary
get_tag_propagation (join _ _) = none
get_tag_propagation (less_or_equal _ _) = some TagPropagation.less_or_equal
get_tag_propagation (less_than _ _) = some TagPropagation.less_than
get_tag_propagation (logical_not _) = some TagPropagation.logical_not
get_tag_propagation (memcmp _ _ _) = some TagPropagation.memcmp
get_tag_propagation (mul _ _) = some TagPropagation.mul
get_tag_propagation (mul_overflows _ _ _) = some TagPropagation.mul_overflows
get_tag_propagation (ne _ _) = some TagPropagation.ne
get_tag_propagation (neg _) = some TagPropagation.neg
get_tag_propagation (or _ _) = some TagPropagation.or
get_tag_propagation (offset _ _) = some TagPropagation.offset
get_tag_propagation (reference _) = none
get_tag_propagation (rem _ _) = some TagPropagation.rem
get_tag_propagation (shl _ _) = some TagPropagation.shl
get_tag_propagation (shl_overflows _ _ _) = some TagPropagation.shl_overflows
get_tag_propagation (shr _ _) = some TagPropagation.shr
get_tag_propagation (shr_overflows _ _ _) = some TagPropagation.shr_overflows
get_tag_propagation (sub _ _) = some TagPropagation.sub
get_tag_propagation (sub_overflows _ _ _) = some TagPropagation.sub_overflows
get_tag_propagation (switch _ _ _) = none
get_tag_propagation (tagged_expression _ _) = none
get_tag_propagation (transmute _ _) = some TagPropagation.transmute
get_tag_propagation (uninterpreted_call _ _ _ _) = some TagPropagation.uninterpreted_call
get_tag_propagation (unknown_model_field _ _) = none
get_tag_propagation (unknown_tag_check _ _ _) = none
get_tag_propagation (unknown_tag_field _) = none
get_tag_propagation (variable _ _) = none
get_tag_propagation (widened_join _ _) = none

unfoldable pub is_bit_vector : Expression → Bool
is_bit_vector (bit_and _ _) = Bool.true
is_bit_vector (bit_or _ _) = Bool.true
is_bit_vector (bit_xor _ _) = Bool.true
is_bit_vector (shl _ _) = Bool.true
is_bit_vector (shr _ _) = Bool.true
is_bit_vector (conditional_expression _ (value l _) (value r _)) =
    is_bit_vector l || is_bit_vector r
is_bit_vector (join (value l _) (value r _)) = is_bit_vector l || is_bit_vector r
is_bit_vector _ = Bool.false

unfoldable pub is_comparison : Expression → Bool
is_comparison (equals _ _) = Bool.true
is_comparison (ne _ _) = Bool.true
is_comparison (greater_or_equal _ _) = Bool.true
is_comparison (greater_than _ _) = Bool.true
is_comparison (less_or_equal _ _) = Bool.true
is_comparison (less_than _ _) = Bool.true
is_comparison _ = Bool.false

unfoldable pub is_one : Expression → Bool
is_one (compile_time_constant (ConstantDomain.u128 n)) = n == 1
is_one _ = Bool.false

unfoldable pub is_zero : Expression → Bool
is_zero (compile_time_constant (ConstantDomain.u128 n)) = n == 0
is_zero _ = Bool.false

-- `== ExpressionType::ThinPointer`
abbrev pub is_thin_pointer : ExpressionType → Bool
is_thin_pointer ExpressionType.thin_pointer = Bool.true
is_thin_pointer _ = Bool.false

unfoldable pub is_memory_reference : Expression → Bool
is_memory_reference (cast (value l _) t) = is_thin_pointer t || is_memory_reference l
is_memory_reference (transmute (value l _) t) = is_thin_pointer t || is_memory_reference l
is_memory_reference (heap_block _ _) = Bool.true
is_memory_reference (reference _) = Bool.true
is_memory_reference (initial_parameter_value _ t) = is_thin_pointer t
is_memory_reference (variable _ t) = is_thin_pointer t
is_memory_reference (join (value l _) (value r _)) = is_memory_reference l && is_memory_reference r
is_memory_reference (widened_join _ (value l _)) = is_memory_reference l
is_memory_reference _ = Bool.false
