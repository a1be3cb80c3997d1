-- ===== src/Value/InferType.antt =====
-- checker/src/expression.rs: the type of the value of an expression.
use hepha.Prelude.{Bool, if◌then◌else◌}
use hepha.ExpressionType.{ExpressionType}
use hepha.Constant.{ConstantDomain, Format, half, single, double}
use hepha.Value.Kinds.{is_thin_pointer}
use hepha.Value.{
  Expression, value, PathEnum, computed, BitLength, bits_8, bits_16, bits_32, bits_64, bits_128,
  bitreverse, bswap, copysign, maxnum, minnum, pow, powi, FloatIntrinsic, ceil, cos, floor, exp2,
  exp, fabs, log10, log2, log, nearbyint, rint, round, reven, sin, sqrt, trunc, top, bottom, add,
  add_overflows, and, bit_and, bit_not, bit_or, bit_xor, cast, compile_time_constant,
  conditional_expression, div, equals, greater_or_equal, greater_than, heap_block,
  heap_block_layout, initial_parameter_value, intrinsic_binary, intrinsic_bit_vector_unary,
  intrinsic_floating_point_unary, join, less_or_equal, less_than, logical_not, memcmp, mul,
  mul_overflows, ne, neg, or, offset, reference, rem, shl, shl_overflows, shr, shr_overflows, sub,
  sub_overflows, switch, tagged_expression, transmute, uninterpreted_call, unknown_model_field,
  unknown_tag_check, unknown_tag_field, variable, widened_join,
}

unfoldable mutual
  -- `AbstractValue::is_top` and `Path::is_top`
  pub is_top : Expression → Bool
  is_top top = Bool.true
  is_top (variable path _) = path_is_top path
  is_top _ = Bool.false

  pub path_is_top : PathEnum → Bool
  path_is_top (computed (value l _)) = is_top l
  path_is_top _ = Bool.false

unfoldable pub is_compile_time_constant : Expression → Bool
is_compile_time_constant (compile_time_constant _) = Bool.true
is_compile_time_constant _ = Bool.false

-- `From<&ConstantDomain>`
unfoldable pub type_of_constant : ConstantDomain → ExpressionType
type_of_constant ConstantDomain.bottom = ExpressionType.non_primitive
type_of_constant (ConstantDomain.char _) = ExpressionType.char
type_of_constant ConstantDomain.false = ExpressionType.bool
type_of_constant (ConstantDomain.function _) = ExpressionType.non_primitive
type_of_constant (ConstantDomain.i128 _) = ExpressionType.i128
type_of_constant (ConstantDomain.f64 _) = ExpressionType.f64
type_of_constant (ConstantDomain.f32 _) = ExpressionType.f32
type_of_constant (ConstantDomain.f16 _) = ExpressionType.f16
type_of_constant (ConstantDomain.str _) = ExpressionType.thin_pointer
type_of_constant ConstantDomain.true = ExpressionType.bool
type_of_constant (ConstantDomain.u128 _) = ExpressionType.u128
type_of_constant ConstantDomain.unimplemented = ExpressionType.non_primitive
type_of_constant ConstantDomain.unit = ExpressionType.unit

abbrev of_format : Format → ExpressionType
of_format half = ExpressionType.f16
of_format single = ExpressionType.f32
of_format double = ExpressionType.f64

abbrev of_bit_length : BitLength → ExpressionType
of_bit_length bits_8 = ExpressionType.u8
of_bit_length bits_16 = ExpressionType.u16
of_bit_length bits_32 = ExpressionType.u32
of_bit_length bits_64 = ExpressionType.u64
of_bit_length bits_128 = ExpressionType.u128

abbrev format_of : FloatIntrinsic → Format
format_of (ceil format) = format
format_of (cos format) = format
format_of (floor format) = format
format_of (exp2 format) = format
format_of (exp format) = format
format_of (fabs format) = format
format_of (log10 format) = format
format_of (log2 format) = format
format_of (log format) = format
format_of (nearbyint format) = format
format_of (rint format) = format
format_of (round format) = format
format_of (reven format) = format
format_of (sin format) = format
format_of (sqrt format) = format
format_of (trunc format) = format

unfoldable pub infer_type : Expression → ExpressionType
unfolding is_top is_compile_time_constant type_of_constant
infer_type top = ExpressionType.non_primitive
infer_type bottom = ExpressionType.non_primitive
infer_type (add (value l _) (value r _)) =
    let rt = infer_type r in let lt = infer_type l in if is_thin_pointer lt then lt else rt
infer_type (add_overflows _ _ _) = ExpressionType.bool
infer_type (and _ _) = ExpressionType.bool
infer_type (bit_and (value l _) _) = infer_type l
infer_type (bit_not _ t) = t
infer_type (bit_or (value l _) _) = infer_type l
infer_type (bit_xor (value l _) _) = infer_type l
infer_type (cast _ t) = t
infer_type (compile_time_constant c) = type_of_constant c
infer_type (conditional_expression _ (value l _) (value r _)) =
    let rt = infer_type r in let lt = infer_type l in if is_top l then rt else lt
infer_type (div (value l _) _) = infer_type l
infer_type (equals _ _) = ExpressionType.bool
infer_type (greater_or_equal _ _) = ExpressionType.bool
infer_type (greater_than _ _) = ExpressionType.bool
infer_type (heap_block _ _) = ExpressionType.non_primitive
infer_type (heap_block_layout _ _ _) = ExpressionType.non_primitive
infer_type (initial_parameter_value _ t) = t
infer_type (intrinsic_binary _ _ (copysign format)) = of_format format
infer_type (intrinsic_binary _ _ (maxnum format)) = of_format format
infer_type (intrinsic_binary _ _ (minnum format)) = of_format format
infer_type (intrinsic_binary _ _ (pow format)) = of_format format
infer_type (intrinsic_binary _ _ (powi format)) = of_format format
infer_type (intrinsic_binary (value l _) _ _) = infer_type l
infer_type (intrinsic_bit_vector_unary (value l _) _ bitreverse) = infer_type l
infer_type (intrinsic_bit_vector_unary (value l _) _ bswap) = infer_type l
infer_type (intrinsic_bit_vector_unary _ length _) = of_bit_length length
infer_type (intrinsic_floating_point_unary _ name) = of_format (format_of name)
infer_type (join (value l _) (value r _)) =
    let rt = infer_type r in let lt = infer_type l in if is_compile_time_constant l then rt else lt
infer_type (less_or_equal _ _) = ExpressionType.bool
infer_type (less_than _ _) = ExpressionType.bool
infer_type (logical_not _) = ExpressionType.bool
infer_type (memcmp _ _ _) = ExpressionType.i32
infer_type (mul (value l _) _) = infer_type l
infer_type (mul_overflows _ _ _) = ExpressionType.bool
infer_type (ne _ _) = ExpressionType.bool
infer_type (neg (value l _)) = infer_type l
infer_type (or _ _) = ExpressionType.bool
infer_type (offset _ _) = ExpressionType.thin_pointer
infer_type (reference _) = ExpressionType.thin_pointer
infer_type (rem _ (value r _)) = infer_type r
infer_type (shl (value l _) _) = infer_type l
infer_type (shl_overflows _ _ _) = ExpressionType.bool
infer_type (shr (value l _) _) = infer_type l
infer_type (shr_overflows _ _ _) = ExpressionType.bool
infer_type (sub (value l _) _) = infer_type l
infer_type (sub_overflows _ _ _) = ExpressionType.bool
infer_type (switch _ _ (value r _)) = infer_type r
infer_type (tagged_expression (value l _) _) = infer_type l
infer_type (transmute _ t) = t
infer_type (uninterpreted_call _ _ t _) = t
infer_type (unknown_model_field _ (value l _)) = infer_type l
infer_type (unknown_tag_check _ _ _) = ExpressionType.bool
infer_type (unknown_tag_field _) = ExpressionType.i8
infer_type (variable _ t) = t
infer_type (widened_join _ (value l _)) = infer_type l
