-- ===== src/Value/Equality.antt =====
-- The derived `==` of expressions, abstract values and paths. It compares the variants and then the
-- fields; the model does so on the tree of the numbers of the variants, which has no sizes, as
-- `AbstractValue::eq` compares the expressions only.
use hepha.Prelude.{ℕ, Bool, List, [], ◌∷◌, ℤ, pos, negsuc, Option, none, some}
use hepha.Contract.Text.{codes}
use hepha.ExpressionType.{ExpressionType}
use hepha.Tag.{Tag}
use hepha.Constant.{ConstantDomain, Format, half, single, double}
use hepha.Value.Codes.{Code, Codes, node, done, next, eq_code}
use hepha.Value.{
  BinaryIntrinsic, BitVectorIntrinsic, FloatIntrinsic, BitLength, bits_8, bits_16, bits_32, bits_64,
  bits_128, LayoutSource, alloc, de_alloc, re_alloc, Expression, value, Cases, no_cases, case_of,
  Values, no_values, value_and, PathEnum, PathSelector, computed, heap_block_path, offset_path,
  local_variable, parameter, result, static_variable, phantom_data, promoted_constant,
  qualified_path, layout, deref, discriminant, function, field, union_field, index, slice,
  constant_index, constant_slice, downcast, model_field, tag_field, ceil, cos, floor, exp2, exp,
  fabs, log10, log2, log, nearbyint, rint, round, reven, sin, sqrt, trunc, copysign, maxnum, minnum,
  pow, powi, fadd_algebraic, fadd_fast, fdiv_algebraic, fdiv_fast, fmul_algebraic, fmul_fast,
  frem_algebraic, frem_fast, fsub_algebraic, fsub_fast, bitreverse, bswap, ctlz, ctlz_nonzero,
  ctpop, cttz, cttz_nonzero, top, bottom, add, add_overflows, and, bit_and, bit_not, bit_or,
  bit_xor, cast, compile_time_constant, conditional_expression, div, equals, greater_or_equal,
  greater_than, heap_block, heap_block_layout, initial_parameter_value, intrinsic_binary,
  intrinsic_bit_vector_unary, intrinsic_floating_point_unary, join, less_or_equal, less_than,
  logical_not, memcmp, mul, mul_overflows, ne, neg, or, offset, reference, rem, shl, shl_overflows,
  shr, shr_overflows, sub, sub_overflows, switch, tagged_expression, transmute, uninterpreted_call,
  unknown_model_field, unknown_tag_check, unknown_tag_field, variable, widened_join,
}

-- A number, as a tree without branches.
abbrev leaf : ℕ → Code
leaf n = node n done

abbrev of_bool : Bool → Code
of_bool Bool.false = leaf 0
of_bool Bool.true = leaf 1

abbrev of_integer : ℤ → Code
of_integer (pos n) = node 0 (next (leaf n) done)
of_integer (negsuc n) = node 1 (next (leaf n) done)

abbrev of_numbers : List ℕ → Codes
of_numbers [] = done
of_numbers (n ∷ ns) = next (leaf n) (of_numbers ns)

abbrev of_option : Option ℕ → Code
of_option none = leaf 0
of_option (some n) = node 1 (next (leaf n) done)

abbrev of_tag : Tag → Code
of_tag t = node t.def_id.krate (next (leaf t.def_id.index) (next (leaf t.prop_set) done))

abbrev of_constant : ConstantDomain → Code
of_constant ConstantDomain.bottom = node 0 done
of_constant (ConstantDomain.char n) = node 1 (next (leaf n) done)
of_constant ConstantDomain.false = node 2 done
of_constant (ConstantDomain.function n) = node 3 (next (leaf n) done)
of_constant (ConstantDomain.i128 z) = node 4 (next (of_integer z) done)
of_constant (ConstantDomain.f64 n) = node 5 (next (leaf n) done)
of_constant (ConstantDomain.f32 n) = node 6 (next (leaf n) done)
of_constant (ConstantDomain.f16 n) = node 7 (next (leaf n) done)
of_constant (ConstantDomain.str t) = node 8 (of_numbers (codes t))
of_constant ConstantDomain.true = node 9 done
of_constant (ConstantDomain.u128 n) = node 10 (next (leaf n) done)
of_constant ConstantDomain.unimplemented = node 11 done
of_constant ConstantDomain.unit = node 12 done

abbrev of_type : ExpressionType → Code
of_type ExpressionType.bool = leaf 0
of_type ExpressionType.char = leaf 1
of_type ExpressionType.f16 = leaf 2
of_type ExpressionType.f32 = leaf 3
of_type ExpressionType.f64 = leaf 4
of_type ExpressionType.i8 = leaf 5
of_type ExpressionType.i16 = leaf 6
of_type ExpressionType.i32 = leaf 7
of_type ExpressionType.i64 = leaf 8
of_type ExpressionType.i128 = leaf 9
of_type ExpressionType.isize = leaf 10
of_type ExpressionType.non_primitive = leaf 11
of_type ExpressionType.thin_pointer = leaf 12
of_type ExpressionType.u8 = leaf 13
of_type ExpressionType.u16 = leaf 14
of_type ExpressionType.u32 = leaf 15
of_type ExpressionType.u64 = leaf 16
of_type ExpressionType.u128 = leaf 17
of_type ExpressionType.unit = leaf 18
of_type ExpressionType.usize = leaf 19

abbrev of_format : Format → ℕ
of_format half = 0
of_format single = 1
of_format double = 2

abbrev of_binary : BinaryIntrinsic → Code
of_binary (copysign format) = node 0 (next (leaf (of_format format)) done)
of_binary (maxnum format) = node 1 (next (leaf (of_format format)) done)
of_binary (minnum format) = node 2 (next (leaf (of_format format)) done)
of_binary (pow format) = node 3 (next (leaf (of_format format)) done)
of_binary (powi format) = node 4 (next (leaf (of_format format)) done)
of_binary fadd_algebraic = leaf 5
of_binary fadd_fast = leaf 6
of_binary fdiv_algebraic = leaf 7
of_binary fdiv_fast = leaf 8
of_binary fmul_algebraic = leaf 9
of_binary fmul_fast = leaf 10
of_binary frem_algebraic = leaf 11
of_binary frem_fast = leaf 12
of_binary fsub_algebraic = leaf 13
of_binary fsub_fast = leaf 14

abbrev of_bit_vector : BitVectorIntrinsic → Code
of_bit_vector bitreverse = leaf 0
of_bit_vector bswap = leaf 1
of_bit_vector ctlz = leaf 2
of_bit_vector ctlz_nonzero = leaf 3
of_bit_vector ctpop = leaf 4
of_bit_vector cttz = leaf 5
of_bit_vector cttz_nonzero = leaf 6

abbrev of_float : FloatIntrinsic → Code
of_float (ceil format) = node 0 (next (leaf (of_format format)) done)
of_float (cos format) = node 1 (next (leaf (of_format format)) done)
of_float (floor format) = node 2 (next (leaf (of_format format)) done)
of_float (exp2 format) = node 3 (next (leaf (of_format format)) done)
of_float (exp format) = node 4 (next (leaf (of_format format)) done)
of_float (fabs format) = node 5 (next (leaf (of_format format)) done)
of_float (log10 format) = node 6 (next (leaf (of_format format)) done)
of_float (log2 format) = node 7 (next (leaf (of_format format)) done)
of_float (log format) = node 8 (next (leaf (of_format format)) done)
of_float (nearbyint format) = node 9 (next (leaf (of_format format)) done)
of_float (rint format) = node 10 (next (leaf (of_format format)) done)
of_float (round format) = node 11 (next (leaf (of_format format)) done)
of_float (reven format) = node 12 (next (leaf (of_format format)) done)
of_float (sin format) = node 13 (next (leaf (of_format format)) done)
of_float (sqrt format) = node 14 (next (leaf (of_format format)) done)
of_float (trunc format) = node 15 (next (leaf (of_format format)) done)

abbrev of_bit_length : BitLength → Code
of_bit_length bits_8 = leaf 8
of_bit_length bits_16 = leaf 16
of_bit_length bits_32 = leaf 32
of_bit_length bits_64 = leaf 64
of_bit_length bits_128 = leaf 128

abbrev of_source : LayoutSource → Code
of_source alloc = leaf 0
of_source de_alloc = leaf 1
of_source re_alloc = leaf 2

unfoldable mutual
  pub of_expression : Expression → Code
  of_expression top = node 0 done
  of_expression bottom = node 1 done
  of_expression (add (value l _) (value r _)) =
      node 2 (next (of_expression l) (next (of_expression r) done))
  of_expression (add_overflows (value l _) (value r _) t) =
      node 3 (next (of_expression l) (next (of_expression r) (next (of_type t) done)))
  of_expression (and (value l _) (value r _)) =
      node 4 (next (of_expression l) (next (of_expression r) done))
  of_expression (bit_and (value l _) (value r _)) =
      node 5 (next (of_expression l) (next (of_expression r) done))
  of_expression (bit_not (value l _) t) = node 6 (next (of_expression l) (next (of_type t) done))
  of_expression (bit_or (value l _) (value r _)) =
      node 7 (next (of_expression l) (next (of_expression r) done))
  of_expression (bit_xor (value l _) (value r _)) =
      node 8 (next (of_expression l) (next (of_expression r) done))
  of_expression (cast (value l _) t) = node 9 (next (of_expression l) (next (of_type t) done))
  of_expression (compile_time_constant x) = node 10 (next (of_constant x) done)
  of_expression (conditional_expression (value l _) (value r _) (value s _)) =
      node 11 (next (of_expression l) (next (of_expression r) (next (of_expression s) done)))
  of_expression (div (value l _) (value r _)) =
      node 12 (next (of_expression l) (next (of_expression r) done))
  of_expression (equals (value l _) (value r _)) =
      node 13 (next (of_expression l) (next (of_expression r) done))
  of_expression (greater_or_equal (value l _) (value r _)) =
      node 14 (next (of_expression l) (next (of_expression r) done))
  of_expression (greater_than (value l _) (value r _)) =
      node 15 (next (of_expression l) (next (of_expression r) done))
  of_expression (heap_block x y) = node 16 (next (leaf x) (next (of_bool y) done))
  of_expression (heap_block_layout (value l _) (value r _) x) =
      node 17 (next (of_expression l) (next (of_expression r) (next (of_source x) done)))
  of_expression (initial_parameter_value path t) =
      node 18 (next (of_path path) (next (of_type t) done))
  of_expression (intrinsic_binary (value l _) (value r _) x) =
      node 19 (next (of_expression l) (next (of_expression r) (next (of_binary x) done)))
  of_expression (intrinsic_bit_vector_unary (value l _) x y) =
      node 20 (next (of_expression l) (next (of_bit_length x) (next (of_bit_vector y) done)))
  of_expression (intrinsic_floating_point_unary (value l _) x) =
      node 21 (next (of_expression l) (next (of_float x) done))
  of_expression (join (value l _) (value r _)) =
      node 22 (next (of_expression l) (next (of_expression r) done))
  of_expression (less_or_equal (value l _) (value r _)) =
      node 23 (next (of_expression l) (next (of_expression r) done))
  of_expression (less_than (value l _) (value r _)) =
      node 24 (next (of_expression l) (next (of_expression r) done))
  of_expression (logical_not (value l _)) = node 25 (next (of_expression l) done)
  of_expression (memcmp (value l _) (value r _) (value s _)) =
      node 26 (next (of_expression l) (next (of_expression r) (next (of_expression s) done)))
  of_expression (mul (value l _) (value r _)) =
      node 27 (next (of_expression l) (next (of_expression r) done))
  of_expression (mul_overflows (value l _) (value r _) t) =
      node 28 (next (of_expression l) (next (of_expression r) (next (of_type t) done)))
  of_expression (ne (value l _) (value r _)) =
      node 29 (next (of_expression l) (next (of_expression r) done))
  of_expression (neg (value l _)) = node 30 (next (of_expression l) done)
  of_expression (or (value l _) (value r _)) =
      node 31 (next (of_expression l) (next (of_expression r) done))
  of_expression (offset (value l _) (value r _)) =
      node 32 (next (of_expression l) (next (of_expression r) done))
  of_expression (reference path) = node 33 (next (of_path path) done)
  of_expression (rem (value l _) (value r _)) =
      node 34 (next (of_expression l) (next (of_expression r) done))
  of_expression (shl (value l _) (value r _)) =
      node 35 (next (of_expression l) (next (of_expression r) done))
  of_expression (shl_overflows (value l _) (value r _) t) =
      node 36 (next (of_expression l) (next (of_expression r) (next (of_type t) done)))
  of_expression (shr (value l _) (value r _)) =
      node 37 (next (of_expression l) (next (of_expression r) done))
  of_expression (shr_overflows (value l _) (value r _) t) =
      node 38 (next (of_expression l) (next (of_expression r) (next (of_type t) done)))
  of_expression (sub (value l _) (value r _)) =
      node 39 (next (of_expression l) (next (of_expression r) done))
  of_expression (sub_overflows (value l _) (value r _) t) =
      node 40 (next (of_expression l) (next (of_expression r) (next (of_type t) done)))
  of_expression (switch (value l _) cases (value r _)) =
      node 41
        (next (of_expression l) (next (node 0 (of_cases cases)) (next (of_expression r) done)))
  of_expression (tagged_expression (value l _) x) =
      node 42 (next (of_expression l) (next (of_tag x) done))
  of_expression (transmute (value l _) t) = node 43 (next (of_expression l) (next (of_type t) done))
  of_expression (uninterpreted_call (value l _) args t path) = node 44 (
      next (of_expression l)
        (next (node 0 (of_values args)) (next (of_type t) (next (of_path path) done))))
  of_expression (unknown_model_field path (value l _)) =
      node 45 (next (of_path path) (next (of_expression l) done))
  of_expression (unknown_tag_check (value l _) x y) =
      node 46 (next (of_expression l) (next (of_tag x) (next (of_bool y) done)))
  of_expression (unknown_tag_field path) = node 47 (next (of_path path) done)
  of_expression (variable path t) = node 48 (next (of_path path) (next (of_type t) done))
  of_expression (widened_join path (value l _)) =
      node 49 (next (of_path path) (next (of_expression l) done))

  of_cases : Cases → Codes
  of_cases no_cases = done
  of_cases (case_of (value l _) (value r _) cases) =
      next (of_expression l) (next (of_expression r) (of_cases cases))

  of_values : Values → Codes
  of_values no_values = done
  of_values (value_and (value l _) args) = next (of_expression l) (of_values args)

  pub of_path : PathEnum → Code
  of_path (computed (value l _)) = node 0 (next (of_expression l) done)
  of_path (heap_block_path (value l _)) = node 1 (next (of_expression l) done)
  of_path (local_variable m n) = node 2 (next (leaf m) (next (leaf n) done))
  of_path (offset_path (value l _)) = node 3 (next (of_expression l) done)
  of_path (parameter n) = node 4 (next (leaf n) done)
  of_path result = node 5 done
  of_path (static_variable d k t) =
      node 6 (next (of_option d) (next (node 0 (of_numbers (codes k))) (next (of_type t) done)))
  of_path phantom_data = node 7 done
  of_path (promoted_constant n) = node 8 (next (leaf n) done)
  of_path (qualified_path n q s) =
      node 9 (next (leaf n) (next (of_path q) (next (of_selector s) done)))

  pub of_selector : PathSelector → Code
  of_selector layout = node 0 done
  of_selector deref = node 1 done
  of_selector discriminant = node 2 done
  of_selector function = node 3 done
  of_selector (field n) = node 4 (next (leaf n) done)
  of_selector (union_field m n) = node 5 (next (leaf m) (next (leaf n) done))
  of_selector (index (value l _)) = node 6 (next (of_expression l) done)
  of_selector (slice (value l _)) = node 7 (next (of_expression l) done)
  of_selector (constant_index m n b) =
      node 8 (next (leaf m) (next (leaf n) (next (of_bool b) done)))
  of_selector (constant_slice m n b) =
      node 9 (next (leaf m) (next (leaf n) (next (of_bool b) done)))
  of_selector (downcast t n (value l _)) =
      node 10 (next (node 0 (of_numbers (codes t))) (next (leaf n) (next (of_expression l) done)))
  of_selector (model_field t) = node 11 (next (node 0 (of_numbers (codes t))) done)
  of_selector tag_field = node 12 done

unfoldable pub eq_expression : Expression → Expression → Bool
unfolding of_expression
eq_expression l r = eq_code (of_expression l) (of_expression r)

unfoldable pub eq_path : PathEnum → PathEnum → Bool
unfolding of_path
eq_path p q = eq_code (of_path p) (of_path q)

unfoldable pub eq_selector : PathSelector → PathSelector → Bool
unfolding of_selector
eq_selector s t = eq_code (of_selector s) (of_selector t)
