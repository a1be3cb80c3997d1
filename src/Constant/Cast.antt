-- ===== src/Constant/Cast.antt =====
-- checker/src/constant_domain.rs: `cast` and `transmute`, and the modulo and shift operations on bits.
use hepha.Prelude.{ℕ, Option, none, some, if◌then◌else◌, ℤ, pos}
use hepha.Machine.Words.{to_unsigned, to_signed}
use hepha.ExpressionType.{ExpressionType, is_signed_integer, is_unsigned_integer}
use hepha.Constant.{
  ConstantDomain, bottom, char, i128, u128, f16, f32, f64, Format, half, single, double, Floats,
}

-- A low part of the bits, widened again.
abbrev low : ℕ → ℕ → ConstantDomain
low w val = u128 (to_unsigned w (pos val))

abbrev low_signed : ℕ → ℤ → ConstantDomain
low_signed w val = i128 (to_signed w val)

module _ (floats : Floats) where
  -- The `match` for `U128(val)`, for a type that is not signed, and that for `I128(val)`, for a type
  -- that is not unsigned.
  unfoldable pub cast_unsigned : ℕ → ExpressionType → ConstantDomain
  cast_unsigned val ExpressionType.char = char (to_unsigned 8 (pos val))
  cast_unsigned val ExpressionType.u8 = low 8 val
  cast_unsigned val ExpressionType.u16 = low 16 val
  cast_unsigned val ExpressionType.u32 = low 32 val
  cast_unsigned val ExpressionType.u64 = low 64 val
  cast_unsigned val ExpressionType.u128 = u128 val
  cast_unsigned val ExpressionType.usize = low 64 val
  cast_unsigned val ExpressionType.f32 = f32 (floats.from_u128 single val)
  cast_unsigned val ExpressionType.f64 = f64 (floats.from_u128 double val)
  cast_unsigned val _ = bottom

  unfoldable pub cast_signed : ℤ → ExpressionType → ConstantDomain
  cast_signed val ExpressionType.char = char (to_unsigned 8 (pos (to_unsigned 8 (to_signed 7 val))))
  cast_signed val ExpressionType.i8 = low_signed 7 val
  cast_signed val ExpressionType.i16 = low_signed 15 val
  cast_signed val ExpressionType.i32 = low_signed 31 val
  cast_signed val ExpressionType.i64 = low_signed 63 val
  cast_signed val ExpressionType.i128 = i128 val
  cast_signed val ExpressionType.isize = low_signed 63 val
  cast_signed val ExpressionType.f32 = f32 (floats.from_i128 single val)
  cast_signed val ExpressionType.f64 = f64 (floats.from_i128 double val)
  cast_signed val _ = bottom

  -- The inner call of `cast` meets a signed, or an unsigned type, and so goes to the other match.
  unfoldable pub cast_u128 : ℕ → ExpressionType → ConstantDomain
  unfolding cast_unsigned cast_signed is_signed_integer
  cast_u128 val target_type =
      if is_signed_integer target_type
      then cast_signed (to_signed 127 (pos val)) target_type
      else cast_unsigned val target_type

  unfoldable pub cast_i128 : ℤ → ExpressionType → ConstantDomain
  unfolding cast_unsigned cast_signed is_unsigned_integer
  cast_i128 val target_type =
      if is_unsigned_integer target_type
      then cast_unsigned (to_unsigned 128 val) target_type
      else cast_signed val target_type

  -- A floating point type, as the code compares the target type with each.
  unfoldable pub float_format : ExpressionType → Option Format
  float_format ExpressionType.f16 = some half
  float_format ExpressionType.f32 = some single
  float_format ExpressionType.f64 = some double
  float_format _ = none

  abbrev pub float_constant : Format → ℕ → ConstantDomain
  float_constant half val = f16 val
  float_constant single val = f32 val
  float_constant double val = f64 val

  abbrev same_format : Format → Format → ℕ → ConstantDomain
  same_format half half val = f16 val
  same_format single single val = f32 val
  same_format double double val = f64 val
  same_format from to val = float_constant to (floats.convert from to val)

  unfoldable pub cast_float : Format → ℕ → ExpressionType → ConstantDomain
  unfolding float_format cast_i128 cast_u128 is_signed_integer is_unsigned_integer
  cast_float from val target_type = elim (float_format target_type) [
    | some to ↦ same_format from to val
    | none ↦
        if is_signed_integer target_type
        then cast_i128 (floats.to_i128 from val) target_type
        else if is_unsigned_integer target_type
        then cast_u128 (floats.to_u128 from val) target_type
        else bottom
  ]

  unfoldable pub cast : ConstantDomain → ExpressionType → ConstantDomain
  unfolding cast_float cast_u128 cast_i128 is_signed_integer
  cast (char ch) target_type = cast_u128 ch target_type
  cast ConstantDomain.false target_type =
      if is_signed_integer target_type then i128 (pos 0) else u128 0
  cast ConstantDomain.true target_type =
      if is_signed_integer target_type then i128 (pos 1) else u128 1
  cast (u128 val) target_type = cast_u128 val target_type
  cast (i128 val) target_type = cast_i128 val target_type
  cast (f16 val) target_type = cast_float half val target_type
  cast (f32 val) target_type = cast_float single val target_type
  cast (f64 val) target_type = cast_float double val target_type
  cast c target_type = c

-- The bits of a constant, as `transmute` to `U128` gives them.
unfoldable pub transmute_u128 : ConstantDomain → Option ℕ
unfolding to_unsigned
transmute_u128 (char val) = some val
transmute_u128 ConstantDomain.false = some 0
transmute_u128 (f64 val) = some val
transmute_u128 (f32 val) = some val
transmute_u128 (f16 val) = some val
transmute_u128 (i128 val) = some (to_unsigned 128 val)
transmute_u128 ConstantDomain.true = some 1
transmute_u128 (u128 val) = some val
transmute_u128 _ = none

unfoldable pub transmute_bits : ℕ → ExpressionType → ConstantDomain
transmute_bits val ExpressionType.char = char (to_unsigned 32 (pos val))
transmute_bits val ExpressionType.u8 = low 8 val
transmute_bits val ExpressionType.u16 = low 16 val
transmute_bits val ExpressionType.u32 = low 32 val
transmute_bits val ExpressionType.u64 = low 64 val
transmute_bits val ExpressionType.u128 = u128 val
transmute_bits val ExpressionType.usize = low 64 val
transmute_bits val ExpressionType.f32 = f32 (to_unsigned 32 (pos val))
transmute_bits val ExpressionType.f64 = f64 (to_unsigned 64 (pos val))
transmute_bits val _ = bottom

unfoldable pub transmute : ConstantDomain → ExpressionType → ConstantDomain
unfolding transmute_u128 transmute_bits
transmute c target_type = elim (transmute_u128 c) [
  | none ↦ bottom
  | some val ↦ transmute_bits val target_type
]
