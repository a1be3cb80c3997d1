-- ===== src/Constant/Bits.antt =====
-- checker/src/constant_domain.rs: the operations on the bits of constants, and checker/src/expression.rs:
-- the constants of a type. The bits of an `i128` are those of its two's complement.
use Prim.Native.Nat
use hepha.Prelude.{ℕ, ◌%◌, ◌/◌, ◌*◌, ◌+◌, ◌-◌, ◌^◌, Option, none, some, ℤ, pos, negsuc}
use hepha.Machine.{int_min, int_max}
use hepha.Machine.Words.{to_unsigned, signed}
use hepha.ExpressionType.{ExpressionType}
use hepha.Constant.{ConstantDomain, bottom, char, i128, u128, f32, f64}
use hepha.Constant.Overflow.{shift_distance}
use hepha.Constant.Cast.{transmute_u128}

-- An operation on the 128 bits of two `i128`s.
abbrev on_bits : (ℕ → ℕ → ℕ) → ℤ → ℤ → ConstantDomain
on_bits op val1 val2 = i128 (signed 127 (op (to_unsigned 128 val1) (to_unsigned 128 val2)))

unfoldable pub bit_and : ConstantDomain → ConstantDomain → ConstantDomain
bit_and (i128 val1) (i128 val2) = on_bits Nat.bit_and val1 val2
bit_and (u128 val1) (u128 val2) = u128 (Nat.bit_and val1 val2)
bit_and ConstantDomain.true ConstantDomain.true = ConstantDomain.true
bit_and ConstantDomain.false _ = ConstantDomain.false
bit_and _ ConstantDomain.false = ConstantDomain.false
bit_and _ _ = bottom

unfoldable pub bit_or : ConstantDomain → ConstantDomain → ConstantDomain
bit_or (i128 val1) (i128 val2) = on_bits Nat.bit_or val1 val2
bit_or (u128 val1) (u128 val2) = u128 (Nat.bit_or val1 val2)
bit_or ConstantDomain.false ConstantDomain.false = ConstantDomain.false
bit_or ConstantDomain.true _ = ConstantDomain.true
bit_or _ ConstantDomain.true = ConstantDomain.true
bit_or _ _ = bottom

unfoldable pub bit_xor : ConstantDomain → ConstantDomain → ConstantDomain
bit_xor (i128 val1) (i128 val2) = on_bits Nat.bit_xor val1 val2
bit_xor (u128 val1) (u128 val2) = u128 (Nat.bit_xor val1 val2)
bit_xor ConstantDomain.false ConstantDomain.false = ConstantDomain.false
bit_xor ConstantDomain.true ConstantDomain.true = ConstantDomain.false
bit_xor ConstantDomain.true ConstantDomain.false = ConstantDomain.true
bit_xor ConstantDomain.false ConstantDomain.true = ConstantDomain.true
bit_xor _ _ = bottom

-- The greatest value of a floating point type is a number of its bits, of the standard library.
unfoldable pub max_value : ExpressionType → ConstantDomain
max_value ExpressionType.bool = u128 255
max_value ExpressionType.char = u128 0x10ffff
max_value ExpressionType.f32 = f32 0x7f7f_ffff
max_value ExpressionType.f64 = f64 0x7fef_ffff_ffff_ffff
max_value ExpressionType.i8 = i128 (int_max 7)
max_value ExpressionType.i16 = i128 (int_max 15)
max_value ExpressionType.i32 = i128 (int_max 31)
max_value ExpressionType.i64 = i128 (int_max 63)
max_value ExpressionType.i128 = i128 (int_max 127)
max_value ExpressionType.isize = i128 (int_max 63)
max_value ExpressionType.u8 = u128 (2 ^ 8 - 1)
max_value ExpressionType.u16 = u128 (2 ^ 16 - 1)
max_value ExpressionType.u32 = u128 (2 ^ 32 - 1)
max_value ExpressionType.u64 = u128 (2 ^ 64 - 1)
max_value ExpressionType.u128 = u128 (2 ^ 128 - 1)
max_value ExpressionType.usize = u128 (2 ^ 64 - 1)
max_value _ = bottom

unfoldable pub min_value : ExpressionType → ConstantDomain
min_value ExpressionType.bool = u128 0
min_value ExpressionType.char = u128 0
min_value ExpressionType.f32 = f32 0xff7f_ffff
min_value ExpressionType.f64 = f64 0xffef_ffff_ffff_ffff
min_value ExpressionType.i8 = i128 (int_min 7)
min_value ExpressionType.i16 = i128 (int_min 15)
min_value ExpressionType.i32 = i128 (int_min 31)
min_value ExpressionType.i64 = i128 (int_min 63)
min_value ExpressionType.i128 = i128 (int_min 127)
min_value ExpressionType.isize = i128 (int_min 63)
min_value ExpressionType.u8 = u128 0
min_value ExpressionType.u16 = u128 0
min_value ExpressionType.u32 = u128 0
min_value ExpressionType.u64 = u128 0
min_value ExpressionType.u128 = u128 0
min_value ExpressionType.usize = u128 0
min_value _ = bottom

unfoldable pub modulo_constant : ExpressionType → ConstantDomain
modulo_constant ExpressionType.char = u128 (0x10ffff + 1)
modulo_constant ExpressionType.u8 = u128 (2 ^ 8)
modulo_constant ExpressionType.u16 = u128 (2 ^ 16)
modulo_constant ExpressionType.u32 = u128 (2 ^ 32)
modulo_constant ExpressionType.u64 = u128 (2 ^ 64)
modulo_constant ExpressionType.usize = u128 (2 ^ 64)
modulo_constant _ = bottom

-- `!` turns every bit over: of an `i128` it is `-val - 1`.
abbrev complement : ℤ → ℤ
complement (pos n) = negsuc n
complement (negsuc n) = pos n

unfoldable pub bit_not : ConstantDomain → ExpressionType → ConstantDomain
unfolding bit_and max_value
bit_not (i128 val) result_type = i128 (complement val)
bit_not (u128 val) result_type = bit_and (u128 (2 ^ 128 - 1 - val)) (max_value result_type)
bit_not _ result_type = bottom

-- `wrapping_shl` and `wrapping_shr`: the distance is taken modulo 128.
unfoldable pub shl : ConstantDomain → ConstantDomain → ConstantDomain
unfolding shift_distance
shl (i128 val1) other = elim (shift_distance other) [
  | none ↦ bottom
  | some val2 ↦ i128 (signed 127 (to_unsigned 128 val1 * 2 ^ (val2 % 128) % 2 ^ 128))
]
shl (u128 val1) other = elim (shift_distance other) [
  | none ↦ bottom
  | some val2 ↦ u128 (val1 * 2 ^ (val2 % 128) % 2 ^ 128)
]
shl _ other = bottom

-- The quotient by `2 ^ k`, rounded down.
abbrev shift_down : ℤ → ℕ → ℤ
shift_down (pos n) k = pos (n / 2 ^ k)
shift_down (negsuc n) k = negsuc (n / 2 ^ k)

unfoldable pub shr : ConstantDomain → ConstantDomain → ConstantDomain
unfolding shift_distance
shr (i128 val1) other = elim (shift_distance other) [
  | none ↦ bottom
  | some val2 ↦ i128 (shift_down val1 (val2 % 128))
]
shr (u128 val1) other = elim (shift_distance other) [
  | none ↦ bottom
  | some val2 ↦ u128 (val1 / 2 ^ (val2 % 128))
]
shr _ other = bottom

-- The bits of the constants that `unsigned_modulo` and `unsigned_shift_right` accept: not `F16`.
abbrev pub bits_but_f16 : ConstantDomain → Option ℕ
bits_but_f16 (char val) = some val
bits_but_f16 ConstantDomain.false = some 0
bits_but_f16 (f64 val) = some val
bits_but_f16 (f32 val) = some val
bits_but_f16 (i128 val) = some (to_unsigned 128 val)
bits_but_f16 ConstantDomain.true = some 1
bits_but_f16 (u128 val) = some val
bits_but_f16 _ = none

abbrev pub map_bits : (ℕ → ℕ) → Option ℕ → ConstantDomain
map_bits f none = bottom
map_bits f (some val) = u128 (f val)

-- The three operations are for less than 128 bits; for more, a shift of `u128` panics in a build with
-- overflow checks, and takes the number of bits modulo 128 in one without, as here.
unfoldable pub unsigned_modulo : ConstantDomain → ℕ → ConstantDomain
unsigned_modulo c num_bits =
    map_bits (λ val. Nat.bit_and val (2 ^ (num_bits % 128) - 1)) (bits_but_f16 c)

unfoldable pub unsigned_shift_left : ConstantDomain → ℕ → ConstantDomain
unfolding transmute_u128
unsigned_shift_left c num_bits =
    map_bits (λ val. val * 2 ^ (num_bits % 128) % 2 ^ 128) (transmute_u128 c)

unfoldable pub unsigned_shift_right : ConstantDomain → ℕ → ConstantDomain
unsigned_shift_right c num_bits = map_bits (λ val. val / 2 ^ (num_bits % 128)) (bits_but_f16 c)
