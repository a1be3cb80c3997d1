-- ===== src/ExpressionType.antt =====
-- checker/src/expression.rs: the types of places in memory.
use hepha.Prelude.{ℕ, Bool, true, false}

pub data ExpressionType : Type 0 where
  bool char f16 f32 f64 i8 i16 i32 i64 i128 isize : ExpressionType
  non_primitive thin_pointer u8 u16 u32 u64 u128 unit usize : ExpressionType

unfoldable pub is_floating_point_number : ExpressionType → Bool
is_floating_point_number f32 = true
is_floating_point_number f64 = true
is_floating_point_number _ = false

unfoldable pub is_integer : ExpressionType → Bool
is_integer i8 = true
is_integer i16 = true
is_integer i32 = true
is_integer i64 = true
is_integer i128 = true
is_integer isize = true
is_integer u8 = true
is_integer u16 = true
is_integer u32 = true
is_integer u64 = true
is_integer u128 = true
is_integer usize = true
is_integer _ = false

unfoldable pub is_primitive : ExpressionType → Bool
is_primitive non_primitive = false
is_primitive thin_pointer = false
is_primitive _ = true

unfoldable pub is_signed_integer : ExpressionType → Bool
is_signed_integer i8 = true
is_signed_integer i16 = true
is_signed_integer i32 = true
is_signed_integer i64 = true
is_signed_integer i128 = true
is_signed_integer isize = true
is_signed_integer _ = false

unfoldable pub as_unsigned : ExpressionType → ExpressionType
as_unsigned i8 = u8
as_unsigned i16 = u16
as_unsigned i32 = u32
as_unsigned i64 = u64
as_unsigned i128 = u128
as_unsigned isize = usize
as_unsigned t = t

unfoldable pub is_unsigned_integer : ExpressionType → Bool
is_unsigned_integer u8 = true
is_unsigned_integer u16 = true
is_unsigned_integer u32 = true
is_unsigned_integer u64 = true
is_unsigned_integer u128 = true
is_unsigned_integer usize = true
is_unsigned_integer _ = false

unfoldable pub bit_length : ExpressionType → ℕ
bit_length bool = 8
bit_length char = 32
bit_length f16 = 16
bit_length f32 = 32
bit_length f64 = 64
bit_length i8 = 8
bit_length i16 = 16
bit_length i32 = 32
bit_length i64 = 64
bit_length i128 = 128
bit_length isize = 64
bit_length u8 = 8
bit_length u16 = 16
bit_length u32 = 32
bit_length u64 = 64
bit_length u128 = 128
bit_length unit = 0
bit_length usize = 64
bit_length thin_pointer = 64
bit_length non_primitive = 128
