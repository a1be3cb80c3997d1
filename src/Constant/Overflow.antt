-- ===== src/Constant/Overflow.antt =====
-- checker/src/constant_domain.rs: the constants that tell whether a sum, a difference, a product or a
-- shift overflows.
use hepha.Prelude.{ℕ, suc, not, leb, Option, none, some, ℤ, pos, ◌+ℤ◌, ◌-ℤ◌, ◌*ℤ◌}
use hepha.Machine.Words.{to_unsigned, to_signed, fits_signed, fits_unsigned}
use hepha.ExpressionType.{ExpressionType}
use hepha.Constant.{ConstantDomain, bottom, i128, u128, from_bool}

-- `overflowing_add` and the like of a signed type of `suc w` bits, and of an unsigned type of `w`
-- bits: the operands are cast to the type, and the exact result is compared with its range.
abbrev pub overflows_signed : (ℤ → ℤ → ℤ) → ℤ → ℤ → ℕ → ConstantDomain
overflows_signed op val1 val2 w =
    from_bool (not (fits_signed w (op (to_signed w val1) (to_signed w val2))))

abbrev pub overflows_unsigned : (ℤ → ℤ → ℤ) → ℕ → ℕ → ℕ → ConstantDomain
overflows_unsigned op val1 val2 w =
    from_bool
      (not (fits_unsigned w (op (pos (to_unsigned w (pos val1))) (pos (to_unsigned w (pos val2))))))

-- The match on the target type.
unfoldable pub match_signed : (ℕ → ConstantDomain) → ExpressionType → ConstantDomain
match_signed overflows ExpressionType.isize = overflows 63
match_signed overflows ExpressionType.i128 = overflows 127
match_signed overflows ExpressionType.i64 = overflows 63
match_signed overflows ExpressionType.i32 = overflows 31
match_signed overflows ExpressionType.i16 = overflows 15
match_signed overflows ExpressionType.i8 = overflows 7
match_signed overflows _ = bottom

unfoldable pub match_unsigned : (ℕ → ConstantDomain) → ExpressionType → ConstantDomain
match_unsigned overflows ExpressionType.usize = overflows 64
match_unsigned overflows ExpressionType.u128 = overflows 128
match_unsigned overflows ExpressionType.u64 = overflows 64
match_unsigned overflows ExpressionType.u32 = overflows 32
match_unsigned overflows ExpressionType.u16 = overflows 16
match_unsigned overflows ExpressionType.u8 = overflows 8
match_unsigned overflows _ = bottom

unfoldable pub add_overflows : ConstantDomain → ConstantDomain → ExpressionType → ConstantDomain
unfolding match_signed match_unsigned from_bool
add_overflows (i128 val1) (i128 val2) target_type =
    match_signed (overflows_signed (λ a b. a +ℤ b) val1 val2) target_type
add_overflows (u128 val1) (u128 val2) target_type =
    match_unsigned (overflows_unsigned (λ a b. a +ℤ b) val1 val2) target_type
add_overflows _ _ target_type = bottom

unfoldable pub sub_overflows : ConstantDomain → ConstantDomain → ExpressionType → ConstantDomain
unfolding match_signed match_unsigned from_bool
sub_overflows (i128 val1) (i128 val2) target_type =
    match_signed (overflows_signed (λ a b. a -ℤ b) val1 val2) target_type
sub_overflows (u128 val1) (u128 val2) target_type =
    match_unsigned (overflows_unsigned (λ a b. a -ℤ b) val1 val2) target_type
sub_overflows _ _ target_type = bottom

unfoldable pub mul_overflows : ConstantDomain → ConstantDomain → ExpressionType → ConstantDomain
unfolding match_signed match_unsigned from_bool
mul_overflows (i128 val1) (i128 val2) target_type =
    match_signed (overflows_signed (λ a b. a *ℤ b) val1 val2) target_type
mul_overflows (u128 val1) (u128 val2) target_type =
    match_unsigned (overflows_unsigned (λ a b. a *ℤ b) val1 val2) target_type
mul_overflows _ _ target_type = bottom

-- `other_as_u32`
unfoldable pub shift_distance : ConstantDomain → Option ℕ
unfolding to_unsigned
shift_distance (i128 val2) = some (to_unsigned 32 val2)
shift_distance (u128 val2) = some (to_unsigned 32 (pos val2))
shift_distance _ = none

-- `overflowing_shl` and `overflowing_shr`: the distance has at least as many bits as the type.
unfoldable pub shift_overflows : ConstantDomain → Option ℕ → ExpressionType → ConstantDomain
unfolding match_signed match_unsigned from_bool
shift_overflows (i128 val1) (some val2) target_type =
    match_signed (λ w. from_bool (leb (suc w) val2)) target_type
shift_overflows (u128 val1) (some val2) target_type =
    match_unsigned (λ w. from_bool (leb w val2)) target_type
shift_overflows _ _ target_type = bottom

unfoldable pub shl_overflows : ConstantDomain → ConstantDomain → ExpressionType → ConstantDomain
unfolding shift_distance shift_overflows
shl_overflows c other target_type = shift_overflows c (shift_distance other) target_type

unfoldable pub shr_overflows : ConstantDomain → ConstantDomain → ExpressionType → ConstantDomain
unfolding shift_distance shift_overflows
shr_overflows c other target_type = shift_overflows c (shift_distance other) target_type
