-- ===== src/Constant/Tests.antt =====
-- The arithmetic and the casts of checker/src/constant_domain.rs at concrete values.
use hepha.Prelude.{
  arith, Bool, not, pos, negsuc, ◌+ℤ◌, ◌-ℤ◌, ◌*ℤ◌, ◌≡◌, refl, +ℤ_parts, -ℤ_parts, *ℤ_parts,
}
use hepha.Machine.Words.{to_unsigned}
use hepha.ExpressionType.{ExpressionType, is_integer, is_unsigned_integer}
use hepha.Constant.{ConstantDomain, u128, from_bool, Floats}
use hepha.Constant.Overflow.{add_overflows, sub_overflows, mul_overflows}
use hepha.Constant.Checked.{fits, constant, overflows_exact}
use hepha.Constant.Cast.{cast}

-- Numbers in place of floating point numbers.
abbrev no_floats : Floats
no_floats = record {
  add = λ f a b. 0;
  sub = λ f a b. 0;
  mul = λ f a b. 0;
  div = λ f a b. 0;
  rem = λ f a b. 0;
  neg = λ f a. 0;
  eq = λ f a b. Bool.false;
  convert = λ f g a. 0;
  to_i128 = λ f a. pos 0;
  to_u128 = λ f a. 0;
  from_i128 = λ f a. 0;
  from_u128 = λ f a. 0;
}

-- 100 + 100 and 100 * 100 are no `i8`, and 100 - 100 is one.
overflows_example :
    (add_overflows
        (constant ExpressionType.i8 (pos 100))
        (constant ExpressionType.i8 (pos 100))
        ExpressionType.i8
      ≡ from_bool (not (fits ExpressionType.i8 (pos 100 +ℤ pos 100))))
    × (sub_overflows
          (constant ExpressionType.i8 (pos 100))
          (constant ExpressionType.i8 (pos 100))
          ExpressionType.i8
        ≡ from_bool (not (fits ExpressionType.i8 (pos 100 -ℤ pos 100))))
    × (mul_overflows
          (constant ExpressionType.i8 (pos 100))
          (constant ExpressionType.i8 (pos 100))
          ExpressionType.i8
        ≡ from_bool (not (fits ExpressionType.i8 (pos 100 *ℤ pos 100))))
overflows_example = overflows_exact ExpressionType.i8 (pos 100) (pos 100) refl refl

-- 100 - 10, 30 - 10 and 9 * 20 are values of the types.
sum_fits : fits ExpressionType.i8 (pos 100 +ℤ negsuc 9) ≡ Bool.true
sum_fits = ground (arith, +ℤ_parts (pos 100) (negsuc 9))

difference_fits : fits ExpressionType.u16 (pos 30 -ℤ pos 10) ≡ Bool.true
difference_fits = ground (arith, -ℤ_parts (pos 30) (pos 10))

product_fits : fits ExpressionType.u8 (pos 9 *ℤ pos 20) ≡ Bool.true
product_fits = ground (arith, *ℤ_parts (pos 9) (pos 20))

in_type : (b : Bool) → b ≡ Bool.true → from_bool (not b) ≡ ConstantDomain.false
unfolding from_bool
in_type Bool.true e = refl
in_type Bool.false e = cc

u16_integer : is_integer ExpressionType.u16 ≡ Bool.true
unfolding is_integer
u16_integer = refl

-- -2 as a `u16` is 65534.
cast_value : cast no_floats (constant ExpressionType.i32 (negsuc 1)) ExpressionType.u16 ≡ u128 65534
unfolding cast to_unsigned
cast_value = refl

u8_unsigned : is_unsigned_integer ExpressionType.u8 ≡ Bool.true
unfolding is_unsigned_integer
u8_unsigned = refl
