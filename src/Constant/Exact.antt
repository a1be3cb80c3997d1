-- ===== src/Constant/Exact.antt =====
-- Where no overflow is reported, the arithmetic of checker/src/constant_domain.rs is exact.
use hepha.Prelude.{arith, Bool, ℤ, ◌+ℤ◌, ◌-ℤ◌, ◌*ℤ◌, ◌≡◌, refl, not, ap, ◌∙◌, sym}
use hepha.Machine.Words.{to_unsigned, fits_signed, fits_unsigned}
use hepha.ExpressionType.{ExpressionType, is_signed_integer}
use hepha.Constant.{ConstantDomain, i128, u128, from_bool, Floats, add, sub, mul}
use hepha.Constant.Overflow.{add_overflows, sub_overflows, mul_overflows}
use hepha.Constant.Checked.{
  fits, constant, constant_of, fits_signed-wrap, fits_unsigned-pos, fits_unsigned-wrap,
  add_overflows_exact, sub_overflows_exact, mul_overflows_exact,
}

-- The values of the widest type of a signedness.
abbrev pub fits_widest : Bool → ℤ → Bool
fits_widest Bool.true z = fits_signed 127 z
fits_widest Bool.false z = fits_unsigned 128 z

pub fits-widest :
    (t : ExpressionType) (z : ℤ)
    → fits t z ≡ Bool.true
    → fits_widest (is_signed_integer t) z ≡ Bool.true
unfolding is_signed_integer
fits-widest ExpressionType.i8 z h = ground arith
fits-widest _ z h = ground arith

from_bool-false : (b : Bool) → from_bool (not b) ≡ ConstantDomain.false → b ≡ Bool.true
unfolding from_bool
from_bool-false Bool.true e = refl
from_bool-false Bool.false e = cc

module _ (floats : Floats) where
  add_widest :
      (b : Bool) (x y : ℤ)
      → fits_widest b x ≡ Bool.true
      → fits_widest b y ≡ Bool.true
      → fits_widest b (x +ℤ y) ≡ Bool.true
      → add floats (constant_of b x) (constant_of b y) ≡ constant_of b (x +ℤ y)
  unfolding add
  add_widest Bool.true x y h k m = ap i128 (fits_signed-wrap 127 (x +ℤ y) m)
  add_widest Bool.false x y h k m =
      rw (fits_unsigned-pos 128 x h, fits_unsigned-pos 128 y k)
        (ap u128 (
          ap (to_unsigned 128) (sym (fits_unsigned-pos 128 (x +ℤ y) m))
          ∙ fits_unsigned-wrap 128 (x +ℤ y) m))

  -- For two values of an integer type `add` is the constant of their sum, if `add_overflows` says that
  -- it does not overflow.
  pub add_checked :
      (t : ExpressionType) (x y : ℤ)
      → fits t x ≡ Bool.true
      → fits t y ≡ Bool.true
      → add_overflows (constant t x) (constant t y) t ≡ ConstantDomain.false
      → add floats (constant t x) (constant t y) ≡ constant t (x +ℤ y)
  add_checked t x y h k e =
      add_widest (is_signed_integer t) x y (fits-widest t x h) (fits-widest t y k)
        (fits-widest t (x +ℤ y) (from_bool-false _ (sym (add_overflows_exact t x y h k) ∙ e)))

  sub_widest :
      (b : Bool) (x y : ℤ)
      → fits_widest b x ≡ Bool.true
      → fits_widest b y ≡ Bool.true
      → fits_widest b (x -ℤ y) ≡ Bool.true
      → sub floats (constant_of b x) (constant_of b y) ≡ constant_of b (x -ℤ y)
  unfolding sub
  sub_widest Bool.true x y h k m = ap i128 (fits_signed-wrap 127 (x -ℤ y) m)
  sub_widest Bool.false x y h k m =
      rw (fits_unsigned-pos 128 x h, fits_unsigned-pos 128 y k)
        (ap u128 (
          ap (to_unsigned 128) (sym (fits_unsigned-pos 128 (x -ℤ y) m))
          ∙ fits_unsigned-wrap 128 (x -ℤ y) m))

  -- For two values of an integer type `sub` is the constant of their difference, if `sub_overflows` says that
  -- it does not overflow.
  pub sub_checked :
      (t : ExpressionType) (x y : ℤ)
      → fits t x ≡ Bool.true
      → fits t y ≡ Bool.true
      → sub_overflows (constant t x) (constant t y) t ≡ ConstantDomain.false
      → sub floats (constant t x) (constant t y) ≡ constant t (x -ℤ y)
  sub_checked t x y h k e =
      sub_widest (is_signed_integer t) x y (fits-widest t x h) (fits-widest t y k)
        (fits-widest t (x -ℤ y) (from_bool-false _ (sym (sub_overflows_exact t x y h k) ∙ e)))

  mul_widest :
      (b : Bool) (x y : ℤ)
      → fits_widest b x ≡ Bool.true
      → fits_widest b y ≡ Bool.true
      → fits_widest b (x *ℤ y) ≡ Bool.true
      → mul floats (constant_of b x) (constant_of b y) ≡ constant_of b (x *ℤ y)
  unfolding mul
  mul_widest Bool.true x y h k m = ap i128 (fits_signed-wrap 127 (x *ℤ y) m)
  mul_widest Bool.false x y h k m =
      rw (fits_unsigned-pos 128 x h, fits_unsigned-pos 128 y k)
        (ap u128 (
          ap (to_unsigned 128) (sym (fits_unsigned-pos 128 (x *ℤ y) m))
          ∙ fits_unsigned-wrap 128 (x *ℤ y) m))

  -- For two values of an integer type `mul` is the constant of their product, if `mul_overflows` says that
  -- it does not overflow.
  pub mul_checked :
      (t : ExpressionType) (x y : ℤ)
      → fits t x ≡ Bool.true
      → fits t y ≡ Bool.true
      → mul_overflows (constant t x) (constant t y) t ≡ ConstantDomain.false
      → mul floats (constant t x) (constant t y) ≡ constant t (x *ℤ y)
  mul_checked t x y h k e =
      mul_widest (is_signed_integer t) x y (fits-widest t x h) (fits-widest t y k)
        (fits-widest t (x *ℤ y) (from_bool-false _ (sym (mul_overflows_exact t x y h k) ∙ e)))
