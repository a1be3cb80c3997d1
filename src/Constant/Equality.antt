-- ===== src/Constant/Equality.antt =====
-- checker/src/constant_domain.rs: equality of constants.
use hepha.Prelude.{
  arith, ℕ, Bool, not, ◌&&◌, ◌||◌, ◌==◌, List, [], ◌∷◌, ℤ, pos, pos_part, leb_ℤ, ltb_ℤ, eqb_ℤ, ◌≡◌,
  refl, ap, ◌∙◌,
}
use hepha.Contract.Text.{codes}
use hepha.Machine.Words.{to_unsigned, fits_signed, fits_unsigned}
use hepha.ExpressionType.{ExpressionType, is_signed_integer}
use hepha.Constant.{
  ConstantDomain, bottom, char, function, i128, u128, f16, f32, f64, str, unimplemented, unit, half,
  single, double, Floats, from_bool,
}
use hepha.Constant.Checked.{fits, constant, constant_of}
use hepha.Constant.Exact.{fits_widest, fits-widest}

abbrev eq_codes : List ℕ → List ℕ → Bool
eq_codes [] [] = Bool.true
eq_codes (c ∷ cs) (d ∷ ds) = c == d && eq_codes cs ds
eq_codes _ _ = Bool.false

-- The derived `==`, which compares floating point numbers by their bits.
unfoldable pub eq_constant : ConstantDomain → ConstantDomain → Bool
eq_constant bottom bottom = Bool.true
eq_constant (char a) (char b) = a == b
eq_constant ConstantDomain.false ConstantDomain.false = Bool.true
eq_constant (function a) (function b) = a == b
eq_constant (i128 a) (i128 b) = eqb_ℤ a b
eq_constant (f64 a) (f64 b) = a == b
eq_constant (f32 a) (f32 b) = a == b
eq_constant (f16 a) (f16 b) = a == b
eq_constant (str a) (str b) = eq_codes (codes a) (codes b)
eq_constant ConstantDomain.true ConstantDomain.true = Bool.true
eq_constant (u128 a) (u128 b) = a == b
eq_constant unimplemented unimplemented = Bool.true
eq_constant unit unit = Bool.true
eq_constant _ _ = Bool.false

-- `val1 >= 0 && (val1 as u128) == val2`
abbrev same_number : ℤ → ℕ → Bool
same_number val1 val2 = leb_ℤ (pos 0) val1 && to_unsigned 128 val1 == val2

-- `val1 < 0 || (val1 as u128) != val2`
abbrev other_number : ℤ → ℕ → Bool
other_number val1 val2 = ltb_ℤ val1 (pos 0) || not (to_unsigned 128 val1 == val2)

same_exact :
    (x y : ℤ)
    → fits_signed 127 x ≡ Bool.true
    → fits_unsigned 128 y ≡ Bool.true
    → same_number x (pos_part y) ≡ eqb_ℤ x y
unfolding to_unsigned
same_exact x y h k = ground arith

other_exact :
    (x y : ℤ)
    → fits_signed 127 x ≡ Bool.true
    → fits_unsigned 128 y ≡ Bool.true
    → other_number x (pos_part y) ≡ not (eqb_ℤ x y)
unfolding to_unsigned
other_exact x y h k = ground arith

eqb_ℤ-comm : (x y : ℤ) → eqb_ℤ x y ≡ eqb_ℤ y x
eqb_ℤ-comm x y = ground arith

module _ (floats : Floats) where
  unfoldable pub equals : ConstantDomain → ConstantDomain → ConstantDomain
  unfolding eq_constant from_bool
  equals (f16 val1) (f16 val2) = from_bool (floats.eq half val1 val2)
  equals (f32 val1) (f32 val2) = from_bool (floats.eq single val1 val2)
  equals (f64 val1) (f64 val2) = from_bool (floats.eq double val1 val2)
  equals (i128 val1) (u128 val2) = from_bool (same_number val1 val2)
  equals (u128 val1) (i128 val2) = from_bool (same_number val2 val1)
  equals c d = from_bool (eq_constant c d)

  unfoldable pub not_equals : ConstantDomain → ConstantDomain → ConstantDomain
  unfolding eq_constant from_bool
  not_equals (f16 val1) (f16 val2) = from_bool (not (floats.eq half val1 val2))
  not_equals (f32 val1) (f32 val2) = from_bool (not (floats.eq single val1 val2))
  not_equals (f64 val1) (f64 val2) = from_bool (not (floats.eq double val1 val2))
  not_equals (i128 val1) (u128 val2) = from_bool (other_number val1 val2)
  not_equals (u128 val1) (i128 val2) = from_bool (other_number val2 val1)
  not_equals c d = from_bool (not (eq_constant c d))

  equals_of :
      (a b : Bool) (x y : ℤ)
      → fits_widest a x ≡ Bool.true
      → fits_widest b y ≡ Bool.true
      → (equals (constant_of a x) (constant_of b y) ≡ from_bool (eqb_ℤ x y))
        × (not_equals (constant_of a x) (constant_of b y) ≡ from_bool (not (eqb_ℤ x y)))
  unfolding equals not_equals eq_constant
  equals_of Bool.true Bool.true x y h k = (refl, refl)
  equals_of Bool.true Bool.false x y h k =
      (ap from_bool (same_exact x y h k), ap from_bool (other_exact x y h k))
  equals_of Bool.false Bool.true x y h k = (
    ap from_bool (same_exact y x k h ∙ eqb_ℤ-comm y x),
    ap from_bool (other_exact y x k h ∙ ap not (eqb_ℤ-comm y x)),
  )
  equals_of Bool.false Bool.false x y h k =
      (ap from_bool (ground arith), ap from_bool (ground arith))

  -- For values of two integer types, of one signedness or of two, `equals` and `not_equals` are the
  -- constants that say whether the values are the same integer.
  pub equals_exact :
      (s t : ExpressionType) (x y : ℤ)
      → fits s x ≡ Bool.true
      → fits t y ≡ Bool.true
      → (equals (constant s x) (constant t y) ≡ from_bool (eqb_ℤ x y))
        × (not_equals (constant s x) (constant t y) ≡ from_bool (not (eqb_ℤ x y)))
  equals_exact s t x y h k =
      equals_of (is_signed_integer s) (is_signed_integer t) x y (fits-widest s x h)
        (fits-widest t y k)
