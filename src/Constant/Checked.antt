-- ===== src/Constant/Checked.antt =====
-- The arithmetic of checker/src/constant_domain.rs against the integers of each type.
use hepha.Prelude.{arith, ℕ, Bool, not, ℤ, pos, pos_part, ◌+ℤ◌, ◌-ℤ◌, ◌*ℤ◌, ◌≡◌, refl, ◌∙◌}
use hepha.Machine.Words.{
  to_unsigned, to_signed, fits_signed, fits_unsigned, to_signed_id, to_unsigned_id, pow-pos,
}
use hepha.ExpressionType.{ExpressionType, is_signed_integer}
use hepha.Constant.{ConstantDomain, i128, u128, from_bool}
use hepha.Constant.Overflow.{
  overflows_signed, overflows_unsigned, match_signed, match_unsigned, add_overflows, sub_overflows,
  mul_overflows,
}

-- An integer type has the value.
abbrev pub fits : ExpressionType → ℤ → Bool
fits ExpressionType.i8 z = fits_signed 7 z
fits ExpressionType.i16 z = fits_signed 15 z
fits ExpressionType.i32 z = fits_signed 31 z
fits ExpressionType.i64 z = fits_signed 63 z
fits ExpressionType.i128 z = fits_signed 127 z
fits ExpressionType.isize z = fits_signed 63 z
fits ExpressionType.u8 z = fits_unsigned 8 z
fits ExpressionType.u16 z = fits_unsigned 16 z
fits ExpressionType.u32 z = fits_unsigned 32 z
fits ExpressionType.u64 z = fits_unsigned 64 z
fits ExpressionType.u128 z = fits_unsigned 128 z
fits ExpressionType.usize z = fits_unsigned 64 z
fits _ z = Bool.false

-- A value of a signed, or of an unsigned type as a constant.
abbrev pub constant_of : Bool → ℤ → ConstantDomain
constant_of Bool.true z = i128 z
constant_of Bool.false z = u128 (pos_part z)

-- A value of an integer type as a constant.
abbrev pub constant : ExpressionType → ℤ → ConstantDomain
constant t z = constant_of (is_signed_integer t) z

pub fits_signed-wrap : (w : ℕ) (z : ℤ) → fits_signed w z ≡ Bool.true → to_signed w z ≡ z
fits_signed-wrap w z h = to_signed_id w z (ground arith) (ground arith)

pub fits_unsigned-pos : (w : ℕ) (z : ℤ) → fits_unsigned w z ≡ Bool.true → pos (pos_part z) ≡ z
fits_unsigned-pos w z h = ground arith

pub fits_unsigned-wrap :
    (w : ℕ) (z : ℤ) → fits_unsigned w z ≡ Bool.true → to_unsigned w (pos (pos_part z)) ≡ pos_part z
fits_unsigned-wrap w z h = let p = pow-pos w in to_unsigned_id w (pos_part z) (ground arith)

module _ (op : ℤ → ℤ → ℤ) where
  signed_exact :
      (w : ℕ) (x y : ℤ)
      → fits_signed w x ≡ Bool.true
      → fits_signed w y ≡ Bool.true
      → overflows_signed op x y w ≡ from_bool (not (fits_signed w (op x y)))
  signed_exact w x y h k = rw (fits_signed-wrap w x h, fits_signed-wrap w y k) refl

  unsigned_exact :
      (w : ℕ) (x y : ℤ)
      → fits_unsigned w x ≡ Bool.true
      → fits_unsigned w y ≡ Bool.true
      → overflows_unsigned op (pos_part x) (pos_part y) w
        ≡ from_bool (not (fits_unsigned w (op x y)))
  unsigned_exact w x y h k =
      rw
        (
          fits_unsigned-wrap w x h,
          fits_unsigned-wrap w y k,
          fits_unsigned-pos w x h,
          fits_unsigned-pos w y k,
        )
        refl

  -- The test that the three overflow methods make.
  abbrev test : Bool → ExpressionType → ℤ → ℤ → ConstantDomain
  test Bool.true t x y = match_signed (overflows_signed op x y) t
  test Bool.false t x y = match_unsigned (overflows_unsigned op (pos_part x) (pos_part y)) t

  test_exact :
      (t : ExpressionType) (x y : ℤ)
      → fits t x ≡ Bool.true
      → fits t y ≡ Bool.true
      → test (is_signed_integer t) t x y ≡ from_bool (not (fits t (op x y)))
  unfolding is_signed_integer match_signed match_unsigned
  test_exact ExpressionType.i8 x y h k = signed_exact 7 x y h k
  test_exact ExpressionType.i16 x y h k = signed_exact 15 x y h k
  test_exact ExpressionType.i32 x y h k = signed_exact 31 x y h k
  test_exact ExpressionType.i64 x y h k = signed_exact 63 x y h k
  test_exact ExpressionType.i128 x y h k = signed_exact 127 x y h k
  test_exact ExpressionType.isize x y h k = signed_exact 63 x y h k
  test_exact ExpressionType.u8 x y h k = unsigned_exact 8 x y h k
  test_exact ExpressionType.u16 x y h k = unsigned_exact 16 x y h k
  test_exact ExpressionType.u32 x y h k = unsigned_exact 32 x y h k
  test_exact ExpressionType.u64 x y h k = unsigned_exact 64 x y h k
  test_exact ExpressionType.u128 x y h k = unsigned_exact 128 x y h k
  test_exact ExpressionType.usize x y h k = unsigned_exact 64 x y h k
  test_exact _ x y h k = cc

add_overflows-test :
    (b : Bool) (t : ExpressionType) (x y : ℤ)
    → add_overflows (constant_of b x) (constant_of b y) t ≡ test (λ a c. a +ℤ c) b t x y
unfolding add_overflows
add_overflows-test Bool.true t x y = refl
add_overflows-test Bool.false t x y = refl

sub_overflows-test :
    (b : Bool) (t : ExpressionType) (x y : ℤ)
    → sub_overflows (constant_of b x) (constant_of b y) t ≡ test (λ a c. a -ℤ c) b t x y
unfolding sub_overflows
sub_overflows-test Bool.true t x y = refl
sub_overflows-test Bool.false t x y = refl

mul_overflows-test :
    (b : Bool) (t : ExpressionType) (x y : ℤ)
    → mul_overflows (constant_of b x) (constant_of b y) t ≡ test (λ a c. a *ℤ c) b t x y
unfolding mul_overflows
mul_overflows-test Bool.true t x y = refl
mul_overflows-test Bool.false t x y = refl

pub add_overflows_exact :
    (t : ExpressionType) (x y : ℤ)
    → fits t x ≡ Bool.true
    → fits t y ≡ Bool.true
    → add_overflows (constant t x) (constant t y) t ≡ from_bool (not (fits t (x +ℤ y)))
add_overflows_exact t x y h k =
    add_overflows-test (is_signed_integer t) t x y ∙ test_exact (λ a c. a +ℤ c) t x y h k

pub sub_overflows_exact :
    (t : ExpressionType) (x y : ℤ)
    → fits t x ≡ Bool.true
    → fits t y ≡ Bool.true
    → sub_overflows (constant t x) (constant t y) t ≡ from_bool (not (fits t (x -ℤ y)))
sub_overflows_exact t x y h k =
    sub_overflows-test (is_signed_integer t) t x y ∙ test_exact (λ a c. a -ℤ c) t x y h k

pub mul_overflows_exact :
    (t : ExpressionType) (x y : ℤ)
    → fits t x ≡ Bool.true
    → fits t y ≡ Bool.true
    → mul_overflows (constant t x) (constant t y) t ≡ from_bool (not (fits t (x *ℤ y)))
mul_overflows_exact t x y h k =
    mul_overflows-test (is_signed_integer t) t x y ∙ test_exact (λ a c. a *ℤ c) t x y h k

-- For two values of an integer type `add_overflows`, `sub_overflows` and `mul_overflows` are the
-- constants that say whether the type lacks their sum, their difference and their product.
pub overflows_exact :
    (t : ExpressionType) (x y : ℤ)
    → fits t x ≡ Bool.true
    → fits t y ≡ Bool.true
    → (add_overflows (constant t x) (constant t y) t ≡ from_bool (not (fits t (x +ℤ y))))
      × (sub_overflows (constant t x) (constant t y) t ≡ from_bool (not (fits t (x -ℤ y))))
      × (mul_overflows (constant t x) (constant t y) t ≡ from_bool (not (fits t (x *ℤ y))))
overflows_exact t x y h k =
    (add_overflows_exact t x y h k, sub_overflows_exact t x y h k, mul_overflows_exact t x y h k)
