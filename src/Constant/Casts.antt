-- ===== src/Constant/Casts.antt =====
-- The casts of checker/src/constant_domain.rs between integer types.
use hepha.Prelude.{arith, ℕ, Bool, ℤ, pos, pos_part, ◌≡◌, refl, ap, ◌∙◌, sym, ◌⊎◌, inl, inr}
use hepha.Machine.Words.{
  to_unsigned, to_signed, fits_signed, fits_unsigned, to_signed_range, to_unsigned-lt,
}
use hepha.ExpressionType.{ExpressionType, is_signed_integer, is_unsigned_integer, is_integer}
use hepha.Constant.{ConstantDomain, i128, u128, Floats}
use hepha.Constant.Cast.{cast, cast_u128, cast_i128, cast_signed, cast_unsigned}
use hepha.Constant.Exact.{fits_widest, fits-widest}
use hepha.Constant.Checked.{
  fits, constant, constant_of, fits_signed-wrap, fits_unsigned-pos, fits_unsigned-wrap,
}

-- A constant of an integer type, in the range of the type.
abbrev pub InRange : ExpressionType → ConstantDomain → Type 0
InRange t c = (z : ℤ) × (c ≡ constant t z) × (fits t z ≡ Bool.true)

-- An integer type is signed or unsigned, and not both.
abbrev Kind : ExpressionType → Type 0
Kind t =
    ((is_signed_integer t ≡ Bool.true) × (is_unsigned_integer t ≡ Bool.false))
    ⊎ ((is_signed_integer t ≡ Bool.false) × (is_unsigned_integer t ≡ Bool.true))

integer-Kind : (t : ExpressionType) → is_integer t ≡ Bool.true → Kind t
unfolding is_integer is_signed_integer is_unsigned_integer
integer-Kind ExpressionType.i8 i = inl (refl, refl)
integer-Kind ExpressionType.i16 i = inl (refl, refl)
integer-Kind ExpressionType.i32 i = inl (refl, refl)
integer-Kind ExpressionType.i64 i = inl (refl, refl)
integer-Kind ExpressionType.i128 i = inl (refl, refl)
integer-Kind ExpressionType.isize i = inl (refl, refl)
integer-Kind ExpressionType.u8 i = inr (refl, refl)
integer-Kind ExpressionType.u16 i = inr (refl, refl)
integer-Kind ExpressionType.u32 i = inr (refl, refl)
integer-Kind ExpressionType.u64 i = inr (refl, refl)
integer-Kind ExpressionType.u128 i = inr (refl, refl)
integer-Kind ExpressionType.usize i = inr (refl, refl)
integer-Kind _ i = cc

fits_integer : (t : ExpressionType) (z : ℤ) → fits t z ≡ Bool.true → is_integer t ≡ Bool.true
unfolding is_integer
fits_integer ExpressionType.i8 z h = refl
fits_integer ExpressionType.bool z h = cc
fits_integer ExpressionType.char z h = cc
fits_integer ExpressionType.f16 z h = cc
fits_integer ExpressionType.f32 z h = cc
fits_integer ExpressionType.f64 z h = cc
fits_integer ExpressionType.non_primitive z h = cc
fits_integer ExpressionType.thin_pointer z h = cc
fits_integer ExpressionType.unit z h = cc
fits_integer _ z h = refl

signed_fits : (w : ℕ) (z : ℤ) → fits_signed w (to_signed w z) ≡ Bool.true
signed_fits w z = let r = to_signed_range w z in ground arith

unsigned_fits : (w : ℕ) (z : ℤ) → fits_unsigned w (pos (to_unsigned w z)) ≡ Bool.true
unsigned_fits w z = let r = to_unsigned-lt w z in ground arith

module _ (floats : Floats) where
  signed_InRange :
      (t : ExpressionType) (z : ℤ)
      → fits_signed 127 z ≡ Bool.true
      → is_signed_integer t ≡ Bool.true
      → InRange t (cast_signed floats z t)
  unfolding cast_signed is_signed_integer
  signed_InRange ExpressionType.i8 z h s = (to_signed 7 z, refl, signed_fits 7 z)
  signed_InRange ExpressionType.i16 z h s = (to_signed 15 z, refl, signed_fits 15 z)
  signed_InRange ExpressionType.i32 z h s = (to_signed 31 z, refl, signed_fits 31 z)
  signed_InRange ExpressionType.i64 z h s = (to_signed 63 z, refl, signed_fits 63 z)
  signed_InRange ExpressionType.i128 z h s = (z, refl, h)
  signed_InRange ExpressionType.isize z h s = (to_signed 63 z, refl, signed_fits 63 z)
  signed_InRange _ z h s = cc

  unsigned_InRange :
      (t : ExpressionType) (n : ℕ)
      → fits_unsigned 128 (pos n) ≡ Bool.true
      → is_unsigned_integer t ≡ Bool.true
      → InRange t (cast_unsigned floats n t)
  unfolding cast_unsigned is_unsigned_integer is_signed_integer
  unsigned_InRange ExpressionType.u8 n h s =
      (pos (to_unsigned 8 (pos n)), refl, unsigned_fits 8 (pos n))
  unsigned_InRange ExpressionType.u16 n h s =
      (pos (to_unsigned 16 (pos n)), refl, unsigned_fits 16 (pos n))
  unsigned_InRange ExpressionType.u32 n h s =
      (pos (to_unsigned 32 (pos n)), refl, unsigned_fits 32 (pos n))
  unsigned_InRange ExpressionType.u64 n h s =
      (pos (to_unsigned 64 (pos n)), refl, unsigned_fits 64 (pos n))
  unsigned_InRange ExpressionType.u128 n h s = (pos n, refl, h)
  unsigned_InRange ExpressionType.usize n h s =
      (pos (to_unsigned 64 (pos n)), refl, unsigned_fits 64 (pos n))
  unsigned_InRange _ n h s = cc

  signed_keeps :
      (t : ExpressionType) (z : ℤ)
      → is_signed_integer t ≡ Bool.true
      → fits t z ≡ Bool.true
      → cast_signed floats z t ≡ i128 z
  unfolding cast_signed is_signed_integer
  signed_keeps ExpressionType.i8 z s h = ap i128 (fits_signed-wrap 7 z h)
  signed_keeps ExpressionType.i16 z s h = ap i128 (fits_signed-wrap 15 z h)
  signed_keeps ExpressionType.i32 z s h = ap i128 (fits_signed-wrap 31 z h)
  signed_keeps ExpressionType.i64 z s h = ap i128 (fits_signed-wrap 63 z h)
  signed_keeps ExpressionType.i128 z s h = refl
  signed_keeps ExpressionType.isize z s h = ap i128 (fits_signed-wrap 63 z h)
  signed_keeps _ z s h = cc

  unsigned_keeps :
      (t : ExpressionType) (z : ℤ)
      → is_unsigned_integer t ≡ Bool.true
      → fits t z ≡ Bool.true
      → cast_unsigned floats (pos_part z) t ≡ u128 (pos_part z)
  unfolding cast_unsigned is_unsigned_integer
  unsigned_keeps ExpressionType.u8 z s h = ap u128 (fits_unsigned-wrap 8 z h)
  unsigned_keeps ExpressionType.u16 z s h = ap u128 (fits_unsigned-wrap 16 z h)
  unsigned_keeps ExpressionType.u32 z s h = ap u128 (fits_unsigned-wrap 32 z h)
  unsigned_keeps ExpressionType.u64 z s h = ap u128 (fits_unsigned-wrap 64 z h)
  unsigned_keeps ExpressionType.u128 z s h = refl
  unsigned_keeps ExpressionType.usize z s h = ap u128 (fits_unsigned-wrap 64 z h)
  unsigned_keeps _ z s h = cc

  range_of :
      (b : Bool) (t : ExpressionType) (x : ℤ)
      → fits_widest b x ≡ Bool.true
      → Kind t
      → InRange t (cast floats (constant_of b x) t)
  unfolding cast cast_u128 cast_i128
  range_of Bool.true t x h (inl (s, u)) = rw u (signed_InRange t x h s)
  range_of Bool.true t x h (inr (s, u)) =
      rw u (unsigned_InRange t (to_unsigned 128 x) (unsigned_fits 128 x) u)
  range_of Bool.false t x h (inl (s, u)) =
      let n = pos (pos_part x) in
      let r = signed_InRange t (to_signed 127 n) (signed_fits 127 n) s in rw s (rw s at r)
  range_of Bool.false t x h (inr (s, u)) =
      let r =
        unsigned_InRange t (pos_part x) (ap (fits_unsigned 128) (fits_unsigned-pos 128 x h) ∙ h)
          u in
      rw s (rw s at r)

  keeps_of :
      (b : Bool) (t : ExpressionType) (x : ℤ)
      → fits_widest b x ≡ Bool.true
      → fits t x ≡ Bool.true
      → fits_widest (is_signed_integer t) x ≡ Bool.true
      → Kind t
      → cast floats (constant_of b x) t ≡ constant t x
  unfolding cast cast_u128 cast_i128
  keeps_of Bool.true t x h k w (inl (s, u)) = rw (u, s) (signed_keeps t x s k)
  keeps_of Bool.true t x h k w (inr (s, u)) =
      let v : fits_unsigned 128 x ≡ Bool.true = rw s at w in
      let e : to_unsigned 128 x ≡ pos_part x =
        ap (to_unsigned 128) (sym (fits_unsigned-pos 128 x v)) ∙ fits_unsigned-wrap 128 x v in
      rw (u, s, e) (unsigned_keeps t x u k)
  keeps_of Bool.false t x h k w (inl (s, u)) =
      let v : fits_signed 127 x ≡ Bool.true = rw s at w in
      let e : to_signed 127 (pos (pos_part x)) ≡ x =
        ap (to_signed 127) (fits_unsigned-pos 128 x h) ∙ fits_signed-wrap 127 x v in
      rw (s, e) (signed_keeps t x s k)
  keeps_of Bool.false t x h k w (inr (s, u)) = rw s (unsigned_keeps t x u k)

  -- The cast of a value of one integer type to another gives a constant of the other type, in its range.
  pub cast_range :
      (s t : ExpressionType) (x : ℤ)
      → fits s x ≡ Bool.true
      → is_integer t ≡ Bool.true
      → InRange t (cast floats (constant s x) t)
  cast_range s t x h i = range_of (is_signed_integer s) t x (fits-widest s x h) (integer-Kind t i)

  -- The cast of a value of one integer type to another keeps the value, if the other type has it.
  pub cast_keeps :
      (s t : ExpressionType) (x : ℤ)
      → fits s x ≡ Bool.true
      → fits t x ≡ Bool.true
      → cast floats (constant s x) t ≡ constant t x
  cast_keeps s t x h k =
      keeps_of (is_signed_integer s) t x (fits-widest s x h) k (fits-widest t x k)
        (integer-Kind t (fits_integer t x k))
