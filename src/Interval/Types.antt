-- ===== src/Interval/Types.antt =====
-- Intervals of checker/src/interval_domain.rs against the ranges of the integer types.
use hepha.Interval.Lattice.{IsValid, ends}
use hepha.Prelude.{
  arith, eq_of_parts, ◌↔◌, inl, inr, ◌≡◌, ℤ, pos, ◌≤ℤ◌, ◌<ℤ◌, true, false, ℕ, ◌^◌, ◌<◌,
}
use hepha.Machine.{int_min, int_max, i128_min, i128_max}
use hepha.ExpressionType.{
  ExpressionType, i8, i16, i32, i64, i128, isize, u8, u16, u32, u64, u128, usize, bit_length,
}
use hepha.Interval.{IntervalDomain, from_type, from_u128, is_bottom}
use hepha.Interval.Bounds.{is_contained_in, is_contained_in_width_of}
use hepha.Interval.Contains.{Contains}

-- The values of an integer type, from the number of its bits and its signedness.
abbrev pub HasType : ExpressionType → ℤ → Type 0
HasType i8 z = (int_min 7 ≤ℤ z) × (z ≤ℤ int_max 7)
HasType i16 z = (int_min 15 ≤ℤ z) × (z ≤ℤ int_max 15)
HasType i32 z = (int_min 31 ≤ℤ z) × (z ≤ℤ int_max 31)
HasType i64 z = (int_min 63 ≤ℤ z) × (z ≤ℤ int_max 63)
HasType i128 z = (int_min 127 ≤ℤ z) × (z ≤ℤ int_max 127)
HasType isize z = (int_min 63 ≤ℤ z) × (z ≤ℤ int_max 63)
HasType u8 z = (pos 0 ≤ℤ z) × (z ≤ℤ int_max 8)
HasType u16 z = (pos 0 ≤ℤ z) × (z ≤ℤ int_max 16)
HasType u32 z = (pos 0 ≤ℤ z) × (z ≤ℤ int_max 32)
HasType u64 z = (pos 0 ≤ℤ z) × (z ≤ℤ int_max 64)
HasType u128 z = (pos 0 ≤ℤ z) × (z ≤ℤ int_max 128)
HasType usize z = (pos 0 ≤ℤ z) × (z ≤ℤ int_max 64)
HasType _ z = ⊥

-- The values of a type lie in its interval, the `u128` values above the greatest `i128` included.
pub from_type_sound : (t : ExpressionType) (z : ℤ) → HasType t z → Contains (from_type t) z
unfolding from_type
from_type_sound i8 z h = ground arith
from_type_sound _ z h = ground arith

-- The interval of a `u128` number has the number.
pub from_u128_sound : (u : ℕ) → u < 2 ^ 128 → Contains (from_u128 u) (pos u)
unfolding from_u128
from_u128_sound u h = ground arith

is_contained_in_sound :
    (s : IntervalDomain) (t : ExpressionType) (z : ℤ)
    → is_contained_in s t ≡ true
    → Contains s z
    → HasType t z
unfolding is_contained_in
is_contained_in_sound s i8 z e h = ground arith
is_contained_in_sound s _ z e h = ground arith

-- If an interval is found to be contained in the width of a type, then each integer that the
-- interval contains is a shift distance below the number of bits of the type.
pub width_sound :
    (s : IntervalDomain) (t : ExpressionType) (z : ℤ)
    → is_contained_in_width_of s t ≡ true
    → Contains s z
    → (pos 0 ≤ℤ z) × (z <ℤ pos (bit_length t))
unfolding is_contained_in_width_of bit_length
width_sound s i8 z e h = ground arith
width_sound s _ z e h = ground arith

module _ (s : IntervalDomain) (v : IsValid s) (b : is_bottom s ≡ false) where
  lower_Contains : Contains s s.lower
  lower_Contains = (ends s v b).0.contains

  upper_Contains : Contains s s.upper
  upper_Contains = (ends s v b).1.contains

  low_Contains : s.lower ≡ i128_min → Contains s (int_min 200)
  low_Contains e = record { below = inr e; above = inl (ground arith) }

  high_Contains : s.upper ≡ i128_max → Contains s (int_max 200)
  high_Contains e = record { below = inl (ground arith); above = inr e }

  contained_complete :
      (t : ExpressionType) → ((z : ℤ) → Contains s z → HasType t z) → is_contained_in s t ≡ true
  unfolding is_contained_in
  contained_complete i8 f =
      let fl = f s.lower lower_Contains in
      let fu = f s.upper upper_Contains in
      ground (
        arith,
        eq_of_parts s.lower i128_min,
        eq_of_parts s.upper i128_max,
        low_Contains,
        high_Contains,
        f (int_min 200),
        f (int_max 200),
      )
  contained_complete _ f =
      let fl = f s.lower lower_Contains in
      let fu = f s.upper upper_Contains in
      ground (
        arith,
        eq_of_parts s.lower i128_min,
        eq_of_parts s.upper i128_max,
        low_Contains,
        high_Contains,
        f (int_min 200),
        f (int_max 200),
      )

-- An interval of `i128` bounds that is not bottom is found to be contained in a type exactly if each
-- integer that it contains is a value of the type.
pub is_contained_in_exact :
    (s : IntervalDomain) (t : ExpressionType)
    → IsValid s
    → is_bottom s ≡ false
    → (is_contained_in s t ≡ true) ↔ ((z : ℤ) → Contains s z → HasType t z)
is_contained_in_exact s t v b =
    (λ e z h. is_contained_in_sound s t z e h, contained_complete s v b t)
