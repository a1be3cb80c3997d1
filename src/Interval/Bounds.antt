-- ===== src/Interval/Bounds.antt =====
-- checker/src/interval_domain.rs: the methods that read, drop or replace one bound, and the two that
-- compare an interval with the range and with the width of a type.
use hepha.Prelude.{
  ◌&&◌, Bool, false, Option, none, some, if◌then◌else◌, ℤ, pos, leb_ℤ, ltb_ℤ, eqb_ℤ, ℕ, ◌||◌,
}
use hepha.Machine.{int_min, int_max, i128_min, i128_max}
use hepha.ExpressionType.{
  ExpressionType, i8, i16, i32, i64, i128, isize, u8, u16, u32, u64, u128, usize,
}
use hepha.Interval.{IntervalDomain, top, is_bottom, is_top}

unfoldable pub lower_bound : IntervalDomain → Option ℤ
lower_bound s = if eqb_ℤ s.lower top.lower then none else some s.lower

unfoldable pub upper_bound : IntervalDomain → Option ℤ
upper_bound s = if eqb_ℤ s.upper top.upper then none else some s.upper

unfoldable pub remove_lower_bound : IntervalDomain → IntervalDomain
remove_lower_bound s = record s { lower = top.lower }

unfoldable pub remove_upper_bound : IntervalDomain → IntervalDomain
remove_upper_bound s = record s { upper = top.upper }

unfoldable pub replace_upper_bound : IntervalDomain → ℤ → IntervalDomain
replace_upper_bound s new_value = record s { upper = new_value }

-- `lo <= lower && upper <= hi`
abbrev within : IntervalDomain → ℤ → ℤ → Bool
within s lo hi = leb_ℤ lo s.lower && leb_ℤ s.upper hi

-- The arms of the `match` in `is_contained_in`.
unfoldable pub contained_by_type : IntervalDomain → ExpressionType → Bool
contained_by_type s i8 = within s (int_min 7) (int_max 7)
contained_by_type s i16 = within s (int_min 15) (int_max 15)
contained_by_type s i32 = within s (int_min 31) (int_max 31)
contained_by_type s i64 = within s (int_min 63) (int_max 63)
contained_by_type s i128 = ltb_ℤ i128_min s.lower && ltb_ℤ s.upper i128_max
contained_by_type s isize = within s (int_min 63) (int_max 63)
contained_by_type s u8 = within s (pos 0) (int_max 8)
contained_by_type s u16 = within s (pos 0) (int_max 16)
contained_by_type s u32 = within s (pos 0) (int_max 32)
contained_by_type s u64 = within s (pos 0) (int_max 64)
contained_by_type s u128 = leb_ℤ (pos 0) s.lower && ltb_ℤ s.upper i128_max
contained_by_type s usize = within s (pos 0) (int_max 64)
contained_by_type s _ = false

unfoldable pub is_contained_in : IntervalDomain → ExpressionType → Bool
unfolding is_bottom is_top contained_by_type
is_contained_in s t = if is_bottom s || is_top s then false else contained_by_type s t

abbrev within_width : IntervalDomain → ℕ → Bool
within_width s w = leb_ℤ (pos 0) s.lower && ltb_ℤ s.upper (pos w)

-- The arms of the `match` in `is_contained_in_width_of`.
unfoldable pub contained_by_width : IntervalDomain → ExpressionType → Bool
contained_by_width s i8 = within_width s 8
contained_by_width s u8 = within_width s 8
contained_by_width s i16 = within_width s 16
contained_by_width s u16 = within_width s 16
contained_by_width s i32 = within_width s 32
contained_by_width s u32 = within_width s 32
contained_by_width s i64 = within_width s 64
contained_by_width s u64 = within_width s 64
contained_by_width s i128 = within_width s 128
contained_by_width s u128 = within_width s 128
contained_by_width s isize = within_width s 64
contained_by_width s usize = within_width s 64
contained_by_width s _ = false

unfoldable pub is_contained_in_width_of : IntervalDomain → ExpressionType → Bool
unfolding is_bottom is_top contained_by_width
is_contained_in_width_of s t = if is_bottom s || is_top s then false else contained_by_width s t
