-- ===== src/Interval.antt =====
-- checker/src/interval_domain.rs: intervals of `i128` bounds, where the least and the greatest `i128`
-- stand for a missing bound. Each function has the name of the method that it models.
pub mod Bounds
pub mod Contains
pub mod Sums
pub mod Quotients
pub mod Order
pub mod Product
pub mod Lattice
pub mod Types
pub mod Tests
use hepha.Prelude.{
  ℕ, ◌^◌, ◌-◌, Bool, true, false, ◌&&◌, ◌||◌, Option, none, some, if◌then◌else◌, ℤ, pos, ◌-ℤ◌,
  ltb_ℤ, leb_ℤ, eqb_ℤ, min_ℤ, max_ℤ, leb,
}
use hepha.Machine.{
  int_min, int_max, i128_min, i128_max, saturating_add, saturating_sub, saturating_mul, checked_neg,
  quot_ℤ,
}
use hepha.ExpressionType.{
  ExpressionType, i8, i16, i32, i64, i128, isize, u8, u16, u32, u64, u128, usize,
}

pub record IntervalDomain : Type 0 where
  pub lower : ℤ
  pub upper : ℤ

-- The interval `[l..u]`.
abbrev pub interval : ℤ → ℤ → IntervalDomain
interval l u = record { lower = l; upper = u }

abbrev pub bottom : IntervalDomain
bottom = interval (pos 1) (pos 0)

abbrev pub top : IntervalDomain
top = interval i128_min i128_max

unfoldable pub from_i128 : ℤ → IntervalDomain
from_i128 i = interval i i

-- `i128::try_from(u)` succeeds up to the greatest `i128`.
unfoldable pub from_u128 : ℕ → IntervalDomain
unfolding from_i128
from_u128 u = if leb u (2 ^ 127 - 1) then from_i128 (pos u) else interval i128_max i128_max

unfoldable pub from_type : ExpressionType → IntervalDomain
from_type i8 = interval (int_min 7) (int_max 7)
from_type i16 = interval (int_min 15) (int_max 15)
from_type i32 = interval (int_min 31) (int_max 31)
from_type i64 = interval (int_min 63) (int_max 63)
from_type i128 = interval i128_min i128_max
from_type isize = interval (int_min 63) (int_max 63)
from_type u8 = interval (pos 0) (int_max 8)
from_type u16 = interval (pos 0) (int_max 16)
from_type u32 = interval (pos 0) (int_max 32)
from_type u64 = interval (pos 0) (int_max 64)
from_type u128 = interval (pos 0) i128_max
from_type usize = interval (pos 0) (int_max 64)
from_type _ = bottom

unfoldable pub is_bottom : IntervalDomain → Bool
is_bottom s = ltb_ℤ s.upper s.lower

unfoldable pub is_top : IntervalDomain → Bool
is_top s = eqb_ℤ s.lower i128_min && eqb_ℤ s.upper i128_max

unfoldable pub add : IntervalDomain → IntervalDomain → IntervalDomain
unfolding is_bottom is_top
add s o =
    if is_bottom s || is_bottom o
    then bottom
    else if is_top s || is_top o
    then top
    else interval (saturating_add s.lower o.lower) (saturating_add s.upper o.upper)

unfoldable pub sub : IntervalDomain → IntervalDomain → IntervalDomain
unfolding is_bottom is_top
sub s o =
    if is_bottom s || is_bottom o
    then bottom
    else if is_top s || is_top o
    then top
    else interval (saturating_sub s.lower o.upper) (saturating_sub s.upper o.lower)

unfoldable pub div : IntervalDomain → IntervalDomain → IntervalDomain
unfolding is_bottom is_top
div s o =
    if is_bottom s || is_bottom o
    then bottom
    else if is_top s || is_top o
    then top
    else if ltb_ℤ (pos 0) o.lower
    then interval (quot_ℤ s.lower o.upper) (quot_ℤ s.upper o.lower)
    else top

unfoldable pub mul : IntervalDomain → IntervalDomain → IntervalDomain
unfolding is_bottom is_top
mul s o =
    let xa = saturating_mul s.lower o.lower in
    let xb = saturating_mul s.lower o.upper in
    let ya = saturating_mul s.upper o.lower in
    let yb = saturating_mul s.upper o.upper in
    if is_bottom s || is_bottom o
    then bottom
    else if is_top s || is_top o
    then top
    else interval (min_ℤ (min_ℤ (min_ℤ xa xb) ya) yb) (max_ℤ (max_ℤ (max_ℤ xa xb) ya) yb)

abbrev unwrap_or : Option ℤ → ℤ → ℤ
unwrap_or none d = d
unwrap_or (some z) d = z

unfoldable pub neg : IntervalDomain → IntervalDomain
unfolding is_bottom is_top
neg s =
    if is_bottom s
    then bottom
    else if is_top s
    then top
    else interval (unwrap_or (checked_neg s.upper) i128_max)
        (unwrap_or (checked_neg s.lower) i128_max)

unfoldable pub rem : IntervalDomain → IntervalDomain → IntervalDomain
unfolding is_bottom is_top
rem s o =
    if is_bottom s || is_bottom o
    then bottom
    else if is_top s || is_top o
    then top
    else if leb_ℤ (pos 0) s.lower && leb_ℤ (pos 1) o.lower
    then interval (pos 0) (min_ℤ s.upper (o.upper -ℤ pos 1))
    else top

unfoldable pub intersect : IntervalDomain → IntervalDomain → IntervalDomain
unfolding is_bottom is_top
intersect s o =
    if is_bottom s || is_bottom o
    then bottom
    else if is_top s
    then o
    else if is_top o
    then s
    else interval (max_ℤ s.lower o.lower) (min_ℤ s.upper o.upper)

unfoldable pub widen : IntervalDomain → IntervalDomain → IntervalDomain
unfolding is_bottom is_top
widen s o =
    if is_bottom s || is_bottom o
    then bottom
    else if is_top s || is_top o
    then top
    else interval (min_ℤ s.lower o.lower) (max_ℤ s.upper o.upper)

-- `None` where one of the two intervals is bottom or top.
unfoldable pub is_unknown : IntervalDomain → IntervalDomain → Bool
unfolding is_bottom is_top
is_unknown s o = is_bottom s || is_top s || is_bottom o || is_top o

unfoldable pub greater_or_equal : IntervalDomain → IntervalDomain → Option Bool
unfolding is_unknown
greater_or_equal s o =
    if is_unknown s o
    then none
    else if leb_ℤ o.upper s.lower
    then some true
    else if ltb_ℤ s.upper o.lower
    then some false
    else none

unfoldable pub greater_than : IntervalDomain → IntervalDomain → Option Bool
unfolding is_unknown
greater_than s o =
    if is_unknown s o
    then none
    else if ltb_ℤ o.upper s.lower
    then some true
    else if leb_ℤ s.upper o.lower
    then some false
    else none

unfoldable pub less_equal : IntervalDomain → IntervalDomain → Option Bool
unfolding is_unknown
less_equal s o =
    if is_unknown s o
    then none
    else if leb_ℤ s.upper o.lower
    then some true
    else if ltb_ℤ o.upper s.lower
    then some false
    else none

unfoldable pub less_than : IntervalDomain → IntervalDomain → Option Bool
unfolding is_unknown
less_than s o =
    if is_unknown s o
    then none
    else if ltb_ℤ s.upper o.lower
    then some true
    else if leb_ℤ o.upper s.lower
    then some false
    else none
