-- ===== src/Interval/Tests.antt =====
-- Intervals of checker/src/interval_domain.rs at concrete values.
use hepha.Prelude.{arith, ℤ, pos, negsuc, ◌*ℤ◌, ◌≡◌, ◌↔◌, ◌⊎◌, refl, true, false, some}
use hepha.Machine.{quot_ℤ}
use hepha.ExpressionType.{i8, u8}
use hepha.Interval.{IntervalDomain, interval, mul, div, widen, less_than, is_bottom}
use hepha.Interval.Bounds.{is_contained_in, is_contained_in_width_of}
use hepha.Interval.Contains.{Contains, Describes}
use hepha.Interval.Lattice.{IsValid, bounds-Describes, widen_lub}
use hepha.Interval.Product.{mul_sound}
use hepha.Interval.Quotients.{div_unsound_negative}
use hepha.Interval.Types.{HasType, is_contained_in_exact}

-- -3 to 5, and 2 to 7.
abbrev around_zero : IntervalDomain
around_zero = interval (negsuc 2) (pos 5)

abbrev two_to_seven : IntervalDomain
two_to_seven = interval (pos 2) (pos 7)

around_zero-Describes : Describes around_zero (negsuc 1)
around_zero-Describes =
    bounds-Describes around_zero (negsuc 1) (omega arith, omega arith) (omega arith) (omega arith)

two_to_seven-Describes : Describes two_to_seven (pos 4)
two_to_seven-Describes =
    bounds-Describes two_to_seven (pos 4) (omega arith, omega arith) (omega arith) (omega arith)

two_to_seven-Describes_three : Describes two_to_seven (pos 3)
two_to_seven-Describes_three =
    bounds-Describes two_to_seven (pos 3) (omega arith, omega arith) (omega arith) (omega arith)

around_zero-IsValid : IsValid around_zero
around_zero-IsValid = record {
  lower_in_range = (omega arith, omega arith);
  upper_in_range = (omega arith, omega arith);
}

two_to_seven-IsValid : IsValid two_to_seven
two_to_seven-IsValid = record {
  lower_in_range = (omega arith, omega arith);
  upper_in_range = (omega arith, omega arith);
}

around_zero-not_bottom : is_bottom around_zero ≡ false
unfolding is_bottom
around_zero-not_bottom = refl

two_to_seven-not_bottom : is_bottom two_to_seven ≡ false
unfolding is_bottom
two_to_seven-not_bottom = refl

mul_example : Contains (mul around_zero two_to_seven) (negsuc 1 *ℤ pos 4)
mul_example =
    mul_sound around_zero two_to_seven (negsuc 1) (pos 4) around_zero-Describes
      two_to_seven-Describes

div_negative_example :
    ¬ Contains
      (div (interval (negsuc 9) (negsuc 9)) (interval (pos 1) (pos 2)))
      (quot_ℤ (negsuc 9) (pos 1))
div_negative_example = div_unsound_negative 9 2 (omega arith) (omega arith)

less_than_value : less_than around_zero (interval (pos 6) (pos 7)) ≡ some true
unfolding less_than
less_than_value = refl

six_to_seven-Describes : Describes (interval (pos 6) (pos 7)) (pos 6)
six_to_seven-Describes =
    bounds-Describes (interval (pos 6) (pos 7)) (pos 6) (omega arith, omega arith) (omega arith)
      (omega arith)

widen_example :
    ((z : ℤ)
      → Describes (widen around_zero two_to_seven) z
      → Describes (interval (negsuc 9) (pos 9)) z)
    ↔ ((z : ℤ)
        → Describes around_zero z ⊎ Describes two_to_seven z
        → Describes (interval (negsuc 9) (pos 9)) z)
widen_example =
    widen_lub around_zero two_to_seven (interval (negsuc 9) (pos 9)) around_zero-IsValid
      two_to_seven-IsValid around_zero-not_bottom two_to_seven-not_bottom

contained_example :
    (is_contained_in around_zero i8 ≡ true) ↔ ((z : ℤ) → Contains around_zero z → HasType i8 z)
contained_example = is_contained_in_exact around_zero i8 around_zero-IsValid around_zero-not_bottom

width_value : is_contained_in_width_of two_to_seven u8 ≡ true
unfolding is_contained_in_width_of
width_value = refl
