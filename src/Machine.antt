-- ===== src/Machine.antt =====
-- The integers of the Rust language that the checker computes with: ranges, saturating and checked
-- operations, truncated division. `isize` and `usize` have 64 bits, as `bit_length` of
-- checker/src/expression.rs says.
pub mod Words
use hepha.Prelude.{
  ℕ, suc, ◌-◌, ◌/◌, ◌%◌, ◌^◌, Option, none, some, if◌then◌else◌, ℤ, pos, negsuc, ◌+ℤ◌, ◌-ℤ◌, ◌*ℤ◌,
  ltb_ℤ, eqb_ℤ, neg_ℤ, ◌≤ℤ◌,
}

-- The least and the greatest value of a signed type of `suc w` bits.
abbrev pub int_min : ℕ → ℤ
int_min w = negsuc (2 ^ w - 1)

abbrev pub int_max : ℕ → ℤ
int_max w = pos (2 ^ w - 1)

abbrev pub i128_min : ℤ
i128_min = int_min 127

abbrev pub i128_max : ℤ
i128_max = int_max 127

-- A value of an `i128` variable.
abbrev pub IsI128 : ℤ → Type 0
IsI128 z = (i128_min ≤ℤ z) × (z ≤ℤ i128_max)

-- The nearest `i128`.
unfoldable pub saturate : ℤ → ℤ
saturate z = if ltb_ℤ z i128_min then i128_min else if ltb_ℤ i128_max z then i128_max else z

-- `saturating_add`, `saturating_sub` and `saturating_mul` of `i128`.
unfoldable pub saturating_add : ℤ → ℤ → ℤ
saturating_add a b = saturate (a +ℤ b)

unfoldable pub saturating_sub : ℤ → ℤ → ℤ
saturating_sub a b = saturate (a -ℤ b)

unfoldable pub saturating_mul : ℤ → ℤ → ℤ
saturating_mul a b = saturate (a *ℤ b)

-- `checked_neg` of `i128`.
unfoldable pub checked_neg : ℤ → Option ℤ
checked_neg a = if eqb_ℤ a i128_min then none else some (neg_ℤ a)

-- `/` and `%` of a signed type, for a divisor other than 0: the quotient is truncated towards 0, and
-- the remainder has the sign of the dividend.
unfoldable pub quot_ℤ : ℤ → ℤ → ℤ
quot_ℤ (pos a) (pos b) = pos (a / b)
quot_ℤ (pos a) (negsuc b) = neg_ℤ (pos (a / suc b))
quot_ℤ (negsuc a) (pos b) = neg_ℤ (pos (suc a / b))
quot_ℤ (negsuc a) (negsuc b) = pos (suc a / suc b)

unfoldable pub rem_ℤ : ℤ → ℤ → ℤ
rem_ℤ (pos a) (pos b) = pos (a % b)
rem_ℤ (pos a) (negsuc b) = pos (a % suc b)
rem_ℤ (negsuc a) (pos b) = neg_ℤ (pos (suc a % b))
rem_ℤ (negsuc a) (negsuc b) = neg_ℤ (pos (suc a % suc b))
