-- ===== src/Constant.antt =====
-- checker/src/constant_domain.rs: constants and their transfer functions on integers, Booleans and
-- floating point numbers. What the hardware does with floating point numbers is a parameter. The
-- wrap-around of `i128` and `u128` is written out.
pub mod Overflow
pub mod Cast
pub mod Checked
pub mod Exact
pub mod Casts
pub mod Bits
pub mod Parts
pub mod Equality
pub mod Tests
use mathlib.Core.Bool
use Prim.Native.String.{String}
use hepha.Prelude.{
  ℕ, suc, ◌^◌, ◌%◌, ◌/◌, ◌*◌, ◌-◌, ◌==◌, Bool, Option, none, some, if◌then◌else◌, ℤ, pos, negsuc,
  ◌+ℤ◌, ◌-ℤ◌, ◌*ℤ◌, neg_ℤ, eqb_ℤ, ◌&&◌, ◌||◌,
}
use hepha.Machine.{quot_ℤ, rem_ℤ, i128_min, i128_max}
use hepha.Machine.Words.{to_unsigned, to_signed, signed, fits_signed}

-- `ConstantDomain`; a function reference is a number that stands for it.
pub data ConstantDomain : Type 0 where
  bottom : ConstantDomain
  char : ℕ → ConstantDomain
  false : ConstantDomain
  function : ℕ → ConstantDomain
  i128 : ℤ → ConstantDomain
  f64 f32 f16 : ℕ → ConstantDomain
  str : String → ConstantDomain
  true : ConstantDomain
  u128 : ℕ → ConstantDomain
  unimplemented unit : ConstantDomain

-- The floating point types.
pub data Format : Type 0 where
  half single double : Format

-- The operations on floating point numbers, given by their bits. `to_i128` and `to_u128` are the casts
-- with `as`, and so are `from_i128` and `from_u128`.
pub record Floats : Type 0 where
  pub add : Format → ℕ → ℕ → ℕ
  pub sub : Format → ℕ → ℕ → ℕ
  pub mul : Format → ℕ → ℕ → ℕ
  pub div : Format → ℕ → ℕ → ℕ
  pub rem : Format → ℕ → ℕ → ℕ
  pub neg : Format → ℕ → ℕ
  pub eq : Format → ℕ → ℕ → Bool
  pub convert : Format → Format → ℕ → ℕ
  pub to_i128 : Format → ℕ → ℤ
  pub to_u128 : Format → ℕ → ℕ
  pub from_i128 : Format → ℤ → ℕ
  pub from_u128 : Format → ℕ → ℕ

unfoldable pub from_bool : Bool → ConstantDomain
from_bool Bool.true = true
from_bool Bool.false = false

unfoldable pub as_bool_if_known : ConstantDomain → Option Bool
as_bool_if_known true = some Bool.true
as_bool_if_known false = some Bool.false
as_bool_if_known _ = none

unfoldable pub and : ConstantDomain → ConstantDomain → ConstantDomain
and false false = false
and false true = false
and true false = false
and true true = true
and _ _ = bottom

unfoldable pub or : ConstantDomain → ConstantDomain → ConstantDomain
or false false = false
or false true = true
or true false = true
or true true = true
or _ _ = bottom

unfoldable pub logical_not : ConstantDomain → ConstantDomain
logical_not false = true
logical_not true = false
logical_not _ = bottom

-- `wrapping_add` and the like, of `i128` and of `u128`.
abbrev pub wrap_i128 : ℤ → ConstantDomain
wrap_i128 z = i128 (to_signed 127 z)

abbrev pub wrap_u128 : ℤ → ConstantDomain
wrap_u128 z = u128 (to_unsigned 128 z)

module _ (floats : Floats) where
  unfoldable pub add : ConstantDomain → ConstantDomain → ConstantDomain
  add (f16 val1) (f16 val2) = f16 (floats.add half val1 val2)
  add (f32 val1) (f32 val2) = f32 (floats.add single val1 val2)
  add (f64 val1) (f64 val2) = f64 (floats.add double val1 val2)
  add (i128 val1) (i128 val2) = wrap_i128 (val1 +ℤ val2)
  add (u128 val1) (u128 val2) = wrap_u128 (pos val1 +ℤ pos val2)
  add _ _ = bottom

  unfoldable pub sub : ConstantDomain → ConstantDomain → ConstantDomain
  sub (f16 val1) (f16 val2) = f16 (floats.sub half val1 val2)
  sub (f32 val1) (f32 val2) = f32 (floats.sub single val1 val2)
  sub (f64 val1) (f64 val2) = f64 (floats.sub double val1 val2)
  sub (i128 val1) (i128 val2) = wrap_i128 (val1 -ℤ val2)
  sub (u128 val1) (u128 val2) = wrap_u128 (pos val1 -ℤ pos val2)
  sub _ _ = bottom

  unfoldable pub mul : ConstantDomain → ConstantDomain → ConstantDomain
  mul (f16 val1) (f16 val2) = f16 (floats.mul half val1 val2)
  mul (f32 val1) (f32 val2) = f32 (floats.mul single val1 val2)
  mul (f64 val1) (f64 val2) = f64 (floats.mul double val1 val2)
  mul (i128 val1) (i128 val2) = wrap_i128 (val1 *ℤ val2)
  mul (u128 val1) (u128 val2) = wrap_u128 (pos val1 *ℤ pos val2)
  mul _ _ = bottom

  -- `checked_div` of `i128` fails also for the least value divided by -1.
  unfoldable pub div : ConstantDomain → ConstantDomain → ConstantDomain
  div (f16 val1) (f16 val2) = f16 (floats.div half val1 val2)
  div (f32 val1) (f32 val2) = f32 (floats.div single val1 val2)
  div (f64 val1) (f64 val2) = f64 (floats.div double val1 val2)
  div (i128 val1) (i128 val2) =
      if eqb_ℤ val2 (pos 0)
      then bottom
      else if eqb_ℤ val1 i128_min && eqb_ℤ val2 (negsuc 0)
      then bottom
      else i128 (quot_ℤ val1 val2)
  div (u128 val1) (u128 val2) = if val2 == 0 then bottom else u128 (val1 / val2)
  div _ _ = bottom

  -- `wrapping_rem` by -1 is 0, which is what the remainder gives.
  unfoldable pub rem : ConstantDomain → ConstantDomain → ConstantDomain
  rem (f16 val1) (f16 val2) = f16 (floats.rem half val1 val2)
  rem (f32 val1) (f32 val2) = f32 (floats.rem single val1 val2)
  rem (f64 val1) (f64 val2) = f64 (floats.rem double val1 val2)
  rem (i128 val1) (i128 val2) = if eqb_ℤ val2 (pos 0) then bottom else i128 (rem_ℤ val1 val2)
  rem (u128 val1) (u128 val2) = if val2 == 0 then bottom else u128 (val1 % val2)
  rem _ _ = bottom

  unfoldable pub neg : ConstantDomain → ConstantDomain
  neg (f32 val) = f32 (floats.neg single val)
  neg (f64 val) = f64 (floats.neg double val)
  neg (i128 val) = wrap_i128 (neg_ℤ val)
  neg (u128 val) = wrap_u128 (neg_ℤ (pos val))
  neg _ = bottom
