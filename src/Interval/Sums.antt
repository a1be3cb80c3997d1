-- ===== src/Interval/Sums.antt =====
-- The transfer functions of checker/src/interval_domain.rs for sums, differences and negation.
use hepha.Prelude.{arith, ℤ, ◌≤ℤ◌, ◌+ℤ◌, ◌-ℤ◌, neg_ℤ, neg_parts, +ℤ_parts, -ℤ_parts}
use hepha.Machine.{saturate, saturating_add, saturating_sub, checked_neg}
use hepha.Interval.{IntervalDomain, add, sub, neg}
use hepha.Interval.Contains.{Contains, AtLeast, AtMost, Describes, Describes-below, Describes-above}

pub saturate-AtLeast : (a z : ℤ) → a ≤ℤ z → AtLeast (saturate a) z
unfolding saturate
saturate-AtLeast a z h = ground arith

pub saturate-AtMost : (a z : ℤ) → z ≤ℤ a → AtMost (saturate a) z
unfolding saturate
saturate-AtMost a z h = ground arith

module _ (s o : IntervalDomain) (x y : ℤ) (h : Describes s x) (k : Describes o y) where
  -- The sum of two `i128` values lies in the sum of their intervals, also where it is no `i128`.
  pub add_sound : Contains (add s o) (x +ℤ y)
  unfolding add saturating_add
  add_sound = ground (
    arith,
    Describes-below s x h,
    Describes-above s x h,
    Describes-below o y k,
    Describes-above o y k,
    saturate-AtLeast (s.lower +ℤ o.lower) (x +ℤ y),
    saturate-AtMost (s.upper +ℤ o.upper) (x +ℤ y),
    +ℤ_parts x y,
    +ℤ_parts s.lower o.lower,
    +ℤ_parts s.upper o.upper,
  )

  -- The difference of two `i128` values lies in the difference of their intervals.
  pub sub_sound : Contains (sub s o) (x -ℤ y)
  unfolding sub saturating_sub
  sub_sound = ground (
    arith,
    Describes-below s x h,
    Describes-above s x h,
    Describes-below o y k,
    Describes-above o y k,
    saturate-AtLeast (s.lower -ℤ o.upper) (x -ℤ y),
    saturate-AtMost (s.upper -ℤ o.lower) (x -ℤ y),
    -ℤ_parts x y,
    -ℤ_parts s.lower o.upper,
    -ℤ_parts s.upper o.lower,
  )

-- The negation of an `i128` value lies in the negated interval; `-i128::MIN` does, too.
pub neg_sound : (s : IntervalDomain) (x : ℤ) → Describes s x → Contains (neg s) (neg_ℤ x)
unfolding neg checked_neg
neg_sound s x h = ground (
  arith,
  Describes-below s x h,
  Describes-above s x h,
  neg_parts x,
  neg_parts s.lower,
  neg_parts s.upper,
)
