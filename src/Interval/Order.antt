-- ===== src/Interval/Order.antt =====
-- The comparisons of checker/src/interval_domain.rs.
use hepha.Prelude.{arith, ◌≡◌, ℤ, some, Bool, leb_ℤ, ltb_ℤ}
use hepha.Interval.{IntervalDomain, less_than, less_equal, greater_than, greater_or_equal}
use hepha.Interval.Contains.{Describes, Describes-below, Describes-above}

-- An answer, where there is one, is that of the test at `x` and `y`.
module _ (s o : IntervalDomain) (x y : ℤ) (b : Bool) (h : Describes s x) (k : Describes o y) where
  -- Where `less_than` of two intervals has an answer, that is the answer of `x < y` for all their
  -- `i128` values.
  pub less_than_sound : less_than s o ≡ some b → ltb_ℤ x y ≡ b
  unfolding less_than
  less_than_sound e = ground (
    arith,
    Describes-below s x h,
    Describes-above s x h,
    Describes-below o y k,
    Describes-above o y k,
  )

  -- Where `less_equal` of two intervals has an answer, that is the answer of `x <= y` for all their
  -- `i128` values.
  pub less_equal_sound : less_equal s o ≡ some b → leb_ℤ x y ≡ b
  unfolding less_equal
  less_equal_sound e = ground (
    arith,
    Describes-below s x h,
    Describes-above s x h,
    Describes-below o y k,
    Describes-above o y k,
  )

  -- Where `greater_than` of two intervals has an answer, that is the answer of `x > y` for all their
  -- `i128` values.
  pub greater_than_sound : greater_than s o ≡ some b → ltb_ℤ y x ≡ b
  unfolding greater_than
  greater_than_sound e = ground (
    arith,
    Describes-below s x h,
    Describes-above s x h,
    Describes-below o y k,
    Describes-above o y k,
  )

  -- Where `greater_or_equal` of two intervals has an answer, that is the answer of `x >= y` for all their
  -- `i128` values.
  pub greater_or_equal_sound : greater_or_equal s o ≡ some b → leb_ℤ y x ≡ b
  unfolding greater_or_equal
  greater_or_equal_sound e = ground (
    arith,
    Describes-below s x h,
    Describes-above s x h,
    Describes-below o y k,
    Describes-above o y k,
  )
