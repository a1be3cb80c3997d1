-- ===== src/Interval/Contains.antt =====
-- What an interval of checker/src/interval_domain.rs says about an integer.
use hepha.Prelude.{arith, ◌≡◌, ◌⊎◌, ℤ, ◌≤ℤ◌}
use hepha.Machine.{i128_min, i128_max, IsI128}
use hepha.Interval.{IntervalDomain}

-- The least `i128` as a lower bound says nothing, nor does the greatest as an upper bound.
abbrev pub AtLeast : ℤ → ℤ → Type 0
AtLeast l z = (l ≤ℤ z) ⊎ (l ≡ i128_min)

abbrev pub AtMost : ℤ → ℤ → Type 0
AtMost u z = (z ≤ℤ u) ⊎ (u ≡ i128_max)

pub record Contains (s : IntervalDomain) (z : ℤ) : Type 0 where
  pub below : AtLeast s.lower z
  pub above : AtMost s.upper z

-- A value of an `i128` variable that the interval contains.
pub record Describes (s : IntervalDomain) (z : ℤ) : Type 0 where
  pub contains : Contains s z
  pub in_range : IsI128 z

pub Describes-below : (s : IntervalDomain) (z : ℤ) → Describes s z → s.lower ≤ℤ z
Describes-below s z h = ground arith

pub Describes-above : (s : IntervalDomain) (z : ℤ) → Describes s z → z ≤ℤ s.upper
Describes-above s z h = ground arith
