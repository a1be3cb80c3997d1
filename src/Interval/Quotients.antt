-- ===== src/Interval/Quotients.antt =====
-- The transfer functions of checker/src/interval_domain.rs for `/` and `%`.
use hepha.Prelude.{
  arith, ℤ, pos, negsuc, ◌≤ℤ◌, ◌<ℤ◌, neg_parts, -ℤ_parts, ℕ, suc, ◌<◌, ◌≤◌, ◌/◌, ◌*◌, ◌^◌,
}
use hepha.Machine.{quot_ℤ, rem_ℤ}
use hepha.Interval.{IntervalDomain, rem, div, interval}
use hepha.Interval.Contains.{Contains, Describes, Describes-below, Describes-above}

rem_bounds :
    (x y : ℤ) → pos 0 ≤ℤ x → pos 0 <ℤ y → (pos 0 ≤ℤ rem_ℤ x y) × (rem_ℤ x y ≤ℤ x) × (rem_ℤ x y <ℤ y)
unfolding rem_ℤ
rem_bounds (pos a) (pos b) h k = grind arith
rem_bounds (pos a) (negsuc b) h k = absurd (omega arith)
rem_bounds (negsuc a) y h k = absurd (omega arith)

div_mono : (a b c d : ℕ) → a ≤ b → c ≤ d → 0 < c → a / d ≤ b / c
div_mono a b c d h k p = grind arith

quot_mono : (x y u l : ℤ) → pos 0 ≤ℤ x → x ≤ℤ u → pos 0 <ℤ l → l ≤ℤ y → quot_ℤ x y ≤ℤ quot_ℤ u l
unfolding quot_ℤ
quot_mono (pos a) (pos b) (pos c) (pos d) h k p q =
    omega (arith, div_mono a c d b (omega arith) (omega arith) (omega arith))
quot_mono (negsuc a) y u l h k p q = absurd (omega arith)
quot_mono x (negsuc b) u l h k p q = absurd (omega arith)
quot_mono x y (negsuc c) l h k p q = absurd (omega arith)
quot_mono x y u (negsuc l) h k p q = absurd (omega arith)

-- A quotient of a negative number is at most one of a number that is not.
quot_sign :
    (l u x y : ℤ) → pos 0 ≤ℤ x → pos 0 <ℤ u → pos 0 <ℤ y → l <ℤ pos 0 → quot_ℤ l u ≤ℤ quot_ℤ x y
unfolding quot_ℤ
quot_sign (negsuc a) (pos b) (pos c) (pos d) h k p q = ground (arith, neg_parts (pos (suc a / b)))
quot_sign (pos a) u x y h k p q = absurd (omega arith)
quot_sign l (negsuc b) x y h k p q = absurd (omega arith)
quot_sign l u (negsuc c) y h k p q = absurd (omega arith)
quot_sign l u x (negsuc d) h k p q = absurd (omega arith)

module _ (s o : IntervalDomain) (x y : ℤ) (h : Describes s x) (k : Describes o y) where
  -- The remainder of two `i128` values lies in the remainder of their intervals, whatever the signs.
  pub rem_sound : Contains (rem s o) (rem_ℤ x y)
  unfolding rem
  rem_sound = ground (
    arith,
    Describes-below s x h,
    Describes-above s x h,
    Describes-below o y k,
    Describes-above o y k,
    rem_bounds x y,
    -ℤ_parts o.upper (pos 1),
  )

  -- The quotient of two `i128` values lies in the quotient of their intervals, if the dividend is not
  -- negative.
  pub div_sound : pos 0 ≤ℤ x → Contains (div s o) (quot_ℤ x y)
  unfolding div
  div_sound p = ground (
    arith,
    Describes-below s x h,
    Describes-above s x h,
    Describes-below o y k,
    Describes-above o y k,
    quot_mono x y s.upper o.lower,
    quot_mono s.lower o.upper x y,
    quot_sign s.lower o.upper x y p,
  )

div-lt : (a m : ℕ) → 1 < m → (a / m) * 2 ≤ a
div-lt a m h = omega (arith, div_mono a a 2 m (omega arith) h (omega arith))

-- For a negative dividend the quotient is not sound: the interval of `-(n + 1)` over that of 1 to `m`
-- leaves out the value `-(n + 1) / 1`, for every `m` greater than 1.
pub div_unsound_negative :
    (n m : ℕ)
    → 1 < m
    → n < 2 ^ 127
    → ¬ Contains
        (div (interval (negsuc n) (negsuc n)) (interval (pos 1) (pos m)))
        (quot_ℤ (negsuc n) (pos 1))
unfolding div quot_ℤ
div_unsound_negative n m h l c =
    ground (arith, div-lt (suc n) m h, neg_parts (pos (suc n / m)), neg_parts (pos (suc n / 1)))
