-- ===== src/AbstractValues/Covers.antt =====
-- The intervals of checker/src/interval_domain.rs as the evaluation of expressions uses them: what each
-- operation on known intervals covers.
use hepha.Prelude.{
  neither, arith, ◌≡◌, ◌⊎◌, inl, inr, refl, ℕ, ◌^◌, ◌<◌, ◌≤◌, Bool, true, false, ◌||◌, ◌&&◌, ltb,
  ◌-◌, ◌+◌, ℤ, pos, ◌≤ℤ◌, ◌+ℤ◌, ◌-ℤ◌, ◌*ℤ◌, neg_ℤ, if◌then◌else◌,
}
use hepha.Machine.{IsI128, quot_ℤ, rem_ℤ}
use hepha.ExpressionType.{ExpressionType}
use hepha.Interval.{
  IntervalDomain, bottom, from_i128, from_u128, from_type, is_bottom, add, sub, mul, div, rem, neg,
  intersect, widen,
}
use hepha.Interval.Contains.{Contains, Describes}
use hepha.Interval.Bounds.{lower_bound, upper_bound, remove_lower_bound, remove_upper_bound}
use hepha.Interval.Sums.{add_sound, sub_sound, neg_sound}
use hepha.Interval.Product.{mul_sound}
use hepha.Interval.Quotients.{rem_sound, div_sound}
use hepha.Interval.Lattice.{intersect_exact, widen_keeps}
use hepha.Interval.Types.{HasType, from_type_sound, from_u128_sound}
use hepha.Value.{BitLength, bits_8}
use hepha.AbstractValues.Intervals.{
  mask_interval, is_power_below, same_bound, bit_count, widened_interval,
}

-- A value that an interval, if it is known, describes.
abbrev pub Covers : IntervalDomain → ℤ → Type 0
Covers s z = is_bottom s ≡ false → Describes s z

-- What is no `bottom` by its first test has passed the test.
pub passed :
    (b : Bool) (s : IntervalDomain) → is_bottom (if b then bottom else s) ≡ false → b ≡ false
unfolding is_bottom
passed b s h = ground arith

module _ (s o : IntervalDomain) (x y : ℤ) (h : Covers s x) (k : Covers o y) where
  -- An operation that is bottom where an operand is, and is right elsewhere.
  pub binary-Covers :
      (r : IntervalDomain) (z : ℤ)
      → (is_bottom (if is_bottom s || is_bottom o then bottom else r) ≡ false
          → Describes s x
          → Describes o y
          → Contains (if is_bottom s || is_bottom o then bottom else r) z)
      → IsI128 z
      → Covers (if is_bottom s || is_bottom o then bottom else r) z
  binary-Covers r z f i e =
      let known = neither (is_bottom s) (is_bottom o) (passed (is_bottom s || is_bottom o) r e) in
      record { contains = f e (h known.0) (k known.1); in_range = i }

-- Both intervals are known where their widening is.
pub widened_operands :
    (s o : IntervalDomain)
    → is_bottom (widen s o) ≡ false
    → (is_bottom s ≡ false) × (is_bottom o ≡ false)
unfolding widen
widened_operands s o h =
    neither (is_bottom s) (is_bottom o) (passed (is_bottom s || is_bottom o) _ h)

pub intersected_operands :
    (s o : IntervalDomain)
    → is_bottom (intersect s o) ≡ false
    → (is_bottom s ≡ false) × (is_bottom o ≡ false)
unfolding intersect
intersected_operands s o h =
    neither (is_bottom s) (is_bottom o) (passed (is_bottom s || is_bottom o) _ h)

pub widen-Covers : (s o : IntervalDomain) (z : ℤ) → Covers s z ⊎ Covers o z → Covers (widen s o) z
widen-Covers s o z (inl h) e =
    let known = widened_operands s o e in widen_keeps s o known.0 known.1 z (inl (h known.0))
widen-Covers s o z (inr h) e =
    let known = widened_operands s o e in widen_keeps s o known.0 known.1 z (inr (h known.1))

pub intersect-Covers :
    (s o : IntervalDomain) (z : ℤ) → Covers s z → Covers o z → Covers (intersect s o) z
intersect-Covers s o z h k e =
    let known = intersected_operands s o e in
    (intersect_exact s o z known.0 known.1).1 (h known.0, k known.1)

pub from_type-Covers :
    (t : ExpressionType) (z : ℤ) → HasType t z → IsI128 z → Covers (from_type t) z
from_type-Covers t z h i e = record { contains = from_type_sound t z h; in_range = i }

module _ (s o : IntervalDomain) (x y : ℤ) (h : Covers s x) (k : Covers o y) where
  pub add-Covers : IsI128 (x +ℤ y) → Covers (add s o) (x +ℤ y)
  unfolding add
  add-Covers = binary-Covers s o x y h k _ (x +ℤ y) (λ e p q. add_sound s o x y p q)

  pub sub-Covers : IsI128 (x -ℤ y) → Covers (sub s o) (x -ℤ y)
  unfolding sub
  sub-Covers = binary-Covers s o x y h k _ (x -ℤ y) (λ e p q. sub_sound s o x y p q)

  pub mul-Covers : IsI128 (x *ℤ y) → Covers (mul s o) (x *ℤ y)
  unfolding mul
  mul-Covers = binary-Covers s o x y h k _ (x *ℤ y) (λ e p q. mul_sound s o x y p q)

  pub rem-Covers : IsI128 (rem_ℤ x y) → Covers (rem s o) (rem_ℤ x y)
  unfolding rem
  rem-Covers = binary-Covers s o x y h k _ (rem_ℤ x y) (λ e p q. rem_sound s o x y p q)

  pub div-Covers : pos 0 ≤ℤ x → IsI128 (quot_ℤ x y) → Covers (div s o) (quot_ℤ x y)
  unfolding div
  div-Covers p = binary-Covers s o x y h k _ (quot_ℤ x y) (λ e q r. div_sound s o x y q r p)

pub neg-Covers :
    (s : IntervalDomain) (x : ℤ) → Covers s x → IsI128 (neg_ℤ x) → Covers (neg s) (neg_ℤ x)
unfolding neg
neg-Covers s x h i e = record {
  contains = neg_sound s x (h (passed (is_bottom s) _ e));
  in_range = i;
}

pub signed-Covers : (z : ℤ) → IsI128 z → Covers (from_i128 z) z
unfolding from_i128
signed-Covers z i e = record {
  contains = record { below = inl (omega arith); above = inl (omega arith) };
  in_range = i;
}

pub from_u128-Covers : (u : ℕ) → u < 2 ^ 127 → Covers (from_u128 u) (pos u)
from_u128-Covers u h e = record {
  contains = from_u128_sound u (omega arith);
  in_range = ground arith;
}

-- The numbers up to a bound.
pub up_to-Covers :
    (u k : ℕ) → u < 2 ^ 127 → k ≤ u → Covers (widen (from_u128 0) (from_u128 u)) (pos k)
unfolding from_u128 widen
up_to-Covers u k h l e = record {
  contains = record { below = ground arith; above = ground arith };
  in_range = ground arith;
}

pub bottom-Covers : (z : ℤ) → Covers bottom z
unfolding is_bottom
bottom-Covers z e = absurd (ground arith)

-- Each arm covers what it is chosen for.
pub choose :
    (b : Bool) (s t : IntervalDomain) (z : ℤ)
    → (b ≡ true → Covers s z)
    → (b ≡ false → Covers t z)
    → Covers (if b then s else t) z
choose true s t z h k = h refl
choose false s t z h k = k refl

pub mask-Covers : (v k : ℕ) → k ≤ v → Covers (mask_interval v) (pos k)
unfolding mask_interval
mask-Covers v k l =
    choose (ltb v (2 ^ 127 - 1) && is_power_below 128 (v + 1)) (widen (from_u128 0) (from_u128 v))
      bottom (pos k) (λ e. up_to-Covers v k (below v (is_power_below 128 (v + 1)) e) l)
      (λ e. bottom-Covers (pos k))
  where
    below : (v : ℕ) (c : Bool) → (ltb v (2 ^ 127 - 1) && c) ≡ true → v < 2 ^ 127
    below v c e = ground arith

pub count-Covers :
    (bit_length : BitLength) (k : ℕ)
    → k ≤ bit_count bit_length
    → Covers (widen (from_u128 0) (from_u128 (bit_count bit_length))) (pos k)
count-Covers bits_8 k h = up_to-Covers 8 k (omega arith) h
count-Covers b k h = up_to-Covers (bit_count b) k (omega arith) h

-- Dropping a bound keeps what the interval covers.
pub remove_upper-Covers :
    (s : IntervalDomain) (z : ℤ)
    → is_bottom s ≡ false
    → Covers s z
    → Covers (remove_upper_bound s) z
unfolding remove_upper_bound
remove_upper-Covers s z b h e =
    let d = h b in
    record {
      contains = record { below = d.contains.below; above = inr refl };
      in_range = d.in_range;
    }

pub remove_lower-Covers :
    (s : IntervalDomain) (z : ℤ)
    → is_bottom s ≡ false
    → Covers s z
    → Covers (remove_lower_bound s) z
unfolding remove_lower_bound
remove_lower-Covers s z b h e =
    let d = h b in
    record {
      contains = record { below = inr refl; above = d.contains.above };
      in_range = d.in_range;
    }

pub widened-Covers :
    (s l : IntervalDomain) (t : ExpressionType) (z : ℤ)
    → Covers s z
    → HasType t z
    → IsI128 z
    → Covers (widened_interval s l t) z
unfolding widened_interval
widened-Covers s l t z h k i =
    let typed = from_type-Covers t z k i in
    choose (is_bottom s) s _ z (λ e. h)
      (λ known.
        choose (is_bottom l) bottom _ z (λ e. bottom-Covers z)
          (λ e.
            choose (same_bound (lower_bound l) (lower_bound s))
              (intersect (remove_upper_bound s) (from_type t)) _ z
              (λ e.
                intersect-Covers (remove_upper_bound s) (from_type t) z
                  (remove_upper-Covers s z known h) typed)
              (λ e.
                choose (same_bound (upper_bound l) (upper_bound s))
                  (intersect (remove_lower_bound s) (from_type t)) s z
                  (λ e.
                    intersect-Covers (remove_lower_bound s) (from_type t) z
                      (remove_lower-Covers s z known h) typed)
                  (λ e. h))))
