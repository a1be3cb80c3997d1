-- ===== src/AbstractValues/Intervals.antt =====
-- checker/src/abstract_value.rs: the interval of an abstract value. Where nothing is known the interval
-- is the bottom one.
use hepha.Prelude.{
  ℕ, zero, suc, ◌+◌, ◌-◌, ◌^◌, Bool, false, ◌&&◌, ◌||◌, ◌==◌, Option, some, if◌then◌else◌, ℤ, ltb,
  eqb_ℤ,
}
use hepha.ExpressionType.{ExpressionType}
use hepha.Constant.{ConstantDomain}
use hepha.Interval.{
  IntervalDomain, bottom, from_i128, from_u128, from_type, is_bottom, add, sub, mul, div, rem, neg,
  intersect, widen,
}
use hepha.Interval.Bounds.{lower_bound, upper_bound, remove_lower_bound, remove_upper_bound}
use hepha.Value.{
  Expression, AbstractValue, value, Cases, no_cases, case_of, BitLength, bits_8, bits_16, bits_32,
  bits_64, bits_128, bitreverse, bswap,
}
use hepha.Value.InferType.{infer_type}

-- `n.is_power_of_two()`, for a power below the `k`th.
abbrev pub is_power_below : ℕ → ℕ → Bool
is_power_below zero n = false
is_power_below (suc k) n = n == 2 ^ k || is_power_below k n

-- The interval of `v & x`.
unfoldable pub mask_interval : ℕ → IntervalDomain
unfolding from_u128 widen
mask_interval v =
    if ltb v (2 ^ 127 - 1) && is_power_below 128 (v + 1)
    then widen (from_u128 0) (from_u128 v)
    else bottom

abbrev pub bit_count : BitLength → ℕ
bit_count bits_8 = 8
bit_count bits_16 = 16
bit_count bits_32 = 32
bit_count bits_64 = 64
bit_count bits_128 = 128

-- `matches!((a, b), (Some(x), Some(y)) if x == y)`
abbrev pub same_bound : Option ℤ → Option ℤ → Bool
same_bound (some a) (some b) = eqb_ℤ a b
same_bound _ _ = false

-- The interval of the widening of a join of this type, from the intervals of the join and of its left
-- operand.
unfoldable pub widened_interval : IntervalDomain → IntervalDomain → ExpressionType → IntervalDomain
unfolding is_bottom lower_bound upper_bound remove_lower_bound remove_upper_bound
widened_interval interval left_interval target_type =
    if is_bottom interval
    then interval
    else if is_bottom left_interval
    then bottom
    else if same_bound (lower_bound left_interval) (lower_bound interval)
    then intersect (remove_upper_bound interval) (from_type target_type)
    else if same_bound (upper_bound left_interval) (upper_bound interval)
    then intersect (remove_lower_bound interval) (from_type target_type)
    else interval

unfoldable mutual
  pub get_as_interval : AbstractValue → IntervalDomain
  get_as_interval (value (Expression.add l r) _) = add (get_as_interval l) (get_as_interval r)
  get_as_interval
        (value
          (Expression.bit_and
            (value (Expression.compile_time_constant (ConstantDomain.u128 v)) _)
            _)
          _) =
      mask_interval v
  get_as_interval (value (Expression.cast operand target_type) _) =
      intersect (get_as_interval operand) (from_type target_type)
  get_as_interval (value (Expression.compile_time_constant (ConstantDomain.i128 val)) _) =
      from_i128 val
  get_as_interval (value (Expression.compile_time_constant (ConstantDomain.u128 val)) _) =
      from_u128 val
  get_as_interval (value (Expression.conditional_expression _ l r) _) =
      widen (get_as_interval l) (get_as_interval r)
  get_as_interval (value (Expression.div l r) _) = div (get_as_interval l) (get_as_interval r)
  get_as_interval (value (Expression.intrinsic_bit_vector_unary _ bit_length bitreverse) _) = bottom
  get_as_interval (value (Expression.intrinsic_bit_vector_unary _ bit_length bswap) _) = bottom
  get_as_interval (value (Expression.intrinsic_bit_vector_unary _ bit_length _) _) =
      widen (from_u128 0) (from_u128 (bit_count bit_length))
  get_as_interval (value (Expression.join l r) _) = widen (get_as_interval l) (get_as_interval r)
  get_as_interval (value (Expression.mul l r) _) = mul (get_as_interval l) (get_as_interval r)
  get_as_interval (value (Expression.neg operand) _) = neg (get_as_interval operand)
  get_as_interval (value (Expression.rem l r) _) = rem (get_as_interval l) (get_as_interval r)
  get_as_interval (value (Expression.sub l r) _) = sub (get_as_interval l) (get_as_interval r)
  get_as_interval (value (Expression.switch _ cases default) _) =
      cases_interval (get_as_interval default) cases
  get_as_interval (value (Expression.tagged_expression operand _) _) = get_as_interval operand
  get_as_interval (value (Expression.variable _ var_type) _) = from_type var_type
  get_as_interval (value (Expression.widened_join _ (value (Expression.join l r) m)) _) =
      widened_interval (get_as_interval (value (Expression.join l r) m)) (get_as_interval l)
        (infer_type (Expression.join l r))
  get_as_interval (value (Expression.widened_join _ operand) _) = get_as_interval operand
  get_as_interval _ = bottom

  -- The fold over the results of the cases.
  pub cases_interval : IntervalDomain → Cases → IntervalDomain
  cases_interval acc no_cases = acc
  cases_interval acc (case_of _ result cases) =
      cases_interval (widen acc (get_as_interval result)) cases
