-- ===== src/AbstractValues/Ranges.antt =====
-- checker/src/abstract_value.rs: the interval of an expression against the integers that the expression
-- may evaluate to.
use hepha.Prelude.{◌≡◌, inl, inr, false, ℤ, pos}
use Prim.Native.Nat.{bit_and}
use hepha.Prelude.Bits.{bit_and_le}
use hepha.Interval.{IntervalDomain, from_type, is_bottom, widen}
use hepha.Interval.Contains.{Contains}
use hepha.Value.{Expression, AbstractValue, value, Cases, no_cases, case_of, bitreverse, bswap}
use hepha.Value.InferType.{infer_type}
use hepha.AbstractValues.Intervals.{get_as_interval, cases_interval}
use hepha.AbstractValues.Evaluation.{
  ResultOf, first, later, Evaluates, Plain, to_sum, to_difference, to_product, to_quotient,
  to_remainder, to_negation, to_masked, to_cast, to_signed, to_unsigned, to_consequent,
  to_alternate, to_left, to_right, to_default, to_case, to_count, to_tagged, to_variable,
  to_widened, Evaluates-IsI128,
}
use hepha.AbstractValues.Covers.{
  Covers, widen-Covers, intersect-Covers, from_type-Covers, add-Covers, sub-Covers, mul-Covers,
  rem-Covers, div-Covers, neg-Covers, signed-Covers, from_u128-Covers, bottom-Covers, mask-Covers,
  count-Covers, widened-Covers,
}

cases-Covers-acc :
    (acc : IntervalDomain) (cs : Cases) (z : ℤ) → Covers acc z → Covers (cases_interval acc cs) z
unfolding get_as_interval
cases-Covers-acc acc no_cases z h = h
cases-Covers-acc acc (case_of v w cs) z h =
    cases-Covers-acc (widen acc (get_as_interval w)) cs z
      (widen-Covers acc (get_as_interval w) z (inl h))

cases-Covers :
    {w : AbstractValue} (acc : IntervalDomain) (cs : Cases) (z : ℤ)
    → ResultOf w cs
    → Covers (get_as_interval w) z
    → Covers (cases_interval acc cs) z
unfolding get_as_interval
cases-Covers acc no_cases z r h = elim r [ ]
cases-Covers acc (case_of v w cs) z first h =
    cases-Covers-acc (widen acc (get_as_interval w)) cs z
      (widen-Covers acc (get_as_interval w) z (inr h))
cases-Covers acc (case_of v w cs) z (later r) h =
    cases-Covers (widen acc (get_as_interval w)) cs z r h

covered : {v : AbstractValue} {z : ℤ} (h : Evaluates v z) → Plain h → Covers (get_as_interval v) z
unfolding get_as_interval
covered (to_sum {l = l} {r = r} {x = x} {y = y} n h k i) (a, b) =
    add-Covers (get_as_interval l) (get_as_interval r) x y (covered h a) (covered k b) i
covered (to_difference {l = l} {r = r} {x = x} {y = y} n h k i) (a, b) =
    sub-Covers (get_as_interval l) (get_as_interval r) x y (covered h a) (covered k b) i
covered (to_product {l = l} {r = r} {x = x} {y = y} n h k i) (a, b) =
    mul-Covers (get_as_interval l) (get_as_interval r) x y (covered h a) (covered k b) i
covered (to_quotient {l = l} {r = r} {x = x} {y = y} n h k i) (p, a, b) =
    div-Covers (get_as_interval l) (get_as_interval r) x y (covered h a) (covered k b) p i
covered (to_remainder {l = l} {r = r} {x = x} {y = y} n h k i) (a, b) =
    rem-Covers (get_as_interval l) (get_as_interval r) x y (covered h a) (covered k b) i
covered (to_negation {v = v} {x = x} n h i) p = neg-Covers (get_as_interval v) x (covered h p) i
covered (to_masked v x m n h) p = mask-Covers v (bit_and v x) (bit_and_le v x).0
covered (to_cast {v = v} {x = x} {z = z} t n h k i e) (same, p) =
    intersect-Covers (get_as_interval v) (from_type t) z (rw same (covered h p))
      (from_type-Covers t z k i)
covered (to_signed {z = z} n i) p = signed-Covers z i
covered (to_unsigned {u = u} n i) p = from_u128-Covers u i
covered (to_consequent {c = c} {l = l} {r = r} {z = z} n h) p =
    widen-Covers (get_as_interval l) (get_as_interval r) z (inl (covered h p))
covered (to_alternate {c = c} {l = l} {r = r} {z = z} n h) p =
    widen-Covers (get_as_interval l) (get_as_interval r) z (inr (covered h p))
covered (to_left {l = l} {r = r} {z = z} n h) p =
    widen-Covers (get_as_interval l) (get_as_interval r) z (inl (covered h p))
covered (to_right {l = l} {r = r} {z = z} n h) p =
    widen-Covers (get_as_interval l) (get_as_interval r) z (inr (covered h p))
covered (to_default {d = d} {v = v} {cs} {z = z} n h) p =
    cases-Covers-acc (get_as_interval d) cs z (covered h p)
covered (to_case {d = d} {v = v} {w = w} {cs} {z = z} n r h) p =
    cases-Covers (get_as_interval d) cs z r (covered h p)
covered (to_count {v = v} k bit_length bitreverse n h) p = bottom-Covers (pos k)
covered (to_count {v = v} k bit_length bswap n h) p = bottom-Covers (pos k)
covered (to_count {v = v} k bit_length name n h) p = count-Covers bit_length k h
covered (to_tagged t n h) p = covered h p
covered (to_variable {z = z} p t n h i) q = from_type-Covers t z h i
covered (to_widened {e = Expression.join l r} {z = z} path m n h k) p =
    widened-Covers (get_as_interval (value (Expression.join l r) m)) (get_as_interval l)
      (infer_type (Expression.join l r)) z (covered h p) k (Evaluates-IsI128 h)
covered (to_widened {e = e} {z = z} path m n h k) p = covered h p

-- Each integer that an expression evaluates to, by an evaluation in which each cast keeps the value and no
-- dividend is negative, lies in the expression's interval, where the interval is known. The evaluations
-- have `i128` numbers only, and a widened join evaluates only to what its operand does, within its type.
pub get_as_interval_sound :
    (v : AbstractValue) (z : ℤ) (h : Evaluates v z)
    → Plain h
    → is_bottom (get_as_interval v) ≡ false
    → Contains (get_as_interval v) z
get_as_interval_sound v z h p e = (covered h p e).contains
