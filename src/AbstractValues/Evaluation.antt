-- ===== src/AbstractValues/Evaluation.antt =====
-- checker/src/abstract_value.rs: the integers that an expression may evaluate to.
use hepha.Prelude.{
  arith, ◌≡◌, ◌⊎◌, ◌+◌, ◌*◌, pos_part, neg_part, ℕ, ◌^◌, ◌<◌, ◌≤◌, ℤ, pos, ◌≤ℤ◌, ◌+ℤ◌, ◌-ℤ◌, ◌*ℤ◌,
  neg_ℤ,
}
use Prim.Native.Nat.{bit_and}
use hepha.Prelude.Bits.{bit_and_le}
use hepha.Machine.{IsI128, quot_ℤ, rem_ℤ}
use hepha.ExpressionType.{ExpressionType, bit_length}
use hepha.Constant.{ConstantDomain}
use hepha.Tag.{Tag}
use hepha.Interval.Types.{HasType}
use hepha.Value.{
  Expression, AbstractValue, value, Cases, case_of, PathEnum, BitLength, bits_8, BitVectorIntrinsic,
}
use hepha.Value.InferType.{infer_type}
use hepha.AbstractValues.Intervals.{bit_count}

-- The result of a case of a switch.
pub data ResultOf : AbstractValue → Cases → Type 0 where
  first : {v w : AbstractValue} {cs : Cases} → ResultOf w (case_of v w cs)
  later : {u v w : AbstractValue} {cs : Cases} → ResultOf w cs → ResultOf w (case_of u v cs)

-- The difference of the two integers is a multiple of `m`; the sides of the equations are natural numbers.
abbrev pub DifferByMultiple : ℕ → ℤ → ℤ → Type 0
DifferByMultiple m x z =
    (k : ℕ) × ((pos_part x + neg_part z ≡ pos_part z + neg_part x + k * m)
      ⊎ (pos_part z + neg_part x ≡ pos_part x + neg_part z + k * m))

-- The expression may evaluate to the integer. All of them are `i128` values: an operation whose exact
-- result is none has no value, and the tests of an overflow speak of it. A cast takes a number of its
-- type that differs from the operand's by a multiple of the number of values of the type. A variable has a
-- value of its type, and a widened join has those of the operand's values that are of its type. The
-- other expressions have no integers here.
pub data Evaluates : AbstractValue → ℤ → Type 0 where
  to_sum :
      {l r : AbstractValue} {x y : ℤ} (n : ℕ)
      → Evaluates l x
      → Evaluates r y
      → IsI128 (x +ℤ y)
      → Evaluates (value (Expression.add l r) n) (x +ℤ y)
  to_difference :
      {l r : AbstractValue} {x y : ℤ} (n : ℕ)
      → Evaluates l x
      → Evaluates r y
      → IsI128 (x -ℤ y)
      → Evaluates (value (Expression.sub l r) n) (x -ℤ y)
  to_product :
      {l r : AbstractValue} {x y : ℤ} (n : ℕ)
      → Evaluates l x
      → Evaluates r y
      → IsI128 (x *ℤ y)
      → Evaluates (value (Expression.mul l r) n) (x *ℤ y)
  to_quotient :
      {l r : AbstractValue} {x y : ℤ} (n : ℕ)
      → Evaluates l x
      → Evaluates r y
      → IsI128 (quot_ℤ x y)
      → Evaluates (value (Expression.div l r) n) (quot_ℤ x y)
  to_remainder :
      {l r : AbstractValue} {x y : ℤ} (n : ℕ)
      → Evaluates l x
      → Evaluates r y
      → IsI128 (rem_ℤ x y)
      → Evaluates (value (Expression.rem l r) n) (rem_ℤ x y)
  to_negation :
      {v : AbstractValue} {x : ℤ} (n : ℕ)
      → Evaluates v x
      → IsI128 (neg_ℤ x)
      → Evaluates (value (Expression.neg v) n) (neg_ℤ x)
  to_masked :
      {r : AbstractValue} (v x m n : ℕ)
      → Evaluates r (pos x)
      → Evaluates
          (value
            (Expression.bit_and
              (value (Expression.compile_time_constant (ConstantDomain.u128 v)) m)
              r)
            n)
          (pos (bit_and v x))
  to_cast :
      {v : AbstractValue} {x z : ℤ} (t : ExpressionType) (n : ℕ)
      → Evaluates v x
      → HasType t z
      → IsI128 z
      → DifferByMultiple (2 ^ bit_length t) x z
      → Evaluates (value (Expression.cast v t) n) z
  to_signed :
      {z : ℤ} (n : ℕ)
      → IsI128 z
      → Evaluates (value (Expression.compile_time_constant (ConstantDomain.i128 z)) n) z
  to_unsigned :
      {u : ℕ} (n : ℕ)
      → u < 2 ^ 127
      → Evaluates (value (Expression.compile_time_constant (ConstantDomain.u128 u)) n) (pos u)
  to_consequent :
      {c l r : AbstractValue} {z : ℤ} (n : ℕ)
      → Evaluates l z
      → Evaluates (value (Expression.conditional_expression c l r) n) z
  to_alternate :
      {c l r : AbstractValue} {z : ℤ} (n : ℕ)
      → Evaluates r z
      → Evaluates (value (Expression.conditional_expression c l r) n) z
  to_left :
      {l r : AbstractValue} {z : ℤ} (n : ℕ)
      → Evaluates l z
      → Evaluates (value (Expression.join l r) n) z
  to_right :
      {l r : AbstractValue} {z : ℤ} (n : ℕ)
      → Evaluates r z
      → Evaluates (value (Expression.join l r) n) z
  to_default :
      {d v : AbstractValue} {cs : Cases} {z : ℤ} (n : ℕ)
      → Evaluates d z
      → Evaluates (value (Expression.switch v cs d) n) z
  to_case :
      {d v w : AbstractValue} {cs : Cases} {z : ℤ} (n : ℕ)
      → ResultOf w cs
      → Evaluates w z
      → Evaluates (value (Expression.switch v cs d) n) z
  to_count :
      {v : AbstractValue} (k : ℕ) (bit_length : BitLength) (name : BitVectorIntrinsic) (n : ℕ)
      → k ≤ bit_count bit_length
      → Evaluates (value (Expression.intrinsic_bit_vector_unary v bit_length name) n) (pos k)
  to_tagged :
      {v : AbstractValue} {z : ℤ} (t : Tag) (n : ℕ)
      → Evaluates v z
      → Evaluates (value (Expression.tagged_expression v t) n) z
  to_variable :
      {z : ℤ} (p : PathEnum) (t : ExpressionType) (n : ℕ)
      → HasType t z
      → IsI128 z
      → Evaluates (value (Expression.variable p t) n) z
  to_widened :
      {e : Expression} {z : ℤ} (p : PathEnum) (m n : ℕ)
      → Evaluates (value e m) z
      → HasType (infer_type e) z
      → Evaluates (value (Expression.widened_join p (value e m)) n) z

-- In the evaluation each cast keeps the value, and no dividend of a division is negative.
abbrev pub Plain : {v : AbstractValue} {z : ℤ} → Evaluates v z → Type 0
Plain (to_sum n h k i) = Plain h × Plain k
Plain (to_difference n h k i) = Plain h × Plain k
Plain (to_product n h k i) = Plain h × Plain k
Plain (to_quotient {x = x} n h k i) = (pos 0 ≤ℤ x) × Plain h × Plain k
Plain (to_remainder n h k i) = Plain h × Plain k
Plain (to_negation n h i) = Plain h
Plain (to_masked v x m n h) = Plain h
Plain (to_cast {x = x} {z = z} t n h k i e) = (z ≡ x) × Plain h
Plain (to_signed n i) = Unit {0}
Plain (to_unsigned n i) = Unit {0}
Plain (to_consequent n h) = Plain h
Plain (to_alternate n h) = Plain h
Plain (to_left n h) = Plain h
Plain (to_right n h) = Plain h
Plain (to_default n h) = Plain h
Plain (to_case n r h) = Plain h
Plain (to_count k bit_length name n h) = Unit {0}
Plain (to_tagged t n h) = Plain h
Plain (to_variable p t n h i) = Unit {0}
Plain (to_widened p m n h k) = Plain h

pub count_range : (k : ℕ) (bit_length : BitLength) → k ≤ bit_count bit_length → IsI128 (pos k)
count_range k bits_8 h = ground arith
count_range k _ h = ground arith

pub Evaluates-IsI128 : {v : AbstractValue} {z : ℤ} → Evaluates v z → IsI128 z
Evaluates-IsI128 (to_sum n h k r) = r
Evaluates-IsI128 (to_difference n h k r) = r
Evaluates-IsI128 (to_product n h k r) = r
Evaluates-IsI128 (to_quotient n h k r) = r
Evaluates-IsI128 (to_remainder n h k r) = r
Evaluates-IsI128 (to_negation n h r) = r
Evaluates-IsI128 (to_masked v x m n h) = ground (arith, bit_and_le v x, Evaluates-IsI128 h)
Evaluates-IsI128 (to_cast t n h k i e) = i
Evaluates-IsI128 (to_signed n r) = r
Evaluates-IsI128 (to_unsigned n r) = ground arith
Evaluates-IsI128 (to_consequent n h) = Evaluates-IsI128 h
Evaluates-IsI128 (to_alternate n h) = Evaluates-IsI128 h
Evaluates-IsI128 (to_left n h) = Evaluates-IsI128 h
Evaluates-IsI128 (to_right n h) = Evaluates-IsI128 h
Evaluates-IsI128 (to_default n h) = Evaluates-IsI128 h
Evaluates-IsI128 (to_case n c h) = Evaluates-IsI128 h
Evaluates-IsI128 (to_count k bit_length name n h) = count_range k bit_length h
Evaluates-IsI128 (to_tagged t n h) = Evaluates-IsI128 h
Evaluates-IsI128 (to_variable p t n h r) = r
Evaluates-IsI128 (to_widened p m n h k) = Evaluates-IsI128 h
