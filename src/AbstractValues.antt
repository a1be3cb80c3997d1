-- ===== src/AbstractValues.antt =====
-- checker/src/abstract_value.rs: tests and orders on abstract values. Each function has the name of the
-- method that it models. The transfer functions, which simplify expressions, are not modelled.
pub mod Truth
pub mod Sets
pub mod Intervals
pub mod Evaluation
pub mod Covers
pub mod Ranges
pub mod Uses
pub mod Widened
pub mod Independence
pub mod Parts
pub mod Tags
pub mod Carries
pub mod Labels
pub mod StateTests
pub mod Tests
use mathlib.Core.Bool
use mathlib.Core.Option
use hepha.Prelude.{Bool, not, ◌&&◌, ◌||◌, Option, none, some, if◌then◌else◌}
use hepha.BoolDomain
use hepha.BoolDomain.{BoolDomain}
use hepha.Constant.{ConstantDomain}
use hepha.Value.{
  Expression, AbstractValue, value, PathEnum, top, bottom, and, or, logical_not,
  compile_time_constant, conditional_expression, join, widened_join, heap_block, offset, reference,
  switch, initial_parameter_value, variable,
}
use hepha.Value.Equality.{eq_expression, eq_path}
use hepha.Value.InferType

-- A new value without cached domain elements.
abbrev pub make_value : Expression → AbstractValue
make_value e = value e 1

abbrev pub bottom_value : AbstractValue
bottom_value = make_value bottom

abbrev pub true_value : AbstractValue
true_value = make_value (compile_time_constant ConstantDomain.true)

abbrev pub false_value : AbstractValue
false_value = make_value (compile_time_constant ConstantDomain.false)

abbrev pub top_value : AbstractValue
top_value = make_value top

-- `From<bool>`
unfoldable pub from_bool : Bool → AbstractValue
from_bool Bool.true = true_value
from_bool Bool.false = false_value

-- `From<ConstantDomain>`
unfoldable pub from_constant : ConstantDomain → AbstractValue
from_constant ConstantDomain.bottom = bottom_value
from_constant c = make_value (compile_time_constant c)

-- `From<BoolDomain>`
unfoldable pub from_bool_domain : BoolDomain → AbstractValue
from_bool_domain BoolDomain.bottom = bottom_value
from_bool_domain BoolDomain.true = true_value
from_bool_domain BoolDomain.false = false_value
from_bool_domain BoolDomain.top = top_value

-- `AbstractValue::eq`, which compares the expressions only.
unfoldable pub eq_value : AbstractValue → AbstractValue → Bool
eq_value (value l m) (value r n) = eq_expression l r

unfoldable pub is_bottom : AbstractValue → Bool
is_bottom (value bottom n) = Bool.true
is_bottom _ = Bool.false

unfoldable pub is_top : AbstractValue → Bool
is_top (value e n) = InferType.is_top e

unfoldable pub as_bool_if_known : AbstractValue → Option Bool
as_bool_if_known (value (compile_time_constant ConstantDomain.true) n) = some Bool.true
as_bool_if_known (value (compile_time_constant ConstantDomain.false) n) = some Bool.false
as_bool_if_known _ = none

abbrev pub unwrap_or : Option Bool → Bool → Bool
unwrap_or none d = d
unwrap_or (some b) d = b

-- The tests that `implies` and `implies_not` begin with.
unfoldable pub is_unknown : AbstractValue → AbstractValue → Bool
unfolding is_bottom is_top
is_unknown s o = is_bottom s || is_top s || is_bottom o || is_top o

-- The first two tests of `implies`, before it looks at the operands of the two values.
unfoldable pub known_implication : AbstractValue → AbstractValue → Bool → Bool
unfolding is_unknown as_bool_if_known
known_implication s o rest =
    if is_unknown s o
    then Bool.false
    else if unwrap_or (as_bool_if_known o) Bool.false
        || not (unwrap_or (as_bool_if_known s) Bool.true)
        || eq_value s o
    then Bool.true
    else rest

-- `implies` for a `self` that is no conjunction.
unfoldable pub implies_disjunct : AbstractValue → AbstractValue → Bool
implies_disjunct s (value (or l r) n) =
    let x = implies_disjunct s l in
    let y = implies_disjunct s r in known_implication s (value (or l r) n) (x || y)
implies_disjunct s o = known_implication s o Bool.false

unfoldable pub implies : AbstractValue → AbstractValue → Bool
implies (value (and l r) m) o =
    let x = implies l o in let y = implies r o in known_implication (value (and l r) m) o (x || y)
implies s o = implies_disjunct s o

unfoldable pub negates : AbstractValue → AbstractValue → Bool
negates (value (logical_not operand) n) o = eq_value operand o
negates _ o = Bool.false

unfoldable pub implies_not : AbstractValue → AbstractValue → Bool
unfolding is_unknown as_bool_if_known negates
implies_not s o =
    if is_unknown s o
    then Bool.false
    else if not (unwrap_or (as_bool_if_known o) Bool.true)
        || not (unwrap_or (as_bool_if_known s) Bool.true)
    then Bool.true
    else negates s o

-- `inverse_implies_not` for a `self` that is no disjunction.
unfoldable pub inverse_implies_not_conjunct : AbstractValue → AbstractValue → Bool
inverse_implies_not_conjunct s (value (and l r) n) =
    let x = inverse_implies_not_conjunct s l in
    eq_value s (value (and l r) n) || x || implies_not s r
inverse_implies_not_conjunct s o = eq_value s o

unfoldable pub inverse_implies_not : AbstractValue → AbstractValue → Bool
inverse_implies_not (value (or l r) m) o =
    let x = inverse_implies_not l o in
    let y = inverse_implies_not r o in eq_value (value (or l r) m) o || x || y
inverse_implies_not s o = inverse_implies_not_conjunct s o

-- `subset` where `self` has no case of its own.
unfoldable pub plain_subset : AbstractValue → AbstractValue → Bool
plain_subset s (value top n) = Bool.true
plain_subset s (value (conditional_expression c l r) n) =
    let x = plain_subset s l in
    let y = plain_subset s r in eq_value s (value (conditional_expression c l r) n) || x || y
plain_subset s (value (widened_join q r) n) =
    let x = plain_subset s r in eq_value s (value (widened_join q r) n) || x
plain_subset s (value (join l r) n) =
    let x = plain_subset s l in
    let y = plain_subset s r in eq_value s (value (join l r) n) || (x && y)
plain_subset s o = eq_value s o

-- `subset` where `self` is a widened join; `operand_subset` is the test of its operand.
unfoldable pub widened_subset : AbstractValue → (AbstractValue → Bool) → AbstractValue → Bool
widened_subset s operand_subset (value top n) = Bool.true
widened_subset s operand_subset (value (conditional_expression c l r) n) =
    let x = widened_subset s operand_subset l in
    let y = widened_subset s operand_subset r in
    eq_value s (value (conditional_expression c l r) n) || x || y
widened_subset s operand_subset (value (widened_join q r) n) =
    eq_value s (value (widened_join q r) n) || operand_subset r
widened_subset s operand_subset (value (join l r) n) =
    let x = widened_subset s operand_subset l in
    let y = widened_subset s operand_subset r in eq_value s (value (join l r) n) || (x && y)
widened_subset s operand_subset o = eq_value s o

-- `subset` where `self` is a join; `operands_subset` is the test of its two operands.
unfoldable pub join_subset : AbstractValue → (AbstractValue → Bool) → AbstractValue → Bool
join_subset s operands_subset (value bottom n) = eq_value s (value bottom n)
join_subset s operands_subset (value top n) = Bool.true
join_subset s operands_subset (value (conditional_expression c l r) n) =
    let x = join_subset s operands_subset l in
    let y = join_subset s operands_subset r in
    eq_value s (value (conditional_expression c l r) n) || x || y
join_subset s operands_subset (value (widened_join q r) n) =
    let x = join_subset s operands_subset r in eq_value s (value (widened_join q r) n) || x
join_subset s operands_subset o = eq_value s o || operands_subset o

-- `subset` where `self` is a conditional; `operands_subset` is the test of its two branches.
unfoldable pub conditional_subset : AbstractValue → (AbstractValue → Bool) → AbstractValue → Bool
conditional_subset s operands_subset (value bottom n) = eq_value s (value bottom n)
conditional_subset s operands_subset (value top n) = Bool.true
conditional_subset s operands_subset o = eq_value s o || operands_subset o

-- `subset` where `self` is the universal set.
unfoldable pub top_subset : AbstractValue → AbstractValue → Bool
top_subset s (value top n) = Bool.true
top_subset s o = eq_value s o

unfoldable pub subset : AbstractValue → AbstractValue → Bool
subset (value bottom m) o = Bool.true
subset (value top m) o = top_subset (value top m) o
subset (value (conditional_expression c l r) m) o =
    conditional_subset (value (conditional_expression c l r) m) (λ v. subset l v && subset r v) o
subset (value (widened_join p l) m) o =
    widened_subset (value (widened_join p l) m) (λ v. subset l v) o
subset (value (join l r) m) o = join_subset (value (join l r) m) (λ v. subset l v && subset r v) o
subset s o = plain_subset s o

unfoldable pub get_is_non_null : AbstractValue → Bool
get_is_non_null (value (conditional_expression c l r) n) = get_is_non_null l && get_is_non_null r
get_is_non_null (value (join l r) n) = get_is_non_null l && get_is_non_null r
get_is_non_null (value (offset l r) n) = get_is_non_null l
get_is_non_null (value (reference p) n) = Bool.true
get_is_non_null (value (widened_join p l) n) = get_is_non_null l
get_is_non_null _ = Bool.false
