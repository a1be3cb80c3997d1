-- ===== src/AbstractValues/Tests.antt =====
-- Abstract values of checker/src/abstract_value.rs at concrete values.
use hepha.Prelude.{arith, ℕ, ◌≡◌, refl, inl, Bool, ◌||◌, pos, if◌then◌else◌}
use hepha.Machine.{quot_ℤ}
use hepha.ExpressionType.{ExpressionType, bit_length}
use hepha.BoolDomain.{BoolDomain}
use hepha.TagPropagation.{TagPropagation}
use hepha.Tag.{Tag, eq_tag}
use hepha.Tag.Laws.{eq_tag_iff}
use hepha.TreeMap.{TreeMap, list_map}
use hepha.TagDomain.Meaning.{Stands}
use hepha.Constant.{ConstantDomain}
use hepha.Interval
use hepha.Interval.{is_bottom, from_type, from_i128}
use hepha.Interval.Contains.{Contains}
use hepha.Value.{Expression, AbstractValue, value, PathEnum, parameter}
use hepha.Value.Kinds.{get_tag_propagation}
use hepha.Value.Operands.{operands}
use hepha.Value.Codes.{eq_code}
use hepha.Value.Equality.{eq_path, of_path}
use hepha.AbstractValues.Intervals.{get_as_interval}
use hepha.AbstractValues.Evaluation.{to_quotient, to_cast, to_signed, to_alternate, to_variable}
use hepha.AbstractValues.Ranges.{get_as_interval_sound}
use hepha.AbstractValues.Uses.{uses}
use hepha.AbstractValues.Independence.{Agree, uses_sound}
use hepha.AbstractValues.Widened.{get_widened_subexpression}
use hepha.AbstractValues.Parts.{Searched, get_widened_subexpression_exact}
use hepha.AbstractValues.Tags.{get_tags}
use hepha.AbstractValues.Carries.{
  untagged, added, operation, none_left, one_more, union, propagated, no_tags,
}
use hepha.AbstractValues.Labels.{get_tags_sound}

-- A variable that the first parameter holds, and a condition that the second one holds.
abbrev number : AbstractValue
number = value (Expression.variable (parameter 1) ExpressionType.i8) 1

abbrev condition : AbstractValue
condition = value (Expression.variable (parameter 2) ExpressionType.bool) 1

abbrev two : AbstractValue
two = value (Expression.compile_time_constant (ConstantDomain.i128 (pos 2))) 1

abbrev sum : AbstractValue
sum = value (Expression.add number two) 2

-- `(if condition { 2 } else { number }) as u8`
abbrev narrowed : AbstractValue
narrowed =
    value
      (Expression.cast (value (Expression.conditional_expression condition two number) 2)
        ExpressionType.u8)
      3

abbrev three : AbstractValue
three = value (Expression.compile_time_constant (ConstantDomain.u128 3)) 1

abbrev four : AbstractValue
four = value (Expression.compile_time_constant (ConstantDomain.u128 4)) 1

abbrev three_or_four : AbstractValue
three_or_four = value (Expression.join three four) 2

abbrev widened : AbstractValue
widened = value (Expression.widened_join (parameter 1) three_or_four) 3

-- `(if condition { 2 } else { number }) as u8 / 2`
abbrev halved : AbstractValue
halved = value (Expression.div narrowed two) 4

interval_example : Contains (get_as_interval halved) (quot_ℤ (pos 5) (pos 2))
unfolding get_as_interval from_type from_i128 Interval.intersect Interval.widen Interval.div
    bit_length quot_ℤ
interval_example =
    get_as_interval_sound halved (quot_ℤ (pos 5) (pos 2))
      (to_quotient {x = pos 5} {y = pos 2} 4
        (to_cast {x = pos 5} {z = pos 5} ExpressionType.u8 3
          (to_alternate 2 (
            to_variable (parameter 1) ExpressionType.i8 1 (omega arith, omega arith)
              (omega arith, omega arith)))
          (omega arith, omega arith) (omega arith, omega arith) (0, inl refl))
        (to_signed 1 (omega arith, omega arith)) (omega arith, omega arith))
      (omega arith, (refl, tt), tt) refl

-- The value of a variable is 1 if it is one of the variables, and every other value is 0.
abbrev marked : (PathEnum → Bool) → AbstractValue → ℕ
marked variables (value (Expression.variable path _) _) = if variables path then 1 else 0
marked variables _ = 0

abbrev zero_value : AbstractValue → ℕ
zero_value _ = 0

abbrev first_parameter : PathEnum → Bool
first_parameter path = eq_path path (parameter 1)

marked-Agree : Agree first_parameter (marked first_parameter) zero_value
marked-Agree (Expression.variable path t) n top unread same = rw (unread path refl) refl
marked-Agree e n top unread same = refl

uses_example : marked first_parameter (value (Expression.add condition two) 2) ≡ 0
unfolding uses eq_path eq_code of_path
uses_example =
    uses_sound first_parameter (marked first_parameter) zero_value marked-Agree
      (value (Expression.add condition two) 2) refl

widened_example :
    Searched
      (parameter 1)
      (get_widened_subexpression (value (Expression.add widened two) 4) (parameter 1))
      (value (Expression.add widened two) 4)
widened_example =
    get_widened_subexpression_exact (parameter 1) (value (Expression.add widened two) 4)

-- Propagated by `add` alone.
abbrev tag : Tag
tag = record { def_id = record { krate = 3; index = 7 }; prop_set = 1 }

abbrev maps : TreeMap Tag BoolDomain
maps = list_map eq_tag eq_tag_iff

abbrev tags_of_sum : Tag → Bool
tags_of_sum =
    union (propagated TagPropagation.add (λ t. eq_tag tag t || no_tags t))
      (union (propagated TagPropagation.add no_tags) no_tags)

abbrev tagged_sum : AbstractValue
tagged_sum = value (Expression.add (value (Expression.tagged_expression two tag) 2) two) 3

tags_example : Stands maps (get_tags maps tagged_sum) tags_of_sum
unfolding get_tag_propagation operands list_map
tags_example = get_tags_sound maps tagged_sum tags_of_sum (
    operation TagPropagation.add 3 refl
      (one_more (added tag 2 (untagged 1 refl)) (one_more (untagged 1 refl) none_left)))
