-- ===== src/AbstractValues/Tags.antt =====
-- checker/src/abstract_value.rs: the tags of an abstract value.
use hepha.BoolDomain.{BoolDomain}
use hepha.TagPropagation.{TagPropagation}
use hepha.Tag.{Tag}
use hepha.TreeMap.{TreeMap}
use hepha.TagDomain
use hepha.TagDomain.{TagDomain, empty_set, add_tag, propagate_through}
use hepha.Value.{
  AbstractValue, value, Cases, no_cases, case_of, Values, no_values, value_and, top, bottom, add,
  add_overflows, and, bit_and, bit_not, bit_or, bit_xor, cast, compile_time_constant,
  conditional_expression, div, equals, greater_or_equal, greater_than, heap_block,
  heap_block_layout, initial_parameter_value, intrinsic_binary, intrinsic_bit_vector_unary,
  intrinsic_floating_point_unary, join, less_or_equal, less_than, logical_not, memcmp, mul,
  mul_overflows, ne, neg, or, offset, reference, rem, shl, shl_overflows, shr, shr_overflows, sub,
  sub_overflows, switch, tagged_expression, transmute, uninterpreted_call, unknown_model_field,
  unknown_tag_check, unknown_tag_field, variable, widened_join,
}

module _ (M : TreeMap Tag BoolDomain) where
  -- The tags of two operands, of which the operation propagates some.
  unfoldable pub binary_tags : TagPropagation → TagDomain M → TagDomain M → TagDomain M
  binary_tags exp_tag_prop left right =
      TagDomain.or M (propagate_through M left exp_tag_prop)
        (propagate_through M right exp_tag_prop)

  unfoldable mutual
    pub get_tags : AbstractValue → TagDomain M
    get_tags (value top _) = empty_set M
    get_tags (value bottom _) = empty_set M
    get_tags (value (add l r) _) = binary_tags TagPropagation.add (get_tags l) (get_tags r)
    get_tags (value (add_overflows l r _) _) =
        binary_tags TagPropagation.add_overflows (get_tags l) (get_tags r)
    get_tags (value (and l r) _) = binary_tags TagPropagation.and (get_tags l) (get_tags r)
    get_tags (value (bit_and l r) _) = binary_tags TagPropagation.bit_and (get_tags l) (get_tags r)
    get_tags (value (bit_not l _) _) = propagate_through M (get_tags l) TagPropagation.bit_not
    get_tags (value (bit_or l r) _) = binary_tags TagPropagation.bit_or (get_tags l) (get_tags r)
    get_tags (value (bit_xor l r) _) = binary_tags TagPropagation.bit_xor (get_tags l) (get_tags r)
    get_tags (value (cast l _) _) = propagate_through M (get_tags l) TagPropagation.cast
    get_tags (value (compile_time_constant _) _) = empty_set M
    get_tags (value (conditional_expression l r s) _) =
        TagDomain.or M (get_tags l) (TagDomain.join M (get_tags r) (get_tags s))
    get_tags (value (div l r) _) = binary_tags TagPropagation.div (get_tags l) (get_tags r)
    get_tags (value (equals l r) _) = binary_tags TagPropagation.equals (get_tags l) (get_tags r)
    get_tags (value (greater_or_equal l r) _) =
        binary_tags TagPropagation.greater_or_equal (get_tags l) (get_tags r)
    get_tags (value (greater_than l r) _) =
        binary_tags TagPropagation.greater_than (get_tags l) (get_tags r)
    get_tags (value (heap_block _ _) _) = empty_set M
    get_tags (value (heap_block_layout _ _ _) _) = empty_set M
    get_tags (value (initial_parameter_value _ _) _) = TagDomain.top M
    get_tags (value (intrinsic_binary l r _) _) =
        binary_tags TagPropagation.intrinsic_binary (get_tags l) (get_tags r)
    get_tags (value (intrinsic_bit_vector_unary l _ _) _) =
        propagate_through M (get_tags l) TagPropagation.intrinsic_bit_vector_unary
    get_tags (value (intrinsic_floating_point_unary l _) _) =
        propagate_through M (get_tags l) TagPropagation.intrinsic_floating_point_unary
    get_tags (value (join l r) _) = TagDomain.join M (get_tags l) (get_tags r)
    get_tags (value (less_or_equal l r) _) =
        binary_tags TagPropagation.less_or_equal (get_tags l) (get_tags r)
    get_tags (value (less_than l r) _) =
        binary_tags TagPropagation.less_than (get_tags l) (get_tags r)
    get_tags (value (logical_not l) _) = propagate_through M (get_tags l) TagPropagation.logical_not
    get_tags (value (memcmp l r s) _) =
        TagDomain.or M (binary_tags TagPropagation.memcmp (get_tags l) (get_tags r))
          (propagate_through M (get_tags s) TagPropagation.memcmp)
    get_tags (value (mul l r) _) = binary_tags TagPropagation.mul (get_tags l) (get_tags r)
    get_tags (value (mul_overflows l r _) _) =
        binary_tags TagPropagation.mul_overflows (get_tags l) (get_tags r)
    get_tags (value (ne l r) _) = binary_tags TagPropagation.ne (get_tags l) (get_tags r)
    get_tags (value (neg l) _) = propagate_through M (get_tags l) TagPropagation.neg
    get_tags (value (or l r) _) = binary_tags TagPropagation.or (get_tags l) (get_tags r)
    get_tags (value (offset l r) _) = binary_tags TagPropagation.offset (get_tags l) (get_tags r)
    get_tags (value (reference _) _) = empty_set M
    get_tags (value (rem l r) _) = binary_tags TagPropagation.rem (get_tags l) (get_tags r)
    get_tags (value (shl l r) _) = binary_tags TagPropagation.shl (get_tags l) (get_tags r)
    get_tags (value (shl_overflows l r _) _) =
        binary_tags TagPropagation.shl_overflows (get_tags l) (get_tags r)
    get_tags (value (shr l r) _) = binary_tags TagPropagation.shr (get_tags l) (get_tags r)
    get_tags (value (shr_overflows l r _) _) =
        binary_tags TagPropagation.shr_overflows (get_tags l) (get_tags r)
    get_tags (value (sub l r) _) = binary_tags TagPropagation.sub (get_tags l) (get_tags r)
    get_tags (value (sub_overflows l r _) _) =
        binary_tags TagPropagation.sub_overflows (get_tags l) (get_tags r)
    get_tags (value (switch l cases r) _) =
        TagDomain.or M (get_tags l) (case_tags (get_tags r) cases)
    get_tags (value (tagged_expression l tag) _) = add_tag M (get_tags l) tag
    get_tags (value (transmute l _) _) = propagate_through M (get_tags l) TagPropagation.transmute
    get_tags (value (uninterpreted_call l args _ _) _) =
        argument_tags (propagate_through M (get_tags l) TagPropagation.uninterpreted_call) args
    get_tags (value (unknown_model_field _ _) _) = TagDomain.top M
    get_tags (value (unknown_tag_check _ _ _) _) = empty_set M
    get_tags (value (unknown_tag_field _) _) = TagDomain.top M
    get_tags (value (variable _ _) _) = TagDomain.top M
    get_tags (value (widened_join _ l) _) = get_tags l

    -- The loop over the cases of a switch.
    pub case_tags : TagDomain M → Cases → TagDomain M
    case_tags tags no_cases = tags
    case_tags tags (case_of _ r cases) = case_tags (TagDomain.join M tags (get_tags r)) cases

    -- The loop over the arguments of a call.
    pub argument_tags : TagDomain M → Values → TagDomain M
    argument_tags tags no_values = tags
    argument_tags tags (value_and l args) =
        argument_tags
          (TagDomain.or M tags (propagate_through M (get_tags l) TagPropagation.uninterpreted_call))
          args
