-- ===== src/TagPropagation.antt =====
-- annotations/src/lib.rs: which operations propagate a tag, as the bits of a `u128`.
use Prim.Native.Nat
use hepha.Prelude.{ℕ, ◌-◌, ◌^◌, List, [], ◌∷◌}

-- The variants of the enum, in their order.
pub data TagPropagation : Type 0 where
  add add_overflows and bit_and bit_not bit_or bit_xor cast div equals : TagPropagation
  greater_or_equal greater_than intrinsic_binary intrinsic_bit_vector_unary : TagPropagation
  intrinsic_floating_point_unary less_or_equal less_than logical_not memcmp mul : TagPropagation
  mul_overflows ne neg or offset rem shl shl_overflows shr shr_overflows sub : TagPropagation
  sub_component sub_overflows super_component transmute uninterpreted_call : TagPropagation

-- `self as u8`
unfoldable pub ordinal : TagPropagation → ℕ
ordinal add = 0
ordinal add_overflows = 1
ordinal and = 2
ordinal bit_and = 3
ordinal bit_not = 4
ordinal bit_or = 5
ordinal bit_xor = 6
ordinal cast = 7
ordinal div = 8
ordinal equals = 9
ordinal greater_or_equal = 10
ordinal greater_than = 11
ordinal intrinsic_binary = 12
ordinal intrinsic_bit_vector_unary = 13
ordinal intrinsic_floating_point_unary = 14
ordinal less_or_equal = 15
ordinal less_than = 16
ordinal logical_not = 17
ordinal memcmp = 18
ordinal mul = 19
ordinal mul_overflows = 20
ordinal ne = 21
ordinal neg = 22
ordinal or = 23
ordinal offset = 24
ordinal rem = 25
ordinal shl = 26
ordinal shl_overflows = 27
ordinal shr = 28
ordinal shr_overflows = 29
ordinal sub = 30
ordinal sub_component = 31
ordinal sub_overflows = 32
ordinal super_component = 33
ordinal transmute = 34
ordinal uninterpreted_call = 35

-- `1 << (self as u8)`
unfoldable pub into_set : TagPropagation → ℕ
into_set p = 2 ^ ordinal p

unfoldable pub add_propagation : ℕ → TagPropagation → ℕ
unfolding into_set
add_propagation set p = Nat.bit_or set (into_set p)

-- `!` of a `u128` is its complement within 128 bits.
unfoldable pub remove_propagation : ℕ → TagPropagation → ℕ
unfolding into_set
remove_propagation set p = Nat.bit_and set (2 ^ 128 - 1 - into_set p)

-- The bitwise-or of all arguments of the macro.
unfoldable pub tag_propagation_set : List TagPropagation → ℕ
tag_propagation_set [] = 0
tag_propagation_set (p ∷ ps) = Nat.bit_or (2 ^ ordinal p) (tag_propagation_set ps)

-- The arguments of `TAG_PROPAGATION_ALL`.
abbrev pub all_propagations : List TagPropagation
all_propagations =
    add ∷ add_overflows ∷ and ∷ bit_and ∷ bit_not ∷ bit_or ∷ bit_xor ∷ cast ∷ div ∷ equals
    ∷ greater_or_equal ∷ greater_than ∷ intrinsic_binary ∷ intrinsic_bit_vector_unary
    ∷ intrinsic_floating_point_unary ∷ less_or_equal ∷ less_than ∷ logical_not ∷ memcmp ∷ mul
    ∷ mul_overflows ∷ ne ∷ neg ∷ or ∷ offset ∷ rem ∷ shl ∷ shl_overflows ∷ shr ∷ shr_overflows ∷ sub
    ∷ sub_component ∷ sub_overflows ∷ super_component ∷ transmute ∷ uninterpreted_call ∷ []

unfoldable pub tag_propagation_all : ℕ
unfolding tag_propagation_set
tag_propagation_all = tag_propagation_set all_propagations
