-- ===== src/Tag/Laws.antt =====
-- Tags of checker/src/tag_domain.rs and the propagation sets of annotations/src/lib.rs.
use Prim.Native.Nat
use Prim.Native.Nat.{min, max}
use hepha.Prelude.{
  if◌then◌else◌, ℕ, arith, ◌≡◌, ◌∙◌, ◌↔◌, ◌==◌, Bool, true, not, ◌||◌, ◌&&◌, ◌<◌, ◌^◌, ◌-◌, ◌*◌,
  ◌+◌,
}
use hepha.Prelude.Bits.{
  digit, weight, weight-pow, bit_and-weight, weight-pos, digit-bit_or, digit-bit_and,
  digit-weight_self, digit-weight_ne, digit-complement, bit_or_disjoint, bit_and_mask, digit-lt,
  weight_mono,
}
use hepha.TagPropagation.{
  TagPropagation, ordinal, add_propagation, remove_propagation, tag_propagation_all,
}
use hepha.Tag.{SerializableDefId, serialize, deserialize, Tag, eq_tag, is_propagated_by}

pub eq_tag_iff : (s t : Tag) → (eq_tag s t ≡ true) ↔ (s ≡ t)
unfolding eq_tag
eq_tag_iff s t = ground arith

-- A definition id reads back from the `u64` that it is written as, if both parts are `u32`s.
pub deserialize-serialize :
    (d : SerializableDefId) → d.krate < 2 ^ 32 → d.index < 2 ^ 32 → deserialize (serialize d) ≡ d
unfolding deserialize serialize
deserialize-serialize d h k =
    ground (arith, bit_or_disjoint 32 d.krate d.index, bit_and_mask 32 (d.krate * 2 ^ 32 + d.index))

-- A tag is propagated by an operation exactly if the set has the digit of that operation.
propagated-digit :
    (t : Tag) (p : TagPropagation) → is_propagated_by t p ≡ not (digit (ordinal p) t.prop_set == 0)
unfolding is_propagated_by
propagated-digit t p = ground (
  arith,
  weight-pow (ordinal p),
  bit_and-weight t.prop_set (ordinal p),
  weight-pos (ordinal p),
  digit-lt (ordinal p) t.prop_set,
)

ordinal-lt : (p : TagPropagation) → ordinal p < 36
unfolding ordinal
ordinal-lt TagPropagation.add = omega arith
ordinal-lt _ = omega arith

-- A tag with the given propagation set.
abbrev pub with_set : Tag → ℕ → Tag
with_set t s = record t { prop_set = s }

digit-weight : (k j : ℕ) → digit k (weight j) ≡ (if k == j then 1 else 0)
digit-weight k j = ground (arith, digit-weight_self k, digit-weight_ne k j)

digit_or : (d : ℕ) (b : Bool) → not (max d (if b then 1 else 0) == 0) ≡ (b || not (d == 0))
digit_or d b = ground arith

digit_and :
    (d : ℕ) (b : Bool) → not (min d (1 - (if b then 1 else 0)) == 0) ≡ (not b && not (d == 0))
digit_and d b = ground arith

-- After `add_propagation` the tag is propagated by the added operation and by those by which it was
-- propagated before, and by no other.
pub add_propagation_lem :
    (t : Tag) (p q : TagPropagation)
    → is_propagated_by (with_set t (add_propagation t.prop_set p)) q
      ≡ (ordinal q == ordinal p || is_propagated_by t q)
unfolding add_propagation
add_propagation_lem t p q =
    let w = weight-pow (ordinal p) in
    propagated-digit (with_set t (Nat.bit_or t.prop_set (2 ^ ordinal p))) q
    ∙ rw
        (
          ← w,
          digit-bit_or (ordinal q) t.prop_set (weight (ordinal p)),
          digit-weight,
          propagated-digit t q,
        )
        (digit_or (digit (ordinal q) t.prop_set) (ordinal q == ordinal p))

-- After `remove_propagation` the tag is propagated by the operations by which it was propagated
-- before, without the removed one.
pub remove_propagation_lem :
    (t : Tag) (p q : TagPropagation)
    → is_propagated_by (with_set t (remove_propagation t.prop_set p)) q
      ≡ (not (ordinal q == ordinal p) && is_propagated_by t q)
unfolding remove_propagation
remove_propagation_lem t p q =
    let w = weight-pow (ordinal p) in
    let c =
      digit-complement 128 (ordinal q) (weight (ordinal p)) (omega (arith, ordinal-lt q))
        (weight_mono (ordinal p) 128 (omega (arith, ordinal-lt p))) in
    propagated-digit (with_set t (Nat.bit_and t.prop_set (2 ^ 128 - 1 - 2 ^ ordinal p))) q
    ∙ rw (← w, digit-bit_and (ordinal q) t.prop_set _, c, digit-weight, propagated-digit t q)
        (digit_and (digit (ordinal q) t.prop_set) (ordinal q == ordinal p))

-- Every operation propagates a tag with the set of all propagations.
pub propagation_all_lem :
    (t : Tag) (p : TagPropagation) → t.prop_set ≡ tag_propagation_all → is_propagated_by t p ≡ true
unfolding tag_propagation_all is_propagated_by ordinal
propagation_all_lem t TagPropagation.add e = rw e
propagation_all_lem t _ e = rw e
