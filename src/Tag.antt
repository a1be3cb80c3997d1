-- ===== src/Tag.antt =====
-- checker/src/tag_domain.rs: tags, and the ids of their declared types.
pub mod Laws
use Prim.Native.Nat
use hepha.Prelude.{ℕ, Bool, not, ◌==◌, ◌&&◌, ◌*◌, ◌+◌, ◌/◌, ◌%◌, ◌^◌}
use hepha.TagPropagation.{TagPropagation, ordinal}

pub record SerializableDefId : Type 0 where
  pub krate : ℕ
  pub index : ℕ

-- `(krate << 32) | index`, both `u32`s widened to `u64`.
unfoldable pub serialize : SerializableDefId → ℕ
serialize d = Nat.bit_or (d.krate * 2 ^ 32 % 2 ^ 64) d.index

-- `(def_id >> 32) as u32` and `(def_id & 0xffffffff) as u32`
unfoldable pub deserialize : ℕ → SerializableDefId
deserialize n = record { krate = n / 2 ^ 32 % 2 ^ 32; index = Nat.bit_and n 0xffff_ffff % 2 ^ 32 }

pub record Tag : Type 0 where
  pub def_id : SerializableDefId
  pub prop_set : ℕ

-- The derived `==`.
unfoldable pub eq_tag : Tag → Tag → Bool
eq_tag s t =
    s.def_id.krate == t.def_id.krate && s.def_id.index == t.def_id.index && s.prop_set == t.prop_set

unfoldable pub is_propagated_by : Tag → TagPropagation → Bool
is_propagated_by t p = not (Nat.bit_and t.prop_set (2 ^ ordinal p) == 0)
