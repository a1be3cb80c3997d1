-- ===== src/Constant/Parts.antt =====
-- The low and the high part of the bits of a constant, and its complement, in
-- checker/src/constant_domain.rs.
use hepha.Prelude.{arith, ℕ, ◌%◌, ◌/◌, ◌*◌, ◌-◌, ◌^◌, ◌<◌, ◌≡◌, ap, ◌∙◌, Bool, pos}
use native.Mathlib.Nat.{mod-eq_of_lt, div-add-mod'}
use hepha.Prelude.Bits.{weight-pow, bit_and_mask}
use Prim.Native.Nat
use hepha.Constant.{u128}
use hepha.ExpressionType.{ExpressionType, is_unsigned_integer, bit_length}
use hepha.Constant.Checked.{fits}
use hepha.Constant.Bits.{bit_not, unsigned_modulo, unsigned_shift_left, unsigned_shift_right}

mask : (k a : ℕ) → Nat.bit_and a (2 ^ k - 1) ≡ a % 2 ^ k
mask k a = rw (← weight-pow k) (bit_and_mask k a)

-- Below 128 bits `unsigned_modulo` gives the low part of an unsigned constant, and a shift to the right
-- and back the number without its low part; the two parts add up to the number.
pub parts :
    (val num_bits : ℕ)
    → val < 2 ^ 128
    → num_bits < 128
    → (unsigned_modulo (u128 val) num_bits ≡ u128 (val % 2 ^ num_bits))
      × (unsigned_shift_left (unsigned_shift_right (u128 val) num_bits) num_bits
          ≡ u128 (val - val % 2 ^ num_bits))
unfolding unsigned_modulo unsigned_shift_left unsigned_shift_right
parts val num_bits h k =
    let e : num_bits % 128 ≡ num_bits = mod-eq_of_lt k in
    let d = div-add-mod' val (2 ^ num_bits) in
    let m : val / 2 ^ num_bits * 2 ^ num_bits ≡ val - val % 2 ^ num_bits = omega arith in
    (rw e (ap u128 (mask num_bits val)), rw (e, m) (ap u128 (mod-eq_of_lt (omega arith))))

-- The complement of a value of an unsigned type is the greatest value of the type less the value.
pub unsigned_not :
    (t : ExpressionType) (n : ℕ)
    → is_unsigned_integer t ≡ Bool.true
    → fits t (pos n) ≡ Bool.true
    → bit_not (u128 n) t ≡ u128 (2 ^ bit_length t - 1 - n)
unfolding bit_not is_unsigned_integer bit_length
unsigned_not ExpressionType.u8 n i h = ap u128 (mask 8 (2 ^ 128 - 1 - n) ∙ ground arith)
unsigned_not ExpressionType.u16 n i h = ap u128 (mask 16 (2 ^ 128 - 1 - n) ∙ ground arith)
unsigned_not ExpressionType.u32 n i h = ap u128 (mask 32 (2 ^ 128 - 1 - n) ∙ ground arith)
unsigned_not ExpressionType.u64 n i h = ap u128 (mask 64 (2 ^ 128 - 1 - n) ∙ ground arith)
unsigned_not ExpressionType.u128 n i h = ap u128 (mask 128 (2 ^ 128 - 1 - n) ∙ ground arith)
unsigned_not ExpressionType.usize n i h = ap u128 (mask 64 (2 ^ 128 - 1 - n) ∙ ground arith)
unsigned_not _ n i h = cc
