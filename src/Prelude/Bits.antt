-- ===== src/Prelude/Bits.antt =====
-- The binary digits of natural numbers, and what `&`, `|`, `^` and `!` do to each digit.
use Prim.Native.Nat.{
  ℕ, zero, suc, ◌+◌, ◌-◌, ◌*◌, ◌/◌, ◌%◌, ◌^◌, ◌≤◌, ◌<◌, min, max, digits, bitwise, bit_and, bit_or,
  bit_xor, differ, bit_and-bitwise, bit_or-bitwise, bit_xor-bitwise,
}
use mathlib.Core.Path.{◌≡◌, refl, sym, ap, ◌∙◌}
use mathlib.Core.Logic.{◌≢◌, ◌⊎◌, inl, inr}
use native.Mathlib.Omega.{arith}
use native.Mathlib.Nat.{pow-suc, div-add-mod', add-mul-mod_self_right, mod-eq_of_lt, mod-lt}

-- The digit of weight `2 ^ k`.
abbrev pub digit : ℕ → ℕ → ℕ
digit zero n = n % 2
digit (suc k) n = digit k (n / 2)

-- `2 ^ k` by doubling.
abbrev pub weight : ℕ → ℕ
weight zero = 1
weight (suc k) = weight k * 2

pub weight-pow : (k : ℕ) → weight k ≡ 2 ^ k
weight-pow zero = refl
weight-pow (suc k) = rw (weight-pow k) (sym (pow-suc 2 k))

pub digit-lt : (k n : ℕ) → digit k n < 2
digit-lt zero n = omega arith
digit-lt (suc k) n = digit-lt k (n / 2)

pub weight-pos : (k : ℕ) → 0 < weight k
weight-pos zero = omega arith
weight-pos (suc k) = omega (arith, weight-pos k)

-- The remainder by `w * 2` from that of the half by `w`.
mod_twice : (a w : ℕ) → 0 < w → a % (w * 2) ≡ (a / 2 % w) * 2 + a % 2
mod_twice a w h =
    let r = (a / 2 % w) * 2 + a % 2 in
    let split : a ≡ r + (a / 2 / w) * (w * 2) =
      omega (arith, ap (λ (t : ℕ). t * 2) (div-add-mod' (a / 2) w)) in
    ap (λ (t : ℕ). t % (w * 2)) split
    ∙ add-mul-mod_self_right r (a / 2 / w) (w * 2)
    ∙ mod-eq_of_lt (omega (arith, mod-lt (a / 2) h))

zero_or_suc : (x : ℕ) → (x ≡ 0) ⊎ ((x' : ℕ) × (x ≡ suc x'))
zero_or_suc zero = inl refl
zero_or_suc (suc x) = inr (x, refl)

-- An operation that works digit by digit, and what it does with the lowest digit. The number of steps
-- that `digits` is given may be any that suffices.
module _ (z : ℕ → ℕ) (op : ℕ → ℕ → ℕ) where
  same_digits : (x y m m' : ℕ) → x ≤ m → x ≤ m' → digits z op m x y ≡ digits z op m' x y
  same_digits x y (suc m) (suc m') h h' = elim (zero_or_suc x) [
    | inl e ↦ rw e refl
    | inr (x', e) ↦ rw e (
        ap (λ (t : ℕ). t * 2 + op (suc x' % 2) (y % 2))
          (same_digits (suc x' / 2) (y / 2) m m' (omega arith) (omega arith)))
  ]
  same_digits x y zero zero h h' = refl
  same_digits x y zero (suc m') h h' = let e : x ≡ 0 = omega arith in rw e refl
  same_digits x y (suc m) zero h h' = let e : x ≡ 0 = omega arith in rw e refl

  halves :
      ((y : ℕ) → z y ≡ op 0 (y % 2) + z (y / 2) * 2)
      → (x y : ℕ) → bitwise z op x y ≡ op (x % 2) (y % 2) + bitwise z op (x / 2) (y / 2) * 2
  halves base zero y = base y
  halves base (suc x) y =
      omega (arith, same_digits (suc x / 2) (y / 2) x (suc x / 2) (omega arith) (omega arith))

differ-lt : (x y : ℕ) → x < 2 → y < 2 → differ x y < 2
differ-lt x y h k = grind arith

bit_and_halves : (x y : ℕ) → bit_and x y ≡ min (x % 2) (y % 2) + bit_and (x / 2) (y / 2) * 2
bit_and_halves x y = simp bit_and-bitwise (halves (λ _. 0) min (λ y. omega arith) x y)

bit_or_halves : (x y : ℕ) → bit_or x y ≡ max (x % 2) (y % 2) + bit_or (x / 2) (y / 2) * 2
bit_or_halves x y = simp bit_or-bitwise (halves (λ y. y) max (λ y. omega arith) x y)

bit_xor_halves : (x y : ℕ) → bit_xor x y ≡ differ (x % 2) (y % 2) + bit_xor (x / 2) (y / 2) * 2
bit_xor_halves x y = simp bit_xor-bitwise (halves (λ y. y) differ (λ y. grind arith) x y)

-- Each digit of `&` is the lesser of the two, and each digit of `|` the greater.
pub digit-bit_and : (k a b : ℕ) → digit k (bit_and a b) ≡ min (digit k a) (digit k b)
digit-bit_and zero a b = omega (arith, bit_and_halves a b)
digit-bit_and (suc k) a b =
    ap (digit k) (omega (arith, bit_and_halves a b)) ∙ digit-bit_and k (a / 2) (b / 2)

pub digit-bit_or : (k a b : ℕ) → digit k (bit_or a b) ≡ max (digit k a) (digit k b)
digit-bit_or zero a b = omega (arith, bit_or_halves a b)
digit-bit_or (suc k) a b =
    ap (digit k) (omega (arith, bit_or_halves a b)) ∙ digit-bit_or k (a / 2) (b / 2)

pub digit-bit_xor : (k a b : ℕ) → digit k (bit_xor a b) ≡ differ (digit k a) (digit k b)
digit-bit_xor zero a b =
    omega (arith, bit_xor_halves a b, differ-lt (a % 2) (b % 2) (omega arith) (omega arith))
digit-bit_xor (suc k) a b =
    ap (digit k)
      (omega (arith, bit_xor_halves a b, differ-lt (a % 2) (b % 2) (omega arith) (omega arith)))
    ∙ digit-bit_xor k (a / 2) (b / 2)

-- By induction on a bound of the number.
bit_or-zero : (bound x : ℕ) → x ≤ bound → bit_or x 0 ≡ x
bit_or-zero zero x l = let e : x ≡ 0 = omega arith in rw e (simp bit_or-bitwise)
bit_or-zero (suc bound) x l = elim (zero_or_suc x) [
  | inl e ↦ rw e (simp bit_or-bitwise)
  | inr (x', e) ↦ omega (arith, bit_or_halves x 0, bit_or-zero bound (x / 2) (omega arith))
]

bit_and-zero : (bound x : ℕ) → x ≤ bound → bit_and x 0 ≡ 0
bit_and-zero zero x l = let e : x ≡ 0 = omega arith in rw e (simp bit_and-bitwise)
bit_and-zero (suc bound) x l = elim (zero_or_suc x) [
  | inl e ↦ rw e (simp bit_and-bitwise)
  | inr (x', e) ↦ omega (arith, bit_and_halves x 0, bit_and-zero bound (x / 2) (omega arith))
]

-- `|` with no common digits is a sum.
pub bit_or_disjoint : (k hi lo : ℕ) → lo < weight k → bit_or (hi * weight k) lo ≡ hi * weight k + lo
bit_or_disjoint zero hi lo h =
    omega (arith, bit_or-zero (hi * 1) (hi * 1) (omega arith), ap (bit_or (hi * 1)) (is_zero lo h))
  where
    is_zero : (n : ℕ) → n < 1 → n ≡ 0
    is_zero n l = omega arith
bit_or_disjoint (suc k) hi lo h =
    let e : hi * (weight k * 2) / 2 ≡ hi * weight k = omega arith in
    omega (
      arith,
      bit_or_halves (hi * (weight k * 2)) lo,
      ap (λ (t : ℕ). bit_or t (lo / 2)) e,
      bit_or_disjoint k hi (lo / 2) (omega arith),
    )

-- `&` with a mask of `k` ones is the remainder.
pub bit_and_mask : (k a : ℕ) → bit_and a (weight k - 1) ≡ a % weight k
bit_and_mask zero a = omega (arith, bit_and-zero a a (omega arith))
bit_and_mask (suc k) a =
    let w = weight-pos k in
    let e : (weight k * 2 - 1) / 2 ≡ weight k - 1 = omega arith in
    omega (
      arith,
      bit_and_halves a (weight k * 2 - 1),
      ap (bit_and (a / 2)) e,
      bit_and_mask k (a / 2),
      mod_twice a (weight k) w,
    )

-- `x & (1 << k)` is 0 or `1 << k`, by the digit of weight `2 ^ k`.
pub bit_and-weight : (a k : ℕ) → bit_and a (weight k) ≡ digit k a * weight k
bit_and-weight a zero =
    omega (arith, bit_and_halves a 1, bit_and-zero (a / 2) (a / 2) (omega arith))
bit_and-weight a (suc k) =
    let e : weight k * 2 / 2 ≡ weight k = omega arith in
    omega (arith, bit_and_halves a (weight k * 2), ap (bit_and (a / 2)) e, bit_and-weight (a / 2) k)

-- The digits of a power of 2.
pub digit-weight_self : (k : ℕ) → digit k (weight k) ≡ 1
digit-weight_self zero = refl
digit-weight_self (suc k) = ap (digit k) (omega arith) ∙ digit-weight_self k

digit-zero : (k : ℕ) → digit k 0 ≡ 0
digit-zero zero = refl
digit-zero (suc k) = digit-zero k

pub digit-weight_ne : (k j : ℕ) → k ≢ j → digit k (weight j) ≡ 0
digit-weight_ne zero zero h = absurd (h refl)
digit-weight_ne zero (suc j) h = omega arith
digit-weight_ne (suc k) zero h = digit-zero k
digit-weight_ne (suc k) (suc j) h =
    ap (digit k) (omega arith) ∙ digit-weight_ne k j (λ e. h (ap suc e))

pub weight_mono : (k j : ℕ) → k < j → weight k < weight j
weight_mono k zero h = absurd (omega arith)
weight_mono zero (suc j) h = omega (arith, weight-pos j)
weight_mono (suc k) (suc j) h = omega (arith, weight_mono k j (omega arith))

-- The complement within `w` digits turns each of them over.
pub digit-complement :
    (w k x : ℕ) → k < w → x < weight w → digit k (weight w - 1 - x) ≡ 1 - digit k x
digit-complement zero k x h l = absurd (omega arith)
digit-complement (suc w) zero x h l = omega arith
digit-complement (suc w) (suc k) x h l =
    ap (digit k) (omega arith) ∙ digit-complement w k (x / 2) (omega arith) (omega arith)

-- `&` is no greater than either number; by induction on a bound of the first.
bit_and_bounded : (bound x y : ℕ) → x ≤ bound → (bit_and x y ≤ x) × (bit_and x y ≤ y)
bit_and_bounded zero x y l =
    let e : x ≡ 0 = omega arith in
    rw e (simp bit_and-bitwise (omega arith), simp bit_and-bitwise (omega arith))
bit_and_bounded (suc bound) x y l = elim (zero_or_suc x) [
  | inl e ↦ rw e (simp bit_and-bitwise (omega arith), simp bit_and-bitwise (omega arith))
  | inr (x', e) ↦
      let h = bit_and_bounded bound (x / 2) (y / 2) (omega arith) in
      (omega (arith, bit_and_halves x y, h.0), omega (arith, bit_and_halves x y, h.1))
]

pub bit_and_le : (x y : ℕ) → (bit_and x y ≤ x) × (bit_and x y ≤ y)
bit_and_le x y = bit_and_bounded x x y (omega arith)
