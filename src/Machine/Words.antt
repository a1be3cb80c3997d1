-- ===== src/Machine/Words.antt =====
-- The casts between the integer types of the Rust language, `as u8` to `as i128`: the low bits of a
-- number, read as an unsigned or as a signed number.
use native.Mathlib.Nat.{pow-suc, mod-eq_of_lt, mod-lt}
use hepha.Prelude.{
  arith, ℕ, zero, suc, ◌-◌, ◌%◌, ◌^◌, ◌<◌, ltb, if◌then◌else◌, ℤ, pos, negsuc, ◌≤ℤ◌, ◌≡◌, Bool,
  ◌&&◌, leb_ℤ,
}
use hepha.Machine.{int_min, int_max}

-- The `w` low bits in two's complement, as a number.
unfoldable pub to_unsigned : ℕ → ℤ → ℕ
to_unsigned w (pos n) = n % 2 ^ w
to_unsigned w (negsuc n) = 2 ^ w - 1 - n % 2 ^ w

-- A number below `2 ^ suc w` read as a signed number of `suc w` bits.
abbrev pub signed : ℕ → ℕ → ℤ
signed w n = if ltb n (2 ^ w) then pos n else negsuc (2 ^ suc w - 1 - n)

-- The signed number of the `suc w` low bits.
unfoldable pub to_signed : ℕ → ℤ → ℤ
unfolding to_unsigned
to_signed w z = signed w (to_unsigned (suc w) z)

-- A signed, and an unsigned type has the value.
abbrev pub fits_signed : ℕ → ℤ → Bool
fits_signed w z = leb_ℤ (int_min w) z && leb_ℤ z (int_max w)

abbrev pub fits_unsigned : ℕ → ℤ → Bool
fits_unsigned w z = leb_ℤ (pos 0) z && leb_ℤ z (int_max w)

pub pow-pos : (w : ℕ) → 0 < 2 ^ w
pow-pos zero = omega arith
pow-pos (suc w) = omega (arith, pow-suc 2 w, pow-pos w)

-- A cast keeps a value that the type has.
pub to_unsigned_id : (w n : ℕ) → n < 2 ^ w → to_unsigned w (pos n) ≡ n
unfolding to_unsigned
to_unsigned_id w n h = mod-eq_of_lt h

pub to_signed_id : (w : ℕ) (z : ℤ) → int_min w ≤ℤ z → z ≤ℤ int_max w → to_signed w z ≡ z
unfolding to_signed to_unsigned
to_signed_id w (pos n) l u =
    let p = pow-pos w in
    let q = pow-suc 2 w in let e : n % 2 ^ suc w ≡ n = mod-eq_of_lt (omega arith) in ground arith
to_signed_id w (negsuc n) l u =
    let p = pow-pos w in
    let q = pow-suc 2 w in let e : n % 2 ^ suc w ≡ n = mod-eq_of_lt (omega arith) in ground arith

-- A cast gives a value of the type.
pub to_unsigned-lt : (w : ℕ) (z : ℤ) → to_unsigned w z < 2 ^ w
unfolding to_unsigned
to_unsigned-lt w (pos n) = mod-lt n (pow-pos w)
to_unsigned-lt w (negsuc n) = omega (arith, pow-pos w)

pub to_signed_range : (w : ℕ) (z : ℤ) → (int_min w ≤ℤ to_signed w z) × (to_signed w z ≤ℤ int_max w)
unfolding to_signed
to_signed_range w z =
    let p = pow-pos w in
    let q = pow-suc 2 w in let l = to_unsigned-lt (suc w) z in (ground arith, ground arith)
