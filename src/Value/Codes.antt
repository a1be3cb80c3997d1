-- ===== src/Value/Codes.antt =====
-- Finite trees of numbers, and their equality.
use hepha.Prelude.{ℕ, Bool, true, false, ◌&&◌, ◌==◌, ◌≡◌, arith, refl}

mutual
  pub data Code : Type 0 where
    node : ℕ → Codes → Code

  pub data Codes : Type 0 where
    done : Codes
    next : Code → Codes → Codes

unfoldable mutual
  pub eq_code : Code → Code → Bool
  eq_code (node m cs) (node n ds) = m == n && eq_codes cs ds

  pub eq_codes : Codes → Codes → Bool
  eq_codes done done = true
  eq_codes (next c cs) (next d ds) = eq_code c d && eq_codes cs ds
  eq_codes _ _ = false

mutual
  unfolding eq_code

  pub eq_code-same : (c d : Code) → eq_code c d ≡ true → c ≡ d
  eq_code-same (node m cs) (node n ds) h = grind (arith, eq_codes-same cs ds)

  eq_codes-same : (c d : Codes) → eq_codes c d ≡ true → c ≡ d
  eq_codes-same done done h = refl
  eq_codes-same done (next d ds) h = ground arith
  eq_codes-same (next c cs) done h = ground arith
  eq_codes-same (next c cs) (next d ds) h = grind (arith, eq_code-same c d, eq_codes-same cs ds)

mutual
  unfolding eq_code

  pub eq_code_refl : (c : Code) → eq_code c c ≡ true
  eq_code_refl (node m cs) = ground (arith, eq_codes_refl cs)

  eq_codes_refl : (c : Codes) → eq_codes c c ≡ true
  eq_codes_refl done = refl
  eq_codes_refl (next c cs) = ground (arith, eq_code_refl c, eq_codes_refl cs)
