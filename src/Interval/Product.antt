-- ===== src/Interval/Product.antt =====
-- The product of two intervals of checker/src/interval_domain.rs: the extremes of `x * y` over a
-- rectangle are at its corners.
use hepha.Prelude.{
  arith, ◌≡◌, ◌⊎◌, inl, inr, ℤ, pos, negsuc, ◌≤ℤ◌, ◌*ℤ◌, *ℤ_parts, ℕ, suc, ◌≤◌, ◌*◌, ◌+◌, pos_part,
  refl, Bool, true, false, ◌||◌, if◌then◌else◌, eq_of_parts, neg_part, min_ℤ, max_ℤ,
}
use hepha.Machine.{i128_min, i128_max, saturate, saturating_mul, IsI128}
use hepha.Interval.{IntervalDomain, mul, is_bottom, is_top, bottom, top}
use hepha.Interval.Contains.{Contains, AtLeast, AtMost, Describes, Describes-below, Describes-above}
use hepha.Interval.Sums.{saturate-AtLeast, saturate-AtMost}

mul_mono : (p q n : ℕ) → p ≤ q → p * n ≤ q * n
mul_mono p q n h = grind arith

-- `a * y` is monotone in `a` for `y` of one sign, antitone for the other.
*ℤ_mono : (a b : ℤ) (n : ℕ) → a ≤ℤ b → a *ℤ pos n ≤ℤ b *ℤ pos n
*ℤ_mono a b n h = omega (
  arith,
  *ℤ_parts a (pos n),
  *ℤ_parts b (pos n),
  mul_mono (pos_part a + neg_part b) (pos_part b + neg_part a) n h,
)

*ℤ_anti : (a b : ℤ) (n : ℕ) → a ≤ℤ b → b *ℤ negsuc n ≤ℤ a *ℤ negsuc n
*ℤ_anti a b n h = omega (
  arith,
  *ℤ_parts a (negsuc n),
  *ℤ_parts b (negsuc n),
  mul_mono (pos_part a + neg_part b) (pos_part b + neg_part a) (suc n) h,
)

*ℤ_comm-parts : (a b : ℤ) → (a *ℤ b ≤ℤ b *ℤ a) × (b *ℤ a ≤ℤ a *ℤ b)
*ℤ_comm-parts a b =
    (omega (arith, *ℤ_parts a b, *ℤ_parts b a), omega (arith, *ℤ_parts a b, *ℤ_parts b a))

-- One factor between two bounds: the product lies between the products at the bounds, in one order or the other.
between_left :
    (a x b y : ℤ)
    → a ≤ℤ x
    → x ≤ℤ b
    → ((a *ℤ y ≤ℤ x *ℤ y) × (x *ℤ y ≤ℤ b *ℤ y)) ⊎ ((b *ℤ y ≤ℤ x *ℤ y) × (x *ℤ y ≤ℤ a *ℤ y))
between_left a x b (pos n) h k = inl (*ℤ_mono a x n h, *ℤ_mono x b n k)
between_left a x b (negsuc n) h k = inr (*ℤ_anti x b n k, *ℤ_anti a x n h)

between_right :
    (x c y d : ℤ)
    → c ≤ℤ y
    → y ≤ℤ d
    → ((x *ℤ c ≤ℤ x *ℤ y) × (x *ℤ y ≤ℤ x *ℤ d)) ⊎ ((x *ℤ d ≤ℤ x *ℤ y) × (x *ℤ y ≤ℤ x *ℤ c))
between_right x c y d h k =
    omega (arith, between_left c y d x h k, *ℤ_comm-parts x c, *ℤ_comm-parts x y, *ℤ_comm-parts x d)

saturate-IsI128 : (z : ℤ) → IsI128 (saturate z)
unfolding saturate
saturate-IsI128 z = ground arith

-- A lower bound may be lowered, and an upper bound raised.
AtLeast-le : (l m z : ℤ) → m ≤ℤ l → IsI128 m → AtLeast l z → AtLeast m z
AtLeast-le l m z h r e = ground (arith, eq_of_parts m i128_min)

AtMost-le : (u m z : ℤ) → u ≤ℤ m → IsI128 m → AtMost u z → AtMost m z
AtMost-le u m z h r e = ground (arith, eq_of_parts m i128_max)

abbrev min4 : ℤ → ℤ → ℤ → ℤ → ℤ
min4 p q r t = min_ℤ (min_ℤ (min_ℤ p q) r) t

abbrev max4 : ℤ → ℤ → ℤ → ℤ → ℤ
max4 p q r t = max_ℤ (max_ℤ (max_ℤ p q) r) t

module _ (p q r t : ℤ) where
  min4-le : (min4 p q r t ≤ℤ p) × (min4 p q r t ≤ℤ q) × (min4 p q r t ≤ℤ r) × (min4 p q r t ≤ℤ t)
  min4-le = ground arith

  max4-le : (p ≤ℤ max4 p q r t) × (q ≤ℤ max4 p q r t) × (r ≤ℤ max4 p q r t) × (t ≤ℤ max4 p q r t)
  max4-le = ground arith

  min4-IsI128 : IsI128 p → IsI128 q → IsI128 r → IsI128 t → IsI128 (min4 p q r t)
  min4-IsI128 a b c d = ground arith

  max4-IsI128 : IsI128 p → IsI128 q → IsI128 r → IsI128 t → IsI128 (max4 p q r t)
  max4-IsI128 a b c d = ground arith

module _ (a x b c y d : ℤ) (ax : a ≤ℤ x) (xb : x ≤ℤ b) (cy : c ≤ℤ y) (yd : y ≤ℤ d) where
  -- The two corners on the left, or the two on the right.
  corner_below :
      ((a *ℤ c ≤ℤ x *ℤ y) ⊎ (a *ℤ d ≤ℤ x *ℤ y)) ⊎ ((b *ℤ c ≤ℤ x *ℤ y) ⊎ (b *ℤ d ≤ℤ x *ℤ y))
  corner_below =
      ground (
        arith,
        between_left a x b y ax xb,
        between_right a c y d cy yd,
        between_right b c y d cy yd,
      )

  corner_above :
      ((x *ℤ y ≤ℤ a *ℤ c) ⊎ (x *ℤ y ≤ℤ a *ℤ d)) ⊎ ((x *ℤ y ≤ℤ b *ℤ c) ⊎ (x *ℤ y ≤ℤ b *ℤ d))
  corner_above =
      ground (
        arith,
        between_left a x b y ax xb,
        between_right a c y d cy yd,
        between_right b c y d cy yd,
      )

  abbrev sac : ℤ
  sac = saturate (a *ℤ c)

  abbrev sad : ℤ
  sad = saturate (a *ℤ d)

  abbrev sbc : ℤ
  sbc = saturate (b *ℤ c)

  abbrev sbd : ℤ
  sbd = saturate (b *ℤ d)

  corners_below : AtLeast (min4 sac sad sbc sbd) (x *ℤ y)
  corners_below =
      let le = min4-le sac sad sbc sbd in
      let r =
        min4-IsI128 sac sad sbc sbd (saturate-IsI128 _) (saturate-IsI128 _) (saturate-IsI128 _)
          (saturate-IsI128 _) in
      elim corner_below [
        | inl (inl e) ↦ AtLeast-le sac _ _ le.0 r (saturate-AtLeast _ _ e)
        | inl (inr e) ↦ AtLeast-le sad _ _ le.1 r (saturate-AtLeast _ _ e)
        | inr (inl e) ↦ AtLeast-le sbc _ _ le.2 r (saturate-AtLeast _ _ e)
        | inr (inr e) ↦ AtLeast-le sbd _ _ le.3 r (saturate-AtLeast _ _ e)
      ]

  corners_above : AtMost (max4 sac sad sbc sbd) (x *ℤ y)
  corners_above =
      let le = max4-le sac sad sbc sbd in
      let r =
        max4-IsI128 sac sad sbc sbd (saturate-IsI128 _) (saturate-IsI128 _) (saturate-IsI128 _)
          (saturate-IsI128 _) in
      elim corner_above [
        | inl (inl e) ↦ AtMost-le sac _ _ le.0 r (saturate-AtMost _ _ e)
        | inl (inr e) ↦ AtMost-le sad _ _ le.1 r (saturate-AtMost _ _ e)
        | inr (inl e) ↦ AtMost-le sbc _ _ le.2 r (saturate-AtMost _ _ e)
        | inr (inr e) ↦ AtMost-le sbd _ _ le.3 r (saturate-AtMost _ _ e)
      ]

-- The guards that `mul` begins with.
guarded :
    (b t : Bool) (r : IntervalDomain) (z : ℤ)
    → b ≡ false
    → Contains r z
    → Contains (if b then bottom else if t then top else r) z
guarded true t r z h c = cc
guarded false true r z h c = record { below = inr refl; above = inr refl }
guarded false false r z h c = c

not_bottom :
    (s o : IntervalDomain) (x y : ℤ)
    → Describes s x
    → Describes o y
    → (is_bottom s || is_bottom o) ≡ false
unfolding is_bottom
not_bottom s o x y h k = ground (
  arith,
  Describes-below s x h,
  Describes-above s x h,
  Describes-below o y k,
  Describes-above o y k,
)

-- The product of two `i128` values lies in the product of their intervals, also where it is no `i128`.
pub mul_sound :
    (s o : IntervalDomain) (x y : ℤ) → Describes s x → Describes o y → Contains (mul s o) (x *ℤ y)
unfolding mul saturating_mul
mul_sound s o x y h k =
    let sl = Describes-below s x h in
    let su = Describes-above s x h in
    let ol = Describes-below o y k in
    let ou = Describes-above o y k in
    guarded (is_bottom s || is_bottom o) (is_top s || is_top o) _ _ (not_bottom s o x y h k)
      (record {
        below = corners_below s.lower x s.upper o.lower y o.upper sl su ol ou;
        above = corners_above s.lower x s.upper o.lower y o.upper sl su ol ou;
      })
