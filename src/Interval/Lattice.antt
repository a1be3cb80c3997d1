-- ===== src/Interval/Lattice.antt =====
-- Intersection and widening of checker/src/interval_domain.rs.
use hepha.Prelude.{arith, ◌≡◌, ◌⊎◌, ℤ, ◌≤ℤ◌, false, inl, inr, ◌↔◌}
use hepha.Machine.{IsI128}
use hepha.Interval.{IntervalDomain, intersect, widen, is_bottom, is_top}
use hepha.Interval.Contains.{Describes, Describes-below, Describes-above}

-- The bounds are `i128` variables.
pub record IsValid (s : IntervalDomain) : Type 0 where
  pub lower_in_range : IsI128 s.lower
  pub upper_in_range : IsI128 s.upper

pub bounds-Describes :
    (s : IntervalDomain) (z : ℤ) → IsI128 z → s.lower ≤ℤ z → z ≤ℤ s.upper → Describes s z
bounds-Describes s z r l u = record {
  contains = record { below = inl l; above = inl u };
  in_range = r;
}

-- An interval that is not bottom describes its bounds.
pub ends :
    (s : IntervalDomain)
    → IsValid s
    → is_bottom s ≡ false
    → Describes s s.lower × Describes s s.upper
unfolding is_bottom
ends s v b = (
  bounds-Describes s s.lower v.lower_in_range (omega arith) (ground arith),
  bounds-Describes s s.upper v.upper_in_range (ground arith) (omega arith),
)

module _ (s o : IntervalDomain) (b : is_bottom s ≡ false) (c : is_bottom o ≡ false) where
  intersect_into : (z : ℤ) → Describes (intersect s o) z → Describes s z × Describes o z
  unfolding intersect
  intersect_into z h =
      let l = Describes-below (intersect s o) z h in
      let u = Describes-above (intersect s o) z h in
      let r = h.in_range in
      (
        bounds-Describes s z r (ground arith) (ground arith),
        bounds-Describes o z r (ground arith) (ground arith),
      )

  intersect_from : (z : ℤ) → Describes s z → Describes o z → Describes (intersect s o) z
  unfolding intersect
  intersect_from z h k =
      let sl = Describes-below s z h in
      let su = Describes-above s z h in
      let ol = Describes-below o z k in
      let ou = Describes-above o z k in
      bounds-Describes (intersect s o) z h.in_range (ground arith) (ground arith)

  pub widen_keeps : (z : ℤ) → Describes s z ⊎ Describes o z → Describes (widen s o) z
  unfolding widen
  widen_keeps z (inl h) =
      let sl = Describes-below s z h in
      let su = Describes-above s z h in
      bounds-Describes (widen s o) z h.in_range (ground arith) (ground arith)
  widen_keeps z (inr h) =
      let sl = Describes-below o z h in
      let su = Describes-above o z h in
      bounds-Describes (widen s o) z h.in_range (ground arith) (ground arith)

-- Of two intervals that are not bottom, the intersection describes exactly the values that both describe.
pub intersect_exact :
    (s o : IntervalDomain) (z : ℤ)
    → is_bottom s ≡ false
    → is_bottom o ≡ false
    → Describes (intersect s o) z ↔ (Describes s z × Describes o z)
intersect_exact s o z b c = (intersect_into s o b c z, λ h. intersect_from s o b c z h.0 h.1)

module _ (s o t : IntervalDomain) (v : IsValid s) (w : IsValid o) (b : is_bottom s ≡ false)
    (c : is_bottom o ≡ false) where
  widen_below :
      ((z : ℤ) → Describes s z ⊎ Describes o z → Describes t z)
      → (z : ℤ) → Describes (widen s o) z
      → Describes t z
  unfolding widen is_top
  widen_below f z h =
      let l = Describes-below (widen s o) z h in
      let u = Describes-above (widen s o) z h in
      let es = ends s v b in
      let eo = ends o w c in
      let sl = Describes-below t _ (f s.lower (inl es.0)) in
      let su = Describes-above t _ (f s.upper (inl es.1)) in
      let ol = Describes-below t _ (f o.lower (inr eo.0)) in
      let ou = Describes-above t _ (f o.upper (inr eo.1)) in
      let r = h.in_range in bounds-Describes t z r (ground arith) (ground arith)

-- Of two intervals that are not bottom, widening gives the least upper bound: a third interval
-- describes all that the widened one does exactly when it describes all that either describes.
pub widen_lub :
    (s o t : IntervalDomain)
    → IsValid s
    → IsValid o
    → is_bottom s ≡ false
    → is_bottom o ≡ false
    → ((z : ℤ) → Describes (widen s o) z → Describes t z)
      ↔ ((z : ℤ) → Describes s z ⊎ Describes o z → Describes t z)
widen_lub s o t v w b c = (λ f z h. f z (widen_keeps s o b c z h), widen_below s o t v w b c)
