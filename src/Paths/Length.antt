-- ===== src/Paths/Length.antt =====
-- checker/src/path.rs: the lengths of the paths that are built from selectors.
use hepha.Prelude.{
  arith, ℕ, ◌+◌, ◌≤◌, ◌<◌, leb, ◌≡◌, refl, ◌∙◌, Bool, true, false, List, [], ◌∷◌, ◌++◌,
  if◌then◌else◌,
}
use hepha.Value.{Expression, value, PathEnum, PathSelector, computed, qualified_path}
use hepha.Value.Equality.{eq_selector}
use hepha.Paths.{
  max_path_length, path_length, is_bottom_path, new_computed, new_qualified, add_selectors,
  remove_selector,
}

-- Each qualified path in the path records one more than the length of its qualifier, and no length is
-- greater than the greatest one.
abbrev pub Measured : PathEnum → Type 0
Measured (qualified_path n q s) = (n ≡ path_length q + 1) × (n ≤ max_path_length) × Measured q
Measured _ = Unit

-- Without the selectors at its end.
abbrev pub unqualified : PathEnum → PathEnum
unqualified (qualified_path _ q _) = unqualified q
unqualified p = p

-- The selectors at the end of a path, the last one first.
abbrev pub selectors_of : PathEnum → List PathSelector
selectors_of (qualified_path _ q s) = s ∷ selectors_of q
selectors_of _ = []

abbrev pub length : List PathSelector → ℕ
length [] = 0
length (s ∷ ss) = length ss + 1

-- `ss` backwards, in front of `ts`.
abbrev pub reverse_onto : List PathSelector → List PathSelector → List PathSelector
reverse_onto [] ts = ts
reverse_onto (s ∷ ss) ts = reverse_onto ss (s ∷ ts)

Measured-le : (p : PathEnum) → Measured p → path_length p ≤ max_path_length
unfolding path_length
Measured-le (qualified_path n q s) h = h.1
Measured-le p h = omega arith

choose :
    (P : PathEnum → Type 0) (b : Bool) (p q : PathEnum)
    → (b ≡ true → P p)
    → (b ≡ false → P q)
    → P (if b then p else q)
choose P true p q h k = h refl
choose P false p q h k = k refl

-- The three outcomes of `new_qualified`.
pub qualified_cases :
    (P : PathEnum → Type 0) (q : PathEnum) (s : PathSelector)
    → (is_bottom_path q ≡ true → P q)
    → (max_path_length ≤ path_length q → P (computed (value Expression.bottom 1)))
    → (is_bottom_path q ≡ false
        → path_length q < max_path_length
        → P (qualified_path (path_length q + 1) q s))
    → P (new_qualified q s)
unfolding new_qualified new_computed
qualified_cases P q s h k l = choose P (is_bottom_path q) q _ h (λ b.
    choose P (leb max_path_length (path_length q)) (computed (value Expression.bottom 1))
      (qualified_path (path_length q + 1) q s) (λ e. k (at_least (path_length q) e))
      (λ e. l b (below (path_length q) e)))
  where
    at_least : (n : ℕ) → leb max_path_length n ≡ true → max_path_length ≤ n
    at_least n e = ground arith

    below : (n : ℕ) → leb max_path_length n ≡ false → n < max_path_length
    below n e = ground arith

new_qualified-Measured :
    (q : PathEnum) (s : PathSelector) → Measured q → Measured (new_qualified q s)
new_qualified-Measured q s h =
    qualified_cases Measured q s (λ b. h) (λ l. tt) (λ b l. (refl, omega arith, h))

-- Adding selectors keeps the lengths that a path records right, and within the greatest length.
pub add_selectors-Measured :
    (p : PathEnum) (ss : List PathSelector)
    → Measured p
    → Measured (add_selectors p ss) × (path_length (add_selectors p ss) ≤ max_path_length)
unfolding add_selectors
add_selectors-Measured p [] h = (h, Measured-le p h)
add_selectors-Measured p (s ∷ ss) h =
    add_selectors-Measured (new_qualified p s) ss (new_qualified-Measured p s h)

within_limit :
    (p : PathEnum) (s : PathSelector)
    → is_bottom_path p ≡ false
    → path_length p < max_path_length
    → new_qualified p s ≡ qualified_path (path_length p + 1) p s
within_limit p s b h =
    qualified_cases (λ q. q ≡ qualified_path (path_length p + 1) p s) p s
      (λ c. absurd (ground arith)) (λ l. absurd (omega arith)) (λ c l. refl)

longer :
    (p : PathEnum) (s : PathSelector) (ss : List PathSelector)
    → path_length p + (length ss + 1) ≤ max_path_length
    → path_length (qualified_path (path_length p + 1) p s) + length ss ≤ max_path_length
unfolding path_length
longer p s ss h = omega arith

one_more :
    (p : PathEnum) (s : PathSelector) (ss : List PathSelector)
    → path_length (qualified_path (path_length p + 1) p s) + length ss
      ≡ path_length p + (length ss + 1)
unfolding path_length
one_more p s ss = omega arith

-- Up to the greatest length, adding selectors to a path that is not the path of the bottom value keeps
-- what it has in front of its selectors and puts the new selectors after them, in order; its length
-- grows by their number.
pub add_selectors_exact :
    (p : PathEnum) (ss : List PathSelector)
    → is_bottom_path p ≡ false
    → path_length p + length ss ≤ max_path_length
    → (unqualified (add_selectors p ss) ≡ unqualified p)
      × (selectors_of (add_selectors p ss) ≡ reverse_onto ss (selectors_of p))
      × (path_length (add_selectors p ss) ≡ path_length p + length ss)
unfolding add_selectors
add_selectors_exact p [] b h = (refl, refl, omega arith)
add_selectors_exact p (s ∷ ss) b h = rw (within_limit p s b (omega arith)) (
    let rest =
      add_selectors_exact (qualified_path (path_length p + 1) p s) ss refl (longer p s ss h) in
    (rest.0, rest.1, rest.2 ∙ one_more p s ss))

pub bottom_stays :
    (p : PathEnum) (ss : List PathSelector)
    → is_bottom_path p ≡ true
    → is_bottom_path (add_selectors p ss) ≡ true
unfolding add_selectors
bottom_stays p [] b = b
bottom_stays p (s ∷ ss) b =
    qualified_cases (λ q. is_bottom_path (add_selectors q ss) ≡ true) p s (λ c. bottom_stays p ss b)
      (λ l. bottom_stays (computed (value Expression.bottom 1)) ss refl)
      (λ c l. absurd (ground arith))

too_long :
    (p : PathEnum) (s : PathSelector) (ss : List PathSelector)
    → max_path_length < path_length p + (length ss + 1)
    → max_path_length < path_length (qualified_path (path_length p + 1) p s) + length ss
unfolding path_length
too_long p s ss h = omega arith

-- Beyond the greatest length, adding selectors to a path gives the path of the bottom value.
pub add_selectors_overflow :
    (p : PathEnum) (ss : List PathSelector)
    → Measured p
    → is_bottom_path p ≡ false
    → max_path_length < path_length p + length ss
    → is_bottom_path (add_selectors p ss) ≡ true
unfolding add_selectors
add_selectors_overflow p [] m b h = absurd (omega (arith, Measured-le p m))
add_selectors_overflow p (s ∷ ss) m b h =
    qualified_cases (λ q. is_bottom_path (add_selectors q ss) ≡ true) p s
      (λ c. absurd (ground arith))
      (λ l. bottom_stays (computed (value Expression.bottom 1)) ss refl)
      (λ c l.
        add_selectors_overflow (qualified_path (path_length p + 1) p s) ss (refl, omega arith, m)
          refl (too_long p s ss h))

added_last :
    (p : PathEnum) (ss : List PathSelector) (s : PathSelector)
    → add_selectors p (ss ++ s ∷ []) ≡ new_qualified (add_selectors p ss) s
unfolding add_selectors
added_last p [] s = refl
added_last p (t ∷ ss) s = added_last (new_qualified p t) ss s

still_some :
    (p : PathEnum) (ss : List PathSelector)
    → is_bottom_path p ≡ false
    → path_length p + length ss ≤ max_path_length
    → is_bottom_path (add_selectors p ss) ≡ false
unfolding add_selectors
still_some p [] b h = b
still_some p (s ∷ ss) b h =
    rw (within_limit p s b (omega arith))
      (still_some (qualified_path (path_length p + 1) p s) ss refl (longer p s ss h))

-- What is left of a path with `s` at its end when `t` is removed.
remove_last :
    (q : PathEnum) (s t : PathSelector) (n : ℕ)
    → is_bottom_path q ≡ false
    → path_length q ≡ n
    → n < max_path_length
    → (eq_selector t s ≡ true → remove_selector (new_qualified q s) t ≡ q)
      × (eq_selector t s ≡ false
          → (remove_selector (new_qualified q s) t ≡ new_qualified q s)
            × (path_length (remove_selector (new_qualified q s) t) ≡ n + 1))
unfolding remove_selector path_length
remove_last q s t n b e h =
    rw (within_limit q s b (omega arith))
      (λ same. rw same refl, λ other. rw other (refl, omega arith))

-- Removing a selector from a path to which selectors were added, within the greatest length, takes away
-- the one that was added last if it is equal, and gives the path with the others added; otherwise it leaves
-- the path as it is, one longer than with the others added.
pub remove_selector-add_selectors :
    (p : PathEnum) (ss : List PathSelector) (s t : PathSelector)
    → is_bottom_path p ≡ false
    → path_length p + length ss < max_path_length
    → (eq_selector t s ≡ true
        → remove_selector (add_selectors p (ss ++ s ∷ [])) t ≡ add_selectors p ss)
      × (eq_selector t s ≡ false
          → (remove_selector (add_selectors p (ss ++ s ∷ [])) t ≡ add_selectors p (ss ++ s ∷ []))
            × (path_length (remove_selector (add_selectors p (ss ++ s ∷ [])) t)
                ≡ path_length p + length ss + 1))
remove_selector-add_selectors p ss s t b h = rw (added_last p ss s) (
    remove_last (add_selectors p ss) s t (path_length p + length ss)
      (still_some p ss b (omega arith)) (add_selectors_exact p ss b (omega arith)).2 h)
