-- ===== src/Paths/Roots.antt =====
-- checker/src/path.rs: the roots of paths.
use hepha.Prelude.{
  arith, ℕ, ◌+◌, ◌≡◌, refl, ◌∙◌, ◌⊎◌, ◌↔◌, inl, inr, Bool, true, ◌||◌, List, [], ◌∷◌,
}
use hepha.ExpressionType.{ExpressionType}
use hepha.Value.{
  Expression, AbstractValue, value, PathEnum, PathSelector, computed, offset_path, qualified_path,
}
use hepha.Value.Equality.{eq_path}
use hepha.Paths.{path_length, is_bottom_path, add_selectors, get_path_root, is_rooted_by}
use hepha.Paths.Length.{qualified_cases, bottom_stays}

-- The path of the expression of a place.
pub data PlaceOf : PathEnum → Expression → Type 0 where
  of_parameter_value :
      {p : PathEnum} (t : ExpressionType) → PlaceOf p (Expression.initial_parameter_value p t)
  of_reference : {p : PathEnum} → PlaceOf p (Expression.reference p)
  of_variable : {p : PathEnum} (t : ExpressionType) → PlaceOf p (Expression.variable p t)

-- The first path is one step nearer to the root of the second.
pub data Under : PathEnum → PathEnum → Type 0 where
  qualifier : {q : PathEnum} (n : ℕ) (s : PathSelector) → Under q (qualified_path n q s)
  place : {p : PathEnum} {e : Expression} (n : ℕ) → PlaceOf p e → Under p (computed (value e n))
  base :
      {p : PathEnum} {e : Expression} (m n : ℕ) (r : AbstractValue)
      → PlaceOf p e
      → Under p (offset_path (value (Expression.offset (value e m) r) n))

-- One or more such steps.
pub data Rooted : PathEnum → PathEnum → Type 0 where
  one : {p q : PathEnum} → Under p q → Rooted p q
  more : {p q r : PathEnum} → Rooted p q → Under q r → Rooted p r

-- A path that is equal to the root stands on the way to the root of the path.
abbrev pub Rests : PathEnum → PathEnum → Type 0
Rests path root = (q : PathEnum) × Rooted q path × (eq_path q root ≡ true)

here_or_above :
    (p q root : PathEnum)
    → Under p q
    → (eq_path p root || is_rooted_by p root) ≡ true
    → (is_rooted_by p root ≡ true → Rests p root)
    → Rests q root
here_or_above p q root u h k = elim (either (eq_path p root) (is_rooted_by p root) h) [
  | inl e ↦ (p, one u, e)
  | inr e ↦ let r = k e in (r.0, more r.1 u, r.2)
]
  where
    either : (a b : Bool) → (a || b) ≡ true → (a ≡ true) ⊎ (b ≡ true)
    either a b h = ground arith

rests : (path root : PathEnum) → is_rooted_by path root ≡ true → Rests path root
unfolding is_rooted_by
rests (computed (value (Expression.initial_parameter_value p t) n)) root h =
    here_or_above p _ root (place n (of_parameter_value t)) h (rests p root)
rests (computed (value (Expression.reference p) n)) root h =
    here_or_above p _ root (place n of_reference) h (rests p root)
rests (computed (value (Expression.variable p t) n)) root h =
    here_or_above p _ root (place n (of_variable t)) h (rests p root)
rests
      (offset_path
        (value (Expression.offset (value (Expression.initial_parameter_value p t) m) r) n))
      root h =
    here_or_above p _ root (base m n r (of_parameter_value t)) h (rests p root)
rests (offset_path (value (Expression.offset (value (Expression.reference p) m) r) n)) root h =
    here_or_above p _ root (base m n r of_reference) h (rests p root)
rests (offset_path (value (Expression.offset (value (Expression.variable p t) m) r) n)) root h =
    here_or_above p _ root (base m n r (of_variable t)) h (rests p root)
rests (qualified_path n q s) root h = here_or_above q _ root (qualifier n s) h (rests q root)
rests p root h = absurd (ground arith)

step_test :
    (p q root : PathEnum)
    → Under p q
    → is_rooted_by q root ≡ (eq_path p root || is_rooted_by p root)
unfolding is_rooted_by
step_test p _ root (qualifier n s) = refl
step_test p _ root (place n (of_parameter_value t)) = refl
step_test p _ root (place n of_reference) = refl
step_test p _ root (place n (of_variable t)) = refl
step_test p _ root (base m n r (of_parameter_value t)) = refl
step_test p _ root (base m n r of_reference) = refl
step_test p _ root (base m n r (of_variable t)) = refl

rooted :
    (q path root : PathEnum) → Rooted q path → eq_path q root ≡ true → is_rooted_by path root ≡ true
rooted q path root (one u) e =
    step_test q path root u ∙ or_left (eq_path q root) (is_rooted_by q root) e
  where
    or_left : (a b : Bool) → a ≡ true → (a || b) ≡ true
    or_left a b h = ground arith
rooted q path root (more {q = p} r u) e =
    step_test p path root u ∙ or_right (eq_path p root) (is_rooted_by p root) (rooted q p root r e)
  where
    or_right : (a b : Bool) → b ≡ true → (a || b) ≡ true
    or_right a b h = ground arith

-- `path.is_rooted_by(root)` holds exactly if a path equal to the root is reached from the path by one or
-- more steps to a qualifier, to the place that a computed value stands for, or to the base of an offset.
pub is_rooted_by_exact : (path root : PathEnum) → (is_rooted_by path root ≡ true) ↔ Rests path root
is_rooted_by_exact path root = (rests path root, λ h. rooted h.0 path root h.1 h.2)

-- The root of a path is its own root.
pub get_path_root_twice : (p : PathEnum) → get_path_root (get_path_root p) ≡ get_path_root p
unfolding get_path_root
get_path_root_twice (computed (value (Expression.initial_parameter_value p t) n)) =
    get_path_root_twice p
get_path_root_twice (computed (value (Expression.reference p) n)) = get_path_root_twice p
get_path_root_twice (computed (value (Expression.variable p t) n)) = get_path_root_twice p
get_path_root_twice (offset_path (value (Expression.initial_parameter_value p t) n)) =
    get_path_root_twice p
get_path_root_twice (offset_path (value (Expression.reference p) n)) = get_path_root_twice p
get_path_root_twice (offset_path (value (Expression.variable p t) n)) = get_path_root_twice p
get_path_root_twice (qualified_path n q s) = get_path_root_twice q
get_path_root_twice p = refl

-- Adding selectors keeps the root of a path, or gives the path of the bottom value.
pub add_selectors-root :
    (p : PathEnum) (ss : List PathSelector)
    → (get_path_root (add_selectors p ss) ≡ get_path_root p)
      ⊎ (is_bottom_path (add_selectors p ss) ≡ true)
unfolding add_selectors get_path_root
add_selectors-root p [] = inl refl
add_selectors-root p (s ∷ ss) =
    qualified_cases
      (λ q.
        (get_path_root (add_selectors q ss) ≡ get_path_root p)
        ⊎ (is_bottom_path (add_selectors q ss) ≡ true))
      p s (λ b. add_selectors-root p ss)
      (λ l. inr (bottom_stays (computed (value Expression.bottom 1)) ss refl))
      (λ b l. add_selectors-root (qualified_path (path_length p + 1) p s) ss)
