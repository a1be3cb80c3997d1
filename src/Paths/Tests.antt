-- ===== src/Paths/Tests.antt =====
-- Paths of checker/src/path.rs at concrete values.
use hepha.Prelude.{arith, ℕ, zero, suc, ◌≡◌, refl, ◌↔◌, ◌⊎◌, ◌≤◌, true, false, ◌+◌, List, [], ◌∷◌}
use hepha.Value.{
  Expression, value, PathEnum, PathSelector, computed, parameter, qualified_path, deref, field,
}
use hepha.Value.Equality.{eq_selector}
use hepha.Paths.{
  max_path_length, path_length, is_bottom_path, add_selectors, remove_selector, get_path_root,
  is_rooted_by,
}
use hepha.Paths.Length.{
  Measured, length, add_selectors-Measured, add_selectors_overflow, remove_selector-add_selectors,
}
use hepha.Paths.Roots.{Rests, is_rooted_by_exact, add_selectors-root}

-- What the first parameter points to.
abbrev target : PathEnum
target = qualified_path 2 (parameter 1) deref

-- The memory that a reference to the target points to.
abbrev referenced : PathEnum
referenced = computed (value (Expression.reference target) 1)

lengths_example :
    Measured (add_selectors target (field 1 ∷ deref ∷ []))
    × (path_length (add_selectors target (field 1 ∷ deref ∷ [])) ≤ max_path_length)
unfolding path_length
lengths_example = add_selectors-Measured target (field 1 ∷ deref ∷ []) (refl, omega arith, tt)

-- So many dereferences.
abbrev derefs : ℕ → List PathSelector
derefs zero = []
derefs (suc n) = deref ∷ derefs n

overflow_example : is_bottom_path (add_selectors target (derefs 299)) ≡ true
unfolding path_length
overflow_example =
    add_selectors_overflow target (derefs 299) (refl, omega arith, tt) refl (omega arith)

remove_example :
    (eq_selector (field 2) deref ≡ true
      → remove_selector (add_selectors target (field 1 ∷ deref ∷ [])) (field 2)
        ≡ add_selectors target (field 1 ∷ []))
    × (eq_selector (field 2) deref ≡ false
        → (remove_selector (add_selectors target (field 1 ∷ deref ∷ [])) (field 2)
            ≡ add_selectors target (field 1 ∷ deref ∷ []))
          × (path_length (remove_selector (add_selectors target (field 1 ∷ deref ∷ [])) (field 2))
              ≡ path_length target + length (field 1 ∷ []) + 1))
unfolding path_length
remove_example =
    remove_selector-add_selectors target (field 1 ∷ []) deref (field 2) refl (omega arith)

rooted_example : (is_rooted_by referenced (parameter 1) ≡ true) ↔ Rests referenced (parameter 1)
rooted_example = is_rooted_by_exact referenced (parameter 1)

root_example :
    (get_path_root (add_selectors referenced (field 1 ∷ [])) ≡ get_path_root referenced)
    ⊎ (is_bottom_path (add_selectors referenced (field 1 ∷ [])) ≡ true)
root_example = add_selectors-root referenced (field 1 ∷ [])
