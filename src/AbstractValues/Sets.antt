-- ===== src/AbstractValues/Sets.antt =====
-- checker/src/abstract_value.rs: the order of abstract values, against sets of concrete values.
use hepha.Prelude.{both, or_cases, ◌≡◌, ℕ, Bool, true, ◌&&◌, ◌||◌, ◌⊎◌, inl, inr}
use hepha.Value.{
  AbstractValue, value, top, bottom, conditional_expression, join, widened_join, PathEnum,
}
use hepha.AbstractValues.{
  eq_value, plain_subset, widened_subset, join_subset, conditional_subset, top_subset, subset,
}

-- The set of the concrete values that each abstract value stands for. Nothing but monotonicity is
-- asked of widening.
pub record Sets {C : Type 0} (γ : AbstractValue → C → Type 0) : Type 0 where
  pub of_equal : (v w : AbstractValue) → eq_value v w ≡ true → (z : C) → γ v z → γ w z
  pub of_bottom : (n : ℕ) (z : C) → ¬ γ (value bottom n) z
  pub of_top : (n : ℕ) (z : C) → γ (value top n) z
  pub of_conditional :
      (c l r : AbstractValue) (n : ℕ) (z : C)
      → (γ (value (conditional_expression c l r) n) z → γ l z ⊎ γ r z)
        × (γ l z ⊎ γ r z → γ (value (conditional_expression c l r) n) z)
  pub of_join :
      (l r : AbstractValue) (n : ℕ) (z : C)
      → (γ (value (join l r) n) z → γ l z ⊎ γ r z) × (γ l z ⊎ γ r z → γ (value (join l r) n) z)
  pub of_widened :
      (p : PathEnum) (v : AbstractValue) (n : ℕ) (z : C) → γ v z → γ (value (widened_join p v) n) z
  pub widened_mono :
      (p q : PathEnum) (v w : AbstractValue) (m n : ℕ)
      → ((z : C) → γ v z → γ w z)
      → (z : C) → γ (value (widened_join p v) m) z
      → γ (value (widened_join q w) n) z

module _ {C : Type 0} (γ : AbstractValue → C → Type 0) (sets : Sets γ) where
  -- Each concrete value of the first is one of the second.
  abbrev Within : AbstractValue → AbstractValue → Type 0
  Within v w = (z : C) → γ v z → γ w z

  -- The test of the operands of a value says that the value lies within another.
  abbrev Right : AbstractValue → (AbstractValue → Bool) → Type 0
  Right s test = (w : AbstractValue) → test w ≡ true → Within s w

  into_conditional :
      (s c l r : AbstractValue) (n : ℕ) (x y : Bool)
      → (eq_value s (value (conditional_expression c l r) n) || x || y) ≡ true
      → (x ≡ true → Within s l)
      → (y ≡ true → Within s r)
      → Within s (value (conditional_expression c l r) n)
  into_conditional s c l r n x y h f g z k =
      or_cases (eq_value s (value (conditional_expression c l r) n) || x) y h
        (λ e.
          or_cases (eq_value s (value (conditional_expression c l r) n)) x e
            (λ a. sets.of_equal s (value (conditional_expression c l r) n) a z k)
            (λ a. (sets.of_conditional c l r n z).1 (inl (f a z k))))
        (λ b. (sets.of_conditional c l r n z).1 (inr (g b z k)))

  into_widened :
      (s r : AbstractValue) (q : PathEnum) (n : ℕ) (x : Bool)
      → (eq_value s (value (widened_join q r) n) || x) ≡ true
      → (x ≡ true → Within s (value (widened_join q r) n))
      → Within s (value (widened_join q r) n)
  into_widened s r q n x h f z k =
      or_cases (eq_value s (value (widened_join q r) n)) x h
        (λ e. sets.of_equal s (value (widened_join q r) n) e z k) (λ a. f a z k)

  into_join :
      (s l r : AbstractValue) (n : ℕ) (x y : Bool)
      → (eq_value s (value (join l r) n) || (x && y)) ≡ true
      → (x ≡ true → Within s l)
      → Within s (value (join l r) n)
  into_join s l r n x y h f z k =
      or_cases (eq_value s (value (join l r) n)) (x && y) h
        (λ e. sets.of_equal s (value (join l r) n) e z k)
        (λ e. (sets.of_join l r n z).1 (inl (f (both x y e).0 z k)))

  by_equality : (s o : AbstractValue) → eq_value s o ≡ true → Within s o
  by_equality s o h = sets.of_equal s o h

  plain_sound : (s : AbstractValue) → Right s (plain_subset s)
  unfolding plain_subset
  plain_sound s (value top n) h = λ z k. sets.of_top n z
  plain_sound s (value (conditional_expression c l r) n) h =
      into_conditional s c l r n (plain_subset s l) (plain_subset s r) h (plain_sound s l)
        (plain_sound s r)
  plain_sound s (value (widened_join q r) n) h =
      into_widened s r q n (plain_subset s r) h
        (λ a z k. sets.of_widened q r n z (plain_sound s r a z k))
  plain_sound s (value (join l r) n) h =
      into_join s l r n (plain_subset s l) (plain_subset s r) h (plain_sound s l)
  plain_sound s o h = by_equality s o h

  widened_sound :
      (p : PathEnum) (v : AbstractValue) (m : ℕ) (test : AbstractValue → Bool)
      → Right v test
      → Right (value (widened_join p v) m) (widened_subset (value (widened_join p v) m) test)
  unfolding widened_subset
  widened_sound p v m test f (value top n) h = λ z k. sets.of_top n z
  widened_sound p v m test f (value (conditional_expression c l r) n) h =
      into_conditional (value (widened_join p v) m) c l r n
        (widened_subset (value (widened_join p v) m) test l)
        (widened_subset (value (widened_join p v) m) test r) h (widened_sound p v m test f l)
        (widened_sound p v m test f r)
  widened_sound p v m test f (value (widened_join q r) n) h =
      into_widened (value (widened_join p v) m) r q n (test r) h
        (λ a. sets.widened_mono p q v r m n (f r a))
  widened_sound p v m test f (value (join l r) n) h =
      into_join (value (widened_join p v) m) l r n
        (widened_subset (value (widened_join p v) m) test l)
        (widened_subset (value (widened_join p v) m) test r) h (widened_sound p v m test f l)
  widened_sound p v m test f o h = by_equality (value (widened_join p v) m) o h

  or_operands :
      (s o : AbstractValue) (test : AbstractValue → Bool)
      → Right s test
      → (eq_value s o || test o) ≡ true
      → Within s o
  or_operands s o test f h z k =
      or_cases (eq_value s o) (test o) h (λ e. sets.of_equal s o e z k) (λ e. f o e z k)

  join_sound :
      (s : AbstractValue) (test : AbstractValue → Bool)
      → Right s test
      → Right s (join_subset s test)
  unfolding join_subset
  join_sound s test f (value bottom n) h = by_equality s (value bottom n) h
  join_sound s test f (value top n) h = λ z k. sets.of_top n z
  join_sound s test f (value (conditional_expression c l r) n) h =
      into_conditional s c l r n (join_subset s test l) (join_subset s test r) h
        (join_sound s test f l) (join_sound s test f r)
  join_sound s test f (value (widened_join q r) n) h =
      into_widened s r q n (join_subset s test r) h
        (λ a z k. sets.of_widened q r n z (join_sound s test f r a z k))
  join_sound s test f o h = or_operands s o test f h

  conditional_sound :
      (s : AbstractValue) (test : AbstractValue → Bool)
      → Right s test
      → Right s (conditional_subset s test)
  unfolding conditional_subset
  conditional_sound s test f (value bottom n) h = by_equality s (value bottom n) h
  conditional_sound s test f (value top n) h = λ z k. sets.of_top n z
  conditional_sound s test f o h = or_operands s o test f h

  top_sound : (s : AbstractValue) → Right s (top_subset s)
  unfolding top_subset
  top_sound s (value top n) h = λ z k. sets.of_top n z
  top_sound s o h = by_equality s o h

  -- Whatever sets of concrete values the abstract values stand for, if joins and conditionals have the
  -- union of their operands and widening is monotone: where `self.subset(other)` holds, each
  -- concrete value of `self` is one of `other`.
  pub subset_sound : (s o : AbstractValue) → subset s o ≡ true → (z : C) → γ s z → γ o z
  unfolding subset
  subset_sound (value bottom m) o h = λ z k. absurd (sets.of_bottom m z k)
  subset_sound (value top m) o h = top_sound (value top m) o h
  subset_sound (value (conditional_expression c l r) m) o h =
      conditional_sound (value (conditional_expression c l r) m) (λ v. subset l v && subset r v)
        (λ w e z k. elim ((sets.of_conditional c l r m z).0 k) [
          | inl a ↦ subset_sound l w (both (subset l w) (subset r w) e).0 z a
          | inr b ↦ subset_sound r w (both (subset l w) (subset r w) e).1 z b
        ])
        o h
  subset_sound (value (widened_join p l) m) o h =
      widened_sound p l m (λ v. subset l v) (λ w e. subset_sound l w e) o h
  subset_sound (value (join l r) m) o h =
      join_sound (value (join l r) m) (λ v. subset l v && subset r v)
        (λ w e z k. elim ((sets.of_join l r m z).0 k) [
          | inl a ↦ subset_sound l w (both (subset l w) (subset r w) e).0 z a
          | inr b ↦ subset_sound r w (both (subset l w) (subset r w) e).1 z b
        ])
        o h
  subset_sound s o h = plain_sound s o h
