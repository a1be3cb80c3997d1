-- ===== src/AbstractValues/Truth.antt =====
-- checker/src/abstract_value.rs: implications between conditions, against their truth values.
use hepha.Prelude.{
  or_cases, arith, ℕ, some, inl, inr, ◌⊎◌, ◌≡◌, refl, sym, ◌∙◌, Bool, not, ◌&&◌, ◌||◌,
}
use hepha.Constant.{ConstantDomain}
use hepha.Value.{AbstractValue, value, and, or, logical_not, compile_time_constant}
use hepha.AbstractValues.{
  eq_value, unwrap_or, as_bool_if_known, known_implication, implies, implies_disjunct, negates,
  implies_not, inverse_implies_not, inverse_implies_not_conjunct,
}

-- The truth values of conditions in a state of the program: equal conditions have the same one.
pub record Truth (ρ : AbstractValue → Bool) : Type 0 where
  pub of_true : (n : ℕ) → ρ (value (compile_time_constant ConstantDomain.true) n) ≡ Bool.true
  pub of_false : (n : ℕ) → ρ (value (compile_time_constant ConstantDomain.false) n) ≡ Bool.false
  pub of_and : (l r : AbstractValue) (n : ℕ) → ρ (value (and l r) n) ≡ (ρ l && ρ r)
  pub of_or : (l r : AbstractValue) (n : ℕ) → ρ (value (or l r) n) ≡ (ρ l || ρ r)
  pub of_not : (v : AbstractValue) (n : ℕ) → ρ (value (logical_not v) n) ≡ not (ρ v)
  pub of_equal : (v w : AbstractValue) → eq_value v w ≡ Bool.true → ρ v ≡ ρ w

abbrev pub is_conjunction : AbstractValue → Bool
is_conjunction (value (and l r) n) = Bool.true
is_conjunction _ = Bool.false

module _ (ρ : AbstractValue → Bool) (t : Truth ρ) where
  known : (v : AbstractValue) (b : Bool) → as_bool_if_known v ≡ some b → ρ v ≡ b
  unfolding as_bool_if_known
  known (value (compile_time_constant ConstantDomain.true) n) b h = ground (arith, t.of_true n)
  known (value (compile_time_constant ConstantDomain.false) n) b h = ground (arith, t.of_false n)
  known v b h = ground arith

  known_false :
      (v : AbstractValue) → ρ v ≡ Bool.true → unwrap_or (as_bool_if_known v) Bool.true ≡ Bool.true
  unfolding as_bool_if_known
  known_false (value (compile_time_constant ConstantDomain.true) n) h = refl
  known_false (value (compile_time_constant ConstantDomain.false) n) h =
      ground (arith, t.of_false n)
  known_false v h = refl

  known_true :
      (v : AbstractValue) → unwrap_or (as_bool_if_known v) Bool.false ≡ Bool.true → ρ v ≡ Bool.true
  unfolding as_bool_if_known
  known_true (value (compile_time_constant ConstantDomain.true) n) h = t.of_true n
  known_true (value (compile_time_constant ConstantDomain.false) n) h = ground arith
  known_true v h = ground arith

  known_not :
      (v : AbstractValue) → unwrap_or (as_bool_if_known v) Bool.true ≡ Bool.false → ρ v ≡ Bool.false
  unfolding as_bool_if_known
  known_not (value (compile_time_constant ConstantDomain.true) n) h = ground arith
  known_not (value (compile_time_constant ConstantDomain.false) n) h = t.of_false n
  known_not v h = ground arith

  known_implication_sound :
      (s o : AbstractValue) (rest : Bool)
      → known_implication s o rest ≡ Bool.true
      → (rest ≡ Bool.true → ρ s ≡ Bool.true → ρ o ≡ Bool.true)
      → ρ s ≡ Bool.true
      → ρ o ≡ Bool.true
  unfolding known_implication
  known_implication_sound s o rest h k p =
      ground (arith, known_false s p, known_true o, t.of_equal s o)

  and_operands :
      (l r : AbstractValue) (n : ℕ)
      → ρ (value (and l r) n) ≡ Bool.true
      → (ρ l ≡ Bool.true) × (ρ r ≡ Bool.true)
  and_operands l r n h = ground (arith, t.of_and l r n)

  or_operand :
      (l r : AbstractValue) (n : ℕ)
      → (ρ l ≡ Bool.true) ⊎ (ρ r ≡ Bool.true)
      → ρ (value (or l r) n) ≡ Bool.true
  or_operand l r n h = ground (arith, t.of_or l r n)

  implies_disjunct_sound :
      (s o : AbstractValue) → implies_disjunct s o ≡ Bool.true → ρ s ≡ Bool.true → ρ o ≡ Bool.true
  unfolding implies_disjunct
  implies_disjunct_sound s (value (or l r) n) h p =
      known_implication_sound s (value (or l r) n) (implies_disjunct s l || implies_disjunct s r) h
        (λ k q. or_operand l r n (
          or_cases (implies_disjunct s l) (implies_disjunct s r) k
            (λ a. inl (implies_disjunct_sound s l a q))
            (λ b. inr (implies_disjunct_sound s r b q))))
        p
  implies_disjunct_sound s o h p = known_implication_sound s o Bool.false h (λ k _. ground arith) p

  -- In each assignment of truth values that respects the connectives and `==`, where
  -- `self.implies(other)` holds and `self` is true, `other` is true.
  pub implies_sound :
      (s o : AbstractValue) → implies s o ≡ Bool.true → ρ s ≡ Bool.true → ρ o ≡ Bool.true
  unfolding implies
  implies_sound (value (and l r) m) o h p =
      known_implication_sound (value (and l r) m) o (implies l o || implies r o) h
        (λ k q.
          or_cases (implies l o) (implies r o) k (λ a. implies_sound l o a (and_operands l r m q).0)
            (λ b. implies_sound r o b (and_operands l r m q).1))
        p
  implies_sound s o h p = implies_disjunct_sound s o h p

  -- In each assignment of truth values that respects the connectives and `==`, where
  -- `self.implies_not(other)` holds and `self` is true, `other` is false.
  pub implies_not_sound :
      (s o : AbstractValue) → implies_not s o ≡ Bool.true → ρ s ≡ Bool.true → ρ o ≡ Bool.false
  unfolding implies_not negates
  implies_not_sound (value (logical_not v) n) o h p =
      ground
        (arith, known_false (value (logical_not v) n) p, known_not o, t.of_not v n, t.of_equal v o)
  implies_not_sound s o h p = ground (arith, known_false s p, known_not o)

  not_conjunct_sound :
      (s o : AbstractValue)
      → is_conjunction o ≡ Bool.false
      → inverse_implies_not_conjunct s o ≡ Bool.true
      → ρ s ≡ Bool.false
      → ρ o ≡ Bool.false
  unfolding inverse_implies_not_conjunct
  not_conjunct_sound s (value (and l r) n) c h p = absurd (ground arith)
  not_conjunct_sound s o c h p = sym (t.of_equal s o h) ∙ p

  or_operands :
      (l r : AbstractValue) (n : ℕ)
      → ρ (value (or l r) n) ≡ Bool.false
      → (ρ l ≡ Bool.false) × (ρ r ≡ Bool.false)
  or_operands l r n h = ground (arith, t.of_or l r n)

  -- Where `other` is no conjunction, `self.inverse_implies_not(other)` is right: in each state in which
  -- `self` is false, `other` is false.
  pub inverse_implies_not_sound :
      (s o : AbstractValue)
      → is_conjunction o ≡ Bool.false
      → inverse_implies_not s o ≡ Bool.true
      → ρ s ≡ Bool.false
      → ρ o ≡ Bool.false
  unfolding inverse_implies_not
  inverse_implies_not_sound (value (or l r) m) o c h p =
      or_cases (eq_value (value (or l r) m) o || inverse_implies_not l o) (inverse_implies_not r o)
        h
        (λ a.
          or_cases (eq_value (value (or l r) m) o) (inverse_implies_not l o) a
            (λ e. sym (t.of_equal (value (or l r) m) o e) ∙ p)
            (λ e. inverse_implies_not_sound l o c e (or_operands l r m p).0))
        (λ b. inverse_implies_not_sound r o c b (or_operands l r m p).1)
  inverse_implies_not_sound s o c h p = not_conjunct_sound s o c h p
