-- ===== src/AbstractValues/Parts.antt =====
-- checker/src/abstract_value.rs: the widened parts that are found in an expression.
use hepha.Prelude.{
  arith, ◌≡◌, refl, ap, sym, ◌∙◌, ℕ, Bool, true, false, Option, none, some, List, [], ◌∷◌,
  if◌then◌else◌,
}
use hepha.Value.{
  Expression, AbstractValue, value, Cases, no_cases, case_of, Values, no_values, value_and,
  PathEnum,
}
use hepha.Value.Equality.{eq_path}
use hepha.Value.Operands.{operands, case_operands, listed, All, value_induction}
use hepha.AbstractValues.Widened.{or_else, get_widened_subexpression, find_case, find_argument}

-- The operands in which widened parts are looked for: not those of a widened join, nor the default of an
-- unknown model field.
abbrev pub searched : Expression → List AbstractValue
searched (Expression.widened_join _ _) = []
searched (Expression.unknown_model_field _ _) = []
searched e = operands e

abbrev is_widened_join : Expression → Bool
is_widened_join (Expression.widened_join _ _) = true
is_widened_join _ = false

-- The value is one of the list.
pub data OneOf : AbstractValue → List AbstractValue → Type 0 where
  here : {v : AbstractValue} {vs : List AbstractValue} → OneOf v (v ∷ vs)
  there : {v w : AbstractValue} {vs : List AbstractValue} → OneOf v vs → OneOf v (w ∷ vs)

-- The widened join stands in the value, below no other widened join.
pub data WidenedIn : PathEnum → AbstractValue → ℕ → AbstractValue → Type 0 where
  whole :
      {path : PathEnum} {l : AbstractValue} {n : ℕ}
      → WidenedIn path l n (value (Expression.widened_join path l) n)
  within :
      {path : PathEnum} {l : AbstractValue} {n : ℕ} {v : AbstractValue} {e : Expression} (m : ℕ)
      → OneOf v (searched e)
      → WidenedIn path l n v
      → WidenedIn path l n (value e m)

only_case :
    (q r : PathEnum) (l k : AbstractValue) (m n : ℕ)
    → WidenedIn r k m (value (Expression.widened_join q l) n)
    → r ≡ q
only_case q _ l _ m n whole = refl
only_case q r l k m n (within _ i s) = elim i [ ]

module _ (p : PathEnum) where
  first_found : List AbstractValue → Option AbstractValue
  first_found [] = none
  first_found (v ∷ vs) = or_else (get_widened_subexpression v p) (first_found vs)

  or_else-none : (o : Option AbstractValue) → or_else o none ≡ o
  or_else-none none = refl
  or_else-none (some v) = refl

  or_else_assoc : (a b c : Option AbstractValue) → or_else (or_else a b) c ≡ or_else a (or_else b c)
  or_else_assoc none b c = refl
  or_else_assoc (some v) b c = refl

  find_case-first : (cases : Cases) → find_case cases p ≡ first_found (case_operands cases)
  unfolding get_widened_subexpression case_operands first_found
  find_case-first no_cases = refl
  find_case-first (case_of l r cases) =
      or_else_assoc (get_widened_subexpression l p) (get_widened_subexpression r p)
        (find_case cases p)
      ∙ ap
          (λ o. or_else (get_widened_subexpression l p) (or_else (get_widened_subexpression r p) o))
          (find_case-first cases)

  find_argument-first : (args : Values) → find_argument args p ≡ first_found (listed args)
  unfolding get_widened_subexpression listed first_found
  find_argument-first no_values = refl
  find_argument-first (value_and l args) =
      ap (or_else (get_widened_subexpression l p)) (find_argument-first args)

  -- `first_found` without a `none` at the end.
  nested : List AbstractValue → Option AbstractValue
  nested [] = none
  nested (v ∷ []) = get_widened_subexpression v p
  nested (v ∷ w ∷ vs) = or_else (get_widened_subexpression v p) (nested (w ∷ vs))

  nested-first : (vs : List AbstractValue) → nested vs ≡ first_found vs
  unfolding nested first_found
  nested-first [] = refl
  nested-first (v ∷ []) = sym (or_else-none (get_widened_subexpression v p))
  nested-first (v ∷ w ∷ vs) = ap (or_else (get_widened_subexpression v p)) (nested-first (w ∷ vs))

  -- The traversal takes the first widened part of the operands, in their order.
  searched_found :
      (e : Expression) (n : ℕ)
      → is_widened_join e ≡ false
      → get_widened_subexpression (value e n) p ≡ first_found (searched e)
  unfolding get_widened_subexpression operands first_found nested
  searched_found (Expression.widened_join q l) n d = absurd (ground arith)
  searched_found (Expression.unknown_model_field q l) n d = refl
  searched_found (Expression.switch l cases r) n d =
      (ap (λ o. or_else (get_widened_subexpression l p) (or_else (get_widened_subexpression r p) o))
        (find_case-first cases))
  searched_found (Expression.uninterpreted_call l args t q) n d =
      (ap (or_else (get_widened_subexpression l p)) (find_argument-first args))
  searched_found e n d = (nested-first (operands e))

  -- What a search gives that found `w` in `v`: a widened join of the path that stands in `v`.
  pub record Found (w v : AbstractValue) : Type 0 where
    pub path : PathEnum
    pub operand : AbstractValue
    pub size : ℕ
    pub is_join : w ≡ value (Expression.widened_join path operand) size
    pub same_path : eq_path path p ≡ true
    pub stands : WidenedIn path operand size v

  -- The results of a search in `v`.
  abbrev pub Searched : Option AbstractValue → AbstractValue → Type 0
  Searched (some w) v = Found w v
  Searched none v =
      (q : PathEnum) (l : AbstractValue) (n : ℕ) → WidenedIn q l n v → eq_path q p ≡ false

  -- The results of a search in a list.
  abbrev SearchedAll : Option AbstractValue → List AbstractValue → Type 0
  SearchedAll (some w) vs = (v : AbstractValue) × OneOf v vs × Found w v
  SearchedAll none vs =
      (v : AbstractValue)
      → OneOf v vs
      → (q : PathEnum) (l : AbstractValue) (n : ℕ) → WidenedIn q l n v
      → eq_path q p ≡ false

  none_of :
      (v : AbstractValue) (vs : List AbstractValue)
      → Searched none v
      → SearchedAll none vs
      → SearchedAll none (v ∷ vs)
  none_of v vs h k u here = h
  none_of v vs h k u (there i) = k u i

  first_of :
      (o r : Option AbstractValue) (v : AbstractValue) (vs : List AbstractValue)
      → Searched o v
      → SearchedAll r vs
      → SearchedAll (or_else o r) (v ∷ vs)
  first_of (some w) r v vs h k = (v, here, h)
  first_of none (some w) v vs h k = (k.0, there k.1, k.2)
  first_of none none v vs h k = none_of v vs h k

  search_list :
      (vs : List AbstractValue)
      → All (λ v. Searched (get_widened_subexpression v p) v) vs
      → SearchedAll (first_found vs) vs
  unfolding first_found
  search_list [] h = λ v i. elim i [ ]
  search_list (v ∷ vs) h =
      first_of (get_widened_subexpression v p) (first_found vs) v vs h.0 (search_list vs h.1)

  searched-All :
      (P : AbstractValue → Type 0) (e : Expression) → All P (operands e) → All P (searched e)
  unfolding operands
  searched-All P (Expression.widened_join q l) h = tt
  searched-All P (Expression.unknown_model_field q l) h = tt
  searched-All P e h = h

  none_in :
      (e : Expression) (n : ℕ)
      → is_widened_join e ≡ false
      → SearchedAll none (searched e)
      → (q : PathEnum) (l : AbstractValue) (m : ℕ) → WidenedIn q l m (value e n)
      → eq_path q p ≡ false
  none_in _ n d h q l m whole = absurd (ground arith)
  none_in e n d h q l m (within {v = v} k i s) = h v i q l m s

  into_value :
      (e : Expression) (n : ℕ) (o : Option AbstractValue)
      → is_widened_join e ≡ false
      → SearchedAll o (searched e)
      → Searched o (value e n)
  into_value e n (some w) d h = record {
    path = h.2.path;
    operand = h.2.operand;
    size = h.2.size;
    is_join = h.2.is_join;
    same_path = h.2.same_path;
    stands = within n h.1 h.2.stands;
  }
  into_value e n none d h = none_in e n d h

  only :
      (q : PathEnum) (l : AbstractValue) (n : ℕ)
      → eq_path q p ≡ false
      → Searched none (value (Expression.widened_join q l) n)
  only q l n e r k m w = ap (λ t. eq_path t p) (only_case q r l k m n w) ∙ e

  -- A widened join is found if its path is the one that is looked for.
  of_join :
      (q : PathEnum) (l : AbstractValue) (n : ℕ)
      → (b : Bool) → eq_path q p ≡ b
      → Searched
          (if b then some (value (Expression.widened_join q l) n) else none)
          (value (Expression.widened_join q l) n)
  of_join q l n true e = record {
    path = q;
    operand = l;
    size = n;
    is_join = refl;
    same_path = e;
    stands = whole;
  }
  of_join q l n false e = only q l n e

  search_other :
      (e : Expression) (n : ℕ)
      → is_widened_join e ≡ false
      → All (λ v. Searched (get_widened_subexpression v p) v) (operands e)
      → Searched (get_widened_subexpression (value e n) p) (value e n)
  search_other e n d h = rw (searched_found e n d) (
      into_value e n (first_found (searched e)) d (
        search_list (searched e)
          (searched-All (λ v. Searched (get_widened_subexpression v p) v) e h)))

  search_step :
      (e : Expression) (n : ℕ)
      → All (λ v. Searched (get_widened_subexpression v p) v) (operands e)
      → Searched (get_widened_subexpression (value e n) p) (value e n)
  unfolding get_widened_subexpression
  search_step (Expression.widened_join q l) n h = of_join q l n (eq_path q p) refl
  search_step e n h = search_other e n refl h

  -- What `get_widened_subexpression` finds in a value is a widened join of the path, which stands in the
  -- value; where it finds nothing, no widened join that stands in the value, outside of other widened
  -- joins and of the defaults of model fields, has the path.
  pub get_widened_subexpression_exact :
      (v : AbstractValue) → Searched (get_widened_subexpression v p) v
  get_widened_subexpression_exact v =
      value_induction (λ v. Searched (get_widened_subexpression v p) v) search_step v
