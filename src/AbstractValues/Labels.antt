-- ===== src/AbstractValues/Labels.antt =====
-- checker/src/abstract_value.rs: the tags of an abstract value, against sets of tags of its concrete values.
use hepha.Prelude.{
  arith, ◌≡◌, refl, sym, ℕ, Bool, true, ◌||◌, Option, none, some, List, [], ◌∷◌, inl, inr, ◌⊎◌,
}
use hepha.BoolDomain
use hepha.BoolDomain.{BoolDomain, may_be}
use hepha.BoolDomain.Meaning.{or_sound}
use hepha.TagPropagation.{TagPropagation}
use hepha.Tag.{Tag}
use hepha.TreeMap.{TreeMap}
use hepha.TagDomain
use hepha.TagDomain.{TagDomain, has_tag, add_tag, empty_set, propagate_through}
use hepha.TagDomain.Meaning.{
  Stands, has_tag-or, has_tag-join, propagate_through_sound, add_tag_sound,
}
use hepha.Value.{
  Expression, AbstractValue, value, Cases, no_cases, case_of, Values, no_values, value_and,
}
use hepha.Value.Kinds.{get_tag_propagation}
use hepha.Value.Operands.{operands, listed}
use hepha.AbstractValues.Evaluation.{ResultOf, first, later}
use hepha.AbstractValues.Tags.{binary_tags, get_tags, case_tags, argument_tags}
use hepha.AbstractValues.Carries.{
  Carries, AllCarry, untagged, any_tags, consequent, alternate, left, right, default, one_case,
  added, widened, operation, none_left, one_more, union, propagated, no_tags, is_untagged, is_place,
}

or_assoc : (a b c : Bool) → ((a || b) || c) ≡ (a || (b || c))
or_assoc a b c = ground arith

module _ (M : TreeMap Tag BoolDomain) where
  union-Stands :
      (d o : TagDomain M) (s t : Tag → Bool)
      → Stands M d s
      → Stands M o t
      → Stands M (TagDomain.or M d o) (union s t)
  union-Stands d o s t h k tag =
      rw (has_tag-or M d o tag)
        (or_sound (has_tag M d tag) (has_tag M o tag) (s tag) (t tag) (h tag) (k tag))

  either-Stands :
      (d o : TagDomain M) (s : Tag → Bool)
      → Stands M d s ⊎ Stands M o s
      → Stands M (TagDomain.join M d o) s
  unfolding BoolDomain.join
  either-Stands d o s (inl h) tag = rw (has_tag-join M d o tag) (ground (arith, h tag))
  either-Stands d o s (inr h) tag = rw (has_tag-join M d o tag) (ground (arith, h tag))

  empty-Stands : Stands M (empty_set M) no_tags
  unfolding empty_set has_tag
  empty-Stands tag = ground (arith, M.get-empty tag)

  top-Stands : (s : Tag → Bool) → Stands M (TagDomain.top M) s
  unfolding TagDomain.top has_tag
  top-Stands s tag = ground (arith, M.get-empty tag)

  same-Stands :
      (d : TagDomain M) (s t : Tag → Bool)
      → ((tag : Tag) → s tag ≡ t tag)
      → Stands M d s
      → Stands M d t
  same-Stands d s t e h tag = rw (sym (e tag)) (h tag)

  -- The loop over the operands of an operation.
  from : TagPropagation → TagDomain M → List AbstractValue → TagDomain M
  from p d [] = d
  from p d (v ∷ vs) = from p (TagDomain.or M d (propagate_through M (get_tags M v) p)) vs

  joined : TagPropagation → List AbstractValue → TagDomain M
  joined p [] = empty_set M
  joined p (v ∷ vs) = from p (propagate_through M (get_tags M v) p) vs

  argument_tags-from :
      (d : TagDomain M) (args : Values)
      → argument_tags M d args ≡ from TagPropagation.uninterpreted_call d (listed args)
  unfolding get_tags listed from
  argument_tags-from d no_values = refl
  argument_tags-from d (value_and l args) =
      argument_tags-from
        (TagDomain.or M d (propagate_through M (get_tags M l) TagPropagation.uninterpreted_call))
        args

  -- The tags of an operation are joined from those of the operands.
  FromOperands : Option TagPropagation → Expression → ℕ → Type 0
  FromOperands none e n = get_tags M (value e n) ≡ get_tags M (value e n)
  FromOperands (some p) e n = get_tags M (value e n) ≡ joined p (operands e)

  standard : (e : Expression) (n : ℕ) → FromOperands (get_tag_propagation e) e n
  unfolding FromOperands get_tag_propagation get_tags binary_tags operands joined from
  standard (Expression.uninterpreted_call l args t p) n =
      argument_tags-from (propagate_through M (get_tags M l) TagPropagation.uninterpreted_call) args
  standard (Expression.neg l) n = refl
  standard e n = refl

  standard_of :
      (o : Option TagPropagation) (p : TagPropagation) (e : Expression) (n : ℕ)
      → o ≡ some p
      → FromOperands o e n
      → get_tags M (value e n) ≡ joined p (operands e)
  unfolding FromOperands
  standard_of none p e n h k = absurd (cc)
  standard_of (some q) p e n h k = let x : q ≡ p = cc in rw (sym x) k

  cases_keep :
      (d : TagDomain M) (cases : Cases) (s : Tag → Bool)
      → Stands M d s
      → Stands M (case_tags M d cases) s
  unfolding get_tags
  cases_keep d no_cases s h = h
  cases_keep d (case_of l r cases) s h =
      cases_keep (TagDomain.join M d (get_tags M r)) cases s
        (either-Stands d (get_tags M r) s (inl h))

  cases_add :
      {v : AbstractValue} (d : TagDomain M) (cases : Cases) (s : Tag → Bool)
      → ResultOf v cases
      → Stands M (get_tags M v) s
      → Stands M (case_tags M d cases) s
  unfolding get_tags
  cases_add d no_cases s i h = elim i [ ]
  cases_add d (case_of l r cases) s first h =
      cases_keep (TagDomain.join M d (get_tags M r)) cases s
        (either-Stands d (get_tags M r) s (inr h))
  cases_add d (case_of l r cases) s (later i) h =
      cases_add (TagDomain.join M d (get_tags M r)) cases s i h

  untagged_tags :
      (e : Expression) (n : ℕ) → is_untagged e ≡ true → get_tags M (value e n) ≡ empty_set M
  unfolding get_tags
  untagged_tags Expression.top n h = refl
  untagged_tags Expression.bottom n h = refl
  untagged_tags (Expression.compile_time_constant c) n h = refl
  untagged_tags (Expression.heap_block a z) n h = refl
  untagged_tags (Expression.heap_block_layout l r o) n h = refl
  untagged_tags (Expression.reference p) n h = refl
  untagged_tags (Expression.unknown_tag_check v t b) n h = refl
  untagged_tags e n h = absurd (ground arith)

  place_tags :
      (e : Expression) (n : ℕ) → is_place e ≡ true → get_tags M (value e n) ≡ TagDomain.top M
  unfolding get_tags
  place_tags (Expression.initial_parameter_value p t) n h = refl
  place_tags (Expression.unknown_model_field p v) n h = refl
  place_tags (Expression.unknown_tag_field p) n h = refl
  place_tags (Expression.variable p t) n h = refl
  place_tags e n h = absurd (ground arith)

  mutual
    unfolding get_tags joined from

    stands : {v : AbstractValue} {s : Tag → Bool} → Carries M v s → Stands M (get_tags M v) s
    stands (untagged {e = e} n h) = rw (untagged_tags e n h) empty-Stands
    stands (any_tags {e = e} n s h) = rw (place_tags e n h) (top-Stands s)
    stands (consequent {c = c} {l = l} {r = r} {s = s} {t = t} n h k) =
        union-Stands (get_tags M c) (TagDomain.join M (get_tags M l) (get_tags M r)) s t (stands h)
          (either-Stands (get_tags M l) (get_tags M r) t (inl (stands k)))
    stands (alternate {c = c} {l = l} {r = r} {s = s} {t = t} n h k) =
        union-Stands (get_tags M c) (TagDomain.join M (get_tags M l) (get_tags M r)) s t (stands h)
          (either-Stands (get_tags M l) (get_tags M r) t (inr (stands k)))
    stands (left {l = l} {r = r} {s = s} n h) =
        either-Stands (get_tags M l) (get_tags M r) s (inl (stands h))
    stands (right {l = l} {r = r} {s = s} n h) =
        either-Stands (get_tags M l) (get_tags M r) s (inr (stands h))
    stands (default {c = c} {d = d} {cases = cases} {s = s} {t = t} n h k) =
        union-Stands (get_tags M c) (case_tags M (get_tags M d) cases) s t (stands h)
          (cases_keep (get_tags M d) cases t (stands k))
    stands (one_case {c = c} {d = d} {cases = cases} {s = s} {t = t} n h i k) =
        union-Stands (get_tags M c) (case_tags M (get_tags M d) cases) s t (stands h)
          (cases_add (get_tags M d) cases t i (stands k))
    stands (added {v = v} {s = s} tag n h) = add_tag_sound M (get_tags M v) tag s (stands h)
    stands (widened p n h) = stands h
    stands (operation {e = e} {s = s} p n h k) =
        rw (standard_of (get_tag_propagation e) p e n h (standard e n))
          (joined-Stands p (operands e) s k)

    joined-Stands :
        (p : TagPropagation) (vs : List AbstractValue) (s : Tag → Bool)
        → AllCarry M p vs s
        → Stands M (joined p vs) s
    joined-Stands p [] _ none_left = empty-Stands
    joined-Stands p (v ∷ vs) _ (one_more {s = s} {t = t} h k) =
        from-Stands p (propagate_through M (get_tags M v) p) vs (propagated p s) t
          (propagate_through_sound M (get_tags M v) p s (stands h)) k

    from-Stands :
        (p : TagPropagation) (d : TagDomain M) (vs : List AbstractValue) (s t : Tag → Bool)
        → Stands M d s
        → AllCarry M p vs t
        → Stands M (from p d vs) (union s t)
    from-Stands p d [] s _ h none_left = same-Stands d s (union s no_tags) (λ tag. ground arith) h
    from-Stands p d (v ∷ vs) s _ h (one_more {s = s'} {t = t} k l) =
        let d' = TagDomain.or M d (propagate_through M (get_tags M v) p) in
        same-Stands (from p d' vs) (union (union s (propagated p s')) t)
          (union s (union (propagated p s') t))
          (λ tag. or_assoc (s tag) (propagated p s' tag) (t tag))
          (from-Stands p d' vs (union s (propagated p s')) t
            (union-Stands d (propagate_through M (get_tags M v) p) s (propagated p s') h
              (propagate_through_sound M (get_tags M v) p s' (stands k)))
            l)

  -- If a concrete value of an expression may have a set of tags, then the tag domain that is computed for
  -- the expression stands for the set.
  pub get_tags_sound :
      (v : AbstractValue) (s : Tag → Bool) → Carries M v s → Stands M (get_tags M v) s
  get_tags_sound v s h = stands h
