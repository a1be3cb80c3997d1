-- ===== src/TagDomain/Meaning.antt =====
-- The operations of checker/src/tag_domain.rs, tag by tag.
use hepha.Prelude.{
  arith, ◌≡◌, refl, ◌∙◌, ◌||◌, ◌&&◌, Bool, true, false, none, some, List, [], ◌∷◌, ◌++◌, map,
  if◌then◌else◌,
}
use hepha.BoolDomain
use hepha.BoolDomain.{BoolDomain, may_be}
use hepha.TagPropagation.{TagPropagation}
use hepha.Tag.{Tag, is_propagated_by}
use hepha.TreeMap.{TreeMap, assoc, Distinct}
use hepha.TagDomain.{
  TagDomain, unwrap_or, add_tag, has_tag, keys, merge_into, or, join, filter_entries,
  propagate_through,
}

module _ (M : TreeMap Tag BoolDomain) where
  abbrev is_key : List Tag → Tag → Bool
  is_key [] t = false
  is_key (k ∷ ks) t = M.eq k t || is_key ks t

  is_key-append : (ks js : List Tag) (t : Tag) → is_key (ks ++ js) t ≡ (is_key ks t || is_key js t)
  is_key-append [] js t = refl
  is_key-append (k ∷ ks) js t = ground (arith, is_key-append ks js t)

  -- What is no key is not found.
  assoc-none :
      (es : List (Tag × BoolDomain)) (t : Tag)
      → is_key (map (λ e. e.0) es) t ≡ false
      → assoc M.eq t es ≡ none
  assoc-none [] t h = refl
  assoc-none ((k, v) ∷ es) t h = ground (arith, assoc-none es t)

  get-none : (m : M.Map) (t : Tag) → is_key (keys M m) t ≡ false → M.get m t ≡ none
  get-none m t h = M.get-entries m t ∙ assoc-none (M.entries m) t h

  module _ (f : BoolDomain → BoolDomain → BoolDomain) (d o : TagDomain M) where
    get-merge_into :
        (ks : List Tag) (m : M.Map) (t : Tag)
        → M.get (merge_into M f d o ks m) t
          ≡ (if is_key ks t then some (f (has_tag M d t) (has_tag M o t)) else M.get m t)
    unfolding merge_into has_tag
    get-merge_into [] m t = refl
    get-merge_into (k ∷ ks) m t =
        let v = f (has_tag M d k) (has_tag M o k) in
        ground (arith, get-merge_into ks (M.insert m k v) t, M.get-insert m k v t, M.eq_iff k t)

    merged :
        (t : Tag)
        → unwrap_or
            (M.get (merge_into M f d o (keys M d.tags ++ keys M o.tags) M.empty) t)
            (f d.value_for_untracked_tags o.value_for_untracked_tags)
          ≡ f (has_tag M d t) (has_tag M o t)
    unfolding has_tag
    merged t = ground (
      arith,
      get-merge_into (keys M d.tags ++ keys M o.tags) M.empty t,
      is_key-append (keys M d.tags) (keys M o.tags) t,
      get-none d.tags t,
      get-none o.tags t,
      M.get-empty t,
    )

  -- In the disjunction of two elements each tag, tracked or not, has the disjunction of its two values.
  pub has_tag-or :
      (d o : TagDomain M) (t : Tag)
      → has_tag M (or M d o) t ≡ BoolDomain.or (has_tag M d t) (has_tag M o t)
  unfolding or has_tag
  has_tag-or d o t = merged BoolDomain.or d o t

  -- In the join of two elements each tag, tracked or not, has the join of its two values.
  pub has_tag-join :
      (d o : TagDomain M) (t : Tag)
      → has_tag M (join M d o) t ≡ BoolDomain.join (has_tag M d t) (has_tag M o t)
  unfolding join has_tag
  has_tag-join d o t = merged BoolDomain.join d o t

  -- What `propagate_through` makes of the value of a tag.
  abbrev pub after : TagPropagation → Tag → BoolDomain → BoolDomain
  after p t v = if is_propagated_by t p then v else BoolDomain.false

  get-filter_entries :
      (p : TagPropagation) (es : List (Tag × BoolDomain)) (m : M.Map) (t : Tag)
      → Distinct M.eq es
      → M.get (filter_entries M p es m) t
        ≡ elim (assoc M.eq t es) [ none ↦ M.get m t | some v ↦ some (after p t v) ]
  unfolding filter_entries
  get-filter_entries p [] m t h = refl
  get-filter_entries p ((k, v) ∷ es) m t h = ground (
    arith,
    get-filter_entries p es (M.insert m k (after p k v)) t h.1,
    M.get-insert m k (after p k v) t,
    M.eq_iff k t,
  )

  -- A concrete set of tags that an element stands for.
  abbrev pub Stands : TagDomain M → (Tag → Bool) → Type 0
  Stands d tags = (t : Tag) → may_be (has_tag M d t) (tags t) ≡ true

  -- If an element stands for a set of tags, then after `propagate_through` it stands for the set of
  -- those that the operation propagates.
  pub propagate_through_sound :
      (d : TagDomain M) (p : TagPropagation) (tags : Tag → Bool)
      → Stands d tags
      → Stands (propagate_through M d p) (λ t. tags t && is_propagated_by t p)
  unfolding propagate_through has_tag BoolDomain.join
  propagate_through_sound d p tags h t = ground (
    arith,
    h t,
    get-filter_entries p (M.entries d.tags) M.empty t (M.entries-Distinct d.tags),
    M.get-entries d.tags t,
    M.get-empty t,
  )

  -- If an element stands for a set of tags, then with a tag added it stands for the set with that tag.
  pub add_tag_sound :
      (d : TagDomain M) (tag : Tag) (tags : Tag → Bool)
      → Stands d tags
      → Stands (add_tag M d tag) (λ t. M.eq tag t || tags t)
  unfolding add_tag has_tag
  add_tag_sound d tag tags h t = ground (arith, h t, M.get-insert d.tags tag BoolDomain.true t)
