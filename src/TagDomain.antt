-- ===== src/TagDomain.antt =====
-- checker/src/tag_domain.rs: maps from tags to sets of Booleans, with a value for the tags that are
-- not tracked. The persistent tree map of the crate `rpds` is the parameter `TreeMap`.
pub mod Meaning
pub mod Tests
use mathlib.Core.Option
use hepha.Prelude.{Option, none, some, List, [], ◌∷◌, ◌++◌, map, if◌then◌else◌}
use hepha.BoolDomain
use hepha.BoolDomain.{BoolDomain}
use hepha.TagPropagation.{TagPropagation}
use hepha.Tag.{Tag, is_propagated_by}
use hepha.TreeMap.{TreeMap}

pub record TagDomain (M : TreeMap Tag BoolDomain) : Type 0 where
  pub tags : M.Map
  pub value_for_untracked_tags : BoolDomain

-- `unwrap_or`
abbrev pub unwrap_or : Option BoolDomain → BoolDomain → BoolDomain
unwrap_or none d = d
unwrap_or (some v) d = v

module _ (M : TreeMap Tag BoolDomain) where
  open M use {Map, empty, get, insert, entries}

  unfoldable pub empty_set : TagDomain M
  empty_set = record { tags = empty; value_for_untracked_tags = BoolDomain.false }

  unfoldable pub top : TagDomain M
  top = record { tags = empty; value_for_untracked_tags = BoolDomain.top }

  unfoldable pub add_tag : TagDomain M → Tag → TagDomain M
  add_tag d tag = record d { tags = insert d.tags tag BoolDomain.true }

  unfoldable pub has_tag : TagDomain M → Tag → BoolDomain
  has_tag d tag = unwrap_or (get d.tags tag) d.value_for_untracked_tags

  -- `map.keys()`
  abbrev pub keys : Map → List Tag
  keys m = map (λ e. e.0) (entries m)

  -- The loops of `or` and `join`: `f` of the two values of each key is put into the new map.
  unfoldable pub merge_into :
      (BoolDomain → BoolDomain → BoolDomain) → TagDomain M → TagDomain M → List Tag → Map → Map
  merge_into f d o [] new_map = new_map
  merge_into f d o (tag ∷ tags) new_map = merge_into f d o tags (
      insert new_map tag (
        f (unwrap_or (get d.tags tag) d.value_for_untracked_tags)
          (unwrap_or (get o.tags tag) o.value_for_untracked_tags)))

  unfoldable pub or : TagDomain M → TagDomain M → TagDomain M
  or d o = record {
    tags = merge_into BoolDomain.or d o (keys d.tags ++ keys o.tags) empty;
    value_for_untracked_tags = BoolDomain.or d.value_for_untracked_tags o.value_for_untracked_tags;
  }

  unfoldable pub join : TagDomain M → TagDomain M → TagDomain M
  join d o = record {
    tags = merge_into BoolDomain.join d o (keys d.tags ++ keys o.tags) empty;
    value_for_untracked_tags =
        BoolDomain.join d.value_for_untracked_tags o.value_for_untracked_tags;
  }

  -- The closure that `propagate_through` maps over the entries, and `collect`.
  unfoldable pub filter_entries : TagPropagation → List (Tag × BoolDomain) → Map → Map
  filter_entries p [] new_map = new_map
  filter_entries p ((tag, val) ∷ es) new_map =
      filter_entries p es
        (insert new_map tag (if is_propagated_by tag p then val else BoolDomain.false))

  unfoldable pub propagate_through : TagDomain M → TagPropagation → TagDomain M
  propagate_through d p = record {
    tags = filter_entries p (entries d.tags) empty;
    value_for_untracked_tags = BoolDomain.join d.value_for_untracked_tags BoolDomain.false;
  }
