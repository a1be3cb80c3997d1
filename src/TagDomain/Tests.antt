-- ===== src/TagDomain/Tests.antt =====
-- Tags and their domains of checker/src/tag_domain.rs, over association lists, at concrete values.
use hepha.Prelude.{false, ◌&&◌, ◌||◌, refl}
use hepha.BoolDomain.{BoolDomain}
use hepha.TagPropagation.{TagPropagation}
use hepha.Tag.{SerializableDefId, Tag, eq_tag, is_propagated_by}
use hepha.Tag.Laws.{eq_tag_iff}
use hepha.TreeMap.{TreeMap, list_map}
use hepha.TagDomain.{TagDomain, has_tag, add_tag, empty_set, propagate_through}
use hepha.TagDomain.Meaning.{Stands, propagate_through_sound, add_tag_sound}

abbrev secret : SerializableDefId
secret = record { krate = 3; index = 70000 }

-- Propagated by `add` alone.
abbrev tag : Tag
tag = record { def_id = secret; prop_set = 1 }

abbrev maps : TreeMap Tag BoolDomain
maps = list_map eq_tag eq_tag_iff

abbrev tagged : TagDomain maps
tagged = add_tag maps (empty_set maps) tag

empty_set-Stands : Stands maps (empty_set maps) (λ t. false)
unfolding empty_set has_tag list_map
empty_set-Stands t = refl

propagate_through_example :
    Stands maps
      (propagate_through maps tagged TagPropagation.add)
      (λ t. (maps.eq tag t || false) && is_propagated_by t TagPropagation.add)
propagate_through_example =
    propagate_through_sound maps tagged TagPropagation.add (λ t. maps.eq tag t || false)
      (add_tag_sound maps (empty_set maps) tag (λ t. false) empty_set-Stands)
