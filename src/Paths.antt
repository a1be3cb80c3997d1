-- ===== src/Paths.antt =====
-- checker/src/path.rs: construction of paths, and the roots of paths. Each function has the name of the
-- method that it models. The refinement and the replacement of parts of a path are not modelled.
pub mod Length
pub mod Roots
pub mod Tests
use Prim.Native.String.{String}
use hepha.Prelude.{
  ℕ, suc, ◌+◌, Bool, true, false, ◌||◌, ◌==◌, Option, none, some, List, [], ◌∷◌, if◌then◌else◌, leb,
}
use hepha.Constant.{ConstantDomain}
use hepha.Value.{
  Expression, AbstractValue, value, PathEnum, PathSelector, computed, heap_block_path, offset_path,
  local_variable, parameter, result, static_variable, qualified_path, layout, deref, discriminant,
  function, field, union_field, index, slice, model_field, tag_field,
}
use hepha.Value.Equality.{eq_path, eq_selector}

-- `MAX_PATH_LENGTH`
abbrev pub max_path_length : ℕ
max_path_length = 300

unfoldable pub path_length : PathEnum → ℕ
path_length (qualified_path length _ _) = length
path_length _ = 1

unfoldable pub new_computed : AbstractValue → PathEnum
new_computed v = computed v

-- A path to the bottom value.
abbrev pub is_bottom_path : PathEnum → Bool
is_bottom_path (computed (value Expression.bottom _)) = true
is_bottom_path _ = false

unfoldable pub new_qualified : PathEnum → PathSelector → PathEnum
unfolding path_length new_computed
new_qualified qualifier selector =
    if is_bottom_path qualifier
    then qualifier
    else if leb max_path_length (path_length qualifier)
    then new_computed (value Expression.bottom 1)
    else qualified_path (path_length qualifier + 1) qualifier selector

unfoldable pub add_selectors : PathEnum → List PathSelector → PathEnum
add_selectors root [] = root
add_selectors root (selector ∷ selectors) = add_selectors (new_qualified root selector) selectors

unfoldable pub new_discriminant : PathEnum → PathEnum
new_discriminant enum_path = new_qualified enum_path discriminant

unfoldable pub new_function : PathEnum → PathEnum
new_function (qualified_path length qualifier function) = qualified_path length qualifier function
new_function func_path = new_qualified func_path function

unfoldable pub new_field : PathEnum → ℕ → PathEnum
new_field qualifier field_index = new_qualified qualifier (field field_index)

unfoldable pub new_union_field : PathEnum → ℕ → ℕ → PathEnum
new_union_field qualifier case_index num_cases =
    new_qualified qualifier (union_field case_index num_cases)

unfoldable pub new_heap_block : AbstractValue → PathEnum
new_heap_block v = heap_block_path v

unfoldable pub new_index : PathEnum → AbstractValue → PathEnum
new_index collection_path index_value = new_qualified collection_path (index index_value)

unfoldable pub new_slice : PathEnum → AbstractValue → PathEnum
new_slice collection_path count_value = new_qualified collection_path (slice count_value)

unfoldable pub new_layout : PathEnum → PathEnum
new_layout address_path = new_qualified address_path layout

unfoldable pub new_local_parameter_or_result : ℕ → ℕ → ℕ → PathEnum
new_local_parameter_or_result ordinal argument_count type_index =
    if ordinal == 0
    then result
    else if leb ordinal argument_count
    then parameter ordinal
    else local_variable ordinal type_index

unfoldable pub new_length : PathEnum → PathEnum
new_length array_path = new_qualified array_path (field 1)

unfoldable pub new_model_field : PathEnum → String → PathEnum
new_model_field qualifier field_name = new_qualified qualifier (model_field field_name)

unfoldable pub new_tag_field : PathEnum → PathEnum
new_tag_field qualifier = new_qualified qualifier tag_field

unfoldable pub add_or_replace_selector : PathEnum → PathSelector → PathEnum
add_or_replace_selector (qualified_path _ qualifier _) new_selector =
    new_qualified qualifier new_selector
add_or_replace_selector self new_selector = new_qualified self new_selector

unfoldable pub remove_selector : PathEnum → PathSelector → PathEnum
remove_selector (qualified_path n qualifier s) selector =
    if eq_selector selector s then qualifier else qualified_path n qualifier s
remove_selector self selector = self

unfoldable pub get_as_path : AbstractValue → PathEnum
get_as_path (value (Expression.cast operand _) _) = get_as_path operand
get_as_path (value (Expression.heap_block a z) n) =
    new_heap_block (value (Expression.heap_block a z) n)
get_as_path (value (Expression.offset l r) n) = offset_path (value (Expression.offset l r) n)
get_as_path (value (Expression.uninterpreted_call _ _ _ path) _) = path
get_as_path (value (Expression.initial_parameter_value path _) _) = path
get_as_path (value (Expression.variable path _) _) = path
get_as_path v = computed v

unfoldable pub contains_deref : PathEnum → Bool
contains_deref (qualified_path _ _ deref) = true
contains_deref (qualified_path _ qualifier _) = contains_deref qualifier
contains_deref _ = false

-- `AbstractValue::get_path_root` stands in the clauses for `computed` and `offset_path`.
unfoldable pub get_path_root : PathEnum → PathEnum
get_path_root (computed (value (Expression.initial_parameter_value path _) _)) = get_path_root path
get_path_root (computed (value (Expression.reference path) _)) = get_path_root path
get_path_root (computed (value (Expression.variable path _) _)) = get_path_root path
get_path_root (offset_path (value (Expression.initial_parameter_value path _) _)) =
    get_path_root path
get_path_root (offset_path (value (Expression.reference path) _)) = get_path_root path
get_path_root (offset_path (value (Expression.variable path _) _)) = get_path_root path
get_path_root (qualified_path _ qualifier _) = get_path_root qualifier
get_path_root self = self

-- The tests of `get_parameter_root_ordinal` and the `is_rooted_by_` methods on the root.
abbrev pub parameter_ordinal : PathEnum → Option ℕ
parameter_ordinal (parameter ordinal) = some ordinal
parameter_ordinal _ = none

abbrev pub is_parameter : PathEnum → Bool
is_parameter (parameter _) = true
is_parameter _ = false

abbrev pub is_non_local_structure : PathEnum → Bool
is_non_local_structure (heap_block_path _) = true
is_non_local_structure (static_variable _ _ _) = true
is_non_local_structure
      (computed (value (Expression.compile_time_constant (ConstantDomain.str _)) _)) =
    true
is_non_local_structure _ = false

abbrev pub is_zeroed_heap_block : PathEnum → Bool
is_zeroed_heap_block (heap_block_path (value (Expression.heap_block _ is_zeroed) _)) = is_zeroed
is_zeroed_heap_block _ = false

unfoldable pub get_parameter_root_ordinal : PathEnum → Option ℕ
unfolding get_path_root
get_parameter_root_ordinal self = parameter_ordinal (get_path_root self)

unfoldable pub is_rooted_by_non_local_structure : PathEnum → Bool
unfolding get_path_root
is_rooted_by_non_local_structure self = is_non_local_structure (get_path_root self)

unfoldable pub is_rooted_by_zeroed_heap_block : PathEnum → Bool
unfolding get_path_root
is_rooted_by_zeroed_heap_block self = is_zeroed_heap_block (get_path_root self)

unfoldable pub is_rooted_by_parameter : PathEnum → Bool
unfolding get_path_root
is_rooted_by_parameter self = is_parameter (get_path_root self)

unfoldable pub is_rooted_by : PathEnum → PathEnum → Bool
is_rooted_by (computed (value (Expression.initial_parameter_value path _) _)) root =
    eq_path path root || is_rooted_by path root
is_rooted_by (computed (value (Expression.reference path) _)) root =
    eq_path path root || is_rooted_by path root
is_rooted_by (computed (value (Expression.variable path _) _)) root =
    eq_path path root || is_rooted_by path root
is_rooted_by
      (offset_path
        (value (Expression.offset (value (Expression.initial_parameter_value path _) _) _) _))
      root =
    eq_path path root || is_rooted_by path root
is_rooted_by (offset_path (value (Expression.offset (value (Expression.reference path) _) _) _))
      root =
    eq_path path root || is_rooted_by path root
is_rooted_by (offset_path (value (Expression.offset (value (Expression.variable path _) _) _) _))
      root =
    eq_path path root || is_rooted_by path root
is_rooted_by (qualified_path _ qualifier _) root =
    eq_path qualifier root || is_rooted_by qualifier root
is_rooted_by _ root = false
