-- ===== src/Environment/Tests.antt =====
-- Environments of checker/src/environment.rs, over association lists, at concrete values.
use hepha.Prelude.{◌≡◌, ◌↔◌, true, false, some}
use hepha.Value.{AbstractValue, PathEnum, parameter, result}
use hepha.Value.Equality.{eq_path}
use hepha.TrieMap.{TrieMap, list_trie}
use hepha.AbstractValues
use hepha.AbstractValues.{is_bottom, true_value, false_value}
use hepha.Environment.{
  Environment, default, value_at, strong_update_value_at, subset, get_loop_variants,
}
use hepha.Environment.Comparison.{
  path_keys, contains, varies, subset_exact, get_loop_variants_exact,
}

abbrev maps : TrieMap eq_path AbstractValue
maps = list_trie eq_path path_keys

abbrev before : Environment maps
before = strong_update_value_at maps (default maps) (parameter 1) true_value

abbrev after : Environment maps
after = strong_update_value_at maps before result false_value

environment_subset_example : (subset maps before after ≡ true) ↔ (
    (path : PathEnum) (v w : AbstractValue)
    → value_at maps before path ≡ some v
    → is_bottom v ≡ false
    → value_at maps after path ≡ some w
    → AbstractValues.subset v w ≡ true)
environment_subset_example = subset_exact maps before after

variants_example :
    contains (get_loop_variants maps before after) result
    ≡ varies (value_at maps before result) (value_at maps after result)
variants_example = get_loop_variants_exact maps before after result
