-- ===== src/Environment.antt =====
-- checker/src/environment.rs: the values of paths at a point of a function. The map of the crate `rpds`
-- is the parameter `TrieMap`. Updates through aliases, and joins, which need the transfer functions of
-- abstract values, are not modelled.
pub mod Comparison
pub mod Tests
use hepha.Prelude.{
  ℕ, Bool, true, false, not, Option, none, some, List, [], ◌∷◌, ◌++◌, if◌then◌else◌, ◌&&◌,
}
use hepha.Value.{AbstractValue, PathEnum}
use hepha.Value.Equality.{eq_path}
use hepha.TrieMap.{TrieMap}
use hepha.AbstractValues
use hepha.AbstractValues.{eq_value, is_bottom, true_value}

-- The exit conditions are pairs of a block and a condition; nothing here looks at them.
pub record Environment (M : TrieMap eq_path AbstractValue) : Type 0 where
  pub entry_condition : AbstractValue
  pub exit_conditions : List (ℕ × AbstractValue)
  pub value_map : M.Map

module _ (M : TrieMap eq_path AbstractValue) where
  open M use {get, insert, entries}

  -- `Environment::default`
  unfoldable pub default : Environment M
  default = record { entry_condition = true_value; exit_conditions = []; value_map = M.empty }

  unfoldable pub value_at : Environment M → PathEnum → Option AbstractValue
  value_at self path = get self.value_map path

  unfoldable pub strong_update_value_at : Environment M → PathEnum → AbstractValue → Environment M
  strong_update_value_at self path v = record self { value_map = insert self.value_map path v }

  -- The body of the loop of `subset` for the value of one path.
  abbrev pub keeps_within : AbstractValue → Option AbstractValue → Bool
  keeps_within val1 none = true
  keeps_within val1 (some val2) = AbstractValues.subset val1 val2

  -- The loop of `subset`, which passes over the values that are bottom.
  unfoldable pub subset_from : List (PathEnum × AbstractValue) → Environment M → Bool
  subset_from [] other = true
  subset_from ((path, val1) ∷ rest) other =
      let go_on = subset_from rest other in
      if is_bottom val1
      then go_on
      else if not (keeps_within val1 (get other.value_map path))
      then false
      else go_on

  unfoldable pub subset : Environment M → Environment M → Bool
  unfolding subset_from
  subset self other = subset_from (entries self.value_map) other

  abbrev pub differs : AbstractValue → Option AbstractValue → Bool
  differs val1 none = true
  differs val1 (some val2) = not (eq_value val1 val2)

  abbrev pub is_none : Option AbstractValue → Bool
  is_none none = true
  is_none (some v) = false

  abbrev pub is_missing : AbstractValue → Option AbstractValue → Bool
  is_missing v o = is_none o

  -- The two loops of `get_loop_variants`: the paths for which a test of the value, and of what the other
  -- environment has for the path, holds.
  unfoldable pub picked :
      (AbstractValue → Option AbstractValue → Bool)
      → List (PathEnum × AbstractValue)
      → Environment M
      → List PathEnum
  picked test [] other = []
  picked test ((path, v) ∷ rest) other =
      let others = picked test rest other in
      if test v (get other.value_map path) then path ∷ others else others

  -- The hash set is a list of its elements.
  unfoldable pub get_loop_variants : Environment M → Environment M → List PathEnum
  get_loop_variants self other =
      picked differs (entries self.value_map) other
      ++ picked is_missing (entries other.value_map) self
