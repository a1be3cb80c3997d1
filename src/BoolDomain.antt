-- ===== src/BoolDomain.antt =====
-- checker/src/bool_domain.rs: sets of Booleans. The clauses stand in the order of the arms of the source.
pub mod Meaning
use hepha.Prelude.{arith, ◌≡◌, ◌↔◌, Bool, ◌||◌, ◌&&◌}
use mathlib.Core.Bool

pub data BoolDomain : Type 0 where
  bottom false true top : BoolDomain

unfoldable pub from_bool : Bool → BoolDomain
from_bool Bool.true = true
from_bool Bool.false = false

unfoldable pub join : BoolDomain → BoolDomain → BoolDomain
join top _ = top
join _ top = top
join false true = top
join true false = top
join false _ = false
join _ false = false
join true _ = true
join _ true = true
join bottom bottom = bottom

unfoldable pub or : BoolDomain → BoolDomain → BoolDomain
or bottom _ = bottom
or _ bottom = bottom
or true _ = true
or _ true = true
or top _ = top
or _ top = top
or false false = false

-- The Booleans that an element stands for.
abbrev pub may_be : BoolDomain → Bool → Bool
may_be bottom b = Bool.false
may_be false b = Bool.not b
may_be true b = b
may_be top b = Bool.true
