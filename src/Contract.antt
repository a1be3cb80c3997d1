-- ===== src/Contract.antt =====
-- checker/src/contract_errors.rs, and the places of checker/src/block_visitor.rs that write to its
-- checkers: the states of the four detectors, what each event of a body does to them, and their
-- verdicts. The MIR types of the compiler are kept as far as the detectors tell them apart.
pub mod Text
pub mod Events
pub mod Reentrancy
pub mod Flags
pub mod Tracking
pub mod Tests
use Prim.Native.String.{String}
use hepha.Prelude.{
  ℕ, Bool, true, false, ◌&&◌, ◌||◌, ◌==◌, ltb, Option, none, some, List, [], ◌∷◌, if◌then◌else◌,
}

-- `mir::Place`: a local and its projections, each projection as a number.
pub record Place : Type 0 where
  pub local : ℕ
  pub projection : List ℕ

-- `mir::StatementKind`
pub data StatementKind : Type 0 where
  assign : Place → StatementKind
  other_statement : StatementKind

-- `mir::Operand`
pub data Operand : Type 0 where
  copy move : Place → Operand
  constant : Operand

-- `mir::TerminatorKind`: an `Assert` of an overflow of `Sub` with its left operand, or another.
pub data TerminatorKind : Type 0 where
  assert_sub_overflow : Operand → TerminatorKind
  other_terminator : TerminatorKind

pub data BlockStatement : Type 0 where
  statement : StatementKind → BlockStatement
  terminator_kind : TerminatorKind → BlockStatement

-- The two hash maps are lists of their entries.
pub record ReentrancyChecker : Type 0 where
  pub block_statements : List (ℕ × List BlockStatement)
  pub function_lamport_transfer : List (ℕ × String)
  pub temporary_variable_for_balance : Option Place
  pub check_for_balance_variable : Bool
  pub current_assign_destination : Option Place
  pub starting_reentrancy_span : ℕ
  pub ending_reentrancy_span : ℕ

unfoldable pub new : ReentrancyChecker
new = record {
  block_statements = [];
  function_lamport_transfer = [];
  temporary_variable_for_balance = none;
  check_for_balance_variable = false;
  current_assign_destination = none;
  starting_reentrancy_span = 0;
  ending_reentrancy_span = 0;
}

abbrev same_local : Option Place → Place → Bool
same_local none place = false
same_local (some t) place = t.local == place.local

unfoldable pub visit_reentrancy_terminator : ReentrancyChecker → TerminatorKind → Bool
visit_reentrancy_terminator s (assert_sub_overflow (copy place)) =
    same_local s.temporary_variable_for_balance place
visit_reentrancy_terminator s _ = false

unfoldable pub visit_reentrancy_statement : ReentrancyChecker → StatementKind → Bool
visit_reentrancy_statement s (assign place) = same_local s.temporary_variable_for_balance place
visit_reentrancy_statement s other_statement = false

-- The status of one block statement.
unfoldable pub visit_block_statement : ReentrancyChecker → BlockStatement → Bool
unfolding visit_reentrancy_terminator visit_reentrancy_statement
visit_block_statement s (statement kind) = visit_reentrancy_statement s kind
visit_block_statement s (terminator_kind kind) = visit_reentrancy_terminator s kind

-- The inner loop, from a verdict: `break` ends it at the first statement after which the verdict is
-- `true`.
unfoldable pub check_block : ReentrancyChecker → List BlockStatement → Bool → Bool
check_block s [] is_reentrancy = is_reentrancy
check_block s (b ∷ bs) is_reentrancy = elim (visit_block_statement s b || is_reentrancy) [
  | true ↦ true
  | false ↦ check_block s bs false
]

-- The outer loop: blocks up to `last_bb` are skipped.
unfoldable pub check_blocks : ReentrancyChecker → ℕ → List (ℕ × List BlockStatement) → Bool → Bool
check_blocks s last_bb [] is_reentrancy = is_reentrancy
check_blocks s last_bb ((bb, bs) ∷ blocks) is_reentrancy =
    check_blocks s last_bb blocks
      (if ltb last_bb bb then check_block s bs is_reentrancy else is_reentrancy)

-- `iter().last()`
abbrev pub last {ℓ} : {A : Type ℓ} → List A → Option A
last [] = none
last (x ∷ []) = some x
last (x ∷ y ∷ xs) = last (y ∷ xs)

-- A hash map is iterated over in an order of its own, `order`.
unfoldable pub check : (List (ℕ × String) → List (ℕ × String)) → ReentrancyChecker → Bool
check order s = elim (last (order s.function_lamport_transfer)) [
  | none ↦ false
  | some transfer ↦ check_blocks s transfer.0 s.block_statements false
]

-- The other three detectors: a flag and the span of the last call that set it.
pub record FlagChecker : Type 0 where
  pub flag : Bool
  pub span : ℕ

-- The detectors of one body.
pub record Checkers : Type 0 where
  pub reentrancy_checker : ReentrancyChecker
  pub time_manipulation_checker : FlagChecker
  pub bad_randomness_checker : FlagChecker
  pub numerical_precision_checker : FlagChecker

unfoldable pub new_flag : FlagChecker
new_flag = record { flag = false; span = 0 }

unfoldable pub check_flag : FlagChecker → Bool
check_flag c = c.flag
