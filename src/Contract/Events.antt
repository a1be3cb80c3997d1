-- ===== src/Contract/Events.antt =====
-- What checker/src/block_visitor.rs does to the detectors of checker/src/contract_errors.rs.
use Prim.Native.String.{String}
use hepha.Prelude.{
  ℕ, Bool, true, false, ◌&&◌, ◌||◌, ◌==◌, Option, none, some, List, [], ◌∷◌, ◌++◌, if◌then◌else◌,
}
use hepha.Contract.{
  Place, Operand, copy, move, constant, BlockStatement, ReentrancyChecker, FlagChecker, Checkers,
  new, new_flag,
}
use hepha.Contract.Text.{contains}

-- `entry(bb).or_insert(Vec::new()).push(b)`
unfoldable pub push_block_statement :
    List (ℕ × List BlockStatement) → ℕ → BlockStatement → List (ℕ × List BlockStatement)
push_block_statement [] bb b = (bb, b ∷ []) ∷ []
push_block_statement ((k, bs) ∷ m) bb b =
    if k == bb then (k, bs ++ b ∷ []) ∷ m else (k, bs) ∷ push_block_statement m bb b

-- `entry(bb).or_insert(name)`
unfoldable pub or_insert : List (ℕ × String) → ℕ → String → List (ℕ × String)
or_insert [] bb name = (bb, name) ∷ []
or_insert ((k, v) ∷ m) bb name = if k == bb then (k, v) ∷ m else (k, v) ∷ or_insert m bb name

abbrev eq_projection : List ℕ → List ℕ → Bool
eq_projection [] [] = true
eq_projection (p ∷ ps) (q ∷ qs) = p == q && eq_projection ps qs
eq_projection _ _ = false

-- The derived `==` of `mir::Place`.
unfoldable pub eq_place : Place → Place → Bool
eq_place p q = p.local == q.local && eq_projection p.projection q.projection

abbrev is_some_place : Option Place → Place → Bool
is_some_place none p = false
is_some_place (some t) p = eq_place t p

-- The head of `visit_statement`, and that of `visit_terminator`.
unfoldable pub record_block_statement : Checkers → ℕ → BlockStatement → Checkers
record_block_statement c bb b =
    let r = c.reentrancy_checker in
    record c {
      reentrancy_checker = record r {
        block_statements = push_block_statement r.block_statements bb b;
      };
    }

-- The head of `visit_assign`.
unfoldable pub visit_assign : Checkers → Place → Checkers
visit_assign c place =
    let r = c.reentrancy_checker in
    record c { reentrancy_checker = record r { current_assign_destination = some place } }

-- What `visit_use` does with a copied, and with a moved place.
unfoldable pub use_in_reentrancy : ReentrancyChecker → Operand → ReentrancyChecker
use_in_reentrancy r (copy place) =
    if r.check_for_balance_variable && is_some_place r.temporary_variable_for_balance place
    then record r { temporary_variable_for_balance = r.current_assign_destination }
    else r
use_in_reentrancy r (move place) =
    if r.check_for_balance_variable
    then elim r.temporary_variable_for_balance [
      | none ↦ r
      | some temporary_place ↦
          if eq_place place temporary_place || place.local == temporary_place.local
          then record r {
            temporary_variable_for_balance = r.current_assign_destination;
            check_for_balance_variable = false;
          }
          else r
    ]
    else r
use_in_reentrancy r constant = r

unfoldable pub visit_use : Checkers → Operand → Checkers
unfolding use_in_reentrancy
visit_use c operand = record c {
  reentrancy_checker = use_in_reentrancy c.reentrancy_checker operand;
}

-- A call whose function is known: where, what is called, with what.
pub record Call : Type 0 where
  pub bb : ℕ
  pub argument_type_key : String
  pub callee_name : String
  pub destination : Place
  pub args : List Operand
  pub current_span : ℕ

-- `flag = true; span = current_span`, if the test holds.
abbrev pub set_if : Bool → FlagChecker → ℕ → FlagChecker
set_if test f current_span = if test then record { flag = true; span = current_span } else f

unfoldable pub is_clock : Call → Bool
is_clock call = contains call.argument_type_key "__solana_clock_Clock"

unfoldable pub is_round : Call → Bool
is_round call = contains call.callee_name ".round"

unfoldable pub is_random : Call → Bool
is_random call =
    contains call.callee_name "fastrand"
    || contains call.callee_name "oorandom.implement_oorandom"
    || contains call.callee_name "nanorand.rand"

-- `try_borrow_mut_lamports` records a transfer.
unfoldable pub call_transfer : ReentrancyChecker → Call → ReentrancyChecker
unfolding or_insert
call_transfer r call =
    if contains call.callee_name "try_borrow_mut_lamports"
    then record r {
      function_lamport_transfer = or_insert r.function_lamport_transfer call.bb call.callee_name;
    }
    else r

-- A function of a hash map makes its destination the balance variable.
unfoldable pub call_hash_map : ReentrancyChecker → Call → ReentrancyChecker
call_hash_map r call =
    if contains call.callee_name "std.collections.hash.map"
    then record r {
      check_for_balance_variable = true;
      temporary_variable_for_balance = some call.destination;
      starting_reentrancy_span = call.current_span;
    }
    else r

-- The loop over the arguments: a balance variable that is passed makes the destination the balance
-- variable.
unfoldable pub follow_args : Option Place → Place → List Operand → Option Place
follow_args temporary destination [] = temporary
follow_args temporary destination (copy place ∷ args) =
    follow_args (if is_some_place temporary place then some destination else temporary) destination
      args
follow_args temporary destination (move place ∷ args) =
    follow_args (if is_some_place temporary place then some destination else temporary) destination
      args
follow_args temporary destination (constant ∷ args) = follow_args temporary destination args

unfoldable pub call_args : ReentrancyChecker → Call → ReentrancyChecker
unfolding follow_args
call_args r call =
    if r.check_for_balance_variable
    then record r {
      temporary_variable_for_balance =
          follow_args r.temporary_variable_for_balance call.destination call.args;
    }
    else r

-- The part of `visit_call` that feeds the detectors.
unfoldable pub visit_call : Checkers → Call → Checkers
unfolding is_clock is_round is_random call_transfer call_hash_map call_args
visit_call c call = record {
  reentrancy_checker =
      call_args (call_hash_map (call_transfer c.reentrancy_checker call) call) call;
  time_manipulation_checker = set_if (is_clock call) c.time_manipulation_checker call.current_span;
  bad_randomness_checker = set_if (is_random call) c.bad_randomness_checker call.current_span;
  numerical_precision_checker =
      set_if (is_round call) c.numerical_precision_checker call.current_span;
}

-- What happens in a body, in the order of the visit.
pub data Event : Type 0 where
  visited : ℕ → BlockStatement → Event
  assigned : Place → Event
  used : Operand → Event
  called : Call → Event

unfoldable pub step : Checkers → Event → Checkers
unfolding record_block_statement visit_assign visit_use visit_call
step c (visited bb b) = record_block_statement c bb b
step c (assigned place) = visit_assign c place
step c (used operand) = visit_use c operand
step c (called call) = visit_call c call

unfoldable pub run : Checkers → List Event → Checkers
unfolding step
run c [] = c
run c (e ∷ es) = run (step c e) es

unfoldable pub start : Checkers
unfolding new new_flag
start = record {
  reentrancy_checker = new;
  time_manipulation_checker = new_flag;
  bad_randomness_checker = new_flag;
  numerical_precision_checker = new_flag;
}
