-- ===== src/Contract/Tests.antt =====
-- The detectors of checker/src/contract_errors.rs on a small body.
use mathlib.Core.List.{Memᴰ, reverse}
use mathlib.Core.List.Memᴰ
use Prim.Native.String.{String}
use hepha.Prelude.{arith, ℕ, ◌<◌, true, false, some, List, [], ◌∷◌, ◌≡◌, refl}
use hepha.Contract.{
  Place, assign, BlockStatement, statement, ReentrancyChecker, Checkers, check, check_blocks,
  check_block, visit_block_statement, new, check_flag,
}
use hepha.Contract.Events.{Call, Event, visited, assigned, called, run, step, start}
use hepha.Contract.Tracking.{is_some}
use hepha.Contract.Text.{contains}
use hepha.Contract.Reentrancy.{
  Stores, Visits, check_sound, check_complete, two_transfers, check_depends_on_order,
}

abbrev balance : Place
balance = record { local = 7; projection = [] }

abbrev store : BlockStatement
store = statement (assign balance)

-- A transfer in block 2, and a store to the balance in block 5.
abbrev checker : ReentrancyChecker
checker = record new {
  block_statements = (5, store ∷ []) ∷ [];
  function_lamport_transfer = (2, "try_borrow_mut_lamports") ∷ [];
  temporary_variable_for_balance = some balance;
}

abbrev same_order : List (ℕ × String) → List (ℕ × String)
same_order l = l

same_order-Visits : Visits same_order
same_order-Visits l e = (λ m. m, λ m. m)

checker_alarm : check same_order checker ≡ true
unfolding check new check_blocks check_block visit_block_statement
checker_alarm = refl

check_sound_example :
    (t : Place) × (transfer : ℕ × String) × (bb : ℕ) × (bs : List BlockStatement)
    × (b : BlockStatement) × (checker.temporary_variable_for_balance ≡ some t)
    × Memᴰ transfer checker.function_lamport_transfer
    × (transfer.0 < bb)
    × Memᴰ (bb, bs) checker.block_statements
    × Memᴰ b bs
    × Stores t b
check_sound_example = check_sound same_order same_order-Visits checker checker_alarm

only_transfer : (e : ℕ × String) → Memᴰ e ((2, "try_borrow_mut_lamports") ∷ []) → e.0 < 5
only_transfer e (Memᴰ.head q) = rw q (omega arith)
only_transfer e (Memᴰ.tail m) = absurd (Memᴰ.not-nil m)

check_complete_example : check same_order checker ≡ true
check_complete_example =
    check_complete same_order same_order-Visits checker balance (2, "try_borrow_mut_lamports") 5
      (store ∷ []) store refl (Memᴰ.head refl) only_transfer (Memᴰ.head refl) (Memᴰ.head refl)
      (Stores.assigned refl)

order_example :
    (check (λ l. l) (two_transfers 2 6 5 "try_borrow_mut_lamports" balance) ≡ false)
    × (check reverse (two_transfers 2 6 5 "try_borrow_mut_lamports" balance) ≡ true)
order_example =
    check_depends_on_order 2 6 5 "try_borrow_mut_lamports" balance (omega arith) (omega arith)

abbrev get_clock : Call
get_clock = record {
  bb = 1;
  argument_type_key = "__solana_clock_Clock";
  callee_name = "core.get";
  destination = balance;
  args = [];
  current_span = 40;
}

abbrev hash_map_get : Call
hash_map_get = record {
  bb = 1;
  argument_type_key = "";
  callee_name = "std.collections.hash.map.get";
  destination = balance;
  args = [];
  current_span = 41;
}

abbrev body : List Event
body = visited 0 store ∷ called get_clock ∷ []

clock_alarm : check_flag (run start body).time_manipulation_checker ≡ true
unfolding check_flag run start contains
clock_alarm = refl

-- After an assignment to the balance.
abbrev after_assign : Checkers
after_assign = step start (assigned balance)

hash_map_name : contains hash_map_get.callee_name "std.collections.hash.map" ≡ true
unfolding contains
hash_map_name = refl

after_assign_destination : is_some after_assign.reentrancy_checker.current_assign_destination ≡ true
unfolding step start
after_assign_destination = refl
