-- ===== src/Contract/Tracking.antt =====
-- The balance variable of the reentrancy detector in checker/src/block_visitor.rs.
use hepha.Prelude.{
  arith, Bool, true, false, Option, none, some, List, [], ◌∷◌, ◌≡◌, refl, ap, ◌∙◌, if◌then◌else◌,
}
use hepha.Contract.{Place, Operand, copy, move, constant, Checkers, ReentrancyChecker}
use hepha.Contract.Text.{contains}
use hepha.Contract.Events.{
  Call, Event, visited, assigned, used, called, step, run, use_in_reentrancy, follow_args,
  call_transfer, call_hash_map, call_args,
}

abbrev pub is_some {ℓ} : {A : Type ℓ} → Option A → Bool
is_some none = false
is_some (some a) = true

-- There is a balance variable, and an assignment has been visited.
pub record Tracks (r : ReentrancyChecker) : Type 0 where
  pub variable : is_some r.temporary_variable_for_balance ≡ true
  pub destination : is_some r.current_assign_destination ≡ true

follow_args-some :
    (temporary : Option Place) (destination : Place) (args : List Operand)
    → is_some temporary ≡ true
    → is_some (follow_args temporary destination args) ≡ true
unfolding follow_args
follow_args-some none d args h = cc
follow_args-some (some t) d [] h = refl
follow_args-some (some t) d (copy p ∷ args) h =
    follow_args-some (if _ then some d else some t) d args (ground arith)
follow_args-some (some t) d (move p ∷ args) h =
    follow_args-some (if _ then some d else some t) d args (ground arith)
follow_args-some (some t) d (constant ∷ args) h = follow_args-some (some t) d args refl

use-Tracks : (r : ReentrancyChecker) (o : Operand) → Tracks r → Tracks (use_in_reentrancy r o)
unfolding use_in_reentrancy
use-Tracks r (copy p) h = ground arith
use-Tracks r (move p) h = ground arith
use-Tracks r constant h = h

transfer-Tracks : (r : ReentrancyChecker) (call : Call) → Tracks r → Tracks (call_transfer r call)
unfolding call_transfer
transfer-Tracks r call h = ground arith

hash_map-Tracks : (r : ReentrancyChecker) (call : Call) → Tracks r → Tracks (call_hash_map r call)
unfolding call_hash_map
hash_map-Tracks r call h = ground arith

args-Tracks : (r : ReentrancyChecker) (call : Call) → Tracks r → Tracks (call_args r call)
unfolding call_args
args-Tracks r call h =
    ground (
      arith,
      follow_args-some r.temporary_variable_for_balance call.destination call.args h.variable,
    )

step-Tracks :
    (c : Checkers) (e : Event) → Tracks c.reentrancy_checker → Tracks (step c e).reentrancy_checker
unfolding step
step-Tracks c (visited bb b) h = record { variable = h.variable; destination = h.destination }
step-Tracks c (assigned place) h = record { variable = h.variable; destination = refl }
step-Tracks c (used operand) h = use-Tracks c.reentrancy_checker operand h
step-Tracks c (called call) h =
    args-Tracks _ call (hash_map-Tracks _ call (transfer-Tracks c.reentrancy_checker call h))

-- Once there is a balance variable, no event loses it: copies, moves and calls only pass it on.
pub run-Tracks :
    (c : Checkers) (es : List Event)
    → Tracks c.reentrancy_checker
    → Tracks (run c es).reentrancy_checker
unfolding run
run-Tracks c [] h = h
run-Tracks c (e ∷ es) h = run-Tracks (step c e) es (step-Tracks c e h)

transfer_destination :
    (r : ReentrancyChecker) (call : Call)
    → (call_transfer r call).current_assign_destination ≡ r.current_assign_destination
unfolding call_transfer
transfer_destination r call = ground arith

hash_map-found :
    (r : ReentrancyChecker) (call : Call)
    → contains call.callee_name "std.collections.hash.map" ≡ true
    → is_some r.current_assign_destination ≡ true
    → Tracks (call_hash_map r call)
unfolding call_hash_map
hash_map-found r call n h = ground arith

-- A call of a function of a hash map, after some assignment, gives a balance variable, which is there
-- at the end whatever follows.
pub hash_map_call-Tracks :
    (c : Checkers) (call : Call) (es : List Event)
    → contains call.callee_name "std.collections.hash.map" ≡ true
    → is_some c.reentrancy_checker.current_assign_destination ≡ true
    → Tracks (run c (called call ∷ es)).reentrancy_checker
unfolding run step
hash_map_call-Tracks c call es n h = run-Tracks (step c (called call)) es (
    args-Tracks _ call
      (hash_map-found _ call n (ap is_some (transfer_destination c.reentrancy_checker call) ∙ h)))
