-- ===== src/Contract/Flags.antt =====
-- When the detectors of checker/src/contract_errors.rs for time manipulation, bad randomness and
-- numerical precision raise the alarm.
use hepha.Prelude.{arith, Bool, false, ◌||◌, List, [], ◌∷◌, ◌≡◌, refl}
use hepha.Contract.{Checkers, FlagChecker, check_flag}
use hepha.Contract.Events.{
  Call, Event, visited, assigned, used, called, step, run, start, is_clock, is_round, is_random,
}

-- Some call of a list of events passes the test.
abbrev pub any_call : (Call → Bool) → List Event → Bool
any_call test [] = false
any_call test (called call ∷ es) = test call || any_call test es
any_call test (visited bb b ∷ es) = any_call test es
any_call test (assigned place ∷ es) = any_call test es
any_call test (used operand ∷ es) = any_call test es

-- What one event does to a flag.
abbrev Sets : (Checkers → FlagChecker) → (Call → Bool) → Type 0
Sets detector test =
    (c : Checkers) (e : Event)
    → (detector (step c e)).flag ≡ (any_call test (e ∷ []) || (detector c).flag)

module _ (detector : Checkers → FlagChecker) (test : Call → Bool) (sets : Sets detector test) where
  flag-run :
      (c : Checkers) (es : List Event)
      → (detector (run c es)).flag ≡ (any_call test es || (detector c).flag)
  unfolding run
  flag-run c [] = refl
  flag-run c (visited bb b ∷ es) =
      ground (arith, flag-run (step c (visited bb b)) es, sets c (visited bb b))
  flag-run c (assigned place ∷ es) =
      ground (arith, flag-run (step c (assigned place)) es, sets c (assigned place))
  flag-run c (used operand ∷ es) =
      ground (arith, flag-run (step c (used operand)) es, sets c (used operand))
  flag-run c (called call ∷ es) =
      ground (arith, flag-run (step c (called call)) es, sets c (called call))

time-Sets : Sets (λ c. c.time_manipulation_checker) is_clock
unfolding step is_clock
time-Sets c (visited bb b) = refl
time-Sets c (assigned place) = refl
time-Sets c (used operand) = refl
time-Sets c (called call) = ground arith

random-Sets : Sets (λ c. c.bad_randomness_checker) is_random
unfolding step is_random
random-Sets c (visited bb b) = refl
random-Sets c (assigned place) = refl
random-Sets c (used operand) = refl
random-Sets c (called call) = ground arith

round-Sets : Sets (λ c. c.numerical_precision_checker) is_round
unfolding step is_round
round-Sets c (visited bb b) = refl
round-Sets c (assigned place) = refl
round-Sets c (used operand) = refl
round-Sets c (called call) = ground arith

-- After a body each of the three detectors raises its alarm exactly if some call of the body passes
-- its test, wherever the call stands.
pub alarms_exact :
    (es : List Event)
    → (check_flag (run start es).time_manipulation_checker ≡ any_call is_clock es)
      × (check_flag (run start es).bad_randomness_checker ≡ any_call is_random es)
      × (check_flag (run start es).numerical_precision_checker ≡ any_call is_round es)
unfolding check_flag start
alarms_exact es = (
  ground (arith, flag-run (λ c. c.time_manipulation_checker) is_clock time-Sets start es),
  ground (arith, flag-run (λ c. c.bad_randomness_checker) is_random random-Sets start es),
  ground (arith, flag-run (λ c. c.numerical_precision_checker) is_round round-Sets start es),
)
