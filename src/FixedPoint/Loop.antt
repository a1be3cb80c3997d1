-- ===== src/FixedPoint/Loop.antt =====
-- checker/src/fixed_point_visitor.rs, `compute_fixed_point`, with `check_for_early_break!` of
-- checker/src/lib.rs and checker/src/k_limits.rs. One round, the visit of the loop body, is a parameter,
-- and so are the parts of the body visitor's state that the loop reads and sets: what it restores before
-- a round, the flag `analysis_is_incomplete`, and the clock.
use mathlib.Core.Path.{subst}
use hepha.Prelude.{
  arith, ℕ, zero, suc, ◌+◌, ◌<◌, ◌≤◌, Bool, true, false, ◌||◌, leb, Option, none, some, ◌≡◌, ◌⊎◌,
  inl, inr, refl, Bool-cases,
}

abbrev pub max_fixpoint_iterations : ℕ
max_fixpoint_iterations = 10

-- The variables of the loop when it has ended.
pub record Outcome (S : Type 0) : Type 0 where
  pub state : S
  pub last_block : ℕ
  pub changed : Bool
  pub iteration_count : ℕ

module _ {S : Type 0} (restore : S → S → S) (visit_loop_body : ℕ → S → (Bool × ℕ) × S)
    (analysis_is_incomplete : S → Bool) (out_of_time : S → Bool) (mark_incomplete : S → S) where
  abbrev continues : ℕ → Bool → Bool
  continues iteration_count changed = leb iteration_count 4 || changed

  -- The state that `check_for_early_break` breaks the loop with, if it does.
  unfoldable check_for_early_break : S → Option S
  check_for_early_break s = elim (analysis_is_incomplete s) [
    | true ↦ some s
    | false ↦ elim (out_of_time s) [ true ↦ some (mark_incomplete s) | false ↦ none ]
  ]

  -- After a `break`.
  stopped : (Bool × ℕ) × S → S → ℕ → Outcome S
  stopped result s iteration_count = record {
    state = s;
    last_block = result.0.1;
    changed = result.0.0;
    iteration_count = iteration_count;
  }

  -- The `while` loop, for a state that was saved before it.
  unfoldable pub fixed_point_loop : S → ℕ → ℕ → Bool → ℕ → S → Option (Outcome S)
  unfolding stopped check_for_early_break
  fixed_point_loop saved zero iteration_count changed last_block s = none
  fixed_point_loop saved (suc fuel) iteration_count changed last_block s =
      elim (continues iteration_count changed) [
        | false ↦ some (record {
          state = s;
          last_block = last_block;
          changed = changed;
          iteration_count = iteration_count;
        })
        | true ↦
            let result = visit_loop_body iteration_count (restore saved s) in
            elim (check_for_early_break result.1) [
              | some t ↦ some (stopped result t iteration_count)
              | none ↦ elim (leb max_fixpoint_iterations iteration_count) [
                | true ↦ some (stopped result result.1 iteration_count)
                | false ↦
                    fixed_point_loop saved fuel (suc iteration_count) result.0.0 result.0.1 result.1
              ]
            ]
      ]

  unfoldable pub compute_fixed_point : ℕ → S → Option (Outcome S)
  unfolding fixed_point_loop
  compute_fixed_point loop_anchor s = fixed_point_loop s 11 1 true loop_anchor s

  module _ (loop_anchor : ℕ) (saved : S) where
    -- What the rounds up to the `k`-th give when nothing stops them.
    abbrev pub round : ℕ → (Bool × ℕ) × S
    round zero = ((true, loop_anchor), saved)
    round (suc k) = visit_loop_body (suc k) (restore saved (round k).1)

    -- After the `k`-th round the analysis is not given up and the clock has not run out.
    abbrev pub InTime : ℕ → Type 0
    InTime k = (analysis_is_incomplete (round k).1 ≡ false) × (out_of_time (round k).1 ≡ false)

    -- Why the loop ends with the `k`-th round, in which state, and with which count.
    pub data Stops (k : ℕ) : S → ℕ → Type 0 where
      given_up : analysis_is_incomplete (round k).1 ≡ true → Stops k (round k).1 k
      timed_out :
          analysis_is_incomplete (round k).1 ≡ false
          → out_of_time (round k).1 ≡ true
          → Stops k (mark_incomplete (round k).1) k
      at_limit : InTime k → k ≡ max_fixpoint_iterations → Stops k (round k).1 k
      settled :
          InTime k
          → 4 ≤ k
          → k < max_fixpoint_iterations
          → (round k).0.0 ≡ false
          → Stops k (round k).1 (suc k)

    -- The loop goes on after the `k`-th round: it is in time, and the round is one of the first three or
    -- found something new.
    abbrev pub GoesOn : ℕ → Type 0
    GoesOn k = InTime k × ((k < 4) ⊎ ((round k).0.0 ≡ true))

    pub record Ends (o : Outcome S) : Type 0 where
      pub rounds : ℕ
      pub some_round : 1 ≤ rounds
      pub bounded : rounds ≤ max_fixpoint_iterations
      pub changed : o.changed ≡ (round rounds).0.0
      pub last_block : o.last_block ≡ (round rounds).0.1
      pub went_on : (k : ℕ) → 1 ≤ k → k < rounds → GoesOn k
      pub stops : Stops rounds o.state o.iteration_count

    goes_on :
        (n : ℕ) (changed : Bool) → continues (suc n) changed ≡ true → (n < 4) ⊎ (changed ≡ true)
    goes_on n true h = inr refl
    goes_on n false h = inl (ground arith)

    done_with :
        (n : ℕ) (changed : Bool) → continues (suc n) changed ≡ false → (4 ≤ n) × (changed ≡ false)
    done_with n changed h = ground arith

    -- One more round that the loop goes on after.
    one_more :
        (n : ℕ)
        → ((k : ℕ) → 1 ≤ k → k < n → GoesOn k)
        → (1 ≤ n → GoesOn n)
        → (k : ℕ) → 1 ≤ k
        → k < suc n
        → GoesOn k
    one_more n h now k l m = elim (Bool-cases (leb (suc k) n)) [
      | inl e ↦ h k l (ground arith)
      | inr e ↦ let same : n ≡ k = ground arith in subst (λ i. GoesOn i) same (now (omega arith))
    ]

    loop-Ends :
        (fuel n : ℕ)
        → n + fuel ≡ 11
        → n < max_fixpoint_iterations
        → ((k : ℕ) → 1 ≤ k → k < n → GoesOn k)
        → (1 ≤ n → InTime n)
        → (o : Outcome S) × (fixed_point_loop saved fuel
              (suc n)
              (round n).0.0
              (round n).0.1
              (round n).1
            ≡ some o)
          × Ends o
    unfolding fixed_point_loop check_for_early_break
    loop-Ends zero n e p went quiet = absurd (omega arith)
    loop-Ends (suc fuel) n e p went quiet = elim (Bool-cases (continues (suc n) (round n).0.0)) [
      | inl go ↦
          let before = one_more n went (λ l. (quiet l, goes_on n (round n).0.0 go)) in
          let ends : (s : S) (i : ℕ) → Stops (suc n) s i → Ends (stopped (round (suc n)) s i) =
            λ s i h. record {
              rounds = suc n;
              some_round = omega arith;
              bounded = omega arith;
              changed = refl;
              last_block = refl;
              went_on = before;
              stops = h;
            } in
          rw (go, fixed_point_loop)
            (elim (Bool-cases (analysis_is_incomplete (round (suc n)).1)) [
              | inl given ↦ rw given (_, refl, ends (round (suc n)).1 (suc n) (given_up given))
              | inr kept ↦ rw kept (elim (Bool-cases (out_of_time (round (suc n)).1)) [
                | inl late ↦ rw late (
                  _,
                  refl,
                  ends (mark_incomplete (round (suc n)).1) (suc n) (timed_out kept late),
                )
                | inr soon ↦ rw soon (elim (Bool-cases (leb max_fixpoint_iterations (suc n))) [
                  | inl full ↦ rw full (
                    _,
                    refl,
                    ends (round (suc n)).1 (suc n) (at_limit (kept, soon) (ground arith)),
                  )
                  | inr room ↦ rw room (
                      loop-Ends fuel (suc n) (omega arith) (ground arith) before
                        (λ l. (kept, soon)))
                ])
              ])
            ])
      | inr done ↦
          let end = done_with n (round n).0.0 done in
          rw (done, fixed_point_loop)
            (
              _,
              refl,
              record {
                rounds = n;
                some_round = omega arith;
                bounded = omega arith;
                changed = refl;
                last_block = refl;
                went_on = went;
                stops = settled (quiet (omega arith)) end.0 p end.1;
              },
            )
    ]

  -- The computation of a fixed point returns, and says which round was its last: it goes on after each
  -- earlier round, as that was in time, and was one of the first three or found something new. It stops
  -- with the last round as the analysis was given up or the clock ran out in it, for which the state is
  -- marked, or as it was the tenth, or as it found nothing new and was the fourth or a later one.
  pub compute_fixed_point-Ends :
      (loop_anchor : ℕ) (s : S)
      → (o : Outcome S) × (compute_fixed_point loop_anchor s ≡ some o) × Ends loop_anchor s o
  unfolding compute_fixed_point
  compute_fixed_point-Ends loop_anchor s =
      loop-Ends loop_anchor s 11 0 (omega arith) (omega arith) (λ k l m. absurd (omega arith))
        (λ l. absurd (omega arith))
