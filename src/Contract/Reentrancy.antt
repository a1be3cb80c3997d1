-- ===== src/Contract/Reentrancy.antt =====
-- When the reentrancy detector of checker/src/contract_errors.rs raises the alarm.
use Prim.Native.String.{String}
use mathlib.Core.List.{Memᴰ, reverse}
use mathlib.Core.List.Memᴰ
use hepha.Prelude.{
  arith, ℕ, ◌<◌, ◌≤◌, Bool, true, false, ltb, some, List, [], ◌∷◌, if◌then◌else◌, ◌≡◌, ◌↔◌, ◌⊎◌,
  inl, inr, refl, ap, Bool-cases, Option-cases,
}
use hepha.Contract.{
  Place, copy, move, constant, assign, other_statement, assert_sub_overflow, other_terminator,
  BlockStatement, statement, terminator_kind, ReentrancyChecker, visit_block_statement, check_block,
  check_blocks, check, last, new,
}

-- A statement writes to the local of a place, or it subtracts from a copy of that local.
pub data Stores (t : Place) : BlockStatement → Type 0 where
  assigned : {p : Place} → t.local ≡ p.local → Stores t (statement (assign p))
  subtracted :
      {p : Place} → t.local ≡ p.local → Stores t (terminator_kind (assert_sub_overflow (copy p)))

visit-Stores :
    (s : ReentrancyChecker) (b : BlockStatement)
    → visit_block_statement s b ≡ true
    → (t : Place) × (s.temporary_variable_for_balance ≡ some t) × Stores t b
unfolding visit_block_statement
visit-Stores s (statement (assign p)) h = elim (Option-cases s.temporary_variable_for_balance) [
  | inl e ↦ absurd (ground arith)
  | inr (t, e) ↦ (t, e, assigned (ground arith))
]
visit-Stores s (statement other_statement) h = cc
visit-Stores s (terminator_kind (assert_sub_overflow (copy p))) h =
    elim (Option-cases s.temporary_variable_for_balance) [
      | inl e ↦ absurd (ground arith)
      | inr (t, e) ↦ (t, e, subtracted (ground arith))
    ]
visit-Stores s (terminator_kind (assert_sub_overflow (move p))) h = cc
visit-Stores s (terminator_kind (assert_sub_overflow constant)) h = cc
visit-Stores s (terminator_kind other_terminator) h = cc

visit_of_Stores :
    (s : ReentrancyChecker) {b : BlockStatement} {t : Place}
    → s.temporary_variable_for_balance ≡ some t
    → Stores t b
    → visit_block_statement s b ≡ true
unfolding visit_block_statement
visit_of_Stores s e (assigned h) = ground arith
visit_of_Stores s e (subtracted h) = ground arith

module _ (s : ReentrancyChecker) where
  check_block-out :
      (bs : List BlockStatement) (v : Bool)
      → check_block s bs v ≡ true
      → (v ≡ true) ⊎ ((b : BlockStatement) × Memᴰ b bs × (visit_block_statement s b ≡ true))
  unfolding check_block
  check_block-out [] v h = inl h
  check_block-out (b ∷ bs) true h = inl refl
  check_block-out (b ∷ bs) false h = elim (Bool-cases (visit_block_statement s b)) [
    | inl e ↦ inr (b, Memᴰ.head refl, e)
    | inr e ↦ elim (check_block-out bs false (rw (e, check_block) at h)) [
      | inl f ↦ inl f
      | inr (c, m, f) ↦ inr (c, Memᴰ.tail m, f)
    ]
  ]

  check_block-true : (bs : List BlockStatement) → check_block s bs true ≡ true
  unfolding check_block
  check_block-true [] = refl
  check_block-true (b ∷ bs) = ground arith

  check_block-in :
      (bs : List BlockStatement) (v : Bool) {b : BlockStatement}
      → Memᴰ b bs
      → visit_block_statement s b ≡ true
      → check_block s bs v ≡ true
  unfolding check_block
  check_block-in [] v m h = absurd (Memᴰ.not-nil m)
  check_block-in (c ∷ bs) v (Memᴰ.head e) h =
      let f : visit_block_statement s c ≡ true = rw (← e) h in ground arith
  check_block-in (c ∷ bs) v (Memᴰ.tail m) h = ground (arith, check_block-in bs false m h)

  check_blocks-out :
      (a : ℕ) (blocks : List (ℕ × List BlockStatement)) (v : Bool)
      → check_blocks s a blocks v ≡ true
      → (v ≡ true)
        ⊎ ((bb : ℕ) × (bs : List BlockStatement) × (b : BlockStatement) × Memᴰ (bb, bs) blocks
            × (a < bb)
            × Memᴰ b bs
            × (visit_block_statement s b ≡ true))
  unfolding check_blocks
  check_blocks-out a [] v h = inl h
  check_blocks-out a ((bb, bs) ∷ blocks) v h =
      elim (check_blocks-out a blocks (if ltb a bb then check_block s bs v else v) h) [
        | inl e ↦ elim (Bool-cases (ltb a bb)) [
          | inl l ↦ elim (check_block-out bs v (rw l at e)) [
            | inl f ↦ inl f
            | inr (b, m, f) ↦ inr (bb, bs, b, Memᴰ.head refl, ground arith, m, f)
          ]
          | inr l ↦ inl (rw l at e)
        ]
        | inr (k, ks, b, m, l, n, f) ↦ inr (k, ks, b, Memᴰ.tail m, l, n, f)
      ]

  check_blocks-true :
      (a : ℕ) (blocks : List (ℕ × List BlockStatement)) → check_blocks s a blocks true ≡ true
  unfolding check_blocks
  check_blocks-true a [] = refl
  check_blocks-true a ((bb, bs) ∷ blocks) =
      ground (arith, check_block-true bs, check_blocks-true a blocks)

  check_blocks-in :
      (a : ℕ) (blocks : List (ℕ × List BlockStatement)) (v : Bool) {bb : ℕ}
      {bs : List BlockStatement}
      → Memᴰ (bb, bs) blocks
      → a < bb
      → ((w : Bool) → check_block s bs w ≡ true)
      → check_blocks s a blocks v ≡ true
  unfolding check_blocks
  check_blocks-in a [] v m l h = absurd (Memᴰ.not-nil m)
  check_blocks-in a ((k, ks) ∷ blocks) v {bb} {bs} (Memᴰ.head e) l h =
      let below : a < k = omega (arith, ap (λ (p : ℕ × List BlockStatement). p.0) e) in
      let f : check_block s ks v ≡ true =
        rw (← ap (λ (p : ℕ × List BlockStatement). p.1) e) (h v) in
      ground (arith, check_blocks-true a blocks)
  check_blocks-in a ((k, ks) ∷ blocks) v (Memᴰ.tail m) l h =
      check_blocks-in a blocks (if ltb a k then check_block s ks v else v) m l h

last-mem {ℓ} : {A : Type ℓ} (xs : List A) (x : A) → last xs ≡ some x → Memᴰ x xs
last-mem [] x e = cc
last-mem (y ∷ []) x e = Memᴰ.head (cc)
last-mem (y ∷ z ∷ xs) x e = Memᴰ.tail (last-mem (z ∷ xs) x e)

last-some {ℓ} : {A : Type ℓ} (xs : List A) {x : A} → Memᴰ x xs → (y : A) × (last xs ≡ some y)
last-some [] m = absurd (Memᴰ.not-nil m)
last-some (y ∷ []) m = (y, refl)
last-some (y ∷ z ∷ xs) m = last-some (z ∷ xs) (Memᴰ.head refl)

-- An iterator over a hash map visits exactly its entries.
abbrev pub Visits : (List (ℕ × String) → List (ℕ × String)) → Type 0
Visits order = (l : List (ℕ × String)) (e : ℕ × String) → Memᴰ e (order l) ↔ Memᴰ e l

module _ (order : List (ℕ × String) → List (ℕ × String)) (visits : Visits order)
    (s : ReentrancyChecker) where
  -- An alarm has a reason, in whatever order the hash map is iterated over: there are a balance
  -- variable, a block with a transfer and a later block, in number, that stores to the variable.
  pub check_sound :
      check order s ≡ true
      → (t : Place) × (transfer : ℕ × String) × (bb : ℕ) × (bs : List BlockStatement)
        × (b : BlockStatement) × (s.temporary_variable_for_balance ≡ some t)
        × Memᴰ transfer s.function_lamport_transfer
        × (transfer.0 < bb)
        × Memᴰ (bb, bs) s.block_statements
        × Memᴰ b bs
        × Stores t b
  unfolding check
  check_sound h = elim (Option-cases (last (order s.function_lamport_transfer))) [
    | inl e ↦ absurd (ground arith)
    | inr (transfer, e) ↦
        elim (check_blocks-out s transfer.0 s.block_statements false (rw (e, check) at h)) [
          | inl f ↦ absurd (cc)
          | inr (bb, bs, b, m, l, n, f) ↦
              let (t, et, st) = visit-Stores s b f in
              (
                t,
                transfer,
                bb,
                bs,
                b,
                et,
                (visits s.function_lamport_transfer transfer).0 (last-mem _ transfer e),
                l,
                m,
                n,
                st,
              )
        ]
  ]

  -- If there are transfers, and a block after all of them, in number, stores to the balance variable,
  -- then the alarm is raised, in whatever order the hash map is iterated over.
  pub check_complete :
      (t : Place) (transfer : ℕ × String) (bb : ℕ) (bs : List BlockStatement) (b : BlockStatement)
      → s.temporary_variable_for_balance ≡ some t
      → Memᴰ transfer s.function_lamport_transfer
      → ((e : ℕ × String) → Memᴰ e s.function_lamport_transfer → e.0 < bb)
      → Memᴰ (bb, bs) s.block_statements
      → Memᴰ b bs
      → Stores t b
      → check order s ≡ true
  unfolding check
  check_complete t transfer bb bs b et some_transfer below m n st =
      let (e, le) =
        last-some (order s.function_lamport_transfer)
          ((visits s.function_lamport_transfer transfer).1 some_transfer) in
      let before = below e ((visits s.function_lamport_transfer e).0 (last-mem _ e le)) in
      rw (le, check)
        (check_blocks-in s e.0 s.block_statements false m before
          (λ w. check_block-in s bs w n (visit_of_Stores s et st)))

-- Two transfers in blocks `a` and `b`, and a store to the balance variable in block `m`.
abbrev pub two_transfers : ℕ → ℕ → ℕ → String → Place → ReentrancyChecker
two_transfers a b m name t = record new {
  block_statements = (m, statement (assign t) ∷ []) ∷ [];
  function_lamport_transfer = (a, name) ∷ (b, name) ∷ [];
  temporary_variable_for_balance = some t;
}

-- With a store between two transfers the verdict depends on the order in which the hash map is
-- iterated over: there is no alarm if the later block comes last, and there is one if it comes first.
pub check_depends_on_order :
    (a b m : ℕ) (name : String) (t : Place)
    → a < m
    → m ≤ b
    → (check (λ l. l) (two_transfers a b m name t) ≡ false)
      × (check reverse (two_transfers a b m name t) ≡ true)
unfolding check check_blocks check_block visit_block_statement new
check_depends_on_order a b m name t h k = (ground arith, ground arith)
