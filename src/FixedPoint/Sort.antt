-- ===== src/FixedPoint/Sort.antt =====
-- What one call of the sort in checker/src/fixed_point_visitor.rs keeps and adds.
use mathlib.Core.List.{Memᴰ}
use mathlib.Core.List.Memᴰ
use hepha.Prelude.{
  arith, ℕ, zero, suc, ◌+◌, ◌<◌, ◌≤◌, Bool, true, false, not, ◌&&◌, ◌||◌, ◌==◌, Option, some, List,
  [], ◌∷◌, ◌++◌, if◌then◌else◌, ◌≡◌, inl, inr, Bool-cases,
}
use hepha.FixedPoint.{contains, Sorting}

-- The number of blocks below `n` that a set lacks.
abbrev pub missing : ℕ → List ℕ → ℕ
missing zero added = 0
missing (suc n) added = (if contains added n then 0 else 1) + missing n added

missing_cons : (n b : ℕ) (added : List ℕ) → (missing n (b ∷ added) ≤ missing n added)
missing_cons zero b added = omega arith
missing_cons (suc n) b added = ground (arith, missing_cons n b added)

pub missing_new :
    (n b : ℕ) (added : List ℕ)
    → b < n
    → contains added b ≡ false
    → missing n (b ∷ added) + 1 ≤ missing n added
missing_new zero b added h e = absurd (omega arith)
missing_new (suc n) b added h e = elim (Bool-cases (b == n)) [
  | inl q ↦ ground (arith, missing_cons n b added)
  | inr q ↦ ground (arith, missing_new n b added)
]

pub missing_mono :
    (n : ℕ) (added more : List ℕ)
    → ((x : ℕ) → contains added x ≡ true → contains more x ≡ true)
    → missing n more ≤ missing n added
missing_mono zero added more h = omega arith
missing_mono (suc n) added more h = ground (arith, missing_mono n added more h, h n)

pub contains-append :
    (xs : List ℕ) (b x : ℕ) → contains (xs ++ b ∷ []) x ≡ (contains xs x || b == x)
contains-append [] b x = ground arith
contains-append (y ∷ ys) b x = ground (arith, contains-append ys b x)

pub contains-mem : (xs : List ℕ) {x : ℕ} → Memᴰ x xs → contains xs x ≡ true
contains-mem [] m = absurd (Memᴰ.not-nil m)
contains-mem (y ∷ ys) (Memᴰ.head e) = ground arith
contains-mem (y ∷ ys) (Memᴰ.tail m) = ground (arith, contains-mem ys m)

module _ (n : ℕ) (predecessors : ℕ → List ℕ) (dominates : ℕ → ℕ → Bool) (rank : ℕ → ℕ)
    (Reducible : Type 0) where
  -- A list to which blocks were added one by one, each new, and each, in a reducible graph, behind
  -- the predecessors that it does not dominate.
  pub data Ordered : List ℕ → Type 0 where
    nil : Ordered []
    snoc :
        {xs ys : List ℕ} (b : ℕ)
        → Ordered xs
        → contains xs b ≡ false
        → (Reducible → (p : ℕ) → Memᴰ p (predecessors b) → (contains xs p || dominates b p) ≡ true)
        → ys ≡ xs ++ b ∷ []
        → Ordered ys

  -- Added and not yet in the list: a call for the block has begun and not ended.
  abbrev pub open_block : Sorting → ℕ → Bool
  open_block s x = contains s.already_added x && not (contains s.block_indices x)

  pub record IsSorting (s : Sorting) : Type 0 where
    pub ordered : Ordered s.block_indices
    pub listed : (x : ℕ) → contains s.block_indices x ≡ true → contains s.already_added x ≡ true
    pub in_range : (x : ℕ) → contains s.already_added x ≡ true → x < n
    pub anchors :
        (x : ℕ)
        → contains s.loop_anchors x ≡ true
        → (p : ℕ) × Memᴰ p (predecessors x) × (dominates x p ≡ true)

  -- From one state to a later one.
  pub record Extends (s t : Sorting) : Type 0 where
    pub added : (x : ℕ) → contains s.already_added x ≡ true → contains t.already_added x ≡ true
    pub kept : (x : ℕ) → contains s.block_indices x ≡ true → contains t.block_indices x ≡ true
    pub closed : (x : ℕ) → open_block t x ≡ true → open_block s x ≡ true
    pub stays : (x : ℕ) → open_block s x ≡ true → open_block t x ≡ true

  pub Extends-refl : (s : Sorting) → Extends s s
  Extends-refl s = record { added = λ x h. h; kept = λ x h. h; closed = λ x h. h; stays = λ x h. h }

  pub Extends-trans : {s t u : Sorting} → Extends s t → Extends t u → Extends s u
  Extends-trans h k = record {
    added = λ x e. k.added x (h.added x e);
    kept = λ x e. k.kept x (h.kept x e);
    closed = λ x e. h.closed x (k.closed x e);
    stays = λ x e. k.stays x (h.stays x e);
  }

  -- The blocks whose calls have not ended are ranked above `b`.
  abbrev pub Above : Sorting → ℕ → Type 0
  Above s b = (x : ℕ) → open_block s x ≡ true → rank b < rank x

  -- What a call for the block `b` gives.
  pub record Visited (s : Sorting) (b : ℕ) (r : Option Sorting) : Type 0 where
    pub result : Sorting
    pub returned : r ≡ some result
    pub sorting : IsSorting result
    pub extends : Extends s result
    pub there : contains result.already_added b ≡ true

  -- What the loop over some predecessors of `b` gives.
  pub record Looped (s : Sorting) (b : ℕ) (ps : List ℕ) (r : Option Sorting) : Type 0 where
    pub result : Sorting
    pub returned : r ≡ some result
    pub sorting : IsSorting result
    pub extends : Extends s result
    pub ready :
        Reducible → (p : ℕ) → Memᴰ p ps → (contains result.block_indices p || dominates b p) ≡ true
