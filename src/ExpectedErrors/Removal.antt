-- ===== src/ExpectedErrors/Removal.antt =====
-- `remove_message` and `check_messages` of checker/src/expected_errors.rs.
use hepha.Prelude.{
  ℕ, zero, suc, ◌+◌, ◌≤◌, ◌≡◌, ◌⊎◌, inl, inr, refl, sym, ◌∙◌, arith, Bool, true, false, ◌&&◌,
  Option, none, some, Option-cases, List, [], ◌∷◌, Bool-cases, ltb, both,
}
use hepha.Prelude.Lists.{get_elem?}
use hepha.Contract.Text.{contains_codes}
use hepha.ExpectedErrors.{
  Text, len, DiagMessage, str, translatable, Diag, Best, longer, find_longest, remove_at,
  remove_message, expect_str, check_all, messages_of, is_empty, check_messages,
}

-- The best match of a list from index `i` on, where `best` is that of the elements before it.
record Searched (msg : Text) (i : ℕ) (best : Best) (es : List Text) (result : Best) : Type 0 where
  nothing :
      result ≡ none
      → (best ≡ none)
        × ((k : ℕ) (e : Text) → get_elem? es k ≡ some e → contains_codes msg e ≡ false)
  something :
      (p : ℕ) (l : Text)
      → result ≡ some (p, l)
      → (best ≡ some (p, l))
        ⊎ ((k : ℕ) × (p ≡ i + k) × (get_elem? es k ≡ some l) × (contains_codes msg l ≡ true))
  grows : (p q : ℕ) (b l : Text) → best ≡ some (q, b) → result ≡ some (p, l) → len b ≤ len l
  longest :
      (p k : ℕ) (e l : Text)
      → result ≡ some (p, l)
      → get_elem? es k ≡ some e
      → contains_codes msg e ≡ true
      → len e ≤ len l

-- What one element makes of the best match.
longer_kept :
    (i : ℕ) (e : Text) (best : Best)
    → (q : ℕ) × (b : Text) × (longer i e best ≡ some (q, b))
      × (len e ≤ len b)
      × ((best ≡ some (q, b)) ⊎ (q ≡ i) × (b ≡ e))
      × ((r : ℕ) (c : Text) → best ≡ some (r, c) → len c ≤ len b)
unfolding longer
longer_kept i e none = (i, e, refl, omega arith, inr (refl, refl), λ r c h. absurd cc)
longer_kept i e (some (pos, old)) = elim (Bool-cases (ltb (len old) (len e))) [
  | inl more ↦ (
    i,
    e,
    rw more refl,
    omega arith,
    inr (refl, refl),
    λ r c h. let same : old ≡ c = ground (arith, h) in rw (← same) (ground (arith, more)),
  )
  | inr less ↦ (
    pos,
    old,
    rw less refl,
    ground (arith, less),
    inl refl,
    λ r c h. let same : old ≡ c = ground (arith, h) in rw (← same) (omega arith),
  )
]

module _ (msg : Text) (i : ℕ) (best : Best) (x : Text) (es : List Text) where
  skip-Searched :
      {result : Best}
      → contains_codes msg x ≡ false
      → Searched msg (suc i) best es result
      → Searched msg i best (x ∷ es) result
  skip-Searched lacks r = record {
    nothing = λ h. let (b, rest) = r.nothing h in (b, lacking rest);
    something = λ p l h. elim (r.something p l h) [
      | inl b ↦ inl b
      | inr (k, q, g, c) ↦ inr (suc k, omega (arith, q), g, c)
    ];
    grows = r.grows;
    longest = λ p k e l h. bounded p l k e (λ j. r.longest p j e l h);
  }
    where
      lacking :
          ((k : ℕ) (e : Text) → get_elem? es k ≡ some e → contains_codes msg e ≡ false)
          → (k : ℕ) (e : Text) → get_elem? (x ∷ es) k ≡ some e
          → contains_codes msg e ≡ false
      lacking rest zero e g = let same : x ≡ e = ground (arith, g) in rw (← same) lacks
      lacking rest (suc k) e g = rest k e g

      bounded :
          (p : ℕ) (l : Text) (k : ℕ) (e : Text)
          → ((j : ℕ) → get_elem? es j ≡ some e → contains_codes msg e ≡ true → len e ≤ len l)
          → get_elem? (x ∷ es) k ≡ some e
          → contains_codes msg e ≡ true
          → len e ≤ len l
      bounded p l zero e rest g c =
          let same : x ≡ e = ground (arith, g) in absurd (ground (arith, rw same at lacks, c))
      bounded p l (suc k) e rest g c = rest k g c

  take-Searched :
      {result : Best}
      → contains_codes msg x ≡ true
      → Searched msg (suc i) (longer i x best) es result
      → Searched msg i best (x ∷ es) result
  take-Searched {result} has r =
      let (q, b, is_b, x_le, source, old_le) = longer_kept i x best in
      record {
        nothing = λ h. absurd (ground (arith, (r.nothing h).0, is_b));
        something = λ p l h. elim (r.something p l h) [
          | inl k ↦ elim source [
            | inl old ↦ inl (old ∙ sym is_b ∙ k)
            | inr (at_i, is_x) ↦
                let same : ◌≡◌ {A = Best} (some (q, b)) (some (p, l)) = sym is_b ∙ k in
                inr (
                  zero,
                  ground (arith, same, at_i),
                  ground (arith, same, is_x),
                  rw (ground_eq q b p l same is_x) has,
                )
          ]
          | inr (k, e, g, c) ↦ inr (suc k, omega (arith, e), g, c)
        ];
        grows = λ p s c l h g. omega (arith, old_le s c h, r.grows p q b l is_b g);
        longest = λ p k e l h.
            bounded p l k e (omega (arith, x_le, r.grows p q b l is_b h))
              (λ j. r.longest p j e l h);
      }
    where
      ground_eq :
          (q : ℕ) (b : Text) (p : ℕ) (l : Text)
          → ◌≡◌ {A = Best} (some (q, b)) (some (p, l))
          → b ≡ x
          → l ≡ x
      ground_eq q b p l same is_x = ground (arith, same, is_x)

      bounded :
          (p : ℕ) (l : Text) (k : ℕ) (e : Text)
          → len x ≤ len l
          → ((j : ℕ) → get_elem? es j ≡ some e → contains_codes msg e ≡ true → len e ≤ len l)
          → get_elem? (x ∷ es) k ≡ some e
          → contains_codes msg e ≡ true
          → len e ≤ len l
      bounded p l zero e le rest g c = let same : x ≡ e = ground (arith, g) in rw (← same) le
      bounded p l (suc k) e le rest g c = rest k g c

find_longest-Searched :
    (msg : Text) (i : ℕ) (best : Best) (es : List Text)
    → Searched msg i best es (find_longest msg i best es)
unfolding find_longest
find_longest-Searched msg i best [] = record {
  nothing = λ h. (h, λ k e g. absurd cc);
  something = λ p l h. inl h;
  grows = λ p q b l h g. let same : b ≡ l = ground (arith, sym h ∙ g) in rw same (omega arith);
  longest = λ p k e l h g c. absurd cc;
}
find_longest-Searched msg i best (x ∷ es) = elim (Bool-cases (contains_codes msg x)) [
  | inl has ↦
      rw has
        (take-Searched msg i best x es has (find_longest-Searched msg (suc i) (longer i x best) es))
  | inr lacks ↦
      rw lacks (skip-Searched msg i best x es lacks (find_longest-Searched msg (suc i) best es))
]

-- If no message is removed, then none of the expected ones is contained in the text; otherwise one is removed
-- that is contained in it, and no expected message that is contained in it is longer.
pub remove_message_exact :
    (expected_messages : List Text) (msg : Text)
    → (remove_message expected_messages msg ≡ none
        → (k : ℕ) (e : Text) → get_elem? expected_messages k ≡ some e
        → contains_codes msg e ≡ false)
      × ((rest : List Text)
          → remove_message expected_messages msg ≡ some rest
          → (p : ℕ) × (l : Text) × (get_elem? expected_messages p ≡ some l)
            × (contains_codes msg l ≡ true)
            × (rest ≡ remove_at p expected_messages)
            × ((k : ℕ) (e : Text)
                → get_elem? expected_messages k ≡ some e
                → contains_codes msg e ≡ true
                → len e ≤ len l))
unfolding remove_message
remove_message_exact es msg =
    let r = find_longest-Searched msg 0 none es in
    elim (Option-cases (find_longest msg 0 none es)) [
      | inl e ↦ rw (e, remove_message) (λ _. (r.nothing e).1, λ rest h. absurd cc)
      | inr ((p, l), e) ↦
          rw (e, remove_message)
            (
              λ h. absurd cc,
              λ rest h. elim (r.something p l e) [
                | inl b ↦ absurd cc
                | inr (k, q, g, c) ↦
                    let same : k ≡ p = omega (arith, q) in
                    (p, l, rw (← same) g, c, ground (arith, h), λ j x. r.longest p j x l e)
              ],
            )
    ]

-- The messages and the expected messages can be paired off, each message with one that it contains.
pub data Matches : List DiagMessage → List Text → Type 0 where
  done : Matches [] []
  pick :
      {m : Text} {ms : List DiagMessage} {es : List Text} (p : ℕ) (l : Text)
      → get_elem? es p ≡ some l
      → contains_codes m l ≡ true
      → Matches ms (remove_at p es)
      → Matches (str m ∷ ms) es

check_all-Matches :
    (es : List Text) (ds : List DiagMessage) (rest : List Text)
    → check_all es ds ≡ some (true, rest)
    → is_empty rest ≡ true
    → Matches ds es
unfolding check_all expect_str
check_all-Matches [] [] rest h e = done
check_all-Matches (x ∷ es) [] rest h e =
    let same : x ∷ es ≡ rest = ground (arith, h) in absurd (ground (arith, rw (← same) at e))
check_all-Matches es (translatable ∷ ds) rest h e = absurd cc
check_all-Matches es (str m ∷ ds) rest h e = elim (Option-cases (remove_message es m)) [
  | inl gone ↦ absurd (ground (arith, rw (gone, check_all) at h))
  | inr (left, gone) ↦
      let (p, l, g, c, same, _) = (remove_message_exact es m).1 left gone in
      pick p l g c (rw (← same) (check_all-Matches left ds rest (rw (gone, check_all) at h) e))
]

-- If the diagnostics are found to match, then they, with their children, can be paired off with the expected
-- messages, each with one that it contains, and none is left over.
pub check_messages_sound :
    (expected_messages : List Text) (diagnostics : List Diag) (rest : List Text)
    → check_messages expected_messages diagnostics ≡ some (true, rest)
    → Matches (messages_of diagnostics) expected_messages
unfolding check_messages
check_messages_sound es ds rest h = elim (Option-cases (check_all es (messages_of ds))) [
  | inl e ↦ absurd (ground (arith, rw (e, check_messages) at h))
  | inr ((ok, left), e) ↦
      let same : ◌≡◌ {A = Option (Bool × List Text)} (some (ok && is_empty left, left))
          (some (true, rest)) =
        rw (e, check_messages) at h in
      let (o, b) = both ok (is_empty left) (ground (arith, same)) in
      check_all-Matches es (messages_of ds) left (e ∙ rw o refl) b
]
