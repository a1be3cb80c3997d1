-- ===== src/ExpectedErrors/Parsing.antt =====
-- `parse_expected` of checker/src/expected_errors.rs.
use hepha.Prelude.{
  ℕ, zero, suc, ◌+◌, ◌≤◌, ◌≡◌, refl, sym, ap, ◌∙◌, arith, true, ◌==◌, ==_iff, Option, none, some,
  Option-cases, [], ◌∷◌, ◌++◌, Bool-cases, inl, inr,
}
use hepha.Prelude.Lists.{size}
use hepha.Contract.Text.{is_prefix}
use hepha.ExpectedErrors.{Text, find, advance, drop, trim, parse_expected}

is_prefix_rest :
    (tag s : Text)
    → is_prefix tag s ≡ true
    → (post : Text) × (s ≡ tag ++ post) × (drop (size tag) s ≡ post)
unfolding is_prefix
is_prefix_rest [] s h = (s, refl, refl)
is_prefix_rest (t ∷ tag) [] h = absurd cc
is_prefix_rest (t ∷ tag) (c ∷ s) h = elim (Bool-cases (t == c)) [
  | inl e ↦
      let (post, eq, d) = is_prefix_rest tag s (ground (arith, h, e)) in
      (post, ground (arith, eq, ==_iff t c, e), d)
  | inr e ↦ absurd (ground (arith, h, e))
]

is_prefix_self : (tag post : Text) → is_prefix tag (tag ++ post) ≡ true
unfolding is_prefix
is_prefix_self [] post = refl
is_prefix_self (t ∷ tag) post = ground (arith, is_prefix_self tag post, ==_iff t t)

advance-eq-some : (o : Option ℕ) (n : ℕ) → advance o ≡ some n → (m : ℕ) × (o ≡ some m) × (n ≡ suc m)
unfolding advance
advance-eq-some none n h = absurd cc
advance-eq-some (some m) n h = (m, refl, ground arith)

find-split :
    (line tag : Text) (n : ℕ)
    → find line tag ≡ some n
    → (pre : Text) × (post : Text) × (line ≡ pre ++ (tag ++ post))
      × (size pre ≡ n)
      × (drop (n + size tag) line ≡ post)
unfolding find
find-split [] tag n h = elim (Bool-cases (is_prefix tag [])) [
  | inl e ↦
      let (post, eq, d) = is_prefix_rest tag [] e in
      let at_start : zero ≡ n = ground (arith, h, e) in
      ([], post, eq, at_start, rw (← at_start) (rw (plus (size tag)) d))
  | inr e ↦ absurd (ground (arith, h, e))
]
  where
    plus : (n : ℕ) → 0 + n ≡ n
    plus n = omega arith
find-split (c ∷ line) tag n h = elim (Bool-cases (is_prefix tag (c ∷ line))) [
  | inl e ↦
      let (post, eq, d) = is_prefix_rest tag (c ∷ line) e in
      let at_start : zero ≡ n = ground (arith, h, e) in
      ([], post, eq, at_start, rw (← at_start) (rw (plus (size tag)) d))
  | inr e ↦
      let (m, found, later) = advance-eq-some (find line tag) n (rw e at h) in
      let (pre, post, eq, at, d) = find-split line tag m found in
      (
        c ∷ pre,
        post,
        ap (λ (s : Text). c ∷ s) eq,
        ap suc at ∙ sym later,
        ap (λ (k : ℕ). drop (k + size tag) (c ∷ line)) later
            ∙ ap (λ (k : ℕ). drop k (c ∷ line)) (step m (size tag))
            ∙ d,
      )
]
  where
    plus : (n : ℕ) → 0 + n ≡ n
    plus n = omega arith

    step : (m n : ℕ) → suc m + n ≡ suc (m + n)
    step m n = omega arith

find-first :
    (pre tag post : Text) → (n : ℕ) × (find (pre ++ (tag ++ post)) tag ≡ some n) × (n ≤ size pre)
unfolding find advance
find-first [] [] [] = (0, refl, omega arith)
find-first [] [] (c ∷ post) = (0, ground (arith, is_prefix_self [] (c ∷ post)), omega arith)
find-first [] (t ∷ tag) post = (0, rw (is_prefix_self (t ∷ tag) post) refl, omega arith)
find-first (c ∷ pre) tag post = elim (Bool-cases (is_prefix tag (c ∷ (pre ++ (tag ++ post))))) [
  | inl e ↦ (0, rw e refl, omega arith)
  | inr e ↦
      let (n, found, le) = find-first pre tag post in
      (suc n, rw e (rw found refl), omega (arith, le))
]

-- A line in which the tag stands gives the trimmed text after its first occurrence; a line gives a message
-- only if the tag stands in it.
pub parse_expected_exact :
    (line tag : Text)
    → ((pre post : Text)
        → line ≡ pre ++ (tag ++ post)
        → (m : Text) × (parse_expected line tag ≡ some m))
      × ((m : Text)
          → parse_expected line tag ≡ some m
          → (pre : Text) × (post : Text) × (line ≡ pre ++ (tag ++ post))
            × (m ≡ trim post)
            × ((before after : Text) → line ≡ before ++ (tag ++ after) → size pre ≤ size before))
unfolding parse_expected
parse_expected_exact line tag = (
  λ pre post eq.
      let (n, found, _) = find-first pre tag post in
      (trim (drop (n + size tag) line), rw ((rw (← eq) at found), parse_expected) refl),
  λ m h. elim (Option-cases (find line tag)) [
    | inl e ↦ absurd (ground (arith, rw (e, parse_expected) at h))
    | inr (n, e) ↦
        let (pre, post, eq, at, d) = find-split line tag n e in
        (
          pre,
          post,
          eq,
          sym (taken n (rw (e, parse_expected) at h)) ∙ ap trim d,
          λ before after split.
              let (k, found, le) = find-first before tag after in
              let same : some n ≡ some k = sym e ∙ (rw (← split) at found) in
              ground (arith, same, at, le),
        )
  ],
)
  where
    taken :
        (n : ℕ) {m : Text}
        → some (trim (drop (n + size tag) line)) ≡ some m
        → trim (drop (n + size tag) line) ≡ m
    taken n h = ground (arith, h)
