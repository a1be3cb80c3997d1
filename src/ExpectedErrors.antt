-- ===== src/ExpectedErrors.antt =====
-- The expected diagnostics of a test case, checker/src/expected_errors.rs. A text is the list of its code
-- points; the lines of the test file and the diagnostics of the compiler are arguments.
pub mod Removal
pub mod Parsing
mod Tests
use hepha.Prelude.{
  ℕ, zero, suc, ◌+◌, Bool, true, false, ◌&&◌, ◌||◌, ◌==◌, ltb, leb, Option, none, some, List, [],
  ◌∷◌, ◌++◌, if◌then◌else◌,
}
use hepha.Prelude.Lists.{size}
use hepha.Contract.Text.{is_prefix, contains_codes}

abbrev pub Text : Type 0
Text = List ℕ

-- `String::len` counts the bytes of UTF-8.
abbrev pub utf8_size : ℕ → ℕ
utf8_size c = if ltb c 128 then 1 else if ltb c 2048 then 2 else if ltb c 65536 then 3 else 4

abbrev pub len : Text → ℕ
len [] = 0
len (c ∷ s) = utf8_size c + len s

-- One message of a diagnostic; only a message that is a text is expected.
pub data DiagMessage : Type 0 where
  str : Text → DiagMessage
  translatable : DiagMessage

pub record Diag : Type 0 where
  pub message : DiagMessage
  pub children : List DiagMessage

-- `none` is a panic.
unfoldable pub expect_str : DiagMessage → Option Text
expect_str (str s) = some s
expect_str translatable = none

-- The best match so far: its position and its text.
abbrev pub Best : Type 0
Best = Option (ℕ × Text)

unfoldable pub longer : ℕ → Text → Best → Best
longer i expected none = some (i, expected)
longer i expected (some (pos, longest_match)) =
    if ltb (len longest_match) (len expected) then some (i, expected) else some (pos, longest_match)

unfoldable pub find_longest : Text → ℕ → Best → List Text → Best
unfolding longer contains_codes
find_longest msg i best [] = best
find_longest msg i best (expected ∷ es) =
    find_longest msg (suc i) (if contains_codes msg expected then longer i expected best else best)
      es

abbrev pub remove_at : ℕ → List Text → List Text
remove_at i [] = []
remove_at zero (e ∷ es) = es
remove_at (suc i) (e ∷ es) = e ∷ remove_at i es

-- The messages that are left, or `none` if the method returns false.
unfoldable pub remove_message : List Text → Text → Option (List Text)
unfolding find_longest
remove_message expected_messages msg = elim (find_longest msg 0 none expected_messages) [
  | none ↦ none
  | some best ↦ some (remove_at best.0 expected_messages)
]

-- The answer with the messages left; `none` is a panic.
abbrev pub Answer : Type 0
Answer = Option (Bool × List Text)

unfoldable pub check_all : List Text → List DiagMessage → Answer
unfolding expect_str remove_message
check_all expected_messages [] = some (true, expected_messages)
check_all expected_messages (d ∷ ds) = elim (expect_str d) [
  | none ↦ none
  | some msg ↦ elim (remove_message expected_messages msg) [
    | none ↦ some (false, expected_messages)
    | some rest ↦ check_all rest ds
  ]
]

-- A message, and then its children.
unfoldable pub messages_of : List Diag → List DiagMessage
messages_of [] = []
messages_of (d ∷ ds) = d.message ∷ (d.children ++ messages_of ds)

abbrev pub is_empty : List Text → Bool
is_empty [] = true
is_empty (_ ∷ _) = false

unfoldable pub check_messages : List Text → List Diag → Answer
unfolding check_all messages_of
check_messages expected_messages diagnostics =
    elim (check_all expected_messages (messages_of diagnostics)) [
      | none ↦ none
      | some (reported, rest) ↦ some (reported && is_empty rest, rest)
    ]

-- The characters that `str::trim` removes.
abbrev pub is_whitespace : ℕ → Bool
is_whitespace c =
    (leb 9 c && leb c 13)
    || c == 32
    || c == 133
    || c == 160
    || c == 5760
    || (leb 8192 c && leb c 8202)
    || c == 8232
    || c == 8233
    || c == 8239
    || c == 8287
    || c == 12288

unfoldable pub trim_start : Text → Text
trim_start [] = []
trim_start (c ∷ s) = if is_whitespace c then trim_start s else c ∷ s

unfoldable pub is_blank : Text → Bool
is_blank [] = true
is_blank (c ∷ s) = is_whitespace c && is_blank s

unfoldable pub trim_end : Text → Text
unfolding is_blank
trim_end [] = []
trim_end (c ∷ s) = let rest = trim_end s in if is_blank (c ∷ s) then [] else c ∷ rest

unfoldable pub trim : Text → Text
unfolding trim_start trim_end
trim s = trim_end (trim_start s)

unfoldable pub advance : Option ℕ → Option ℕ
advance none = none
advance (some n) = some (suc n)

-- `str::find`: where the pattern stands first.
unfoldable pub find : Text → Text → Option ℕ
unfolding is_prefix advance
find [] tag = if is_prefix tag [] then some 0 else none
find (c ∷ line) tag =
    let rest = find line tag in if is_prefix tag (c ∷ line) then some 0 else advance rest

abbrev pub drop : ℕ → Text → Text
drop zero s = s
drop (suc n) [] = []
drop (suc n) (c ∷ s) = drop n s

unfoldable pub parse_expected : Text → Text → Option Text
unfolding find trim
parse_expected line tag = elim (find line tag) [
  | none ↦ none
  | some tag_start ↦ some (trim (drop (tag_start + size tag) line))
]

-- The messages of the lines that have the tag.
unfoldable pub load_errors : List Text → Text → List Text
unfolding parse_expected
load_errors [] tag = []
load_errors (line ∷ lines) tag = elim (parse_expected line tag) [
  | none ↦ load_errors lines tag
  | some message ↦ message ∷ load_errors lines tag
]
