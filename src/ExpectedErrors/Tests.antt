-- ===== src/ExpectedErrors/Tests.antt =====
-- Runs of the checks of expected errors.
use hepha.Prelude.{ℕ, ◌≤◌, ◌≡◌, refl, true, false, some, List, [], ◌∷◌}
use hepha.Prelude.Lists.{get_elem?}
use hepha.Contract.Text.{codes, contains_codes}
use hepha.ExpectedErrors.{
  Text, len, str, Diag, remove_at, remove_message, check_messages, messages_of, parse_expected,
  load_errors,
}
use hepha.ExpectedErrors.Removal.{Matches, done, pick, check_messages_sound, remove_message_exact}
use hepha.ExpectedErrors.Parsing.{parse_expected_exact}

abbrev overflow_line : Text
overflow_line = codes "x + 1 //~ possible overflow "

parse_overflow : parse_expected overflow_line (codes "//~") ≡ some (codes "possible overflow")
unfolding parse_expected
parse_overflow = refl

load_one :
    load_errors (codes "fn f() {" ∷ overflow_line ∷ []) (codes "//~")
    ≡ codes "possible overflow" ∷ []
unfolding load_errors
load_one = refl

remove_longest :
    remove_message (codes "over" ∷ codes "overflow" ∷ []) (codes "possible overflow")
    ≡ some (codes "over" ∷ [])
unfolding remove_message
remove_longest = refl

abbrev one_child : List Diag
one_child = record { message = str (codes "overflow"); children = str (codes "related") ∷ [] } ∷ []

one_child_checked :
    check_messages (codes "related" ∷ codes "overflow" ∷ []) one_child ≡ some (true, [])
unfolding check_messages
one_child_checked = refl

remove_message_exact_example :
    (p : ℕ) × (l : Text) × (get_elem? (codes "over" ∷ codes "overflow" ∷ []) p ≡ some l)
    × (contains_codes (codes "possible overflow") l ≡ true)
    × (codes "over" ∷ [] ≡ remove_at p (codes "over" ∷ codes "overflow" ∷ []))
    × ((k : ℕ) (e : Text)
        → get_elem? (codes "over" ∷ codes "overflow" ∷ []) k ≡ some e
        → contains_codes (codes "possible overflow") e ≡ true
        → len e ≤ len l)
remove_message_exact_example =
    (remove_message_exact (codes "over" ∷ codes "overflow" ∷ []) (codes "possible overflow")).1
      (codes "over" ∷ []) remove_longest

parse_expected_exact_example : (m : Text) × (parse_expected overflow_line (codes "//~") ≡ some m)
parse_expected_exact_example =
    (parse_expected_exact overflow_line (codes "//~")).0 (codes "x + 1 ")
      (codes " possible overflow ") refl

check_messages_sound_example :
    Matches (messages_of one_child) (codes "related" ∷ codes "overflow" ∷ [])
check_messages_sound_example =
    check_messages_sound (codes "related" ∷ codes "overflow" ∷ []) one_child [] one_child_checked

-- Messages that can be paired off may be refused: of two matches of one length the first is taken.
abbrev two_messages : List Diag
two_messages =
    record { message = str (codes "a b"); children = [] }
    ∷ record { message = str (codes "a"); children = [] }
    ∷ []

two_messages_refused :
    check_messages (codes "a" ∷ codes "b" ∷ []) two_messages ≡ some (false, codes "b" ∷ [])
unfolding check_messages
two_messages_refused = refl

two_messages-Matches : Matches (messages_of two_messages) (codes "a" ∷ codes "b" ∷ [])
unfolding messages_of contains_codes
two_messages-Matches = pick 1 (codes "b") refl refl (pick 0 (codes "a") refl refl done)
