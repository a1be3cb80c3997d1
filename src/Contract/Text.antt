-- ===== src/Contract/Text.antt =====
-- `str::contains` for a pattern that is a text.
use Prim.Native.String.{String}
use Prim.Native.Char.{code}
use hepha.Prelude.{ℕ, Bool, true, false, ◌||◌, ◌==◌, List, [], ◌∷◌, if◌then◌else◌}

abbrev pub codes : String → List ℕ
codes String.[] = []
codes (String.◌∷◌ c s) = code c ∷ codes s

-- The pattern is at the head of the text.
unfoldable pub is_prefix : List ℕ → List ℕ → Bool
is_prefix [] rest = true
is_prefix (_ ∷ _) [] = false
is_prefix (want ∷ pattern) (got ∷ rest) = if want == got then is_prefix pattern rest else false

unfoldable pub contains_codes : List ℕ → List ℕ → Bool
unfolding is_prefix
contains_codes [] pattern = is_prefix pattern []
contains_codes (got ∷ rest) pattern = is_prefix pattern (got ∷ rest) || contains_codes rest pattern

unfoldable pub contains : String → String → Bool
unfolding contains_codes
contains text pattern = contains_codes (codes text) (codes pattern)
