-- ===== src/Schedule/Text.antt =====
-- What the schedules of resources/scripts/napseer_mcp_server.py use of Python's texts. A text is the
-- list of the codes of its characters, all of them ASCII.
use nap_cli.Prelude.{
  ℕ, ◌+◌, ◌-◌, ◌*◌, Bool, true, false, ◌&&◌, ◌||◌, Option, none, some, List, [], ◌∷◌, if◌then◌else◌,
  leb, ◌==◌,
}

abbrev pub Text : Type 0
Text = List ℕ

unfoldable pub is_space : ℕ → Bool
is_space c = (leb 9 c && leb c 13) || (leb 28 c && leb c 32)

abbrev pub is_empty : Text → Bool
is_empty [] = true
is_empty (c ∷ text) = false

unfoldable pub trim_left : Text → Text
trim_left [] = []
trim_left (c ∷ text) = let rest = trim_left text in if is_space c then rest else c ∷ text

unfoldable pub trim_right : Text → Text
trim_right [] = []
trim_right (c ∷ text) =
    let rest = trim_right text in if is_space c && is_empty rest then [] else c ∷ rest

-- `text.strip()`
unfoldable pub strip : Text → Text
strip text = trim_left (trim_right text)

abbrev pub onto_first : ℕ → List Text → List Text
onto_first c [] = (c ∷ []) ∷ []
onto_first c (part ∷ parts) = (c ∷ part) ∷ parts

-- `text.split(separator)`
unfoldable pub split_on : ℕ → Text → List Text
split_on separator [] = [] ∷ []
split_on separator (c ∷ text) =
    let rest = split_on separator text in if c == separator then [] ∷ rest else onto_first c rest

abbrev pub with_first : ℕ → Option (Text × Text) → Option (Text × Text)
with_first c none = none
with_first c (some (left, right)) = some (c ∷ left, right)

-- `text.split(separator, 1)`, `none` where the separator is not in the text.
unfoldable pub split_once : ℕ → Text → Option (Text × Text)
split_once separator [] = none
split_once separator (c ∷ text) =
    let rest = split_once separator text in
    if c == separator then some ([], text) else with_first c rest

-- The words, the first of which is still open: `text.split()`.
unfoldable pub words_from : Text → Text × List Text
words_from [] = ([], [])
words_from (c ∷ text) =
    let (word, words) = words_from text in
    if is_space c then ([], if is_empty word then words else word ∷ words) else (c ∷ word, words)

unfoldable pub words : Text → List Text
words text = let (word, rest) = words_from text in if is_empty word then rest else word ∷ rest

unfoldable pub all_digits : Text → Bool
all_digits [] = true
all_digits (c ∷ text) = (leb 48 c && leb c 57) && all_digits text

-- `text.isdigit()`
unfoldable pub is_digits : Text → Bool
is_digits text = if is_empty text then false else all_digits text

-- `int(text)` of digits.
unfoldable pub int_after : ℕ → Text → ℕ
int_after n [] = n
int_after n (c ∷ text) = int_after (10 * n + (c - 48)) text
