-- ===== src/Naming.antt =====
-- crates/core/src/naming.rs: the rules that usernames and space names share.
pub mod Normal
pub mod Examples
use notespace.Base.{
  ℕ, ◌+◌, ◌-◌, Bool, true, false, not, ◌&&◌, ◌||◌, Text, List, [], ◌∷◌, any, length, Result, ok,
  err, if◌then◌else◌, leb, ◌==◌, text_eq, ◌>>=◌,
}

pub record Rules : Type 0 where
  pub kind : Text
  pub min : ℕ
  pub max : ℕ
  pub reserved : List Text

pub data NameError : Type 0 where
  wrong_length : Text → ℕ → ℕ → ℕ → NameError
  bad_character edge_separator : ℕ → Text → NameError
  double_separator : Text → NameError
  reserved : Text → NameError
  no_letter : Text → NameError

-- `char::to_ascii_lowercase`.
unfoldable pub to_lower : ℕ → ℕ
to_lower c = if leb b'A' c && leb c b'Z' then c + 32 else c

abbrev pub is_letter : ℕ → Bool
is_letter c = leb b'a' c && leb c b'z'

abbrev pub is_digit : ℕ → Bool
is_digit c = leb b'0' c && leb c b'9'

abbrev pub is_separator : ℕ → Bool
is_separator c = c == b'-' || c == b'_'

-- One round of the loop: whether a letter was seen, or why the name is refused.
round : Rules → ℕ → ℕ → Bool → Bool → ℕ → Result NameError Bool
round rules n i prev_sep has_letter ch =
    let c = to_lower ch in
    if is_letter c
    then ok true
    else if is_digit c
    then ok has_letter
    else if is_separator c
    then (if i == 0 || i == n - 1
        then err (edge_separator ch rules.kind)
        else if prev_sep
        then err (double_separator rules.kind)
        else ok has_letter)
    else err (bad_character ch rules.kind)

-- The loop from the `i`-th of `n` characters on; it returns `out` and `has_letter`.
scan : Rules → ℕ → ℕ → Bool → Bool → Text → Result NameError (Text × Bool)
unfolding round
scan rules n i prev_sep has_letter [] = ok ([], has_letter)
scan rules n i prev_sep has_letter (ch ∷ s) = do
  letter ← round rules n i prev_sep has_letter ch
  rest ← scan rules n (i + 1) (is_separator (to_lower ch)) letter s
  ok (to_lower ch ∷ rest.0, rest.1)

-- `leet`: separators dropped, and digits read as the letters they look like.
abbrev letter_for : ℕ → ℕ
letter_for c =
    if c == b'0'
    then b'o'
    else if c == b'1'
    then b'i'
    else if c == b'3'
    then b'e'
    else if c == b'4'
    then b'a'
    else if c == b'5'
    then b's'
    else if c == b'7'
    then b't'
    else if c == b'8'
    then b'b'
    else c

unfoldable pub leet : Text → Text
leet [] = []
leet (c ∷ s) = let rest = leet s in if is_separator c then rest else letter_for (to_lower c) ∷ rest

-- `binary_search` on a list that is sorted: whether the name is in it.
abbrev listed : List Text → Text → Bool
listed names s = any (text_eq s) names

unfoldable pub is_reserved : Text → List Text → Bool
unfolding leet text_eq to_lower
is_reserved s names = listed names s || listed names (leet s)

-- What `validate` does after the loop.
finish : Rules → Text × Bool → Result NameError Text
finish rules (out, has_letter) =
    if not has_letter
    then err (no_letter rules.kind)
    else if is_reserved out rules.reserved
    then err (reserved out)
    else ok out

unfoldable pub validate : Text → Rules → Result NameError Text
unfolding scan finish
validate input rules =
    let n = length input in
    if not (leb rules.min n && leb n rules.max)
    then err (wrong_length rules.kind rules.min rules.max n)
    else (scan rules n 0 false false input >>= finish rules)
