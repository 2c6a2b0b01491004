-- ===== src/Decimal.antt =====
-- Rust's decimal form of an `i64`, `str::split_once`, and the hexadecimal digits of bytes, which
-- the tokens of crates/core/src/session.rs and csrf.rs are written with.
pub mod RoundTrip
use notespace.Base.{
  ℕ, zero, suc, ◌+◌, ◌-◌, ◌*◌, ◌/◌, ◌%◌, ◌&&◌, Option, none, some, [], ◌∷◌, ◌++◌, Text,
  if◌then◌else◌, ◌==◌, ltb, leb, ℤ, pos, negsuc, two_63,
}

-- `to_string` with room for `fuel` digits; an `i64` has at most 19.
unfoldable pub show_digits : ℕ → ℕ → Text
show_digits zero n = []
show_digits (suc fuel) n =
    let high = show_digits fuel (n / 10) in
    if ltb n 10 then (n + b'0') ∷ [] else high ++ (n % 10 + b'0') ∷ []

unfoldable pub show_i64 : ℤ → Text
show_i64 (pos n) = show_digits 20 n
show_i64 (negsuc n) = b'-' ∷ show_digits 20 (n + 1)

unfoldable pub read_digits : ℕ → Text → Option ℕ
read_digits acc [] = some acc
read_digits acc (c ∷ s) =
    let rest = read_digits (acc * 10 + (c - b'0')) s in
    if leb b'0' c && leb c b'9' then rest else none

-- A magnitude with its sign; out of range where it is above the bound.
abbrev within : ℕ → (ℕ → ℤ) → Option ℕ → Option ℤ
within bound sign none = none
within bound sign (some n) = if leb n bound then some (sign n) else none

abbrev negated : ℕ → ℤ
negated zero = pos 0
negated (suc n) = negsuc n

abbrev magnitude : Text → Option ℕ
magnitude [] = none
magnitude (c ∷ s) = read_digits 0 (c ∷ s)

-- `str::parse::<i64>`, which takes a sign.
unfoldable pub parse_i64 : Text → Option ℤ
parse_i64 [] = none
parse_i64 (c ∷ s) =
    if c == b'-'
    then within two_63 negated (magnitude s)
    else if c == b'+'
    then within (two_63 - 1) pos (magnitude s)
    else within (two_63 - 1) pos (magnitude (c ∷ s))

abbrev prepend : ℕ → Option (Text × Text) → Option (Text × Text)
prepend c none = none
prepend c (some (s, t)) = some (c ∷ s, t)

unfoldable pub split_once : ℕ → Text → Option (Text × Text)
split_once sep [] = none
split_once sep (c ∷ s) =
    let rest = split_once sep s in if c == sep then some ([], s) else prepend c rest
