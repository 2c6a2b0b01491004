-- ===== src/Encoding.antt =====
-- crates/core/src/encoding.rs: base64 and base64url. Bytes and texts are lists of numbers.
pub mod Chunks
pub mod RoundTrip
mod Examples
use notespace.Base.{
  ℕ, ◌+◌, ◌-◌, ◌*◌, ◌/◌, ◌%◌, ◌^◌, Bool, true, false, ◌&&◌, ◌||◌, Option, none, some, List, [], ◌∷◌,
  ◌++◌, Text, codes, length, get_or, if◌then◌else◌, ◌==◌, leb,
}
use notespace.Base.{bit_and, bit_or}
use notespace.Strings.{is_empty}
use mathlib.Core.Option as Opt

abbrev pub standard : Text
standard = codes "ABCDEFGHIJKLMNOPQRSTUVWXYZabcdefghijklmnopqrstuvwxyz0123456789+/"

abbrev pub url_safe : Text
url_safe = codes "ABCDEFGHIJKLMNOPQRSTUVWXYZabcdefghijklmnopqrstuvwxyz0123456789-_"

abbrev pub pad_char : ℕ
pad_char = b'='

-- The fold over a chunk from its place `i`. A byte shifted by at most 16 fits the `u32`.
unfoldable pub pack : ℕ → ℕ → List ℕ → ℕ
pack i acc [] = acc
pack i acc (b ∷ chunk) = pack (i + 1) (bit_or acc (b * 2 ^ (16 - 8 * i))) chunk

-- One round of the inner loop: what is pushed at place `i` of four.
unfoldable pub push_digit : Text → Bool → ℕ → ℕ → ℕ → Text
push_digit table pad chars n i =
    if leb i chars
    then get_or table (bit_and (n / 2 ^ (18 - 6 * i)) 63) 0 ∷ []
    else if pad
    then pad_char ∷ []
    else []

unfoldable pub encode_chunk : Text → Bool → List ℕ → Text
encode_chunk table pad chunk =
    let n = pack 0 0 chunk in
    let push = push_digit table pad (length chunk) n in push 0 ++ push 1 ++ push 2 ++ push 3

-- `bytes.chunks(3)` and the outer loop.
unfoldable pub encode_with : Text → List ℕ → Bool → Text
encode_with table [] pad = []
encode_with table (a ∷ []) pad = encode_chunk table pad (a ∷ [])
encode_with table (a ∷ b ∷ []) pad = encode_chunk table pad (a ∷ b ∷ [])
encode_with table (a ∷ b ∷ c ∷ bytes) pad =
    encode_chunk table pad (a ∷ b ∷ c ∷ []) ++ encode_with table bytes pad

unfoldable pub base64 : List ℕ → Text
base64 bytes = encode_with standard bytes true

unfoldable pub base64url : List ℕ → Text
base64url bytes = encode_with url_safe bytes false

unfoldable pub sextet : ℕ → Option ℕ
sextet c =
    if leb b'A' c && leb c b'Z'
    then some (c - b'A')
    else if leb b'a' c && leb c b'z'
    then some (c - b'a' + 26)
    else if leb b'0' c && leb c b'9'
    then some (c - b'0' + 52)
    else if c == b'-' || c == b'+'
    then some 62
    else if c == b'_' || c == b'/'
    then some 63
    else none

-- `trim_end_matches('=')`.
unfoldable pub trim_pad : Text → Text
trim_pad [] = []
trim_pad (c ∷ s) = let rest = trim_pad s in if is_empty rest && c == pad_char then [] else c ∷ rest

-- The loop of `base64url_decode`, with what it still pushes as the result.
unfoldable pub decode_loop : Text → ℕ → ℕ → Option (List ℕ)
decode_loop [] acc bits = some []
decode_loop (c ∷ s) acc bits = elim (sextet c) [
  | none ↦ none
  | some v ↦
      let wide = bit_or (acc * 2 ^ 6 % 2 ^ 32) v in
      let full = leb 8 (bits + 6) in
      let left = if full then bits + 6 - 8 else bits + 6 in
      let rest = decode_loop s (if full then bit_and wide (2 ^ left - 1) else wide) left in
      if full then Opt.map (◌∷◌ (wide / 2 ^ left % 256)) rest else rest
]

unfoldable pub base64url_decode : Text → Option (List ℕ)
base64url_decode s = decode_loop (trim_pad s) 0 0
