-- ===== src/Ids.antt =====
-- crates/core/src/id.rs: public ids. A text is the list of its code points; an id is ASCII, so
-- its code points are its bytes.

pub mod Digits
pub mod Payload
pub mod Reading
pub mod Parsing
pub mod Making
pub mod Makers
pub mod Made
pub mod Ordering
mod Examples
use notespace.Base.{
  ℕ, zero, suc, ◌+◌, ◌-◌, ◌*◌, ◌/◌, ◌%◌, ◌^◌, Bool, not, ◌&&◌, List, [], ◌∷◌, ◌++◌, Text, codes,
  length, get_or, set, replicate, Result, ok, err, ◌>>=◌, if◌then◌else◌, ◌==◌, ltb, leb, bit_and,
  bit_or,
}

abbrev pub id_alphabet : Text
id_alphabet = codes "0123456789abcdefghjkmnpqrstvwxyz"

abbrev pub id_chars : ℕ
id_chars = 16

abbrev pub min_id_chars : ℕ
min_id_chars = 16

abbrev pub max_id_chars : ℕ
max_id_chars = 26

abbrev pub max_payload_bits : ℕ
max_payload_bits = 128

abbrev pub timestamp_bits : ℕ
timestamp_bits = 48

abbrev pub max_timestamp_ms : ℕ
max_timestamp_ms = 281474976710655

abbrev pub two_128 : ℕ
two_128 = 340282366920938463463374607431768211456

-- The subtraction saturates.
abbrev pub reserved_bits : ℕ → ℕ
reserved_bits chars = chars * 5 - max_payload_bits

abbrev pub payload_bits : ℕ → ℕ
payload_bits chars =
    let raw = chars * 5 in if ltb max_payload_bits raw then max_payload_bits else raw

abbrev pub bad_char : ℕ
bad_char = 0xFF

abbrev pub skip_char : ℕ
skip_char = 0xFE

-- The loop that fills the reverse table, a letter in both cases.
fill_cases : ℕ → Text → List ℕ → List ℕ
fill_cases i [] table = table
fill_cases i (c ∷ cs) table =
    let lower = set table c i in
    fill_cases (i + 1) cs (if leb b'a' c && leb c b'z' then set lower (c - 32) i else lower)

id_table : List ℕ
unfolding fill_cases
id_table =
    let filled = fill_cases 0 id_alphabet (replicate 256 bad_char) in
    let ones = set (set (set (set filled b'i' 1) b'I' 1) b'l' 1) b'L' 1 in
    set (set (set ones b'o' 0) b'O' 0) b'-' skip_char

-- `DECODE[c]`, which the source reads at ASCII characters only.
unfoldable pub id_value : ℕ → ℕ
unfolding id_table
id_value c = get_or id_table c bad_char

unfoldable pub id_char : ℕ → ℕ
id_char d = get_or id_alphabet d 0

pub data IdError : Type 0 where
  timestamp_out_of_range : ℕ → IdError
  wrong_length : ℕ → IdError
  bad_character : ℕ → IdError
  value_too_wide : ℕ → IdError
  reserved_bits_set : IdError

pub record PublicId : Type 0 where
  pub written : Text

abbrev pub width : PublicId → ℕ
width id = length id.written

unfoldable pub random_bits : ℕ → Result IdError ℕ
random_bits chars =
    if leb min_id_chars chars && leb chars max_id_chars
    then ok (payload_bits chars - timestamp_bits)
    else err (wrong_length chars)

-- The digit before its mask; a shift to the left drops what does not fit the `u128`.
unfoldable pub shifted : ℕ → ℕ → ℕ → ℕ
shifted reserved payload hi =
    if leb reserved hi
    then payload / 2 ^ (hi - reserved)
    else payload * 2 ^ (reserved - hi) % two_128

-- The loop with `k` characters left, so that `hi` is `5 * (k - 1)`.
unfoldable pub render_from : ℕ → ℕ → ℕ → Text
render_from reserved payload zero = []
render_from reserved payload (suc k) =
    id_char (bit_and (shifted reserved payload (5 * k)) 31) ∷ render_from reserved payload k

unfoldable pub render : ℕ → ℕ → Text
render payload chars = render_from (reserved_bits chars) payload chars

-- The mask is at most 80 bits wide, and the payload below 2 ^ 128.
unfoldable pub with_width : ℕ → ℕ → ℕ → Result IdError PublicId
with_width timestamp_ms random chars =
    if ltb max_timestamp_ms timestamp_ms then err (timestamp_out_of_range timestamp_ms) else do
      bits ← random_bits chars
      let payload = bit_or (timestamp_ms * 2 ^ bits) (bit_and random (2 ^ bits - 1))
      ok (record { written = render payload chars })

unfoldable pub new_id : ℕ → ℕ → Result IdError PublicId
new_id timestamp_ms random = with_width timestamp_ms random id_chars

unfoldable pub from_u128 : ℕ → ℕ → Result IdError PublicId
from_u128 payload chars = do
  bits ← random_bits chars
  let total = payload_bits chars
  if ltb total 128 && leb (2 ^ total) payload
      then err (value_too_wide payload)
      else ok (record { written = render payload chars })

unfoldable pub from_u128_payload : ℕ → PublicId
from_u128_payload payload = record { written = render payload max_id_chars }

-- One round of the folds, in `u128`.
unfoldable pub read_digit : ℕ → ℕ → ℕ
read_digit acc d = bit_or (acc * 2 ^ 5 % two_128) d

-- Everything but the last character, and the last one. An id is never empty.
unfoldable pub head_value : ℕ → Text → ℕ
head_value acc [] = acc
head_value acc (c ∷ []) = acc
head_value acc (c ∷ d ∷ s) = head_value (read_digit acc (id_value c)) (d ∷ s)

unfoldable pub last_value : Text → ℕ
last_value [] = 0
last_value (c ∷ []) = id_value c
last_value (c ∷ d ∷ s) = last_value (d ∷ s)

unfoldable pub to_u128 : PublicId → ℕ
to_u128 id =
    let reserved = reserved_bits (width id) in
    bit_or (head_value 0 id.written * 2 ^ (5 - reserved) % two_128)
      (last_value id.written / 2 ^ reserved)

unfoldable pub timestamp_ms : PublicId → ℕ
timestamp_ms id = to_u128 id / 2 ^ (payload_bits (width id) - timestamp_bits)

unfoldable pub random : PublicId → ℕ
random id = bit_and (to_u128 id) (2 ^ (payload_bits (width id) - timestamp_bits) - 1)

abbrev pub is_ascii : ℕ → Bool
is_ascii c = ltb c 128

-- The loop of `parse`, with what is pushed so far.
unfoldable pub read_chars : Text → Text → Result IdError Text
read_chars out [] = ok out
read_chars out (c ∷ s) =
    let v = id_value c in
    let rest = read_chars (if v == skip_char then out else out ++ id_char v ∷ []) s in
    if not (is_ascii c)
    then err (bad_character c)
    else if v == skip_char
    then rest
    else if v == bad_char
    then err (bad_character c)
    else if leb max_id_chars (length out)
    then err (wrong_length (length out + 1))
    else rest

unfoldable pub check_read : Text → Result IdError PublicId
check_read out =
    let reserved = reserved_bits (length out) in
    if ltb (length out) min_id_chars
    then err (wrong_length (length out))
    else if ltb 0 reserved && not (bit_and (last_value out) (2 ^ reserved - 1) == 0)
    then err reserved_bits_set
    else ok (record { written = out })

unfoldable pub parse_id : Text → Result IdError PublicId
parse_id s = do out ← read_chars [] s; check_read out

-- The loop of `encode_grouped` from place `i`.
unfoldable pub group_from : ℕ → Text → Text
group_from i [] = []
group_from i (c ∷ s) =
    let rest = group_from (i + 1) s in if ltb 0 i && i % 4 == 0 then b'-' ∷ c ∷ rest else c ∷ rest

unfoldable pub encode_grouped : PublicId → Text
encode_grouped id = group_from 0 id.written
