-- ===== src/Session/Tokens.antt =====
-- A session's token and its cookie value.
use notespace.Base.{
  ℕ, ◌+◌, ◌*◌, ◌/◌, ◌%◌, ◌<◌, Bool, true, false, none, some, List, [], ◌∷◌, length, All, ◌==◌, ◌≡◌,
  refl, ◌∙◌, arith, holds_on, holds_on_lem, and_mask,
}
use notespace.Encoding.Chunks.{IsByte}
use notespace.Session.{
  hex_char, hex_encode, hex_decode, decode_pairs, to_digit, SessionToken, parse_token,
  to_cookie_value,
}

digit_ok : ℕ → Bool
digit_ok d = elim (to_digit (hex_char d)) [ none ↦ false | some e ↦ e == d ]

digit_table : holds_on digit_ok 16 ≡ true
unfolding digit_ok holds_on to_digit
digit_table = refl

to_digit-hex_char : (d : ℕ) → d < 16 → to_digit (hex_char d) ≡ some d
unfolding digit_ok
to_digit-hex_char d h = ground (arith, holds_on_lem digit_ok 16 d digit_table h)

decode_pairs-hex_encode :
    (bytes : List ℕ) → All IsByte bytes → decode_pairs (hex_encode bytes) ≡ some bytes
unfolding decode_pairs hex_encode
decode_pairs-hex_encode [] h = refl
decode_pairs-hex_encode (b ∷ bytes) (h, hs) =
    let whole : b / 16 * 16 + b % 16 ≡ b = omega arith in
    rw
      (
        decode_pairs,
        to_digit-hex_char (b / 16) (omega arith),
        and_mask 4 b,
        to_digit-hex_char (b % 16) (omega arith),
        decode_pairs-hex_encode bytes hs,
        whole,
      )
      refl

pub length-hex_encode : (bytes : List ℕ) → length (hex_encode bytes) ≡ length bytes * 2
unfolding hex_encode
length-hex_encode [] = refl
length-hex_encode (b ∷ bytes) = omega (arith, length-hex_encode bytes)

pub hex_decode-hex_encode :
    (bytes : List ℕ) → All IsByte bytes → hex_decode (hex_encode bytes) ≡ some bytes
unfolding hex_decode
hex_decode-hex_encode bytes h =
    let even : length bytes * 2 % 2 ≡ 0 = omega arith in
    rw (length-hex_encode bytes, even) (decode_pairs-hex_encode bytes h)

-- The cookie of a token of 32 bytes has 64 characters, and gives the token back.
pub parse_token-to_cookie_value :
    (t : SessionToken)
    → All IsByte t.secret
    → length t.secret ≡ 32
    → (parse_token (to_cookie_value t) ≡ some t) × (length (to_cookie_value t) ≡ 64)
unfolding parse_token to_cookie_value
parse_token-to_cookie_value t h size = (
  rw (hex_decode-hex_encode t.secret h, size) refl,
  length-hex_encode t.secret ∙ omega (arith, size),
)
