-- ===== src/Session.antt =====
-- crates/core/src/session.rs: tokens of a session, in hexadecimal, and its expiry.
pub mod Tokens
pub mod Examples
use notespace.Base.{
  ℕ, ◌+◌, ◌-◌, ◌*◌, ◌/◌, ◌%◌, Bool, not, ◌&&◌, Option, none, some, List, [], ◌∷◌, Text, codes,
  length, get_or, if◌then◌else◌, ◌==◌, leb, bit_and,
}
use notespace.Model.{Timestamp}

abbrev pub token_bytes : ℕ
token_bytes = 32

abbrev pub hex_table : Text
hex_table = codes "0123456789abcdef"

abbrev pub hex_char : ℕ → ℕ
hex_char d = get_or hex_table d 0

unfoldable pub hex_encode : List ℕ → Text
hex_encode [] = []
hex_encode (b ∷ bytes) = hex_char (b / 16) ∷ hex_char (bit_and b 15) ∷ hex_encode bytes

-- `char::to_digit(16)`.
unfoldable pub to_digit : ℕ → Option ℕ
to_digit c =
    if leb b'0' c && leb c b'9'
    then some (c - b'0')
    else if leb b'a' c && leb c b'f'
    then some (c - b'a' + 10)
    else if leb b'A' c && leb c b'F'
    then some (c - b'A' + 10)
    else none

infixl 5 ◌>>=◌
abbrev ◌>>=◌ {ℓ κ} : {S : Type ℓ} {T : Type κ} → Option S → (S → Option T) → Option T
none >>= f = none
some a >>= f = f a

-- The map over pairs of bytes, collected.
unfoldable pub decode_pairs : Text → Option (List ℕ)
decode_pairs [] = some []
decode_pairs (c ∷ []) = none
decode_pairs (c ∷ d ∷ s) = do
  high ← to_digit c
  low ← to_digit d
  rest ← decode_pairs s
  some ((high * 16 + low) ∷ rest)

unfoldable pub hex_decode : Text → Option (List ℕ)
hex_decode s = if length s % 2 == 0 then decode_pairs s else none

pub record SessionToken : Type 0 where
  pub secret : List ℕ

pub record TokenHash : Type 0 where
  pub digest : Text

abbrev pub from_bytes : List ℕ → SessionToken
from_bytes bytes = record { secret = bytes }

abbrev sized : List ℕ → Option SessionToken
sized bytes = if length bytes == token_bytes then some (from_bytes bytes) else none

unfoldable pub parse_token : Text → Option SessionToken
parse_token s = do bytes ← hex_decode s; sized bytes

unfoldable pub to_cookie_value : SessionToken → Text
to_cookie_value t = hex_encode t.secret

-- SHA-256 is a parameter, on bytes.
unfoldable pub hash_token : (List ℕ → List ℕ) → SessionToken → TokenHash
hash_token sha256 t = record { digest = hex_encode (sha256 t.secret) }

pub record Session : Type 0 where
  pub token_hash : TokenHash
  pub user_id : ℕ
  pub created_at : Timestamp
  pub refreshed_at : Timestamp
  pub expires_at : Timestamp

pub record SessionPolicy : Type 0 where
  pub lifetime_ms : ℕ
  pub refresh_after_ms : ℕ

abbrev pub default_policy_ms : SessionPolicy
default_policy_ms = record {
  lifetime_ms = 30 * 24 * 60 * 60 * 1000;
  refresh_after_ms = 24 * 60 * 60 * 1000;
}

abbrev pub expiry_from : SessionPolicy → Timestamp → Timestamp
expiry_from policy now = now + policy.lifetime_ms

unfoldable pub is_expired : Session → Timestamp → Bool
is_expired s now = leb s.expires_at now

-- `now - refreshed_at >= refresh_after_ms`, without the difference, which may be negative.
unfoldable pub should_refresh : SessionPolicy → Session → Timestamp → Bool
should_refresh policy s now =
    not (is_expired s now) && leb (s.refreshed_at + policy.refresh_after_ms) now
