-- ===== src/Session/Examples.antt =====
-- Tokens and expiry at concrete inputs.
use notespace.Base.{codes, replicate, length, some, none, true, false, ◌≡◌, refl, arith, All}
use notespace.Encoding.Chunks.{IsByte}
use notespace.Session.{
  SessionToken, Session, from_bytes, parse_token, to_cookie_value, hex_decode, decode_pairs,
  to_digit, is_expired, should_refresh, default_policy_ms, expiry_from,
}
use notespace.Session.Tokens.{parse_token-to_cookie_value}

abbrev token : SessionToken
token = from_bytes (replicate 32 0xAB)

short_rejected : parse_token (codes "abcdef") ≡ none
unfolding parse_token hex_decode decode_pairs to_digit
short_rejected = refl

abbrev session : Session
session = record {
  token_hash = record { digest = codes "h" };
  user_id = 1;
  created_at = 1000;
  refreshed_at = 1000;
  expires_at = expiry_from default_policy_ms 1000;
}

refresh_after_a_day :
    (should_refresh default_policy_ms session 86400999 ≡ false)
    × (should_refresh default_policy_ms session 86401000 ≡ true)
    × (is_expired session 2592001000 ≡ true)
unfolding should_refresh is_expired
refresh_after_a_day = (refl, refl, refl)

All-bytes : All IsByte token.secret
All-bytes = omega arith

parse_token-to_cookie_value_example :
    (parse_token (to_cookie_value token) ≡ some token) × (length (to_cookie_value token) ≡ 64)
parse_token-to_cookie_value_example = parse_token-to_cookie_value token All-bytes refl
