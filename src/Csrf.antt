-- ===== src/Csrf.antt =====
-- crates/core/src/csrf.rs: tokens bound to a visitor, and sealed payloads. HMAC-SHA256 is a
-- parameter, from a key and a message to bytes. Times are after 1970.
pub mod Tokens
pub mod Sealing
pub mod Examples
use notespace.Base.{
  ℕ, ◌+◌, ◌*◌, Bool, Option, none, some, List, ◌∷◌, ◌++◌, Text, codes, length, Result, ok, err,
  if◌then◌else◌, ltb, leb, ℤ, pos, negsuc, text_eq,
}
use notespace.Model.{Timestamp}
use notespace.Decimal.{show_i64, parse_i64, split_once}
use notespace.Encoding.{base64url, base64url_decode}
use notespace.Session.{TokenHash, hex_encode}

abbrev pub default_lifetime_ms : ℕ
default_lifetime_ms = 4 * 60 * 60 * 1000

pub record CsrfKey : Type 0 where
  pub signing : List ℕ

pub record CsrfToken : Type 0 where
  pub signed : Text

pub data CsrfError : Type 0 where
  weak_key : ℕ → CsrfError
  invalid : CsrfError

unfoldable pub new_key : List ℕ → Result CsrfError CsrfKey
new_key bytes =
    if ltb (length bytes) 32 then err (weak_key (length bytes)) else ok (record { signing = bytes })

abbrev pub dot : ℕ
dot = b'.'

-- `expires_at <= now`, for a time that may lie before 1970.
abbrev pub over : ℤ → Timestamp → Bool
over (pos t) now = leb t now
over (negsuc t) now = Bool.true

abbrev or_invalid : {A : Type 0} → Option A → Result CsrfError A
or_invalid none = err invalid
or_invalid (some a) = ok a

infixl 5 ◌>>=◌
abbrev ◌>>=◌ {ℓ κ} :
    {A : Type ℓ} {B : Type κ} → Result CsrfError A → (A → Result CsrfError B) → Result CsrfError B
ok a >>= f = f a
err e >>= f = err e

module _ (hmac : List ℕ → List ℕ → List ℕ) (key : CsrfKey) where
  unfoldable pub sign : Text → ℤ → Text
  sign binding expires_at = hex_encode (hmac key.signing (binding ++ dot ∷ show_i64 expires_at))

  unfoldable pub mint : Text → Timestamp → ℕ → CsrfToken
  mint binding now lifetime_ms =
      let expires_at = pos (now + lifetime_ms) in
      record { signed = show_i64 expires_at ++ dot ∷ sign binding expires_at }

  unfoldable pub mint_for_session : TokenHash → Timestamp → ℕ → CsrfToken
  mint_for_session session now lifetime_ms = mint session.digest now lifetime_ms

  abbrev pub seal_binding : Text → Text
  seal_binding body = codes "seal." ++ body

  unfoldable pub seal : List ℕ → Timestamp → ℕ → Text
  seal payload now lifetime_ms =
      let expires_at = pos (now + lifetime_ms) in
      let body = base64url payload in
      show_i64 expires_at ++ dot ∷ (body ++ dot ∷ sign (seal_binding body) expires_at)

  -- `splitn(3, '.')` with all three parts present. The comparison in constant time is equality.
  unfoldable pub unseal : Text → Timestamp → Result CsrfError (List ℕ)
  unseal sealed now = do
    (exp, rest) ← or_invalid (split_once dot sealed)
    (body, sig) ← or_invalid (split_once dot rest)
    expires_at ← or_invalid (parse_i64 exp)
    if text_eq (sign (seal_binding body) expires_at) sig
        then (if over expires_at now then err invalid else or_invalid (base64url_decode body))
        else err invalid

  unfoldable pub verify : Text → Text → Timestamp → Result CsrfError (Unit {0})
  verify token binding now = do
    (expiry, mac) ← or_invalid (split_once dot token)
    expires_at ← or_invalid (parse_i64 expiry)
    if over expires_at now
        then err invalid
        else if text_eq (sign binding expires_at) mac
        then ok tt
        else err invalid
