-- ===== src/Csrf/Examples.antt =====
-- Witnesses for tokens and sealed payloads, with a toy digest in the place of the HMAC.
use notespace.Base.{
  ℕ, ◌+◌, ◌%◌, ◌<◌, List, [], ◌∷◌, ◌++◌, Text, codes, length, some, ok, err, if◌then◌else◌, leb,
  pos, ◌≡◌, ◌↔◌, refl, arith, text_eq,
}
use notespace.Session.{hex_encode}
use notespace.Decimal.{show_i64, show_digits, parse_i64, read_digits, split_once}
use notespace.Encoding.{
  base64url, base64url_decode, decode_loop, trim_pad, sextet, encode_with, encode_chunk, pack,
  push_digit,
}
use notespace.Csrf.{CsrfKey, invalid, sign, mint, seal, seal_binding, unseal, verify, dot}
use notespace.Csrf.Tokens.{verify-mint_iff}
use notespace.Csrf.Sealing.{unseal-seal, unseal_sound, Opens, seal-mint}

abbrev digest : List ℕ → List ℕ → List ℕ
digest key message = (length key + length message) % 256 ∷ []

abbrev key : CsrfKey
key = record { signing = codes "0123456789abcdef0123456789abcdef" }

minted_text : (mint digest key (codes "ann") 1000 500).signed ≡ codes "1500.28"
unfolding mint sign show_i64 show_digits hex_encode
minted_text = refl

sealed_text : seal digest key (codes "fo") 1000 500 ≡ codes "1500.Zm8.2d"
unfolding seal sign show_i64 show_digits hex_encode base64url encode_with encode_chunk pack
    push_digit
sealed_text = refl

verify-mint_iff_example :
    (verify digest key (mint digest key (codes "ann") 1000 500).signed (codes "bob") 1400 ≡ ok tt)
    ↔ ((1400 < 1000 + 500)
        × (sign digest key (codes "bob") (pos (1000 + 500))
            ≡ sign digest key (codes "ann") (pos (1000 + 500))))
verify-mint_iff_example =
    verify-mint_iff digest key (codes "ann") (codes "bob") 1000 500 1400 (omega arith)

unseal-seal_example :
    unseal digest key (seal digest key (codes "fo") 1000 500) 1400
    ≡ (if leb (1000 + 500) 1400 then err invalid else ok (codes "fo"))
unseal-seal_example =
    unseal-seal digest key (codes "fo") 1000 500 1400 (omega arith, (omega arith, tt)) (omega arith)

opened : unseal digest key (codes "1500.Zm8.2d") 1400 ≡ ok (codes "fo")
unfolding unseal sign show_i64 show_digits hex_encode split_once parse_i64 read_digits
    base64url_decode decode_loop trim_pad sextet text_eq
opened = refl

unseal_sound_example : Opens digest key (codes "1500.Zm8.2d") 1400 (codes "fo")
unseal_sound_example = unseal_sound digest key (codes "1500.Zm8.2d") 1400 (codes "fo") opened

seal-mint_example :
    let token =
      (mint digest key (seal_binding digest key (base64url (codes "fo"))) 1000 500).signed in
    (parts : Text × Text) × (split_once dot token ≡ some parts)
    × (parts.0 ++ dot ∷ (base64url (codes "fo") ++ dot ∷ parts.1)
        ≡ seal digest key (codes "fo") 1000 500)
seal-mint_example = seal-mint digest key (codes "fo") 1000 500
