-- ===== src/Encoding/Examples.antt =====
-- Runs of the encoder and the decoder, and the witness of the round trip.
use notespace.Encoding.RoundTrip.{base64url_decode-base64}
use notespace.Base.{[], ◌∷◌, codes, ◌≡◌, refl, some, arith}
use notespace.Encoding.{
  base64, base64url, base64url_decode, encode_with, encode_chunk, pack, push_digit, decode_loop,
  trim_pad, sextet,
}

base64_pads : base64 (codes "fo") ≡ codes "Zm8="
unfolding base64 encode_with encode_chunk pack push_digit
base64_pads = refl

base64_key : base64 (codes "api:key-1") ≡ codes "YXBpOmtleS0x"
unfolding base64 encode_with encode_chunk pack push_digit
base64_key = refl

base64url_high : base64url (0xfb ∷ 0xff ∷ []) ≡ codes "-_8"
unfolding base64url encode_with encode_chunk pack push_digit
base64url_high = refl

decode_padded : base64url_decode (codes "Zg==") ≡ some (codes "f")
unfolding base64url_decode decode_loop trim_pad sextet
decode_padded = refl

base64url_decode-base64_example :
    (base64url_decode (base64url (0 ∷ 255 ∷ 7 ∷ 128 ∷ [])) ≡ some (0 ∷ 255 ∷ 7 ∷ 128 ∷ []))
    × (base64url_decode (base64 (0 ∷ 255 ∷ 7 ∷ 128 ∷ [])) ≡ some (0 ∷ 255 ∷ 7 ∷ 128 ∷ []))
base64url_decode-base64_example =
    base64url_decode-base64 (0 ∷ 255 ∷ 7 ∷ 128 ∷ [])
      (omega arith, (omega arith, (omega arith, (omega arith, tt))))
