-- ===== src/Encoding/RoundTrip.antt =====
-- Decoding what was encoded: each chunk's sextets give its bytes back.
use notespace.Base.{
  ◌==◌, ℕ, ◌+◌, ◌*◌, ◌/◌, ◌%◌, ◌<◌, Bool, true, false, some, List, [], ◌∷◌, ◌++◌, Text, All, ◌≡◌,
  refl, ap, ◌∙◌, arith,
}
use notespace.Encoding.Chunks.{
  IsByte, Table, standard-Table, url_safe-Table, char, sextet-char, decode-first, decode-six,
  decode-four, decode-two, encode_chunk-three, encode_chunk-two, encode_chunk-one, padding,
}
use notespace.Encoding.{
  standard, url_safe, encode_chunk, encode_with, base64, base64url, trim_pad, decode_loop,
  base64url_decode,
}
use mathlib.Core.Option as Opt

module _ (table : Text) (readable : Table table) where
  decode-encode_three :
      (pad : Bool) (a b c : ℕ) (s : Text)
      → IsByte a
      → IsByte b
      → IsByte c
      → decode_loop (encode_chunk table pad (a ∷ b ∷ c ∷ []) ++ s) 0 0
        ≡ Opt.map (◌∷◌ a) (Opt.map (◌∷◌ b) (Opt.map (◌∷◌ c) (decode_loop s 0 0)))
  decode-encode_three pad a b c s ha hb hc =
      let v1 = a % 4 * 16 + b / 16 in
      let v2 = b % 16 * 4 + c / 64 in
      let a_back : (a / 4 * 64 + v1) / 16 ≡ a = omega arith in
      let a_left : (a / 4 * 64 + v1) % 16 ≡ b / 16 = omega arith in
      let b_back : (b / 16 * 64 + v2) / 4 ≡ b = omega arith in
      let b_left : (b / 16 * 64 + v2) % 4 ≡ c / 64 = omega arith in
      let c_back : c / 64 * 64 + c % 64 ≡ c = omega arith in
      rw
        (
          encode_chunk-three table readable pad a b c ha hb hc,
          decode-first table readable (a / 4) _ (omega arith),
          decode-six table readable (a / 4) v1 _ (omega arith) (omega arith),
          a_back,
          a_left,
          decode-four table readable (b / 16) v2 _ (omega arith) (omega arith),
          b_back,
          b_left,
          decode-two table readable (c / 64) (c % 64) _ (omega arith) (omega arith),
          c_back,
        )
        refl

  trim-char :
      (v : ℕ) (s : Text)
      → v < 64
      → trim_pad (char table readable v ∷ s) ≡ char table readable v ∷ trim_pad s
  unfolding trim_pad
  trim-char v s h = ground (arith, sextet-char table readable v h)

  trim-padding : (pad : Bool) → (trim_pad (padding pad 1) ≡ []) × (trim_pad (padding pad 2) ≡ [])
  unfolding trim_pad padding
  trim-padding true = (refl, refl)
  trim-padding false = (refl, refl)

  trim-empty : trim_pad [] ≡ []
  unfolding trim_pad
  trim-empty = refl

  decode-empty : (acc bits : ℕ) → decode_loop [] acc bits ≡ some []
  unfolding decode_loop
  decode-empty acc bits = refl

  -- Trimming the padding leaves what the unpadded form writes.
  trim-encode :
      (bytes : List ℕ) (pad : Bool)
      → All IsByte bytes
      → trim_pad (encode_with table bytes pad) ≡ encode_with table bytes false
  unfolding encode_with padding
  trim-encode [] pad h = trim-empty
  trim-encode (a ∷ []) pad (ha, h) =
      rw
        (
          encode_chunk-one table readable pad a ha,
          encode_chunk-one table readable false a ha,
          trim-char (a / 4) _ (omega arith),
          trim-char (a % 4 * 16) _ (omega arith),
          (trim-padding pad).1,
        )
        refl
  trim-encode (a ∷ b ∷ []) pad (ha, (hb, h)) =
      rw
        (
          encode_chunk-two table readable pad a b ha hb,
          encode_chunk-two table readable false a b ha hb,
          trim-char (a / 4) _ (omega arith),
          trim-char (a % 4 * 16 + b / 16) _ (omega arith),
          trim-char (b % 16 * 4) _ (omega arith),
          (trim-padding pad).0,
        )
        refl
  trim-encode (a ∷ b ∷ c ∷ bytes) pad (ha, (hb, (hc, h))) =
      rw
        (
          encode_chunk-three table readable pad a b c ha hb hc,
          encode_chunk-three table readable false a b c ha hb hc,
          trim-char (a / 4) _ (omega arith),
          trim-char (a % 4 * 16 + b / 16) _ (omega arith),
          trim-char (b % 16 * 4 + c / 64) _ (omega arith),
          trim-char (c % 64) _ (omega arith),
          trim-encode bytes pad h,
        )
        refl

  decode-encode :
      (bytes : List ℕ)
      → All IsByte bytes
      → decode_loop (encode_with table bytes false) 0 0 ≡ some bytes
  unfolding encode_with padding
  decode-encode [] h = decode-empty 0 0
  decode-encode (a ∷ []) (ha, h) =
      let a_back : (a / 4 * 64 + a % 4 * 16) / 16 ≡ a = omega arith in
      rw
        (
          encode_chunk-one table readable false a ha,
          decode-first table readable (a / 4) _ (omega arith),
          decode-six table readable (a / 4) (a % 4 * 16) _ (omega arith) (omega arith),
          a_back,
          decode-empty ((a / 4 * 64 + a % 4 * 16) % 16) 4,
        )
        refl
  decode-encode (a ∷ b ∷ []) (ha, (hb, h)) =
      let v1 = a % 4 * 16 + b / 16 in
      let a_back : (a / 4 * 64 + v1) / 16 ≡ a = omega arith in
      let a_left : (a / 4 * 64 + v1) % 16 ≡ b / 16 = omega arith in
      let b_back : (b / 16 * 64 + b % 16 * 4) / 4 ≡ b = omega arith in
      rw
        (
          encode_chunk-two table readable false a b ha hb,
          decode-first table readable (a / 4) _ (omega arith),
          decode-six table readable (a / 4) v1 _ (omega arith) (omega arith),
          a_back,
          a_left,
          decode-four table readable (b / 16) (b % 16 * 4) _ (omega arith) (omega arith),
          b_back,
          decode-empty ((b / 16 * 64 + b % 16 * 4) % 4) 2,
        )
        refl
  decode-encode (a ∷ b ∷ c ∷ bytes) (ha, (hb, (hc, h))) =
      decode-encode_three false a b c (encode_with table bytes false) ha hb hc
      ∙ ap (λ r. Opt.map (◌∷◌ a) (Opt.map (◌∷◌ b) (Opt.map (◌∷◌ c) r))) (decode-encode bytes h)

  read :
      (bytes : List ℕ) (pad : Bool)
      → All IsByte bytes
      → decode_loop (trim_pad (encode_with table bytes pad)) 0 0 ≡ some bytes
  read bytes pad h = rw (trim-encode bytes pad h) (decode-encode bytes h)

-- No dot is written.
module _ (table : Text) (readable : Table table) where
  Dotless : Text → Type 0
  Dotless = All (λ c. (c == b'.') ≡ false)

  char_dotless : (v : ℕ) → v < 64 → (char table readable v == b'.') ≡ false
  char_dotless v h = (sextet-char table readable v h).2

  encode_with-Dotless :
      (bytes : List ℕ) → All IsByte bytes → Dotless (encode_with table bytes false)
  unfolding encode_with padding Dotless
  encode_with-Dotless [] h = tt
  encode_with-Dotless (a ∷ []) (ha, h) =
      rw (encode_chunk-one table readable false a ha)
        (char_dotless (a / 4) (omega arith), (char_dotless (a % 4 * 16) (omega arith), tt))
  encode_with-Dotless (a ∷ b ∷ []) (ha, (hb, h)) =
      rw (encode_chunk-two table readable false a b ha hb) (
        char_dotless (a / 4) (omega arith),
        (
          char_dotless (a % 4 * 16 + b / 16) (omega arith),
          (char_dotless (b % 16 * 4) (omega arith), tt),
        ),
      )
  encode_with-Dotless (a ∷ b ∷ c ∷ bytes) (ha, (hb, (hc, h))) =
      rw (encode_chunk-three table readable false a b c ha hb hc) (
        char_dotless (a / 4) (omega arith),
        (
          char_dotless (a % 4 * 16 + b / 16) (omega arith),
          (
            char_dotless (b % 16 * 4 + c / 64) (omega arith),
            (char_dotless (c % 64) (omega arith), encode_with-Dotless bytes h),
          ),
        ),
      )

pub base64url_dotless :
    (bytes : List ℕ) → All IsByte bytes → All (λ c. (c == b'.') ≡ false) (base64url bytes)
unfolding base64url Dotless
base64url_dotless bytes h = encode_with-Dotless url_safe url_safe-Table bytes h

-- Decoding gives back every list of bytes, from the unpadded URL form and from the padded
-- standard form.
pub base64url_decode-base64 :
    (bytes : List ℕ)
    → All IsByte bytes
    → (base64url_decode (base64url bytes) ≡ some bytes)
      × (base64url_decode (base64 bytes) ≡ some bytes)
unfolding base64url_decode base64url base64
base64url_decode-base64 bytes h =
    (read url_safe url_safe-Table bytes false h, read standard standard-Table bytes true h)
