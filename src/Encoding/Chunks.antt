-- ===== src/Encoding/Chunks.antt =====
-- What a chunk is written as, and what the decoder reads of one sextet.
use notespace.Base.{
  ℕ, ◌+◌, ◌-◌, ◌*◌, ◌/◌, ◌%◌, ◌^◌, ◌≤◌, ◌<◌, Bool, true, false, ◌&&◌, not, none, some, [], ◌∷◌,
  ◌++◌, Text, get_or, ◌==◌, ◌≡◌, refl, ap, ◌∙◌, arith, bit_or, or_below, or_zero, and_mask,
  holds_on, holds_on_lem, le→leb, lt→leb-false, replicate,
}
use notespace.Encoding.{standard, url_safe, pack, push_digit, encode_chunk, sextet, decode_loop}
use mathlib.Core.Option as Opt

abbrev pub IsByte : ℕ → Type 0
IsByte b = b < 256

-- Both alphabets are read back, and neither holds the padding or a dot.
pub reads : Text → ℕ → Bool
reads table v =
    let c = get_or table v 0 in
    elim (sextet c) [ none ↦ false | some w ↦ w == v && not (c == b'=') && not (c == b'.') ]

unfoldable pub Table : Text → Type 0
Table table = holds_on (reads table) 64 ≡ true

pub standard-Table : Table standard
unfolding Table reads sextet holds_on
standard-Table = refl

pub url_safe-Table : Table url_safe
unfolding Table reads sextet holds_on
url_safe-Table = refl

module _ (table : Text) (readable : Table table) where
  pub char : ℕ → ℕ
  char v = get_or table v 0

  pub sextet-char :
      (v : ℕ)
      → v < 64
      → (sextet (char v) ≡ some v) × ((char v == b'=') ≡ false) × ((char v == b'.') ≡ false)
  unfolding Table reads char
  sextet-char v below = ground (arith, holds_on_lem (reads table) 64 v readable below)

  -- The three states of the decoder between bytes.
  pub decode-first : (v : ℕ) (s : Text) → v < 64 → decode_loop (char v ∷ s) 0 0 ≡ decode_loop s v 6
  unfolding decode_loop
  decode-first v s below = rw (decode_loop, (sextet-char v below).0, or_zero v) refl

  wide : (acc v : ℕ) → acc < 64 → v < 64 → bit_or (acc * 2 ^ 6 % 2 ^ 32) v ≡ acc * 64 + v
  wide acc v h below =
      let fits : acc * 2 ^ 6 % 2 ^ 32 ≡ acc * 2 ^ 6 = omega arith in
      ap (λ x. bit_or x v) fits ∙ or_below 6 acc v below

  pub decode-six :
      (acc v : ℕ) (s : Text)
      → acc < 64
      → v < 64
      → decode_loop (char v ∷ s) acc 6
        ≡ Opt.map (◌∷◌ ((acc * 64 + v) / 16)) (decode_loop s ((acc * 64 + v) % 16) 4)
  unfolding decode_loop
  decode-six acc v s h below =
      let byte : (acc * 64 + v) / 16 % 256 ≡ (acc * 64 + v) / 16 = omega arith in
      rw (decode_loop, (sextet-char v below).0, wide acc v h below, and_mask 4 (acc * 64 + v), byte)
        refl

  pub decode-four :
      (acc v : ℕ) (s : Text)
      → acc < 16
      → v < 64
      → decode_loop (char v ∷ s) acc 4
        ≡ Opt.map (◌∷◌ ((acc * 64 + v) / 4)) (decode_loop s ((acc * 64 + v) % 4) 2)
  unfolding decode_loop
  decode-four acc v s h below =
      let byte : (acc * 64 + v) / 4 % 256 ≡ (acc * 64 + v) / 4 = omega arith in
      rw
        (
          decode_loop,
          (sextet-char v below).0,
          wide acc v (omega arith) below,
          and_mask 2 (acc * 64 + v),
          byte,
        )
        refl

  pub decode-two :
      (acc v : ℕ) (s : Text)
      → acc < 4
      → v < 64
      → decode_loop (char v ∷ s) acc 2 ≡ Opt.map (◌∷◌ (acc * 64 + v)) (decode_loop s 0 0)
  unfolding decode_loop
  decode-two acc v s h below =
      let byte : (acc * 64 + v) / 1 % 256 ≡ acc * 64 + v = omega arith in
      let spent : (acc * 64 + v) % 1 ≡ 0 = omega arith in
      rw
        (
          decode_loop,
          (sextet-char v below).0,
          wide acc v (omega arith) below,
          and_mask 0 (acc * 64 + v),
          byte,
          spent,
        )
        refl

  digit : ℕ → ℕ → ℕ
  digit n i = char (n / 2 ^ (18 - 6 * i) % 64)

  push : (pad : Bool) (chars n i : ℕ) → i ≤ chars → push_digit table pad chars n i ≡ digit n i ∷ []
  unfolding push_digit digit char
  push pad chars n i h = rw (le→leb i chars h, and_mask 6 (n / 2 ^ (18 - 6 * i))) refl

unfoldable pub padding : Bool → ℕ → Text
padding true k = replicate k b'='
padding false k = []

pack-one : (a : ℕ) → pack 0 0 (a ∷ []) ≡ a * 65536
unfolding pack
pack-one a = rw (or_zero (a * 65536)) refl

pack-two : (a b : ℕ) → IsByte b → pack 0 0 (a ∷ b ∷ []) ≡ a * 65536 + b * 256
unfolding pack
pack-two a b h = rw (pack, or_zero (a * 65536)) (or_below 16 a (b * 256) (omega arith))

pack-three : (a b c : ℕ) → IsByte b → IsByte c → pack 0 0 (a ∷ b ∷ c ∷ []) ≡ a * 65536 + b * 256 + c
unfolding pack
pack-three a b c h k =
    let high : bit_or (a * 65536) (b * 256) ≡ (a * 256 + b) * 2 ^ 8 =
      or_below 16 a (b * 256) (omega arith) ∙ omega arith in
    let low : c * 1 ≡ c = omega arith in
    rw (pack, or_zero (a * 65536), high, low) (or_below 8 (a * 256 + b) c k ∙ omega arith)

module _ (table : Text) (readable : Table table) where
  -- What a chunk is written as.
  pub encode_chunk-three :
      (pad : Bool) (a b c : ℕ)
      → IsByte a
      → IsByte b
      → IsByte c
      → encode_chunk table pad (a ∷ b ∷ c ∷ [])
        ≡ char table readable (a / 4)
          ∷ char table readable (a % 4 * 16 + b / 16)
          ∷ char table readable (b % 16 * 4 + c / 64)
          ∷ char table readable (c % 64)
          ∷ []
  unfolding encode_chunk digit
  encode_chunk-three pad a b c ha hb hc =
      let n = a * 65536 + b * 256 + c in
      let v0 : n / 262144 % 64 ≡ a / 4 = omega arith in
      let v1 : n / 4096 % 64 ≡ a % 4 * 16 + b / 16 = omega arith in
      let v2 : n / 64 % 64 ≡ b % 16 * 4 + c / 64 = omega arith in
      let v3 : n / 1 % 64 ≡ c % 64 = omega arith in
      rw
        (
          pack-three a b c hb hc,
          push table readable pad 3 n 0 (omega arith),
          push table readable pad 3 n 1 (omega arith),
          push table readable pad 3 n 2 (omega arith),
          push table readable pad 3 n 3 (omega arith),
          v0,
          v1,
          v2,
          v3,
        )
        refl

  push-padding :
      (pad : Bool) (chars n i : ℕ) → chars < i → push_digit table pad chars n i ≡ padding pad 1
  unfolding push_digit padding
  push-padding true chars n i h = ground arith
  push-padding false chars n i h = rw (lt→leb-false i chars h) refl

  padding-append : (pad : Bool) → padding pad 1 ++ padding pad 1 ≡ padding pad 2
  unfolding padding
  padding-append true = refl
  padding-append false = refl

  pub encode_chunk-two :
      (pad : Bool) (a b : ℕ)
      → IsByte a
      → IsByte b
      → encode_chunk table pad (a ∷ b ∷ [])
        ≡ char table readable (a / 4)
          ∷ char table readable (a % 4 * 16 + b / 16)
          ∷ char table readable (b % 16 * 4)
          ∷ padding pad 1
  unfolding encode_chunk digit
  encode_chunk-two pad a b ha hb =
      let n = a * 65536 + b * 256 in
      let v0 : n / 262144 % 64 ≡ a / 4 = omega arith in
      let v1 : n / 4096 % 64 ≡ a % 4 * 16 + b / 16 = omega arith in
      let v2 : n / 64 % 64 ≡ b % 16 * 4 = omega arith in
      rw
        (
          pack-two a b hb,
          push table readable pad 2 n 0 (omega arith),
          push table readable pad 2 n 1 (omega arith),
          push table readable pad 2 n 2 (omega arith),
          push-padding pad 2 n 3 (omega arith),
          v0,
          v1,
          v2,
        )
        refl

  pub encode_chunk-one :
      (pad : Bool) (a : ℕ)
      → IsByte a
      → encode_chunk table pad (a ∷ [])
        ≡ char table readable (a / 4) ∷ char table readable (a % 4 * 16) ∷ padding pad 2
  unfolding encode_chunk digit
  encode_chunk-one pad a ha =
      let n = a * 65536 in
      let v0 : n / 262144 % 64 ≡ a / 4 = omega arith in
      let v1 : n / 4096 % 64 ≡ a % 4 * 16 = omega arith in
      rw
        (
          pack-one a,
          push table readable pad 1 n 0 (omega arith),
          push table readable pad 1 n 1 (omega arith),
          push-padding pad 1 n 2 (omega arith),
          push-padding pad 1 n 3 (omega arith),
          v0,
          v1,
          padding-append pad,
        )
        refl
