-- ===== src/Ids/Made.antt =====
-- Every way of making an id: its fields, and that its text comes back as the same id.
use notespace.Base.{
  ℕ, ◌+◌, ◌-◌, ◌/◌, ◌%◌, ◌^◌, ◌≤◌, ◌<◌, ◌≡◌, inl, inr, refl, ap, subst, ◌∙◌, sym, arith, Text, Bool,
  false, ◌&&◌, ltb, leb, and_mask, ok, Result-cases, Bool-cases, ok_inj, ltb-false→le, ltb-false→le,
  ok_inj, ok_not_err,
}
use notespace.Ids.{
  two_128, PublicId, width, parse_id, payload_bits, min_id_chars, max_id_chars, encode_grouped,
}
use notespace.Ids.Digits.{block_pos}
use notespace.Ids.Payload.{Carries}
use native.Mathlib.Nat.{
  mul-add-mod_self_right, mod-eq_of_lt, mod-lt, mul-add-div_right, div-eq_of_lt,
}
use notespace.Ids.Parsing.{parse_id_iff}
use notespace.Ids.{
  with_width, from_u128, from_u128_payload, to_u128, timestamp_ms, random, random_bits,
  max_timestamp_ms, timestamp_bits, timestamp_out_of_range, value_too_wide,
}
use notespace.Ids.Payload.{to_u128-Carries, width-Carries}
use notespace.Ids.Making.{Issued, Issued-ParsesTo, ParsesTo-Issued}
use notespace.Ids.Makers.{payload_of, with_width_lem, Carries-with_width, random_bits_sound}

-- Within the range of the clock and the allowed widths, an id is made whose timestamp, random
-- bits and width are those given, the random bits as far as they fit.
pub with_width-fields :
    (ms bits chars : ℕ)
    → ms ≤ max_timestamp_ms
    → min_id_chars ≤ chars
    → chars ≤ max_id_chars
    → (id : PublicId) × (with_width ms bits chars ≡ ok id)
      × (timestamp_ms id ≡ ms)
      × (random id ≡ bits % 2 ^ (payload_bits chars - timestamp_bits))
      × (width id ≡ chars)
unfolding timestamp_ms random
with_width-fields ms bits chars early least most =
    let k = payload_bits chars - 48 in
    let made = with_width_lem ms bits chars early least most in
    let c = Carries-with_width ms bits chars early least most _ made in
    let p = payload_of ms bits k in
    let small : bits % 2 ^ k < 2 ^ k = mod-lt bits (block_pos k) in
    let top : p / 2 ^ k ≡ ms =
      mul-add-div_right (block_pos k) ms (bits % 2 ^ k)
      ∙ ap (λ x. ms + x) (div-eq_of_lt small)
      ∙ omega arith in
    let low : p % 2 ^ k ≡ bits % 2 ^ k =
      mul-add-mod_self_right ms (2 ^ k) (bits % 2 ^ k) ∙ mod-eq_of_lt small in
    (
      _,
      made,
      rw (width-Carries p chars c, to_u128-Carries p chars c) top,
      rw (width-Carries p chars c, to_u128-Carries p chars c) (and_mask k p ∙ low),
      width-Carries p chars c,
    )

-- A `u128` is a number modulo 2 ^ 128.
pub data Made (id : PublicId) : Type 0 where
  by_width : (ms bits chars : ℕ) → with_width ms bits chars ≡ ok id → Made id
  by_number : (payload chars : ℕ) → from_u128 (payload % two_128) chars ≡ ok id → Made id
  by_import : (payload : ℕ) → from_u128_payload (payload % two_128) ≡ id → Made id
  by_text : (s : Text) → parse_id s ≡ ok id → Made id

by_width-Issued : (ms bits chars : ℕ) (id : PublicId) → with_width ms bits chars ≡ ok id → Issued id
unfolding with_width
by_width-Issued ms bits chars id h = elim (Bool-cases (ltb max_timestamp_ms ms)) [
  | inl late ↦ absurd (ok_not_err {e = timestamp_out_of_range ms} (sym h ∙ rw late refl))
  | inr early ↦ elim (Result-cases (random_bits chars)) [
    | inr (e, failed) ↦ absurd (ok_not_err {e = e} (sym h ∙ rw (early, failed) refl))
    | inl (k, known) ↦
        let (least, most, _) = random_bits_sound chars k known in
        let early' = ltb-false→le max_timestamp_ms ms early in
        (
          payload_of ms bits (payload_bits chars - 48),
          chars,
          Carries-with_width ms bits chars early' least most id h,
        )
  ]
]

-- The test of the payload, which 128 bits pass without one.
wide : ℕ → ℕ → Bool
wide payload chars = ltb (payload_bits chars) 128 && leb (2 ^ payload_bits chars) payload

narrow :
    (payload chars : ℕ)
    → payload < two_128
    → wide payload chars ≡ false
    → payload < 2 ^ payload_bits chars
unfolding wide
narrow payload chars top h = elim (Bool-cases (ltb (payload_bits chars) 128)) [
  | inl some_bits ↦ ground (arith, h, some_bits)
  | inr all_bits ↦ let full : payload_bits chars ≡ 128 = ground (arith, all_bits) in rw full top
]

by_number-Carries :
    (payload chars : ℕ) (id : PublicId)
    → payload < two_128
    → from_u128 payload chars ≡ ok id
    → Carries payload chars id
unfolding from_u128 wide
by_number-Carries payload chars id top h = elim (Result-cases (random_bits chars)) [
  | inr (e, failed) ↦ absurd (ok_not_err {e = e} (sym h ∙ rw failed refl))
  | inl (bits, known) ↦
      let (least, most, _) = random_bits_sound chars bits known in
      elim (Bool-cases (wide payload chars)) [
        | inl over ↦
            absurd (ok_not_err {e = value_too_wide payload} (sym h ∙ rw (known, over) refl))
        | inr fits ↦ record {
          at_least = least;
          at_most = most;
          fits = narrow payload chars top fits;
          rendered = ap (λ (x : PublicId). x.written) (ok_inj (sym h ∙ rw (known, fits) refl));
        }
      ]
]

by_number-Issued :
    (payload chars : ℕ) (id : PublicId)
    → payload < two_128
    → from_u128 payload chars ≡ ok id
    → Issued id
by_number-Issued payload chars id top h = (payload, chars, by_number-Carries payload chars id top h)

-- A number that from_u128 takes comes back, at the width asked for.
pub to_u128-from_u128 :
    (payload chars : ℕ) (id : PublicId)
    → payload < two_128
    → from_u128 payload chars ≡ ok id
    → (to_u128 id ≡ payload) × (width id ≡ chars)
to_u128-from_u128 payload chars id top h =
    let c = by_number-Carries payload chars id top h in
    (to_u128-Carries payload chars c, width-Carries payload chars c)

by_import-Issued : (payload : ℕ) → payload < two_128 → Issued (from_u128_payload payload)
unfolding from_u128_payload
by_import-Issued payload top = (
  payload,
  26,
  record { at_least = omega arith; at_most = omega arith; fits = top; rendered = refl },
)

pub Made-Issued : (id : PublicId) → Made id → Issued id
Made-Issued id (by_width ms bits chars h) = by_width-Issued ms bits chars id h
Made-Issued id (by_number payload chars h) =
    by_number-Issued (payload % two_128) chars id (omega arith) h
Made-Issued id (by_import payload h) =
    subst Issued h (by_import-Issued (payload % two_128) (omega arith))
Made-Issued id (by_text s h) = Issued-ParsesTo s id ((parse_id_iff s id).0 h)

-- The text of an id, plain and in groups of four, parses as that id, however the id was made.
pub parse_id-Made :
    (id : PublicId)
    → Made id
    → (parse_id id.written ≡ ok id) × (parse_id (encode_grouped id) ≡ ok id)
parse_id-Made id made =
    let (plain, grouped) = ParsesTo-Issued id (Made-Issued id made) in
    ((parse_id_iff id.written id).1 plain, (parse_id_iff (encode_grouped id) id).1 grouped)
