-- ===== src/Ids/Makers.antt =====
-- What the id of a timestamp and random bits carries.
use notespace.Base.{
  ℕ, ◌+◌, ◌-◌, ◌*◌, ◌%◌, ◌^◌, ◌≤◌, ◌<◌, ◌≡◌, inl, inr, refl, ap, ◌∙◌, sym, arith, false, ◌&&◌, leb,
  bit_and, bit_or, and_mask, or_below, le→leb, le→ltb-false, ok, err, Bool-cases, ok_inj, ok_inj,
  ok_not_err,
}
use notespace.Ids.{render, PublicId, wrong_length, payload_bits, min_id_chars, max_id_chars}
use notespace.Ids.Digits.{block_pos, pow_add}
use notespace.Ids.Payload.{Carries}
use native.Mathlib.Nat.{mod-lt, mul-le-mul_right}
use notespace.Ids.{with_width, random, random_bits, max_timestamp_ms, timestamp_bits}

random_bits_lem :
    (chars : ℕ)
    → min_id_chars ≤ chars
    → chars ≤ max_id_chars
    → random_bits chars ≡ ok (payload_bits chars - timestamp_bits)
unfolding random_bits
random_bits_lem chars least most = rw (le→leb 16 chars least, le→leb chars 26 most) refl

random_bits_err :
    (chars : ℕ)
    → (leb 16 chars && leb chars 26) ≡ false
    → random_bits chars ≡ err (wrong_length chars)
unfolding random_bits
random_bits_err chars h = rw h refl

pub random_bits_sound :
    (chars bits : ℕ)
    → random_bits chars ≡ ok bits
    → (16 ≤ chars) × (chars ≤ 26) × (bits ≡ payload_bits chars - 48)
random_bits_sound chars bits h = elim (Bool-cases (leb 16 chars && leb chars 26)) [
  | inl within ↦
      let least : 16 ≤ chars = ground (arith, within) in
      let most : chars ≤ 26 = ground (arith, within) in
      (least, most, ok_inj (sym h ∙ random_bits_lem chars least most))
  | inr without ↦ absurd (ok_not_err (sym h ∙ random_bits_err chars without))
]

-- The payload of a timestamp and of the random bits that fit.
abbrev pub payload_of : ℕ → ℕ → ℕ → ℕ
payload_of ms random bits = ms * 2 ^ bits + random % 2 ^ bits

packed :
    (ms random bits : ℕ)
    → bit_or (ms * 2 ^ bits) (bit_and random (2 ^ bits - 1)) ≡ payload_of ms random bits
packed ms random bits =
    ap (bit_or (ms * 2 ^ bits)) (and_mask bits random)
    ∙ or_below bits ms (random % 2 ^ bits) (mod-lt random (block_pos bits))

pub with_width_lem :
    (ms random chars : ℕ)
    → ms ≤ max_timestamp_ms
    → min_id_chars ≤ chars
    → chars ≤ max_id_chars
    → with_width ms random chars
      ≡ ok (record { written = render (payload_of ms random (payload_bits chars - 48)) chars })
unfolding with_width
with_width_lem ms random chars early least most =
    rw
      (
        le→ltb-false max_timestamp_ms ms early,
        random_bits_lem chars least most,
        packed ms random (payload_bits chars - 48),
      )
      refl

bits_enough : (chars : ℕ) → 16 ≤ chars → payload_bits chars ≡ 48 + (payload_bits chars - 48)
bits_enough chars h = ground arith

payload_fits :
    (ms random chars : ℕ)
    → ms ≤ max_timestamp_ms
    → 16 ≤ chars
    → payload_of ms random (payload_bits chars - 48) < 2 ^ payload_bits chars
payload_fits ms random chars early least =
    let p = 2 ^ (payload_bits chars - 48) in
    let total : 2 ^ payload_bits chars ≡ 2 ^ 48 * p =
      ap (λ b. 2 ^ b) (bits_enough chars least) ∙ pow_add 48 (payload_bits chars - 48) in
    omega
      (arith, total, mul-le-mul_right p early, mod-lt random (block_pos (payload_bits chars - 48)))

pub Carries-with_width :
    (ms random chars : ℕ)
    → ms ≤ max_timestamp_ms
    → 16 ≤ chars
    → chars ≤ 26
    → (id : PublicId) → with_width ms random chars ≡ ok id
    → Carries (payload_of ms random (payload_bits chars - 48)) chars id
Carries-with_width ms random chars early least most id h = record {
  at_least = least;
  at_most = most;
  fits = payload_fits ms random chars early least;
  rendered =
      ap (λ (x : PublicId). x.written)
        (ok_inj (sym h ∙ with_width_lem ms random chars early least most));
}
