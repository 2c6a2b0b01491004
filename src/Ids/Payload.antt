-- ===== src/Ids/Payload.antt =====
-- The payload that an id carries: how it is rendered, and how it is read back.
use notespace.Base.{
  ℕ, zero, suc, ◌+◌, ◌-◌, ◌*◌, ◌/◌, ◌%◌, ◌^◌, ◌≤◌, ◌<◌, ◌≡◌, ◌⊎◌, inl, inr, refl, ap, subst, ◌∙◌,
  arith, List, [], ◌∷◌, Text, map, length, bit_and, bit_or, and_mask, or_below, le→leb, All,
}
use notespace.Ids.{
  id_char, id_value, render_from, render, shifted, reserved_bits, two_128, PublicId, width, to_u128,
  head_value, last_value, read_digit, payload_bits, min_id_chars, max_id_chars,
}
use notespace.Ids.Digits.{
  digits, value, value-digits, block_suc, pow_add, id_value-id_char, length-digits,
}
use native.Mathlib.Nat.{mul-div-mul_left, pow-le-pow_right, mod-eq_of_lt}

abbrev pub IsDigit : ℕ → Type 0
IsDigit d = d < 32

-- A digit of a rendering is one of the payload above its spare bits, zero or two of them.
abbrev pub Spare : ℕ → Type 0
Spare reserved = (reserved ≡ 0) ⊎ (reserved ≡ 2)

shifted-two_suc : (payload k : ℕ) → shifted 2 payload (5 * suc k) ≡ payload * 4 / 2 ^ (5 * suc k)
unfolding shifted
shifted-two_suc payload k =
    let place = 5 * suc k - 2 in
    let block : 2 ^ (5 * suc k) ≡ 4 * 2 ^ place = ap (λ x. 2 ^ x) (omega arith) ∙ pow_add 2 place in
    let four : payload * 4 ≡ 4 * payload = omega arith in
    rw
      (
        le→leb 2 (5 * suc k) (omega arith),
        ap (λ x. payload * 4 / x) block,
        four,
        mul-div-mul_left {m = 4} payload (2 ^ place) (omega arith),
      )
      refl

shifted-two_zero : (payload : ℕ) → shifted 2 payload 0 % 32 ≡ payload * 4 / 1 % 32
unfolding shifted
shifted-two_zero payload = omega arith

shifted-zero : (payload k : ℕ) → shifted 0 payload (5 * k) ≡ payload * 1 / 2 ^ (5 * k)
unfolding shifted
shifted-zero payload k =
    let place : 5 * k - 0 ≡ 5 * k = omega arith in
    let one : payload * 1 ≡ payload = omega arith in
    rw (le→leb 0 (5 * k) (omega arith), place, one) refl

digit-shifted :
    (reserved payload k : ℕ)
    → Spare reserved
    → bit_and (shifted reserved payload (5 * k)) 31 ≡ payload * 2 ^ reserved / 2 ^ (5 * k) % 32
digit-shifted reserved payload k (inl e) =
    rw e (and_mask 5 _ ∙ ap (λ x. x % 32) (shifted-zero payload k))
digit-shifted reserved payload zero (inr e) = rw e (and_mask 5 _ ∙ shifted-two_zero payload)
digit-shifted reserved payload (suc k) (inr e) =
    rw e (and_mask 5 _ ∙ ap (λ x. x % 32) (shifted-two_suc payload k))

pub render_from-digits :
    (reserved payload k : ℕ)
    → Spare reserved
    → render_from reserved payload k ≡ map id_char (digits k (payload * 2 ^ reserved))
unfolding render_from digits
render_from-digits reserved payload zero h = refl
render_from-digits reserved payload (suc k) h =
    rw (digit-shifted reserved payload k h, render_from-digits reserved payload k h) refl

pub digits-All : (k n : ℕ) → All IsDigit (digits k n)
unfolding digits
digits-All zero n = tt
digits-All (suc k) n = (omega arith, digits-All k n)

read_digit_lem :
    (acc d : ℕ) → acc < 2 ^ 120 → d < 32 → read_digit acc (id_value (id_char d)) ≡ acc * 32 + d
unfolding read_digit
read_digit_lem acc d h k =
    let fits : acc * 32 % two_128 ≡ acc * 32 = omega arith in
    rw (id_value-id_char d k, fits) (or_below 5 acc d k)

-- The head and the last digit are the number, while the head fits its integer.
head-last :
    (d : ℕ) (ds : List ℕ) (acc j : ℕ)
    → d < 32
    → All IsDigit ds
    → acc < 2 ^ (5 * j)
    → j + length ds ≤ 25
    → (head_value acc (map id_char (d ∷ ds)) * 32 + last_value (map id_char (d ∷ ds))
        ≡ value acc (d ∷ ds))
      × (last_value (map id_char (d ∷ ds)) < 32)
unfolding head_value last_value value
head-last d [] acc j h hs small fits = rw (id_value-id_char d h) (refl, h)
head-last d (e ∷ ds) acc j h (he, hs) small fits =
    let place : 5 * j ≤ 120 = omega arith in
    let bound : 2 ^ (5 * j) ≤ 2 ^ 120 = pow-le-pow_right {n = 2} (omega arith) place in
    let low : acc < 2 ^ 120 = omega arith in
    let next : acc * 32 + d < 2 ^ (5 * suc j) = omega (arith, block_suc j) in
    rw (read_digit_lem acc d low h) (head-last e ds (acc * 32 + d) (suc j) he hs next (omega arith))

-- An id that carries a payload at a width.
pub record Carries (payload chars : ℕ) (id : PublicId) : Type 0 where
  pub at_least : min_id_chars ≤ chars
  pub at_most : chars ≤ max_id_chars
  pub fits : payload < 2 ^ payload_bits chars
  pub rendered : id.written ≡ render payload chars

-- The two layouts: no spare bit, and two at 26 characters.
pub layouts :
    (chars : ℕ)
    → chars ≤ 26
    → ((chars ≤ 25) × (reserved_bits chars ≡ 0) × (payload_bits chars ≡ 5 * chars)) ⊎ (chars ≡ 26)
layouts chars h = ground arith

pub render-digits :
    (payload chars : ℕ)
    → chars ≤ 26
    → render payload chars ≡ map id_char (digits chars (payload * 2 ^ reserved_bits chars))
unfolding render
render-digits payload chars h = elim (layouts chars h) [
  | inl (small, plain, bits) ↦ render_from-digits (reserved_bits chars) payload chars (inl plain)
  | inr e ↦ render_from-digits (reserved_bits chars) payload chars (inr (omega arith))
]

pub length-map_char : (ds : List ℕ) → length (map id_char ds) ≡ length ds
length-map_char [] = refl
length-map_char (d ∷ ds) = ap suc (length-map_char ds)

pub whole : (k n : ℕ) → n < 2 ^ (5 * k) → value 0 (digits k n) ≡ n
whole k n h = value-digits k n 0 ∙ omega (arith, mod-eq_of_lt h)

-- The digits of a payload, put together again.
Parts : Text → ℕ → Type 0
Parts t n = (head_value 0 t * 32 + last_value t ≡ n) × (last_value t < 32)

parts : (k n : ℕ) → k ≤ 25 → n < 2 ^ (5 * suc k) → Parts (map id_char (digits (suc k) n)) n
unfolding digits Parts
parts k n h small =
    let (total, low) =
      head-last (n / 2 ^ (5 * k) % 32) (digits k n) 0 0 (omega arith) (digits-All k n) (omega arith)
        (omega (arith, length-digits k n)) in
    (total ∙ whole (suc k) n small, low)

-- The accessor puts the head and the last digit together without a carry.
join :
    (reserved payload head last : ℕ)
    → Spare reserved
    → last < 32
    → head * 32 + last ≡ payload * 2 ^ reserved
    → payload < two_128
    → bit_or (head * 2 ^ (5 - reserved) % two_128) (last / 2 ^ reserved) ≡ payload
join reserved payload head last (inl e) low total top =
    let total' : head * 32 + last ≡ payload = total ∙ rw e (omega arith) in
    let fits : head * 32 % two_128 ≡ head * 32 = omega (arith, total') in
    let last' : last / 1 ≡ last = omega arith in
    rw (e, fits, last') (or_below 5 head last low ∙ total')
join reserved payload head last (inr e) low total top =
    let total' : head * 32 + last ≡ payload * 4 = total ∙ rw e refl in
    let fits : head * 8 % two_128 ≡ head * 8 = omega (arith, total') in
    rw (e, fits) (or_below 3 head (last / 4) (omega arith) ∙ omega (arith, total'))

spare : (chars : ℕ) → chars ≤ 26 → Spare (reserved_bits chars)
spare chars h = elim (layouts chars h) [
  | inl (small, plain, bits) ↦ inl plain
  | inr e ↦ inr (omega arith)
]

fits_u128 : (payload chars : ℕ) {id : PublicId} → Carries payload chars id → payload < two_128
fits_u128 payload chars c =
    let most : payload_bits chars ≤ 128 = ground arith in
    let bound : 2 ^ payload_bits chars ≤ 2 ^ 128 = pow-le-pow_right {n = 2} (omega arith) most in
    omega (arith, bound, c.fits)

module _ {id : PublicId} where
  pub width-Carries : (payload chars : ℕ) → Carries payload chars id → width id ≡ chars
  width-Carries payload chars c =
      ap length (c.rendered ∙ render-digits payload chars c.at_most)
      ∙ length-map_char (digits chars (payload * 2 ^ reserved_bits chars))
      ∙ length-digits chars (payload * 2 ^ reserved_bits chars)

  -- The payload above its spare bits fits the digits.
  pub above :
      (payload chars : ℕ)
      → Carries payload chars id
      → payload * 2 ^ reserved_bits chars < 2 ^ (5 * chars)
  above payload chars c = elim (layouts chars c.at_most) [
    | inl (small, plain, bits) ↦
        rw plain (subst (λ b. payload * 1 < 2 ^ b) bits (omega (arith, c.fits)))
    | inr e ↦
        let top : payload < 2 ^ 128 = subst (λ n. payload < 2 ^ payload_bits n) e c.fits in
        rw e (omega (arith, top))
  ]

  Carries-Parts :
      (payload chars : ℕ)
      → Carries payload chars id
      → Parts id.written (payload * 2 ^ reserved_bits chars)
  Carries-Parts payload zero c = absurd (omega (arith, c.at_least))
  Carries-Parts payload (suc k) c =
      rw (c.rendered, render-digits payload (suc k) c.at_most)
        (parts k (payload * 2 ^ reserved_bits (suc k)) (omega (arith, c.at_most))
          (above payload (suc k) c))

  pub to_u128-Carries : (payload chars : ℕ) → Carries payload chars id → to_u128 id ≡ payload
  unfolding to_u128 Parts
  to_u128-Carries payload chars c =
      let (total, low) = Carries-Parts payload chars c in
      rw (width-Carries payload chars c) (
        join (reserved_bits chars) payload _ _ (spare chars c.at_most) low total
          (fits_u128 payload chars c))
