-- ===== src/Ids/Making.antt =====
-- What every way of making an id gives: a payload at a width, which its text spells.
use notespace.Base.{
  ℕ, ◌+◌, ◌*◌, ◌/◌, ◌%◌, ◌^◌, ◌≤◌, ◌<◌, ◌≡◌, inl, inr, refl, ap, subst, ◌∙◌, sym, arith, List, [],
  ◌∷◌, Text, map, length, ◌&&◌, ltb, ◌==◌, All, Bool-cases,
}
use notespace.Ids.{
  id_char, render, reserved_bits, PublicId, payload_bits, encode_grouped, group_from,
}
use notespace.Ids.Digits.{
  digits, value, block_suc, block_pos, id_value-id_char, id_char_ascii, length-digits,
}
use notespace.Ids.Payload.{Carries, IsDigit, digits-All, render-digits, layouts}
use notespace.Ids.Reading.{Spells}
use native.Mathlib.Nat.{
  mul-le-mul_right, div-add-mod', mul-mod_left, mul-add-div_right, div-eq_of_lt,
}
use notespace.Ids.Digits.{distribute}
use notespace.Ids.Parsing.{ParsesTo}
use notespace.Ids.Payload.{whole, above}

digit_le : (d : ℕ) → IsDigit d → d ≤ 31
digit_le d h = omega arith

value_split :
    (ds : List ℕ) (acc : ℕ)
    → All IsDigit ds
    → (value acc ds ≡ acc * 2 ^ (5 * length ds) + value 0 ds) × (value 0 ds < 2 ^ (5 * length ds))
unfolding value
value_split [] acc h = (omega arith, omega arith)
value_split (d ∷ ds) acc (h, hs) =
    let p = 2 ^ (5 * length ds) in
    let start : 0 * 32 + d ≡ d = omega arith in
    let (high, low) = value_split ds (acc * 32 + d) hs in
    let top : value 0 (d ∷ ds) ≡ d * p + value 0 ds =
      (value_split ds (0 * 32 + d) hs).0 ∙ ap (λ x. x * p + value 0 ds) start in
    (
      high ∙ omega (arith, distribute acc d p, ap (λ x. acc * x) (block_suc (length ds)), top),
      omega (arith, top, low, block_suc (length ds), mul-le-mul_right p (digit_le d h)),
    )

pub digits-value : (ds : List ℕ) (acc : ℕ) → All IsDigit ds → digits (length ds) (value acc ds) ≡ ds
unfolding digits value
digits-value [] acc h = refl
digits-value (d ∷ ds) acc (h, hs) =
    let p = 2 ^ (5 * length ds) in
    let (high, low) = value_split ds (acc * 32 + d) hs in
    let first : value (acc * 32 + d) ds / p % 32 ≡ d =
      ap (λ x. x / p % 32) high
      ∙ ap (λ x. x % 32) (mul-add-div_right (block_pos (5 * length ds)) (acc * 32 + d) (value 0 ds))
      ∙ ap (λ x. (acc * 32 + d + x) % 32) (div-eq_of_lt low)
      ∙ omega arith in
    rw (first, digits-value ds (acc * 32 + d) hs) refl

-- An id with some payload at some width.
abbrev pub Issued : PublicId → Type 0
Issued id = (payload : ℕ) × (chars : ℕ) × Carries payload chars id

spared : (v n : ℕ) → n ≤ 26 → v < 2 ^ (5 * n) → v / 2 ^ reserved_bits n < 2 ^ payload_bits n
spared v n h small = elim (layouts n h) [
  | inl (few, plain, bits) ↦ let same : v / 2 ^ 0 ≡ v = omega arith in rw (plain, bits, same) small
  | inr e ↦
      let small' : v < 2 ^ 130 = subst (λ k. v < 2 ^ (5 * k)) e small in
      rw e (omega (arith, small'))
]

unspared : (v r : ℕ) → v % 2 ^ r ≡ 0 → v / 2 ^ r * 2 ^ r ≡ v
unspared v r h = omega (arith, div-add-mod' v (2 ^ r))

pub Issued-ParsesTo : (s : Text) (id : PublicId) → ParsesTo s id → Issued id
Issued-ParsesTo s id (ds, spelled, good, least, most, zeros, same) =
    let v = value 0 ds in
    let r = reserved_bits (length ds) in
    let shown : render (v / 2 ^ r) (length ds) ≡ map id_char ds =
      render-digits (v / 2 ^ r) (length ds) most
      ∙ ap (λ x. map id_char (digits (length ds) x)) (unspared v r zeros)
      ∙ ap (map id_char) (digits-value ds 0 good) in
    (
      v / 2 ^ r,
      length ds,
      record {
        at_least = least;
        at_most = most;
        fits = spared v (length ds) most (value_split ds 0 good).1;
        rendered = same ∙ sym shown;
      },
    )

-- The canonical text, and the text in groups of four, spell the digits.
spell-char :
    (d : ℕ) (s : Text) (ds : List ℕ) → IsDigit d → Spells s ds → Spells (id_char d ∷ s) (d ∷ ds)
unfolding Spells
spell-char d s ds h spelled = inr (d, ds, refl, id_char_ascii d h, id_value-id_char d h, h, spelled)

spell-hyphen : (s : Text) (ds : List ℕ) → Spells s ds → Spells (b'-' ∷ s) ds
unfolding Spells
spell-hyphen s ds spelled = inl (refl, spelled)

spell-nothing : Spells [] []
unfolding Spells
spell-nothing = refl

Spells-canonical : (ds : List ℕ) → All IsDigit ds → Spells (map id_char ds) ds
Spells-canonical [] h = spell-nothing
Spells-canonical (d ∷ ds) (h, hs) = spell-char d _ ds h (Spells-canonical ds hs)

Spells-group : (ds : List ℕ) (i : ℕ) → All IsDigit ds → Spells (group_from i (map id_char ds)) ds
unfolding group_from
Spells-group [] i h = spell-nothing
Spells-group (d ∷ ds) i (h, hs) =
    let next =
      spell-char d (group_from (i + 1) (map id_char ds)) ds h (Spells-group ds (i + 1) hs) in
    elim (Bool-cases (ltb 0 i && i % 4 == 0)) [
      | inl hyphen ↦ rw hyphen (spell-hyphen _ (d ∷ ds) next)
      | inr plain ↦ rw plain next
    ]

pub ParsesTo-Issued :
    (id : PublicId) → Issued id → ParsesTo id.written id × ParsesTo (encode_grouped id) id
unfolding encode_grouped
ParsesTo-Issued id (payload, chars, c) =
    let r = reserved_bits chars in
    let ds = digits chars (payload * 2 ^ r) in
    let good = digits-All chars (payload * 2 ^ r) in
    let count : length ds ≡ chars = length-digits chars (payload * 2 ^ r) in
    let shown : id.written ≡ map id_char ds = c.rendered ∙ render-digits payload chars c.at_most in
    let zeros : value 0 ds % 2 ^ reserved_bits (length ds) ≡ 0 =
      rw (count, whole chars (payload * 2 ^ r) (above payload chars c))
        (mul-mod_left payload (2 ^ r)) in
    let least : 16 ≤ length ds = rw count c.at_least in
    let most : length ds ≤ 26 = rw count c.at_most in
    (
      (ds, rw shown (Spells-canonical ds good), good, least, most, zeros, shown),
      (ds, rw shown (Spells-group ds 0 good), good, least, most, zeros, shown),
    )
