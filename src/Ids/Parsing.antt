-- ===== src/Ids/Parsing.antt =====
-- The texts that parse as an id, and what they parse as.
use notespace.Base.{
  ℕ, zero, suc, ◌+◌, ◌-◌, ◌*◌, ◌%◌, ◌^◌, ◌≤◌, ◌<◌, ◌≡◌, inl, inr, refl, ap, ◌∙◌, sym, arith, List,
  [], ◌∷◌, Text, map, length, ◌&&◌, not, ltb, ◌==◌, if◌then◌else◌, bit_and, and_mask, le→ltb-false,
  ◌↔◌, ok, err, Result, Result-cases, All, Bool-cases, ltb→lt, lt→ltb, ==→eq, ok_inj, ltb-false→le,
  ltb-false→le, ok_inj, ok_not_err,
}
use notespace.Ids.{
  id_char, reserved_bits, PublicId, IdError, wrong_length, reserved_bits_set, last_value,
  read_chars, check_read, parse_id, min_id_chars, max_id_chars,
}
use notespace.Ids.Digits.{digits, value, id_value-id_char}
use notespace.Ids.Payload.{IsDigit, length-map_char, layouts}
use notespace.Ids.Reading.{Spells, read_chars_complete, read_chars_sound}

last-value :
    (d : ℕ) (ds : List ℕ) (acc : ℕ)
    → IsDigit d
    → All IsDigit ds
    → value acc (d ∷ ds) % 32 ≡ last_value (map id_char (d ∷ ds))
unfolding value last_value
last-value d [] acc h hs = rw (id_value-id_char d h) (omega arith)
last-value d (e ∷ ds) acc h (he, hs) = last-value e ds (acc * 32 + d) he hs

spare_mask :
    (ds : List ℕ)
    → All IsDigit ds
    → 16 ≤ length ds
    → length ds ≤ 26
    → bit_and (last_value (map id_char ds)) (2 ^ reserved_bits (length ds) - 1)
      ≡ value 0 ds % 2 ^ reserved_bits (length ds)
spare_mask [] h least most = absurd (omega arith)
spare_mask (d ∷ ds) (h, hs) least most =
    and_mask (reserved_bits (length (d ∷ ds))) (last_value (map id_char (d ∷ ds)))
    ∙ elim (layouts (length (d ∷ ds)) most) [
      | inl (small, plain, bits) ↦ rw plain (omega arith)
      | inr e ↦ rw e (omega (arith, last-value d ds 0 h hs))
    ]

-- A text parses as an id where it spells 16 to 26 digits whose spare bits are zero, and the id is
-- written with the canonical characters of these digits.
abbrev pub ParsesTo : Text → PublicId → Type 0
ParsesTo s id =
    (ds : List ℕ) × Spells s ds
    × All IsDigit ds
    × (min_id_chars ≤ length ds)
    × (length ds ≤ max_id_chars)
    × (value 0 ds % 2 ^ reserved_bits (length ds) ≡ 0)
    × (id.written ≡ map id_char ds)

no_spare : (r v : ℕ) → (ltb 0 r && not (v % 2 ^ r == 0)) ≡ not (v % 2 ^ r == 0)
no_spare zero v = ground arith
no_spare (suc r) v = ground arith

-- The check, with the test of the spare bits on the number that the digits stand for.
Checked : List ℕ → Result IdError PublicId
Checked ds =
    if ltb (length ds) min_id_chars
    then err (wrong_length (length ds))
    else if not (value 0 ds % 2 ^ reserved_bits (length ds) == 0)
    then err reserved_bits_set
    else ok (record { written = map id_char ds })

check_form :
    (ds : List ℕ)
    → All IsDigit ds
    → 16 ≤ length ds
    → length ds ≤ 26
    → check_read (map id_char ds) ≡ Checked ds
unfolding check_read Checked
check_form ds h least most =
    rw
      (
        length-map_char ds,
        spare_mask ds h least most,
        no_spare (reserved_bits (length ds)) (value 0 ds),
      )
      refl

check_short :
    (ds : List ℕ) → length ds < 16 → check_read (map id_char ds) ≡ err (wrong_length (length ds))
unfolding check_read
check_short ds h = rw (length-map_char ds, lt→ltb _ 16 h) refl

check_sound :
    (ds : List ℕ) (id : PublicId)
    → Checked ds ≡ ok id
    → (16 ≤ length ds)
      × (value 0 ds % 2 ^ reserved_bits (length ds) ≡ 0)
      × (id.written ≡ map id_char ds)
unfolding Checked
check_sound ds id checked = elim (Bool-cases (ltb (length ds) 16)) [
  | inl short ↦ absurd (ok_not_err {e = wrong_length (length ds)} (sym checked ∙ rw short refl))
  | inr long ↦ elim (Bool-cases (value 0 ds % 2 ^ reserved_bits (length ds) == 0)) [
    | inr set ↦ absurd (ok_not_err {e = reserved_bits_set} (sym checked ∙ rw (long, set) refl))
    | inl zeros ↦ (
      ltb-false→le _ 16 long,
      ==→eq _ 0 zeros,
      ap (λ (x : PublicId). x.written) (ok_inj (sym checked ∙ rw (long, zeros) refl)),
    )
  ]
]

check_complete :
    (ds : List ℕ) (id : PublicId)
    → 16 ≤ length ds
    → value 0 ds % 2 ^ reserved_bits (length ds) ≡ 0
    → id.written ≡ map id_char ds
    → Checked ds ≡ ok id
unfolding Checked
check_complete ds id least zeros same =
    rw (le→ltb-false _ 16 least, zeros) (ap (λ t. ok (record { written = t })) (sym same))

to : (s : Text) (id : PublicId) → parse_id s ≡ ok id → ParsesTo s id
unfolding parse_id
to s id h = elim (Result-cases (read_chars [] s)) [
  | inr (e, failed) ↦ absurd (ok_not_err {e = e} (sym h ∙ rw failed refl))
  | inl (out, took) ↦
      let checked' : check_read out ≡ ok id = sym (rw took refl) ∙ h in
      let (ds, spelled, digits, most, same) = read_chars_sound s [] out (omega arith) took in
      let checked : check_read (map id_char ds) ≡ ok id = ap check_read (sym same) ∙ checked' in
      elim (Bool-cases (ltb (length ds) 16)) [
        | inl short ↦ absurd (ok_not_err (sym checked ∙ check_short ds (ltb→lt _ 16 short)))
        | inr long ↦
            let least = ltb-false→le _ 16 long in
            let (enough, zeros, written) =
              check_sound ds id (sym (check_form ds digits least (omega arith)) ∙ checked) in
            (ds, spelled, digits, enough, omega arith, zeros, written)
      ]
]

from : (s : Text) (id : PublicId) → ParsesTo s id → parse_id s ≡ ok id
unfolding parse_id
from s id (ds, spelled, digits, least, most, zeros, same) =
    rw (read_chars_complete s ds [] spelled (omega arith))
      (check_form ds digits least most ∙ check_complete ds id least zeros same)

pub parse_id_iff : (s : Text) (id : PublicId) → (parse_id s ≡ ok id) ↔ ParsesTo s id
parse_id_iff s id = (to s id, from s id)
