-- ===== src/Ids/Reading.antt =====
-- The parser of ids on canonical texts, with and without hyphens, and on any text.
use notespace.Base.{
  ℕ, ◌+◌, ◌≤◌, ◌<◌, ◌≡◌, ◌⊎◌, inl, inr, refl, ap, subst, ◌∙◌, sym, arith, List, [], ◌∷◌, ◌++◌, Text,
  map, length, Bool, true, false, ◌||◌, ltb, ◌==◌, if◌then◌else◌, holds_on, holds_on_lem,
  length-append, append_assoc, append-nil, ok, err, All, Bool-cases, ltb→lt, ltb-false→le, ok_inj,
  ok_not_err,
}
use notespace.Ids.{id_char, id_value, skip_char, bad_char, bad_character, wrong_length, read_chars}
use notespace.Ids.Digits.{digits}
use notespace.Ids.Payload.{IsDigit}

-- How a text may spell digits: a hyphen anywhere, and each digit by an ASCII character with its
-- value, which takes either case and the characters mistaken for 0 and 1.
unfoldable pub Spells : Text → List ℕ → Type 0
Spells [] ds = ds ≡ []
Spells (c ∷ s) ds =
    ((c ≡ b'-') × Spells s ds)
    ⊎ ((d : ℕ) × (rest : List ℕ) × (ds ≡ d ∷ rest)
        × (c < 128)
        × (id_value c ≡ d)
        × IsDigit d
        × Spells s rest)

-- The reverse table holds a digit, the mark of the hyphen, or the mark of a bad character.
kind_ok : ℕ → Bool
kind_ok c = let v = id_value c in if v == skip_char then c == b'-' else (v == bad_char || ltb v 32)

kind_table : holds_on kind_ok 128 ≡ true
unfolding kind_ok holds_on id_value
kind_table = refl

data Kind (c : ℕ) : Type 0 where
  hyphen : c ≡ b'-' → Kind c
  bad : (id_value c == skip_char) ≡ false → (id_value c == bad_char) ≡ true → Kind c
  digit : id_value c < 32 → Kind c

kinds : (c : ℕ) → c < 128 → Kind c
unfolding kind_ok
kinds c h =
    let known = holds_on_lem kind_ok 128 c kind_table h in
    elim (Bool-cases (id_value c == skip_char)) [
      | inl s ↦ hyphen (ground (arith, known, s))
      | inr n ↦ elim (Bool-cases (id_value c == bad_char)) [
        | inl b ↦ bad n b
        | inr k ↦ digit (ground (arith, known, n, k))
      ]
    ]

module _ (out : Text) where
  read-digit :
      (c : ℕ) (s : Text)
      → c < 128
      → id_value c < 32
      → length out < 26
      → read_chars out (c ∷ s) ≡ read_chars (out ++ id_char (id_value c) ∷ []) s
  unfolding read_chars
  read-digit c s h k room = ground arith

  read-end : read_chars out [] ≡ ok out
  unfolding read_chars
  read-end = refl

  read-hyphen : (s : Text) → read_chars out (b'-' ∷ s) ≡ read_chars out s
  unfolding read_chars id_value
  read-hyphen s = refl

  read-wide : (c : ℕ) (s : Text) → 128 ≤ c → read_chars out (c ∷ s) ≡ err (bad_character c)
  unfolding read_chars
  read-wide c s h = ground arith

  read-bad :
      (c : ℕ) (s : Text)
      → c < 128
      → (id_value c == skip_char) ≡ false
      → (id_value c == bad_char) ≡ true
      → read_chars out (c ∷ s) ≡ err (bad_character c)
  unfolding read_chars
  read-bad c s h n b = ground arith

  read-full :
      (c : ℕ) (s : Text)
      → c < 128
      → id_value c < 32
      → 26 ≤ length out
      → read_chars out (c ∷ s) ≡ err (wrong_length (length out + 1))
  unfolding read_chars
  read-full c s h k full = ground arith

-- The parser takes what spells at most 26 digits.
pub read_chars_complete :
    (s : Text) (ds : List ℕ) (out : Text)
    → Spells s ds
    → length out + length ds ≤ 26
    → read_chars out s ≡ ok (out ++ map id_char ds)
unfolding Spells
read_chars_complete [] ds out h fits = rw (h, append-nil out) (read-end out)
read_chars_complete (c ∷ s) ds out (inl (e, h)) fits =
    rw e (read-hyphen out s ∙ read_chars_complete s ds out h fits)
read_chars_complete (c ∷ s) ds out (inr (d, rest, e, ascii, v, k, h)) fits =
    let room : length out + length (d ∷ rest) ≤ 26 =
      subst (λ x. length out + length x ≤ 26) e fits in
    read-digit out c s ascii (omega (arith, v, k)) (omega (arith, room))
    ∙ rw (v, e)
        (read_chars_complete s rest (out ++ id_char d ∷ []) h
            (omega (arith, room, length-append out (id_char d ∷ [])))
          ∙ ap ok (append_assoc out (id_char d ∷ []) (map id_char rest)))

-- What it takes spells the digits that it returns.
abbrev pub Took : Text → Text → Text → Type 0
Took s out t =
    (ds : List ℕ) × Spells s ds
    × All IsDigit ds
    × (length out + length ds ≤ 26)
    × (t ≡ out ++ map id_char ds)

pub read_chars_sound : (s out t : Text) → length out ≤ 26 → read_chars out s ≡ ok t → Took s out t
unfolding Spells
read_chars_sound [] out t room h =
    ([], refl, tt, omega arith, ok_inj (sym h ∙ read-end out) ∙ sym (append-nil out))
read_chars_sound (c ∷ s) out t room h = elim (Bool-cases (ltb c 128)) [
  | inr wide ↦ absurd (ok_not_err (sym h ∙ read-wide out c s (ltb-false→le c 128 wide)))
  | inl ascii ↦ elim (kinds c (ltb→lt c 128 ascii)) [
    | hyphen e ↦
        let h' : read_chars out (b'-' ∷ s) ≡ ok t =
          subst (λ x. read_chars out (x ∷ s) ≡ ok t) e h in
        let (ds, spelled, digits, fits, same) =
          read_chars_sound s out t room (sym (read-hyphen out s) ∙ h') in
        (ds, inl (e, spelled), digits, fits, same)
    | bad n b ↦ absurd (ok_not_err (sym h ∙ read-bad out c s (ltb→lt c 128 ascii) n b))
    | digit k ↦ elim (Bool-cases (ltb (length out) 26)) [
      | inr full ↦
          absurd
            (ok_not_err (sym h ∙ read-full out c s (ltb→lt c 128 ascii) k (ltb-false→le _ 26 full)))
      | inl free ↦
          let d = id_value c in
          let pushed = out ++ id_char d ∷ [] in
          let longer : length pushed ≡ length out + 1 = length-append out (id_char d ∷ []) in
          let free' = ltb→lt _ 26 free in
          let (ds, spelled, digits, fits, same) =
            read_chars_sound s pushed t (omega arith)
              (sym (read-digit out c s (ltb→lt c 128 ascii) k free') ∙ h) in
          (
            d ∷ ds,
            inr (d, ds, refl, ltb→lt c 128 ascii, refl, k, spelled),
            (k, digits),
            omega arith,
            same ∙ append_assoc out (id_char d ∷ []) (map id_char ds),
          )
    ]
  ]
]
