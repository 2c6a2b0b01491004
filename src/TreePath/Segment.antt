-- ===== src/TreePath/Segment.antt =====
-- Segments of crates/core/src/path.rs: four digits that carry an ordinal and its order.
use notespace.Base.{
  ℕ, ◌+◌, ◌*◌, ◌/◌, ◌%◌, ◌≡◌, refl, ◌∙◌, then_with_assoc, compare_digits, Bool, true, ◌&&◌, ◌≤◌,
  ◌<◌, arith, holds_on, holds_on_lem, ltb, lt→ltb, ◌==◌, if◌then◌else◌, Text, [], ◌∷◌, ◌++◌,
  compare, then_with, compare_list, ok, err, le→ltb-false,
}
use notespace.TreePath.{
  digit_char, digit_value, encode_digits, encode_segment, decode_segment, decode_step, max_ordinal,
  ordinal_too_large,
}

-- What the rest of the development needs of the 32 digits, checked digit by digit.
digit_ok : ℕ → Bool
unfolding digit_value digit_char
digit_ok d = digit_value (digit_char d) == d && ltb b'/' (digit_char d) && ltb (digit_char d) 127

digit_table : holds_on digit_ok 32 ≡ true
unfolding digit_ok holds_on
digit_table = refl

order_ok : ℕ → ℕ → Bool
unfolding digit_char
order_ok d e = if ltb d e then ltb (digit_char d) (digit_char e) else true

order_table : holds_on (λ d. holds_on (order_ok d) 32) 32 ≡ true
unfolding order_ok holds_on
order_table = refl

pub digit_value-digit_char : (d : ℕ) → d < 32 → digit_value (digit_char d) ≡ d
unfolding digit_ok
digit_value-digit_char d h = ground (arith, holds_on_lem digit_ok 32 d digit_table h)

pub digit_char_above : (d : ℕ) → d < 32 → b'/' < digit_char d
unfolding digit_ok
digit_char_above d h = ground (arith, holds_on_lem digit_ok 32 d digit_table h)

pub digit_char_under : (d : ℕ) → d < 32 → digit_char d < 127
unfolding digit_ok
digit_char_under d h = ground (arith, holds_on_lem digit_ok 32 d digit_table h)

pub digit_char-lt : (d e : ℕ) → d < e → e < 32 → digit_char d < digit_char e
unfolding order_ok
digit_char-lt d e h k = ground (
  arith,
  holds_on_lem (order_ok d) 32 e
      (holds_on_lem (λ c. holds_on (order_ok c) 32) 32 d order_table (omega arith)) k,
)

-- The segment of an ordinal, most significant digit first.
unfoldable pub segment : ℕ → Text
segment n = encode_digits 4 n []

pub segment_lem :
    (n : ℕ)
    → segment n
      ≡ digit_char (n / 32 / 32 / 32 % 32)
        ∷ digit_char (n / 32 / 32 % 32)
        ∷ digit_char (n / 32 % 32)
        ∷ digit_char (n % 32)
        ∷ []
unfolding segment encode_digits
segment_lem n = refl

pub encode_segment_lem : (n : ℕ) → n ≤ max_ordinal → encode_segment n ≡ ok (segment n)
unfolding encode_segment segment
encode_segment_lem n h = rw (le→ltb-false max_ordinal n h)

pub encode_segment_err : (n : ℕ) → max_ordinal < n → encode_segment n ≡ err (ordinal_too_large n)
unfolding encode_segment
encode_segment_err n h = rw (lt→ltb max_ordinal n h)

step_lem : (acc d : ℕ) → d < 32 → acc < 32768 → decode_step acc (digit_char d) ≡ acc * 32 + d
unfolding decode_step
step_lem acc d h k = ground (arith, digit_value-digit_char d h)

pub decode_digits :
    (a b c d : ℕ)
    → a < 32
    → b < 32
    → c < 32
    → d < 32
    → decode_segment (digit_char a ∷ digit_char b ∷ digit_char c ∷ digit_char d ∷ [])
      ≡ ((a * 32 + b) * 32 + c) * 32 + d
unfolding decode_segment
decode_digits a b c d ha hb hc hd =
    rw (step_lem 0 a ha (omega arith), step_lem (0 * 32 + a) b hb (omega arith))
      (rw (step_lem ((0 * 32 + a) * 32 + b) c hc (omega arith))
        (omega (arith, step_lem (((0 * 32 + a) * 32 + b) * 32 + c) d hd (omega arith))))

pub segment_digits :
    (a b c d : ℕ)
    → a < 32
    → b < 32
    → c < 32
    → d < 32
    → segment (((a * 32 + b) * 32 + c) * 32 + d)
      ≡ digit_char a ∷ digit_char b ∷ digit_char c ∷ digit_char d ∷ []
segment_digits a b c d ha hb hc hd =
    let n = ((a * 32 + b) * 32 + c) * 32 + d in
    let ea : n / 32 / 32 / 32 % 32 ≡ a = omega arith in
    let eb : n / 32 / 32 % 32 ≡ b = omega arith in
    let ec : n / 32 % 32 ≡ c = omega arith in
    let ed : n % 32 ≡ d = omega arith in
    segment_lem n
    ∙ (λ i. digit_char (ea i) ∷ digit_char (eb i) ∷ digit_char (ec i) ∷ digit_char (ed i) ∷ [])

pub decode-segment : (n : ℕ) → n ≤ max_ordinal → decode_segment (segment n) ≡ n
decode-segment n h =
    rw segment_lem
      (decode_digits _ _ _ _ (omega arith) (omega arith) (omega arith) (omega arith) ∙ omega arith)

pub compare-digit_char :
    (d e : ℕ) → d < 32 → e < 32 → compare (digit_char d) (digit_char e) ≡ compare d e
compare-digit_char d e h k = ground (arith, digit_char-lt d e, digit_char-lt e d)

compare_four :
    (n m : ℕ)
    → n ≤ max_ordinal
    → m ≤ max_ordinal
    → compare n m
      ≡ then_with (compare (n / 32 / 32 / 32 % 32) (m / 32 / 32 / 32 % 32)) (
          then_with
            (compare (n / 32 / 32 % 32) (m / 32 / 32 % 32))
            (then_with (compare (n / 32 % 32) (m / 32 % 32)) (compare (n % 32) (m % 32))))
compare_four n m h k =
    let top : n / 32 / 32 / 32 % 32 ≡ n / 32 / 32 / 32 = omega arith in
    let top' : m / 32 / 32 / 32 % 32 ≡ m / 32 / 32 / 32 = omega arith in
    rw (top, top', compare_digits n m, compare_digits (n / 32) (m / 32))
      (rw (compare_digits (n / 32 / 32) (m / 32 / 32)) (simp then_with_assoc))

-- Segments compare as their ordinals do, whatever follows them.
pub compare-segment :
    (n m : ℕ) (s t : Text)
    → n ≤ max_ordinal
    → m ≤ max_ordinal
    → compare_list (segment n ++ s) (segment m ++ t) ≡ then_with (compare n m) (compare_list s t)
compare-segment n m s t h k =
    rw (segment_lem n, segment_lem m, compare_four n m h k)
      (rw
        (
          compare-digit_char (n / 32 / 32 / 32 % 32) (m / 32 / 32 / 32 % 32) (omega arith)
              (omega arith),
          compare-digit_char (n / 32 / 32 % 32) (m / 32 / 32 % 32) (omega arith) (omega arith),
          compare-digit_char (n / 32 % 32) (m / 32 % 32) (omega arith) (omega arith),
          compare-digit_char (n % 32) (m % 32) (omega arith) (omega arith),
        )
        (simp then_with_assoc))
