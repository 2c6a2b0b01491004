-- ===== src/Decimal/RoundTrip.antt =====
-- A number that was written in decimal is read back, and its text holds digits only.
use notespace.Base.{
  inl, inr, ℕ, zero, suc, ◌+◌, ◌-◌, ◌*◌, ◌/◌, ◌%◌, ◌^◌, ◌<◌, ◌≤◌, false, some, [], ◌∷◌, ◌++◌, Text,
  ◌==◌, ltb, pos, ◌≡◌, refl, ap, ◌∙◌, arith, All, All-append, length, length-append, le→leb,
  Bool-cases, ltb→lt, two_63, ne→==-false,
}
use notespace.Decimal.{show_digits, show_i64, read_digits, parse_i64, split_once}

abbrev pub IsDigit : ℕ → Type 0
IsDigit c = (48 ≤ c) × (c ≤ 57)

pub show_digits-All : (fuel n : ℕ) → All IsDigit (show_digits fuel n)
unfolding show_digits
show_digits-All zero n = tt
show_digits-All (suc fuel) n = elim (Bool-cases (ltb n 10)) [
  | inl small ↦ rw small (ground (arith, small))
  | inr large ↦
      rw large
        (All-append IsDigit _ _ (show_digits-All fuel (n / 10)) ((omega arith, omega arith), tt))
]

read-append :
    (s : Text) (acc v c : ℕ)
    → read_digits acc s ≡ some v
    → IsDigit c
    → read_digits acc (s ++ c ∷ []) ≡ some (v * 10 + (c - 48))
unfolding read_digits
read-append [] acc v c h d = ground arith
read-append (x ∷ s) acc v c h d = ground (arith, h, read-append s (acc * 10 + (x - 48)) v c)

read-one : (n : ℕ) → n < 10 → read_digits 0 ((n + 48) ∷ []) ≡ some n
unfolding read_digits
read-one n h = ground arith

read-none : (n : ℕ) → n < 1 → read_digits 0 [] ≡ some n
unfolding read_digits
read-none n h = ap some (omega arith)

read-show : (fuel n : ℕ) → n < 10 ^ fuel → read_digits 0 (show_digits fuel n) ≡ some n
unfolding show_digits
read-show zero n h = read-none n (omega arith)
read-show (suc fuel) n h = elim (Bool-cases (ltb n 10)) [
  | inl small ↦ rw small (read-one n (ltb→lt n 10 small))
  | inr large ↦
      let high = read-show fuel (n / 10) (omega arith) in
      let whole : n / 10 * 10 + (n % 10 + 48 - 48) ≡ n = omega arith in
      rw large (
        read-append (show_digits fuel (n / 10)) 0 (n / 10) (n % 10 + 48) high
          (omega arith, omega arith)
        ∙ ap some whole)
]

pub split_once-append :
    (sep : ℕ) (s t : Text)
    → All (λ c. (c == sep) ≡ false) s
    → split_once sep (s ++ sep ∷ t) ≡ some (s, t)
unfolding split_once
split_once-append sep [] t h = ground arith
split_once-append sep (c ∷ s) t (h, hs) = rw (h, split_once-append sep s t hs) refl

show_digits_long : (fuel n : ℕ) → 1 ≤ length (show_digits (suc fuel) n)
unfolding show_digits
show_digits_long fuel n = elim (Bool-cases (ltb n 10)) [
  | inl small ↦ rw small (omega arith)
  | inr large ↦
      rw (large, length-append (show_digits fuel (n / 10)) ((n % 10 + 48) ∷ [])) (omega arith)
]

parse-digits :
    (s : Text) (n : ℕ)
    → All IsDigit s
    → 1 ≤ length s
    → read_digits 0 s ≡ some n
    → n < two_63
    → parse_i64 s ≡ some (pos n)
unfolding parse_i64
parse-digits [] n h long known small = absurd (omega arith)
parse-digits (c ∷ s) n (h, hs) long known small =
    rw
      (
        ne→==-false c 45 (λ e. omega arith),
        ne→==-false c 43 (λ e. omega arith),
        known,
        le→leb n (two_63 - 1) (omega arith),
      )
      refl

-- An `i64` that is not negative is read back from its text.
pub parse_i64-show_i64 : (n : ℕ) → n < two_63 → parse_i64 (show_i64 (pos n)) ≡ some (pos n)
unfolding show_i64
parse_i64-show_i64 n h =
    parse-digits (show_digits 20 n) n (show_digits-All 20 n) (show_digits_long 19 n)
      (read-show 20 n (omega arith)) h

dotless : (s : Text) → All IsDigit s → All (λ c. (c == 46) ≡ false) s
dotless [] h = tt
dotless (c ∷ s) (h, hs) = (ground arith, dotless s hs)

pub show_i64_dotless : (n : ℕ) → All (λ c. (c == 46) ≡ false) (show_i64 (pos n))
unfolding show_i64
show_i64_dotless n = dotless (show_digits 20 n) (show_digits-All 20 n)
