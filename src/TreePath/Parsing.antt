-- ===== src/TreePath/Parsing.antt =====
-- `parse` of crates/core/src/path.rs accepts exactly the texts of positions in the bounds.
use notespace.Base.{
  ℕ, ◌+◌, ◌/◌, ◌%◌, ◌≤◌, ◌<◌, ◌≡◌, ◌≢◌, refl, ap, ◌∙◌, sym, arith, Bool, true, false, ◌&&◌, ◌||◌,
  not, Text, List, [], ◌∷◌, ◌++◌, All, length, get_or-default, ok, ltb, ◌==◌, holds_on,
  holds_on_lem, Bool-cases, inl, inr, ltb→lt, ltb-false→le, subst,
}
use notespace.TreePath.{
  TreePath, separator, max_depth, invalid, digit_value, digit_char, decode, decode_segment,
  is_segment, parse, parse_loop, split,
}
use notespace.TreePath.Segment.{
  segment, segment_lem, digit_value-digit_char, decode_digits, segment_digits,
}
use notespace.TreePath.Split.{join_from, split_join, split-Free, split-append}
use notespace.TreePath.Position.{IsOrdinal, render, Denotes, segment-Free}
use notespace.TreePath.Walk.{Denotes-eq}

-- Every byte with a value is the digit of that value.
value_ok : ℕ → Bool
value_ok b = digit_value b == invalid || (ltb (digit_value b) 32 && digit_char (digit_value b) == b)

value_table : holds_on value_ok 256 ≡ true
unfolding value_ok holds_on digit_value digit_char
value_table = refl

digit_value-beyond : (b : ℕ) → 256 ≤ b → digit_value b ≡ invalid
unfolding digit_value
digit_value-beyond b h = get_or-default decode b invalid h

digit_of_value :
    (b : ℕ) → digit_value b ≢ invalid → (digit_value b < 32) × (digit_char (digit_value b) ≡ b)
unfolding value_ok
digit_of_value b h = elim (Bool-cases (ltb b 256)) [
  | inl byte ↦ ground (arith, holds_on_lem value_ok 256 b value_table (ltb→lt b 256 byte))
  | inr beyond ↦ absurd (h (digit_value-beyond b (ltb-false→le b 256 beyond)))
]

of_digits :
    (a b c d : ℕ)
    → a < 32
    → b < 32
    → c < 32
    → d < 32
    → IsOrdinal (decode_segment (digit_char a ∷ digit_char b ∷ digit_char c ∷ digit_char d ∷ []))
      × (digit_char a ∷ digit_char b ∷ digit_char c ∷ digit_char d ∷ []
          ≡ segment
              (decode_segment (digit_char a ∷ digit_char b ∷ digit_char c ∷ digit_char d ∷ [])))
of_digits a b c d ha hb hc hd =
    rw (decode_digits a b c d ha hb hc hd) (omega arith, sym (segment_digits a b c d ha hb hc hd))

valid : ℕ → Bool
valid b = not (digit_value b == invalid)

valid-ne : (b : ℕ) → valid b ≡ true → digit_value b ≢ invalid
unfolding valid
valid-ne b h = ground arith

all_four :
    (a b c d : ℕ)
    → is_segment (a ∷ b ∷ c ∷ d ∷ []) ≡ true
    → (digit_value a ≢ invalid)
      × (digit_value b ≢ invalid)
      × (digit_value c ≢ invalid)
      × (digit_value d ≢ invalid)
unfolding is_segment
all_four a b c d h = ground arith

is_segment-length : (s : Text) → is_segment s ≡ true → length s ≡ 4
unfolding is_segment
is_segment-length s h = ground arith

-- A segment of the right form is that of the ordinal that it decodes to.
pub is_segment-eq :
    (s : Text)
    → is_segment s ≡ true
    → IsOrdinal (decode_segment s) × (s ≡ segment (decode_segment s))
is_segment-eq (a ∷ b ∷ c ∷ d ∷ []) h =
    let (ha, hb, hc, hd) = all_four a b c d h in
    let (la, ea) = digit_of_value a ha in
    let (lb, eb) = digit_of_value b hb in
    let (lc, ec) = digit_of_value c hc in
    let (ld, ed) = digit_of_value d hd in
    subst (λ s. IsOrdinal (decode_segment s) × (s ≡ segment (decode_segment s)))
      (λ i. ea i ∷ eb i ∷ ec i ∷ ed i ∷ [])
      (of_digits (digit_value a) (digit_value b) (digit_value c) (digit_value d) la lb lc ld)
is_segment-eq [] h = absurd (omega (arith, is_segment-length [] h))
is_segment-eq s h = absurd (omega (arith, is_segment-length s h))

digit_valid : (d : ℕ) → d < 32 → (digit_value (digit_char d) == invalid) ≡ false
digit_valid d h = ground (arith, digit_value-digit_char d h)

pub is_segment-segment : (n : ℕ) → is_segment (segment n) ≡ true
unfolding is_segment
is_segment-segment n = rw segment_lem (
    rw (
      digit_valid (n / 32 / 32 / 32 % 32) (omega arith),
      digit_valid (n / 32 / 32 % 32) (omega arith),
      digit_valid (n / 32 % 32) (omega arith),
      digit_valid (n % 32) (omega arith),
    ))

-- The loop accepts the segments of a position, and keeps the text.
module _ (s : Text) where
  loop-accepts :
      (level n : ℕ) (ns : List ℕ)
      → level + length ns < max_depth
      → parse_loop s level (split separator (render n ns)) ≡ ok (record { text = s })
  unfolding render parse_loop
  loop-accepts level n [] h =
      rw (split-Free separator (segment n) (segment-Free n), is_segment-segment n) (ground arith)
  loop-accepts level n (m ∷ ms) h =
      rw (split-append separator (segment n) (render m ms) (segment-Free n), is_segment-segment n)
        (ground (arith, loop-accepts (level + 1) m ms (omega arith)))

  loop_step :
      (level : ℕ) (t : Text) (ts : List Text) {p : TreePath}
      → parse_loop s level (t ∷ ts) ≡ ok p
      → (level < max_depth) × (is_segment t ≡ true) × (parse_loop s (level + 1) ts ≡ ok p)
  unfolding parse_loop
  loop_step level t ts h = ground arith

  loop_end : (level : ℕ) {p : TreePath} → parse_loop s level [] ≡ ok p → p ≡ record { text = s }
  unfolding parse_loop
  loop_end level h = ground arith

  -- What the loop accepts is a list of segments.
  loop-reads :
      (level : ℕ) (t : Text) (ts : List Text) {p : TreePath}
      → parse_loop s level (t ∷ ts) ≡ ok p
      → (n : ℕ) × (ns : List ℕ) × (join_from separator t ts ≡ render n ns)
        × (p ≡ record { text = s })
        × All IsOrdinal (n ∷ ns)
        × (level + length ns < max_depth)
  unfolding render
  loop-reads level t [] h =
      let (room, good, rest) = loop_step level t [] h in
      let (small, same) = is_segment-eq t good in
      (decode_segment t, [], same, loop_end (level + 1) rest, (small, tt), omega arith)
  loop-reads level t (u ∷ us) h =
      let (room, good, rest) = loop_step level t (u ∷ us) h in
      let (small, same) = is_segment-eq t good in
      let (m, ms, written, kept, ordinals, fits) = loop-reads (level + 1) u us rest in
      (
        decode_segment t,
        m ∷ ms,
        (λ i. same i ++ separator ∷ written i),
        kept,
        (small, ordinals),
        omega arith,
      )

parse-loop : (s : Text) → 0 < length s → parse s ≡ parse_loop s 0 (split separator s)
unfolding parse
parse-loop [] h = absurd (omega arith)
parse-loop (c ∷ s) h = refl

length-render : (n : ℕ) (ns : List ℕ) → 0 < length (render n ns)
unfolding render
length-render n [] = rw segment_lem (omega arith)
length-render n (m ∷ ms) = rw segment_lem (omega arith)

-- `parse` accepts the text of every position in the bounds.
pub parse-Denotes : {p : TreePath} {n : ℕ} {ns : List ℕ} → Denotes p n ns → parse p.text ≡ ok p
parse-Denotes {n} {ns} d =
    rw (Denotes-eq d, parse-loop (render n ns) (length-render n ns))
      (loop-accepts (render n ns) 0 n ns (omega (arith, d.shallow)))

-- It accepts no other text: what it returns stands for a position.
pub parse_sound :
    (s : Text) {p : TreePath}
    → parse s ≡ ok p
    → (n : ℕ) × (ns : List ℕ) × Denotes p n ns × (p.text ≡ s)
unfolding parse
parse_sound [] h = cc
parse_sound (c ∷ s) h =
    let (t, ts, e, joined, _) = split_join separator (c ∷ s) in
    let (n, ns, written, kept, ordinals, fits) = loop-reads (c ∷ s) 0 t ts (rw e at h) in
    (
      n,
      ns,
      record {
        ordinals = ordinals;
        shallow = omega arith;
        written = ap (λ r. r.text) kept ∙ joined ∙ written;
      },
      ap (λ r. r.text) kept,
    )
