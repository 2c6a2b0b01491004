-- ===== src/Ids/Ordering.antt =====
-- The byte order of ids, which SQLite sorts by.
use notespace.Base.{
  ℕ, ◌+◌, ◌-◌, ◌*◌, ◌/◌, ◌^◌, ◌<◌, ◌≡◌, refl, ap, subst, ◌∙◌, sym, arith, ◌++◌, map,
}
use notespace.Ids.{id_char, reserved_bits, PublicId, payload_bits}
use notespace.Ids.Digits.{digits, block_pos}
use notespace.Ids.Payload.{Carries, render-digits}
use native.Mathlib.Nat.{div-lt_iff_lt-mul, div-div-eq-div-mul, mul-div-mul_right, mod-eq_of_lt}
use notespace.Ids.Digits.{compare-digits, digits-split, pow_add}
use mathlib.Core.List.{map-append}
use Prim.Native.Nat.{Ordering}
use notespace.Base.{compare_list, compare}
use notespace.Ids.{timestamp_ms}
use notespace.Ids.Payload.{above, to_u128-Carries, width-Carries}
use notespace.Ids.Made.{Made, Made-Issued}

module _ (payload chars : ℕ) (id : PublicId) (c : Carries payload chars id) where
  -- The number that the text writes, and what its first ten characters say of it.
  shown : ℕ
  shown = payload * 2 ^ reserved_bits chars

  front : ℕ
  front = shown / 2 ^ (5 * (chars - 10))

  written-split :
      id.written ≡ map id_char (digits 10 front) ++ map id_char (digits (chars - 10) shown)
  unfolding front shown
  written-split =
      let all : 10 + (chars - 10) ≡ chars = omega (arith, c.at_least) in
      c.rendered
      ∙ render-digits payload chars c.at_most
      ∙ ap (λ k. map id_char (digits k shown)) (sym all)
      ∙ ap (map id_char) (digits-split 10 (chars - 10) shown)
      ∙ map-append id_char (digits 10 front) (digits (chars - 10) shown)

  front_small : front < 2 ^ 50
  unfolding front shown
  front_small =
      let rest = 5 * (chars - 10) in
      let total : 2 ^ (5 * chars) ≡ 2 ^ 50 * 2 ^ rest =
        ap (λ k. 2 ^ k) (omega (arith, c.at_least)) ∙ pow_add 50 rest in
      (div-lt_iff_lt-mul {k = 2 ^ rest} (block_pos rest)).1
        (subst (λ x. shown < x) total (above payload chars c))

  front-timestamp : front / 4 ≡ timestamp_ms id
  unfolding front timestamp_ms shown
  front-timestamp =
      let rest = 5 * (chars - 10) in
      let r = reserved_bits chars in
      let age = payload_bits chars - 48 in
      let places : rest + 2 ≡ age + r = ground (arith, c.at_least, c.at_most) in
      let blocks : 2 ^ rest * 4 ≡ 2 ^ age * 2 ^ r =
        sym (pow_add rest 2) ∙ ap (λ k. 2 ^ k) places ∙ pow_add age r in
      rw (width-Carries payload chars c, to_u128-Carries payload chars c)
        (div-div-eq-div-mul (payload * 2 ^ r) (2 ^ rest) 4
          ∙ ap (λ x. payload * 2 ^ r / x) blocks
          ∙ mul-div-mul_right {m = 2 ^ r} payload (2 ^ age) (block_pos r))

-- Ids sort by their creation time, at whatever widths they were made.
pub compare-timestamp :
    (a b : PublicId)
    → Made a
    → Made b
    → timestamp_ms a < timestamp_ms b
    → compare_list a.written b.written ≡ Ordering.lt
compare-timestamp a b made made' earlier =
    let (p, n, c) = Made-Issued a made in
    let (q, m, d) = Made-Issued b made' in
    let x = front p n a c in
    let y = front q m b d in
    let less : x < y = omega (arith, front-timestamp p n a c, front-timestamp q m b d, earlier) in
    let first : compare x y ≡ Ordering.lt = ground (arith, less) in
    rw (written-split p n a c, written-split q m b d)
      (compare-digits 10 x y _ _
        ∙ rw (mod-eq_of_lt (front_small p n a c), mod-eq_of_lt (front_small q m b d), first) refl)
