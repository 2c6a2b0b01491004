-- ===== src/Ids/Digits.antt =====
-- The 32 characters of ids, and the digits a number is written with, highest first.
use notespace.Base.{
  ℕ, zero, suc, ◌+◌, ◌*◌, ◌/◌, ◌%◌, ◌^◌, ◌≤◌, ◌<◌, ◌≡◌, refl, ap, ◌∙◌, sym, arith, List, [], ◌∷◌,
  ◌++◌, Text, map, length, Bool, true, false, ◌&&◌, not, ltb, ◌==◌, if◌then◌else◌, holds_on,
  holds_on_lem, compare, compare_list, then_with, then_with_assoc,
}
use notespace.Ids.{id_char, id_value, skip_char, bad_char, is_ascii}
use native.Mathlib.Nat.{
  mul-add-mod_self_right, zero-add, suc-add, one-mul, div-div-eq-div-mul, two-pow-succ, add-mul,
  mul-le-mul_right, mod-eq_of_lt, mod-lt,
}
use Prim.Native.Nat.{Ordering}

-- What the rest of the development needs of the characters, checked one by one.
char_ok : ℕ → Bool
unfolding id_value id_char
char_ok d =
    let c = id_char d in
    id_value c == d && is_ascii c && not (id_value c == skip_char) && not (id_value c == bad_char)

char_table : holds_on char_ok 32 ≡ true
unfolding char_ok holds_on
char_table = refl

order_ok : ℕ → ℕ → Bool
unfolding id_char
order_ok d e = if ltb d e then ltb (id_char d) (id_char e) else true

order_table : holds_on (λ d. holds_on (order_ok d) 32) 32 ≡ true
unfolding order_ok holds_on
order_table = refl

pub id_value-id_char : (d : ℕ) → d < 32 → id_value (id_char d) ≡ d
unfolding char_ok
id_value-id_char d h = ground (arith, holds_on_lem char_ok 32 d char_table h)

pub id_char_ascii : (d : ℕ) → d < 32 → id_char d < 128
unfolding char_ok
id_char_ascii d h = ground (arith, holds_on_lem char_ok 32 d char_table h)

id_char-lt : (d e : ℕ) → d < e → e < 32 → id_char d < id_char e
unfolding order_ok
id_char-lt d e h k = ground (
  arith,
  holds_on_lem (order_ok d) 32 e
      (holds_on_lem (λ c. holds_on (order_ok c) 32) 32 d order_table (omega arith)) k,
)

pub compare-id_char : (d e : ℕ) → d < 32 → e < 32 → compare (id_char d) (id_char e) ≡ compare d e
compare-id_char d e h k = ground (arith, id_char-lt d e, id_char-lt e d)

-- The lowest `k` digits of `n`, highest first.
unfoldable pub digits : ℕ → ℕ → List ℕ
digits zero n = []
digits (suc k) n = n / 2 ^ (5 * k) % 32 ∷ digits k n

pub length-digits : (k n : ℕ) → length (digits k n) ≡ k
unfolding digits
length-digits zero n = refl
length-digits (suc k) n = ap suc (length-digits k n)

pub pow_add : (k n : ℕ) → 2 ^ (k + n) ≡ 2 ^ k * 2 ^ n
pow_add zero n = ap (λ x. 2 ^ x) (zero-add n) ∙ sym (one-mul (2 ^ n))
pow_add (suc k) n =
    ap (λ x. 2 ^ x) (suc-add k n) ∙ grind (arith, two-pow-succ (k + n), two-pow-succ k, pow_add k n)

pub block_suc : (k : ℕ) → 2 ^ (5 * suc k) ≡ 32 * 2 ^ (5 * k)
block_suc k =
    let shifted : 5 * suc k ≡ 5 + 5 * k = omega arith in ap (λ x. 2 ^ x) shifted ∙ pow_add 5 (5 * k)

pub block_pos : (k : ℕ) → 1 ≤ 2 ^ k
block_pos zero = omega arith
block_pos (suc k) = omega (arith, block_pos k)

pub distribute : (x y p : ℕ) → (x * 32 + y) * p ≡ x * (32 * p) + y * p
distribute x y p = grind arith

pub top_digit : (v p : ℕ) → 1 ≤ p → v % (32 * p) ≡ v / p % 32 * p + v % p
top_digit v p h =
    let c = v / p % 32 * p + v % p in
    let high : v / p ≡ v / p / 32 * 32 + v / p % 32 = omega arith in
    let whole : v ≡ v / p * p + v % p = grind arith in
    let parts : v ≡ v / p / 32 * (32 * p) + c =
      omega (arith, whole, ap (λ x. x * p) high, distribute (v / p / 32) (v / p % 32) p) in
    let small : c < 32 * p = grind arith in
    ap (λ x. x % (32 * p)) parts
    ∙ mul-add-mod_self_right (v / p / 32) (32 * p) c
    ∙ mod-eq_of_lt small

block_le : (a c p : ℕ) → a < c → a * p + p ≤ c * p
block_le a c p h =
    let next : a + 1 ≤ c = omega arith in omega (arith, mul-le-mul_right p next, add-mul a 1 p)

compare_parts :
    (p a b c d : ℕ)
    → b < p
    → d < p
    → compare (a * p + b) (c * p + d) ≡ then_with (compare a c) (compare b d)
compare_parts p a b c d h k = ground (arith, block_le a c p, block_le c a p, ap (λ x. x * p))

split_block : (k n : ℕ) → n % 2 ^ (5 * suc k) ≡ n / 2 ^ (5 * k) % 32 * 2 ^ (5 * k) + n % 2 ^ (5 * k)
split_block k n = ap (λ x. n % x) (block_suc k) ∙ top_digit n (2 ^ (5 * k)) (block_pos (5 * k))

block_add : (j k : ℕ) → 2 ^ (5 * (j + k)) ≡ 2 ^ (5 * k) * 2 ^ (5 * j)
block_add j k =
    let sum : 5 * (j + k) ≡ 5 * k + 5 * j = omega arith in
    ap (λ x. 2 ^ x) sum ∙ pow_add (5 * k) (5 * j)

-- The number that digits stand for, after the digits read so far.
unfoldable pub value : ℕ → List ℕ → ℕ
value acc [] = acc
value acc (d ∷ ds) = value (acc * 32 + d) ds

pub value-digits : (k n acc : ℕ) → value acc (digits k n) ≡ acc * 2 ^ (5 * k) + n % 2 ^ (5 * k)
unfolding value digits
value-digits zero n acc = omega arith
value-digits (suc k) n acc =
    let p = 2 ^ (5 * k) in
    let d = n / p % 32 in
    value-digits k n (acc * 32 + d)
    ∙ omega (arith, distribute acc d p, ap (λ x. acc * x) (block_suc k), split_block k n)

-- Texts of the same length compare first.
pub compare-digits :
    (k n m : ℕ) (s t : Text)
    → compare_list (map id_char (digits k n) ++ s) (map id_char (digits k m) ++ t)
      ≡ then_with (compare (n % 2 ^ (5 * k)) (m % 2 ^ (5 * k))) (compare_list s t)
unfolding digits
compare-digits zero n m s t =
    let draw : compare (n % 1) (m % 1) ≡ Ordering.eq = ground arith in rw draw refl
compare-digits (suc k) n m s t =
    let p = 2 ^ (5 * k) in
    rw
      (
        compare-id_char (n / p % 32) (m / p % 32) (omega arith) (omega arith),
        compare-digits k n m s t,
        split_block k n,
        split_block k m,
        compare_parts p (n / p % 32) (n % p) (m / p % 32) (m % p) (mod-lt n (block_pos (5 * k)))
            (mod-lt m (block_pos (5 * k))),
        then_with_assoc,
      )
      refl

pub digits-split : (j k n : ℕ) → digits (j + k) n ≡ digits j (n / 2 ^ (5 * k)) ++ digits k n
unfolding digits
digits-split zero k n = ap (λ x. digits x n) (zero-add k)
digits-split (suc j) k n =
    let place : n / 2 ^ (5 * (j + k)) ≡ n / 2 ^ (5 * k) / 2 ^ (5 * j) =
      ap (λ x. n / x) (block_add j k) ∙ sym (div-div-eq-div-mul n (2 ^ (5 * k)) (2 ^ (5 * j))) in
    ap (λ x. digits x n) (suc-add j k) ∙ (λ i. place i % 32 ∷ digits-split j k n i)

pub id_char_ok :
    (d : ℕ)
    → d < 32
    → (is_ascii (id_char d) ≡ true)
      × ((id_value (id_char d) == skip_char) ≡ false)
      × ((id_value (id_char d) == bad_char) ≡ false)
unfolding char_ok
id_char_ok d h = ground (arith, holds_on_lem char_ok 32 d char_table h)
