-- ===== src/Base/Bits.antt =====
-- The bit operations of the machine integers: or of numbers without a common bit, and masks.
use Prim.Native.Nat.{
  ℕ, zero, suc, ◌+◌, ◌-◌, ◌*◌, ◌/◌, ◌%◌, ◌^◌, ◌≤◌, ◌<◌, min, max, digits, bitwise, bit_and, bit_or,
  bit_and-bitwise, bit_or-bitwise,
}
use mathlib.Core.Path.{◌≡◌, refl, ap, ◌∙◌}
use native.Mathlib.Nat.{mul-add-mod_self_right, mod-eq_of_lt}
use native.Mathlib.Omega.{arith}

-- An operation on binary digits, by the digit law alone.
module _ (rest : ℕ → ℕ) (digit : ℕ → ℕ → ℕ) where
  enough : (m n a b : ℕ) → a ≤ m → a ≤ n → digits rest digit m a b ≡ digits rest digit n a b
  enough zero zero a b p q = refl
  enough zero (suc n) zero b p q = refl
  enough zero (suc n) (suc a) b p q = absurd (omega arith)
  enough (suc m) zero zero b p q = refl
  enough (suc m) zero (suc a) b p q = absurd (omega arith)
  enough (suc m) (suc n) zero b p q = refl
  enough (suc m) (suc n) (suc a) b p q =
      omega (arith, enough m n (suc a / 2) (b / 2) (omega arith) (omega arith))

  bitwise_lowest :
      (a b : ℕ)
      → bitwise rest digit (suc a) b
        ≡ bitwise rest digit (suc a / 2) (b / 2) * 2 + digit (suc a % 2) (b % 2)
  bitwise_lowest a b =
      omega (arith, enough a (suc a / 2) (suc a / 2) (b / 2) (omega arith) (omega arith))

pub or_zero : (b : ℕ) → bit_or 0 b ≡ b
or_zero b = bit_or-bitwise 0 b

pub or_digit : (a b : ℕ) → bit_or a b ≡ bit_or (a / 2) (b / 2) * 2 + max (a % 2) (b % 2)
or_digit zero b = omega (arith, or_zero b, or_zero (b / 2))
or_digit (suc a) b = omega (
  arith,
  bit_or-bitwise (suc a) b,
  bit_or-bitwise (suc a / 2) (b / 2),
  bitwise_lowest (λ b. b) max a b,
)

and_zero : (b : ℕ) → bit_and 0 b ≡ 0
and_zero b = bit_and-bitwise 0 b

pub and_digit : (a b : ℕ) → bit_and a b ≡ bit_and (a / 2) (b / 2) * 2 + min (a % 2) (b % 2)
and_digit zero b = omega (arith, and_zero b, and_zero (b / 2))
and_digit (suc a) b = omega (
  arith,
  bit_and-bitwise (suc a) b,
  bit_and-bitwise (suc a / 2) (b / 2),
  bitwise_lowest (λ b. 0) min a b,
)

or_none_fuel : (n a : ℕ) → a ≤ n → bit_or a 0 ≡ a
or_none_fuel n zero h = or_zero 0
or_none_fuel zero (suc a) h = absurd (omega arith)
or_none_fuel (suc n) (suc a) h =
    omega (arith, or_digit (suc a) 0, or_none_fuel n (suc a / 2) (omega arith))

and_none_fuel : (n a : ℕ) → a ≤ n → bit_and a 0 ≡ 0
and_none_fuel n zero h = and_zero 0
and_none_fuel zero (suc a) h = absurd (omega arith)
and_none_fuel (suc n) (suc a) h =
    omega (arith, and_digit (suc a) 0, and_none_fuel n (suc a / 2) (omega arith))

shift_out : (a k : ℕ) → a * 2 ^ suc k ≡ a * 2 ^ k * 2
shift_out a k = grind arith

or_double : (a b : ℕ) → bit_or (a * 2) b ≡ bit_or a (b / 2) * 2 + b % 2
or_double a b =
    let half : a * 2 / 2 ≡ a = omega arith in
    omega (arith, or_digit (a * 2) b, ap (λ x. bit_or x (b / 2)) half)

and_odd : (a m : ℕ) → bit_and a (m * 2 + 1) ≡ bit_and (a / 2) m * 2 + a % 2
and_odd a m =
    let half : (m * 2 + 1) / 2 ≡ m = omega arith in
    omega (arith, and_digit a (m * 2 + 1), ap (bit_and (a / 2)) half)

odd_mask : (k : ℕ) → 1 ≤ 2 ^ k → 2 ^ suc k - 1 ≡ (2 ^ k - 1) * 2 + 1
odd_mask k h = omega arith

split_rem : (a k : ℕ) → 1 ≤ 2 ^ k → a % 2 ^ suc k ≡ a / 2 % 2 ^ k * 2 + a % 2
split_rem a k h =
    let p = 2 ^ k in
    let c = a / 2 % p * 2 + a % 2 in
    let parts : a ≡ a / 2 / p * 2 ^ suc k + c = grind (arith, shift_out (a / 2 / p) k) in
    let small : c < 2 ^ suc k = grind arith in
    ap (λ x. x % 2 ^ suc k) parts
    ∙ mul-add-mod_self_right (a / 2 / p) (2 ^ suc k) c
    ∙ mod-eq_of_lt small

one_or_more : (k : ℕ) → 1 ≤ 2 ^ k
one_or_more zero = omega arith
one_or_more (suc k) = omega (arith, one_or_more k)

-- Where the second number stays below the lowest bit of the first, or is the sum.
pub or_below : (k a b : ℕ) → b < 2 ^ k → bit_or (a * 2 ^ k) b ≡ a * 2 ^ k + b
or_below zero a b h =
    let z : b ≡ 0 = omega arith in rw z (omega (arith, or_none_fuel (a * 1) (a * 1) (omega arith)))
or_below (suc k) a b h =
    ap (λ x. bit_or x b) (shift_out a k)
    ∙ omega (arith, shift_out a k, or_double (a * 2 ^ k) b, or_below k a (b / 2) (omega arith))

-- A mask of the lowest bits is a remainder.
pub and_mask : (k a : ℕ) → bit_and a (2 ^ k - 1) ≡ a % 2 ^ k
and_mask zero a = omega (arith, and_none_fuel a a (omega arith))
and_mask (suc k) a =
    ap (bit_and a) (odd_mask k (one_or_more k))
    ∙ omega (arith, and_odd a (2 ^ k - 1), and_mask k (a / 2), split_rem a k (one_or_more k))
