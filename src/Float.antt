-- ===== src/Float.antt =====
-- The 64-bit floats of the moderation policy, which the development does not implement: their
-- operations, and the few laws of IEEE 754 that the theorems name.
use notespace.Base.{
  ℕ, ◌+◌, ◌*◌, ◌/◌, ◌-◌, ◌≤◌, Bool, true, false, ◌≡◌, if◌then◌else◌, leb, ltb, min, max, arith,
}

pub record Float : Type 1 where
  pub Value : Type 0
  pub le : Value → Value → Bool
  pub lt : Value → Value → Bool
  pub add : Value → Value → Value
  pub sub : Value → Value → Value
  pub mul : Value → Value → Value
  pub div : Value → Value → Value
  -- `f64::min` and `f64::max`.
  pub min_of : Value → Value → Value
  pub max_of : Value → Value → Value
  -- The literal of so many hundredths, and a cast of a `u32`.
  pub hundredths : ℕ → Value
  pub of_u32 : ℕ → Value

-- `f64::clamp`, as the standard library defines it.
abbrev pub clamp : (F : Float) → F.Value → F.Value → F.Value → F.Value
clamp F x lo hi = if F.lt x lo then lo else if F.lt hi x then hi else x

-- What a theorem may ask of the floats. IEEE 754 with rounding to nearest has these laws, with NaN
-- and the infinities among the values: a comparison with NaN is false, rounding keeps the order of
-- exact results, `min` and `max` pass over a NaN, and the literals of 0.00 to 1.00 are apart.
pub record FloatLaws (F : Float) : Type 0 where
  pub le_trans : (x y z : F.Value) → F.le x y ≡ true → F.le y z ≡ true → F.le x z ≡ true
  pub lt→le : (x y : F.Value) → F.lt x y ≡ true → F.le x y ≡ true
  pub le_lt : (x y z : F.Value) → F.le x y ≡ true → F.lt y z ≡ true → F.le z x ≡ false
  pub hundredths_le : (a b : ℕ) → a ≤ b → b ≤ 100 → F.le (F.hundredths a) (F.hundredths b) ≡ true
  pub hundredths_lt :
      (a b : ℕ) → a + 1 ≤ b → b ≤ 100 → F.lt (F.hundredths a) (F.hundredths b) ≡ true
  -- A sum with a literal, kept at most one, is not below a summand that is at most one.
  pub le_raised :
      (x : F.Value) (a : ℕ)
      → a ≤ 100
      → F.le x (F.hundredths 100) ≡ true
      → F.le x (F.min_of (F.add x (F.hundredths a)) (F.hundredths 100)) ≡ true
  -- A difference with a literal, kept at least at a literal that is not above the number,
  -- is not above the number.
  pub lowered_le :
      (x : F.Value) (a b : ℕ)
      → a ≤ 100
      → b ≤ 100
      → F.le (F.hundredths b) x ≡ true
      → F.le (F.max_of (F.sub x (F.hundredths a)) (F.hundredths b)) x ≡ true
  -- A factor of at most one does not raise a product above the other factor, a positive literal.
  pub mul_le :
      (x : F.Value) (a : ℕ)
      → 1 ≤ a
      → a ≤ 100
      → F.le x (F.hundredths 100) ≡ true
      → F.le (F.mul x (F.hundredths a)) (F.hundredths a) ≡ true

-- Whole hundredths, with products rounded down: floats that meet the laws.
abbrev pub centi : Float
centi = record {
  Value = ℕ;
  le = leb;
  lt = ltb;
  add = λ x y. x + y;
  sub = λ x y. x - y;
  mul = λ x y. x * y / 100;
  div = λ x y. x * 100 / y;
  min_of = min;
  max_of = max;
  hundredths = λ n. n;
  of_u32 = λ n. n * 100;
}

raised_le : (x a : ℕ) → x ≤ 100 → leb x (min (x + a) 100) ≡ true
raised_le x a h = let q : x ≤ min (x + a) 100 = omega arith in ground arith

product_le : (x a : ℕ) → x ≤ 100 → x * a ≤ 100 * a
product_le x a h = grind arith

scaled_le : (x a : ℕ) → x ≤ 100 → leb (x * a / 100) a ≡ true
scaled_le x a h = let p = product_le x a h in let q : x * a / 100 ≤ a = omega arith in ground arith

lowered_under : (x a b : ℕ) → b ≤ x → leb (max (x - a) b) x ≡ true
lowered_under x a b h = let q : max (x - a) b ≤ x = omega arith in ground arith

pub centi-FloatLaws : FloatLaws centi
centi-FloatLaws = record {
  le_trans = λ x y z h k. ground arith;
  lt→le = λ x y h. ground arith;
  le_lt = λ x y z h k. ground arith;
  hundredths_le = λ a b h k. ground arith;
  hundredths_lt = λ a b h k. ground arith;
  le_raised = λ x a k h. raised_le x a (ground arith);
  lowered_le = λ x a b k l h. lowered_under x a b (ground arith);
  mul_le = λ x a k l h. scaled_le x a (ground arith);
}
