-- ===== src/Prelude/Bits.antt =====
-- `|` of fields that do not overlap is their sum.
use Prim.Native.Nat.{ℕ, zero, suc, ◌+◌, ◌*◌, ◌/◌, ◌%◌, ◌^◌, ◌≤◌, ◌<◌, max, bit_or}
use Prim.Native.Nat.{digits, bit_or-bitwise}
use mathlib.Core.Path.{◌≡◌, refl, sym, ap, ◌∙◌}
use Prim.Native.Nat.pow
use native.Mathlib.Omega.{arith}
use native.Mathlib.Nat.{div-div-eq-div-mul}

abbrev or_digits : ℕ → ℕ → ℕ → ℕ
or_digits n a b = digits (λ b. b) max n a b

or_digits_fuel : (n m a b : ℕ) → a ≤ n → a ≤ m → or_digits n a b ≡ or_digits m a b
or_digits_fuel zero zero a b p q = refl
or_digits_fuel zero (suc m) zero b p q = refl
or_digits_fuel zero (suc m) (suc a) b p q = absurd (omega arith)
or_digits_fuel (suc n) zero zero b p q = refl
or_digits_fuel (suc n) zero (suc a) b p q = absurd (omega arith)
or_digits_fuel (suc n) (suc m) zero b p q = refl
or_digits_fuel (suc n) (suc m) (suc a) b p q =
    omega (arith, or_digits_fuel n m (suc a / 2) (b / 2) (omega arith) (omega arith))

zero-bit_or : (b : ℕ) → bit_or 0 b ≡ b
zero-bit_or b = bit_or-bitwise 0 b

bit_or_step : (a b : ℕ) → bit_or a b ≡ bit_or (a / 2) (b / 2) * 2 + max (a % 2) (b % 2)
bit_or_step zero b = omega (arith, zero-bit_or b, zero-bit_or (b / 2))
bit_or_step (suc a) b = omega (
  arith,
  bit_or-bitwise (suc a) b,
  bit_or-bitwise (suc a / 2) (b / 2),
  or_digits_fuel a (suc a / 2) (suc a / 2) (b / 2) (omega arith) (omega arith),
)

half_double : (c : ℕ) → c * 2 / 2 ≡ c
half_double c = omega arith

pow_suc_two : (k : ℕ) → 2 ^ suc k ≡ 2 ^ k * 2
pow_suc_two k = pow.suc 2 k

zero_of_lt_one : (a : ℕ) → a < 1 → a ≡ 0
zero_of_lt_one a h = omega arith

-- A step at an even right side.
bit_or_even : (a c : ℕ) → bit_or a (c * 2) ≡ bit_or (a / 2) c * 2 + a % 2
bit_or_even a c = bit_or_step a (c * 2) ∙ rw (half_double c) (omega arith)

mul_pow_suc : (b k : ℕ) → b * 2 ^ suc k ≡ b * 2 ^ k * 2
mul_pow_suc b k =
    let e : 2 ^ suc k ≡ 2 ^ k * 2 = pow_suc_two k in omega (arith, ap (λ (t : ℕ). b * t) e)

pub bit_or_disjoint : (k a b : ℕ) → a < 2 ^ k → bit_or a (b * 2 ^ k) ≡ a + b * 2 ^ k
bit_or_disjoint zero a b h = rw (zero_of_lt_one a h) (omega (arith, zero-bit_or (b * 1)))
bit_or_disjoint (suc k) a b h =
    rw (mul_pow_suc b k, bit_or_even a (b * 2 ^ k))
      (omega (arith, bit_or_disjoint k (a / 2) b (omega (arith, pow_suc_two k))))

half_bit_or : (a b : ℕ) → bit_or a b / 2 ≡ bit_or (a / 2) (b / 2)
half_bit_or a b = omega (arith, bit_or_step a b)

div_pow_suc : (a i : ℕ) → a / 2 ^ suc i ≡ a / 2 / 2 ^ i
div_pow_suc a i =
    ap (λ (t : ℕ). a / t) (omega (arith, pow_suc_two i)) ∙ sym (div-div-eq-div-mul a 2 (2 ^ i))

-- A bit of `a | b` is set when it is set in one of them.
pub bit_or-bit : (i a b : ℕ) → bit_or a b / 2 ^ i % 2 ≡ max (a / 2 ^ i % 2) (b / 2 ^ i % 2)
bit_or-bit zero a b = omega (arith, bit_or_step a b)
bit_or-bit (suc i) a b =
    rw (div_pow_suc (bit_or a b) i, div_pow_suc a i, div_pow_suc b i, half_bit_or a b)
      (bit_or-bit i (a / 2) (b / 2))
