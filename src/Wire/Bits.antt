-- ===== src/Wire/Bits.antt =====
-- Joining bytes by `|=` and `<<`, in manager/src/WireReader.cpp.
use Prim.Native.Nat.{digits, bit_or-bitwise, max}
use native.Mathlib.Nat.{pow-suc, mod-add-div, div-div-eq-div-mul}
use improved_process_manager.Base.{
  ℕ, zero, suc, ◌+◌, ◌*◌, ◌/◌, ◌%◌, ◌^◌, ◌≤◌, ◌<◌, bit_or, ◌≡◌, refl, ap, arith,
}

abbrev or_digits : ℕ → ℕ → ℕ → ℕ
or_digits n a b = digits (λ b. b) max n a b

or_digits_fuel : (n m a b : ℕ) → a ≤ n → a ≤ m → or_digits n a b ≡ or_digits m a b
or_digits_fuel zero zero a b p q = refl
or_digits_fuel zero (suc m) zero b p q = refl
or_digits_fuel zero (suc m) (suc a) b p q = absurd (omega arith)
or_digits_fuel (suc n) zero zero b p q = refl
or_digits_fuel (suc n) zero (suc a) b p q = absurd (omega arith)
or_digits_fuel (suc n) (suc m) zero b p q = refl
or_digits_fuel (suc n) (suc m) (suc a) b p q =
    omega (arith, or_digits_fuel n m (suc a / 2) (b / 2) (omega arith) (omega arith))

zero-bit_or : (b : ℕ) → bit_or 0 b ≡ b
zero-bit_or b = bit_or-bitwise 0 b

bit_or_step : (a b : ℕ) → bit_or a b ≡ bit_or (a / 2) (b / 2) * 2 + max (a % 2) (b % 2)
bit_or_step zero b = omega (arith, zero-bit_or b, zero-bit_or (b / 2))
bit_or_step (suc a) b = omega (
  arith,
  bit_or-bitwise (suc a) b,
  bit_or-bitwise (suc a / 2) (b / 2),
  or_digits_fuel a (suc a / 2) (suc a / 2) (b / 2) (omega arith) (omega arith),
)

pub bit_or_shifted : (k a b : ℕ) → a < 2 ^ k → bit_or a (b * 2 ^ k) ≡ a + b * 2 ^ k
bit_or_shifted zero a b h =
    let none_below : a ≡ 0 = omega arith in rw none_below (omega (arith, zero-bit_or (b * 2 ^ 0)))
bit_or_shifted (suc k) a b h =
    let doubled : b * 2 ^ suc k ≡ b * (2 ^ k * 2) = ap (λ t. b * t) (pow-suc 2 k) in
    let half : b * 2 ^ suc k / 2 ≡ b * 2 ^ k = omega (arith, doubled) in
    let even : b * 2 ^ suc k % 2 ≡ 0 = omega (arith, doubled) in
    let step : bit_or a (b * 2 ^ suc k) ≡ bit_or (a / 2) (b * 2 ^ k) * 2 + max (a % 2) 0 =
      rw (← half, ← even) (bit_or_step a (b * 2 ^ suc k)) in
    let rest = bit_or_shifted k (a / 2) b (omega (arith, pow-suc 2 k)) in
    omega (arith, doubled, step, rest)

-- One more byte of a word.
pub mod_next_byte : (v m : ℕ) → 0 < m → v % m + v / m % 256 * m ≡ v % (m * 256)
mod_next_byte v m h =
    let high : v / m / 256 ≡ v / (m * 256) = div-div-eq-div-mul v m 256 in
    omega (
      arith,
      high,
      ap (λ t. m * t) high,
      mod-add-div v (m * 256),
      mod-add-div v m,
      ap (λ t. m * t) (mod-add-div (v / m) 256),
    )
