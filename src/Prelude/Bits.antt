-- ===== src/Prelude/Bits.antt =====
-- `|` on numbers whose set bits do not overlap.
use Prim.Native.Nat.{bit_or, digits, bit_or-bitwise}
use native.Mathlib.Nat.{pow-suc}
use cae_openusd_plugins.Prelude.{
  ℕ, zero, suc, ◌+◌, ◌*◌, ◌/◌, ◌%◌, ◌^◌, ◌≤◌, ◌<◌, max, ◌≡◌, refl, ap, arith,
}

abbrev or_digits : ℕ → ℕ → ℕ → ℕ
or_digits n a b = digits (λ b. b) max n a b

zero-bit_or : (b : ℕ) → bit_or 0 b ≡ b
zero-bit_or b = bit_or-bitwise 0 b

or_digits_fuel : (n m a b : ℕ) → a ≤ n → a ≤ m → or_digits n a b ≡ or_digits m a b
or_digits_fuel zero zero a b p q = refl
or_digits_fuel zero (suc m) zero b p q = refl
or_digits_fuel zero (suc m) (suc a) b p q = absurd (omega arith)
or_digits_fuel (suc n) zero zero b p q = refl
or_digits_fuel (suc n) zero (suc a) b p q = absurd (omega arith)
or_digits_fuel (suc n) (suc m) zero b p q = refl
or_digits_fuel (suc n) (suc m) (suc a) b p q =
    omega (arith, or_digits_fuel n m (suc a / 2) (b / 2) (omega arith) (omega arith))

bit_or_step : (a b : ℕ) → bit_or a b ≡ bit_or (a / 2) (b / 2) * 2 + max (a % 2) (b % 2)
bit_or_step zero b = omega (arith, zero-bit_or b, zero-bit_or (b / 2))
bit_or_step (suc a) b = omega (
  arith,
  bit_or-bitwise (suc a) b,
  bit_or-bitwise (suc a / 2) (b / 2),
  or_digits_fuel a (suc a / 2) (suc a / 2) (b / 2) (omega arith) (omega arith),
)

bit_or-zero_fuel : (n a : ℕ) → a ≤ n → bit_or a 0 ≡ a
bit_or-zero_fuel n zero h = refl
bit_or-zero_fuel zero (suc a) h = absurd (omega arith)
bit_or-zero_fuel (suc n) (suc a) h =
    omega (arith, bit_or_step (suc a) 0, bit_or-zero_fuel n (suc a / 2) (omega arith))

double-bit_or : (a b : ℕ) → bit_or (2 * a) b ≡ 2 * bit_or a (b / 2) + b % 2
double-bit_or a b =
    let half : (2 * a) / 2 ≡ a = omega arith in
    omega (arith, bit_or_step (2 * a) b, ap (λ x. bit_or x (b / 2)) half)

pub shift-bit_or : (k a b : ℕ) → b < 2 ^ k → bit_or (2 ^ k * a) b ≡ 2 ^ k * a + b
shift-bit_or zero a b h =
    let z : b ≡ 0 = omega arith in
    omega (arith, ap (λ x. bit_or (1 * a) x) z, bit_or-zero_fuel (1 * a) (1 * a) (omega arith))
shift-bit_or (suc k) a b h =
    let e : 2 ^ suc k * a ≡ 2 * (2 ^ k * a) = omega (arith, ap (λ (t : ℕ). t * a) (pow-suc 2 k)) in
    let below : b / 2 < 2 ^ k = omega (arith, pow-suc 2 k) in
    omega (
      arith,
      ap (λ x. bit_or x b) e,
      double-bit_or (2 ^ k * a) b,
      shift-bit_or k a (b / 2) below,
      e,
    )

-- The same with the low bits first.
bit_or-double : (a b : ℕ) → bit_or a (2 * b) ≡ 2 * bit_or (a / 2) b + a % 2
bit_or-double a b =
    let half : (2 * b) / 2 ≡ b = omega arith in
    omega (arith, bit_or_step a (2 * b), ap (λ x. bit_or (a / 2) x) half)

pub bit_or-shift : (k a b : ℕ) → a < 2 ^ k → bit_or a (2 ^ k * b) ≡ a + 2 ^ k * b
bit_or-shift zero a b h =
    let z : a ≡ 0 = omega arith in omega (arith, ap (λ x. bit_or x (1 * b)) z, zero-bit_or (1 * b))
bit_or-shift (suc k) a b h =
    let e : 2 ^ suc k * b ≡ 2 * (2 ^ k * b) = omega (arith, ap (λ (t : ℕ). t * b) (pow-suc 2 k)) in
    let below : a / 2 < 2 ^ k = omega (arith, pow-suc 2 k) in
    omega (
      arith,
      ap (λ x. bit_or a x) e,
      bit_or-double a (2 ^ k * b),
      bit_or-shift k (a / 2) b below,
      e,
    )

-- The form that a caller needs: the high part is a multiple of 2 ^ k.
pub bit_or_sum : (k m x y : ℕ) → x ≡ 2 ^ k * m → y < 2 ^ k → bit_or x y ≡ x + y
bit_or_sum k m x y e h = rw e (shift-bit_or k m y h)
