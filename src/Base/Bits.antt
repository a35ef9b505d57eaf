-- ===== src/Base/Bits.antt =====
-- `^` with a single bit, as arithmetic: it moves an aligned number to its neighbour.
use Prim.Native.Nat.{
  ℕ, zero, suc, ◌+◌, ◌-◌, ◌*◌, ◌/◌, ◌%◌, ◌^◌, ◌≤◌, bit_xor, digits, differ, bit_xor-bitwise,
}
use mathlib.Core.Path.{◌≡◌, refl, ap}
use native.Mathlib.Nat.{pow-suc}
use native.Mathlib.Omega.{arith}

abbrev xor_digits : ℕ → ℕ → ℕ → ℕ
xor_digits n a b = digits (λ y. y) differ n a b

-- More fuel than the first number changes nothing.
xor_digits_more : (n m a b : ℕ) → a ≤ n → a ≤ m → xor_digits n a b ≡ xor_digits m a b
xor_digits_more zero zero a b h k = refl
xor_digits_more zero (suc m) zero b h k = refl
xor_digits_more zero (suc m) (suc a) b h k = absurd (omega arith)
xor_digits_more (suc n) zero zero b h k = refl
xor_digits_more (suc n) zero (suc a) b h k = absurd (omega arith)
xor_digits_more (suc n) (suc m) zero b h k = refl
xor_digits_more (suc n) (suc m) (suc a) b h k =
    omega (arith, xor_digits_more n m (suc a / 2) (b / 2) (omega arith) (omega arith))

differ-zero : (b : ℕ) → differ 0 b ≡ b
differ-zero b = refl

xor_lowest : (a b : ℕ) → bit_xor a b ≡ bit_xor (a / 2) (b / 2) * 2 + differ (a % 2) (b % 2)
xor_lowest zero b =
    omega (arith, bit_xor-bitwise 0 b, bit_xor-bitwise 0 (b / 2), differ-zero (b % 2))
xor_lowest (suc a) b = omega (
  arith,
  bit_xor-bitwise (suc a) b,
  bit_xor-bitwise (suc a / 2) (b / 2),
  xor_digits_more a (suc a / 2) (suc a / 2) (b / 2) (omega arith) (omega arith),
)

differ-0-right : (a : ℕ) → differ a 0 ≡ a
differ-0-right zero = refl
differ-0-right (suc a) = refl

xor-0_fuel : (n a : ℕ) → a ≤ n → bit_xor a 0 ≡ a
xor-0_fuel n zero h = omega (arith, bit_xor-bitwise 0 0)
xor-0_fuel zero (suc a) h = absurd (omega arith)
xor-0_fuel (suc n) (suc a) h = omega (
  arith,
  xor_lowest (suc a) 0,
  differ-0-right (suc a % 2),
  xor-0_fuel n (suc a / 2) (omega arith),
)

differ_one : (d : ℕ) → d ≤ 1 → differ d 1 ≡ 1 - d
differ_one zero h = refl
differ_one (suc zero) h = refl
differ_one (suc (suc d)) h = absurd (omega arith)

pub xor_one : (a : ℕ) → bit_xor a 1 ≡ a / 2 * 2 + (1 - a % 2)
xor_one a = omega (
  arith,
  xor_lowest a 1,
  xor-0_fuel (a / 2) (a / 2) (omega arith),
  differ_one (a % 2) (omega arith),
)

twice : (a k : ℕ) → a * 2 ^ suc k ≡ 2 * (a * 2 ^ k)
twice a k = omega (arith, ap (λ (t : ℕ). a * t) (pow-suc 2 k))

xor_even : (a b : ℕ) → bit_xor (2 * a) (2 * b) ≡ 2 * bit_xor a b
xor_even a b = ground (arith, xor_lowest (2 * a) (2 * b), differ-zero 0)

pub xor_pow : (k a : ℕ) → bit_xor (a * 2 ^ k) (2 ^ k) ≡ bit_xor a 1 * 2 ^ k
xor_pow zero a = rw (one a) (omega arith)
  where
    one : (b : ℕ) → b * 1 ≡ b
    one b = omega arith
xor_pow (suc k) a =
    rw (twice a k, twice (bit_xor a 1) k, double)
      (omega (arith, xor_even (a * 2 ^ k) (2 ^ k), xor_pow k a))
  where
    double : 2 ^ suc k ≡ 2 * 2 ^ k
    double = omega (arith, pow-suc 2 k)
