-- ===== src/Base/Word.antt =====
-- Unsigned machine words as native numbers, with the wrap-around written out.
use Prim.Native.Nat.{ℕ, ◌+◌, ◌-◌, ◌*◌, ◌%◌, ◌^◌, ◌<◌, ◌≤◌}
use Prim.Native.Nat.{zero, suc}
use mathlib.Core.Path.{◌≡◌, ap}
use native.Mathlib.Nat.{pow-suc, pow-le-pow_right, add-zero, add-suc, mul-le-mul_right}
use native.Mathlib.Decide.{dec_lt}
use native.Mathlib.Omega.{arith}

abbrev pub u64_mod : ℕ
u64_mod = 2 ^ 64

abbrev pub add64 : ℕ → ℕ → ℕ
add64 a b = (a + b) % 2 ^ 64

-- `-` on ℕ stops at 0, so the modulus comes first; `b` is a word.
abbrev pub sub64 : ℕ → ℕ → ℕ
sub64 a b = (a + 2 ^ 64 - b) % 2 ^ 64

pub sub64-add64 : (a b : ℕ) → a < 2 ^ 64 → b < 2 ^ 64 → sub64 (add64 a b) b ≡ a
sub64-add64 a b h k = omega arith

pub pow_double : (a : ℕ) → 2 ^ suc a ≡ 2 * 2 ^ a
pow_double a = omega (arith, pow-suc 2 a)

pub pow_mono : {a b : ℕ} → a ≤ b → 2 ^ a ≤ 2 ^ b
pow_mono h = pow-le-pow_right (omega arith) h

pub pow_order : (o : ℕ) → o < 11 → 2 ^ o ≤ 1024
pow_order o h = omega (arith, pow_mono {a = o} {b = 10} (omega arith))

pub pow_add : (a k : ℕ) → 2 ^ (a + k) ≡ 2 ^ a * 2 ^ k
pow_add a zero = rw (add-zero a) (omega arith)
pow_add a (suc k) = rw add-suc (
    omega (
      arith,
      pow_double (a + k),
      pow_double k,
      pow_add a k,
      ap (λ (t : ℕ). 2 ^ a * t) (pow_double k),
    ))

-- A multiple of a power of two stays at least that far below a larger multiple.
pub below_multiple : (i b x : ℕ) → i * x < b * x → i * x + x ≤ b * x
below_multiple i b x h = elim (dec_lt i b) [
  | yes k ↦ omega (arith, mul-le-mul_right {m = suc i} {n = b} x k)
  | no k ↦ absurd (omega (arith, mul-le-mul_right {m = b} {n = i} x (omega arith)))
]

pub one-le-pow : (o : ℕ) → 1 ≤ 2 ^ o
one-le-pow o = omega (arith, pow_mono {a = 0} {b = o} (omega arith))
