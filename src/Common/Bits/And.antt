-- ===== src/Common/Bits/And.antt =====
-- `&` with a mask of low ones, and with a single bit.
use Prim.Native.Nat.{
  ℕ, zero, suc, ◌+◌, ◌-◌, ◌*◌, ◌/◌, ◌%◌, ◌^◌, ◌≤◌, ◌<◌, min, bit_and, bit_and-bitwise,
}
use mathlib.Core.Path.{◌≡◌, ap, ap₂, sym, ◌∙◌}
use native.Mathlib.Nat.{pow-suc, one-le-pow}
use emberlite.Common.Bits.Digits.{bitwise_lowest}
use emberlite.Common.Bits.Pow.{mod-pow-suc, div-pow-suc}
use native.Mathlib.Omega.{arith}

pub bit_and_step : (a b : ℕ) → bit_and a b ≡ bit_and (a / 2) (b / 2) * 2 + min (a % 2) (b % 2)
bit_and_step a b =
    bit_and-bitwise a b
    ∙ bitwise_lowest (λ b. zero) min (λ b. omega arith) a b
    ∙ ap (λ d. d * 2 + min (a % 2) (b % 2)) (sym (bit_and-bitwise (a / 2) (b / 2)))

-- A number of `k` digits has no digit in common with 0.
no_digits : (k a : ℕ) → a < 2 ^ k → bit_and a 0 ≡ 0
no_digits zero a small = ap (λ x. bit_and x 0) {x = a} {y = 0} (omega arith)
no_digits (suc k) a small =
    let half = no_digits k (a / 2) (omega (arith, pow-suc 2 k)) in
    omega (arith, half, bit_and_step a 0)

below_pow : (a : ℕ) → a < 2 ^ a
below_pow zero = omega arith
below_pow (suc a) = omega (arith, below_pow a, pow-suc 2 a)

pub bit_and-zero : (a : ℕ) → bit_and a 0 ≡ 0
bit_and-zero a = no_digits a a (below_pow a)

-- `x & 1`.
pub bit_and-one : (a : ℕ) → bit_and a 1 ≡ a % 2
bit_and-one a = omega (arith, bit_and_step a 1, bit_and-zero (a / 2))

pow_pos : (k : ℕ) → 1 ≤ 2 ^ k
pow_pos k = one-le-pow k 2 (omega arith)

-- `x & (2^k - 1)`.
pub bit_and_mask : (k a : ℕ) → bit_and a (2 ^ k - 1) ≡ a % 2 ^ k
bit_and_mask zero a = omega (arith, bit_and-zero a)
bit_and_mask (suc k) a = omega (
  arith,
  pow-suc 2 k,
  pow_pos k,
  bit_and_step a (2 ^ suc k - 1),
  ap (bit_and (a / 2)) {x = (2 ^ suc k - 1) / 2} {y = 2 ^ k - 1}
      (omega (arith, pow-suc 2 k, pow_pos k)),
  bit_and_mask k (a / 2),
  mod-pow-suc k a,
)

-- `x & 2^k`.
pub bit_and_bit : (k a : ℕ) → bit_and a (2 ^ k) ≡ a / 2 ^ k % 2 * 2 ^ k
bit_and_bit zero a = omega (arith, bit_and-one a)
bit_and_bit (suc k) a = omega (
  arith,
  pow-suc 2 k,
  bit_and_step a (2 ^ suc k),
  ap (bit_and (a / 2)) {x = 2 ^ suc k / 2} {y = 2 ^ k} (omega (arith, pow-suc 2 k)),
  bit_and_bit k (a / 2),
  ap₂ ◌*◌ {x = a / 2 ^ suc k % 2} {y = a / 2 / 2 ^ k % 2} {u = 2 ^ suc k} {v = 2 * 2 ^ k}
      (ap (λ q. q % 2) (div-pow-suc k a)) (omega (arith, pow-suc 2 k)),
)
