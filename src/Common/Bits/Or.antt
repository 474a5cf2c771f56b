-- ===== src/Common/Bits/Or.antt =====
-- `|` with a bit above the number's digits.
use Prim.Native.Nat.{ℕ, zero, suc, ◌+◌, ◌*◌, ◌/◌, ◌%◌, ◌^◌, ◌<◌, max, bit_or, bit_or-bitwise}
use mathlib.Core.Path.{◌≡◌, ap, ap₂, sym, ◌∙◌}
use native.Mathlib.Nat.{pow-suc}
use emberlite.Common.Bits.Digits.{bitwise_lowest}
use native.Mathlib.Omega.{arith}

bit_or_step : (a b : ℕ) → bit_or a b ≡ bit_or (a / 2) (b / 2) * 2 + max (a % 2) (b % 2)
bit_or_step a b =
    bit_or-bitwise a b
    ∙ bitwise_lowest (λ b. b) max (λ b. omega arith) a b
    ∙ ap (λ d. d * 2 + max (a % 2) (b % 2)) (sym (bit_or-bitwise (a / 2) (b / 2)))

pub bit_or_bit : (k a : ℕ) → a < 2 ^ k → bit_or a (2 ^ k) ≡ a + 2 ^ k
bit_or_bit zero a h = omega (
  arith,
  bit_or_step a (2 ^ 0),
  ap₂ bit_or {x = a / 2} {y = 0} {u = 2 ^ 0 / 2} {v = 0} (omega arith) (omega arith),
  bit_or-bitwise 0 0,
)
bit_or_bit (suc k) a h = omega (
  arith,
  pow-suc 2 k,
  bit_or_step a (2 ^ suc k),
  ap (bit_or (a / 2)) {x = 2 ^ suc k / 2} {y = 2 ^ k} (omega (arith, pow-suc 2 k)),
  bit_or_bit k (a / 2) (omega (arith, pow-suc 2 k)),
)
