-- ===== src/Common/Bits/Pow.antt =====
-- Quotient and remainder by a power of two, digit by digit.
use Prim.Native.Nat.{ℕ, suc, ◌+◌, ◌*◌, ◌/◌, ◌%◌, ◌^◌}
use mathlib.Core.Path.{◌≡◌, ap, ap₂, sym, ◌∙◌}
use native.Mathlib.Nat.{pow-suc, div-add-mod', div-div-eq-div-mul}
use native.Mathlib.Omega.{arith}

pub div-pow-suc : (k a : ℕ) → a / 2 ^ suc k ≡ a / 2 / 2 ^ k
div-pow-suc k a =
    ap (λ d. a / d) {x = 2 ^ suc k} {y = 2 * 2 ^ k} (omega (arith, pow-suc 2 k))
    ∙ sym (div-div-eq-div-mul a 2 (2 ^ k))

pub mod-pow-suc : (k a : ℕ) → a % 2 ^ suc k ≡ 2 * (a / 2 % 2 ^ k) + a % 2
mod-pow-suc k a = omega (
  arith,
  ap₂ ◌*◌ {x = a / 2 ^ suc k} {y = a / 2 / 2 ^ k} {u = 2 ^ suc k} {v = 2 * 2 ^ k} (div-pow-suc k a)
      (omega (arith, pow-suc 2 k)),
  div-add-mod' a (2 ^ suc k),
  div-add-mod' (a / 2) (2 ^ k),
)
