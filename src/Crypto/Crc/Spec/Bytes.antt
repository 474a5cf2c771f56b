-- ===== src/Crypto/Crc/Spec/Bytes.antt =====
-- How eight steps act on a byte that stands where no bit of it reaches the polynomial.
use emberlite.Common.{ℕ, zero, suc, ◌*◌, ◌^◌, ◌<◌, ◌≡◌, ap, ◌∙◌, arith, bit_and_bit, bit_and-one}
use native.Mathlib.Nat.{pow-suc, one-le-pow}
use emberlite.Crypto.Crc.{crc16_shift, crc32_shift, iterate}

crc16_shift-double : (x : ℕ) → x < 2 ^ 15 → crc16_shift x ≡ x * 2
unfolding crc16_shift
crc16_shift-double x h = ground (arith, bit_and_bit 15 x)

-- A number whose bits stay below the top of the register is only shifted.
pub crc16_shift-low : (n x : ℕ) → x * 2 ^ n < 2 ^ 16 → iterate n crc16_shift x ≡ x * 2 ^ n
crc16_shift-low zero x h = omega arith
crc16_shift-low (suc n) x h =
    ap (iterate n crc16_shift) (crc16_shift-double x small)
    ∙ crc16_shift-low n (x * 2) (omega (arith, split))
    ∙ omega (arith, split)
  where
    split : x * 2 ^ suc n ≡ x * 2 * 2 ^ n
    split = omega (arith, ap (λ (t : ℕ). x * t) (pow-suc 2 n))

    small : x < 2 ^ 15
    small = grind (arith, split, one-le-pow n 2 (omega arith))

crc32_shift-even : (x : ℕ) → crc32_shift (x * 2) ≡ x
unfolding crc32_shift
crc32_shift-even x = ground (arith, bit_and-one (x * 2))

-- Zeros at the bottom of the register are only dropped.
pub crc32_shift-high : (n x : ℕ) → iterate n crc32_shift (x * 2 ^ n) ≡ x
crc32_shift-high zero x = omega arith
crc32_shift-high (suc n) x =
    ap (λ y. iterate n crc32_shift (crc32_shift y)) {x = x * 2 ^ suc n} {y = x * 2 ^ n * 2}
      (omega (arith, ap (λ (t : ℕ). x * t) (pow-suc 2 n)))
    ∙ ap (iterate n crc32_shift) (crc32_shift-even (x * 2 ^ n))
    ∙ crc32_shift-high n x
