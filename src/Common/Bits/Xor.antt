-- ===== src/Common/Bits/Xor.antt =====
-- Exclusive or, from the equation for its lowest digit.
use Prim.Native.Nat.{
  ℕ, zero, suc, ◌+◌, ◌*◌, ◌/◌, ◌%◌, ◌^◌, ◌≤◌, ◌<◌, bit_xor, differ, bit_xor-bitwise,
}
use mathlib.Core.Path.{◌≡◌, refl, ap, ap₂, ◌∙◌, sym}
use native.Mathlib.Nat.{pow-suc}
use emberlite.Common.Bits.Digits.{bitwise_lowest}
use emberlite.Common.Bits.Pow.{mod-pow-suc, div-pow-suc}
use native.Mathlib.Omega.{arith}

differ-lem : (x y : ℕ) → x < 2 → y < 2 → differ x y ≡ (x + y) % 2
differ-lem zero y p q = omega arith
differ-lem (suc zero) zero p q = refl
differ-lem (suc zero) (suc zero) p q = refl
differ-lem (suc zero) (suc (suc y)) p q = absurd (omega arith)
differ-lem (suc (suc x)) y p q = absurd (omega arith)

pub zero-bit_xor : (b : ℕ) → bit_xor 0 b ≡ b
zero-bit_xor b = bit_xor-bitwise 0 b

pub bit_xor_step : (a b : ℕ) → bit_xor a b ≡ bit_xor (a / 2) (b / 2) * 2 + (a + b) % 2
bit_xor_step a b = omega (
  arith,
  bit_xor-bitwise a b,
  bit_xor-bitwise (a / 2) (b / 2),
  bitwise_lowest (λ y. y) differ (λ y. omega arith) a b,
  differ-lem (a % 2) (b % 2) (omega arith) (omega arith),
)

pub bit_xor-half : (a b : ℕ) → bit_xor a b / 2 ≡ bit_xor (a / 2) (b / 2)
bit_xor-half a b = omega (arith, bit_xor_step a b)

pub bit_xor-odd : (a b : ℕ) → bit_xor a b % 2 ≡ (a + b) % 2
bit_xor-odd a b = omega (arith, bit_xor_step a b)

-- Two numbers with the same half and the same lowest digit are one.
eq_of_digits : (x y : ℕ) → x / 2 ≡ y / 2 → x % 2 ≡ y % 2 → x ≡ y
eq_of_digits x y p q = omega arith

bit_xor_comm_fuel : (n a b : ℕ) → a + b ≤ n → bit_xor a b ≡ bit_xor b a
bit_xor_comm_fuel zero a b h = ap₂ bit_xor (omega arith) (omega arith)
bit_xor_comm_fuel (suc n) zero zero h = refl
bit_xor_comm_fuel (suc n) zero (suc b) h = omega (
  arith,
  bit_xor_step 0 (suc b),
  bit_xor_step (suc b) 0,
  bit_xor_comm_fuel n 0 (suc b / 2) (omega arith),
)
bit_xor_comm_fuel (suc n) (suc a) b h = omega (
  arith,
  bit_xor_step (suc a) b,
  bit_xor_step b (suc a),
  bit_xor_comm_fuel n (suc a / 2) (b / 2) (omega arith),
)

pub bit_xor_comm : (a b : ℕ) → bit_xor a b ≡ bit_xor b a
bit_xor_comm a b = bit_xor_comm_fuel (a + b) a b (omega arith)

pub bit_xor-zero : (a : ℕ) → bit_xor a 0 ≡ a
bit_xor-zero a = bit_xor_comm a 0 ∙ zero-bit_xor a

bit_xor_assoc_fuel : (n a b c : ℕ) → a ≤ n → bit_xor (bit_xor a b) c ≡ bit_xor a (bit_xor b c)
bit_xor_assoc_fuel n zero b c h =
    ap (λ k. bit_xor k c) (zero-bit_xor b) ∙ sym (zero-bit_xor (bit_xor b c))
bit_xor_assoc_fuel zero (suc a) b c h = absurd (omega arith)
bit_xor_assoc_fuel (suc n) (suc a) b c h = omega (
  arith,
  bit_xor_step (bit_xor (suc a) b) c,
  bit_xor_step (suc a) (bit_xor b c),
  ap (λ k. bit_xor k (c / 2)) (bit_xor-half (suc a) b),
  ap (bit_xor (suc a / 2)) (bit_xor-half b c),
  bit_xor-odd (suc a) b,
  bit_xor-odd b c,
  bit_xor_assoc_fuel n (suc a / 2) (b / 2) (c / 2) (omega arith),
)

pub bit_xor_assoc : (a b c : ℕ) → bit_xor (bit_xor a b) c ≡ bit_xor a (bit_xor b c)
bit_xor_assoc a b c = bit_xor_assoc_fuel a a b c (omega arith)

pub bit_xor-double : (a b : ℕ) → bit_xor (2 * a) (2 * b) ≡ 2 * bit_xor a b
bit_xor-double a b = omega (
  arith,
  bit_xor_step (2 * a) (2 * b),
  ap₂ bit_xor {x = 2 * a / 2} {y = a} {u = 2 * b / 2} {v = b} (omega arith) (omega arith),
)

pub bit_xor-lt : (k a b : ℕ) → a < 2 ^ k → b < 2 ^ k → bit_xor a b < 2 ^ k
bit_xor-lt zero a b p q =
    omega (
      arith,
      ap₂ bit_xor {x = a} {y = 0} {u = b} {v = 0} (omega arith) (omega arith),
      zero-bit_xor 0,
    )
bit_xor-lt (suc k) a b p q = omega (
  arith,
  pow-suc 2 k,
  bit_xor_step a b,
  bit_xor-lt k (a / 2) (b / 2) (omega (arith, pow-suc 2 k)) (omega (arith, pow-suc 2 k)),
)

-- Cutting to `k` bits.
pub bit_xor-mod : (k a b : ℕ) → bit_xor a b % 2 ^ k ≡ bit_xor (a % 2 ^ k) (b % 2 ^ k)
bit_xor-mod zero a b = omega (
  arith,
  ap₂ bit_xor {x = a % 2 ^ 0} {y = 0} {u = b % 2 ^ 0} {v = 0} (omega arith) (omega arith),
  zero-bit_xor 0,
)
bit_xor-mod (suc k) a b = omega (
  arith,
  mod-pow-suc k (bit_xor a b),
  mod-pow-suc k a,
  mod-pow-suc k b,
  bit_xor_step (a % 2 ^ suc k) (b % 2 ^ suc k),
  ap₂ bit_xor {x = a % 2 ^ suc k / 2} {y = a / 2 % 2 ^ k} {u = b % 2 ^ suc k / 2}
      {v = b / 2 % 2 ^ k} (omega (arith, mod-pow-suc k a)) (omega (arith, mod-pow-suc k b)),
  ap (λ x. x % 2 ^ k) (bit_xor-half a b),
  bit_xor-odd a b,
  bit_xor-mod k (a / 2) (b / 2),
)

-- A number is the `^` of its bits from `k` on and its lower bits.
pub bit_xor_fields : (k q r : ℕ) → r < 2 ^ k → bit_xor (q * 2 ^ k) r ≡ q * 2 ^ k + r
bit_xor_fields zero q r h =
    omega (arith, ap (bit_xor (q * 2 ^ 0)) {x = r} {y = 0} (omega arith), bit_xor-zero (q * 2 ^ 0))
bit_xor_fields (suc k) q r h = omega (
  arith,
  double,
  bit_xor_step (q * 2 ^ suc k) r,
  ap (λ x. bit_xor x (r / 2)) {x = q * 2 ^ suc k / 2} {y = q * 2 ^ k} (omega (arith, double)),
  bit_xor_fields k q (r / 2) (omega (arith, pow-suc 2 k)),
)
  where
    double : q * 2 ^ suc k ≡ 2 * (q * 2 ^ k)
    double = omega (arith, ap (λ (t : ℕ). q * t) (pow-suc 2 k))

pub bit_xor-shl : (k a b : ℕ) → bit_xor (a * 2 ^ k) (b * 2 ^ k) ≡ bit_xor a b * 2 ^ k
bit_xor-shl zero a b =
    omega (
      arith,
      ap₂ bit_xor {x = a * 2 ^ 0} {y = a} {u = b * 2 ^ 0} {v = b} (omega arith) (omega arith),
    )
bit_xor-shl (suc k) a b = omega (
  arith,
  double a,
  double b,
  double (bit_xor a b),
  bit_xor-shl k a b,
  bit_xor-double (a * 2 ^ k) (b * 2 ^ k),
  ap₂ bit_xor (double a) (double b),
)
  where
    double : (q : ℕ) → q * 2 ^ suc k ≡ 2 * (q * 2 ^ k)
    double q = omega (arith, ap (λ (t : ℕ). q * t) (pow-suc 2 k))

pub bit_xor-shr : (k a b : ℕ) → bit_xor a b / 2 ^ k ≡ bit_xor (a / 2 ^ k) (b / 2 ^ k)
bit_xor-shr zero a b =
    omega (
      arith,
      ap₂ bit_xor {x = a / 2 ^ 0} {y = a} {u = b / 2 ^ 0} {v = b} (omega arith) (omega arith),
    )
bit_xor-shr (suc k) a b =
    div-pow-suc k (bit_xor a b)
    ∙ ap (λ x. x / 2 ^ k) (bit_xor-half a b)
    ∙ bit_xor-shr k (a / 2) (b / 2)
    ∙ sym (ap₂ bit_xor (div-pow-suc k a) (div-pow-suc k b))

-- Bit `k`.
pub bit_xor-bit : (k a b : ℕ) → bit_xor a b / 2 ^ k % 2 ≡ (a / 2 ^ k % 2 + b / 2 ^ k % 2) % 2
bit_xor-bit k a b =
    omega (arith, ap (λ x. x % 2) (bit_xor-shr k a b), bit_xor-odd (a / 2 ^ k) (b / 2 ^ k))

pub bit_xor_self : (a : ℕ) → bit_xor a a ≡ 0
bit_xor_self a = below a a (omega arith)
  where
    below : (n x : ℕ) → x ≤ n → bit_xor x x ≡ 0
    below zero x h =
        ap₂ bit_xor {x = x} {y = 0} {u = x} {v = 0} (omega arith) (omega arith) ∙ zero-bit_xor 0
    below (suc n) zero h = zero-bit_xor 0
    below (suc n) (suc x) h =
        omega (arith, bit_xor_step (suc x) (suc x), below n (suc x / 2) (omega arith))

pub bit_xor_cancel : (a b : ℕ) → bit_xor (bit_xor a b) b ≡ a
bit_xor_cancel a b = bit_xor_assoc a b b ∙ ap (bit_xor a) (bit_xor_self b) ∙ bit_xor-zero a

pub eq_of_bit_xor : (a b : ℕ) → bit_xor a b ≡ 0 → a ≡ b
eq_of_bit_xor a b h = sym (bit_xor_cancel a b) ∙ ap (λ x. bit_xor x b) h ∙ zero-bit_xor b

-- Two sums of two, regrouped.
pub bit_xor_four :
    (a b c d : ℕ) → bit_xor (bit_xor a b) (bit_xor c d) ≡ bit_xor (bit_xor a c) (bit_xor b d)
bit_xor_four a b c d =
    bit_xor_assoc a b (bit_xor c d)
    ∙ ap (bit_xor a) (sym (bit_xor_assoc b c d))
    ∙ ap (λ x. bit_xor a (bit_xor x d)) (bit_xor_comm b c)
    ∙ ap (bit_xor a) (bit_xor_assoc c b d)
    ∙ sym (bit_xor_assoc a c (bit_xor b d))
