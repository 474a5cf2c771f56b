-- ===== src/Crypto/Crc/Shift.antt =====
-- One step of the shift registers of crc.c is linear over `^`, and loses nothing.
use emberlite.Common.{
  ℕ, zero, suc, ◌+◌, ◌*◌, ◌/◌, ◌%◌, ◌^◌, ◌<◌, ◌≡◌, refl, ap, ap₂, sym, ◌∙◌, arith, bit_xor,
  bit_and_bit, bit_and-one, bit_xor-mod, bit_xor-bit, bit_xor_four, bit_xor-half, bit_xor-odd,
  bit_xor-shl, bit_xor-lt, eq_of_bit_xor, zero-bit_xor, bit_xor-zero, bit_xor_self,
}
use emberlite.Crypto.Crc.{crc8_shift, crc16_shift, crc32_shift, iterate}

-- `poly` if the bit is set.
abbrev pub pick : ℕ → ℕ → ℕ
pick poly zero = 0
pick poly (suc b) = poly

pick_xor :
    (poly s t : ℕ) → s < 2 → t < 2 → pick poly ((s + t) % 2) ≡ bit_xor (pick poly s) (pick poly t)
pick_xor poly zero zero hs ht = sym (zero-bit_xor 0)
pick_xor poly zero (suc zero) hs ht = sym (zero-bit_xor poly)
pick_xor poly (suc zero) zero hs ht = sym (bit_xor-zero poly)
pick_xor poly (suc zero) (suc zero) hs ht = sym (bit_xor_self poly)
pick_xor poly zero (suc (suc t)) hs ht = absurd (omega arith)
pick_xor poly (suc zero) (suc (suc t)) hs ht = absurd (omega arith)
pick_xor poly (suc (suc s)) t hs ht = absurd (omega arith)

pub crc8_shift_sum : (c : ℕ) → crc8_shift c ≡ bit_xor (c * 2 % 2 ^ 8) (pick 0x07 (c / 2 ^ 7 % 2))
unfolding crc8_shift
crc8_shift_sum c = split (c / 2 ^ 7 % 2) refl
  where
    split : (b : ℕ) → c / 2 ^ 7 % 2 ≡ b → crc8_shift c ≡ bit_xor (c * 2 % 2 ^ 8) (pick 0x07 b)
    split zero e = ground (arith, bit_and_bit 7 c, bit_xor-zero (c * 2 % 2 ^ 8))
    split (suc b) e = ground (arith, bit_and_bit 7 c, bit_xor-mod 8 (c * 2) 0x07)

pub crc16_shift_sum :
    (c : ℕ) → crc16_shift c ≡ bit_xor (c * 2 % 2 ^ 16) (pick 0x1021 (c / 2 ^ 15 % 2))
unfolding crc16_shift
crc16_shift_sum c = split (c / 2 ^ 15 % 2) refl
  where
    split : (b : ℕ) → c / 2 ^ 15 % 2 ≡ b → crc16_shift c ≡ bit_xor (c * 2 % 2 ^ 16) (pick 0x1021 b)
    split zero e = ground (arith, bit_and_bit 15 c, bit_xor-zero (c * 2 % 2 ^ 16))
    split (suc b) e = ground (arith, bit_and_bit 15 c, bit_xor-mod 16 (c * 2) 0x1021)

pub crc32_shift_sum : (c : ℕ) → crc32_shift c ≡ bit_xor (c / 2) (pick 0xEDB88320 (c % 2))
unfolding crc32_shift
crc32_shift_sum c = split (c % 2) refl
  where
    split : (b : ℕ) → c % 2 ≡ b → crc32_shift c ≡ bit_xor (c / 2) (pick 0xEDB88320 b)
    split zero e = ground (arith, bit_and-one c, bit_xor-zero (c / 2))
    split (suc b) e = ground (arith, bit_and-one c)

abbrev pub Linear : (ℕ → ℕ) → Type 0
Linear f = (a b : ℕ) → f (bit_xor a b) ≡ bit_xor (f a) (f b)

-- A step of a register of `w` bits: it is linear, stays in the width, and maps only 0 to 0.
pub record IsRegister (w : ℕ) (f : ℕ → ℕ) : Type 0 where
  pub linear : Linear f
  pub bounded : (c : ℕ) → c < 2 ^ w → f c < 2 ^ w
  pub kernel : (c : ℕ) → c < 2 ^ w → f c ≡ 0 → c ≡ 0

msb-Linear : (k poly : ℕ) → Linear (λ c. bit_xor (c * 2 % 2 ^ suc k) (pick poly (c / 2 ^ k % 2)))
msb-Linear k poly a b =
    ap₂ bit_xor doubled picked
    ∙ bit_xor_four (a * 2 % 2 ^ suc k) (b * 2 % 2 ^ suc k) (pick poly (a / 2 ^ k % 2))
        (pick poly (b / 2 ^ k % 2))
  where
    doubled : bit_xor a b * 2 % 2 ^ suc k ≡ bit_xor (a * 2 % 2 ^ suc k) (b * 2 % 2 ^ suc k)
    doubled =
        ap (λ x. x % 2 ^ suc k) (sym (bit_xor-shl 1 a b)) ∙ bit_xor-mod (suc k) (a * 2) (b * 2)

    picked :
        pick poly (bit_xor a b / 2 ^ k % 2)
        ≡ bit_xor (pick poly (a / 2 ^ k % 2)) (pick poly (b / 2 ^ k % 2))
    picked = ap (pick poly) (bit_xor-bit k a b) ∙ pick_xor poly _ _ (omega arith) (omega arith)

crc32-Linear : Linear (λ c. bit_xor (c / 2) (pick 0xEDB88320 (c % 2)))
crc32-Linear a b =
    ap₂ bit_xor (bit_xor-half a b) picked
    ∙ bit_xor_four (a / 2) (b / 2) (pick 0xEDB88320 (a % 2)) (pick 0xEDB88320 (b % 2))
  where
    picked :
        pick 0xEDB88320 (bit_xor a b % 2)
        ≡ bit_xor (pick 0xEDB88320 (a % 2)) (pick 0xEDB88320 (b % 2))
    picked =
        ap (pick 0xEDB88320) {x = bit_xor a b % 2} {y = (a % 2 + b % 2) % 2}
          (omega (arith, bit_xor-odd a b))
        ∙ pick_xor 0xEDB88320 _ _ (omega arith) (omega arith)

pub crc8_shift-IsRegister : IsRegister 8 crc8_shift
crc8_shift-IsRegister = record {
  linear = λ a b.
      rw (crc8_shift_sum (bit_xor a b), crc8_shift_sum a, crc8_shift_sum b) (msb-Linear 7 0x07 a b);
  bounded = λ c h. unfold crc8_shift in ground arith;
  kernel = λ c h e. split c h (c / 2 ^ 7 % 2) refl (sym (crc8_shift_sum c) ∙ e);
}
  where
    split :
        (c : ℕ)
        → c < 2 ^ 8
        → (b : ℕ) → c / 2 ^ 7 % 2 ≡ b
        → bit_xor (c * 2 % 2 ^ 8) (pick 0x07 b) ≡ 0
        → c ≡ 0
    split c h zero e z = omega (arith, eq_of_bit_xor (c * 2 % 2 ^ 8) 0 z)
    split c h (suc b) e z = omega (arith, eq_of_bit_xor (c * 2 % 2 ^ 8) 0x07 z)

pub crc16_shift-IsRegister : IsRegister 16 crc16_shift
crc16_shift-IsRegister = record {
  linear = λ a b.
      rw (crc16_shift_sum (bit_xor a b), crc16_shift_sum a, crc16_shift_sum b)
        (msb-Linear 15 0x1021 a b);
  bounded = λ c h. unfold crc16_shift in ground arith;
  kernel = λ c h e. split c h (c / 2 ^ 15 % 2) refl (sym (crc16_shift_sum c) ∙ e);
}
  where
    split :
        (c : ℕ)
        → c < 2 ^ 16
        → (b : ℕ) → c / 2 ^ 15 % 2 ≡ b
        → bit_xor (c * 2 % 2 ^ 16) (pick 0x1021 b) ≡ 0
        → c ≡ 0
    split c h zero e z = omega (arith, eq_of_bit_xor (c * 2 % 2 ^ 16) 0 z)
    split c h (suc b) e z = omega (arith, eq_of_bit_xor (c * 2 % 2 ^ 16) 0x1021 z)

pub crc32_shift-IsRegister : IsRegister 32 crc32_shift
crc32_shift-IsRegister = record {
  linear = λ a b.
      rw (crc32_shift_sum (bit_xor a b), crc32_shift_sum a, crc32_shift_sum b) (crc32-Linear a b);
  bounded = λ c h.
      unfold crc32_shift in
      ground (arith, bit_xor-lt 32 (c / 2) 0xEDB88320 (omega arith) (omega arith));
  kernel = λ c h e. split c h (c % 2) refl (sym (crc32_shift_sum c) ∙ e);
}
  where
    split :
        (c : ℕ) → c < 2 ^ 32 → (b : ℕ) → c % 2 ≡ b → bit_xor (c / 2) (pick 0xEDB88320 b) ≡ 0 → c ≡ 0
    split c h zero e z = omega (arith, eq_of_bit_xor (c / 2) 0 z)
    split c h (suc b) e z = omega (arith, eq_of_bit_xor (c / 2) 0xEDB88320 z)

after-IsRegister :
    {w : ℕ} {f g : ℕ → ℕ} → IsRegister w f → IsRegister w g → IsRegister w (λ c. g (f c))
after-IsRegister {f} {g} r s = record {
  linear = λ a b. ap g (r.linear a b) ∙ s.linear (f a) (f b);
  bounded = λ c h. s.bounded (f c) (r.bounded c h);
  kernel = λ c h e. r.kernel c h (s.kernel (f c) (r.bounded c h) e);
}

-- Any number of steps is such a step.
pub iterate-IsRegister : {w : ℕ} {f : ℕ → ℕ} (n : ℕ) → IsRegister w f → IsRegister w (iterate n f)
iterate-IsRegister zero r = record { linear = λ a b. refl; bounded = λ c h. h; kernel = λ c h e. e }
iterate-IsRegister (suc n) r = after-IsRegister r (iterate-IsRegister n r)

-- Hence a register's steps are one to one.
pub IsRegister-injective :
    {w : ℕ} {f : ℕ → ℕ} → IsRegister w f → (a b : ℕ) → a < 2 ^ w → b < 2 ^ w → f a ≡ f b → a ≡ b
IsRegister-injective {w} {f} r a b ha hb e = eq_of_bit_xor a b (
    r.kernel (bit_xor a b) (bit_xor-lt w a b ha hb)
      (r.linear a b ∙ ap (λ x. bit_xor x (f b)) e ∙ bit_xor_self (f b)))
