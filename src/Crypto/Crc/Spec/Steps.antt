-- ===== src/Crypto/Crc/Spec/Steps.antt =====
-- One byte through the table is eight steps of the register.
use emberlite.Common.{
  ℕ, ◌*◌, ◌/◌, ◌%◌, ◌^◌, ◌<◌, ◌≡◌, ap, ap₂, sym, ◌∙◌, arith, bit_xor, bit_and, bit_xor-lt,
  bit_xor_assoc, bit_xor_comm, bit_and_mask, bit_xor_fields, bit_xor-shl, bit_xor-mod, bit_xor-shr,
  bit_xor-zero, bit_xor_cancel,
}
use mathlib.Core.Path.{fun_ext}
use native.Mathlib.Nat.{mod-eq_of_lt}
use emberlite.Crypto.Crc.{
  iterate, crc8_shift, crc16_shift, crc32_shift, crc8_entry, crc16_entry, crc32_entry,
}
use emberlite.Crypto.Crc.Spec.{msb_step, lsb_step, crc8_step, crc16_step, crc32_step}
use emberlite.Crypto.Crc.Shift.{
  crc8_shift_sum, crc16_shift_sum, crc32_shift_sum, crc8_shift-IsRegister, IsRegister-injective,
  IsRegister, iterate-IsRegister, crc16_shift-IsRegister, crc32_shift-IsRegister,
}
use emberlite.Crypto.Crc.Spec.Bytes.{crc16_shift-low, crc32_shift-high}

-- A word is its upper part and its lowest byte.
high_low : (x : ℕ) → x ≡ bit_xor (x / 2 ^ 8 * 2 ^ 8) (x % 2 ^ 8)
high_low x = omega (arith, bit_xor_fields 8 (x / 2 ^ 8) (x % 2 ^ 8) (omega arith))

pub crc8_byte : (x : ℕ) → x < 2 ^ 8 → crc8_entry x ≡ iterate 8 crc8_shift x
unfolding crc8_entry
crc8_byte x h = ap (iterate 8 crc8_shift) (mod-eq_of_lt h)

pub crc16_index :
    (c p : ℕ) → c < 2 ^ 16 → p < 256 → bit_and (bit_xor (c / 2 ^ 8) p) 0xFF ≡ bit_xor (c / 2 ^ 8) p
crc16_index c p hc hp =
    bit_and_mask 8 (bit_xor (c / 2 ^ 8) p)
    ∙ mod-eq_of_lt (bit_xor-lt 8 (c / 2 ^ 8) p (omega arith) hp)

pub crc16_byte :
    (c p : ℕ)
    → c < 2 ^ 16
    → p < 256
    → bit_xor (c * 2 ^ 8) (crc16_entry (bit_xor (c / 2 ^ 8) p)) % 2 ^ 16
      ≡ iterate 8 crc16_shift (bit_xor c (p * 2 ^ 8))
crc16_byte c p hc hp =
    bit_xor-mod 16 (c * 2 ^ 8) (crc16_entry idx)
    ∙ ap₂ bit_xor {x = c * 2 ^ 8 % 2 ^ 16} {y = c % 2 ^ 8 * 2 ^ 8} (omega arith) (
        ap (λ e. e % 2 ^ 16) entry_lem
        ∙ mod-eq_of_lt (steps.bounded (idx * 2 ^ 8) (omega (arith, small))))
    ∙ bit_xor_comm (c % 2 ^ 8 * 2 ^ 8) (run (idx * 2 ^ 8))
    ∙ sym (
        ap run regroup
        ∙ steps.linear (idx * 2 ^ 8) (c % 2 ^ 8)
        ∙ ap (bit_xor (run (idx * 2 ^ 8))) (crc16_shift-low 8 (c % 2 ^ 8) (omega arith)))
  where
    run : ℕ → ℕ
    run = iterate 8 crc16_shift

    steps : IsRegister 16 run
    steps = iterate-IsRegister 8 crc16_shift-IsRegister

    idx : ℕ
    idx = bit_xor (c / 2 ^ 8) p

    small : idx < 2 ^ 8
    small = bit_xor-lt 8 (c / 2 ^ 8) p (omega arith) hp

    entry_lem : crc16_entry idx ≡ run (idx * 2 ^ 8)
    entry_lem =
        unfold crc16_entry in ap run {x = idx % 2 ^ 16 * 2 ^ 8 % 2 ^ 16} (omega (arith, small))

    regroup : bit_xor c (p * 2 ^ 8) ≡ bit_xor (idx * 2 ^ 8) (c % 2 ^ 8)
    regroup =
        ap (λ x. bit_xor x (p * 2 ^ 8)) (high_low c)
        ∙ bit_xor_assoc (c / 2 ^ 8 * 2 ^ 8) (c % 2 ^ 8) (p * 2 ^ 8)
        ∙ ap (bit_xor (c / 2 ^ 8 * 2 ^ 8)) (bit_xor_comm (c % 2 ^ 8) (p * 2 ^ 8))
        ∙ sym (bit_xor_assoc (c / 2 ^ 8 * 2 ^ 8) (p * 2 ^ 8) (c % 2 ^ 8))
        ∙ ap (λ x. bit_xor x (c % 2 ^ 8)) (bit_xor-shl 8 (c / 2 ^ 8) p)

pub crc32_index : (x : ℕ) → bit_and x 0xFF % 2 ^ 8 ≡ x % 2 ^ 8
crc32_index x = omega (arith, bit_and_mask 8 x)

pub crc32_byte :
    (c p : ℕ)
    → p < 256
    → bit_xor (c / 2 ^ 8) (crc32_entry (bit_xor c p % 2 ^ 8)) ≡ iterate 8 crc32_shift (bit_xor c p)
unfolding crc32_entry
crc32_byte c p hp = sym (
    ap run (high_low x)
    ∙ steps.linear (x / 2 ^ 8 * 2 ^ 8) (x % 2 ^ 8)
    ∙ ap (λ y. bit_xor y (run (x % 2 ^ 8))) (crc32_shift-high 8 (x / 2 ^ 8) ∙ upper))
  where
    run : ℕ → ℕ
    run = iterate 8 crc32_shift

    steps : IsRegister 32 run
    steps = iterate-IsRegister 8 crc32_shift-IsRegister

    x : ℕ
    x = bit_xor c p

    upper : x / 2 ^ 8 ≡ c / 2 ^ 8
    upper =
        bit_xor-shr 8 c p
        ∙ ap (bit_xor (c / 2 ^ 8)) {x = p / 2 ^ 8} {y = 0} (omega arith)
        ∙ bit_xor-zero (c / 2 ^ 8)

-- The table's registers are those of the polynomials.
msb8 : crc8_shift ≡ msb_step 7 0x07
msb8 = fun_ext crc8_shift_sum

msb16 : crc16_shift ≡ msb_step 15 0x1021
msb16 = fun_ext crc16_shift_sum

lsb32 : crc32_shift ≡ lsb_step 0xEDB88320
lsb32 = fun_ext crc32_shift_sum

pub crc8_step_lem : (c p : ℕ) → crc8_step c p ≡ iterate 8 crc8_shift (bit_xor c p)
unfolding crc8_step
crc8_step_lem c p = ap (λ f. iterate 8 f (bit_xor c p)) (sym msb8)

pub crc16_step_lem : (c p : ℕ) → crc16_step c p ≡ iterate 8 crc16_shift (bit_xor c (p * 2 ^ 8))
unfolding crc16_step
crc16_step_lem c p = ap (λ f. iterate 8 f (bit_xor c (p * 2 ^ 8))) (sym msb16)

pub crc32_step_lem : (c p : ℕ) → crc32_step c p ≡ iterate 8 crc32_shift (bit_xor c p)
unfolding crc32_step
crc32_step_lem c p = ap (λ f. iterate 8 f (bit_xor c p)) (sym lsb32)

-- What the theorems below need of a step on a byte: it stays in `w` bits, and is one to one in the
-- register and in the byte.
pub record IsStep (w : ℕ) (step : ℕ → ℕ → ℕ) : Type 0 where
  pub bounded : (c p : ℕ) → c < 2 ^ w → p < 256 → step c p < 2 ^ w
  pub one_register : (c d p : ℕ) → c < 2 ^ w → d < 2 ^ w → p < 256 → step c p ≡ step d p → c ≡ d
  pub one_byte : (c p q : ℕ) → c < 2 ^ w → p < 256 → q < 256 → step c p ≡ step c q → p ≡ q

bit_xor_cancel_right : (a b c : ℕ) → bit_xor a c ≡ bit_xor b c → a ≡ b
bit_xor_cancel_right a b c e =
    sym (bit_xor_cancel a c) ∙ ap (λ x. bit_xor x c) e ∙ bit_xor_cancel b c

-- A step that adds the byte where `place` puts it, and then moves the register, is one.
IsStep-of_register :
    {w : ℕ} {f : ℕ → ℕ} (place : ℕ → ℕ) {step : ℕ → ℕ → ℕ}
    → IsRegister w f
    → ((p : ℕ) → p < 256 → place p < 2 ^ w)
    → ((p q : ℕ) → place p ≡ place q → p ≡ q)
    → ((c p : ℕ) → step c p ≡ f (bit_xor c (place p)))
    → IsStep w step
IsStep-of_register {w} {f} place {step} r fits one e = record {
  bounded = λ c p hc hp. rw (e c p) (r.bounded _ (bit_xor-lt w c (place p) hc (fits p hp)));
  one_register = λ c d p hc hd hp h. bit_xor_cancel_right c d (place p) (
      IsRegister-injective r _ _ (bit_xor-lt w c (place p) hc (fits p hp))
        (bit_xor-lt w d (place p) hd (fits p hp)) (sym (e c p) ∙ h ∙ e d p));
  one_byte = λ c p q hc hp hq h. one p q (
      bit_xor_cancel_right (place p) (place q) c (
        bit_xor_comm (place p) c
        ∙ IsRegister-injective r _ _ (bit_xor-lt w c (place p) hc (fits p hp))
            (bit_xor-lt w c (place q) hc (fits q hq)) (sym (e c p) ∙ h ∙ e c q)
        ∙ bit_xor_comm c (place q)));
}

pub crc8_step-IsStep : IsStep 8 crc8_step
crc8_step-IsStep =
    IsStep-of_register (λ p. p) (iterate-IsRegister 8 crc8_shift-IsRegister) (λ p h. h) (λ p q e. e)
      crc8_step_lem

pub crc16_step-IsStep : IsStep 16 crc16_step
crc16_step-IsStep =
    IsStep-of_register (λ p. p * 2 ^ 8) (iterate-IsRegister 8 crc16_shift-IsRegister)
      (λ p h. omega arith) (λ p q e. omega arith) crc16_step_lem

pub crc32_step-IsStep : IsStep 32 crc32_step
crc32_step-IsStep =
    IsStep-of_register (λ p. p) (iterate-IsRegister 8 crc32_shift-IsRegister) (λ p h. omega arith)
      (λ p q e. e) crc32_step_lem
