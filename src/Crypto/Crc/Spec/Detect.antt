-- ===== src/Crypto/Crc/Spec/Detect.antt =====
-- Messages that differ in a byte, and messages followed by their checksum, in crc.c.
use emberlite.Common.{
  ℕ, ◌*◌, ◌/◌, ◌%◌, ◌^◌, ◌<◌, ◌≡◌, refl, ap, sym, ◌∙◌, arith, List, [], ◌∷◌, ◌++◌, bit_xor,
  All-append, bit_xor_self, bit_xor_cancel, bit_xor_fields, bit_xor_comm,
}
use emberlite.Crypto.Crc.{
  Table, iterate, crc8_shift, crc16_shift, crc8_entry, crc16_entry, crc32_entry, crc8_compute,
  crc16_compute, crc32_compute,
}
use emberlite.Crypto.Crc.Build.{IsTable}
use emberlite.Crypto.Crc.Spec.{IsBytes, feed, crc8_step, crc16_step}
use emberlite.Crypto.Crc.Spec.Bytes.{crc16_shift-low}
use emberlite.Crypto.Crc.Spec.Steps.{
  IsStep, crc8_step_lem, crc16_step_lem, crc8_step-IsStep, crc16_step-IsStep, crc32_step-IsStep,
}
use emberlite.Crypto.Crc.Spec.Update.{crc8_compute-feed, crc16_compute-feed, crc32_compute-feed}

feed-append :
    (step : ℕ → ℕ → ℕ) (c : ℕ) (xs ys : List ℕ)
    → feed step c (xs ++ ys) ≡ feed step (feed step c xs) ys
feed-append step c [] ys = refl
feed-append step c (x ∷ xs) ys = feed-append step (step c x) xs ys

module _ {w : ℕ} {step : ℕ → ℕ → ℕ} (s : IsStep w step) where
  feed-lt : (c : ℕ) (ps : List ℕ) → c < 2 ^ w → IsBytes ps → feed step c ps < 2 ^ w
  feed-lt c [] hc hp = hc
  feed-lt c (p ∷ ps) hc hp = feed-lt (step c p) ps (s.bounded c p hc hp.0) hp.1

  feed_one_register :
      (c d : ℕ) (ps : List ℕ)
      → c < 2 ^ w
      → d < 2 ^ w
      → IsBytes ps
      → feed step c ps ≡ feed step d ps
      → c ≡ d
  feed_one_register c d [] hc hd hp e = e
  feed_one_register c d (p ∷ ps) hc hd hp e = s.one_register c d p hc hd hp.0 (
      feed_one_register (step c p) (step d p) ps (s.bounded c p hc hp.0) (s.bounded d p hd hp.0)
        hp.1 e)

  -- One byte of a message is determined by the others and the register's end.
  feed_one_byte :
      (c : ℕ) (xs : List ℕ) (p q : ℕ) (ys : List ℕ)
      → c < 2 ^ w
      → IsBytes xs
      → p < 256
      → q < 256
      → IsBytes ys
      → feed step c (xs ++ p ∷ ys) ≡ feed step c (xs ++ q ∷ ys)
      → p ≡ q
  feed_one_byte c [] p q ys hc ha hp hq hb e =
      s.one_byte c p q hc hp hq (
        feed_one_register (step c p) (step c q) ys (s.bounded c p hc hp) (s.bounded c q hc hq) hb e)
  feed_one_byte c (a ∷ xs) p q ys hc ha hp hq hb e =
      feed_one_byte (step c a) xs p q ys (s.bounded c a hc ha.0) ha.1 hp hq hb e

IsBytes-around :
    (xs ys : List ℕ) (p : ℕ) → IsBytes xs → p < 256 → IsBytes ys → IsBytes (xs ++ p ∷ ys)
IsBytes-around xs ys p ha hp hb = All-append _ xs (p ∷ ys) ha (hp, hb)

-- Two messages of bytes that differ in one byte only have different CRC-8, CRC-16 and CRC-32 checksums.
pub crc_detects_byte :
    {t8 t16 t32 : Table} (xs : List ℕ) (p q : ℕ) (ys : List ℕ)
    → IsTable crc8_entry t8
    → IsTable crc16_entry t16
    → IsTable crc32_entry t32
    → IsBytes xs
    → p < 256
    → q < 256
    → IsBytes ys
    → ((crc8_compute t8 (xs ++ p ∷ ys)).1 ≡ (crc8_compute t8 (xs ++ q ∷ ys)).1 → p ≡ q)
      × ((crc16_compute t16 (xs ++ p ∷ ys)).1 ≡ (crc16_compute t16 (xs ++ q ∷ ys)).1 → p ≡ q)
      × ((crc32_compute t32 (xs ++ p ∷ ys)).1 ≡ (crc32_compute t32 (xs ++ q ∷ ys)).1 → p ≡ q)
crc_detects_byte xs p q ys v8 v16 v32 ha hp hq hb = (
  λ e.
      feed_one_byte crc8_step-IsStep 0x00 xs p q ys (omega arith) ha hp hq hb
        (sym (crc8_compute-feed _ v8 mp).0 ∙ e ∙ (crc8_compute-feed _ v8 mq).0),
  λ e.
      feed_one_byte crc16_step-IsStep 0xFFFF xs p q ys (omega arith) ha hp hq hb
        (sym (crc16_compute-feed _ v16 mp).0 ∙ e ∙ (crc16_compute-feed _ v16 mq).0),
  λ e.
      feed_one_byte crc32_step-IsStep 0xFFFFFFFF xs p q ys (omega arith) ha hp hq hb
        (uncomplement (sym (crc32_compute-feed _ v32 mp).0 ∙ e ∙ (crc32_compute-feed _ v32 mq).0)),
)
  where
    mp : IsBytes (xs ++ p ∷ ys)
    mp = IsBytes-around xs ys p ha hp hb

    mq : IsBytes (xs ++ q ∷ ys)
    mq = IsBytes-around xs ys q ha hq hb

    uncomplement : {y z : ℕ} → bit_xor y 0xFFFFFFFF ≡ bit_xor z 0xFFFFFFFF → y ≡ z
    uncomplement {y} {z} e =
        sym (bit_xor_cancel y 0xFFFFFFFF)
        ∙ ap (λ x. bit_xor x 0xFFFFFFFF) e
        ∙ bit_xor_cancel z 0xFFFFFFFF

crc8_step_self : (c : ℕ) → crc8_step c c ≡ 0
unfolding crc8_shift
crc8_step_self c = crc8_step_lem c c ∙ ap (iterate 8 crc8_shift) (bit_xor_self c)

crc16_step_high : (c : ℕ) → c < 2 ^ 16 → crc16_step c (c / 2 ^ 8) ≡ c % 2 ^ 8 * 2 ^ 8
crc16_step_high c h =
    crc16_step_lem c (c / 2 ^ 8)
    ∙ ap (iterate 8 crc16_shift) low
    ∙ crc16_shift-low 8 (c % 2 ^ 8) (omega arith)
  where
    low : bit_xor c (c / 2 ^ 8 * 2 ^ 8) ≡ c % 2 ^ 8
    low =
        ap (λ x. bit_xor x (c / 2 ^ 8 * 2 ^ 8)) {x = c}
          {y = bit_xor (c % 2 ^ 8) (c / 2 ^ 8 * 2 ^ 8)}
          (omega (arith, bit_xor_fields 8 (c / 2 ^ 8) (c % 2 ^ 8) (omega arith))
            ∙ bit_xor_comm (c / 2 ^ 8 * 2 ^ 8) (c % 2 ^ 8))
        ∙ bit_xor_cancel (c % 2 ^ 8) (c / 2 ^ 8 * 2 ^ 8)

crc16_step_low : (b : ℕ) → crc16_step (b * 2 ^ 8) b ≡ 0
unfolding crc16_shift
crc16_step_low b =
    crc16_step_lem (b * 2 ^ 8) b ∙ ap (iterate 8 crc16_shift) (bit_xor_self (b * 2 ^ 8))

-- A message of bytes followed by its CRC-8, or by its CRC-16 with the upper byte first, has the checksum 0.
pub crc_residue :
    {t8 t16 : Table} (ps : List ℕ)
    → IsTable crc8_entry t8
    → IsTable crc16_entry t16
    → IsBytes ps
    → ((crc8_compute t8 (ps ++ (crc8_compute t8 ps).1 ∷ [])).1 ≡ 0)
      × (let c = (crc16_compute t16 ps).1 in
          (crc16_compute t16 (ps ++ c / 2 ^ 8 ∷ c % 2 ^ 8 ∷ [])).1 ≡ 0)
crc_residue {t8} {t16} ps v8 v16 h = (residue8, residue16)
  where
    c8 : ℕ
    c8 = feed crc8_step 0x00 ps

    c16 : ℕ
    c16 = feed crc16_step 0xFFFF ps

    small8 : c8 < 2 ^ 8
    small8 = feed-lt crc8_step-IsStep 0x00 ps (omega arith) h

    small16 : c16 < 2 ^ 16
    small16 = feed-lt crc16_step-IsStep 0xFFFF ps (omega arith) h

    residue8 : (crc8_compute t8 (ps ++ (crc8_compute t8 ps).1 ∷ [])).1 ≡ 0
    residue8 =
        ap (λ c. (crc8_compute t8 (ps ++ c ∷ [])).1) (crc8_compute-feed ps v8 h).0
        ∙ (crc8_compute-feed _ v8 (IsBytes-around ps [] c8 h small8 tt)).0
        ∙ feed-append crc8_step 0x00 ps (c8 ∷ [])
        ∙ crc8_step_self c8

    residue16 :
        let c = (crc16_compute t16 ps).1 in
        (crc16_compute t16 (ps ++ c / 2 ^ 8 ∷ c % 2 ^ 8 ∷ [])).1 ≡ 0
    residue16 =
        ap (λ c. (crc16_compute t16 (ps ++ c / 2 ^ 8 ∷ c % 2 ^ 8 ∷ [])).1)
          (crc16_compute-feed ps v16 h).0
        ∙ (crc16_compute-feed _ v16
            (IsBytes-around ps _ (c16 / 2 ^ 8) h (omega (arith, small16)) (omega arith, tt))).0
        ∙ feed-append crc16_step 0xFFFF ps (c16 / 2 ^ 8 ∷ c16 % 2 ^ 8 ∷ [])
        ∙ ap (λ r. crc16_step r (c16 % 2 ^ 8)) (crc16_step_high c16 small16)
        ∙ crc16_step_low (c16 % 2 ^ 8)
