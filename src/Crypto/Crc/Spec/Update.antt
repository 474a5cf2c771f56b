-- ===== src/Crypto/Crc/Spec/Update.antt =====
-- The checksums of crc.c against the registers.
use emberlite.Common.{
  ℕ, ◌*◌, ◌/◌, ◌%◌, ◌^◌, ◌<◌, ◌≡◌, refl, ap, sym, ◌∙◌, arith, true, List, [], ◌∷◌, bit_xor, bit_and,
  bit_xor-lt, get_or,
}
use emberlite.Crypto.Crc.{
  Table, crc8_entry, crc16_entry, crc32_entry, crc8_update, crc16_update, crc32_update,
  crc8_compute, crc16_compute, crc32_compute,
}
use emberlite.Crypto.Crc.Build.{IsTable, ensure_table-IsTable}
use emberlite.Crypto.Crc.Spec.{IsBytes, feed, crc8_step, crc16_step, crc32_step}
use emberlite.Crypto.Crc.Spec.Steps.{
  crc8_byte, crc16_index, crc16_byte, crc32_index, crc32_byte, crc8_step_lem, crc16_step_lem,
  crc32_step_lem, crc8_step-IsStep, crc16_step-IsStep, crc32_step-IsStep,
}

module _ {t : Table} (v : IsTable crc8_entry t) (up : t.ready ≡ true) where
  pub crc8_update-feed :
      (c : ℕ) (ps : List ℕ) → c < 2 ^ 8 → IsBytes ps → crc8_update t c ps ≡ feed crc8_step c ps
  unfolding crc8_update
  crc8_update-feed c [] hc hp = refl
  crc8_update-feed c (p ∷ ps) hc hp =
      ap (λ x. crc8_update t x ps) one
      ∙ crc8_update-feed (crc8_step c p) ps (crc8_step-IsStep.bounded c p hc hp.0) hp.1
    where
      one : get_or t.entries (bit_xor c p) 0 ≡ crc8_step c p
      one =
          v.built up (bit_xor c p) (bit_xor-lt 8 c p hc hp.0)
          ∙ crc8_byte (bit_xor c p) (bit_xor-lt 8 c p hc hp.0)
          ∙ sym (crc8_step_lem c p)

module _ {t : Table} (v : IsTable crc16_entry t) (up : t.ready ≡ true) where
  pub crc16_update-feed :
      (c : ℕ) (ps : List ℕ) → c < 2 ^ 16 → IsBytes ps → crc16_update t c ps ≡ feed crc16_step c ps
  unfolding crc16_update
  crc16_update-feed c [] hc hp = refl
  crc16_update-feed c (p ∷ ps) hc hp =
      ap (λ x. crc16_update t x ps) one
      ∙ crc16_update-feed (crc16_step c p) ps (crc16_step-IsStep.bounded c p hc hp.0) hp.1
    where
      one :
          bit_xor (c * 2 ^ 8) (get_or t.entries (bit_and (bit_xor (c / 2 ^ 8) p) 0xFF) 0) % 2 ^ 16
          ≡ crc16_step c p
      one =
          ap (λ i. bit_xor (c * 2 ^ 8) (get_or t.entries i 0) % 2 ^ 16) (crc16_index c p hc hp.0)
          ∙ ap (λ e. bit_xor (c * 2 ^ 8) e % 2 ^ 16)
              (v.built up _ (bit_xor-lt 8 (c / 2 ^ 8) p (omega arith) hp.0))
          ∙ crc16_byte c p hc hp.0
          ∙ sym (crc16_step_lem c p)

module _ {t : Table} (v : IsTable crc32_entry t) (up : t.ready ≡ true) where
  pub crc32_update-feed :
      (c : ℕ) (ps : List ℕ) → c < 2 ^ 32 → IsBytes ps → crc32_update t c ps ≡ feed crc32_step c ps
  unfolding crc32_update
  crc32_update-feed c [] hc hp = refl
  crc32_update-feed c (p ∷ ps) hc hp =
      ap (λ x. crc32_update t x ps) one
      ∙ crc32_update-feed (crc32_step c p) ps (crc32_step-IsStep.bounded c p hc hp.0) hp.1
    where
      one :
          bit_xor (c / 2 ^ 8) (get_or t.entries (bit_and (bit_xor c p) 0xFF % 2 ^ 8) 0)
          ≡ crc32_step c p
      one =
          ap (λ i. bit_xor (c / 2 ^ 8) (get_or t.entries i 0)) (crc32_index (bit_xor c p))
          ∙ ap (bit_xor (c / 2 ^ 8)) (v.built up (bit_xor c p % 2 ^ 8) (omega arith))
          ∙ crc32_byte c p hp.0
          ∙ sym (crc32_step_lem c p)

-- `ember_crypto_crc8_compute` of a message of bytes, whether or not the table is built yet, leaves it
-- built and returns the 8-bit register of polynomial 0x07 that starts at 0 and is fed with the message.
pub crc8_compute-feed :
    {t : Table} (ps : List ℕ)
    → IsTable crc8_entry t
    → IsBytes ps
    → (crc8_compute t ps).1 ≡ feed crc8_step 0x00 ps × IsTable crc8_entry (crc8_compute t ps).0
unfolding crc8_compute
crc8_compute-feed ps v h =
    let (v', up) = ensure_table-IsTable crc8_entry v in
    (crc8_update-feed v' up 0x00 ps (omega arith) h, v')

-- `ember_crypto_crc16_compute` of a message of bytes, whether or not the table is built yet, leaves it
-- built and returns the 16-bit register of polynomial 0x1021 that starts at 0xFFFF and is fed with it.
pub crc16_compute-feed :
    {t : Table} (ps : List ℕ)
    → IsTable crc16_entry t
    → IsBytes ps
    → (crc16_compute t ps).1 ≡ feed crc16_step 0xFFFF ps
      × IsTable crc16_entry (crc16_compute t ps).0
unfolding crc16_compute
crc16_compute-feed ps v h =
    let (v', up) = ensure_table-IsTable crc16_entry v in
    (crc16_update-feed v' up 0xFFFF ps (omega arith) h, v')

-- `ember_crypto_crc32_compute` of a message of bytes, whether or not the table is built yet, leaves it
-- built and returns the complement of the reflected 32-bit register of polynomial 0xEDB88320 that
-- starts at 0xFFFFFFFF and is fed with it.
pub crc32_compute-feed :
    {t : Table} (ps : List ℕ)
    → IsTable crc32_entry t
    → IsBytes ps
    → (crc32_compute t ps).1 ≡ bit_xor (feed crc32_step 0xFFFFFFFF ps) 0xFFFFFFFF
      × IsTable crc32_entry (crc32_compute t ps).0
unfolding crc32_compute
crc32_compute-feed ps v h =
    let (v', up) = ensure_table-IsTable crc32_entry v in
    (ap (λ c. bit_xor c 0xFFFFFFFF) (crc32_update-feed v' up 0xFFFFFFFF ps (omega arith) h), v')
