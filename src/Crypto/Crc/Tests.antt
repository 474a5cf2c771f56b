-- ===== src/Crypto/Crc/Tests.antt =====
-- Runs of crc.c, and its theorems at inputs.
use emberlite.Common.{
  ℕ, ◌/◌, ◌%◌, ◌^◌, ◌≡◌, refl, arith, false, List, [], ◌∷◌, ◌++◌, bit_xor, replicate,
}
use emberlite.Crypto.Crc.{
  Table, ensure_table, crc8_entry, crc16_entry, crc32_entry, crc8_update, crc16_update,
  crc32_update, crc8_compute, crc16_compute, crc32_compute,
}
use emberlite.Crypto.Crc.Build.{IsTable}
use emberlite.Crypto.Crc.Spec.{feed, crc8_step, crc16_step, crc32_step}
use emberlite.Crypto.Crc.Spec.Update.{crc8_compute-feed, crc16_compute-feed, crc32_compute-feed}
use emberlite.Crypto.Crc.Spec.Detect.{crc_detects_byte, crc_residue}

-- A static table before the first `init`.
abbrev unbuilt : Table
unbuilt = record { entries = replicate 256 0; ready = false }

unbuilt-IsTable : (entry : ℕ → ℕ) → IsTable entry unbuilt
unbuilt-IsTable entry = record { size = refl; built = λ e. cc }

-- "123456789"
abbrev digits : List ℕ
digits = 0x31 ∷ 0x32 ∷ 0x33 ∷ 0x34 ∷ 0x35 ∷ 0x36 ∷ 0x37 ∷ 0x38 ∷ 0x39 ∷ []

crc8_check : (crc8_compute unbuilt digits).1 ≡ 0xF4
unfolding crc8_compute crc8_update ensure_table crc8_entry
crc8_check = refl

crc16_check : (crc16_compute unbuilt digits).1 ≡ 0x29B1
unfolding crc16_compute crc16_update ensure_table crc16_entry
crc16_check = refl

crc32_check : (crc32_compute unbuilt digits).1 ≡ 0xCBF43926
unfolding crc32_compute crc32_update ensure_table crc32_entry
crc32_check = refl

crc8_compute-feed_example :
    (crc8_compute unbuilt digits).1 ≡ feed crc8_step 0x00 digits
    × IsTable crc8_entry (crc8_compute unbuilt digits).0
crc8_compute-feed_example = crc8_compute-feed digits (unbuilt-IsTable crc8_entry) (omega arith)

crc16_compute-feed_example :
    (crc16_compute unbuilt digits).1 ≡ feed crc16_step 0xFFFF digits
    × IsTable crc16_entry (crc16_compute unbuilt digits).0
crc16_compute-feed_example = crc16_compute-feed digits (unbuilt-IsTable crc16_entry) (omega arith)

crc32_compute-feed_example :
    (crc32_compute unbuilt digits).1 ≡ bit_xor (feed crc32_step 0xFFFFFFFF digits) 0xFFFFFFFF
    × IsTable crc32_entry (crc32_compute unbuilt digits).0
crc32_compute-feed_example = crc32_compute-feed digits (unbuilt-IsTable crc32_entry) (omega arith)

crc_detects_byte_example :
    ((crc8_compute unbuilt (1 ∷ 2 ∷ 3 ∷ [])).1 ≡ (crc8_compute unbuilt (1 ∷ 7 ∷ 3 ∷ [])).1
      → ◌≡◌ {A = ℕ} 2 7)
    × ((crc16_compute unbuilt (1 ∷ 2 ∷ 3 ∷ [])).1 ≡ (crc16_compute unbuilt (1 ∷ 7 ∷ 3 ∷ [])).1
        → ◌≡◌ {A = ℕ} 2 7)
    × ((crc32_compute unbuilt (1 ∷ 2 ∷ 3 ∷ [])).1 ≡ (crc32_compute unbuilt (1 ∷ 7 ∷ 3 ∷ [])).1
        → ◌≡◌ {A = ℕ} 2 7)
crc_detects_byte_example =
    crc_detects_byte (1 ∷ []) 2 7 (3 ∷ []) (unbuilt-IsTable crc8_entry)
      (unbuilt-IsTable crc16_entry) (unbuilt-IsTable crc32_entry) (omega arith) (omega arith)
      (omega arith) (omega arith)

crc_residue_example :
    ((crc8_compute unbuilt (digits ++ (crc8_compute unbuilt digits).1 ∷ [])).1 ≡ 0)
    × (let c = (crc16_compute unbuilt digits).1 in
        (crc16_compute unbuilt (digits ++ c / 2 ^ 8 ∷ c % 2 ^ 8 ∷ [])).1 ≡ 0)
crc_residue_example =
    crc_residue digits (unbuilt-IsTable crc8_entry) (unbuilt-IsTable crc16_entry) (omega arith)
