-- ===== src/Crypto/Crc/Spec.antt =====
-- The shift registers that the polynomials of crc.c describe: no table, one bit at a time.
pub mod Update
pub mod Detect
mod Bytes
mod Steps
use emberlite.Common.{ℕ, suc, ◌*◌, ◌/◌, ◌%◌, ◌^◌, ◌<◌, List, [], ◌∷◌, bit_xor, All}
use emberlite.Crypto.Crc.{iterate}
use emberlite.Crypto.Crc.Shift.{pick}

abbrev pub IsBytes : List ℕ → Type 0
IsBytes = All (λ p. p < 256)

-- One bit of polynomial division in `k + 1` bits, highest first.
abbrev pub msb_step : ℕ → ℕ → ℕ → ℕ
msb_step k poly c = bit_xor (c * 2 % 2 ^ suc k) (pick poly (c / 2 ^ k % 2))

-- The same, lowest first.
abbrev pub lsb_step : ℕ → ℕ → ℕ
lsb_step poly c = bit_xor (c / 2) (pick poly (c % 2))

-- A byte is added to the bits that leave first, and eight bits leave.
unfoldable pub crc8_step : ℕ → ℕ → ℕ
crc8_step c p = iterate 8 (msb_step 7 0x07) (bit_xor c p)

unfoldable pub crc16_step : ℕ → ℕ → ℕ
crc16_step c p = iterate 8 (msb_step 15 0x1021) (bit_xor c (p * 2 ^ 8))

unfoldable pub crc32_step : ℕ → ℕ → ℕ
crc32_step c p = iterate 8 (lsb_step 0xEDB88320) (bit_xor c p)

-- The register, fed with bytes.
abbrev pub feed : (ℕ → ℕ → ℕ) → ℕ → List ℕ → ℕ
feed step c [] = c
feed step c (p ∷ ps) = feed step (step c p) ps
