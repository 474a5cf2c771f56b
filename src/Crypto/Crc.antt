-- ===== src/Crypto/Crc.antt =====
-- components/crypto/src/crc.c: CRC-8, CRC-16-CCITT and CRC-32 by tables of 256 entries, which the
-- first call of an `init` builds. A context is its one field, the register.
pub mod Shift
pub mod Build
pub mod Spec
mod Tests
use emberlite.Common.{
  ℕ, zero, suc, ◌+◌, ◌*◌, ◌/◌, ◌%◌, ◌^◌, bit_and, bit_xor, Bool, true, false, not, List, [], ◌∷◌,
  ◌==◌, if◌then◌else◌, get_or, set,
}

-- `for (int j = 0; j < n; j++) c = f(c);`
abbrev pub iterate : ℕ → (ℕ → ℕ) → ℕ → ℕ
iterate zero f c = c
iterate (suc n) f c = iterate n f (f c)

-- A static table of 256 entries, and the flag `crcN_table_ready`.
pub record Table : Type 0 where
  pub entries : List ℕ
  pub ready : Bool

-- The outer loop of the three builders, at `i` with `left` rounds to go.
pub fill_table : (ℕ → ℕ) → ℕ → ℕ → List ℕ → List ℕ
fill_table entry zero i t = t
fill_table entry (suc left) i t = fill_table entry left (i + 1) (set t i (entry i))

pub ensure_table : (ℕ → ℕ) → Table → Table
unfolding fill_table
ensure_table entry t =
    if not t.ready then record { entries = fill_table entry 256 0 t.entries; ready = true } else t

-- The bodies of the inner loops of the builders.
pub crc8_shift : ℕ → ℕ
crc8_shift c = if not (bit_and c 0x80 == 0) then bit_xor (c * 2) 0x07 % 2 ^ 8 else c * 2 % 2 ^ 8

pub crc16_shift : ℕ → ℕ
crc16_shift c =
    if not (bit_and c 0x8000 == 0) then bit_xor (c * 2) 0x1021 % 2 ^ 16 else c * 2 % 2 ^ 16

pub crc32_shift : ℕ → ℕ
crc32_shift c = if not (bit_and c 1 == 0) then bit_xor (c / 2) 0xEDB88320 else c / 2

-- What the builders store at `i`.
pub crc8_entry : ℕ → ℕ
unfolding crc8_shift
crc8_entry i = iterate 8 crc8_shift (i % 2 ^ 8)

pub crc16_entry : ℕ → ℕ
unfolding crc16_shift
crc16_entry i = iterate 8 crc16_shift (i % 2 ^ 16 * 2 ^ 8 % 2 ^ 16)

pub crc32_entry : ℕ → ℕ
unfolding crc32_shift
crc32_entry i = iterate 8 crc32_shift i

-- The three functions of each checksum: the state is the table and the register.
pub crc8_init : Table → Table × ℕ
crc8_init t = (ensure_table crc8_entry t, 0x00)

pub crc8_update : Table → ℕ → List ℕ → ℕ
crc8_update t c [] = c
crc8_update t c (p ∷ ps) = crc8_update t (get_or t.entries (bit_xor c p) 0) ps

pub crc8_final : ℕ → ℕ
crc8_final c = c

pub crc8_compute : Table → List ℕ → Table × ℕ
unfolding crc8_init crc8_final
crc8_compute t ps = let (t', c) = crc8_init t in (t', crc8_final (crc8_update t' c ps))

pub crc16_init : Table → Table × ℕ
crc16_init t = (ensure_table crc16_entry t, 0xFFFF)

pub crc16_update : Table → ℕ → List ℕ → ℕ
crc16_update t c [] = c
crc16_update t c (p ∷ ps) =
    let entry = get_or t.entries (bit_and (bit_xor (c / 2 ^ 8) p) 0xFF) 0 in
    crc16_update t (bit_xor (c * 2 ^ 8) entry % 2 ^ 16) ps

pub crc16_final : ℕ → ℕ
crc16_final c = c

pub crc16_compute : Table → List ℕ → Table × ℕ
unfolding crc16_init crc16_final
crc16_compute t ps = let (t', c) = crc16_init t in (t', crc16_final (crc16_update t' c ps))

pub crc32_init : Table → Table × ℕ
crc32_init t = (ensure_table crc32_entry t, 0xFFFFFFFF)

pub crc32_update : Table → ℕ → List ℕ → ℕ
crc32_update t c [] = c
crc32_update t c (p ∷ ps) =
    let idx = bit_and (bit_xor c p) 0xFF % 2 ^ 8 in
    crc32_update t (bit_xor (c / 2 ^ 8) (get_or t.entries idx 0)) ps

pub crc32_final : ℕ → ℕ
crc32_final c = bit_xor c 0xFFFFFFFF

pub crc32_compute : Table → List ℕ → Table × ℕ
unfolding crc32_init crc32_final
crc32_compute t ps = let (t', c) = crc32_init t in (t', crc32_final (crc32_update t' c ps))
