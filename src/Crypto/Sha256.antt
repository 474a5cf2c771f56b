-- ===== src/Crypto/Sha256.antt =====
-- components/crypto/src/sha256.c: the context, and `init`, `update`, `final` and `compute`.
mod Transform
pub mod Stream
pub mod Final
pub mod Digest
mod Tests
pub use Transform.{Words}
unfoldable pub use Transform.{transform}
use emberlite.Common.{
  ℕ, zero, suc, ◌+◌, ◌-◌, ◌*◌, ◌/◌, ◌%◌, ◌^◌, Option, none, some, List, [], ◌∷◌, ◌++◌, ◌==◌, ltb,
  leb, if◌then◌else◌, length, take, drop, replicate, memcpy,
}

-- `ember_crypto_sha256_ctx`.
pub record Ctx : Type 0 where
  pub state : Words
  pub bit_count : ℕ
  pub buffer : List ℕ
  pub buffer_len : ℕ

pub init : Ctx
init = record {
  state = record {
    a = 0x6a09e667;
    b = 0xbb67ae85;
    c = 0x3c6ef372;
    d = 0xa54ff53a;
    e = 0x510e527f;
    f = 0x9b05688c;
    g = 0x1f83d9ab;
    h = 0x5be0cd19;
  };
  bit_count = 0;
  buffer = replicate 64 0;
  buffer_len = 0;
}

-- What one round of the loop of `update` does with a piece of the input.
pub take_piece : Ctx → List ℕ → Ctx
take_piece c piece =
    let buffer' = memcpy c.buffer c.buffer_len piece in
    let len' = (c.buffer_len + length piece) % 2 ^ 64 in
    if len' == 64
    then record c { state = transform c.state buffer'; buffer = buffer'; buffer_len = 0 }
    else record c { buffer = buffer'; buffer_len = len' }

-- The bytes that fit: `copy`.
pub piece_len : Ctx → ℕ → ℕ
piece_len c len =
    let space = (64 + 2 ^ 64 - c.buffer_len) % 2 ^ 64 in if ltb len space then len else space

-- `while (len > 0)`, with fuel; `none` means that the fuel ran out.
pub update_loop : ℕ → Ctx → List ℕ → Option Ctx
unfolding take_piece piece_len
update_loop zero c [] = some c
update_loop zero c (x ∷ xs) = none
update_loop (suc fuel) c [] = some c
update_loop (suc fuel) c (x ∷ xs) =
    let copy = piece_len c (length (x ∷ xs)) in
    update_loop fuel (take_piece c (take copy (x ∷ xs))) (drop copy (x ∷ xs))

pub update : Ctx → List ℕ → Option Ctx
unfolding update_loop
update c ps =
    update_loop (length ps)
      (record c { bit_count = (c.bit_count + length ps * 8 % 2 ^ 64) % 2 ^ 64 }) ps

-- `(uint8_t)((x >> k) & 0xFF)`.
abbrev pub byte_of : ℕ → ℕ → ℕ
byte_of x k = x / 2 ^ k % 2 ^ 8

abbrev pub be_word_bytes : ℕ → List ℕ
be_word_bytes x = byte_of x 24 ∷ byte_of x 16 ∷ byte_of x 8 ∷ byte_of x 0 ∷ []

abbrev pub length_bytes : ℕ → List ℕ
length_bytes n =
    byte_of n 56
    ∷ byte_of n 48
    ∷ byte_of n 40
    ∷ byte_of n 32
    ∷ byte_of n 24
    ∷ byte_of n 16
    ∷ byte_of n 8
    ∷ byte_of n 0
    ∷ []

-- `out_digest`.
pub digest_bytes : Words → List ℕ
digest_bytes s =
    be_word_bytes s.a
    ++ (be_word_bytes s.b
        ++ (be_word_bytes s.c
            ++ (be_word_bytes s.d
                ++ (be_word_bytes s.e
                    ++ (be_word_bytes s.f ++ (be_word_bytes s.g ++ be_word_bytes s.h))))))

-- The state behind the padding; `block` is the local array before anything is written to it.
pub final_state : List ℕ → Ctx → Words
final_state block c =
    let block1 = memcpy block 0 (take c.buffer_len c.buffer) in
    let block2 = memcpy block1 c.buffer_len (0x80 ∷ []) in
    let idx = c.buffer_len + 1 in
    let short = memcpy block2 idx (replicate (56 - idx) 0) in
    let long = memcpy block2 idx (replicate (64 - idx) 0) in
    if leb idx 56
    then transform c.state (memcpy short 56 (length_bytes c.bit_count))
    else transform (transform c.state long)
        (memcpy (memcpy long 0 (replicate 56 0)) 56 (length_bytes c.bit_count))

pub final : List ℕ → Ctx → List ℕ × Ctx
unfolding final_state digest_bytes
final block c = let s = final_state block c in (digest_bytes s, record c { state = s })

-- `block` is what the local array of `final` holds at its entry.
pub compute : List ℕ → List ℕ → Option (List ℕ)
unfolding update final init
compute block ps = elim (update init ps) [ none ↦ none | some c ↦ some (final block c).0 ]
