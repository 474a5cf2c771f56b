-- ===== src/Crypto/Md5.antt =====
-- components/crypto/src/md5.c: the context, and `init`, `update`, `final` and `compute`.
mod Transform
pub mod Stream
pub mod Digest
mod Tests
pub use Transform.{Words}
unfoldable pub use Transform.{transform}
use Prim.Native.Nat.{bit_and}
use emberlite.Common.{
  ℕ, zero, suc, ◌+◌, ◌-◌, ◌*◌, ◌/◌, ◌%◌, ◌^◌, Option, none, some, List, [], ◌∷◌, ◌++◌, ◌==◌, ltb,
  if◌then◌else◌, length, take, drop, replicate, memcpy,
}

-- `ember_crypto_md5_ctx`; `count` is the two words of the bit count, the lower first.
pub record Ctx : Type 0 where
  pub state : Words
  pub count0 : ℕ
  pub count1 : ℕ
  pub buffer : List ℕ

pub init : Ctx
init = record {
  state = record { a = 0x67452301; b = 0xefcdab89; c = 0x98badcfe; d = 0x10325476 };
  count0 = 0;
  count1 = 0;
  buffer = replicate 64 0;
}

-- `(ctx->count[0] >> 3) & 0x3F`
pub index : Ctx → ℕ
index c = bit_and (c.count0 / 2 ^ 3) 0x3F

-- The carry between the words of the count.
pub add_count : Ctx → ℕ → Ctx
add_count c len =
    let low = len * 2 ^ 3 % 2 ^ 64 % 2 ^ 32 in
    let count0' = (c.count0 + low) % 2 ^ 32 in
    let carried = if ltb count0' low then (c.count1 + 1) % 2 ^ 32 else c.count1 in
    record c { count0 = count0'; count1 = (carried + len / 2 ^ 29 % 2 ^ 32) % 2 ^ 32 }

-- The bytes that fit behind the local `idx`: `copy`.
pub piece_len : ℕ → ℕ → ℕ
piece_len idx left = let copy = (64 + 2 ^ 32 - idx) % 2 ^ 32 in if ltb left copy then left else copy

-- What one round of the loop of `update` does with a piece of the input, and the new `idx`.
pub take_piece : Ctx → ℕ → List ℕ → Ctx × ℕ
take_piece c idx piece =
    let buffer' = memcpy c.buffer idx piece in
    let idx' = (idx + length piece) % 2 ^ 32 in
    if idx' == 64
    then (record c { state = transform c.state buffer'; buffer = buffer' }, 0)
    else (record c { buffer = buffer' }, idx')

-- `while (i < len)` over the input from `i` on, with fuel; `none` means that the fuel ran out.
pub update_loop : ℕ → Ctx → ℕ → List ℕ → Option Ctx
unfolding take_piece piece_len
update_loop zero c idx [] = some c
update_loop zero c idx (x ∷ xs) = none
update_loop (suc fuel) c idx [] = some c
update_loop (suc fuel) c idx (x ∷ xs) =
    let copy = piece_len idx (length (x ∷ xs)) in
    let r = take_piece c idx (take copy (x ∷ xs)) in update_loop fuel r.0 r.1 (drop copy (x ∷ xs))

pub update : Ctx → List ℕ → Option Ctx
unfolding update_loop add_count index
update c ps = update_loop (length ps) (add_count c (length ps)) (index c) ps

-- `(uint8_t)((x >> k) & 0xFF)`.
abbrev pub byte_of : ℕ → ℕ → ℕ
byte_of x k = x / 2 ^ k % 2 ^ 8

abbrev pub le_word_bytes : ℕ → List ℕ
le_word_bytes x = byte_of x 0 ∷ byte_of x 8 ∷ byte_of x 16 ∷ byte_of x 24 ∷ []

-- `len_bytes`: the lower word, then the upper.
abbrev pub length_bytes : ℕ → ℕ → List ℕ
length_bytes lo hi = le_word_bytes lo ++ le_word_bytes hi

-- `out_digest`.
pub digest_bytes : Words → List ℕ
digest_bytes s =
    le_word_bytes s.a ++ (le_word_bytes s.b ++ (le_word_bytes s.c ++ le_word_bytes s.d))

-- The first `padlen` bytes of the local `pad`, which are all that `update` reads.
pub pad_bytes : ℕ → List ℕ
pad_bytes idx =
    let padlen = if ltb idx 56 then 56 - idx else 120 - idx in 0x80 ∷ replicate (padlen - 1) 0

infixl 5 ◌>>=◌
abbrev ◌>>=◌ {ℓ κ} : {A : Type ℓ} {B : Type κ} → Option A → (A → Option B) → Option B
none >>= f = none
some a >>= f = f a

-- `none` only where an `update` has run out of fuel.
pub final : Ctx → Option (List ℕ × Ctx)
unfolding update index pad_bytes digest_bytes
final c = do
  padded ← update c (pad_bytes (index c))
  done ← update padded (length_bytes c.count0 c.count1)
  some (digest_bytes done.state, done)

pub compute : List ℕ → Option (List ℕ)
unfolding update final init
compute ps = do c ← update init ps; r ← final c; some r.0
