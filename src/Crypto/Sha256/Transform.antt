-- ===== src/Crypto/Sha256/Transform.antt =====
-- components/crypto/src/sha256.c, the block function: `sha256_transform` and its macros.
use Prim.Native.Nat.{bit_and, bit_or, bit_xor}
use emberlite.Common.{ℕ, zero, suc, ◌+◌, ◌-◌, ◌*◌, ◌/◌, ◌%◌, ◌^◌, List, [], ◌∷◌, ◌++◌, get_or}

-- `uint32_t state[8]`, and the eight working variables.
pub record Words : Type 0 where
  pub a : ℕ
  pub b : ℕ
  pub c : ℕ
  pub d : ℕ
  pub e : ℕ
  pub f : ℕ
  pub g : ℕ
  pub h : ℕ

abbrev sha256_k : List ℕ
sha256_k =
    0x428a2f98 ∷ 0x71374491 ∷ 0xb5c0fbcf ∷ 0xe9b5dba5 ∷ 0x3956c25b ∷ 0x59f111f1 ∷ 0x923f82a4
    ∷ 0xab1c5ed5 ∷ 0xd807aa98 ∷ 0x12835b01 ∷ 0x243185be ∷ 0x550c7dc3 ∷ 0x72be5d74 ∷ 0x80deb1fe
    ∷ 0x9bdc06a7 ∷ 0xc19bf174 ∷ 0xe49b69c1 ∷ 0xefbe4786 ∷ 0x0fc19dc6 ∷ 0x240ca1cc ∷ 0x2de92c6f
    ∷ 0x4a7484aa ∷ 0x5cb0a9dc ∷ 0x76f988da ∷ 0x983e5152 ∷ 0xa831c66d ∷ 0xb00327c8 ∷ 0xbf597fc7
    ∷ 0xc6e00bf3 ∷ 0xd5a79147 ∷ 0x06ca6351 ∷ 0x14292967 ∷ 0x27b70a85 ∷ 0x2e1b2138 ∷ 0x4d2c6dfc
    ∷ 0x53380d13 ∷ 0x650a7354 ∷ 0x766a0abb ∷ 0x81c2c92e ∷ 0x92722c85 ∷ 0xa2bfe8a1 ∷ 0xa81a664b
    ∷ 0xc24b8b70 ∷ 0xc76c51a3 ∷ 0xd192e819 ∷ 0xd6990624 ∷ 0xf40e3585 ∷ 0x106aa070 ∷ 0x19a4c116
    ∷ 0x1e376c08 ∷ 0x2748774c ∷ 0x34b0bcb5 ∷ 0x391c0cb3 ∷ 0x4ed8aa4a ∷ 0x5b9cca4f ∷ 0x682e6ff3
    ∷ 0x748f82ee ∷ 0x78a5636f ∷ 0x84c87814 ∷ 0x8cc70208 ∷ 0x90befffa ∷ 0xa4506ceb ∷ 0xbef9a3f7
    ∷ 0xc67178f2 ∷ []

-- `~x`, and the rotation macro.
abbrev not32 : ℕ → ℕ
not32 x = 2 ^ 32 - 1 - x

abbrev rotr : ℕ → ℕ → ℕ
rotr x n = bit_or (x / 2 ^ n) (x * 2 ^ (32 - n) % 2 ^ 32)

abbrev ch : ℕ → ℕ → ℕ → ℕ
ch x y z = bit_xor (bit_and x y) (bit_and (not32 x) z)

abbrev maj : ℕ → ℕ → ℕ → ℕ
maj x y z = bit_xor (bit_xor (bit_and x y) (bit_and x z)) (bit_and y z)

abbrev ep0 : ℕ → ℕ
ep0 x = bit_xor (bit_xor (rotr x 2) (rotr x 13)) (rotr x 22)

abbrev ep1 : ℕ → ℕ
ep1 x = bit_xor (bit_xor (rotr x 6) (rotr x 11)) (rotr x 25)

abbrev sig0 : ℕ → ℕ
sig0 x = bit_xor (bit_xor (rotr x 7) (rotr x 18)) (x / 2 ^ 3)

abbrev sig1 : ℕ → ℕ
sig1 x = bit_xor (bit_xor (rotr x 17) (rotr x 19)) (x / 2 ^ 10)

-- The word at byte `4 * i` of the block, highest byte first.
abbrev be_word : List ℕ → ℕ → ℕ
be_word block i =
    bit_or
      (bit_or
        (bit_or (get_or block (i * 4 + 0) 0 * 2 ^ 24 % 2 ^ 32)
          (get_or block (i * 4 + 1) 0 * 2 ^ 16 % 2 ^ 32))
        (get_or block (i * 4 + 2) 0 * 2 ^ 8 % 2 ^ 32))
      (get_or block (i * 4 + 3) 0)

-- The loops that fill `w`, at `i` with `left` rounds to go; `w` holds the words below `i`.
load_words : ℕ → ℕ → List ℕ → List ℕ → List ℕ
load_words zero i block w = w
load_words (suc left) i block w = load_words left (i + 1) block (w ++ be_word block i ∷ [])

extend_words : ℕ → ℕ → List ℕ → List ℕ
extend_words zero i w = w
extend_words (suc left) i w =
    let x =
      (sig1 (get_or w (i - 2) 0)
        + get_or w (i - 7) 0
        + sig0 (get_or w (i - 15) 0)
        + get_or w (i - 16) 0)
      % 2 ^ 32 in
    extend_words left (i + 1) (w ++ x ∷ [])

-- The body of the main loop at `i`.
round : List ℕ → ℕ → Words → Words
round w i s =
    let t1 = (s.h + ep1 s.e + ch s.e s.f s.g + get_or sha256_k i 0 + get_or w i 0) % 2 ^ 32 in
    let t2 = (ep0 s.a + maj s.a s.b s.c) % 2 ^ 32 in
    record {
      a = (t1 + t2) % 2 ^ 32;
      b = s.a;
      c = s.b;
      d = s.c;
      e = (s.d + t1) % 2 ^ 32;
      f = s.e;
      g = s.f;
      h = s.g;
    }

rounds : List ℕ → ℕ → ℕ → Words → Words
unfolding round
rounds w zero i s = s
rounds w (suc left) i s = rounds w left (i + 1) (round w i s)

unfoldable pub transform : Words → List ℕ → Words
unfolding load_words extend_words rounds
transform state block =
    let w = extend_words 48 16 (load_words 16 0 block []) in
    let s = rounds w 64 0 state in
    record {
      a = (state.a + s.a) % 2 ^ 32;
      b = (state.b + s.b) % 2 ^ 32;
      c = (state.c + s.c) % 2 ^ 32;
      d = (state.d + s.d) % 2 ^ 32;
      e = (state.e + s.e) % 2 ^ 32;
      f = (state.f + s.f) % 2 ^ 32;
      g = (state.g + s.g) % 2 ^ 32;
      h = (state.h + s.h) % 2 ^ 32;
    }
