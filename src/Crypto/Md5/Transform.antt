-- ===== src/Crypto/Md5/Transform.antt =====
-- components/crypto/src/md5.c, the block function: `md5_transform` and its macros.
use Prim.Native.Nat.{bit_and, bit_or, bit_xor}
use emberlite.Common.{ℕ, zero, suc, ◌+◌, ◌-◌, ◌*◌, ◌/◌, ◌%◌, ◌^◌, List, [], ◌∷◌, ◌++◌, get_or}

-- `uint32_t state[4]`, and the four working variables.
pub record Words : Type 0 where
  pub a : ℕ
  pub b : ℕ
  pub c : ℕ
  pub d : ℕ

abbrev not32 : ℕ → ℕ
not32 x = 2 ^ 32 - 1 - x

abbrev rotl : ℕ → ℕ → ℕ
rotl x n = bit_or (x * 2 ^ n % 2 ^ 32) (x / 2 ^ (32 - n))

abbrev md5_f : ℕ → ℕ → ℕ → ℕ
md5_f x y z = bit_or (bit_and x y) (bit_and (not32 x) z)

abbrev md5_g : ℕ → ℕ → ℕ → ℕ
md5_g x y z = bit_or (bit_and x z) (bit_and y (not32 z))

abbrev md5_h : ℕ → ℕ → ℕ → ℕ
md5_h x y z = bit_xor (bit_xor x y) z

abbrev md5_i : ℕ → ℕ → ℕ → ℕ
md5_i x y z = bit_xor y (bit_or x (not32 z))

-- `MD5_STEP(f, a, b, c, d, x, t, s)`. The next line of the source names the variables in the order
-- `d, a, b, c`, so the step leaves them in that order; after four steps each is back in its place.
step : (ℕ → ℕ → ℕ → ℕ) → ℕ → ℕ → ℕ → Words → Words
step f x t s w =
    let sum = (w.a + (f w.b w.c w.d + x + t) % 2 ^ 32) % 2 ^ 32 in
    record { a = w.d; b = (rotl sum s + w.b) % 2 ^ 32; c = w.b; d = w.c }

-- The three arguments of each step that vary in a round: the index of `x`, `t` and `s`.
abbrev round1 : List (ℕ × ℕ × ℕ)
round1 =
    (0, 0xd76aa478, 7)
    ∷ (1, 0xe8c7b756, 12)
    ∷ (2, 0x242070db, 17)
    ∷ (3, 0xc1bdceee, 22)
    ∷ (4, 0xf57c0faf, 7)
    ∷ (5, 0x4787c62a, 12)
    ∷ (6, 0xa8304613, 17)
    ∷ (7, 0xfd469501, 22)
    ∷ (8, 0x698098d8, 7)
    ∷ (9, 0x8b44f7af, 12)
    ∷ (10, 0xffff5bb1, 17)
    ∷ (11, 0x895cd7be, 22)
    ∷ (12, 0x6b901122, 7)
    ∷ (13, 0xfd987193, 12)
    ∷ (14, 0xa679438e, 17)
    ∷ (15, 0x49b40821, 22)
    ∷ []

abbrev round2 : List (ℕ × ℕ × ℕ)
round2 =
    (1, 0xf61e2562, 5)
    ∷ (6, 0xc040b340, 9)
    ∷ (11, 0x265e5a51, 14)
    ∷ (0, 0xe9b6c7aa, 20)
    ∷ (5, 0xd62f105d, 5)
    ∷ (10, 0x02441453, 9)
    ∷ (15, 0xd8a1e681, 14)
    ∷ (4, 0xe7d3fbc8, 20)
    ∷ (9, 0x21e1cde6, 5)
    ∷ (14, 0xc33707d6, 9)
    ∷ (3, 0xf4d50d87, 14)
    ∷ (8, 0x455a14ed, 20)
    ∷ (13, 0xa9e3e905, 5)
    ∷ (2, 0xfcefa3f8, 9)
    ∷ (7, 0x676f02d9, 14)
    ∷ (12, 0x8d2a4c8a, 20)
    ∷ []

abbrev round3 : List (ℕ × ℕ × ℕ)
round3 =
    (5, 0xfffa3942, 4)
    ∷ (8, 0x8771f681, 11)
    ∷ (11, 0x6d9d6122, 16)
    ∷ (14, 0xfde5380c, 23)
    ∷ (1, 0xa4beea44, 4)
    ∷ (4, 0x4bdecfa9, 11)
    ∷ (7, 0xf6bb4b60, 16)
    ∷ (10, 0xbebfbc70, 23)
    ∷ (13, 0x289b7ec6, 4)
    ∷ (0, 0xeaa127fa, 11)
    ∷ (3, 0xd4ef3085, 16)
    ∷ (6, 0x04881d05, 23)
    ∷ (9, 0xd9d4d039, 4)
    ∷ (12, 0xe6db99e5, 11)
    ∷ (15, 0x1fa27cf8, 16)
    ∷ (2, 0xc4ac5665, 23)
    ∷ []

abbrev round4 : List (ℕ × ℕ × ℕ)
round4 =
    (0, 0xf4292244, 6)
    ∷ (7, 0x432aff97, 10)
    ∷ (14, 0xab9423a7, 15)
    ∷ (5, 0xfc93a039, 21)
    ∷ (12, 0x655b59c3, 6)
    ∷ (3, 0x8f0ccc92, 10)
    ∷ (10, 0xffeff47d, 15)
    ∷ (1, 0x85845dd1, 21)
    ∷ (8, 0x6fa87e4f, 6)
    ∷ (15, 0xfe2ce6e0, 10)
    ∷ (6, 0xa3014314, 15)
    ∷ (13, 0x4e0811a1, 21)
    ∷ (4, 0xf7537e82, 6)
    ∷ (11, 0xbd3af235, 10)
    ∷ (2, 0x2ad7d2bb, 15)
    ∷ (9, 0xeb86d391, 21)
    ∷ []

run_round : (ℕ → ℕ → ℕ → ℕ) → List (ℕ × ℕ × ℕ) → List ℕ → Words → Words
unfolding step
run_round f [] x w = w
run_round f ((i, t, s) ∷ steps) x w = run_round f steps x (step f (get_or x i 0) t s w)

-- The word at byte `4 * i` of the block, lowest byte first.
abbrev le_word : List ℕ → ℕ → ℕ
le_word block i =
    bit_or
      (bit_or (bit_or (get_or block (i * 4 + 0) 0) (get_or block (i * 4 + 1) 0 * 2 ^ 8 % 2 ^ 32))
        (get_or block (i * 4 + 2) 0 * 2 ^ 16 % 2 ^ 32))
      (get_or block (i * 4 + 3) 0 * 2 ^ 24 % 2 ^ 32)

-- The loop that fills `x`, at `i` with `left` rounds to go.
load_words : ℕ → ℕ → List ℕ → List ℕ → List ℕ
load_words zero i block x = x
load_words (suc left) i block x = load_words left (i + 1) block (x ++ le_word block i ∷ [])

unfoldable pub transform : Words → List ℕ → Words
unfolding load_words run_round
transform state block =
    let x = load_words 16 0 block [] in
    let w1 = run_round md5_f round1 x state in
    let w2 = run_round md5_g round2 x w1 in
    let w3 = run_round md5_h round3 x w2 in
    let w = run_round md5_i round4 x w3 in
    record {
      a = (state.a + w.a) % 2 ^ 32;
      b = (state.b + w.b) % 2 ^ 32;
      c = (state.c + w.c) % 2 ^ 32;
      d = (state.d + w.d) % 2 ^ 32;
    }
