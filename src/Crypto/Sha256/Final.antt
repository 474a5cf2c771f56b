-- ===== src/Crypto/Sha256/Final.antt =====
-- `final` of sha256.c compresses the bytes that wait, followed by the padding.
use emberlite.Common.{
  leb, true, false, ℕ, ◌+◌, ◌-◌, ◌%◌, ◌≤◌, ◌<◌, ◌≡◌, refl, ap, ap₂, sym, ◌∙◌, arith, dec_lt, List,
  [], ◌∷◌, ◌++◌, append_assoc, length, take, replicate, length-append, length-replicate,
  replicate-add, length-take, take-eq_self, memcpy, length-memcpy, take-memcpy,
}
use emberlite.Crypto.Blocks.{absorb_all, absorb_all-append, absorb_all_block}
use emberlite.Crypto.Blocks.Padding.{padding}
use emberlite.Crypto.Sha256.{Ctx, transform, final_state, length_bytes}
use emberlite.Crypto.Sha256.Stream.{IsValid, view}

-- An array that is written up to its end is what was written.
memcpy_to_end :
    (dst : List ℕ) (off : ℕ) (src : List ℕ)
    → length dst ≡ 64
    → off + length src ≡ 64
    → memcpy dst off src ≡ take off dst ++ src
memcpy_to_end dst off src size e =
    sym (
      take-eq_self (off + length src) (memcpy dst off src)
        (omega (arith, length-memcpy dst off src)))
    ∙ take-memcpy dst off src (omega arith)

-- The two blocks that `final` builds, from the bytes that wait.
module _ (block buf : List ℕ) (n : ℕ) (size : length block ≡ 64) (used : length buf ≡ 64)
    (room : n < 64) where
  abbrev marked : List ℕ
  marked = memcpy (memcpy block 0 (take n buf)) n (0x80 ∷ [])

  length-marked : length marked ≡ 64
  length-marked =
      length-memcpy (memcpy block 0 (take n buf)) n (0x80 ∷ [])
      ∙ length-memcpy block 0 (take n buf)
      ∙ size

  take-marked : take (n + 1) marked ≡ take n buf ++ 0x80 ∷ []
  take-marked =
      take-memcpy (memcpy block 0 (take n buf)) n (0x80 ∷ [])
        (omega (arith, length-memcpy block 0 (take n buf), size))
      ∙ ap (λ p. p ++ 0x80 ∷ []) copied
    where
      copied : take n (memcpy block 0 (take n buf)) ≡ take n buf
      copied =
          ap (λ k. take k (memcpy block 0 (take n buf))) {x = n} {y = 0 + length (take n buf)}
            (omega (arith, length-take n buf, used))
          ∙ take-memcpy block 0 (take n buf) (omega (arith, length-take n buf, size))

  -- Zeros up to `m`.
  take_zeroed :
      (m : ℕ)
      → n + 1 ≤ m
      → m ≤ 64
      → take m (memcpy marked (n + 1) (replicate (m - (n + 1)) 0))
        ≡ (take n buf ++ 0x80 ∷ []) ++ replicate (m - (n + 1)) 0
  take_zeroed m low high =
      ap (λ k. take k (memcpy marked (n + 1) zeros)) {x = m} {y = n + 1 + length zeros}
        (omega (arith, length-replicate {A = ℕ} (m - (n + 1)) 0))
      ∙ take-memcpy marked (n + 1) zeros
          (omega (arith, length-marked, length-replicate {A = ℕ} (m - (n + 1)) 0))
      ∙ ap (λ p. p ++ zeros) take-marked
    where
      zeros : List ℕ
      zeros = replicate (m - (n + 1)) 0

  -- Up to 55 bytes wait: they and the padding are one block.
  one_block :
      (len : List ℕ)
      → length len ≡ 8
      → n < 56
      → memcpy (memcpy marked (n + 1) (replicate (56 - (n + 1)) 0)) 56 len
        ≡ take n buf ++ (0x80 ∷ (replicate (55 - n) 0 ++ len))
  one_block len h small =
      memcpy_to_end (memcpy marked (n + 1) (replicate (56 - (n + 1)) 0)) 56 len
        (length-memcpy marked (n + 1) _ ∙ length-marked) (omega (arith, h))
      ∙ ap (λ p. p ++ len) (take_zeroed 56 (omega arith) (omega arith))
      ∙ append_assoc (take n buf ++ 0x80 ∷ []) (replicate (56 - (n + 1)) 0) len
      ∙ append_assoc (take n buf) (0x80 ∷ []) (replicate (56 - (n + 1)) 0 ++ len)
      ∙ ap (λ k. take n buf ++ (0x80 ∷ (replicate k 0 ++ len))) (omega arith)

  -- More wait: they are filled up to a block, and the second block is zeros and the length.
  first_block :
      memcpy marked (n + 1) (replicate (64 - (n + 1)) 0)
      ≡ take n buf ++ (0x80 ∷ replicate (63 - n) 0)
  first_block =
      sym (
        take-eq_self 64 (memcpy marked (n + 1) (replicate (64 - (n + 1)) 0))
          (omega (arith, length-memcpy marked (n + 1) (replicate (64 - (n + 1)) 0), length-marked)))
      ∙ take_zeroed 64 (omega arith) (omega arith)
      ∙ append_assoc (take n buf) (0x80 ∷ []) (replicate (64 - (n + 1)) 0)
      ∙ ap (λ k. take n buf ++ (0x80 ∷ replicate k 0)) (omega arith)

second_block :
    (dst len : List ℕ)
    → length dst ≡ 64
    → length len ≡ 8
    → memcpy (memcpy dst 0 (replicate 56 0)) 56 len ≡ replicate 56 0 ++ len
second_block dst len size h =
    memcpy_to_end (memcpy dst 0 (replicate 56 0)) 56 len
      (length-memcpy dst 0 (replicate 56 0) ∙ size) (omega (arith, h))
    ∙ ap (λ p. p ++ len) (take-memcpy dst 0 (replicate 56 0) (omega (arith, size)))

leb-true : (m n : ℕ) → m ≤ n → leb m n ≡ true
leb-true m n h = ground arith

leb-false : (m n : ℕ) → n < m → leb m n ≡ false
leb-false m n h = ground arith

module _ (block : List ℕ) (c : Ctx) (size : length block ≡ 64) (v : IsValid c) where
  abbrev waiting : List ℕ
  waiting = take c.buffer_len c.buffer

  length-waiting : length waiting ≡ c.buffer_len
  length-waiting = omega (arith, length-take c.buffer_len c.buffer, v.size, v.room)

  abbrev len_bytes : List ℕ
  len_bytes = length_bytes c.bit_count

  final_state_one :
      c.buffer_len < 56
      → final_state block c
        ≡ transform c.state (waiting ++ (0x80 ∷ (replicate (55 - c.buffer_len) 0 ++ len_bytes)))
  unfolding final_state
  final_state_one small = rw (leb-true (c.buffer_len + 1) 56 (omega arith)) (
      ap (transform c.state)
        (one_block block c.buffer c.buffer_len size v.size v.room len_bytes refl small))

  final_state_two :
      56 ≤ c.buffer_len
      → final_state block c
        ≡ transform
            (transform c.state (waiting ++ (0x80 ∷ replicate (63 - c.buffer_len) 0)))
            (replicate 56 0 ++ len_bytes)
  unfolding final_state
  final_state_two big = rw (leb-false (c.buffer_len + 1) 56 (omega arith)) (
      ap₂ (λ x y. transform (transform c.state x) y)
        (first_block block c.buffer c.buffer_len size v.size v.room)
        (second_block _ len_bytes
          (length-memcpy (marked block c.buffer c.buffer_len size v.size v.room) (c.buffer_len + 1)
              _
            ∙ length-marked block c.buffer c.buffer_len size v.size v.room)
          refl))

  -- For a message of `total` bytes, of which those of the last block wait, `final` absorbs the
  -- padding, whatever the local array held.
  pub final_state-absorb :
      (total : ℕ)
      → c.buffer_len ≡ total % 64
      → absorb_all transform (view c) (padding total len_bytes) ≡ (final_state block c, [])
  final_state-absorb total e = elim (dec_lt c.buffer_len 56) [
    | yes small ↦
        ap (λ k. absorb_all transform (view c) (0x80 ∷ (replicate k 0 ++ len_bytes)))
          {x = (119 - total % 64) % 64} {y = 55 - c.buffer_len} (omega arith)
        ∙ absorb_all_block transform c.state waiting _ (omega (arith, length-waiting, v.room)) (
            omega (
              arith,
              length-waiting,
              length-append (replicate (55 - c.buffer_len) 0) len_bytes,
              length-replicate {A = ℕ} (55 - c.buffer_len) 0,
            ))
        ∙ ap (λ s. (s, [])) (sym (final_state_one small))
    | no big ↦
        ap (absorb_all transform (view c)) (split big)
        ∙ absorb_all-append transform (view c) (0x80 ∷ replicate (63 - c.buffer_len) 0) _
        ∙ ap (λ sp. absorb_all transform sp (replicate 56 0 ++ len_bytes))
            (absorb_all_block transform c.state waiting _ (omega (arith, length-waiting, v.room)) (
              omega
                (arith, length-waiting, v.room, length-replicate {A = ℕ} (63 - c.buffer_len) 0)))
        ∙ absorb_all_block transform _ [] _ (omega arith) (omega arith)
        ∙ ap (λ s. (s, [])) (sym (final_state_two (omega arith)))
  ]
    where
      split :
          ¬ (c.buffer_len < 56)
          → padding total len_bytes
            ≡ (0x80 ∷ replicate (63 - c.buffer_len) 0) ++ (replicate 56 0 ++ len_bytes)
      split big =
          ap (λ k. 0x80 ∷ (replicate k 0 ++ len_bytes)) {x = (119 - total % 64) % 64}
            {y = 63 - c.buffer_len + 56} (omega (arith, v.room))
          ∙ ap (λ z. 0x80 ∷ (z ++ len_bytes)) (replicate-add (63 - c.buffer_len) 56 0)
          ∙ ap (◌∷◌ 0x80)
              (append_assoc (replicate (63 - c.buffer_len) 0) (replicate 56 0) len_bytes)
