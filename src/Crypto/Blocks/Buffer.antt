-- ===== src/Crypto/Blocks/Buffer.antt =====
-- A buffer of 64 bytes with `n` in use holds the block that is not full yet.
use emberlite.Common.{
  ℕ, ◌+◌, ◌<◌, ◌≡◌, ap, sym, ◌∙◌, arith, List, [], length, take, length-take, take-eq_self, memcpy,
  length-memcpy, take-memcpy,
}
use emberlite.Crypto.Blocks.{absorb_all, absorb_all_piece, absorb_all_block}

module _ {S : Type 0} (compress : S → List ℕ → S) (s : S) (buf : List ℕ) (n : ℕ) (bs : List ℕ)
    (size : length buf ≡ 64) (room : n < 64) where
  length-used : length (take n buf) ≡ n
  length-used = omega (arith, length-take n buf)

  -- Copying a piece that leaves the buffer short of full absorbs it.
  pub absorb_all-copy :
      n + length bs < 64
      → absorb_all compress (s, take n buf) bs ≡ (s, take (n + length bs) (memcpy buf n bs))
  absorb_all-copy h =
      absorb_all_piece compress s (take n buf) bs (omega (arith, length-used))
      ∙ ap (λ q. (s, q)) (sym (take-memcpy buf n bs (omega arith)))

  -- Copying a piece that fills it, and compressing it, absorbs it.
  pub absorb_all-fill :
      n + length bs ≡ 64
      → absorb_all compress (s, take n buf) bs ≡ (compress s (memcpy buf n bs), [])
  absorb_all-fill h =
      absorb_all_block compress s (take n buf) bs (omega (arith, length-used))
        (omega (arith, length-used))
      ∙ ap (λ q. (compress s q, []))
          (sym (take-memcpy buf n bs (omega arith))
            ∙ take-eq_self (n + length bs) (memcpy buf n bs)
                (omega (arith, length-memcpy buf n bs)))
