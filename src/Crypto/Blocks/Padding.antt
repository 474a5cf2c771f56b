-- ===== src/Crypto/Blocks/Padding.antt =====
-- The padding of RFC 1321 and FIPS 180-4: a byte 0x80, zeros, and eight bytes for the length, up to
-- the end of a block.
use emberlite.Common.{
  ℕ, ◌+◌, ◌-◌, ◌*◌, ◌/◌, ◌%◌, ◌<◌, ◌≡◌, ap, sym, ◌∙◌, arith, List, [], ◌∷◌, ◌++◌, length, replicate,
  length-append, length-replicate,
}
use emberlite.Crypto.Blocks.{
  absorb, absorb_all, compress_blocks, absorb_all-append, absorb_all-compress_blocks,
}

-- For a message of `n` bytes, whose length is written as `len`.
abbrev pub padding : ℕ → List ℕ → List ℕ
padding n len = 0x80 ∷ (replicate ((119 - n % 64) % 64) 0 ++ len)

pub length-padding :
    (n : ℕ) (len : List ℕ) → length len ≡ 8 → n + length (padding n len) ≡ (n + 72) / 64 * 64
length-padding n len h = omega (
  arith,
  length-append (replicate ((119 - n % 64) % 64) 0) len,
  length-replicate {A = ℕ} ((119 - n % 64) % 64) 0,
)

module _ {S : Type 0} (compress : S → List ℕ → S) where
  -- The state after the padded message.
  abbrev pub hash_state : S → List ℕ → List ℕ → S
  hash_state s m len =
      compress_blocks compress ((length m + 72) / 64) s (m ++ padding (length m) len)

  -- Absorbing the message and then the padding gives it.
  pub absorb_all-padding :
      (s : S) (m len : List ℕ) {sp : S × List ℕ}
      → length len ≡ 8
      → sp ≡ absorb_all compress (s, []) m
      → absorb_all compress sp (padding (length m) len) ≡ (hash_state s m len, [])
  absorb_all-padding s m len h e =
      ap (λ x. absorb_all compress x (padding (length m) len)) e
      ∙ sym (absorb_all-append compress (s, []) m (padding (length m) len))
      ∙ absorb_all-compress_blocks compress ((length m + 72) / 64) s (m ++ padding (length m) len)
          (omega (arith, length-append m (padding (length m) len), length-padding (length m) len h))

  -- The bytes that wait number the length's remainder.
  length-absorb :
      (s : S) (p : List ℕ) (b : ℕ)
      → length p < 64
      → length (absorb compress (s, p) b).1 ≡ (length p + 1) % 64
  unfolding absorb
  length-absorb s p b h = ground (arith, length-append p (b ∷ []))

  pub length-absorb_all :
      (s : S) (p bs : List ℕ)
      → length p < 64
      → length (absorb_all compress (s, p) bs).1 ≡ (length p + length bs) % 64
  unfolding absorb_all
  length-absorb_all s p [] h = omega arith
  length-absorb_all s p (b ∷ bs) h =
      let sp = absorb compress (s, p) b in
      omega (
        arith,
        length-absorb s p b h,
        length-absorb_all sp.0 sp.1 bs (omega (arith, length-absorb s p b h)),
      )
