-- ===== src/Crypto/Blocks.antt =====
-- The specification that md5.c and sha256.c share: a message, cut into blocks of 64 bytes, is
-- compressed block by block into a state.
pub mod Buffer
pub mod Padding
use emberlite.Common.{
  ℕ, zero, suc, ◌+◌, ◌-◌, ◌*◌, ◌/◌, ◌%◌, ◌^◌, ◌≤◌, ◌<◌, ◌≡◌, ◌≢◌, refl, ap, sym, ◌∙◌, arith, List,
  [], ◌∷◌, ◌++◌, append-nil, append_assoc, ◌==◌, if◌then◌else◌, length, take, drop, length-append,
  length-take, length-drop, take-append-drop, eq_nil_of_length,
}

module _ {S : Type 0} (compress : S → List ℕ → S) where
  -- The state, and the bytes of the block that is not full yet.
  unfoldable pub absorb : S × List ℕ → ℕ → S × List ℕ
  absorb (s, p) b = if length p == 63 then (compress s (p ++ b ∷ []), []) else (s, p ++ b ∷ [])

  absorb-short : (s : S) (p : List ℕ) (b : ℕ) → length p < 63 → absorb (s, p) b ≡ (s, p ++ b ∷ [])
  unfolding absorb
  absorb-short s p b h = ground arith

  absorb_last :
      (s : S) (p : List ℕ) (b : ℕ)
      → length p ≡ 63
      → absorb (s, p) b ≡ (compress s (p ++ b ∷ []), [])
  unfolding absorb
  absorb_last s p b h = ground arith

  unfoldable pub absorb_all : S × List ℕ → List ℕ → S × List ℕ
  absorb_all sp [] = sp
  absorb_all sp (b ∷ bs) = absorb_all (absorb sp b) bs

  pub absorb_all-append :
      (sp : S × List ℕ) (xs ys : List ℕ)
      → absorb_all sp (xs ++ ys) ≡ absorb_all (absorb_all sp xs) ys
  unfolding absorb_all
  absorb_all-append sp [] ys = refl
  absorb_all-append sp (x ∷ xs) ys = absorb_all-append (absorb sp x) xs ys

  -- A piece that does not go past the block's end.
  pub absorb_all_piece :
      (s : S) (p bs : List ℕ) → length p + length bs < 64 → absorb_all (s, p) bs ≡ (s, p ++ bs)
  unfolding absorb_all
  absorb_all_piece s p [] h = ap (λ q. (s, q)) (sym (append-nil p))
  absorb_all_piece s p (b ∷ bs) h =
      ap (λ sp. absorb_all sp bs) (absorb-short s p b (omega arith))
      ∙ absorb_all_piece s (p ++ b ∷ []) bs (omega (arith, length-append p (b ∷ [])))
      ∙ ap (λ q. (s, q)) (append_assoc p (b ∷ []) bs)

  -- A piece that reaches it.
  pub absorb_all_block :
      (s : S) (p bs : List ℕ)
      → length p < 64
      → length p + length bs ≡ 64
      → absorb_all (s, p) bs ≡ (compress s (p ++ bs), [])
  unfolding absorb_all
  absorb_all_block s p [] h e = absurd (omega arith)
  absorb_all_block s p (b ∷ []) h e = absorb_last s p b (omega arith)
  absorb_all_block s p (b ∷ c ∷ bs) h e =
      ap (λ sp. absorb_all sp (c ∷ bs)) (absorb-short s p b (omega arith))
      ∙ absorb_all_block s (p ++ b ∷ []) (c ∷ bs) (omega (arith, length-append p (b ∷ [])))
          (omega (arith, length-append p (b ∷ [])))
      ∙ ap (λ q. (compress s q, [])) (append_assoc p (b ∷ []) (c ∷ bs))

  -- `n` blocks, taken whole from the front of the message.
  pub compress_blocks : ℕ → S → List ℕ → S
  compress_blocks zero s m = s
  compress_blocks (suc n) s m = compress_blocks n (compress s (take 64 m)) (drop 64 m)

  pub absorb_all-compress_blocks :
      (n : ℕ) (s : S) (m : List ℕ)
      → length m ≡ n * 64
      → absorb_all (s, []) m ≡ (compress_blocks n s m, [])
  unfolding compress_blocks absorb_all
  absorb_all-compress_blocks zero s m e =
      ap (absorb_all (s, [])) {x = m} {y = []} (eq_nil_of_length m e)
  absorb_all-compress_blocks (suc n) s m e =
      ap (absorb_all (s, [])) (sym (take-append-drop 64 m))
      ∙ absorb_all-append (s, []) (take 64 m) (drop 64 m)
      ∙ ap (λ sp. absorb_all sp (drop 64 m))
          (absorb_all_block s [] (take 64 m) (omega arith) (omega (arith, length-take 64 m)))
      ∙ absorb_all-compress_blocks n (compress s (take 64 m)) (drop 64 m)
          (omega (arith, length-drop 64 m))
