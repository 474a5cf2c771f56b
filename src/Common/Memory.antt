-- ===== src/Common/Memory.antt =====
-- `memcpy` and `memset` on byte arrays.
use Prim.Native.Nat.{ℕ, zero, suc, ◌+◌, ◌≤◌}
use mathlib.Core.Path.{◌≡◌, refl, ap, ◌∙◌}
use mathlib.Core.List.{List, [], ◌∷◌, ◌++◌}
use native.Mathlib.Omega.{arith}
use emberlite.Common.Lists.{length, take}

-- `memcpy(dst + off, src, n)`, where `src` holds the `n` bytes. What would fall behind the end of
-- `dst` is dropped: the callers' theorems show that nothing does.
abbrev pub memcpy {ℓ} : {A : Type ℓ} → List A → ℕ → List A → List A
memcpy [] off src = []
memcpy (d ∷ dst) zero [] = d ∷ dst
memcpy (d ∷ dst) zero (c ∷ src) = c ∷ memcpy dst zero src
memcpy (d ∷ dst) (suc off) src = d ∷ memcpy dst off src

module _ {ℓ} {A : Type ℓ} where
  pub length-memcpy :
      (dst : List A) (off : ℕ) (src : List A) → length (memcpy dst off src) ≡ length dst
  length-memcpy [] off src = refl
  length-memcpy (d ∷ dst) zero [] = refl
  length-memcpy (d ∷ dst) zero (c ∷ src) = ap suc (length-memcpy dst zero src)
  length-memcpy (d ∷ dst) (suc off) src = ap suc (length-memcpy dst off src)

  -- The array up to the end of what was copied.
  pub take-memcpy :
      (dst : List A) (off : ℕ) (src : List A)
      → off + length src ≤ length dst
      → take (off + length src) (memcpy dst off src) ≡ take off dst ++ src
  take-memcpy [] zero [] h = ap (λ n. take n []) {x = 0 + 0} {y = 0} (omega arith)
  take-memcpy [] zero (c ∷ src) h = absurd (omega arith)
  take-memcpy [] (suc off) src h = absurd (omega arith)
  take-memcpy (d ∷ dst) zero [] h = ap (λ n. take n (d ∷ dst)) {x = 0 + 0} {y = 0} (omega arith)
  take-memcpy (d ∷ dst) zero (c ∷ src) h =
      ap (λ n. take n (c ∷ memcpy dst zero src)) {x = 0 + suc (length src)}
        {y = suc (0 + length src)} (omega arith)
      ∙ ap (◌∷◌ c) (take-memcpy dst zero src (omega arith))
  take-memcpy (d ∷ dst) (suc off) src h =
      ap (λ n. take n (d ∷ memcpy dst off src)) {x = suc off + length src}
        {y = suc (off + length src)} (omega arith)
      ∙ ap (◌∷◌ d) (take-memcpy dst off src (omega arith))
