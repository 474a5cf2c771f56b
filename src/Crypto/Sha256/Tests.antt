-- ===== src/Crypto/Sha256/Tests.antt =====
-- Runs of sha256.c, and its theorems at inputs.
use emberlite.Common.{arith, ℕ, ◌≡◌, refl, some, List, [], ◌∷◌, replicate}
use emberlite.Crypto.Sha256.{Ctx, compute, transform, init, final}
use emberlite.Crypto.Sha256.Digest.{
  sha256_spec, update_all, compute-eq-sha256_spec, update_all-sha256_spec,
}

abbrev junk : List ℕ
junk = replicate 64 0xAA

-- "abc"
abc_digest :
    compute junk (0x61 ∷ 0x62 ∷ 0x63 ∷ [])
    ≡ some (
        0xba ∷ 0x78 ∷ 0x16 ∷ 0xbf ∷ 0x8f ∷ 0x01 ∷ 0xcf ∷ 0xea ∷ 0x41 ∷ 0x41 ∷ 0x40 ∷ 0xde ∷ 0x5d
        ∷ 0xae ∷ 0x22 ∷ 0x23 ∷ 0xb0 ∷ 0x03 ∷ 0x61 ∷ 0xa3 ∷ 0x96 ∷ 0x17 ∷ 0x7a ∷ 0x9c ∷ 0xb4 ∷ 0x10
        ∷ 0xff ∷ 0x61 ∷ 0xf2 ∷ 0x00 ∷ 0x15 ∷ 0xad ∷ [])
unfolding compute transform
abc_digest = refl

compute-eq-sha256_spec_example :
    compute junk (0x61 ∷ 0x62 ∷ 0x63 ∷ []) ≡ some (sha256_spec (0x61 ∷ 0x62 ∷ 0x63 ∷ []))
compute-eq-sha256_spec_example =
    compute-eq-sha256_spec junk (0x61 ∷ 0x62 ∷ 0x63 ∷ []) refl (omega arith)

update_all-sha256_spec_example :
    (out : Ctx) × (update_all init ((0x61 ∷ []) ∷ [] ∷ (0x62 ∷ 0x63 ∷ []) ∷ []) ≡ some out)
    × ((final junk out).0 ≡ sha256_spec (0x61 ∷ 0x62 ∷ 0x63 ∷ []))
update_all-sha256_spec_example =
    update_all-sha256_spec junk ((0x61 ∷ []) ∷ [] ∷ (0x62 ∷ 0x63 ∷ []) ∷ []) refl (omega arith)
