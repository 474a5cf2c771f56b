-- ===== src/Crypto/Md5/Tests.antt =====
-- Runs of md5.c, and its theorems at inputs.
use emberlite.Common.{◌≡◌, refl, some, [], ◌∷◌, arith}
use emberlite.Crypto.Md5.{Ctx, compute, transform, init, final}
use emberlite.Crypto.Md5.Digest.{md5_spec, update_all, compute-eq-md5_spec, update_all-md5_spec}

-- "abc"
abc_digest :
    compute (0x61 ∷ 0x62 ∷ 0x63 ∷ [])
    ≡ some (
        0x90 ∷ 0x01 ∷ 0x50 ∷ 0x98 ∷ 0x3c ∷ 0xd2 ∷ 0x4f ∷ 0xb0 ∷ 0xd6 ∷ 0x96 ∷ 0x3f ∷ 0x7d ∷ 0x28
        ∷ 0xe1 ∷ 0x7f ∷ 0x72 ∷ [])
unfolding compute transform
abc_digest = refl

compute-eq-md5_spec_example :
    compute (0x61 ∷ 0x62 ∷ 0x63 ∷ []) ≡ some (md5_spec (0x61 ∷ 0x62 ∷ 0x63 ∷ []))
compute-eq-md5_spec_example = compute-eq-md5_spec (0x61 ∷ 0x62 ∷ 0x63 ∷ []) (omega arith)

update_all-md5_spec_example :
    (c out : Ctx) × (update_all init ((0x61 ∷ []) ∷ [] ∷ (0x62 ∷ 0x63 ∷ []) ∷ []) ≡ some c)
    × (final c ≡ some (md5_spec (0x61 ∷ 0x62 ∷ 0x63 ∷ []), out))
update_all-md5_spec_example =
    update_all-md5_spec ((0x61 ∷ []) ∷ [] ∷ (0x62 ∷ 0x63 ∷ []) ∷ []) (omega arith)
