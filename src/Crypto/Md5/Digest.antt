-- ===== src/Crypto/Md5/Digest.antt =====
-- md5.c against the padded message of RFC 1321, block by block.
use emberlite.Common.{
  ℕ, ◌-◌, ◌*◌, ◌%◌, ◌^◌, ◌<◌, ◌≡◌, refl, ap, ap₂, sym, subst, ◌∙◌, arith, Option, none, some, List,
  [], ◌∷◌, ◌++◌, append-nil, concat, append_assoc, ltb, length, replicate, if◌then◌else◌,
}
use emberlite.Crypto.Blocks.{absorb_all, absorb_all-append}
use emberlite.Crypto.Blocks.Padding.{padding, hash_state, absorb_all-padding}
use emberlite.Crypto.Md5.{
  ◌>>=◌, Ctx, transform, init, index, update, pad_bytes, final, compute, digest_bytes, length_bytes,
  byte_of,
}
use emberlite.Crypto.Md5.Stream.{Holds, bit_count, init-Holds, index-Holds, update-Holds}

-- A number below 2^64 in eight bytes, lowest first.
abbrev pub le64 : ℕ → List ℕ
le64 n =
    byte_of n 0
    ∷ byte_of n 8
    ∷ byte_of n 16
    ∷ byte_of n 24
    ∷ byte_of n 32
    ∷ byte_of n 40
    ∷ byte_of n 48
    ∷ byte_of n 56
    ∷ []

-- The digest of a whole message.
pub md5_spec : List ℕ → List ℕ
md5_spec m = digest_bytes (hash_state transform init.state m (le64 (8 * length m)))

-- A client that calls `update` on one piece after another.
pub update_all : Ctx → List (List ℕ) → Option Ctx
update_all c [] = some c
update_all c (ps ∷ pss) = elim (update c ps) [ none ↦ none | some c' ↦ update_all c' pss ]

update_all-Holds :
    (pss : List (List ℕ)) (m : List ℕ) (c : Ctx)
    → Holds m c
    → (out : Ctx) × (update_all c pss ≡ some out) × Holds (m ++ concat pss) out
unfolding update_all
update_all-Holds [] m c h = (c, refl, subst (λ x. Holds x c) (sym (append-nil m)) h)
update_all-Holds (ps ∷ pss) m c h =
    let (c', e, h') = update-Holds ps h in
    let (out, e', h'') = update_all-Holds pss (m ++ ps) c' h' in
    (out, rw (e, update_all) e', subst (λ x. Holds x out) (append_assoc m ps (concat pss)) h'')

-- The two pieces that `final` passes to `update` are the padding.
pad_bytes-padding : (n : ℕ) (len : List ℕ) → pad_bytes (n % 64) ++ len ≡ padding n len
unfolding pad_bytes
pad_bytes-padding n len =
    ap (λ k. 0x80 ∷ (replicate k 0 ++ len))
      {x = (if ltb (n % 64) 56 then 56 - n % 64 else 120 - n % 64) - 1} {y = (119 - n % 64) % 64}
      (ground arith)

length_bytes-le64 :
    (c : Ctx) (n : ℕ)
    → c.count0 < 2 ^ 32
    → bit_count c ≡ n
    → length_bytes c.count0 c.count1 ≡ le64 n
length_bytes-le64 c n h e = ground arith

final_updates :
    (c padded done : Ctx)
    → update c (pad_bytes (index c)) ≡ some padded
    → update padded (length_bytes c.count0 c.count1) ≡ some done
    → final c ≡ some (digest_bytes done.state, done)
unfolding final
final_updates c padded done e e' = rw (e, final) (rw (e', ◌>>=◌))

final-Holds :
    {m : List ℕ} {c : Ctx}
    → Holds m c
    → 8 * length m < 2 ^ 64
    → (out : Ctx) × (final c ≡ some (md5_spec m, out))
unfolding md5_spec
final-Holds {m} {c} h short =
    let pad = pad_bytes (index c) in
    let len = length_bytes c.count0 c.count1 in
    let (padded, e, h') = update-Holds pad h in
    let (done, e', h'') = update-Holds len h' in
    (
      done,
      final_updates c padded done e e'
          ∙ ap (λ sp. some (digest_bytes (sp.0), done)) (h''.bytes ∙ whole),
    )
  where
    tail :
        pad_bytes (index c) ++ length_bytes c.count0 c.count1
        ≡ padding (length m) (le64 (8 * length m))
    tail =
        ap₂ (λ i len. pad_bytes i ++ len) (index-Holds h)
          (length_bytes-le64 c (8 * length m) h.low (omega (arith, h.count)))
        ∙ pad_bytes-padding (length m) (le64 (8 * length m))

    whole :
        absorb_all transform
          (init.state, [])
          ((m ++ pad_bytes (index c)) ++ length_bytes c.count0 c.count1)
        ≡ (hash_state transform init.state m (le64 (8 * length m)), [])
    whole =
        ap (absorb_all transform (init.state, []))
          (append_assoc m (pad_bytes (index c)) (length_bytes c.count0 c.count1) ∙ ap (◌++◌ m) tail)
        ∙ absorb_all-append transform (init.state, []) m _
        ∙ absorb_all-padding transform init.state m (le64 (8 * length m)) refl refl

-- `ember_crypto_md5_compute` on a message of fewer than 2^61 bytes returns the 16 bytes of the state that
-- the compression function of the code makes, block by block from the initial state, of the message
-- padded as RFC 1321 says: 0x80, zeros and the bit length in eight bytes, lowest first.
pub compute-eq-md5_spec : (m : List ℕ) → 8 * length m < 2 ^ 64 → compute m ≡ some (md5_spec m)
unfolding compute
compute-eq-md5_spec m short =
    let (c, e, h) = update-Holds m init-Holds in
    let (out, e') = final-Holds h short in rw (e, compute) (rw (e', ◌>>=◌))

-- However a client cuts a message of fewer than 2^61 bytes into pieces for `update`, every call
-- returns, and `final` returns the digest of the whole.
pub update_all-md5_spec :
    (pieces : List (List ℕ))
    → 8 * length (concat pieces) < 2 ^ 64
    → (c out : Ctx) × (update_all init pieces ≡ some c)
      × (final c ≡ some (md5_spec (concat pieces), out))
update_all-md5_spec pieces short =
    let (c, e, h) = update_all-Holds pieces [] init init-Holds in
    let (out, e') = final-Holds h short in (c, out, e, e')
