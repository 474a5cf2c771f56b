-- ===== src/Crypto/Sha256/Digest.antt =====
-- sha256.c against the padded message of FIPS 180-4, block by block.
use emberlite.Common.{
  ℕ, ◌*◌, ◌/◌, ◌%◌, ◌^◌, ◌<◌, ◌≡◌, refl, ap, sym, ◌∙◌, arith, Option, none, some, List, [], ◌∷◌,
  ◌++◌, append-nil, concat, append_assoc, subst, length, length-append, length-take,
}
use emberlite.Crypto.Blocks.{absorb_all, absorb_all-append}
use emberlite.Crypto.Blocks.Padding.{padding, hash_state, absorb_all-padding, length-absorb_all}
use emberlite.Crypto.Sha256.{
  Ctx, transform, init, update, final, compute, digest_bytes, length_bytes,
}
use emberlite.Crypto.Sha256.Stream.{IsValid, view, update-Absorbed}
use emberlite.Crypto.Sha256.Final.{final_state-absorb}

-- A number below 2^64 in eight bytes, highest first.
abbrev pub be64 : ℕ → List ℕ
be64 n =
    n / 2 ^ 56 % 256
    ∷ n / 2 ^ 48 % 256
    ∷ n / 2 ^ 40 % 256
    ∷ n / 2 ^ 32 % 256
    ∷ n / 2 ^ 24 % 256
    ∷ n / 2 ^ 16 % 256
    ∷ n / 2 ^ 8 % 256
    ∷ n % 256
    ∷ []

length_bytes-be64 : (n : ℕ) → length_bytes n ≡ be64 n
length_bytes-be64 n = ground arith

-- The digest of a whole message.
pub sha256_spec : List ℕ → List ℕ
sha256_spec m = digest_bytes (hash_state transform init.state m (be64 (8 * length m)))

-- A client that calls `update` on one piece after another.
pub update_all : Ctx → List (List ℕ) → Option Ctx
update_all c [] = some c
update_all c (ps ∷ pss) = elim (update c ps) [ none ↦ none | some c' ↦ update_all c' pss ]

-- What is known of a context after the bytes `m` since `init`.
record Holds (m : List ℕ) (c : Ctx) : Type 0 where
  valid : IsValid c
  bytes : view c ≡ absorb_all transform (init.state, []) m
  count : c.bit_count ≡ 8 * length m % 2 ^ 64

init-Holds : Holds [] init
unfolding init absorb_all
init-Holds = record {
  valid = record { size = refl; room = omega arith };
  bytes = refl;
  count = refl;
}

update-Holds :
    {m : List ℕ} {c : Ctx} (ps : List ℕ)
    → Holds m c
    → (out : Ctx) × (update c ps ≡ some out) × Holds (m ++ ps) out
update-Holds {m} {c} ps h =
    let (out, e, a, n) = update-Absorbed c ps h.valid in
    (
      out,
      e,
      record {
        valid = a.valid;
        bytes =
            a.bytes
            ∙ ap (λ sp. absorb_all transform sp ps) h.bytes
            ∙ sym (absorb_all-append transform (init.state, []) m ps);
        count = omega (arith, n, h.count, length-append m ps);
      },
    )

final-Holds :
    (block : List ℕ) {m : List ℕ} {c : Ctx}
    → Holds m c
    → length block ≡ 64
    → 8 * length m < 2 ^ 64
    → (final block c).0 ≡ sha256_spec m
unfolding final sha256_spec
final-Holds block {m} {c} h size short =
    ap digest_bytes
      (ap (λ sp. sp.0) (sym (final_state-absorb block c size h.valid (length m) waiting) ∙ padded))
  where
    waiting : c.buffer_len ≡ length m % 64
    waiting = omega (
      arith,
      h.valid.size,
      h.valid.room,
      length-take c.buffer_len c.buffer,
      ap (λ sp. length sp.1) h.bytes,
      length-absorb_all transform init.state [] m (omega arith),
    )

    padded :
        absorb_all transform (view c) (padding (length m) (length_bytes c.bit_count))
        ≡ (hash_state transform init.state m (be64 (8 * length m)), [])
    padded =
        ap (λ len. absorb_all transform (view c) (padding (length m) len))
          (ap length_bytes {x = c.bit_count} {y = 8 * length m} (omega (arith, h.count))
            ∙ length_bytes-be64 (8 * length m))
        ∙ absorb_all-padding transform init.state m (be64 (8 * length m)) refl h.bytes

update_all-Holds :
    (pss : List (List ℕ)) (m : List ℕ) (c : Ctx)
    → Holds m c
    → (out : Ctx) × (update_all c pss ≡ some out) × Holds (m ++ concat pss) out
unfolding update_all
update_all-Holds [] m c h = (c, refl, subst (λ x. Holds x c) (sym (append-nil m)) h)
update_all-Holds (ps ∷ pss) m c h =
    let (c', e, h') = update-Holds ps h in
    let (out, e', h'') = update_all-Holds pss (m ++ ps) c' h' in
    (out, rw (e, update_all) e', subst (λ x. Holds x out) (append_assoc m ps (concat pss)) h'')

-- `ember_crypto_sha256_compute` on a message of fewer than 2^61 bytes returns, whatever the local block
-- of `final` held, the 32 bytes of the state that the compression function of the code makes, block by
-- block from the initial state, of the message padded as FIPS 180-4 says: 0x80, zeros and the bit
-- length in eight bytes, the highest first.
pub compute-eq-sha256_spec :
    (block m : List ℕ)
    → length block ≡ 64
    → 8 * length m < 2 ^ 64
    → compute block m ≡ some (sha256_spec m)
unfolding compute
compute-eq-sha256_spec block m size short =
    let (out, e, h) = update-Holds m init-Holds in
    rw (e, compute) (ap some (final-Holds block h size short))

-- However a client cuts a message of fewer than 2^61 bytes into pieces for `update`, every call
-- returns, and `final` returns the digest of the whole.
pub update_all-sha256_spec :
    (block : List ℕ) (pieces : List (List ℕ))
    → length block ≡ 64
    → 8 * length (concat pieces) < 2 ^ 64
    → (out : Ctx) × (update_all init pieces ≡ some out)
      × ((final block out).0 ≡ sha256_spec (concat pieces))
update_all-sha256_spec block pieces size short =
    let (out, e, h) = update_all-Holds pieces [] init init-Holds in
    (out, e, final-Holds block h size short)
