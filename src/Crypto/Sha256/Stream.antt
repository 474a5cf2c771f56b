-- ===== src/Crypto/Sha256/Stream.antt =====
-- `update` of sha256.c feeds the block function with the input, whatever the pieces.
use emberlite.Common.{
  ℕ, zero, suc, ◌+◌, ◌*◌, ◌%◌, ◌^◌, ◌≤◌, ◌<◌, ◌≡◌, refl, ap, sym, ◌∙◌, arith, dec_lt, subst, Option,
  some, List, [], ◌∷◌, ◌++◌, length, take, drop, take-append-drop, length-take, length-drop, memcpy,
  length-memcpy,
}
use emberlite.Crypto.Blocks.{absorb_all, absorb_all-append}
use emberlite.Crypto.Blocks.Buffer.{absorb_all-copy, absorb_all-fill}
use emberlite.Crypto.Sha256.{Ctx, Words, transform, take_piece, piece_len, update_loop, update}

pub record IsValid (c : Ctx) : Type 0 where
  pub size : length c.buffer ≡ 64
  pub room : c.buffer_len < 64

-- The state, and the bytes of the block that is not full yet.
abbrev pub view : Ctx → Words × List ℕ
view c = (c.state, take c.buffer_len c.buffer)

-- `c'` is `c` after the bytes `ps`.
pub record Absorbed (c : Ctx) (ps : List ℕ) (c' : Ctx) : Type 0 where
  pub valid : IsValid c'
  pub bytes : view c' ≡ absorb_all transform (view c) ps

abbrev filled : Ctx → List ℕ → Ctx
filled c ps =
    let buffer' = memcpy c.buffer c.buffer_len ps in
    record c { state = transform c.state buffer'; buffer = buffer'; buffer_len = 0 }

abbrev extended : Ctx → List ℕ → Ctx
extended c ps = record c {
  buffer = memcpy c.buffer c.buffer_len ps;
  buffer_len = c.buffer_len + length ps;
}

take_piece-filled :
    (c : Ctx) (ps : List ℕ) → c.buffer_len + length ps ≡ 64 → take_piece c ps ≡ filled c ps
unfolding take_piece
take_piece-filled c ps h = ground arith

take_piece-extended :
    (c : Ctx) (ps : List ℕ) → c.buffer_len + length ps < 64 → take_piece c ps ≡ extended c ps
unfolding take_piece
take_piece-extended c ps h = ground arith

pub take_piece-Absorbed :
    (c : Ctx) (ps : List ℕ)
    → IsValid c
    → c.buffer_len + length ps ≤ 64
    → Absorbed c ps (take_piece c ps) × ((take_piece c ps).bit_count ≡ c.bit_count)
take_piece-Absorbed c ps v h = elim (dec_lt (c.buffer_len + length ps) 64) [
  | yes short ↦ rw (take_piece-extended c ps short) (
    record {
      valid = record { size = length-memcpy c.buffer c.buffer_len ps ∙ v.size; room = short };
      bytes = sym (absorb_all-copy transform c.state c.buffer c.buffer_len ps v.size v.room short);
    },
    refl,
  )
  | no full ↦ rw (take_piece-filled c ps (omega arith)) (
    record {
      valid = record { size = length-memcpy c.buffer c.buffer_len ps ∙ v.size; room = omega arith };
      bytes =
          sym (
            absorb_all-fill transform c.state c.buffer c.buffer_len ps v.size v.room (omega arith));
    },
    refl,
  )
]

-- The piece fits the buffer, and is not empty.
piece_len_bounds :
    (c : Ctx) (n : ℕ)
    → IsValid c
    → (c.buffer_len + piece_len c n ≤ 64) × (piece_len c n ≤ n) × (0 < n → 0 < piece_len c n)
unfolding piece_len
piece_len_bounds c n v = ground arith

-- A normal return of the loop, which has used all the input.
pub record Returns (c : Ctx) (ps : List ℕ) (r : Option Ctx) : Type 0 where
  pub out : Ctx
  pub returns : r ≡ some out
  pub absorbed : Absorbed c ps out
  pub count : out.bit_count ≡ c.bit_count

Returns-append :
    {c d : Ctx} {ps qs : List ℕ} {r : Option Ctx}
    → Absorbed c ps d
    → d.bit_count ≡ c.bit_count
    → Returns d qs r
    → Returns c (ps ++ qs) r
Returns-append {c} {ps} {qs} a e r = record {
  out = r.out;
  returns = r.returns;
  absorbed = record {
    valid = r.absorbed.valid;
    bytes =
        r.absorbed.bytes
        ∙ ap (λ sp. absorb_all transform sp qs) a.bytes
        ∙ sym (absorb_all-append transform (view c) ps qs);
  };
  count = r.count ∙ e;
}

pub update_loop-Returns :
    (fuel : ℕ) (c : Ctx) (ps : List ℕ)
    → IsValid c
    → length ps ≤ fuel
    → Returns c ps (update_loop fuel c ps)
unfolding update_loop absorb_all
update_loop-Returns zero c [] v h = record {
  out = c;
  returns = refl;
  absorbed = record { valid = v; bytes = refl };
  count = refl;
}
update_loop-Returns zero c (x ∷ xs) v h = absurd (omega arith)
update_loop-Returns (suc fuel) c [] v h = record {
  out = c;
  returns = refl;
  absorbed = record { valid = v; bytes = refl };
  count = refl;
}
update_loop-Returns (suc fuel) c (x ∷ xs) v h =
    let ps = x ∷ xs in
    let copy = piece_len c (length ps) in
    let bounds = piece_len_bounds c (length ps) v in
    let (a, e) = take_piece-Absorbed c (take copy ps) v (omega (arith, length-take copy ps)) in
    subst (λ qs. Returns c qs (update_loop fuel (take_piece c (take copy ps)) (drop copy ps)))
      (take-append-drop copy ps)
      (Returns-append a e (
        update_loop-Returns fuel (take_piece c (take copy ps)) (drop copy ps) a.valid
          (omega (arith, length-drop copy ps))))

-- `update` on a valid context always returns: the input is absorbed, and the bit count grows by eight
-- for each byte, modulo 2^64.
pub update-Absorbed :
    (c : Ctx) (ps : List ℕ)
    → IsValid c
    → (out : Ctx) × (update c ps ≡ some out)
      × Absorbed c ps out
      × (out.bit_count ≡ (c.bit_count + 8 * length ps) % 2 ^ 64)
unfolding update
update-Absorbed c ps v =
    let counted = record c { bit_count = (c.bit_count + length ps * 8 % 2 ^ 64) % 2 ^ 64 } in
    let r =
      update_loop-Returns (length ps) counted ps (record { size = v.size; room = v.room })
        (omega arith) in
    (
      r.out,
      r.returns,
      record { valid = r.absorbed.valid; bytes = r.absorbed.bytes },
      omega (arith, r.count),
    )
