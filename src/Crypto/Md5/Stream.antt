-- ===== src/Crypto/Md5/Stream.antt =====
-- `update` of md5.c feeds the block function with the input, whatever the pieces.
use emberlite.Common.{
  ℕ, zero, suc, ◌+◌, ◌*◌, ◌/◌, ◌%◌, ◌^◌, ◌≤◌, ◌<◌, ◌≡◌, refl, ap, sym, subst, ◌∙◌, arith, dec_lt,
  Option, some, List, [], ◌∷◌, ◌++◌, length, take, drop, take-append-drop, length-take, length-drop,
  memcpy, length-memcpy, length-append, bit_and_mask,
}
use emberlite.Crypto.Blocks.{absorb_all, absorb_all-append}
use emberlite.Crypto.Blocks.Buffer.{absorb_all-copy, absorb_all-fill}
use emberlite.Crypto.Md5.{
  Ctx, Words, transform, init, index, add_count, take_piece, piece_len, update_loop, update,
}

-- The state, and the bytes of the block that is not full yet, of which there are `idx`.
abbrev pub view : Ctx → ℕ → Words × List ℕ
view c idx = (c.state, take idx c.buffer)

-- A context inside `update`, with its local `idx`.
record IsValid (c : Ctx) (idx : ℕ) : Type 0 where
  size : length c.buffer ≡ 64
  room : idx < 64

-- `c'` at `idx'` is `c` at `idx` after the bytes `ps`; the count is not touched.
record Absorbed (c : Ctx) (idx : ℕ) (ps : List ℕ) (c' : Ctx) (idx' : ℕ) : Type 0 where
  valid : IsValid c' idx'
  bytes : view c' idx' ≡ absorb_all transform (view c idx) ps
  same0 : c'.count0 ≡ c.count0
  same1 : c'.count1 ≡ c.count1
  moved : idx' ≡ (idx + length ps) % 64

take_piece-filled :
    (c : Ctx) (idx : ℕ) (ps : List ℕ)
    → idx + length ps ≡ 64
    → take_piece c idx ps ≡ (
      record c {
        state = transform c.state (memcpy c.buffer idx ps);
        buffer = memcpy c.buffer idx ps;
      },
      0,
    )
unfolding take_piece
take_piece-filled c idx ps h = ground arith

take_piece-extended :
    (c : Ctx) (idx : ℕ) (ps : List ℕ)
    → idx + length ps < 64
    → take_piece c idx ps ≡ (record c { buffer = memcpy c.buffer idx ps }, idx + length ps)
unfolding take_piece
take_piece-extended c idx ps h = ground arith

take_piece-Absorbed :
    (c : Ctx) (idx : ℕ) (ps : List ℕ)
    → IsValid c idx
    → idx + length ps ≤ 64
    → Absorbed c idx ps (take_piece c idx ps).0 (take_piece c idx ps).1
take_piece-Absorbed c idx ps v h = elim (dec_lt (idx + length ps) 64) [
  | yes short ↦ rw (take_piece-extended c idx ps short) (record {
    valid = record { size = length-memcpy c.buffer idx ps ∙ v.size; room = short };
    bytes = sym (absorb_all-copy transform c.state c.buffer idx ps v.size v.room short);
    same0 = refl;
    same1 = refl;
    moved = omega arith;
  })
  | no full ↦ rw (take_piece-filled c idx ps (omega arith)) (record {
    valid = record { size = length-memcpy c.buffer idx ps ∙ v.size; room = omega arith };
    bytes = sym (absorb_all-fill transform c.state c.buffer idx ps v.size v.room (omega arith));
    same0 = refl;
    same1 = refl;
    moved = omega arith;
  })
]

piece_len_bounds :
    (idx n : ℕ)
    → idx < 64
    → (idx + piece_len idx n ≤ 64) × (piece_len idx n ≤ n) × (0 < n → 0 < piece_len idx n)
unfolding piece_len
piece_len_bounds idx n h = ground arith

-- A normal return of the loop, which has used all the input.
record Returns (c : Ctx) (idx : ℕ) (ps : List ℕ) (r : Option Ctx) : Type 0 where
  out : Ctx
  end_idx : ℕ
  returns : r ≡ some out
  absorbed : Absorbed c idx ps out end_idx

Returns-append :
    {c d : Ctx} {i j : ℕ} {ps qs : List ℕ} {r : Option Ctx}
    → Absorbed c i ps d j
    → Returns d j qs r
    → Returns c i (ps ++ qs) r
Returns-append {c} {i} {ps} {qs} a r = record {
  out = r.out;
  end_idx = r.end_idx;
  returns = r.returns;
  absorbed = record {
    valid = r.absorbed.valid;
    bytes =
        r.absorbed.bytes
        ∙ ap (λ sp. absorb_all transform sp qs) a.bytes
        ∙ sym (absorb_all-append transform (view c i) ps qs);
    same0 = r.absorbed.same0 ∙ a.same0;
    same1 = r.absorbed.same1 ∙ a.same1;
    moved = omega (arith, r.absorbed.moved, a.moved, length-append ps qs);
  };
}

Returns-nil : (c : Ctx) (idx : ℕ) → IsValid c idx → Returns c idx [] (some c)
unfolding absorb_all
Returns-nil c idx v = record {
  out = c;
  end_idx = idx;
  returns = refl;
  absorbed = record {
    valid = v;
    bytes = refl;
    same0 = refl;
    same1 = refl;
    moved = omega (arith, v.room);
  };
}

update_loop-Returns :
    (fuel : ℕ) (c : Ctx) (idx : ℕ) (ps : List ℕ)
    → IsValid c idx
    → length ps ≤ fuel
    → Returns c idx ps (update_loop fuel c idx ps)
unfolding update_loop
update_loop-Returns zero c idx [] v h = Returns-nil c idx v
update_loop-Returns zero c idx (x ∷ xs) v h = absurd (omega arith)
update_loop-Returns (suc fuel) c idx [] v h = Returns-nil c idx v
update_loop-Returns (suc fuel) c idx (x ∷ xs) v h =
    let ps = x ∷ xs in
    let copy = piece_len idx (length ps) in
    let bounds = piece_len_bounds idx (length ps) v.room in
    let r = take_piece c idx (take copy ps) in
    let a = take_piece-Absorbed c idx (take copy ps) v (omega (arith, length-take copy ps)) in
    subst (λ qs. Returns c idx qs (update_loop fuel r.0 r.1 (drop copy ps)))
      (take-append-drop copy ps)
      (Returns-append a (
        update_loop-Returns fuel r.0 r.1 (drop copy ps) a.valid
          (omega (arith, length-drop copy ps))))

-- The two words of the count, as one number.
abbrev pub bit_count : Ctx → ℕ
bit_count c = c.count0 + c.count1 * 2 ^ 32

-- What is known of a context after the bytes `m` since `init`.
pub record Holds (m : List ℕ) (c : Ctx) : Type 0 where
  pub size : length c.buffer ≡ 64
  pub bytes : view c (length m % 64) ≡ absorb_all transform (init.state, []) m
  pub low : c.count0 < 2 ^ 32
  pub count : bit_count c ≡ 8 * length m % 2 ^ 64

pub init-Holds : Holds [] init
unfolding init absorb_all
init-Holds = record { size = refl; bytes = refl; low = omega arith; count = refl }

pub index-Holds : {m : List ℕ} {c : Ctx} → Holds m c → index c ≡ length m % 64
unfolding index
index-Holds {m} {c} h = omega (arith, bit_and_mask 6 (c.count0 / 2 ^ 3), h.low, h.count)

-- The two words count modulo 2^64.
bit_count-add_count :
    (c : Ctx) (n : ℕ)
    → c.count0 < 2 ^ 32
    → ((add_count c n).count0 < 2 ^ 32)
      × (bit_count (add_count c n) ≡ (bit_count c + 8 * n) % 2 ^ 64)
unfolding add_count
bit_count-add_count c n h = ground arith

-- `update` on a context that holds `m` always returns, and the context then holds `m` and the input.
pub update-Holds :
    {m : List ℕ} {c : Ctx} (ps : List ℕ)
    → Holds m c
    → (out : Ctx) × (update c ps ≡ some out) × Holds (m ++ ps) out
unfolding update
update-Holds {m} {c} ps h =
    let start = add_count c (length ps) in
    let counted = bit_count-add_count c (length ps) h.low in
    let r =
      update_loop-Returns (length ps) start (index c) ps
        (record { size = buffer_kept ∙ h.size; room = omega (arith, index-Holds h) })
        (omega arith) in
    (
      r.out,
      r.returns,
      record {
        size = r.absorbed.valid.size;
        bytes =
            ap (view r.out) (omega (arith, r.absorbed.moved, index-Holds h, length-append m ps))
            ∙ r.absorbed.bytes
            ∙ ap (λ sp. absorb_all transform sp ps) (view_kept ∙ h.bytes)
            ∙ sym (absorb_all-append transform (init.state, []) m ps);
        low = omega (arith, r.absorbed.same0, counted.0);
        count =
            omega
              (arith, r.absorbed.same0, r.absorbed.same1, counted.1, h.count, length-append m ps);
      },
    )
  where
    buffer_kept : length (add_count c (length ps)).buffer ≡ length c.buffer
    buffer_kept = unfold add_count in refl

    view_kept : view (add_count c (length ps)) (index c) ≡ view c (length m % 64)
    view_kept = unfold add_count in ap (view c) (index-Holds h)
