-- ===== src/Hal/Input/Layout.antt =====
-- The bytes of an event of hal_input.c, and that `event_of` reads them.
use emberlite.Common.{
  ℕ, zero, suc, ◌+◌, ◌-◌, ◌*◌, ◌/◌, ◌%◌, ◌^◌, ◌<◌, ◌≡◌, refl, sym, ap, ap₂, ◌∙◌, arith, List, [],
  ◌∷◌, ◌++◌, length, All, ℤ, pos, negsuc, ◌≤ℤ◌, ◌≤◌, take, drop, subst, length-take, length-drop,
  take-append-drop, take-eq_self,
}
use emberlite.Hal.Input.{InputEvent, unsigned_of, signed_of, event_of}

-- A number in `n` bytes, the lowest first.
abbrev pub little : ℕ → ℕ → List ℕ
little zero x = []
little (suc n) x = x % 256 ∷ little n (x / 256)

-- The 32 bits of a number with a sign.
abbrev pub word_of : ℤ → ℕ
word_of (pos n) = n
word_of (negsuc k) = 2 ^ 32 - 1 - k

-- The 24 bytes of `struct input_event` for an event.
abbrev pub event_bytes : InputEvent → List ℕ
event_bytes ev =
    little 8 ev.time_sec
    ++ (little 8 ev.time_usec
        ++ (little 2 ev.event_type ++ (little 2 ev.code ++ little 4 (word_of ev.value))))

-- The numbers of an event are in the ranges of their types.
pub record InRange (ev : InputEvent) : Type 0 where
  pub time_sec : ev.time_sec < 2 ^ 64
  pub time_usec : ev.time_usec < 2 ^ 64
  pub event_type : ev.event_type < 2 ^ 16
  pub code : ev.code < 2 ^ 16
  pub least : negsuc (2 ^ 31 - 1) ≤ℤ ev.value
  pub greatest : ev.value ≤ℤ pos (2 ^ 31 - 1)

abbrev bound : ℕ → ℕ
bound zero = 1
bound (suc n) = 256 * bound n

unsigned_of-bound : (bs : List ℕ) → All (λ b. b < 256) bs → unsigned_of bs < bound (length bs)
unfolding unsigned_of
unsigned_of-bound [] h = omega arith
unsigned_of-bound (b ∷ bs) h = omega (arith, h.0, unsigned_of-bound bs h.1)

little-unsigned_of :
    (bs : List ℕ) → All (λ b. b < 256) bs → little (length bs) (unsigned_of bs) ≡ bs
unfolding unsigned_of
little-unsigned_of [] h = refl
little-unsigned_of (b ∷ bs) h =
    ap₂ (λ x xs. x ∷ xs) {x = (b + 256 * unsigned_of bs) % 256} {y = b} (omega (arith, h.0))
      (ap (little (length bs)) {x = (b + 256 * unsigned_of bs) / 256} {y = unsigned_of bs}
          (omega (arith, h.0))
        ∙ little-unsigned_of bs h.1)

word_of-signed_of : (n : ℕ) → n < 2 ^ 32 → word_of (signed_of n) ≡ n
unfolding signed_of
word_of-signed_of n h = ground arith

signed_of-least : (n : ℕ) → n < 2 ^ 32 → negsuc (2 ^ 31 - 1) ≤ℤ signed_of n
unfolding signed_of
signed_of-least n h = ground arith

signed_of-greatest : (n : ℕ) → n < 2 ^ 32 → signed_of n ≤ℤ pos (2 ^ 31 - 1)
unfolding signed_of
signed_of-greatest n h = ground arith

All-take : (n : ℕ) (bs : List ℕ) → All (λ b. b < 256) bs → All (λ b. b < 256) (take n bs)
All-take zero bs h = tt
All-take (suc n) [] h = tt
All-take (suc n) (b ∷ bs) h = (h.0, All-take n bs h.1)

All-drop : (n : ℕ) (bs : List ℕ) → All (λ b. b < 256) bs → All (λ b. b < 256) (drop n bs)
All-drop zero bs h = h
All-drop (suc n) [] h = tt
All-drop (suc n) (b ∷ bs) h = All-drop n bs h.1

drop-nil : (n : ℕ) → drop {A = ℕ} n [] ≡ []
drop-nil zero = refl
drop-nil (suc n) = refl

drop-drop : (n m : ℕ) (bs : List ℕ) → drop m (drop n bs) ≡ drop (n + m) bs
drop-drop zero m bs = ap (λ i. drop i bs) {x = m} {y = 0 + m} (omega arith)
drop-drop (suc n) m [] = drop-nil m ∙ sym (drop-nil (suc n + m))
drop-drop (suc n) m (b ∷ bs) =
    drop-drop n m bs ∙ ap (λ i. drop i (b ∷ bs)) {x = suc (n + m)} {y = suc n + m} (omega arith)

-- The number in `n` bytes from the place `k` on.
record Piece (n k : ℕ) (bs : List ℕ) : Type 0 where
  bytes : little n (unsigned_of (take n (drop k bs))) ≡ take n (drop k bs)
  below : unsigned_of (take n (drop k bs)) < bound n

piece : (n k : ℕ) (bs : List ℕ) → n + k ≤ length bs → All (λ b. b < 256) bs → Piece n k bs
piece n k bs h all = record {
  bytes = subst (λ l. little l (unsigned_of p) ≡ p) size (little-unsigned_of p p_all);
  below = subst (λ l. unsigned_of p < bound l) size (unsigned_of-bound p p_all);
}
  where
    p : List ℕ
    p = take n (drop k bs)

    p_all : All (λ b. b < 256) p
    p_all = All-take n (drop k bs) (All-drop k bs all)

    size : length p ≡ n
    size = omega (arith, length-take n (drop k bs), length-drop k bs)

-- The pieces, one behind the other.
joined :
    (n k m : ℕ) (bs rest : List ℕ)
    → k + n ≡ m
    → rest ≡ drop m bs
    → take n (drop k bs) ++ rest ≡ drop k bs
joined n k m bs rest h e =
    ap (λ r. take n (drop k bs) ++ r) (e ∙ ap (λ i. drop i bs) (sym h) ∙ sym (drop-drop k n bs))
    ∙ take-append-drop n (drop k bs)

-- `event_of` gives the event whose bytes these are.
pub event_bytes-event_of :
    (bs : List ℕ)
    → length bs ≡ 24
    → All (λ b. b < 256) bs
    → (event_bytes (event_of bs) ≡ bs) × InRange (event_of bs)
unfolding event_of
event_bytes-event_of bs h all =
    let sec = piece 8 0 bs (omega arith) all in
    let usec = piece 8 8 bs (omega arith) all in
    let kind = piece 2 16 bs (omega arith) all in
    let key = piece 2 18 bs (omega arith) all in
    let val = piece 4 20 bs (omega arith) all in
    let small : unsigned_of (take 4 (drop 20 bs)) < 2 ^ 32 = val.below in
    (
      ap₂ (λ a r. a ++ r) sec.bytes
            (ap₂ (λ a r. a ++ r) usec.bytes
              (ap₂ (λ a r. a ++ r) kind.bytes
                (ap₂ (λ a r. a ++ r) key.bytes
                  (ap (little 4) (word_of-signed_of _ small) ∙ val.bytes))))
          ∙ joined 8 0 8 bs _ refl (
              joined 8 8 16 bs _ refl (
                joined 2 16 18 bs _ refl (
                  joined 2 18 20 bs _ refl
                    (take-eq_self 4 (drop 20 bs) (omega (arith, length-drop 20 bs)))))),
      record {
        time_sec = sec.below;
        time_usec = usec.below;
        event_type = kind.below;
        code = key.below;
        least = signed_of-least _ small;
        greatest = signed_of-greatest _ small;
      },
    )
