-- ===== src/Ppool/Worker/Lock.antt =====
-- Who holds the lock of ppool.c, and who waits.
use emberlite.Common.{
  ℕ, ◌≡◌, ◌≢◌, refl, sym, ap, ◌∙◌, arith, Bool, true, false, Option, none, some, List, [], ◌∷◌,
  ℕ_discrete,
}
use emberlite.Ppool.Worker.{Thread, inside, waiting, move, wake, broadcast}
use emberlite.Ppool.Worker.Nodes.{move_self, move-ne}

abbrev pub is_inside : Thread → Bool
is_inside inside = true
is_inside place = false

pub unlike : (place : Thread) → is_inside place ≡ false → place ≢ inside
unlike place h e = clash (sym (ap is_inside e) ∙ h)
  where
    clash : true ≢ false
    clash r = ground arith

pub some_inj : {A : Type 0} → (x y : A) → some x ≡ some y → x ≡ y
some_inj x y e = ap (λ o. elim o [ none ↦ x | some z ↦ z ]) e

pub none-some : {A : Type 0} → (x : A) → none ≢ some x
none-some x e = ground arith

pub nil_cons : {A : Type 0} (x : A) (xs : List A) → [] ≢ x ∷ xs
nil_cons x xs e = ground arith

-- While a thread waits there is no task.
abbrev pub Idle : Type 0 → (ℕ → Thread) → Type 0
Idle X threads = (t : ℕ) → threads t ≡ waiting → X

abbrev pub is_waiting : Thread → Bool
is_waiting waiting = true
is_waiting place = false

pub not_waiting : (place : Thread) → is_waiting place ≡ false → place ≢ waiting
not_waiting place h e = clash (sym (ap is_waiting e) ∙ h)
  where
    clash : true ≢ false
    clash r = ground arith

pub wake-awake : (place : Thread) → wake place ≢ waiting
wake-awake place e = not_waiting (wake place) (awake place) e
  where
    awake : (place : Thread) → is_waiting (wake place) ≡ false
    awake waiting = refl
    awake place = refl

-- A thread holds the lock exactly while it is behind it.
abbrev pub Locked : Option ℕ → (ℕ → Thread) → Type 0
Locked lock threads =
    (t : ℕ) → (threads t ≡ inside → lock ≡ some t) × (lock ≡ some t → threads t ≡ inside)

moved : (threads : ℕ → Thread) (t u : ℕ) (place : Thread) → u ≡ t → move t place threads u ≡ place
moved threads t u place p = ap (move t place threads) p ∙ move_self t place threads

pub Idle-move :
    (X : Type 0) (threads : ℕ → Thread) (t : ℕ) (place : Thread)
    → Idle X threads
    → is_waiting place ≡ false
    → Idle X (move t place threads)
Idle-move X threads t place h ne u e = elim (ℕ_discrete u t) [
  | yes p ↦ absurd (not_waiting place ne (sym (moved threads t u place p) ∙ e))
  | no p ↦ h u (sym (move-ne t u place threads p) ∙ e)
]

wake-inside : (place : Thread) → is_inside (wake place) ≡ is_inside place
wake-inside waiting = refl
wake-inside place = refl

inside_test : (place : Thread) → is_inside place ≡ true → place ≡ inside
inside_test place h = ground arith

pub Locked-broadcast :
    (lock : Option ℕ) (threads : ℕ → Thread) → Locked lock threads → Locked lock (broadcast threads)
Locked-broadcast lock threads h u = (
  λ e. (h u).0 (inside_test (threads u) (sym (wake-inside (threads u)) ∙ ap is_inside e)),
  λ e. ap wake ((h u).1 e),
)

pub Locked-move :
    (lock : Option ℕ) (threads : ℕ → Thread) (t : ℕ) (place : Thread)
    → Locked lock threads
    → threads t ≢ inside
    → place ≢ inside
    → Locked lock (move t place threads)
Locked-move lock threads t place h old ne u = elim (ℕ_discrete u t) [
  | yes p ↦ (
    λ e. absurd (ne (sym (moved threads t u place p) ∙ e)),
    λ e. absurd (old (ap threads (sym p) ∙ (h u).1 e)),
  )
  | no p ↦ (
    λ e. (h u).0 (sym (move-ne t u place threads p) ∙ e),
    λ e. move-ne t u place threads p ∙ (h u).1 e,
  )
]

pub Locked-leaves :
    (lock : Option ℕ) (threads : ℕ → Thread) (t : ℕ) (place : Thread)
    → Locked lock threads
    → threads t ≡ inside
    → place ≢ inside
    → Locked none (move t place threads)
Locked-leaves lock threads t place h i ne u = (
  λ e. elim (ℕ_discrete u t) [
    | yes p ↦ absurd (ne (sym (moved threads t u place p) ∙ e))
    | no p ↦
        absurd
          (p (some_inj u t (sym ((h u).0 (sym (move-ne t u place threads p) ∙ e)) ∙ (h t).0 i)))
  ],
  λ e. absurd (none-some u e),
)

pub Locked-enters :
    (lock : Option ℕ) (threads : ℕ → Thread) (t : ℕ)
    → Locked lock threads
    → lock ≡ none
    → Locked (some t) (move t inside threads)
Locked-enters lock threads t h free u = (
  λ e. elim (ℕ_discrete u t) [
    | yes p ↦ ap some (sym p)
    | no p ↦ absurd (none-some u (sym free ∙ (h u).0 (sym (move-ne t u inside threads p) ∙ e)))
  ],
  λ e. moved threads t u inside (sym (some_inj t u e)),
)
