-- ===== src/Hal/Sys/Rules.antt =====
-- How to show what an operation ensures.
use emberlite.Common.{
  ◌≡◌, Bool, true, false, refl, ap, none, some, if◌then◌else◌, List, ◌∷◌, ℕ, ◌==◌, arith,
}
use emberlite.Hal.{Errno}
use emberlite.Hal.Sys.{
  Io, ret, call, halt, ◌>>=◌, Held, after, Call, IsAllowed, IsDocumented, Answer, failed, done,
  Ensures, remove, has, serve,
}

-- The rules for `ret`, and for a call whose answer does not matter.
module _ {A : Type 0} {Post : A → Held → Type 0} {s : Held} where
  pub ret-Ensures : {a : A} → Post a s → Ensures Post (ret a) s
  ret-Ensures h = record { safe = h }

  pub call-Ensures :
      {c : Call} {k : Answer → Io A}
      → IsAllowed s c
      → ((a : Answer) → IsDocumented s c a → Ensures Post (k a) (after c a s))
      → Ensures Post (call c k) s
  call-Ensures h k = record { safe = (h, λ a d. (k a d).safe) }

  pub if-Ensures :
      {m n : Io A} (b : Bool)
      → (b ≡ true → Ensures Post m s)
      → (b ≡ false → Ensures Post n s)
      → Ensures Post (if b then m else n) s
  if-Ensures true h k = h refl
  if-Ensures false h k = k refl

  -- The rule for a call that can fail.
  pub sys-Ensures :
      {c : Call} {k : Answer → Io A}
      → IsAllowed s c
      → ((e : Errno)
          → IsDocumented s c (failed e)
          → Ensures Post (k (failed e)) (after c (failed e) s))
      → ((v : ℕ) (bs : List ℕ) (e : Errno)
          → IsDocumented s c (done v bs e)
          → Ensures Post (k (done v bs e)) (after c (done v bs e) s))
      → Ensures Post (call c k) s
  sys-Ensures {c = c} {k = k} h f g = call-Ensures h answer
    where
      answer : (a : Answer) → IsDocumented s c a → Ensures Post (k a) (after c a s)
      answer (failed e) d = f e d
      answer (done v bs e) d = g v bs e d

-- An operation that another one goes on from.
pub >>=-Ensures :
    {A B : Type 0} {Post : A → Held → Type 0} {Mid : B → Held → Type 0} (m : Io B) (f : B → Io A)
    (s : Held)
    → Ensures Mid m s
    → ((b : B) (s' : Held) → Mid b s' → Ensures Post (f b) s')
    → Ensures Post (m >>= f) s
>>=-Ensures (ret b) f s h k = k b s h.safe
>>=-Ensures halt f s h k = absurd h.safe
>>=-Ensures (call c g) f s h k =
    call-Ensures h.safe.0
      (λ a d. >>=-Ensures (g a) f (after c a s) (record { safe = h.safe.1 a d }) k)

pub eq_refl : (n : ℕ) → (n == n) ≡ true
eq_refl n = ground arith

pub remove-head : (fd : ℕ) (fds : List ℕ) → remove fd (fd ∷ fds) ≡ fds
remove-head fd fds = rw (eq_refl fd) refl

pub has-head : (fd : ℕ) (fds : List ℕ) → has fd (fd ∷ fds) ≡ true
has-head fd fds = rw (eq_refl fd) refl

-- An operation on a device, and what goes on from it.
pub serve_bind :
    {A B D : Type 0} (step : Call → D → Answer × D) (m : Io A) (f : A → Io B) (d d' : D) (a : A)
    → serve step m d ≡ some (a, d')
    → serve step (m >>= f) d ≡ serve step (f a) d'
unfolding serve
serve_bind step (ret b) f d d' a h =
    ap (λ o. elim o [ none ↦ serve step (f b) d | some r ↦ serve step (f r.0) r.1 ]) h
serve_bind step halt f d d' a h = absurd (ground arith)
serve_bind step (call c k) f d d' a h = serve_bind step (k (step c d).0) f (step c d).1 d' a h

-- A weaker end.
pub Ensures-weaken :
    {A : Type 0} {Post Post' : A → Held → Type 0} (m : Io A) (s : Held)
    → Ensures Post m s
    → ((a : A) (s' : Held) → Post a s' → Post' a s')
    → Ensures Post' m s
Ensures-weaken (ret a) s h k = ret-Ensures (k a s h.safe)
Ensures-weaken halt s h k = absurd h.safe
Ensures-weaken (call c g) s h k =
    call-Ensures h.safe.0
      (λ a d. Ensures-weaken (g a) (after c a s) (record { safe = h.safe.1 a d }) k)
