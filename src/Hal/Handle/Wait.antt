-- ===== src/Hal/Handle/Wait.antt =====
-- The loops over interrupted calls end: a process that signals interrupt fewer times than the loop has
-- steps gets an answer.
use emberlite.Common.{
  ℕ, zero, suc, ◌≤◌, ◌<◌, ◌≡◌, ◌≢◌, refl, sym, ap, subst, arith, true, All, List, [], ◌∷◌, ◌++◌,
  length, ℤ, ◌∙◌,
}
use emberlite.Hal.{ok, Errno, eintr, status_from_errno}
use emberlite.Hal.Sys.{poll_in, Answer, failed, done, Held, has, IsFailure, interrupted, Ensures}
use emberlite.Hal.Sys.Rules.{ret-Ensures, sys-Ensures, if-Ensures, Ensures-weaken}
use emberlite.Hal.Handle.{is_eintr, wait_fd, read_again}
use emberlite.Hal.Handle.Spec.{Keeps, Keeps-refl, Keeps-trans, Keeps-interrupted, failed-ne_ok}

-- The process holds what it did, has sent and read nothing, and is interrupted no more often than before.
pub record Waited (s s' : Held) : Type 0 where
  pub keeps : Keeps s s'
  pub sent : s'.sent ≡ s.sent
  pub reads : s'.reads ≡ s.reads
  pub interrupts : s'.interrupts ≤ s.interrupts

pub Waited-refl : (s : Held) → Waited s s
Waited-refl s = record { keeps = Keeps-refl s; sent = refl; reads = refl; interrupts = omega arith }

pub Waited-trans : {s s' s'' : Held} → Waited s s' → Waited s' s'' → Waited s s''
Waited-trans w v = record {
  keeps = Keeps-trans w.keeps v.keeps;
  sent = v.sent ∙ w.sent;
  reads = v.reads ∙ w.reads;
  interrupts = omega (arith, w.interrupts, v.interrupts);
}

interrupted-le : (e : Errno) (n : ℕ) → interrupted e n ≤ n
interrupted-le eintr n = omega arith
interrupted-le e n = omega arith

interrupted-lt : (e : Errno) (n : ℕ) → is_eintr e ≡ true → IsFailure n e → interrupted e n < n
interrupted-lt eintr n q d = omega arith
interrupted-lt e n q d = absurd (ground arith)

Waited-interrupted :
    (s : Held) (e : Errno) → Waited s (record s { interrupts = interrupted e s.interrupts })
Waited-interrupted s e = record {
  keeps = Keeps-interrupted s e;
  sent = refl;
  reads = refl;
  interrupts = interrupted-le e s.interrupts;
}

pub wait_fd-Waited :
    (fuel fd : ℕ) (t : ℤ) (s : Held)
    → s.interrupts < fuel
    → has fd s.fds ≡ true
    → Ensures (λ st s'. Waited s s') (wait_fd fuel (poll_in fd t)) s
unfolding wait_fd
wait_fd-Waited zero fd t s f h = absurd (omega arith)
wait_fd-Waited (suc fuel) fd t s f h =
    sys-Ensures h
      (λ e d.
        if-Ensures (is_eintr e)
          (λ q.
            Ensures-weaken (wait_fd fuel (poll_in fd t)) _
              (wait_fd-Waited fuel fd t (record s { interrupts = interrupted e s.interrupts })
                (omega (arith, interrupted-lt e s.interrupts q d)) h)
              (λ st s' w. Waited-trans (Waited-interrupted s e) w))
          (λ q. ret-Ensures (Waited-interrupted s e)))
      (λ v bs e d. ret-Ensures (Waited-refl s))

-- What a read gives: an error, with nothing read, or the bytes that were read, as many as it returns and
-- at most those asked for.
pub data HasRead (fd len : ℕ) (s : Held) : Answer → Held → Type 0 where
  read_failed :
      (e : Errno) (s' : Held)
      → status_from_errno e ≢ ok
      → Waited s s'
      → HasRead fd len s (failed e) s'
  read_bytes :
      (bs : List ℕ) (e : Errno) (s' : Held)
      → length bs ≤ len
      → All (λ b. b < 256) bs
      → Keeps s s'
      → s'.reads ≡ s.reads ++ ((fd, bs) ∷ [])
      → HasRead fd len s (done (length bs) bs e) s'

HasRead-later :
    {fd len : ℕ} {s s' : Held}
    → Waited s s'
    → (a : Answer) (s'' : Held) → HasRead fd len s' a s''
    → HasRead fd len s a s''
HasRead-later w _ _ (read_failed e s'' ne v) = read_failed e s'' ne (Waited-trans w v)
HasRead-later {fd = fd} w _ _ (read_bytes bs e s'' l b k r) =
    read_bytes bs e s'' l b (Keeps-trans w.keeps k) (r ∙ ap (λ rs. rs ++ ((fd, bs) ∷ [])) w.reads)

pub read_again-HasRead :
    (fuel fd len : ℕ) (s : Held)
    → s.interrupts < fuel
    → has fd s.fds ≡ true
    → Ensures (HasRead fd len s) (read_again fuel fd len) s
unfolding read_again
read_again-HasRead zero fd len s f h = absurd (omega arith)
read_again-HasRead (suc fuel) fd len s f h =
    sys-Ensures h
      (λ e d.
        if-Ensures (is_eintr e)
          (λ q.
            Ensures-weaken (read_again fuel fd len) _
              (read_again-HasRead fuel fd len (record s { interrupts = interrupted e s.interrupts })
                (omega (arith, interrupted-lt e s.interrupts q d)) h)
              (HasRead-later (Waited-interrupted s e)))
          (λ q.
            ret-Ensures (read_failed e _ (failed-ne_ok s.interrupts e d) (Waited-interrupted s e))))
      (λ v bs e d. ret-Ensures (
        let s' : Held = record s { reads = s.reads ++ ((fd, bs) ∷ []) } in
        subst (λ n. HasRead fd len s (done n bs e) s') (sym d.0)
          (read_bytes bs e s' (omega (arith, d.0, d.1)) d.2
            (record { fds = refl; blocks = refl; mutex = refl }) refl)))
