-- ===== src/Hal/Uart/Write.antt =====
-- What `hal_uart_write` of hal_uart.c sends.
use emberlite.Common.{
  ℕ, zero, suc, ◌+◌, ◌<◌, ◌≡◌, ◌≢◌, refl, sym, ap, subst, ◌∙◌, arith, Bool, true, false, Option,
  none, some, List, [], ◌∷◌, ◌++◌, append-nil, append_assoc, if◌then◌else◌, length, length-append,
  take, drop, take-append-drop, ℤ, pos, ltb_ℤ,
}
use emberlite.Hal.{
  HalStatus, ok, err_io, err_timeout, err_invalid_param, err_not_supported, err_no_memory, err_busy,
  err_permission, err_nodevice, Errno, eok, eintr, etimedout, eagain, einval, eopnotsupp, enomem,
  ebusy, eacces, eperm, enodev, enoent, eother, status_from_errno,
}
use emberlite.Hal.Uart.{
  PollAnswer, poll_error, poll_timeout, poll_ready, WriteAnswer, write_error, wrote, Line, Run,
  returned, waiting, wait_loop, write_again, write_step, wait_step, write_loop,
}

-- What the loop promises for the bytes `rest` when `done` are written: it waits, or returns. It has
-- sent the bytes up to those that are left, and counted them; without a timeout it returns `ok` only
-- when none are left.
pub data Written (timeout_ms : ℤ) (rest : List ℕ) (done : ℕ) (line : Line)
    : Run (HalStatus × ℕ) → Type 0 where
  waits : Written timeout_ms rest done line waiting
  returns :
      (taken left : List ℕ) (status : HalStatus) (line' : Line)
      → rest ≡ taken ++ left
      → line'.sent ≡ line.sent ++ taken
      → (status ≡ ok → ltb_ℤ timeout_ms (pos 0) ≡ true → left ≡ [])
      → Written timeout_ms rest done line (returned (status, done + length taken) line')

-- Every wait takes an answer.
wait_loop-shorter :
    (ps : List PollAnswer) (st : HalStatus) (ps' : List PollAnswer)
    → wait_loop ps ≡ some (st, ps')
    → length ps' < length ps
unfolding wait_loop
wait_loop-shorter [] st ps' h = ground arith
wait_loop-shorter (poll_timeout ∷ ps) st ps' h = ground arith
wait_loop-shorter (poll_ready bad ∷ ps) st ps' h = ground arith
wait_loop-shorter (poll_error eintr ∷ ps) st ps' h = omega (arith, wait_loop-shorter ps st ps' h)
wait_loop-shorter (poll_error eok ∷ ps) st ps' h = ground arith
wait_loop-shorter (poll_error etimedout ∷ ps) st ps' h = ground arith
wait_loop-shorter (poll_error eagain ∷ ps) st ps' h = ground arith
wait_loop-shorter (poll_error einval ∷ ps) st ps' h = ground arith
wait_loop-shorter (poll_error eopnotsupp ∷ ps) st ps' h = ground arith
wait_loop-shorter (poll_error enomem ∷ ps) st ps' h = ground arith
wait_loop-shorter (poll_error ebusy ∷ ps) st ps' h = ground arith
wait_loop-shorter (poll_error eacces ∷ ps) st ps' h = ground arith
wait_loop-shorter (poll_error eperm ∷ ps) st ps' h = ground arith
wait_loop-shorter (poll_error enodev ∷ ps) st ps' h = ground arith
wait_loop-shorter (poll_error enoent ∷ ps) st ps' h = ground arith
wait_loop-shorter (poll_error eother ∷ ps) st ps' h = ground arith

-- A write that fails sets errno.
abbrev pub SetsErrno : List WriteAnswer → Type 0
SetsErrno [] = Unit
SetsErrno (wrote n ∷ ws) = SetsErrno ws
SetsErrno (write_error e ∷ ws) = (e ≢ eok) × SetsErrno ws

abbrev Failing : WriteAnswer → Type 0
Failing (wrote n) = Unit
Failing (write_error e) = e ≢ eok

write_again-SetsErrno :
    (ws : List WriteAnswer) (a : WriteAnswer) (ws' : List WriteAnswer)
    → SetsErrno ws
    → write_again ws ≡ some (a, ws')
    → Failing a × SetsErrno ws'
unfolding write_again
write_again-SetsErrno [] a ws' s h = ground arith
write_again-SetsErrno (wrote n ∷ ws) (wrote m) ws' s h = ground arith
write_again-SetsErrno (wrote n ∷ ws) (write_error e) ws' s h = ground arith
write_again-SetsErrno (write_error eok ∷ ws) a ws' s h = absurd (s.0 refl)
write_again-SetsErrno (write_error eintr ∷ ws) a ws' s h = write_again-SetsErrno ws a ws' s.1 h
write_again-SetsErrno (write_error etimedout ∷ ws) (wrote m) ws' s h = ground arith
write_again-SetsErrno (write_error etimedout ∷ ws) (write_error e) ws' s h = ground arith
write_again-SetsErrno (write_error eagain ∷ ws) (wrote m) ws' s h = ground arith
write_again-SetsErrno (write_error eagain ∷ ws) (write_error e) ws' s h = ground arith
write_again-SetsErrno (write_error einval ∷ ws) (wrote m) ws' s h = ground arith
write_again-SetsErrno (write_error einval ∷ ws) (write_error e) ws' s h = ground arith
write_again-SetsErrno (write_error eopnotsupp ∷ ws) (wrote m) ws' s h = ground arith
write_again-SetsErrno (write_error eopnotsupp ∷ ws) (write_error e) ws' s h = ground arith
write_again-SetsErrno (write_error enomem ∷ ws) (wrote m) ws' s h = ground arith
write_again-SetsErrno (write_error enomem ∷ ws) (write_error e) ws' s h = ground arith
write_again-SetsErrno (write_error ebusy ∷ ws) (wrote m) ws' s h = ground arith
write_again-SetsErrno (write_error ebusy ∷ ws) (write_error e) ws' s h = ground arith
write_again-SetsErrno (write_error eacces ∷ ws) (wrote m) ws' s h = ground arith
write_again-SetsErrno (write_error eacces ∷ ws) (write_error e) ws' s h = ground arith
write_again-SetsErrno (write_error eperm ∷ ws) (wrote m) ws' s h = ground arith
write_again-SetsErrno (write_error eperm ∷ ws) (write_error e) ws' s h = ground arith
write_again-SetsErrno (write_error enodev ∷ ws) (wrote m) ws' s h = ground arith
write_again-SetsErrno (write_error enodev ∷ ws) (write_error e) ws' s h = ground arith
write_again-SetsErrno (write_error enoent ∷ ws) (wrote m) ws' s h = ground arith
write_again-SetsErrno (write_error enoent ∷ ws) (write_error e) ws' s h = ground arith
write_again-SetsErrno (write_error eother ∷ ws) (wrote m) ws' s h = ground arith
write_again-SetsErrno (write_error eother ∷ ws) (write_error e) ws' s h = ground arith

pub status_from_errno-ne_ok : (e : Errno) → e ≢ eok → status_from_errno e ≢ ok
unfolding status_from_errno
status_from_errno-ne_ok eok h = absurd (h refl)
status_from_errno-ne_ok eintr h = λ q. ground arith
status_from_errno-ne_ok etimedout h = λ q. ground arith
status_from_errno-ne_ok eagain h = λ q. ground arith
status_from_errno-ne_ok einval h = λ q. ground arith
status_from_errno-ne_ok eopnotsupp h = λ q. ground arith
status_from_errno-ne_ok enomem h = λ q. ground arith
status_from_errno-ne_ok ebusy h = λ q. ground arith
status_from_errno-ne_ok eacces h = λ q. ground arith
status_from_errno-ne_ok eperm h = λ q. ground arith
status_from_errno-ne_ok enodev h = λ q. ground arith
status_from_errno-ne_ok enoent h = λ q. ground arith
status_from_errno-ne_ok eother h = λ q. ground arith

-- Nothing is sent.
stopped :
    (t : ℤ) (rest : List ℕ) (done : ℕ) (line line' : Line) (st : HalStatus)
    → line'.sent ≡ line.sent
    → (st ≡ ok → ltb_ℤ t (pos 0) ≡ true → rest ≡ [])
    → Written t rest done line (returned (st, done) line')
stopped t rest done line line' st h why =
    subst (λ n. Written t rest done line (returned (st, n) line')) {x = done + 0} {y = done}
      (omega arith) (returns [] rest st line' refl (h ∙ sym (append-nil line.sent)) why)

module _ (next : List ℕ → ℕ → Line → Run (HalStatus × ℕ)) (t : ℤ) (rest : List ℕ) (done : ℕ)
    (line : Line) where
  abbrev Later : ℕ → Type 0
  Later fuel =
      (rest : List ℕ) (done : ℕ) (line : Line)
      → length line.polls < fuel
      → SetsErrno line.writes
      → Written t rest done line (next rest done line)

  write_step-Written :
      (fuel : ℕ) (ps : List PollAnswer) (o : Option (WriteAnswer × List WriteAnswer))
      → Later fuel
      → length ps < fuel
      → SetsErrno line.writes
      → write_again line.writes ≡ o
      → Written t rest done line (write_step next t rest done line ps o)
  unfolding write_step
  write_step-Written fuel ps none later f s e = waits
  write_step-Written fuel ps (some (write_error x, ws)) later f s e =
      stopped t rest done line _ (status_from_errno x) refl
        (λ q. absurd (status_from_errno-ne_ok x (write_again-SetsErrno line.writes _ ws s e).0 q))
  write_step-Written fuel ps (some (wrote n, ws)) later f s e = timed (ltb_ℤ t (pos 0)) refl (
      later (drop n rest) (done + length (take n rest)) line' f
        (write_again-SetsErrno line.writes _ ws s e).1)
    where
      line' : Line
      line' = record { polls = ps; writes = ws; sent = line.sent ++ take n rest }

      joined :
          (r : Run (HalStatus × ℕ))
          → Written t (drop n rest) (done + length (take n rest)) line' r
          → Written t rest done line r
      joined _ waits = waits
      joined _ (returns taken left st line'' q q' why) =
          subst (λ k. Written t rest done line (returned (st, k) line''))
            {x = done + length (take n rest ++ taken)}
            {y = done + length (take n rest) + length taken}
            (omega (arith, length-append (take n rest) taken))
            (returns (take n rest ++ taken) left st line''
              (sym (take-append-drop n rest)
                ∙ ap (◌++◌ (take n rest)) q
                ∙ sym (append_assoc (take n rest) taken left))
              (q' ∙ append_assoc line.sent (take n rest) taken) why)

      timed :
          (b : Bool)
          → ltb_ℤ t (pos 0) ≡ b
          → Written t
              (drop n rest)
              (done + length (take n rest))
              line'
              (next (drop n rest) (done + length (take n rest)) line')
          → Written t rest done line (
              if b
              then next (drop n rest) (done + length (take n rest)) line'
              else returned (ok, done + length (take n rest)) line')
      timed true e w = joined _ w
      timed false e w =
          returns (take n rest) (drop n rest) ok line' (sym (take-append-drop n rest)) refl
            (λ q q'. ground (arith, e, q'))

  wait_step-Written :
      (fuel : ℕ) (o : Option (HalStatus × List PollAnswer))
      → Later fuel
      → length line.polls < suc fuel
      → SetsErrno line.writes
      → wait_loop line.polls ≡ o
      → Written t rest done line (wait_step next t rest done line o)
  unfolding wait_step
  wait_step-Written fuel none later f s e = waits
  wait_step-Written fuel (some (ok, ps)) later f s e =
      write_step-Written fuel ps (write_again line.writes) later
        (omega (arith, wait_loop-shorter line.polls ok ps e)) s refl
  wait_step-Written fuel (some (err_io, ps)) later f s e =
      stopped t rest done line _ err_io refl (λ q. absurd (ground arith))
  wait_step-Written fuel (some (err_timeout, ps)) later f s e =
      stopped t rest done line _ err_timeout refl (λ q. absurd (ground arith))
  wait_step-Written fuel (some (err_invalid_param, ps)) later f s e =
      stopped t rest done line _ err_invalid_param refl (λ q. absurd (ground arith))
  wait_step-Written fuel (some (err_not_supported, ps)) later f s e =
      stopped t rest done line _ err_not_supported refl (λ q. absurd (ground arith))
  wait_step-Written fuel (some (err_no_memory, ps)) later f s e =
      stopped t rest done line _ err_no_memory refl (λ q. absurd (ground arith))
  wait_step-Written fuel (some (err_busy, ps)) later f s e =
      stopped t rest done line _ err_busy refl (λ q. absurd (ground arith))
  wait_step-Written fuel (some (err_permission, ps)) later f s e =
      stopped t rest done line _ err_permission refl (λ q. absurd (ground arith))
  wait_step-Written fuel (some (err_nodevice, ps)) later f s e =
      stopped t rest done line _ err_nodevice refl (λ q. absurd (ground arith))

-- The loop of `hal_uart_write` with more steps than poll has answers, where a write that fails sets
-- errno, waits for an answer or returns. It has sent the bytes from the start of the buffer up to those
-- that are left, each once, and counted them; without a timeout it returns HAL_OK only when none
-- are left.
pub write_loop-Written :
    (fuel : ℕ) (t : ℤ) (rest : List ℕ) (done : ℕ) (line : Line)
    → length line.polls < fuel
    → SetsErrno line.writes
    → Written t rest done line (write_loop fuel t rest done line)
unfolding write_loop
write_loop-Written zero t rest done line f s = absurd (omega arith)
write_loop-Written (suc fuel) t [] done line f s =
    stopped t [] done line line ok refl (λ q q'. refl)
write_loop-Written (suc fuel) t (b ∷ rest) done line f s =
    wait_step-Written (write_loop fuel t) t (b ∷ rest) done line fuel (wait_loop line.polls)
      (λ rest done line f s. write_loop-Written fuel t rest done line f s) f s refl
