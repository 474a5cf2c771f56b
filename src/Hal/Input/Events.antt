-- ===== src/Hal/Input/Events.antt =====
-- That hal_input_read_event of hal_input.c ends, and what it has read then.
use emberlite.Common.{
  ℕ, ◌<◌, ◌≡◌, ◌≢◌, ap, sym, ◌∙◌, arith, true, Option, none, some, List, [], ◌∷◌, ◌++◌, length,
  ◌==◌, if◌then◌else◌, ℤ, is_zero,
}
use emberlite.Hal.{HalStatus, ok, err_io, Errno, eagain, status_from_errno}
use emberlite.Hal.Sys.{has, unlocked, failed, done, Answer, ret, Held, Ensures}
use emberlite.Hal.Sys.Rules.{ret-Ensures, if-Ensures, >>=-Ensures}
use emberlite.Hal.Handle.{not_ok, read_again, poll_time}
use emberlite.Hal.Handle.Spec.{
  Keeps, Keeps-trans, Keeps-idle, Holds, not_ok-true, locked_fd-Ensures,
}
use emberlite.Hal.Handle.Wait.{
  Waited, Waited-refl, wait_fd-Waited, HasRead, read_failed, read_bytes, read_again-HasRead,
}
use emberlite.Hal.Input.Layout.{event_bytes, InRange, event_bytes-event_of}
use emberlite.Hal.Input.{
  InputHandle, InputEvent, event_of, input_wait, wait_unless_zero, read_error, read_event_from,
  input_read_event,
}

-- The end: HAL_OK with the event that the bytes of one read of the descriptor lay out, its numbers in the
-- ranges of their types; or no event, where either the one read stored another number of bytes, or
-- nothing was read. The process holds what it did.
pub data EventRead (fd : ℕ) (s : Held) : HalStatus × Option InputEvent → Held → Type 0 where
  event_read :
      (ev : InputEvent) (s' : Held)
      → InRange ev
      → Keeps s s'
      → s'.reads ≡ s.reads ++ ((fd, event_bytes ev) ∷ [])
      → EventRead fd s (ok, some ev) s'
  cut_read :
      (bs : List ℕ) (s' : Held)
      → length bs ≢ 24
      → Keeps s s'
      → s'.reads ≡ s.reads ++ ((fd, bs) ∷ [])
      → EventRead fd s (err_io, none) s'
  no_event :
      (st : HalStatus) (s' : Held)
      → st ≢ ok
      → Keeps s s'
      → s'.reads ≡ s.reads
      → EventRead fd s (st, none) s'

read_error-ne_ok : (e : Errno) → status_from_errno e ≢ ok → read_error e ≢ ok
unfolding read_error
read_error-ne_ok eagain h = λ q. ground arith
read_error-ne_ok e h = h

wait_unless_zero-Waited :
    (fuel fd : ℕ) (t : ℤ) (s : Held)
    → s.interrupts < fuel
    → has fd s.fds ≡ true
    → Ensures (λ st s'. Waited s s') (wait_unless_zero fuel fd t) s
unfolding wait_unless_zero input_wait
wait_unless_zero-Waited fuel fd t s f h =
    if-Ensures (is_zero t) (λ q. ret-Ensures (Waited-refl s))
      (λ q. wait_fd-Waited fuel fd (poll_time t) s f h)

read_event_from-EventRead :
    (fuel fd : ℕ) (s s' : Held)
    → Keeps s s'
    → s'.reads ≡ s.reads
    → s'.interrupts < fuel
    → has fd s'.fds ≡ true
    → Ensures (EventRead fd s) (read_event_from fuel fd) s'
unfolding read_event_from
read_event_from-EventRead fuel fd s s' k r f h =
    >>=-Ensures (read_again fuel fd 24) _ s' (read_again-HasRead fuel fd 24 s' f h) ends
  where
    ends :
        (a : Answer) (s'' : Held)
        → HasRead fd 24 s' a s''
        → Ensures
            (EventRead fd s)
            (elim a [
              | failed e ↦ ret (read_error e, none)
              | done v bs e ↦ if v == 24 then ret (ok, some (event_of bs)) else ret (err_io, none)
            ])
            s''
    ends _ _ (read_failed e s'' ne v) =
        ret-Ensures (
          no_event (read_error e) s'' (read_error-ne_ok e ne) (Keeps-trans k v.keeps) (v.reads ∙ r))
    ends _ _ (read_bytes bs e s'' l b v q) =
        let stored : s''.reads ≡ s.reads ++ ((fd, bs) ∷ []) =
          q ∙ ap (λ rs. rs ++ ((fd, bs) ∷ [])) r in
        if-Ensures (length bs == 24)
          (λ z.
            let same = event_bytes-event_of bs (ground (arith, z)) b in
            ret-Ensures (
              event_read (event_of bs) s'' same.1 (Keeps-trans k v)
                (stored ∙ ap (λ x. s.reads ++ ((fd, x) ∷ [])) (sym same.0))))
          (λ z. ret-Ensures (cut_read bs s'' (ground (arith, z)) (Keeps-trans k v) stored))

-- hal_input_read_event, given a place for the event, on a handle that the process holds, when signals
-- interrupt its calls fewer times than its loops have steps: it returns, whatever else the system
-- answers, with HAL_OK and the event whose 24 bytes, in the layout of `struct input_event`, its one
-- read of the descriptor has stored, each number in the range of its type; or with an error and no
-- event, where it has read another number of bytes once, or nothing. The process holds what it did.
pub input_read_event-EventRead :
    (fuel : ℕ) (h : InputHandle) (fd : ℕ) (t : ℤ) (s : Held)
    → h.fd ≡ some fd
    → Holds fd s
    → s.interrupts < fuel
    → Ensures (EventRead fd s) (input_read_event fuel (some h) true t) s
unfolding input_read_event
input_read_event-EventRead fuel h fd t s e o f = locked_fd-Ensures h.fd _ _ fd e o (
    >>=-Ensures (wait_unless_zero fuel fd t) _ _
      (wait_unless_zero-Waited fuel fd t (record s { mutex = unlocked }) f o.fd_held)
      λ st s' w.
        if-Ensures (not_ok st)
          (λ r. ret-Ensures (no_event st s' (not_ok-true st r) (Keeps-trans idle w.keeps) w.reads))
          λ r.
            read_event_from-EventRead fuel fd s s' (Keeps-trans idle w.keeps) w.reads
              (omega (arith, f, w.interrupts)) (ap (has fd) w.keeps.fds ∙ o.fd_held))
  where
    idle : Keeps s (record s { mutex = unlocked })
    idle = Keeps-idle s o.mutex_held
