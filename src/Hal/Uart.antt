-- ===== src/Hal/Uart.antt =====
-- platform/hal/src/hal_uart.c: waiting for the line, and writing to it. What poll and write answer is a
-- script of answers in order.
pub mod Config
pub mod Device
pub mod Write
mod Tests
use emberlite.Common.{
  ℕ, zero, suc, ◌+◌, Bool, true, false, Option, none, some, List, [], ◌∷◌, ◌++◌, ◌==◌, ltb,
  if◌then◌else◌, length, take, drop, ℤ, pos, negsuc, ltb_ℤ,
}
use emberlite.Hal.{
  HalStatus, ok, err_io, err_timeout, err_invalid_param, Errno, eintr, status_from_errno,
}

-- `poll_ready true` has POLLERR, POLLHUP or POLLNVAL among its events.
pub data PollAnswer : Type 0 where
  poll_error : Errno → PollAnswer
  poll_timeout : PollAnswer
  poll_ready : Bool → PollAnswer

-- `wrote n` takes `n` of the bytes that are offered, or all if there are fewer.
pub data WriteAnswer : Type 0 where
  write_error : Errno → WriteAnswer
  wrote : ℕ → WriteAnswer

-- The answers to come, and what was sent so far.
pub record Line : Type 0 where
  pub polls : List PollAnswer
  pub writes : List WriteAnswer
  pub sent : List ℕ

-- The end of a call: it returns, waits for an answer that the script does not have, or runs out of
-- fuel.
pub data Run (A : Type 0) : Type 0 where
  returned : A → Line → Run A
  waiting : Run A
  out_of_fuel : Run A

-- The loop of `hal_uart_wait_fd` over EINTR, and the tests behind it.
pub wait_loop : List PollAnswer → Option (HalStatus × List PollAnswer)
wait_loop [] = none
wait_loop (poll_error eintr ∷ ps) = wait_loop ps
wait_loop (poll_error e ∷ ps) = some (status_from_errno e, ps)
wait_loop (poll_timeout ∷ ps) = some (err_timeout, ps)
wait_loop (poll_ready bad ∷ ps) = some (if bad then err_io else ok, ps)

-- The inner loop of `hal_uart_write` over EINTR.
pub write_again : List WriteAnswer → Option (WriteAnswer × List WriteAnswer)
write_again [] = none
write_again (write_error eintr ∷ ws) = write_again ws
write_again (write_error e ∷ ws) = some (write_error e, ws)
write_again (wrote n ∷ ws) = some (wrote n, ws)

-- The loop's body behind the write: `rest` is the buffer from `written` on, and `next` the next round.
pub write_step :
    (List ℕ → ℕ → Line → Run (HalStatus × ℕ))
    → ℤ
    → List ℕ
    → ℕ
    → Line
    → List PollAnswer
    → Option (WriteAnswer × List WriteAnswer)
    → Run (HalStatus × ℕ)
write_step next timeout_ms rest written line ps none = waiting
write_step next timeout_ms rest written line ps (some (write_error e, ws)) =
    returned (status_from_errno e, written) (record line { polls = ps; writes = ws })
write_step next timeout_ms rest written line ps (some (wrote n, ws)) =
    let bytes = take n rest in
    let line' : Line = record { polls = ps; writes = ws; sent = line.sent ++ bytes } in
    if ltb_ℤ timeout_ms (pos 0)
    then next (drop n rest) (written + length bytes) line'
    else returned (ok, written + length bytes) line'

-- The body behind the wait.
pub wait_step :
    (List ℕ → ℕ → Line → Run (HalStatus × ℕ))
    → ℤ
    → List ℕ
    → ℕ
    → Line
    → Option (HalStatus × List PollAnswer)
    → Run (HalStatus × ℕ)
unfolding write_again write_step
wait_step next timeout_ms rest written line none = waiting
wait_step next timeout_ms rest written line (some (ok, ps)) =
    write_step next timeout_ms rest written line ps (write_again line.writes)
wait_step next timeout_ms rest written line (some (st, ps)) =
    returned (st, written) (record line { polls = ps })

-- `while (written < length)`: the status, and `written`.
pub write_loop : ℕ → ℤ → List ℕ → ℕ → Line → Run (HalStatus × ℕ)
unfolding wait_loop wait_step
write_loop zero timeout_ms rest written line = out_of_fuel
write_loop (suc fuel) timeout_ms [] written line = returned (ok, written) line
write_loop (suc fuel) timeout_ms (b ∷ rest) written line =
    wait_step (write_loop fuel timeout_ms) timeout_ms (b ∷ rest) written line (wait_loop line.polls)

-- `hal_uart_write` with a pointer for `out_write_len`, to which it writes the second part of the result;
-- `none` there is that nothing was written. The handle is its file descriptor, and NULL is `none`.
pub uart_write : ℕ → Option ℤ → Option (List ℕ) → ℕ → ℤ → Line → Run (HalStatus × Option ℕ)
unfolding write_loop
uart_write fuel none buffer len timeout_ms line = returned (err_invalid_param, none) line
uart_write fuel (some fd) none len timeout_ms line =
    if ltb 0 len then returned (err_invalid_param, none) line else returned (ok, some 0) line
uart_write fuel (some fd) (some buffer) len timeout_ms line =
    if len == 0
    then returned (ok, some 0) line
    else if ltb_ℤ fd (pos 0)
    then returned (err_io, some 0) line
    else elim (write_loop fuel timeout_ms (take len buffer) 0 line) [
      | returned r line' ↦ returned (r.0, some r.1) line'
      | waiting ↦ waiting
      | out_of_fuel ↦ out_of_fuel
    ]
