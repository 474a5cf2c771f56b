-- ===== src/Hal/Input.antt =====
-- platform/hal/src/hal_input.c: events of an input device. `struct input_event` has 24 bytes on a 64-bit
-- board, each number lowest byte first: seconds, microseconds, type, code and value.
pub mod Layout
pub mod Events
mod Tests
use emberlite.Common.{
  ℕ, zero, suc, ◌+◌, ◌-◌, ◌*◌, ◌^◌, Bool, true, false, Option, none, some, List, [], ◌∷◌, ◌==◌, ltb,
  if◌then◌else◌, ℤ, pos, negsuc, is_zero, take, drop,
}
use emberlite.Hal.{
  HalStatus, ok, err_io, err_timeout, err_invalid_param, Errno, eagain, status_from_errno,
}
use emberlite.Hal.Sys.{
  read_only, open_file, poll_in, Answer, failed, done, Io, ret, sys, ◌>>=◌, ◌>>◌,
}
use emberlite.Hal.Handle.{
  not_ok, locked_fd, alloc_handle, close_handle, handle_fd, wait_fd, poll_time, read_again,
}

-- `struct hal_input_handle_impl`
pub record InputHandle : Type 0 where
  pub fd : Option ℕ

-- `hal_input_event_t`; `type` is a keyword.
pub record InputEvent : Type 0 where
  pub time_sec : ℕ
  pub time_usec : ℕ
  pub event_type : ℕ
  pub code : ℕ
  pub value : ℤ

-- The number of bytes with the lowest first, and of 32 bits with a sign.
pub unsigned_of : List ℕ → ℕ
unsigned_of [] = 0
unsigned_of (b ∷ bs) = b + 256 * unsigned_of bs

pub signed_of : ℕ → ℤ
signed_of n = if ltb n (2 ^ 31) then pos n else negsuc (2 ^ 32 - 1 - n)

pub event_of : List ℕ → InputEvent
unfolding unsigned_of signed_of
event_of ev = record {
  time_sec = unsigned_of (take 8 ev);
  time_usec = unsigned_of (take 8 (drop 8 ev));
  event_type = unsigned_of (take 2 (drop 16 ev));
  code = unsigned_of (take 2 (drop 18 ev));
  value = signed_of (unsigned_of (take 4 (drop 20 ev)));
}

pub input_open_path : List ℕ → Io (HalStatus × Option InputHandle)
unfolding alloc_handle status_from_errno
input_open_path device_path = do
  opened ← sys (open_file device_path read_only)
  elim opened [
    | failed e ↦ ret (status_from_errno e, none)
    | done fd bs e ↦ alloc_handle fd (record { fd = some fd })
  ]

-- `hal_input_open`. The configuration is its `device_path`.
pub input_open : Option (Option (List ℕ)) → Bool → Io (HalStatus × Option InputHandle)
unfolding input_open_path
input_open none out_handle = ret (err_invalid_param, none)
input_open (some none) out_handle = ret (err_invalid_param, none)
input_open (some (some device_path)) out_handle =
    if out_handle then input_open_path device_path else ret (err_invalid_param, none)

pub input_close : Option InputHandle → Io HalStatus
unfolding close_handle
input_close none = ret err_invalid_param
input_close (some h) = close_handle h.fd

-- `wait_fd` of hal_input.c, which waits for POLLIN.
unfoldable pub input_wait : ℕ → ℕ → ℤ → Io HalStatus
unfolding wait_fd
input_wait fuel fd timeout_ms = wait_fd fuel (poll_in fd (poll_time timeout_ms))

-- The wait, unless the timeout is 0.
pub wait_unless_zero : ℕ → ℕ → ℤ → Io HalStatus
unfolding input_wait
wait_unless_zero fuel fd timeout_ms =
    if is_zero timeout_ms then ret ok else input_wait fuel fd timeout_ms

-- EAGAIN of a read that does not block is a timeout.
pub read_error : Errno → HalStatus
unfolding status_from_errno
read_error eagain = err_timeout
read_error e = status_from_errno e

pub read_event_from : ℕ → ℕ → Io (HalStatus × Option InputEvent)
unfolding event_of read_again read_error
read_event_from fuel fd = do
  r ← read_again fuel fd 24
  elim r [
    | failed e ↦ ret (read_error e, none)
    | done v bs e ↦ if v == 24 then ret (ok, some (event_of bs)) else ret (err_io, none)
  ]

-- `hal_input_read_event`: the result, and what it writes to `*out_event`. The flag is that this pointer
-- is not NULL.
pub input_read_event : ℕ → Option InputHandle → Bool → ℤ → Io (HalStatus × Option InputEvent)
unfolding locked_fd wait_unless_zero read_event_from
input_read_event fuel none out_event timeout_ms = ret (err_invalid_param, none)
input_read_event fuel (some h) false timeout_ms = ret (err_invalid_param, none)
input_read_event fuel (some h) true timeout_ms =
    locked_fd h.fd (err_io, none)
      λ fd. do
        st ← wait_unless_zero fuel fd timeout_ms
        if not_ok st then ret (st, none) else read_event_from fuel fd

pub input_get_fd : Option InputHandle → Io ℤ
unfolding handle_fd
input_get_fd = handle_fd InputHandle.fd
