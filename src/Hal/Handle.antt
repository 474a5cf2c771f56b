-- ===== src/Hal/Handle.antt =====
-- What the drivers of platform/hal/src share: how a handle is closed, its descriptor read, and the
-- result of a call checked. A pointer argument is an Option, and NULL is `none`.
pub mod Spec
pub mod Samples
pub mod Wait
use emberlite.Common.{
  ℕ, zero, suc, ltb_ℤ, first, bit_and, ◌∷◌, Bool, true, false, Option, none, some, List, [], ltb,
  ◌==◌, if◌then◌else◌, take, ℤ, pos, negsuc,
}
use emberlite.Hal.{
  HalStatus, ok, err_io, err_timeout, err_invalid_param, err_not_supported, err_no_memory, err_busy,
  err_permission, err_nodevice, Errno, eintr, status_from_errno,
}
use emberlite.Hal.Sys.{
  read, halt, Call, close, malloc, free, mutex_init, mutex_lock, mutex_unlock, mutex_destroy,
  Answer, failed, done, Io, ret, sys, ◌>>=◌, ◌>>◌,
}

-- `st != HAL_OK`
abbrev pub not_ok : HalStatus → Bool
not_ok ok = false
not_ok st = true

-- `!data && len > 0`
abbrev pub no_data : Option (List ℕ) → ℕ → Bool
no_data none len = ltb 0 len
no_data (some data_bytes) len = false

-- The same for a buffer to read into, of which only matters whether it is there.
abbrev pub no_buffer : Bool → ℕ → Bool
no_buffer true len = false
no_buffer false len = ltb 0 len

-- The first `len` bytes behind a pointer that is NULL only for none.
abbrev pub bytes_at : Option (List ℕ) → ℕ → List ℕ
bytes_at none len = []
bytes_at (some data_bytes) len = take len data_bytes

-- The tests of the result of a read or write of `len` bytes, which is to be `len`.
unfoldable pub count_status : ℕ → Answer → HalStatus
unfolding status_from_errno
count_status len (failed e) = status_from_errno e
count_status len (done v bs e) = if v == len then ok else err_io

-- What a read of a buffer stores.
abbrev pub stored : Answer → List ℕ
stored (failed e) = []
stored (done v bs e) = bs

-- The descriptor of a handle, read under its lock: `none` is a negative number.
unfoldable pub locked_fd : {A : Type 0} → Option ℕ → A → (ℕ → Io A) → Io A
locked_fd none closed use_fd = do sys mutex_lock; sys mutex_unlock; ret closed
locked_fd (some fd) closed use_fd = do sys mutex_lock; sys mutex_unlock; use_fd fd

-- The closing of a handle: its descriptor is taken out under the lock, then closed.
unfoldable pub close_handle : Option ℕ → Io HalStatus
close_handle none = do sys mutex_lock; sys mutex_unlock; sys mutex_destroy; sys free; ret ok
close_handle (some fd) = do
  sys mutex_lock
  sys mutex_unlock
  sys (close fd)
  sys mutex_destroy
  sys free
  ret ok

-- `int` for a descriptor.
abbrev pub int_of_fd : Option ℕ → ℤ
int_of_fd none = negsuc 0
int_of_fd (some fd) = pos fd

-- The descriptor of a handle, or -1 for NULL.
unfoldable pub handle_fd : {H : Type 0} → (H → Option ℕ) → Option H → Io ℤ
handle_fd fd_of none = ret (negsuc 0)
handle_fd fd_of (some h) = do sys mutex_lock; sys mutex_unlock; ret (int_of_fd (fd_of h))

-- The ends of an open behind its descriptor: it is closed again for an error, or memory for the handle
-- is asked for, and its mutex made.
module _ {H : Type 0} where
  unfoldable pub close_with : ℕ → HalStatus → Io (HalStatus × Option H)
  close_with fd st = do sys (close fd); ret (st, none)

  unfoldable pub alloc_handle : ℕ → H → Io (HalStatus × Option H)
  unfolding close_with
  alloc_handle fd h = do
    block ← sys (malloc 1)
    elim block [
      | failed e ↦ close_with fd err_no_memory
      | done p bs e ↦ do sys mutex_init; ret (ok, some h)
    ]

-- The timeout that is passed to poll: any negative one as -1.
abbrev pub poll_time : ℤ → ℤ
poll_time timeout_ms = if ltb_ℤ timeout_ms (pos 0) then negsuc 0 else timeout_ms

abbrev pub is_eintr : Errno → Bool
is_eintr eintr = true
is_eintr e = false

-- `revents & (POLLERR | POLLHUP | POLLNVAL)`
abbrev pub poll_errors : ℕ
poll_errors = 0x38

-- What the wait makes of an answer that is not an interruption.
unfoldable pub poll_status : ℕ → List ℕ → HalStatus
poll_status rc revents =
    if rc == 0 then err_timeout else if bit_and (first revents) poll_errors == 0 then ok else err_io

-- The wait for a descriptor, by the call `poll`.
unfoldable pub wait_fd : ℕ → Call → Io HalStatus
unfolding status_from_errno poll_status
wait_fd zero poll = halt
wait_fd (suc fuel) poll = do
  a ← sys poll
  elim a [
    | failed e ↦ if is_eintr e then wait_fd fuel poll else ret (status_from_errno e)
    | done rc revents e ↦ ret (poll_status rc revents)
  ]

-- A read that is made again after an interruption.
unfoldable pub read_again : ℕ → ℕ → ℕ → Io Answer
read_again zero fd len = halt
read_again (suc fuel) fd len = do
  a ← sys (read fd len)
  elim a [
    | failed e ↦ if is_eintr e then read_again fuel fd len else ret (failed e)
    | done v bs e ↦ ret (done v bs e)
  ]
