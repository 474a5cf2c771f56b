-- ===== src/Hal/Watchdog.antt =====
-- platform/hal/src/hal_system.c: the watchdog.
mod Tests
use emberlite.Common.{
  ℕ, Bool, true, false, Option, none, some, List, [], ◌∷◌, ◌==◌, if◌then◌else◌, literal,
}
use emberlite.Hal.{
  HalStatus, ok, err_io, err_invalid_param, err_no_memory, Errno, status_from_errno,
}
use emberlite.Hal.Sys.{
  write_only, open_file, close, write, ioctl, watchdog_timeout, malloc, free, mutex_init,
  mutex_lock, mutex_unlock, mutex_destroy, Answer, failed, done, Io, ret, sys, ◌>>=◌, ◌>>◌,
}
use emberlite.Hal.Handle.{locked_fd}

-- `struct hal_watchdog_handle_impl`
pub record WatchdogHandle : Type 0 where
  pub fd : Option ℕ

-- errno behind a call.
abbrev pub errno_behind : Answer → Errno
errno_behind (failed e) = e
errno_behind (done v bs e) = e

abbrev pub dev_path_or : Option (List ℕ) → List ℕ
dev_path_or none = literal "/dev/watchdog"
dev_path_or (some dev_path) = dev_path

-- `hal_watchdog_open`. When the device cannot be opened, errno is read behind `free`, which may have
-- changed it.
pub watchdog_open : Option (List ℕ) → Bool → Io (HalStatus × Option WatchdogHandle)
unfolding status_from_errno
watchdog_open dev_path false = ret (err_invalid_param, none)
watchdog_open dev_path true = do
  block ← sys (malloc 1)
  elim block [
    | failed e ↦ ret (err_no_memory, none)
    | done p bs e ↦ do
      sys mutex_init
      opened ← sys (open_file (dev_path_or dev_path) write_only)
      elim opened [
        | failed e ↦ do
          sys mutex_destroy
          f ← sys free
          ret (status_from_errno (errno_behind f), none)
        | done fd bs e ↦ ret (ok, some (record { fd = some fd }))
      ]
  ]

-- The byte 'V' before the close stops the watchdog.
pub watchdog_close : Option WatchdogHandle → Io HalStatus
watchdog_close none = ret err_invalid_param
watchdog_close (some h) = do
  sys mutex_lock
  sys mutex_unlock
  elim h.fd [
    | none ↦ do sys mutex_destroy; sys free; ret ok
    | some fd ↦ do sys (write fd (b'V' ∷ [])); sys (close fd); sys mutex_destroy; sys free; ret ok
  ]

-- A write that takes nothing leaves errno as it was.
pub feed_status : Answer → HalStatus
unfolding status_from_errno
feed_status (failed e) = status_from_errno e
feed_status (done v bs e) = if v == 1 then ok else status_from_errno e

pub watchdog_feed : Option WatchdogHandle → Io HalStatus
unfolding locked_fd feed_status
watchdog_feed none = ret err_invalid_param
watchdog_feed (some h) =
    locked_fd h.fd err_io λ fd. do w ← sys (write fd (0 ∷ [])); ret (feed_status w)

pub watchdog_set_timeout : Option WatchdogHandle → ℕ → Io HalStatus
unfolding locked_fd status_from_errno
watchdog_set_timeout none seconds = ret err_invalid_param
watchdog_set_timeout (some h) seconds = locked_fd h.fd err_io λ fd. do
  r ← sys (ioctl fd (watchdog_timeout seconds))
  elim r [ failed e ↦ ret (status_from_errno e) | done v bs e ↦ ret ok ]
