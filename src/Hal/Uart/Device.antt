-- ===== src/Hal/Uart/Device.antt =====
-- The rest of hal_uart.c: the handle of a line, from its open to its close, and reading from it.
pub mod Open
pub mod Read
mod Tests
use emberlite.Common.{
  ℕ, Bool, true, false, Option, none, some, List, [], ◌∷◌, ◌==◌, not, ◌||◌, ◌&&◌, if◌then◌else◌, ℤ,
}
use emberlite.Hal.{HalStatus, ok, err_io, err_invalid_param, err_no_memory, status_from_errno}
use emberlite.Hal.Termios.{Termios, clear, set_bits, termios_of, cbaud, bother}
use emberlite.Hal.Sys.{
  read_write, open_file, close, read, poll_in, ioctl, get_attributes, get_attributes2,
  set_attributes, set_attributes2, flush_both, set_input_speed, set_output_speed, malloc, free,
  mutex_init, mutex_lock, mutex_unlock, mutex_destroy, Answer, failed, done, Io, ret, sys, ◌>>=◌,
  ◌>>◌,
}
use emberlite.Hal.Handle.{
  not_ok, no_buffer, locked_fd, close_with, handle_fd, wait_fd, poll_time, read_again,
}
use emberlite.Hal.Uart.Config.{UartConfig, attributes_for, baud_to_speed}

-- `struct hal_uart_handle_impl`. `tio_saved` is none while `has_saved` is 0.
pub record UartHandle : Type 0 where
  pub fd : Option ℕ
  pub cfg : UartConfig
  pub tio_saved : Option Termios

-- The status of a call whose result is tested for 0.
unfoldable pub zero_status : Answer → HalStatus
unfolding status_from_errno
zero_status (failed e) = status_from_errno e
zero_status (done v bs e) = ok

-- The attributes with BOTHER in place of a code.
abbrev pub other_rate : Termios → Termios
other_rate tio = record tio { cflag = set_bits (bother ∷ []) (clear cbaud tio.cflag) }

-- `hal_uart_apply_termios_baud_linux`: of TCGETS2 only the result is kept.
pub apply_baud_linux : ℕ → Termios → ℕ → Io HalStatus
unfolding zero_status
apply_baud_linux fd tio baud = do
  g ← sys (ioctl fd get_attributes2)
  if not_ok (zero_status g)
      then ret (zero_status g)
      else do r ← sys (ioctl fd (set_attributes2 (other_rate tio) baud)); ret (zero_status r)

pub apply_baud : ℕ → Termios → ℕ → Io HalStatus
unfolding apply_baud_linux zero_status baud_to_speed
apply_baud fd tio baud = if baud_to_speed baud == 0 then apply_baud_linux fd tio baud else do
  i ← sys (set_input_speed (baud_to_speed baud))
  if not_ok (zero_status i) then ret (zero_status i) else do
    o ← sys (set_output_speed (baud_to_speed baud))
    if not_ok (zero_status o) then ret (zero_status o) else do
      r ← sys (ioctl fd (set_attributes tio (some (baud_to_speed baud))))
      ret (zero_status r)

-- The attributes to go back to, which the first configuration saves.
pub saved_by : Bool → Termios → Option Termios → Option Termios
saved_by keep_saved tio (some saved) = some saved
saved_by true tio none = none
saved_by false tio none = some tio

-- `hal_uart_apply_config_locked` behind tcgetattr: the result, and the handle.
pub apply_attributes : UartHandle → ℕ → UartConfig → Option Termios → Io (HalStatus × UartHandle)
unfolding apply_baud
apply_attributes h fd cfg none = ret (err_invalid_param, h)
apply_attributes h fd cfg (some tio) = do
  st ← apply_baud fd tio cfg.baudrate
  if not_ok st then ret (st, h) else ret (ok, record h { cfg = cfg })

pub apply_config : UartHandle → ℕ → UartConfig → Bool → Io (HalStatus × UartHandle)
unfolding apply_attributes attributes_for saved_by status_from_errno termios_of
apply_config h fd cfg keep_saved = do
  g ← sys (ioctl fd get_attributes)
  elim g [
    | failed e ↦ ret (status_from_errno e, h)
    | done v words e ↦
        apply_attributes
          (record h { tio_saved = saved_by keep_saved (termios_of words) h.tio_saved }) fd cfg
          (attributes_for cfg (termios_of words))
  ]

-- The new handle of hal_uart_open, which calloc has cleared.
abbrev pub new_handle : ℕ → UartHandle
new_handle fd = record {
  fd = some fd;
  cfg = record {
    path = none;
    baudrate = 0;
    data_bits = 0;
    stop_bits = 0;
    parity = 0;
    flow_control = 0;
  };
  tio_saved = none;
}

pub uart_open_path : UartConfig → List ℕ → Io (HalStatus × Option UartHandle)
unfolding apply_config close_with status_from_errno
uart_open_path config path = do
  opened ← sys (open_file path read_write)
  elim opened [
    | failed e ↦ ret (status_from_errno e, none)
    | done fd bs e ↦ do
      block ← sys (malloc 1)
      elim block [
        | failed e ↦ close_with fd err_no_memory
        | done p bs e ↦ do
          sys mutex_init
          sys mutex_lock
          r ← apply_config (new_handle fd) fd config false
          sys mutex_unlock
          if not_ok r.0
              then (do sys (close fd); sys mutex_destroy; sys free; ret (r.0, none))
              else ret (ok, some r.1)
      ]
  ]

pub uart_open : Option UartConfig → Bool → Io (HalStatus × Option UartHandle)
unfolding uart_open_path
uart_open none out_handle = ret (err_invalid_param, none)
uart_open (some config) out_handle = elim config.path [
  | none ↦ ret (err_invalid_param, none)
  | some path ↦
      if not out_handle || (config.baudrate == 0)
      then ret (err_invalid_param, none)
      else uart_open_path config path
]

-- What hal_uart_close puts the line back to, under the lock.
pub restore : Option ℕ → Option Termios → Io (Unit {0})
restore (some fd) (some saved) = do sys (ioctl fd (set_attributes saved none)); ret tt
restore fd saved = ret tt

-- errno behind a call.
abbrev pub errno_of : Answer → HalStatus
errno_of (failed e) = status_from_errno e
errno_of (done v bs e) = status_from_errno e

-- The end of `hal_uart_close` behind its unlock. When close fails, errno is read behind `free`, which may
-- have changed it.
pub uart_close_fd : Option ℕ → Io HalStatus
unfolding status_from_errno
uart_close_fd none = do sys mutex_destroy; sys free; ret ok
uart_close_fd (some fd) = do
  c ← sys (close fd)
  sys mutex_destroy
  f ← sys free
  elim c [ failed e ↦ ret (errno_of f) | done v bs e ↦ ret ok ]

pub uart_close : Option UartHandle → Io HalStatus
unfolding restore uart_close_fd
uart_close none = ret err_invalid_param
uart_close (some h) = do
  sys mutex_lock
  restore h.fd h.tio_saved
  sys mutex_unlock
  uart_close_fd h.fd

-- `hal_uart_read`: the result, the bytes that it stores, and what it writes to `*out_read_len`, whose
-- pointer is not NULL. The flag is that `buffer` is not NULL.
pub uart_read : ℕ → Option UartHandle → Bool → ℕ → ℤ → Io (HalStatus × List ℕ × Option ℕ)
unfolding locked_fd wait_fd read_again status_from_errno
uart_read fuel none buffer len timeout_ms = ret (err_invalid_param, [], none)
uart_read fuel (some h) buffer len timeout_ms =
    if no_buffer buffer len
    then ret (err_invalid_param, [], none)
    else if len == 0
    then ret (ok, [], some 0)
    else locked_fd h.fd (err_io, [], some 0)
        λ fd. do
          st ← wait_fd fuel (poll_in fd (poll_time timeout_ms))
          if not_ok st then ret (st, [], some 0) else do
            r ← read_again fuel fd len
            elim r [
              | failed e ↦ ret (status_from_errno e, [], some 0)
              | done v bs e ↦ ret (ok, bs, some v)
            ]

-- `hal_uart_set_baudrate`: the result, and the handle behind it.
pub uart_set_baudrate : Option UartHandle → ℕ → Io (HalStatus × Option UartHandle)
unfolding apply_config
uart_set_baudrate none baudrate = ret (err_invalid_param, none)
uart_set_baudrate (some h) baudrate = if baudrate == 0 then ret (err_invalid_param, some h) else do
  sys mutex_lock
  elim h.fd [
    | none ↦ do sys mutex_unlock; ret (err_io, some h)
    | some fd ↦ do
      let cfg : UartConfig = record h.cfg { baudrate = baudrate }
      r ← apply_config h fd cfg true
      sys mutex_unlock
      ret (r.0, some r.1)
  ]

pub uart_flush : Option UartHandle → Io HalStatus
unfolding locked_fd zero_status
uart_flush none = ret err_invalid_param
uart_flush (some h) =
    locked_fd h.fd err_io λ fd. do r ← sys (ioctl fd flush_both); ret (zero_status r)

pub uart_get_fd : Option UartHandle → Io ℤ
unfolding handle_fd
uart_get_fd = handle_fd UartHandle.fd
