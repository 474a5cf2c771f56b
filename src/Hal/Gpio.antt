-- ===== src/Hal/Gpio.antt =====
-- platform/hal/src/hal_gpio.c: a pin, through the files of sysfs.
pub mod Level
pub mod Open
mod Tests
use emberlite.Common.{
  ℕ, Bool, true, false, Option, none, some, List, [], ◌∷◌, ◌++◌, ◌==◌, ◌||◌, not, if◌then◌else◌, ℤ,
  literal, first,
}
use emberlite.Hal.{
  HalStatus, ok, err_io, err_invalid_param, err_not_supported, err_no_memory, Errno, ebusy,
  status_from_errno,
}
use emberlite.Hal.Sys.{
  read_write, open_file, read, write, rewind, malloc, mutex_init, failed, done, Io, ret, sys, ◌>>=◌,
  ◌>>◌,
}
use emberlite.Hal.Handle.{not_ok, locked_fd, close_with, close_handle, handle_fd}
use emberlite.Hal.Text.{decimal, snprintf, write_text_file}

-- `hal_gpio_config_t`
pub record GpioConfig : Type 0 where
  pub pin : ℕ
  pub direction : ℕ
  pub pull_mode : ℕ
  pub initial_level : ℕ

-- `struct hal_gpio_handle_impl`
pub record GpioHandle : Type 0 where
  pub pin : ℕ
  pub fd_value : Option ℕ
  pub direction : ℕ

-- The status of an errno that write_text_file gives.
abbrev pub status_of : Option Errno → HalStatus
status_of none = ok
status_of (some e) = status_from_errno e

-- An export that fails because the pin is exported is none.
unfoldable pub export_status : Option Errno → HalStatus
unfolding status_from_errno
export_status (some ebusy) = ok
export_status r = status_of r

pub gpio_export : ℕ → Io HalStatus
unfolding decimal write_text_file export_status
gpio_export pin = do
  r ← write_text_file (literal "/sys/class/gpio/export") (snprintf 32 (decimal pin))
  ret (export_status r)

-- A file of the pin.
abbrev pub gpio_path : ℕ → List ℕ → List ℕ
gpio_path pin name = snprintf 128 (literal "/sys/class/gpio/gpio" ++ (decimal pin ++ name))

pub gpio_set_direction : ℕ → ℕ → Io HalStatus
unfolding write_text_file status_from_errno
gpio_set_direction pin direction =
    let path = gpio_path pin (literal "/direction") in
    if direction == 0
    then (do r ← write_text_file path (literal "in"); ret (status_of r))
    else if direction == 1
    then (do r ← write_text_file path (literal "out"); ret (status_of r))
    else ret err_invalid_param

-- The byte for a level.
abbrev pub level_char : ℕ → ℕ
level_char level = if level == 0 then b'0' else b'1'

pub gpio_write : Option GpioHandle → ℕ → Io HalStatus
unfolding locked_fd status_from_errno
gpio_write none level = ret err_invalid_param
gpio_write (some h) level =
    if h.direction == 1
    then locked_fd h.fd_value err_io (λ fd. do
      p ← sys (rewind fd)
      elim p [
        | failed e ↦ ret (status_from_errno e)
        | done v bs e ↦ do
          w ← sys (write fd (level_char level ∷ []))
          elim w [ failed e ↦ ret (status_from_errno e) | done v bs e ↦ ret ok ]
      ])
    else ret err_invalid_param

-- `hal_gpio_read`: the result, and what it writes to `*out_level`. The flag is that this pointer is not
-- NULL. At the end of the file `c` stays 0.
pub gpio_read : Option GpioHandle → Bool → Io (HalStatus × Option ℕ)
unfolding locked_fd status_from_errno
gpio_read none out_level = ret (err_invalid_param, none)
gpio_read (some h) false = ret (err_invalid_param, none)
gpio_read (some h) true =
    locked_fd h.fd_value (err_io, none)
      λ fd. do
        p ← sys (rewind fd)
        elim p [
          | failed e ↦ ret (status_from_errno e, none)
          | done v bs e ↦ do
            r ← sys (read fd 1)
            elim r [
              | failed e ↦ ret (status_from_errno e, none)
              | done v bs e ↦ ret (ok, some (if first bs == b'1' then 1 else 0))
            ]
        ]

-- A local variable that a call may have written to.
abbrev pub or_else : Option ℕ → ℕ → ℕ
or_else none d = d
or_else (some v) d = v

pub gpio_toggle : Option GpioHandle → Io HalStatus
unfolding gpio_read gpio_write
gpio_toggle handle = do
  r ← gpio_read handle true
  if not_ok r.0 then ret r.0 else gpio_write handle (if or_else r.1 0 == 0 then 1 else 0)

-- The handle as hal_gpio_open sets it.
abbrev pub gpio_handle : GpioConfig → ℕ → GpioHandle
gpio_handle config fd = record {
  pin = config.pin;
  fd_value = some fd;
  direction = config.direction;
}

abbrev pub initial : GpioConfig → ℕ
initial config = if config.initial_level == 0 then 0 else 1

-- `hal_gpio_open` from its `open` on.
pub gpio_open_value : GpioConfig → Io (HalStatus × Option GpioHandle)
unfolding gpio_write close_with status_from_errno
gpio_open_value config = do
  opened ← sys (open_file (gpio_path config.pin (literal "/value")) read_write)
  elim opened [
    | failed e ↦ ret (status_from_errno e, none)
    | done fd bs e ↦ do
      block ← sys (malloc 1)
      elim block [
        | failed e ↦ close_with fd err_no_memory
        | done p bs e ↦ do
          sys mutex_init
          if config.direction == 1
              then (do
                gpio_write (some (gpio_handle config fd)) (initial config)
                ret (ok, some (gpio_handle config fd)))
              else ret (ok, some (gpio_handle config fd))
      ]
  ]

-- `hal_gpio_open` behind the check of its pointers.
pub gpio_open_config : GpioConfig → Io (HalStatus × Option GpioHandle)
unfolding gpio_export gpio_set_direction gpio_open_value
gpio_open_config config =
    if not (config.pull_mode == 0)
    then ret (err_not_supported, none)
    else if not (config.direction == 0 || config.direction == 1)
    then ret (err_invalid_param, none)
    else do
      st ← gpio_export config.pin
      if not_ok st then ret (st, none) else do
        st' ← gpio_set_direction config.pin config.direction
        if not_ok st' then ret (st', none) else gpio_open_value config

pub gpio_open : Option GpioConfig → Bool → Io (HalStatus × Option GpioHandle)
unfolding gpio_open_config
gpio_open none out_handle = ret (err_invalid_param, none)
gpio_open (some config) false = ret (err_invalid_param, none)
gpio_open (some config) true = gpio_open_config config

pub gpio_close : Option GpioHandle → Io HalStatus
unfolding close_handle
gpio_close none = ret err_invalid_param
gpio_close (some h) = close_handle h.fd_value

pub gpio_get_fd : Option GpioHandle → Io ℤ
unfolding handle_fd
gpio_get_fd = handle_fd GpioHandle.fd_value
