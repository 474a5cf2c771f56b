-- ===== src/Hal/I2c.antt =====
-- platform/hal/src/hal_i2c.c: a device on an I2C bus, through i2c-dev.
pub mod Transfer
mod Tests
use emberlite.Common.{
  ℕ, ◌+◌, Bool, true, false, Option, none, some, List, [], ◌∷◌, ltb, ◌==◌, if◌then◌else◌, ℤ,
}
use emberlite.Hal.{HalStatus, ok, err_io, err_invalid_param, err_no_memory, status_from_errno}
use emberlite.Hal.Sys.{
  read_write, i2c_slave, open_file, close, read, write, ioctl, malloc, free, mutex_init, failed,
  done, Io, ret, sys, ◌>>=◌, ◌>>◌,
}
use emberlite.Hal.Handle.{
  not_ok, no_data, no_buffer, bytes_at, count_status, stored, locked_fd, close_with, alloc_handle,
  close_handle, handle_fd,
}

-- `hal_i2c_config_t`
pub record I2cConfig : Type 0 where
  pub path : Option (List ℕ)
  pub slave_addr : ℕ
  pub timeout_ms : ℕ

-- `struct hal_i2c_handle_impl`, whose mutex is that of the process. A negative `fd` is `none`.
pub record I2cHandle : Type 0 where
  pub fd : Option ℕ
  pub cfg : I2cConfig

pub set_slave : ℕ → ℕ → Io HalStatus
unfolding status_from_errno
set_slave fd addr = if ltb 0x7f addr then ret err_invalid_param else do
  r ← sys (ioctl fd (i2c_slave addr))
  elim r [ failed e ↦ ret (status_from_errno e) | done v bs e ↦ ret ok ]

-- `hal_i2c_open` behind the check of its arguments.
pub i2c_open_path : I2cConfig → List ℕ → Io (HalStatus × Option I2cHandle)
unfolding set_slave close_with alloc_handle
i2c_open_path config path = do
  opened ← sys (open_file path read_write)
  elim opened [
    | failed e ↦ ret (status_from_errno e, none)
    | done fd bs e ↦ do
      st ← set_slave fd config.slave_addr
      if not_ok st
          then close_with fd st
          else alloc_handle fd (record { fd = some fd; cfg = config })
  ]

-- `hal_i2c_open`: what it returns, and what it writes to `*out_handle`. The flag is that the pointer
-- `out_handle` is not NULL.
pub i2c_open : Option I2cConfig → Bool → Io (HalStatus × Option I2cHandle)
unfolding i2c_open_path
i2c_open none out_handle = ret (err_invalid_param, none)
i2c_open (some config) out_handle = elim config.path [
  | none ↦ ret (err_invalid_param, none)
  | some path ↦ if out_handle then i2c_open_path config path else ret (err_invalid_param, none)
]

pub i2c_close : Option I2cHandle → Io HalStatus
unfolding close_handle
i2c_close none = ret err_invalid_param
i2c_close (some h) = close_handle h.fd

pub i2c_write : Option I2cHandle → Option (List ℕ) → ℕ → Io HalStatus
unfolding locked_fd count_status
i2c_write none buffer len = ret err_invalid_param
i2c_write (some h) buffer len =
    if no_data buffer len
    then ret err_invalid_param
    else if len == 0
    then ret ok
    else locked_fd h.fd err_io
        λ fd. do w ← sys (write fd (bytes_at buffer len)); ret (count_status len w)

-- `hal_i2c_read`: the result, and the bytes that it stores from `data` on. The flag is that `data` is
-- not NULL.
pub i2c_read : Option I2cHandle → Bool → ℕ → Io (HalStatus × List ℕ)
unfolding locked_fd count_status
i2c_read none buffer len = ret (err_invalid_param, [])
i2c_read (some h) buffer len =
    if no_buffer buffer len
    then ret (err_invalid_param, [])
    else if len == 0
    then ret (ok, [])
    else locked_fd h.fd (err_io, [])
        λ fd. do r ← sys (read fd len); ret (count_status len r, stored r)

-- The bytes `reg ∷ data` in a block of their own, in one write.
pub i2c_write_reg : Option I2cHandle → ℕ → Option (List ℕ) → ℕ → Io HalStatus
unfolding locked_fd count_status
i2c_write_reg none reg buffer len = ret err_invalid_param
i2c_write_reg (some h) reg buffer len =
    if no_data buffer len
    then ret err_invalid_param
    else locked_fd h.fd err_io λ fd. do
      tmp ← sys (malloc (len + 1))
      elim tmp [
        | failed e ↦ ret err_no_memory
        | done p bs e ↦ do
          w ← sys (write fd (reg ∷ bytes_at buffer len))
          sys free
          ret (count_status (len + 1) w)
      ]

-- The register's number in a write, then the read.
pub i2c_read_reg : Option I2cHandle → ℕ → Bool → ℕ → Io (HalStatus × List ℕ)
unfolding locked_fd count_status
i2c_read_reg none reg buffer len = ret (err_invalid_param, [])
i2c_read_reg (some h) reg buffer len =
    if no_buffer buffer len
    then ret (err_invalid_param, [])
    else if len == 0
    then ret (ok, [])
    else locked_fd h.fd (err_io, [])
        λ fd. do
          w ← sys (write fd (reg ∷ []))
          if not_ok (count_status 1 w)
              then ret (count_status 1 w, [])
              else do r ← sys (read fd len); ret (count_status len r, stored r)

pub i2c_get_fd : Option I2cHandle → Io ℤ
unfolding handle_fd
i2c_get_fd = handle_fd I2cHandle.fd
