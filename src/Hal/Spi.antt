-- ===== src/Hal/Spi.antt =====
-- platform/hal/src/hal_spi.c: a device on an SPI bus, through spidev.
pub mod Open
mod Tests
use emberlite.Common.{
  ℕ, Bool, true, false, Option, none, some, List, [], ltb, ◌==◌, ◌&&◌, ◌||◌, not, if◌then◌else◌, ℤ,
  ◌%◌, ◌^◌,
}
use emberlite.Hal.{HalStatus, ok, err_io, err_invalid_param, err_no_memory, status_from_errno}
use emberlite.Hal.Sys.{
  read_write, Request, spi_mode, spi_bits_per_word, spi_max_speed_hz, spi_message, open_file, ioctl,
  malloc, mutex_init, Answer, failed, done, Io, ret, sys, ◌>>=◌, ◌>>◌,
}
use emberlite.Hal.Handle.{stored, locked_fd, close_with, close_handle, handle_fd}

-- `hal_spi_config_t`
pub record SpiConfig : Type 0 where
  pub path : Option (List ℕ)
  pub speed_hz : ℕ
  pub mode : ℕ
  pub bits_per_word : ℕ

-- `struct hal_spi_handle_impl`
pub record SpiHandle : Type 0 where
  pub fd : Option ℕ
  pub cfg : SpiConfig

unfoldable pub spi_close : Option SpiHandle → Io HalStatus
unfolding close_handle
spi_close none = ret err_invalid_param
spi_close (some h) = close_handle h.fd

-- An ioctl of hal_spi_open: it goes on, or closes the handle and ends with the status of errno, which
-- is read before.
pub spi_set :
    SpiHandle → ℕ → Request → Io (HalStatus × Option SpiHandle) → Io (HalStatus × Option SpiHandle)
unfolding spi_close status_from_errno
spi_set h fd request next = do
  r ← sys (ioctl fd request)
  elim r [ failed e ↦ do spi_close (some h); ret (status_from_errno e, none) | done v bs e ↦ next ]

-- `hal_spi_open` from its `open` on.
pub spi_open_path : SpiConfig → List ℕ → Io (HalStatus × Option SpiHandle)
unfolding spi_set close_with status_from_errno
spi_open_path config path = do
  opened ← sys (open_file path read_write)
  elim opened [
    | failed e ↦ ret (status_from_errno e, none)
    | done fd bs e ↦ do
      let h : SpiHandle = record { fd = some fd; cfg = config }
      block ← sys (malloc 1)
      elim block [
        | failed e ↦ close_with fd err_no_memory
        | done p bs e ↦ do
          sys mutex_init
          spi_set h fd (spi_mode config.mode) (
              spi_set h fd (spi_bits_per_word config.bits_per_word)
                (spi_set h fd (spi_max_speed_hz config.speed_hz) (ret (ok, some h))))
      ]
  ]

-- The checks of the configuration's numbers.
pub spi_bad_config : SpiConfig → Bool
spi_bad_config config = ltb 3 config.mode || (config.bits_per_word == 0 || config.speed_hz == 0)

pub spi_open : Option SpiConfig → Bool → Io (HalStatus × Option SpiHandle)
unfolding spi_open_path spi_bad_config
spi_open none out_handle = ret (err_invalid_param, none)
spi_open (some config) out_handle = elim config.path [
  | none ↦ ret (err_invalid_param, none)
  | some path ↦
      if not out_handle || spi_bad_config config
      then ret (err_invalid_param, none)
      else spi_open_path config path
]

-- `!tx && !rx`
abbrev pub no_buffers : Option (List ℕ) → Bool → Bool
no_buffers none rx = not rx
no_buffers (some bytes) rx = false

-- `hal_spi_transfer`: the result, and the bytes that it stores from `rx` on. Of `rx` only matters
-- whether it is NULL; the length in the message is a uint32_t.
pub spi_transfer : Option SpiHandle → Option (List ℕ) → Bool → ℕ → Io (HalStatus × List ℕ)
unfolding locked_fd status_from_errno
spi_transfer none tx rx len = ret (err_invalid_param, [])
spi_transfer (some h) tx rx len =
    if no_buffers tx rx && ltb 0 len
    then ret (err_invalid_param, [])
    else if len == 0
    then ret (ok, [])
    else locked_fd h.fd (err_io, [])
        λ fd. do
          r ← sys (ioctl fd (spi_message tx rx (len % 2 ^ 32) h.cfg.speed_hz h.cfg.bits_per_word))
          elim r [ failed e ↦ ret (status_from_errno e, []) | done v bs e ↦ ret (ok, bs) ]

pub spi_get_fd : Option SpiHandle → Io ℤ
unfolding handle_fd
spi_get_fd = handle_fd SpiHandle.fd
