-- ===== src/Hal/Onewire.antt =====
-- platform/hal/src/hal_onewire.c: the file of a 1-Wire device. The number that strtol and the division
-- make of its text, a float, is left out.
mod Tests
use emberlite.Common.{
  ℕ, Bool, true, false, Option, none, some, List, [], ◌∷◌, ◌++◌, ◌==◌, not, ◌||◌, if◌then◌else◌,
  literal,
}
use emberlite.Hal.{HalStatus, ok, err_invalid_param, err_no_memory, status_from_errno}
use emberlite.Hal.Sys.{
  read_only, open_file, close, read, malloc, free, mutex_init, mutex_lock, mutex_unlock,
  mutex_destroy, failed, done, Io, ret, sys, ◌>>=◌, ◌>>◌,
}
use emberlite.Hal.Text.{snprintf}

-- `hal_onewire_config_t`
pub record OnewireConfig : Type 0 where
  pub bus_path : Option (List ℕ)
  pub device_id : Option (List ℕ)

-- `struct hal_onewire_handle_impl`
pub record OnewireHandle : Type 0 where
  pub device_dir : List ℕ

pub onewire_alloc : List ℕ → List ℕ → Io (HalStatus × Option OnewireHandle)
onewire_alloc bus_path device_id = do
  block ← sys (malloc 1)
  elim block [
    | failed e ↦ ret (err_no_memory, none)
    | done p bs e ↦ do
      sys mutex_init
      ret (ok, some (record { device_dir = snprintf 384 (bus_path ++ (b'/' ∷ device_id)) }))
  ]

pub onewire_open : Option OnewireConfig → Bool → Io (HalStatus × Option OnewireHandle)
unfolding onewire_alloc
onewire_open none out_handle = ret (err_invalid_param, none)
onewire_open (some cfg) out_handle = elim cfg.bus_path [
  | none ↦ ret (err_invalid_param, none)
  | some bus_path ↦ elim cfg.device_id [
    | none ↦ ret (err_invalid_param, none)
    | some device_id ↦
        if out_handle then onewire_alloc bus_path device_id else ret (err_invalid_param, none)
  ]
]

pub onewire_close : Option OnewireHandle → Io HalStatus
onewire_close none = ret err_invalid_param
onewire_close (some h) = do sys mutex_destroy; sys free; ret ok

-- `hal_onewire_read_raw`: the result, the bytes that it stores, and what it writes to `*out_len`, whose
-- pointer is not NULL. The flag is that `buf` is not NULL. The unlock leaves errno as it is.
pub onewire_read_raw : Option OnewireHandle → Bool → ℕ → Io (HalStatus × List ℕ × Option ℕ)
unfolding status_from_errno
onewire_read_raw none buf len = ret (err_invalid_param, [], none)
onewire_read_raw (some h) buf len =
    if not buf || (len == 0) then ret (err_invalid_param, [], none) else do
      sys mutex_lock
      f ← sys (open_file (snprintf 448 (h.device_dir ++ literal "/w1_slave")) read_only)
      elim f [
        | failed e ↦ do sys mutex_unlock; ret (status_from_errno e, [], none)
        | done fd bs e ↦ do
          r ← sys (read fd len)
          sys (close fd)
          sys mutex_unlock
          elim r [
            | failed e ↦ ret (status_from_errno e, [], none)
            | done v bs e ↦ ret (ok, bs, some v)
          ]
      ]
