-- ===== src/Hal/I2c/Tests.antt =====
-- Runs of hal_i2c.c, and its theorems at an input.
use emberlite.Common.{◌≡◌, refl, literal, true, some, none, [], ◌∷◌}
use emberlite.Hal.{ok, err_nodevice, enodev}
use emberlite.Hal.Sys.{failed, Ensures, run, ◌>>=◌}
use emberlite.Hal.Handle.Spec.{Keeps, Sent}
use emberlite.Hal.Handle.Samples.{nothing_held, handle_held, handle_held-Holds, gives, stores}
use emberlite.Hal.I2c.{I2cConfig, I2cHandle, i2c_open, i2c_close, i2c_write_reg, i2c_read_reg}
use emberlite.Hal.I2c.Transfer.{i2c_open-close-Keeps, i2c_write_reg-Sent}

abbrev config : I2cConfig
config = record { path = some (literal "/dev/i2c-1"); slave_addr = 0x48; timeout_ms = 0 }

abbrev handle : I2cHandle
handle = record { fd = some 3; cfg = config }

-- No device answers at the address: the descriptor is closed again.
no_device :
    run (i2c_open (some config) true) (gives 3 ∷ failed enodev ∷ gives 0 ∷ []) nothing_held
    ≡ some ((err_nodevice, none), nothing_held)
unfolding run i2c_open
no_device = refl

register_read :
    run
      (i2c_read_reg (some handle) 0x10 true 2)
      (gives 0 ∷ gives 0 ∷ gives 1 ∷ stores (0xAB ∷ 0xCD ∷ []) 2 ∷ [])
      handle_held
    ≡ some (
      (ok, 0xAB ∷ 0xCD ∷ []),
      record handle_held { sent = (3, 0x10 ∷ []) ∷ []; reads = (3, 0xAB ∷ 0xCD ∷ []) ∷ [] },
    )
unfolding run i2c_read_reg
register_read = refl

i2c_open-close-Keeps_example :
    Ensures
      (λ st s'. Keeps nothing_held s')
      (i2c_open (some config) true >>= λ r. i2c_close r.1)
      nothing_held
i2c_open-close-Keeps_example = i2c_open-close-Keeps (some config) true nothing_held refl

i2c_write_reg-Sent_example :
    Ensures
      (Sent 3 (0x10 ∷ 1 ∷ 2 ∷ []) handle_held)
      (i2c_write_reg (some handle) 0x10 (some (1 ∷ 2 ∷ 9 ∷ [])) 2)
      handle_held
i2c_write_reg-Sent_example =
    i2c_write_reg-Sent handle 3 0x10 (some (1 ∷ 2 ∷ 9 ∷ [])) 2 handle_held refl handle_held-Holds
      refl
