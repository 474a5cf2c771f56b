-- ===== src/Hal/Gpio/Level.antt =====
-- What hal_gpio.c reads back from a pin that it has set.
use emberlite.Common.{ℕ, ◌≡◌, some, [], ◌∷◌}
use emberlite.Hal.{Errno}
use emberlite.Hal.Sys.{read, write, rewind, mutex_lock, mutex_unlock, Call, Answer, done, ◌>>◌}
use emberlite.Hal.Gpio.{GpioHandle, level_char}

-- The value file of an output pin, as the kernel documents it: behind a rewind a write of a level's
-- byte sets it, and a read gives it. Locking a mutex changes nothing.
pub record Pin (D : Type 0) (fd : ℕ) : Type 0 where
  pub step : Call → D → Answer × D
  pub value : D → ℕ
  pub errno : D → Errno
  pub lock_keeps : (d : D) → value (step mutex_lock d).1 ≡ value d
  pub unlock_keeps : (d : D) → value (step mutex_unlock d).1 ≡ value d
  pub rewind_done : (d : D) → (step (rewind fd) d).0 ≡ done 0 [] (errno d)
  pub rewind_keeps : (d : D) → value (step (rewind fd) d).1 ≡ value d
  pub write_done :
      (d : D) (level : ℕ) → (step (write fd (level_char level ∷ [])) d).0 ≡ done 1 [] (errno d)
  pub write_sets :
      (d : D) (level : ℕ) → value (step (write fd (level_char level ∷ [])) d).1 ≡ level_char level
  pub read_done : (d : D) → (step (read fd 1) d).0 ≡ done 1 (value d ∷ []) (errno d)
  pub read_keeps : (d : D) → value (step (read fd 1) d).1 ≡ value d

-- The handle of an output pin.
abbrev pub output : ℕ → ℕ → GpioHandle
output pin fd = record { pin = pin; fd_value = some fd; direction = 1 }

module _ {D : Type 0} (fd pin : ℕ) (p : Pin D fd) where
  at_value : D → D
  at_value d = (p.step (rewind fd) (p.step mutex_unlock (p.step mutex_lock d).1).1).1
