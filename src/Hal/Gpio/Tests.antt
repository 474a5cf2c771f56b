-- ===== src/Hal/Gpio/Tests.antt =====
-- Runs of hal_gpio.c, and its theorems at an input.
use emberlite.Common.{ℕ, ◌≡◌, refl, literal, true, some, [], ◌∷◌, first}
use emberlite.Hal.{ok, eok, ebusy}
use emberlite.Hal.Sys.{Call, unlocked, Answer, failed, done, read, write, Ensures, run, ◌>>=◌, ◌>>◌}
use emberlite.Hal.Handle.Spec.{Keeps}
use emberlite.Hal.Handle.Samples.{nothing_held, gives}
use emberlite.Hal.Gpio.{GpioConfig, gpio_open, gpio_close}
use emberlite.Hal.Gpio.Level.{Pin}
use emberlite.Hal.Gpio.Open.{gpio_open-close-Keeps}

abbrev config : GpioConfig
config = record { pin = 17; direction = 1; pull_mode = 0; initial_level = 1 }

-- The pin is exported already; the level is set to 1.
open_output :
    run
      (gpio_open (some config) true)
      (gives 5
        ∷ failed ebusy
        ∷ gives 0
        ∷ gives 5
        ∷ gives 3
        ∷ gives 0
        ∷ gives 6
        ∷ gives 1
        ∷ gives 0
        ∷ gives 0
        ∷ gives 0
        ∷ gives 0
        ∷ gives 1
        ∷ [])
      nothing_held
    ≡ some (
      (ok, some (record { pin = 17; fd_value = some 6; direction = 1 })),
      record {
        fds = 6 ∷ 0 ∷ 1 ∷ 2 ∷ [];
        blocks = 8;
        mutex = unlocked;
        sent = (5, literal "out") ∷ (6, b'1' ∷ []) ∷ [];
        reads = [];
        interrupts = 2;
      },
    )
unfolding run gpio_open
open_output = refl

-- A pin that is a byte.
answer : Call → ℕ → Answer × ℕ
answer (write fd bs) value = (done 1 [] eok, first bs)
answer (read fd n) value = (done 1 (value ∷ []) eok, value)
answer c value = (done 0 [] eok, value)

byte_pin : Pin ℕ 3
unfolding answer
byte_pin = record {
  step = answer;
  value = λ v. v;
  errno = λ v. eok;
  lock_keeps = λ v. refl;
  unlock_keeps = λ v. refl;
  rewind_done = λ v. refl;
  rewind_keeps = λ v. refl;
  write_done = λ v level. refl;
  write_sets = λ v level. refl;
  read_done = λ v. refl;
  read_keeps = λ v. refl;
}

gpio_open-close-Keeps_example :
    Ensures
      (λ st s'. Keeps nothing_held s')
      (gpio_open (some config) true >>= λ r. gpio_close r.1)
      nothing_held
gpio_open-close-Keeps_example = gpio_open-close-Keeps (some config) true nothing_held refl
