-- ===== src/Hal/Pwm/Tests.antt =====
-- Runs of hal_pwm.c, and its theorems at an input.
use emberlite.Common.{◌*◌, ◌/◌, ◌≤◌, ◌≡◌, refl, arith, literal, some, [], ◌∷◌, ◌++◌, min}
use emberlite.Hal.{ok, err_permission, eacces}
use emberlite.Hal.Sys.{failed, run}
use emberlite.Hal.Handle.Samples.{handle_held, gives}
use emberlite.Hal.Text.{decimal}
use emberlite.Hal.Pwm.{
  PwmHandle, pwm_handle, pwm_path, duty_ns, pwm_set_frequency, pwm_set_duty_cycle,
}
use emberlite.Hal.Pwm.Bounds.{duty_ns-le-period, pwm_path-uncut}

abbrev chip : PwmHandle
chip = record {
  chip_path = literal "/p";
  channel = 0;
  pwm_dir = literal "/p/pwm0";
  period_ns = 1000000;
  enabled = 0;
}

quarter :
    run
      (pwm_set_duty_cycle (some chip) (some 250000))
      (gives 0 ∷ gives 5 ∷ gives 6 ∷ gives 0 ∷ gives 0 ∷ [])
      handle_held
    ≡ some (ok, record handle_held { sent = (5, literal "250000") ∷ [] })
unfolding run pwm_set_duty_cycle
quarter = refl

-- The handle has the new period though the file could not be opened.
refused :
    run (pwm_set_frequency (some chip) 50) (gives 0 ∷ failed eacces ∷ gives 0 ∷ []) handle_held
    ≡ some ((err_permission, some (record chip { period_ns = 20000000 })), handle_held)
unfolding run pwm_set_frequency
refused = refl

duty_ns-le-period_example :
    (duty_ns 3 500000 ≡ 3 * min 500000 1000000 / 1000000) × (duty_ns 3 500000 ≤ 3)
duty_ns-le-period_example = duty_ns-le-period 3 500000 (omega arith)

pwm_path-uncut_example :
    pwm_path (pwm_handle (literal "/p") 7) (literal "/duty_cycle")
    ≡ (literal "/p" ++ (literal "/pwm" ++ decimal 7)) ++ literal "/duty_cycle"
pwm_path-uncut_example =
    pwm_path-uncut (literal "/p") 7 (literal "/duty_cycle") (omega arith) (omega arith)
