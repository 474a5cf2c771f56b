-- ===== src/Hal/Text.antt =====
-- How hal_gpio.c and hal_pwm.c write to a file of sysfs: `write_text_file` and `write_sysfs`, and
-- the texts that snprintf makes. `%u` prints a number in decimal, and snprintf cuts a text to fit.
pub mod Digits
pub mod Files
use emberlite.Common.{
  ℕ, zero, suc, ◌+◌, ◌-◌, ◌/◌, ◌%◌, Option, none, some, List, [], ◌∷◌, ltb, ◌==◌, if◌then◌else◌,
  length, take,
}
use emberlite.Hal.{Errno}
use emberlite.Hal.Sys.{
  write_only, open_file, close, write, Answer, failed, done, Io, ret, sys, ◌>>=◌, ◌>>◌,
}

-- The digits of a number below ten to the fuel, in front of `acc`.
pub digits : ℕ → ℕ → List ℕ → List ℕ
digits zero n acc = acc
digits (suc fuel) n acc =
    let d = 48 + n % 10 in if ltb n 10 then d ∷ acc else digits fuel (n / 10) (d ∷ acc)

-- `%u` of a uint32_t, which has ten digits at most.
unfoldable pub decimal : ℕ → List ℕ
unfolding digits
decimal n = digits 10 n []

-- `snprintf(buf, size, ...)`, for a text without a zero byte.
abbrev pub snprintf : ℕ → List ℕ → List ℕ
snprintf size text = take (size - 1) text

-- The result of write_text_file behind its write: none for 0, or -1 with errno restored to what the
-- write left. A write that takes fewer bytes leaves errno as it was.
pub write_result : ℕ → Answer → Option Errno
write_result len (failed e) = some e
write_result len (done v bs e) = if v == len then none else some e

unfoldable pub write_text_file : List ℕ → List ℕ → Io (Option Errno)
unfolding write_result
write_text_file path s = do
  f ← sys (open_file path write_only)
  elim f [
    | failed e ↦ ret (some e)
    | done fd bs e ↦ do w ← sys (write fd s); sys (close fd); ret (write_result (length s) w)
  ]
