-- ===== src/Hal/Pwm.antt =====
-- platform/hal/src/hal_pwm.c: a channel of a PWM chip, through the files of sysfs. The float `percent`
-- and its conversion to a whole number are parameters.
pub mod Bounds
mod Tests
use emberlite.Common.{
  ℕ, ◌+◌, ◌-◌, ◌*◌, ◌/◌, ◌%◌, ◌^◌, Bool, true, false, Option, none, some, List, [], ◌∷◌, ◌++◌, ltb,
  ◌==◌, ◌||◌, if◌then◌else◌, literal, ℤ, negsuc,
}
use emberlite.Hal.{HalStatus, ok, err_invalid_param, err_no_memory, Errno, ebusy, status_from_errno}
use emberlite.Hal.Sys.{
  malloc, free, mutex_init, mutex_lock, mutex_unlock, mutex_destroy, failed, done, Io, ret, sys,
  ◌>>=◌, ◌>>◌,
}
use emberlite.Hal.Handle.{not_ok}
use emberlite.Hal.Text.{decimal, snprintf, write_text_file}

-- `hal_pwm_config_t`
pub record PwmConfig : Type 0 where
  pub chip_path : Option (List ℕ)
  pub channel : ℕ

-- `struct hal_pwm_handle_impl`
pub record PwmHandle : Type 0 where
  pub chip_path : List ℕ
  pub channel : ℕ
  pub pwm_dir : List ℕ
  pub period_ns : ℕ
  pub enabled : ℕ

-- `write_sysfs`, which is the `write_text_file` of hal_gpio.c.
unfoldable pub write_sysfs : List ℕ → List ℕ → Io (Option Errno)
unfolding write_text_file
write_sysfs = write_text_file

-- The status of the result of write_sysfs, whose errno nothing changes before it is read.
abbrev pub sysfs_status : Option Errno → HalStatus
sysfs_status none = ok
sysfs_status (some e) = status_from_errno e

unfoldable pub pwm_export_status : Option Errno → HalStatus
unfolding status_from_errno
pwm_export_status (some ebusy) = ok
pwm_export_status r = sysfs_status r

pub pwm_export : List ℕ → ℕ → Io HalStatus
unfolding write_sysfs pwm_export_status decimal
pwm_export chip_path channel = do
  r ← write_sysfs (snprintf 384 (chip_path ++ literal "/export")) (snprintf 32 (decimal channel))
  ret (pwm_export_status r)

pub pwm_try_unexport : List ℕ → ℕ → Io (Option Errno)
unfolding write_sysfs decimal
pwm_try_unexport chip_path channel =
    write_sysfs (snprintf 384 (chip_path ++ literal "/unexport")) (snprintf 32 (decimal channel))

-- The directory of a channel.
pub pwm_dir_of : List ℕ → ℕ → List ℕ
unfolding decimal
pwm_dir_of chip_path channel = snprintf 320 (chip_path ++ (literal "/pwm" ++ decimal channel))

-- The handle as hal_pwm_open sets it.
pub pwm_handle : List ℕ → ℕ → PwmHandle
unfolding pwm_dir_of
pwm_handle chip_path channel = record {
  chip_path = snprintf 256 chip_path;
  channel = channel;
  pwm_dir = pwm_dir_of chip_path channel;
  period_ns = 1000000;
  enabled = 0;
}

pub pwm_open_chip : List ℕ → ℕ → Io (HalStatus × Option PwmHandle)
unfolding pwm_export pwm_handle
pwm_open_chip chip_path channel = do
  st ← pwm_export chip_path channel
  if not_ok st then ret (st, none) else do
    block ← sys (malloc 1)
    elim block [
      | failed e ↦ ret (err_no_memory, none)
      | done p bs e ↦ do sys mutex_init; ret (ok, some (pwm_handle chip_path channel))
    ]

pub pwm_open : Option PwmConfig → Bool → Io (HalStatus × Option PwmHandle)
unfolding pwm_open_chip
pwm_open none out_handle = ret (err_invalid_param, none)
pwm_open (some config) out_handle = elim config.chip_path [
  | none ↦ ret (err_invalid_param, none)
  | some chip_path ↦
      if out_handle then pwm_open_chip chip_path config.channel else ret (err_invalid_param, none)
]

pub pwm_close : Option PwmHandle → Io HalStatus
unfolding pwm_try_unexport
pwm_close none = ret err_invalid_param
pwm_close (some h) = do
  sys mutex_lock
  sys mutex_unlock
  pwm_try_unexport (snprintf 256 h.chip_path) h.channel
  sys mutex_destroy
  sys free
  ret ok

-- A file of the channel.
pub pwm_path : PwmHandle → List ℕ → List ℕ
pwm_path h name = snprintf 400 (h.pwm_dir ++ name)

-- The period of a frequency that is not 0, if the range test lets it through.
pub period_of : ℕ → Option ℕ
period_of hz =
    let period = 1000000000 / hz in
    if period == 0 || ltb 0xFFFFFFFF period then none else some (period % 2 ^ 32)

-- The handle keeps the new period, also when the write fails.
pub pwm_set_period : PwmHandle → ℕ → Io (HalStatus × PwmHandle)
unfolding pwm_path write_sysfs status_from_errno decimal
pwm_set_period h period = do
  let h' : PwmHandle = record h { period_ns = period }
  sys mutex_lock
  r ← write_sysfs (pwm_path h (literal "/period")) (snprintf 32 (decimal period))
  sys mutex_unlock
  ret (sysfs_status r, h')

-- `hal_pwm_set_frequency`: the result, and the handle behind it.
pub pwm_set_frequency : Option PwmHandle → ℕ → Io (HalStatus × Option PwmHandle)
unfolding period_of pwm_set_period
pwm_set_frequency none hz = ret (err_invalid_param, none)
pwm_set_frequency (some h) hz =
    if hz == 0 then ret (err_invalid_param, some h) else elim (period_of hz) [
      | none ↦ ret (err_invalid_param, some h)
      | some period ↦ do r ← pwm_set_period h period; ret (r.0, some r.1)
    ]

-- The time on within a period, for ten-thousandths of a percent.
pub duty_ns : ℕ → ℕ → ℕ
duty_ns period_ns percent =
    let pct = if ltb 1000000 percent then 1000000 else percent in
    let duty = period_ns * pct % 2 ^ 64 / 1000000 % 2 ^ 32 in
    if ltb period_ns duty then period_ns else duty

-- `percent` is none when it is below 0 or above 100, else the whole number that it is converted to.
pub pwm_set_duty_cycle : Option PwmHandle → Option ℕ → Io HalStatus
unfolding duty_ns pwm_path write_sysfs status_from_errno decimal
pwm_set_duty_cycle none percent = ret err_invalid_param
pwm_set_duty_cycle (some h) none = ret err_invalid_param
pwm_set_duty_cycle (some h) (some percent) = do
  sys mutex_lock
  r ←
      write_sysfs (pwm_path h (literal "/duty_cycle"))
        (snprintf 32 (decimal (duty_ns h.period_ns percent)))
  sys mutex_unlock
  ret (sysfs_status r)

-- The flag of the handle, which changes only when the write succeeds.
abbrev pub enabled_by : Option Errno → ℕ → ℕ → ℕ
enabled_by none new old = new
enabled_by (some e) new old = old

pub pwm_enable : Option PwmHandle → Io (HalStatus × Option PwmHandle)
unfolding pwm_path write_sysfs status_from_errno
pwm_enable none = ret (err_invalid_param, none)
pwm_enable (some h) = do
  sys mutex_lock
  r ← write_sysfs (pwm_path h (literal "/enable")) (literal "1")
  sys mutex_unlock
  ret (sysfs_status r, some (record h { enabled = enabled_by r 1 h.enabled }))

pub pwm_disable : Option PwmHandle → Io (HalStatus × Option PwmHandle)
unfolding pwm_path write_sysfs status_from_errno
pwm_disable none = ret (err_invalid_param, none)
pwm_disable (some h) = do
  sys mutex_lock
  r ← write_sysfs (pwm_path h (literal "/enable")) (literal "0")
  sys mutex_unlock
  ret (sysfs_status r, some (record h { enabled = enabled_by r 0 h.enabled }))

pub pwm_get_fd : Option PwmHandle → ℤ
pwm_get_fd handle = negsuc 0
