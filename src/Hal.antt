-- ===== src/Hal.antt =====
-- platform/hal/src/hal.c and include/hal/hal.h: the status codes of the hardware abstraction.
pub mod Sys
pub mod Handle
pub mod Termios
pub mod Text
pub mod I2c
pub mod Gpio
pub mod Can
pub mod Spi
pub mod Pwm
pub mod Input
pub mod Onewire
pub mod Watchdog
pub mod Uart

-- `hal_status_t`
pub data HalStatus : Type 0 where
  ok err_io err_timeout err_invalid_param err_not_supported err_no_memory err_busy err_permission
        err_nodevice :
      HalStatus

-- The values of `errno` that the code names; EAGAIN and EWOULDBLOCK are one, and so are ENOTSUP and
-- EOPNOTSUPP. `eother` is any other.
pub data Errno : Type 0 where
  eok eintr etimedout eagain einval eopnotsupp enomem ebusy eacces eperm enodev enoent eother :
      Errno

pub status_from_errno : Errno → HalStatus
status_from_errno eok = ok
status_from_errno etimedout = err_timeout
status_from_errno eagain = err_timeout
status_from_errno einval = err_invalid_param
status_from_errno eopnotsupp = err_not_supported
status_from_errno enomem = err_no_memory
status_from_errno ebusy = err_busy
status_from_errno eacces = err_permission
status_from_errno eperm = err_permission
status_from_errno enodev = err_nodevice
status_from_errno enoent = err_nodevice
status_from_errno eintr = err_io
status_from_errno eother = err_io
