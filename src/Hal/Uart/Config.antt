-- ===== src/Hal/Uart/Config.antt =====
-- How hal_uart.c makes the attributes of a line from its configuration.
pub mod Valid
mod Tests
use emberlite.Common.{
  ℕ, suc, Bool, true, false, Option, none, some, List, [], ◌∷◌, ◌==◌, if◌then◌else◌, ◌+◌,
}
use emberlite.Hal.Termios.{
  Flags, Termios, clear, set_bits, ignbrk, brkint, parmrk, inpck, istrip, inlcr, igncr, icrnl, ixon,
  ixany, ixoff, opost, isig, icanon, echo, echonl, iexten, csize, cstopb, cread, parenb, parodd,
  clocal, crtscts,
}

-- `hal_uart_config_t`
pub record UartConfig : Type 0 where
  pub path : Option (List ℕ)
  pub baudrate : ℕ
  pub data_bits : ℕ
  pub stop_bits : ℕ
  pub parity : ℕ
  pub flow_control : ℕ

-- Raw mode, with the receiver on and modem lines ignored.
pub raw_mode : Termios → Termios
raw_mode t = record t {
  iflag = clear (ignbrk ∷ brkint ∷ parmrk ∷ istrip ∷ inlcr ∷ igncr ∷ icrnl ∷ ixon ∷ []) t.iflag;
  oflag = clear (opost ∷ []) t.oflag;
  lflag = clear (echo ∷ echonl ∷ icanon ∷ isig ∷ iexten ∷ []) t.lflag;
  cflag = set_bits (clocal ∷ cread ∷ []) (set_bits csize (clear (4 ∷ 5 ∷ parenb ∷ []) t.cflag));
}

-- The bits of CSIZE for 5 to 8 data bits.
pub size_mask : ℕ → Option (List ℕ)
size_mask n =
    if n == 5
    then some []
    else if n == 6
    then some (4 ∷ [])
    else if n == 7
    then some (5 ∷ [])
    else if n == 8
    then some csize
    else none

pub data_bits_of : ℕ → Termios → Option Termios
unfolding size_mask
data_bits_of n t = elim (size_mask n) [
  | none ↦ none
  | some mask ↦ some (record t { cflag = set_bits mask (clear csize t.cflag) })
]

pub stop_bits_of : ℕ → Termios → Option Termios
stop_bits_of n t =
    if n == 1
    then some (record t { cflag = clear (cstopb ∷ []) t.cflag })
    else if n == 2
    then some (record t { cflag = set_bits (cstopb ∷ []) t.cflag })
    else none

pub parity_of : ℕ → Termios → Option Termios
parity_of n t =
    if n == 0
    then some (record t {
      cflag = clear (parenb ∷ []) t.cflag;
      iflag = clear (inpck ∷ istrip ∷ []) t.iflag;
    })
    else if n == 1
    then some (record t {
      cflag = set_bits (parenb ∷ parodd ∷ []) t.cflag;
      iflag = set_bits (inpck ∷ []) t.iflag;
    })
    else if n == 2
    then some (record t {
      cflag = clear (parodd ∷ []) (set_bits (parenb ∷ []) t.cflag);
      iflag = set_bits (inpck ∷ []) t.iflag;
    })
    else none

-- CRTSCTS is defined on Linux.
pub flow_control_of : ℕ → Termios → Option Termios
flow_control_of n t =
    if n == 0
    then some (record t {
      cflag = clear (crtscts ∷ []) t.cflag;
      iflag = clear (ixon ∷ ixoff ∷ ixany ∷ []) t.iflag;
    })
    else if n == 1
    then some (record t {
      cflag = set_bits (crtscts ∷ []) t.cflag;
      iflag = clear (ixon ∷ ixoff ∷ ixany ∷ []) t.iflag;
    })
    else if n == 2
    then some (record t {
      cflag = clear (crtscts ∷ []) t.cflag;
      iflag = clear (ixany ∷ []) (set_bits (ixon ∷ ixoff ∷ []) t.iflag);
    })
    else none

infixl 5 ◌>>=◌
abbrev pub ◌>>=◌ : {A B : Type 0} → Option A → (A → Option B) → Option B
none >>= f = none
some a >>= f = f a

-- The attributes for a configuration, or none for one that is not valid: the part of
-- `hal_uart_apply_config_locked` between tcgetattr and the baud rate.
unfoldable pub attributes_for : UartConfig → Termios → Option Termios
unfolding raw_mode data_bits_of stop_bits_of parity_of flow_control_of
attributes_for cfg t = do
  sized ← data_bits_of cfg.data_bits (raw_mode t)
  stopped ← stop_bits_of cfg.stop_bits sized
  checked ← parity_of cfg.parity stopped
  flowing ← flow_control_of cfg.flow_control checked
  some (record flowing { vmin = 1; vtime = 0 })

-- `hal_uart_baud_to_speed`: the rates of the switch with their codes B50 to B4000000.
abbrev pub speed_codes : List (ℕ × ℕ)
speed_codes =
    (0, 0)
    ∷ (50, 1)
    ∷ (75, 2)
    ∷ (110, 3)
    ∷ (134, 4)
    ∷ (150, 5)
    ∷ (200, 6)
    ∷ (300, 7)
    ∷ (600, 8)
    ∷ (1200, 9)
    ∷ (1800, 10)
    ∷ (2400, 11)
    ∷ (4800, 12)
    ∷ (9600, 13)
    ∷ (19200, 14)
    ∷ (38400, 15)
    ∷ (57600, 0x1001)
    ∷ (115200, 0x1002)
    ∷ (230400, 0x1003)
    ∷ (460800, 0x1004)
    ∷ (500000, 0x1005)
    ∷ (576000, 0x1006)
    ∷ (921600, 0x1007)
    ∷ (1000000, 0x1008)
    ∷ (1152000, 0x1009)
    ∷ (1500000, 0x100A)
    ∷ (2000000, 0x100B)
    ∷ (2500000, 0x100C)
    ∷ (3000000, 0x100D)
    ∷ (3500000, 0x100E)
    ∷ (4000000, 0x100F)
    ∷ []

pub find_code : ℕ → List (ℕ × ℕ) → ℕ
find_code baud [] = 0
find_code baud ((rate, code) ∷ codes) = if baud == rate then code else find_code baud codes

unfoldable pub baud_to_speed : ℕ → ℕ
unfolding find_code
baud_to_speed baud = find_code baud speed_codes
