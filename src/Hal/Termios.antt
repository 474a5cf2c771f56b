-- ===== src/Hal/Termios.antt =====
-- `struct termios` of the system, as hal_uart.c uses it: a word of flags is the function that says which
-- of its bits are set, and a mask is the list of its bits' positions, those of asm-generic/termbits.h.
use emberlite.Common.{
  ℕ, ◌/◌, ◌%◌, ◌^◌, Bool, true, false, List, [], ◌∷◌, ◌==◌, if◌then◌else◌, get_or,
}

abbrev pub Flags : Type 0
Flags = ℕ → Bool

abbrev pub has_bit : List ℕ → ℕ → Bool
has_bit [] k = false
has_bit (b ∷ mask) k = if k == b then true else has_bit mask k

-- `word &= ~mask` and `word |= mask`.
abbrev pub clear : List ℕ → Flags → Flags
clear mask word k = if has_bit mask k then false else word k

abbrev pub set_bits : List ℕ → Flags → Flags
set_bits mask word k = if has_bit mask k then true else word k

-- `vmin` and `vtime` are c_cc[VMIN] and c_cc[VTIME].
pub record Termios : Type 0 where
  pub iflag : Flags
  pub oflag : Flags
  pub cflag : Flags
  pub lflag : Flags
  pub vmin : ℕ
  pub vtime : ℕ

-- The flags of a word of the system.
abbrev pub flags_of : ℕ → Flags
flags_of word k = word / 2 ^ k % 2 == 1

-- The words that the system stores.
unfoldable pub termios_of : List ℕ → Termios
termios_of words = record {
  iflag = flags_of (get_or words 0 0);
  oflag = flags_of (get_or words 1 0);
  cflag = flags_of (get_or words 2 0);
  lflag = flags_of (get_or words 3 0);
  vmin = get_or words 4 0;
  vtime = get_or words 5 0;
}

abbrev pub ignbrk : ℕ
ignbrk = 0

abbrev pub brkint : ℕ
brkint = 1

abbrev pub parmrk : ℕ
parmrk = 3

abbrev pub inpck : ℕ
inpck = 4

abbrev pub istrip : ℕ
istrip = 5

abbrev pub inlcr : ℕ
inlcr = 6

abbrev pub igncr : ℕ
igncr = 7

abbrev pub icrnl : ℕ
icrnl = 8

abbrev pub ixon : ℕ
ixon = 10

abbrev pub ixany : ℕ
ixany = 11

abbrev pub ixoff : ℕ
ixoff = 12

abbrev pub opost : ℕ
opost = 0

abbrev pub isig : ℕ
isig = 0

abbrev pub icanon : ℕ
icanon = 1

abbrev pub echo : ℕ
echo = 3

abbrev pub echonl : ℕ
echonl = 6

abbrev pub iexten : ℕ
iexten = 15

-- CSIZE has two bits: CS5 neither, CS6 the low one, CS7 the high one, CS8 both.
abbrev pub csize : List ℕ
csize = 4 ∷ 5 ∷ []

abbrev pub cstopb : ℕ
cstopb = 6

abbrev pub cread : ℕ
cread = 7

abbrev pub parenb : ℕ
parenb = 8

abbrev pub parodd : ℕ
parodd = 9

abbrev pub clocal : ℕ
clocal = 11

abbrev pub crtscts : ℕ
crtscts = 31

abbrev pub cbaud : List ℕ
cbaud = 0 ∷ 1 ∷ 2 ∷ 3 ∷ 12 ∷ []

-- BOTHER, 0010000 in octal.
abbrev pub bother : ℕ
bother = 12
