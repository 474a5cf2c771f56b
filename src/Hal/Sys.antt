-- ===== src/Hal/Sys.antt =====
-- What the drivers of platform/hal/src ask the system for. No code of the repository is modelled here:
-- open, read, write, ioctl, poll, malloc and pthread_mutex_* are parameters, whose answers a driver's
-- tree of calls takes, and `Documented` says what their manual pages promise of the answers.
pub mod Rules
use emberlite.Common.{
  ℕ, ◌+◌, ◌-◌, ◌≤◌, ◌<◌, ◌≡◌, ◌≢◌, Bool, true, false, Option, none, some, List, [], ◌∷◌, ◌++◌, ◌==◌,
  if◌then◌else◌, length, take, All, ℤ,
}
use emberlite.Hal.{Errno, eok, eintr}
use emberlite.Hal.Termios.{Termios}

pub data Access : Type 0 where
  read_only write_only read_write : Access

-- The requests of ioctl, tcgetattr, tcsetattr, tcflush, bind and setsockopt, with what they pass: the
-- attributes with the speed's code, if cfsetispeed and cfsetospeed have put one in, or the rate.
pub data Request : Type 0 where
  i2c_slave watchdog_timeout : ℕ → Request
  spi_mode spi_bits_per_word spi_max_speed_hz : ℕ → Request
  spi_message : Option (List ℕ) → Bool → ℕ → ℕ → ℕ → Request
  interface_index : List ℕ → Request
  bind_can : ℕ → Request
  can_raw_filter : ℕ → ℕ → Request
  get_attributes get_attributes2 flush_both : Request
  set_attributes : Termios → Option ℕ → Request
  set_attributes2 : Termios → ℕ → Request

-- A call, with its descriptor first. cfsetispeed and cfsetospeed have none. `free` and the mutex are those of the driver's handle, or of a
-- block that the driver keeps in a local variable.
pub data Call : Type 0 where
  open_file : List ℕ → Access → Call
  can_socket : Call
  close : ℕ → Call
  read : ℕ → ℕ → Call
  write : ℕ → List ℕ → Call
  rewind : ℕ → Call
  set_input_speed set_output_speed : ℕ → Call
  poll_in poll_out : ℕ → ℤ → Call
  ioctl : ℕ → Request → Call
  malloc : ℕ → Call
  free mutex_init mutex_lock mutex_unlock mutex_destroy : Call

-- `failed e` is a result of -1 (NULL for malloc) with errno `e`. `done v bs e` is the result `v`, with
-- `bs` stored through the call's pointer and errno `e` behind it. The pthread functions do not set errno.
pub data Answer : Type 0 where
  failed : Errno → Answer
  done : ℕ → List ℕ → Errno → Answer

-- A driver's operation: what it asks, and how it goes on with the answer. `halt` is a loop that is out
-- of fuel.
pub data Io (A : Type 0) : Type 0 where
  ret : A → Io A
  call : Call → (Answer → Io A) → Io A
  halt : Io A

abbrev pub sys : Call → Io Answer
sys c = call c (λ a. ret a)

infixl 5 ◌>>=◌ ◌>>◌
abbrev pub ◌>>=◌ : {A B : Type 0} → Io A → (A → Io B) → Io B
ret a >>= f = f a
call c k >>= f = call c (λ a. k a >>= f)
halt >>= f = halt

abbrev pub ◌>>◌ : {A B : Type 0} → Io A → Io B → Io B
m >> n = m >>= λ _. n

pub data Mutex : Type 0 where
  absent unlocked locked : Mutex

-- What the process holds for the driver: descriptors, blocks of memory, and the handle's mutex. `sent`
-- has what write took and `reads` what read stored, in order, and `interrupts` how often a signal will
-- still interrupt a call.
pub record Held : Type 0 where
  pub fds : List ℕ
  pub blocks : ℕ
  pub mutex : Mutex
  pub sent : List (ℕ × List ℕ)
  pub reads : List (ℕ × List ℕ)
  pub interrupts : ℕ

abbrev pub has : ℕ → List ℕ → Bool
has fd [] = false
has fd (x ∷ xs) = if fd == x then true else has fd xs

abbrev pub remove : ℕ → List ℕ → List ℕ
remove fd [] = []
remove fd (x ∷ xs) = if fd == x then xs else x ∷ remove fd xs

-- A call that an operation may make: on a descriptor it holds, a block it holds, a mutex in the state
-- that the call needs.
abbrev pub IsAllowed : Held → Call → Type 0
IsAllowed s (open_file p m) = Unit
IsAllowed s can_socket = Unit
IsAllowed s (close fd) = has fd s.fds ≡ true
IsAllowed s (read fd n) = has fd s.fds ≡ true
IsAllowed s (write fd bs) = has fd s.fds ≡ true
IsAllowed s (set_input_speed code) = Unit
IsAllowed s (set_output_speed code) = Unit
IsAllowed s (rewind fd) = has fd s.fds ≡ true
IsAllowed s (poll_in fd t) = has fd s.fds ≡ true
IsAllowed s (poll_out fd t) = has fd s.fds ≡ true
IsAllowed s (ioctl fd r) = has fd s.fds ≡ true
IsAllowed s (malloc n) = Unit
IsAllowed s free = 0 < s.blocks
IsAllowed s mutex_init = s.mutex ≡ absent
IsAllowed s mutex_lock = s.mutex ≡ unlocked
IsAllowed s mutex_unlock = s.mutex ≡ locked
IsAllowed s mutex_destroy = s.mutex ≡ unlocked

-- The errno of a call that fails, when signals interrupt `n` calls more.
abbrev pub IsFailure : ℕ → Errno → Type 0
IsFailure n eintr = 0 < n
IsFailure n e = e ≢ eok

-- What is documented of an answer: a call that fails sets errno, read stores as many bytes as it
-- returns, each below 256, write takes at most what it is given.
abbrev pub IsDocumented : Held → Call → Answer → Type 0
IsDocumented s c (failed e) = IsFailure s.interrupts e
IsDocumented s (read fd n) (done v bs e) = (v ≡ length bs) × (v ≤ n) × All (λ b. b < 256) bs
IsDocumented s (write fd out) (done v bs e) = v ≤ length out
IsDocumented s c (done v bs e) = Unit

abbrev pub interrupted : Errno → ℕ → ℕ
interrupted eintr n = n - 1
interrupted e n = n

-- What the process holds after an answer. A close that fails has closed the descriptor, as on Linux.
abbrev pub after : Call → Answer → Held → Held
after (close fd) a s = record s { fds = remove fd s.fds }
after free a s = record s { blocks = s.blocks - 1 }
after mutex_init a s = record s { mutex = unlocked }
after mutex_lock a s = record s { mutex = locked }
after mutex_unlock a s = record s { mutex = unlocked }
after mutex_destroy a s = record s { mutex = absent }
after (open_file p m) (done fd bs e) s = record s { fds = fd ∷ s.fds }
after can_socket (done fd bs e) s = record s { fds = fd ∷ s.fds }
after (malloc n) (done v bs e) s = record s { blocks = s.blocks + 1 }
after (write fd out) (done v bs e) s = record s { sent = s.sent ++ ((fd, take v out) ∷ []) }
after (read fd n) (done v bs e) s = record s { reads = s.reads ++ ((fd, bs) ∷ []) }
after c (failed e) s = record s { interrupts = interrupted e s.interrupts }
after c (done v bs e) s = s

-- The operation makes only calls that are allowed, ends whatever the system answers within its
-- documentation, and `Post` holds of its result and of what is held then.
abbrev pub IsSafe : {A : Type 0} → (A → Held → Type 0) → Io A → Held → Type 0
IsSafe Post (ret a) s = Post a s
IsSafe Post (call c k) s =
    IsAllowed s c × ((a : Answer) → IsDocumented s c a → IsSafe Post (k a) (after c a s))
IsSafe Post halt s = ⊥

pub record Ensures {A : Type 0} (Post : A → Held → Type 0) (m : Io A) (s : Held) : Type 0 where
  pub safe : IsSafe Post m s

-- An operation with the answers of a script.
unfoldable pub run : {A : Type 0} → Io A → List Answer → Held → Option (A × Held)
run (ret a) answers s = some (a, s)
run (call c k) [] s = none
run (call c k) (a ∷ answers) s = run (k a) answers (after c a s)
run halt answers s = none

-- An operation on a device that answers each call, and changes with it.
unfoldable pub serve : {A D : Type 0} → (Call → D → Answer × D) → Io A → D → Option (A × D)
serve step (ret a) d = some (a, d)
serve step (call c k) d = let r = step c d in serve step (k r.0) r.1
serve step halt d = none
