-- ===== src/Hal/Uart/Device/Read.antt =====
-- That hal_uart_read of hal_uart.c ends, and what it has read then.
use emberlite.Common.{ℕ, ◌≤◌, ◌≡◌, ◌≢◌, Option, some, List, [], ◌∷◌, ◌++◌, length}
use emberlite.Hal.{HalStatus, ok}
use emberlite.Hal.Sys.{Held}
use emberlite.Hal.Handle.Spec.{Keeps}

-- The end of a read of at most `len` bytes: HAL_OK with the bytes that one read of the descriptor has
-- stored, and their number, nothing else being read; or an error with none, and nothing is read. The
-- process holds what it did.
pub data Received (fd len : ℕ) (s : Held) : HalStatus × List ℕ × Option ℕ → Held → Type 0 where
  none_asked :
      (s' : Held)
      → len ≡ 0
      → Keeps s s'
      → s'.reads ≡ s.reads
      → Received fd len s (ok, [], some 0) s'
  received :
      (bs : List ℕ) (s' : Held)
      → length bs ≤ len
      → Keeps s s'
      → s'.reads ≡ s.reads ++ ((fd, bs) ∷ [])
      → Received fd len s (ok, bs, some (length bs)) s'
  not_received :
      (st : HalStatus) (s' : Held)
      → st ≢ ok
      → Keeps s s'
      → s'.reads ≡ s.reads
      → Received fd len s (st, [], some 0) s'
