-- ===== src/Hal/Uart/Device/Tests.antt =====
-- Runs of the open, the close and the read of hal_uart.c, and their theorems at an input.
use emberlite.Common.{◌≡◌, refl, literal, true, none, some, [], ◌∷◌, negsuc}
use emberlite.Hal.{ok, err_busy, eintr, ebusy, eother, eok}
use emberlite.Hal.Sys.{failed, done, Ensures, run, ◌>>=◌}
use emberlite.Hal.Handle.Spec.{Keeps}
use emberlite.Hal.Handle.Samples.{nothing_held, handle_held, gives, stores}
use emberlite.Hal.Uart.Config.{UartConfig}
use emberlite.Hal.Uart.Device.{new_handle, uart_open, uart_close, uart_read}
use emberlite.Hal.Uart.Device.Open.{uart_open-close-Keeps}

abbrev config : UartConfig
config = record {
  path = some (literal "/dev/ttyS0");
  baudrate = 100000;
  data_bits = 8;
  stop_bits = 1;
  parity = 0;
  flow_control = 0;
}

-- The rate is set with BOTHER, which fails: the line is closed.
refused :
    run
      (uart_open (some config) true)
      (gives 3
        ∷ gives 1
        ∷ gives 0
        ∷ gives 0
        ∷ stores (0x500 ∷ 5 ∷ 0xBF ∷ 0x8A3B ∷ 1 ∷ 0 ∷ []) 0
        ∷ gives 0
        ∷ failed ebusy
        ∷ gives 0
        ∷ gives 0
        ∷ gives 0
        ∷ gives 0
        ∷ [])
      nothing_held
    ≡ some ((err_busy, none), nothing_held)
unfolding run uart_open
refused = refl

-- A close that fails, behind a `free` that leaves errno as 0: the result is HAL_OK.
lost_error :
    run
      (uart_close (some (new_handle 3)))
      (gives 0 ∷ gives 0 ∷ failed eother ∷ gives 0 ∷ done 0 [] eok ∷ [])
      handle_held
    ≡ some (ok, record nothing_held { blocks = 7 })
unfolding run uart_close
lost_error = refl

-- Both loops go on behind a signal.
two_bytes :
    run
      (uart_read 3 (some (new_handle 3)) true 8 (negsuc 0))
      (gives 0
        ∷ gives 0
        ∷ failed eintr
        ∷ stores (1 ∷ []) 1
        ∷ failed eintr
        ∷ stores (65 ∷ 66 ∷ []) 2
        ∷ [])
      handle_held
    ≡ some (
      (ok, 65 ∷ 66 ∷ [], some 2),
      record handle_held { reads = (3, 65 ∷ 66 ∷ []) ∷ []; interrupts = 0 },
    )
unfolding run uart_read
two_bytes = refl

uart_open-close-Keeps_example :
    Ensures
      (λ st s'. Keeps nothing_held s')
      (uart_open (some config) true >>= λ r. uart_close r.1)
      nothing_held
uart_open-close-Keeps_example = uart_open-close-Keeps (some config) true nothing_held refl
