-- ===== src/Hal/Uart/Tests.antt =====
-- Runs of hal_uart.c, and its theorem at an input.
use emberlite.Common.{◌≡◌, refl, arith, false, some, [], ◌∷◌, pos, negsuc}
use emberlite.Hal.{ok, eintr}
use emberlite.Hal.Uart.{
  poll_error, poll_ready, write_error, wrote, Line, returned, write_loop, uart_write,
}
use emberlite.Hal.Uart.Write.{Written, write_loop-Written}

-- The first byte is written, then two after an interruption.
abbrev line : Line
line = record {
  polls = poll_ready false ∷ poll_error eintr ∷ poll_ready false ∷ [];
  writes = wrote 1 ∷ write_error eintr ∷ wrote 5 ∷ [];
  sent = 9 ∷ [];
}

partial_writes :
    uart_write 4 (some (pos 3)) (some (1 ∷ 2 ∷ 3 ∷ [])) 3 (negsuc 0) line
    ≡ returned (ok, some 3) (record { polls = []; writes = []; sent = 9 ∷ 1 ∷ 2 ∷ 3 ∷ [] })
unfolding uart_write
partial_writes = refl

write_loop-Written_example :
    Written (negsuc 0) (1 ∷ 2 ∷ 3 ∷ []) 0 line (write_loop 4 (negsuc 0) (1 ∷ 2 ∷ 3 ∷ []) 0 line)
write_loop-Written_example =
    write_loop-Written 4 (negsuc 0) (1 ∷ 2 ∷ 3 ∷ []) 0 line (omega arith) ((λ e. ground arith), tt)
