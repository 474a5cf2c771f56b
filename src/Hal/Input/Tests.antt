-- ===== src/Hal/Input/Tests.antt =====
-- Runs of hal_input.c, and its theorem at an input.
use emberlite.Common.{
  ℕ, List, ◌≡◌, refl, arith, true, some, none, [], ◌∷◌, ◌++◌, replicate, pos, negsuc,
}
use emberlite.Hal.{ok, err_timeout, eintr, eagain}
use emberlite.Hal.Sys.{failed, Ensures, run}
use emberlite.Hal.Handle.Samples.{handle_held, handle_held-Holds, gives, stores}
use emberlite.Hal.Input.{InputHandle, input_read_event}
use emberlite.Hal.Input.Events.{EventRead, input_read_event-EventRead}

abbrev handle : InputHandle
handle = record { fd = some 3 }

abbrev key_bytes : List ℕ
key_bytes = 5 ∷ 1 ∷ replicate 6 0 ++ (7 ∷ replicate 7 0 ++ (1 ∷ 0 ∷ 30 ∷ 0 ∷ replicate 4 255))

-- A key goes up, with the value -1.
key_event :
    run
      (input_read_event 2 (some handle) true (pos 0))
      (gives 0 ∷ gives 0 ∷ failed eintr ∷ stores key_bytes 24 ∷ [])
      handle_held
    ≡ some (
      (
        ok,
        some
            (record { time_sec = 261; time_usec = 7; event_type = 1; code = 30; value = negsuc 0 }),
      ),
      record handle_held { reads = (3, key_bytes) ∷ []; interrupts = 1 },
    )
unfolding run input_read_event
key_event = refl

nothing_there :
    run
      (input_read_event 1 (some handle) true (pos 0))
      (gives 0 ∷ gives 0 ∷ failed eagain ∷ [])
      handle_held
    ≡ some ((err_timeout, none), handle_held)
unfolding run input_read_event
nothing_there = refl

input_read_event-EventRead_example :
    Ensures (EventRead 3 handle_held) (input_read_event 3 (some handle) true (pos 5)) handle_held
input_read_event-EventRead_example =
    input_read_event-EventRead 3 handle 3 (pos 5) handle_held refl handle_held-Holds (omega arith)
