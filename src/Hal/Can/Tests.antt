-- ===== src/Hal/Can/Tests.antt =====
-- Runs of hal_can.c, and its theorems at an input.
use emberlite.Common.{ℕ, ◌≡◌, refl, literal, true, some, none, List, [], ◌∷◌, pos}
use emberlite.Hal.{eok, eintr, err_timeout, err_nodevice, enodev}
use emberlite.Hal.Sys.{Call, Answer, failed, done, read, write, poll_in, run, ◌>>◌}
use emberlite.Hal.Handle.Samples.{nothing_held, handle_held, gives, stores}
use emberlite.Hal.Can.{CanConfig, CanFrame, of_can_frame, can_open, can_receive}
use emberlite.Hal.Can.Frame.{Bus, socket}

abbrev config : CanConfig
config = record { ifname = some (literal "can0"); bitrate = 500000; filter_id = 0x123 }

abbrev request : CanFrame
request = record {
  id = 0x123;
  dlc = 2;
  frame_data = 7 ∷ 8 ∷ 9 ∷ 0 ∷ 0 ∷ 0 ∷ 0 ∷ 0 ∷ [];
  is_rtr = 1;
}

-- The interface cannot be bound: the socket is closed.
no_interface :
    run
      (can_open (some config) true)
      (gives 3 ∷ stores (4 ∷ 0 ∷ 0 ∷ 0 ∷ []) 0 ∷ failed enodev ∷ gives 0 ∷ [])
      nothing_held
    ≡ some ((err_nodevice, none), nothing_held)
unfolding run can_open
no_interface = refl

-- The wait goes on behind a signal.
timeout :
    run
      (can_receive 2 (socket 3) true (pos 10))
      (gives 0 ∷ gives 0 ∷ failed eintr ∷ gives 0 ∷ [])
      handle_held
    ≡ some ((err_timeout, none), record handle_held { interrupts = 1 })
unfolding run can_receive
timeout = refl

-- A count above 8 stays, and eight bytes are taken.
long_count :
    of_can_frame (1 ∷ 0 ∷ 0 ∷ 0 ∷ 12 ∷ 0 ∷ 0 ∷ 0 ∷ 1 ∷ 2 ∷ 3 ∷ 4 ∷ 5 ∷ 6 ∷ 7 ∷ 8 ∷ [])
    ≡ record { id = 1; dlc = 12; frame_data = 1 ∷ 2 ∷ 3 ∷ 4 ∷ 5 ∷ 6 ∷ 7 ∷ 8 ∷ []; is_rtr = 0 }
unfolding of_can_frame
long_count = refl

-- A bus that keeps the last frame.
answer : Call → List ℕ → Answer × List ℕ
answer (write fd bs) frame = (done 16 [] eok, bs)
answer (read fd n) frame = (done 16 frame eok, frame)
answer (poll_in fd t) frame = (done 1 (1 ∷ []) eok, frame)
answer c frame = (done 0 [] eok, frame)

last_frame : Bus (List ℕ) 3
unfolding answer
last_frame = record {
  step = answer;
  queued = λ d. d;
  errno = λ d. eok;
  lock_keeps = λ d. refl;
  unlock_keeps = λ d. refl;
  write_done = λ d bs l. refl;
  write_queues = λ d bs l. refl;
  poll_done = λ d t. refl;
  poll_keeps = λ d t. refl;
  read_done = λ d. refl;
}
