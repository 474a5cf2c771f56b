-- ===== src/Hal/Watchdog/Tests.antt =====
-- Runs of the watchdog of hal_system.c.
use emberlite.Common.{◌≡◌, refl, true, some, none, [], ◌∷◌}
use emberlite.Hal.{ok, ebusy, eok}
use emberlite.Hal.Sys.{failed, done, run}
use emberlite.Hal.Handle.Samples.{nothing_held, handle_held, gives}
use emberlite.Hal.Watchdog.{WatchdogHandle, watchdog_open, watchdog_close, watchdog_feed}

abbrev handle : WatchdogHandle
handle = record { fd = some 3 }

-- The device is busy, but `free` leaves errno as 0: the result is HAL_OK without a handle.
lost_error :
    run
      (watchdog_open none true)
      (gives 1 ∷ gives 0 ∷ failed ebusy ∷ gives 0 ∷ done 0 [] eok ∷ [])
      nothing_held
    ≡ some ((ok, none), nothing_held)
unfolding run watchdog_open
lost_error = refl

feeds :
    run (watchdog_feed (some handle)) (gives 0 ∷ gives 0 ∷ gives 1 ∷ []) handle_held
    ≡ some (ok, record handle_held { sent = (3, 0 ∷ []) ∷ [] })
unfolding run watchdog_feed
feeds = refl

-- The magic byte goes out before the close.
closes :
    run
      (watchdog_close (some handle))
      (gives 0 ∷ gives 0 ∷ gives 1 ∷ gives 0 ∷ gives 0 ∷ gives 0 ∷ [])
      handle_held
    ≡ some (ok, record nothing_held { sent = (3, b'V' ∷ []) ∷ [] })
unfolding run watchdog_close
closes = refl
