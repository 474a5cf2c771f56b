-- ===== src/Hal/Onewire/Tests.antt =====
-- Runs of hal_onewire.c.
use emberlite.Common.{◌≡◌, refl, literal, true, some, none, [], ◌∷◌}
use emberlite.Hal.{ok, err_nodevice, enoent}
use emberlite.Hal.Sys.{failed, unlocked, run}
use emberlite.Hal.Handle.Samples.{nothing_held, handle_held, gives, stores}
use emberlite.Hal.Onewire.{OnewireHandle, onewire_open, onewire_read_raw}

abbrev device : OnewireHandle
device = record { device_dir = literal "/w1/28-01" }

opens :
    run
      (onewire_open
        (some (record { bus_path = some (literal "/w1"); device_id = some (literal "28-01") }))
        true)
      (gives 1 ∷ gives 0 ∷ [])
      nothing_held
    ≡ some ((ok, some device), record nothing_held { blocks = 8; mutex = unlocked })
unfolding run onewire_open
opens = refl

-- The lock is given back when the file is missing, and the descriptor when it is there.
missing :
    run (onewire_read_raw (some device) true 9) (gives 0 ∷ failed enoent ∷ gives 0 ∷ []) handle_held
    ≡ some ((err_nodevice, [], none), handle_held)
unfolding run onewire_read_raw
missing = refl

reads :
    run
      (onewire_read_raw (some device) true 9)
      (gives 0 ∷ gives 5 ∷ stores (literal "t=21") 4 ∷ gives 0 ∷ gives 0 ∷ [])
      handle_held
    ≡ some ((ok, literal "t=21", some 4), record handle_held { reads = (5, literal "t=21") ∷ [] })
unfolding run onewire_read_raw
reads = refl
