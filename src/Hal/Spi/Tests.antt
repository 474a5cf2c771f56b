-- ===== src/Hal/Spi/Tests.antt =====
-- Runs of hal_spi.c, and its theorem at an input.
use emberlite.Common.{◌≡◌, refl, literal, true, some, none, [], ◌∷◌}
use emberlite.Hal.{ok, err_invalid_param, einval}
use emberlite.Hal.Sys.{failed, Ensures, run, ◌>>=◌}
use emberlite.Hal.Handle.Spec.{Keeps}
use emberlite.Hal.Handle.Samples.{nothing_held, handle_held, gives, stores}
use emberlite.Hal.Spi.{SpiConfig, spi_open, spi_close, spi_transfer}
use emberlite.Hal.Spi.Open.{spi_open-close-Keeps}

abbrev config : SpiConfig
config = record {
  path = some (literal "/dev/spidev0.0");
  speed_hz = 1000000;
  mode = 1;
  bits_per_word = 8;
}

-- The second setting is refused.
refused :
    run
      (spi_open (some config) true)
      (gives 3
        ∷ gives 1
        ∷ gives 0
        ∷ gives 0
        ∷ failed einval
        ∷ gives 0
        ∷ gives 0
        ∷ gives 0
        ∷ gives 0
        ∷ gives 0
        ∷ [])
      nothing_held
    ≡ some ((err_invalid_param, none), nothing_held)
unfolding run spi_open
refused = refl

full_duplex :
    run
      (spi_transfer (some (record { fd = some 3; cfg = config })) (some (1 ∷ 2 ∷ [])) true 2)
      (gives 0 ∷ gives 0 ∷ stores (8 ∷ 9 ∷ []) 2 ∷ [])
      handle_held
    ≡ some ((ok, 8 ∷ 9 ∷ []), handle_held)
unfolding run spi_transfer
full_duplex = refl

spi_open-close-Keeps_example :
    Ensures
      (λ st s'. Keeps nothing_held s')
      (spi_open (some config) true >>= λ r. spi_close r.1)
      nothing_held
spi_open-close-Keeps_example = spi_open-close-Keeps (some config) true nothing_held refl
