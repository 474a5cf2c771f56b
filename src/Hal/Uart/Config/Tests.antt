-- ===== src/Hal/Uart/Config/Tests.antt =====
-- Attributes of lines, and the theorem at a configuration.
use emberlite.Common.{◌≡◌, refl, none, some, []}
use emberlite.Hal.Termios.{Termios, termios_of}
use emberlite.Hal.Uart.Config.{UartConfig, attributes_for, baud_to_speed}
use emberlite.Hal.Uart.Config.Valid.{IsValid, Describes, attributes_for-Describes}

-- 115200 7E2 with RTS/CTS.
abbrev line : UartConfig
line = record {
  path = none;
  baudrate = 115200;
  data_bits = 7;
  stop_bits = 2;
  parity = 2;
  flow_control = 1;
}

nine_bits : attributes_for (record line { data_bits = 9 }) (termios_of []) ≡ none
unfolding attributes_for
nine_bits = refl

known_rate : baud_to_speed 115200 ≡ 0x1002
unfolding baud_to_speed
known_rate = refl

odd_rate : baud_to_speed 100000 ≡ 0
unfolding baud_to_speed
odd_rate = refl

attributes_for-Describes_example :
    (IsValid line
      → (t' : Termios) × (attributes_for line (termios_of []) ≡ some t') × Describes line t')
    × ((t' : Termios) → attributes_for line (termios_of []) ≡ some t' → IsValid line)
attributes_for-Describes_example = attributes_for-Describes line (termios_of [])
