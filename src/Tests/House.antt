-- ===== src/Tests/House.antt =====
-- The theorems on the water, the lights and the encoding at concrete boards.
use freaky_camper_arduino.Base.{
  ℕ, ◌⊎◌, ◌+◌, ◌*◌, ◌^◌, ◌≤◌, ◌<◌, ◌≡◌, refl, false, some, List, [], ◌∷◌, arith,
}
use freaky_camper_arduino.Base.Int.{ℤ, pos, negsuc, wrap}
use freaky_camper_arduino.Board.{digital, analog_write}
use freaky_camper_arduino.Machine.{done}
use freaky_camper_arduino.Light.{light_on_off, light_command}
use freaky_camper_arduino.Light.Dimming.{light_command_lem}
use freaky_camper_arduino.Light.Switching.{after, light_on_off_lem}
use freaky_camper_arduino.Water.{water_level}
use freaky_camper_arduino.Water.Levels.{water_level_mono}
use freaky_camper_arduino.Protocol.{format_temp_data}
use freaky_camper_arduino.Protocol.Encoding.{format_temp_data_close}
use freaky_camper_arduino.Light.Hsv.{hsv_to_rgb, rejected, hsv_to_rgb_lem}
use freaky_camper_arduino.Light.Fixed.{fixed, fixed-IsFloat}
use freaky_camper_arduino.Tests.{power_on}

abbrev byte_of : ℤ → ℕ
byte_of z = wrap z 256

water_level_mono_example :
    (water_level byte_of 1024 ≡ 100) × (water_level byte_of 600 ≤ water_level byte_of 1024)
water_level_mono_example =
    water_level_mono byte_of (λ n h. omega arith) 600 1024 (omega arith) (omega arith)

format_temp_data_close_example :
    (format_temp_data (negsuc 639) < 256)
    × (64 * format_temp_data (negsuc 639) + 640 < 8192 + 64)
    × (8192 < 64 * format_temp_data (negsuc 639) + 640 + 64)
unfolding format_temp_data
format_temp_data_close_example = format_temp_data_close (negsuc 639) (omega arith) (omega arith)

abbrev rgb_row : List ℕ
rgb_row = 12 ∷ 2 ∷ 5 ∷ 6 ∷ 7 ∷ 0 ∷ 0 ∷ 0 ∷ 0 ∷ []

light_command_lem_example :
    light_command 2 255 255 100 0 power_on
    ≡ done tt (record power_on {
      trace =
          analog_write (digital 7) (pos 0)
          ∷ analog_write (digital 6) (pos 99)
          ∷ analog_write (digital 5) (negsuc 0)
          ∷ power_on.trace;
    })
light_command_lem_example =
    light_command_lem 2 255 255 100 0 rgb_row 2 5 6 7 power_on (omega arith) (omega arith)
      (omega arith) (omega arith) refl refl refl refl refl

abbrev lamp_row : List ℕ
lamp_row = 10 ∷ 0 ∷ 36 ∷ 0 ∷ 0 ∷ 0 ∷ 0 ∷ 0 ∷ 0 ∷ []

light_on_off_lem_example :
    (light_on_off 0 1 power_on ≡ done tt (after 0 lamp_row 36 0 1 power_on))
    × (light_on_off 0 1 (after 0 lamp_row 36 0 1 power_on)
        ≡ done tt (after 0 lamp_row 36 0 1 power_on))
light_on_off_lem_example = light_on_off_lem 0 1 lamp_row 36 0 power_on refl refl refl

-- Two sixths round the colours at half the saturation.
hsv_to_rgb_lem_example :
    (n : ℕ) × (hsv_to_rgb fixed 512 128 256 ≡ some (pos n))
    × (n < 2 ^ 24)
    × ((rejected fixed 128 256 ≡ false) ⊎ (n ≡ 0))
hsv_to_rgb_lem_example = hsv_to_rgb_lem fixed fixed-IsFloat 512 128 256
