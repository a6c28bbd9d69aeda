-- ===== src/Light/Dimming.antt =====
-- What a telecommand writes on the pins of a light, in FreakyCampManager/light.cpp.
use freaky_camper_arduino.Base.{
  ℕ, ◌-◌, ◌*◌, ◌/◌, ◌<◌, ◌≡◌, ltb, ◌==◌, if◌then◌else◌, some, get_elem?, ◌∷◌, List, arith,
}
use freaky_camper_arduino.Base.Int.{ℤ, pos, sub_ℕ}
use freaky_camper_arduino.Board.{digital, analog_write}
use freaky_camper_arduino.Machine.{Machine, done}
use freaky_camper_arduino.Config.{
  light_type, light_pout_r, light_pout_g, light_pout_b, light_type_dimmable,
}
use freaky_camper_arduino.Light.{scale, set_light_dimmed_rgb_value, light_command}

-- The level of a colour `c` at the brightness `dim`: the product over 256, which turns negative
-- where the product is 2^15 or more.
abbrev pub shade : ℕ → ℕ → ℤ
shade c dim = if ltb (c * dim) 32768 then pos (c * dim / 256) else sub_ℕ 0 ((65536 - c * dim) / 256)

below : (c dim : ℕ) → c < 256 → dim < 256 → c * dim < 65536
below c dim k l = grind arith

scale_lem : (c dim : ℕ) → c < 256 → dim < 256 → scale c dim ≡ shade c dim
unfolding scale
scale_lem c dim k l = ground (arith, below c dim k l)

set_light_dimmed_rgb_value_lem :
    (light_id dim r g b : ℕ) (row : List ℕ) (pr pg pb : ℕ) (m : Machine)
    → dim < 256
    → r < 256
    → g < 256
    → b < 256
    → get_elem? m.lights_conf light_id ≡ some row
    → get_elem? row light_pout_r ≡ some pr
    → get_elem? row light_pout_g ≡ some pg
    → get_elem? row light_pout_b ≡ some pb
    → set_light_dimmed_rgb_value light_id dim r g b m
      ≡ done tt (record m {
        trace =
            analog_write (digital pb) (shade b dim)
            ∷ analog_write (digital pg) (shade g dim)
            ∷ analog_write (digital pr) (shade r dim)
            ∷ m.trace;
      })
unfolding set_light_dimmed_rgb_value
set_light_dimmed_rgb_value_lem light_id dim r g b row pr pg pb m kd kr kg kb e er eg eb =
    ground (arith, scale_lem r dim kr kd, scale_lem g dim kg kd, scale_lem b dim kb kd)

-- The level that a telecommand gives to a colour: none on a light of the dimmable type.
abbrev pub commanded : ℕ → ℕ → ℕ → ℤ
commanded type c dim = if type == light_type_dimmable then pos 0 else shade c dim

-- For byte arguments and a light whose row holds a type and three pins, a command makes exactly
-- three calls, one for each pin. On a light of the dimmable type every pin is written 0, whatever the
-- brightness. On another light a pin is written the product of its colour and the brightness over
-- 256 while that product is below 2^15, and otherwise 2^16 minus it over 256, negated.
pub light_command_lem :
    (light_id dim r g b : ℕ) (row : List ℕ) (type pr pg pb : ℕ) (m : Machine)
    → dim < 256
    → r < 256
    → g < 256
    → b < 256
    → get_elem? m.lights_conf light_id ≡ some row
    → get_elem? row light_type ≡ some type
    → get_elem? row light_pout_r ≡ some pr
    → get_elem? row light_pout_g ≡ some pg
    → get_elem? row light_pout_b ≡ some pb
    → light_command light_id dim r g b m
      ≡ done tt (record m {
        trace =
            analog_write (digital pb) (commanded type b dim)
            ∷ analog_write (digital pg) (commanded type g dim)
            ∷ analog_write (digital pr) (commanded type r dim)
            ∷ m.trace;
      })
unfolding light_command
light_command_lem light_id dim r g b row type pr pg pb m kd kr kg kb e et er eg eb = ground (
  arith,
  scale_lem 0 dim (omega arith) kd,
  scale_lem r dim kr kd,
  scale_lem g dim kg kd,
  scale_lem b dim kb kd,
)
