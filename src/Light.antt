-- ===== src/Light.antt =====
-- FreakyCampManager/light.cpp: the lights. `lightsConf` is indexed by a byte of a telecommand.
pub mod Dimming
pub mod Hsv
pub mod Fixed
pub mod Switching
use freaky_camper_arduino.Base.{ℕ, ◌*◌, ◌%◌, ◌^◌, ltb, ◌==◌, if◌then◌else◌, false}
use freaky_camper_arduino.Base.Int.{ℤ, pos, signed, trunc_div}
use freaky_camper_arduino.Board.{digital, output, pin_mode, digital_write, analog_write}
use freaky_camper_arduino.Machine.{M, ◌>>=◌, ◌>>◌, skip, call, get, modify, index, store, for_range}
use freaky_camper_arduino.Config.{
  nb_lights, light_type, light_pout_r, light_pout_g, light_pout_b, light_stat_dimm,
  light_type_normal, light_type_dimmable, light_type_rgb_dimmable,
}

-- lightsConf[light_id][column]
abbrev pub light_byte : ℕ → ℕ → M ℕ
light_byte light_id column = do
  conf ← get λ m. m.lights_conf
  row ← index conf light_id
  index row column

-- lightsConf[light_id][column] = value
abbrev pub set_light_byte : ℕ → ℕ → ℕ → M (Unit {0})
set_light_byte light_id column value = do
  conf ← get λ m. m.lights_conf
  row ← index conf light_id
  store row column value
      λ row'. store conf light_id row' λ conf'. modify λ m. record m { lights_conf = conf' }

unfoldable pub init_pin : ℕ → ℕ → M (Unit {0})
init_pin i column = do
  pin ← light_byte i column
  call (pin_mode (digital pin) output)
  call (digital_write (digital pin) false)

unfoldable pub init_light : ℕ → M (Unit {0})
unfolding init_pin
init_light i = do
  type ← light_byte i light_type
  if type == light_type_normal
      then init_pin i light_pout_r
      else if type == light_type_dimmable
      then (do
        pin ← light_byte i light_pout_r
        call (pin_mode (digital pin) output)
        call (analog_write (digital pin) (pos 0)))
      else if type == light_type_rgb_dimmable
      then (do init_pin i light_pout_r; init_pin i light_pout_g; init_pin i light_pout_b)
      else skip

unfoldable pub init_light_function : M (Unit {0})
unfolding init_light
init_light_function = for_range nb_lights 0 init_light

-- c * dim / 256 on `int`, which has 16 bits on the board and wraps.
unfoldable pub scale : ℕ → ℕ → ℤ
scale c dim = trunc_div (signed (c * dim % 2 ^ 16) (2 ^ 15)) 256

unfoldable pub set_light_dimmed_rgb_value : ℕ → ℕ → ℕ → ℕ → ℕ → M (Unit {0})
unfolding scale
set_light_dimmed_rgb_value light_id dim r g b = do
  pin_r ← light_byte light_id light_pout_r
  call (analog_write (digital pin_r) (scale r dim))
  pin_g ← light_byte light_id light_pout_g
  call (analog_write (digital pin_g) (scale g dim))
  pin_b ← light_byte light_id light_pout_b
  call (analog_write (digital pin_b) (scale b dim))

unfoldable pub light_command : ℕ → ℕ → ℕ → ℕ → ℕ → M (Unit {0})
unfolding set_light_dimmed_rgb_value
light_command light_id dim red green blue = do
  type ← light_byte light_id light_type
  if type == light_type_dimmable
      then set_light_dimmed_rgb_value light_id dim 0 0 0
      else set_light_dimmed_rgb_value light_id dim red green blue

unfoldable pub light_on_off : ℕ → ℕ → M (Unit {0})
light_on_off light_id status = do
  st ← light_byte light_id light_stat_dimm
  if st == status then skip else (do
    pin ← light_byte light_id light_pout_r
    call (digital_write (digital pin) (ltb 0 status))
    set_light_byte light_id light_stat_dimm status)
