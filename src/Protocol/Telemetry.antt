-- ===== src/Protocol/Telemetry.antt =====
-- protocol.cpp: the builders of telemetry. Each fills the send buffer from its start and returns
-- the count of bytes.
use freaky_camper_arduino.Base.{ℕ, ◌+◌, ◌*◌, ◌/◌, ◌%◌, Bool, true, false, List}
use freaky_camper_arduino.Base.Int.{ℤ, pos, ◌+ℤ◌, trunc_div, wrap}
use freaky_camper_arduino.Board.{Env}
use freaky_camper_arduino.Machine.{M, ◌>>=◌, ◌>>◌, return, get, index, for_range}
use freaky_camper_arduino.Config.{
  nb_current_sensors, nb_tension_sensors, nb_temp_sensors, nb_elec_switches, light_type,
  light_stat_dimm, light_stat_r, light_stat_g, light_stat_b,
}
use freaky_camper_arduino.Electrical.{get_relay_status}
use freaky_camper_arduino.Sensors.{get_temperature_from_index}
use freaky_camper_arduino.Light.{light_byte}
use freaky_camper_arduino.Water.{
  is_pump_active, get_clean_water_level, is_dark_water_tank_full, is_evier_opened, is_shower_opened,
}
use freaky_camper_arduino.Protocol.Frames.{put}

abbrev pub tm_is_alive : ℕ
tm_is_alive = 9

abbrev pub tm_current : ℕ
tm_current = 70

abbrev pub tm_tension : ℕ
tm_tension = 71

abbrev pub tm_temperature : ℕ
tm_temperature = 72

abbrev pub tm_water : ℕ
tm_water = 73

abbrev pub tm_switch : ℕ
tm_switch = 74

abbrev pub tm_light : ℕ
tm_light = 75

abbrev pub bit : Bool → ℕ
bit true = 1
bit false = 0

unfoldable pub tm_builder_is_alive : M ℕ
tm_builder_is_alive = do put 0 tm_is_alive; return 1

-- highByte and lowByte of a 16-bit pattern.
abbrev pub put_short : List ℕ → ℕ → M (Unit {0})
put_short values i = do
  v ← index values i
  put (1 + 2 * i) (v / 256 % 256)
  put (2 + 2 * i) (v % 256)

unfoldable pub tm_builder_current : M ℕ
tm_builder_current = do
  put 0 tm_current
  currents ← get λ m. m.currents
  for_range nb_current_sensors 0 (put_short currents)
  return (1 + 2 * nb_current_sensors)

unfoldable pub tm_builder_tension : M ℕ
tm_builder_tension = do
  put 0 tm_tension
  tensions ← get λ m. m.tensions
  for_range nb_tension_sensors 0 (put_short tensions)
  return (1 + 2 * nb_tension_sensors)

-- 128 + (int)(temp * 2) as a byte; `temp` is in 1/128 of a degree.
unfoldable pub format_temp_data : ℤ → ℕ
format_temp_data temp = wrap (pos 128 +ℤ trunc_div temp 64) 256

unfoldable pub put_temperature : Env → ℕ → M (Unit {0})
unfolding format_temp_data get_temperature_from_index
put_temperature env i = do
  temp ← get_temperature_from_index env i
  put (1 + i) (format_temp_data temp)

unfoldable pub tm_builder_temperature : Env → M ℕ
unfolding put_temperature
tm_builder_temperature env = do
  put 0 tm_temperature
  for_range nb_temp_sensors 0 (put_temperature env)
  return (1 + nb_temp_sensors)

unfoldable pub tm_builder_water : Env → M ℕ
unfolding is_pump_active get_clean_water_level is_dark_water_tank_full is_evier_opened
    is_shower_opened
tm_builder_water env = do
  put 0 tm_water
  pump ← is_pump_active env
  put 1 (bit pump)
  clean ← get_clean_water_level env
  put 2 clean
  dark ← is_dark_water_tank_full env
  put 3 (bit dark)
  flow ← get λ m. m.water.water_flow_liters_min
  put 4 flow
  evier ← is_evier_opened env
  put 5 (bit evier)
  shower ← is_shower_opened env
  put 6 (bit shower)
  return 7

unfoldable pub put_switch : Env → ℕ → M (Unit {0})
unfolding get_relay_status
put_switch env i = do status ← get_relay_status env i; put (1 + i) (bit status)

unfoldable pub tm_builder_switch : Env → M ℕ
unfolding put_switch
tm_builder_switch env = do
  put 0 tm_switch
  for_range nb_elec_switches 0 (put_switch env)
  return (1 + nb_elec_switches)

unfoldable pub tm_builder_light : ℕ → M ℕ
tm_builder_light light_id = do
  put 0 tm_light
  put 1 light_id
  type ← light_byte light_id light_type
  put 2 type
  dimm ← light_byte light_id light_stat_dimm
  put 3 dimm
  r ← light_byte light_id light_stat_r
  put 4 r
  g ← light_byte light_id light_stat_g
  put 5 g
  b ← light_byte light_id light_stat_b
  put 6 b
  return 7

unfoldable pub tm_builder_cold_hot : M ℕ
tm_builder_cold_hot = return 0
