-- ===== src/Sensors.antt =====
-- FreakyCampManager/current.cpp, tension.cpp and temperatureSensors.cpp: the polled sensors.
pub mod Polling
use freaky_camper_arduino.Base.{ℕ, ◌*◌}
use freaky_camper_arduino.Base.Int.{ℤ}
use freaky_camper_arduino.Board.{
  Env, analog_read, sensors_begin, request_temperatures, set_resolution, get_address, get_temp_c,
}
use freaky_camper_arduino.Machine.{M, ◌>>=◌, ◌>>◌, call, ask, get, modify, index, store, for_range}
use freaky_camper_arduino.Config.{
  nb_current_sensors, current_pins, current_cal_factors, nb_tension_sensors, tension_pins,
  tension_cal_factors, nb_temp_sensors, temp_probes,
}

-- 100 times the reading times a factor in hundredths is the reading times the number of hundredths.
unfoldable pub pool_current_sensor : Env → ℕ → M (Unit {0})
pool_current_sensor env i = do
  pin ← index current_pins i
  input_value ← ask (analog_read pin) λ t. env.analog_level t pin
  factor ← index current_cal_factors i
  currents ← get λ m. m.currents
  store currents i (env.short_of (input_value * factor))
      λ cs. modify λ m. record m { currents = cs }

unfoldable pub pool_current_sensors : Env → M (Unit {0})
unfolding pool_current_sensor
pool_current_sensors env = for_range nb_current_sensors 0 (pool_current_sensor env)

unfoldable pub pool_tension_sensor : Env → ℕ → M (Unit {0})
pool_tension_sensor env i = do
  pin ← index tension_pins i
  input_value ← ask (analog_read pin) λ t. env.analog_level t pin
  factor ← index tension_cal_factors i
  tensions ← get λ m. m.tensions
  store tensions i (env.short_of (input_value * factor))
      λ ts. modify λ m. record m { tensions = ts }

unfoldable pub pool_tension_sensors : Env → M (Unit {0})
unfolding pool_tension_sensor
pool_tension_sensors env = for_range nb_tension_sensors 0 (pool_tension_sensor env)

unfoldable pub pool_temperature_sensors : M (Unit {0})
pool_temperature_sensors = call request_temperatures

unfoldable pub init_temp_sensors : M (Unit {0})
unfolding pool_temperature_sensors
init_temp_sensors = do
  call sensors_begin
  for_range nb_temp_sensors 0
      λ i. do probe ← index temp_probes i; call (set_resolution probe 10); call (get_address i)
  pool_temperature_sensors

-- In 1/128 of a degree.
unfoldable pub get_temperature_from_index : Env → ℕ → M ℤ
get_temperature_from_index env idx = do
  probe ← index temp_probes idx
  ask (get_temp_c probe) λ t. env.temperature t probe

-- `eTempSensorId`
data TempSensorId : Type 0 where
  temp_fridge temp_inside_1 temp_inside_2 temp_water_primary temp_water_secondary : TempSensorId
  temp_heat_blower temp_outside : TempSensorId

abbrev temp_sensor_index : TempSensorId → ℕ
temp_sensor_index temp_fridge = 0
temp_sensor_index temp_inside_1 = 1
temp_sensor_index temp_inside_2 = 2
temp_sensor_index temp_water_primary = 3
temp_sensor_index temp_water_secondary = 4
temp_sensor_index temp_heat_blower = 5
temp_sensor_index temp_outside = 6

abbrev get_temperature : Env → TempSensorId → M ℤ
get_temperature env sensor = do
  probe ← index temp_probes (temp_sensor_index sensor)
  ask (get_temp_c probe) λ t. env.temperature t probe
