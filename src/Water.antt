-- ===== src/Water.antt =====
-- FreakyCampManager/water.cpp: the water tanks, the pump and the flow sensor.
pub mod Levels
use freaky_camper_arduino.Base.{
  ℕ, ◌+◌, ◌-◌, ◌*◌, ◌/◌, ◌%◌, ◌^◌, ltb, if◌then◌else◌, Bool, true, false, not, ◌&&◌,
}
use freaky_camper_arduino.Base.Int.{ℤ, pos, signed, trunc_div}
use freaky_camper_arduino.Board.{
  Env, input, output, pin_mode, digital_write, digital_read, analog_read, attach_interrupt,
}
use freaky_camper_arduino.Machine.{M, ◌>>=◌, ◌>>◌, return, skip, call, ask, get, set_water}
use freaky_camper_arduino.Config.{
  pio_water_activate_sensing, pint_water_flow_out, pin_tank_dark_full, tank_water_level_input,
  tank_water_level_offset, tank_water_level_factor, pout_relay_water, pin_current_water_module,
  const_pump_water_factor, pin_water_switch_evier,
}
use freaky_camper_arduino.Webasto.{start_webasto, stop_webasto}

unfoldable pub pool_water_infos : M (Unit {0})
pool_water_infos = skip

-- A `long` is its 32-bit pattern, and wraps.
unfoldable pub on_water_flow_sensor_interrupt : M (Unit {0})
on_water_flow_sensor_interrupt =
    set_water λ w. record w { flow_sensor_ints_count = (w.flow_sensor_ints_count + 1) % 2 ^ 32 }

unfoldable pub water_module_init : M (Unit {0})
water_module_init = do
  set_water
      λ w. record w { use_hot_water = false; water_flow_liters_min = 0; flow_sensor_ints_count = 0 }
  call (pin_mode pio_water_activate_sensing output)
  call (digital_write pio_water_activate_sensing false)
  call (pin_mode pint_water_flow_out input)
  call (attach_interrupt 0)

unfoldable pub is_dark_water_tank_full : Env → M Bool
is_dark_water_tank_full env = do
  v ← ask (digital_read pin_tank_dark_full) λ t. env.digital_level t pin_tank_dark_full
  return (not v)

-- The percentage for the sum of two measurements: the mean less the offset, and at least 0, by
-- 4.19, cut off at 100. The division by 4.19 is exact to the integer for the readings of the board.
unfoldable pub water_level : (ℤ → ℕ) → ℕ → ℕ
water_level byte_of sum =
    let meas = sum / 2 in
    let above = if ltb meas tank_water_level_offset then 0 else meas - tank_water_level_offset in
    let res = byte_of (pos (above * 100 / tank_water_level_factor)) in
    if ltb 100 res then 100 else res

unfoldable pub get_clean_water_level : Env → M ℕ
unfolding water_level
get_clean_water_level env = do
  call (digital_write pio_water_activate_sensing true)
  call (pin_mode tank_water_level_input input)
  first ← ask (analog_read tank_water_level_input) λ t. env.analog_level t tank_water_level_input
  second ← ask (analog_read tank_water_level_input) λ t. env.analog_level t tank_water_level_input
  call (digital_write pio_water_activate_sensing false)
  return (water_level env.byte_of (first + second))

-- In mA; the factor is in hundredths.
unfoldable pub get_pump_conso_ma : Env → M ℕ
get_pump_conso_ma env = do
  tmp ← ask (analog_read pin_current_water_module) λ t. env.analog_level t pin_current_water_module
  return (tmp * const_pump_water_factor / 100)

unfoldable pub is_pump_active : Env → M Bool
unfolding get_pump_conso_ma
is_pump_active env = do conso ← get_pump_conso_ma env; return (ltb 1 conso)

unfoldable pub get_pump_relay_status : Env → M Bool
get_pump_relay_status env =
    ask (digital_read pout_relay_water) λ t. env.digital_level t pout_relay_water

unfoldable pub is_evier_opened : Env → M Bool
is_evier_opened env =
    ask (digital_read pin_water_switch_evier) λ t. env.digital_level t pin_water_switch_evier

-- `&&` reads the tap's switch only if water flows.
unfoldable pub is_shower_opened : Env → M Bool
unfolding is_evier_opened
is_shower_opened env = do
  flow ← get λ m. m.water.water_flow_liters_min
  if ltb 1 flow then (do opened ← is_evier_opened env; return (not opened)) else return false

unfoldable pub on_int_water_flow_sensor : M (Unit {0})
unfolding on_water_flow_sensor_interrupt
on_int_water_flow_sensor = on_water_flow_sensor_interrupt

-- count * 60 on `long`, divided by 5.5 and cut to a byte.
unfoldable pub flow_of : (ℤ → ℕ) → ℕ → ℕ
flow_of byte_of count = byte_of (trunc_div (signed (2 * (count * 60 % 2 ^ 32)) (2 ^ 32)) 11)

unfoldable pub on_water_flow_timer : Env → M (Unit {0})
unfolding flow_of
on_water_flow_timer env = set_water λ w. record w {
  water_flow_liters_min = flow_of env.byte_of w.flow_sensor_ints_count;
  flow_sensor_ints_count = 0;
}

unfoldable pub set_hot_water_mode : Env → Bool → M (Unit {0})
set_hot_water_mode env mode = do
  if mode
      then start_webasto env
      else (do need ← get λ m. m.heater.need_heater_on; if need then skip else stop_webasto env)
  set_water λ w. record w { use_hot_water = mode }
