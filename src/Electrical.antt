-- ===== src/Electrical.antt =====
-- FreakyCampManager/electrical.cpp: the relays of the power lines.
use freaky_camper_arduino.Base.{ℕ, Bool, false}
use freaky_camper_arduino.Board.{Env, Pin, output, pin_mode, digital_write, digital_read}
use freaky_camper_arduino.Machine.{M, ◌>>=◌, ◌>>◌, call, ask, index, for_range}
use freaky_camper_arduino.Config.{nb_elec_switches, electrical_lines_pins}

unfoldable pub init_electrical_function : M (Unit {0})
init_electrical_function = for_range nb_elec_switches 0 λ i. do
  pin ← index electrical_lines_pins i
  call (pin_mode pin output)
  call (digital_write pin false)

unfoldable pub switch_relay : Pin → Bool → M (Unit {0})
switch_relay relay_id status = call (digital_write relay_id status)

unfoldable pub get_relay_status : Env → ℕ → M Bool
get_relay_status env relay_id = do
  pin ← index electrical_lines_pins relay_id
  ask (digital_read pin) λ t. env.digital_level t pin
