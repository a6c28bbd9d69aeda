-- ===== src/Inputs.antt =====
-- FreakyCampManager/inputs.cpp: the light switches.
use freaky_camper_arduino.Base.{if◌then◌else◌, not}
use freaky_camper_arduino.Board.{
  Env, digital, sei, cli, pcicr, pcmsk1, write_register, digital_read, digital_write, button_read,
  button_was_released,
}
use freaky_camper_arduino.Machine.{M, ◌>>=◌, ◌>>◌, skip, call, ask, for_range}
use freaky_camper_arduino.Config.{nb_input_switchs}
use freaky_camper_arduino.Light.{light_byte}

unfoldable pub init_inputs : M (Unit {0})
init_inputs = do
  call cli
  call (write_register pcicr 0x02)
  call (write_register pcmsk1 0b00000111)
  call sei

-- The pin that is toggled stands in column 1 of `lightsConf`.
unfoldable pub check_camp_inputs : Env → M (Unit {0})
check_camp_inputs env = for_range nb_input_switchs 0 λ i. do
  call (button_read i)
  released ← ask (button_was_released i) λ t. env.released t i
  if released
      then (do
        pin ← light_byte i 1
        state ← ask (digital_read (digital pin)) λ t. env.digital_level t (digital pin)
        pin' ← light_byte i 1
        call (digital_write (digital pin') (not state)))
      else skip
