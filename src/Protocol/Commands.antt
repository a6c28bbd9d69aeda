-- ===== src/Protocol/Commands.antt =====
-- protocol.cpp: `processReceivedCommand`. The prints are left out.
use freaky_camper_arduino.Base.{ℕ, ltb, ◌==◌, if◌then◌else◌}
use freaky_camper_arduino.Board.{Env, Pin}
use freaky_camper_arduino.Machine.{M, ◌>>=◌, ◌>>◌, skip, get, set_comm, index}
use freaky_camper_arduino.Config.{
  pout_relay_fridge, pout_relay_water, pout_relay_heating, pout_relay_aux, pout_relay_spare,
  light_type_normal,
}
use freaky_camper_arduino.Electrical.{switch_relay}
use freaky_camper_arduino.Light.{light_on_off, light_command}
use freaky_camper_arduino.Heater.{heater_state_of, heater_got_tc}
use freaky_camper_arduino.Protocol.Frames.{send_tm}
use freaky_camper_arduino.Protocol.Telemetry.{tm_builder_is_alive}

abbrev pub prot_keep_alive : ℕ
prot_keep_alive = 9

abbrev pub prot_switch_cold_module : ℕ
prot_switch_cold_module = 10

abbrev pub prot_switch_water_module : ℕ
prot_switch_water_module = 11

abbrev pub prot_switch_heat_module : ℕ
prot_switch_heat_module = 12

abbrev pub prot_switch_light_module : ℕ
prot_switch_light_module = 13

abbrev pub prot_switch_aux_module : ℕ
prot_switch_aux_module = 14

abbrev pub prot_switch_spare_module : ℕ
prot_switch_spare_module = 15

abbrev pub prot_cold_consigne : ℕ
prot_cold_consigne = 20

abbrev pub prot_heater : ℕ
prot_heater = 40

-- rxBuffer[i]
abbrev pub rx : ℕ → M ℕ
rx i = do buffer ← get λ m. m.comm.rx_buffer; index buffer i

unfoldable pub keep_alive : Env → M (Unit {0})
unfolding tm_builder_is_alive
keep_alive env = do set_comm λ c. record c { watchdog = 0 }; i ← tm_builder_is_alive; send_tm env i

unfoldable pub relay_command : Pin → M (Unit {0})
unfolding switch_relay
relay_command pin = do v ← rx 1; switch_relay pin (v == 1)

unfoldable pub light_telecommand : ℕ → M (Unit {0})
light_telecommand length = if ltb length 7 then skip else (do
  type ← rx 1
  id ← rx 2
  a ← rx 3
  if type == light_type_normal
      then light_on_off id a
      else (do r ← rx 4; g ← rx 5; b ← rx 6; light_command id a r g b))

unfoldable pub heater_command : M (Unit {0})
heater_command = do
  status ← rx 1
  fan1 ← rx 2
  fan2 ← rx 3
  temp ← rx 4
  heater_got_tc (heater_state_of status) fan1 fan2 temp

-- The switch over the first byte. PROT_COLD_CONSIGNE does nothing, like a byte that names nothing.
unfoldable pub dispatch : Env → ℕ → ℕ → M (Unit {0})
dispatch env length code =
    if code == prot_keep_alive
    then keep_alive env
    else if code == prot_switch_cold_module
    then relay_command pout_relay_fridge
    else if code == prot_switch_water_module
    then relay_command pout_relay_water
    else if code == prot_switch_heat_module
    then relay_command pout_relay_heating
    else if code == prot_switch_light_module
    then light_telecommand length
    else if code == prot_switch_aux_module
    then relay_command pout_relay_aux
    else if code == prot_switch_spare_module
    then relay_command pout_relay_spare
    else if code == prot_cold_consigne
    then skip
    else if code == prot_heater
    then heater_command
    else skip

unfoldable pub process_received_command : Env → ℕ → M (Unit {0})
unfolding dispatch
process_received_command env length = do code ← rx 0; dispatch env length code
