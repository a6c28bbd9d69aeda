-- ===== src/Protocol/Apart.antt =====
-- The telemetry and the telecommands keep every invariant of the view, if a reset of the
-- watchdog does and the relays do not matter.
use freaky_camper_arduino.Base.{ℕ, ◌+◌, zero, suc}
use freaky_camper_arduino.Board.{Env, Pin, Call}
use freaky_camper_arduino.Machine.{
  View, M, ◌>>=◌, ◌>>◌, get, index, set_comm, Keeps, Keeps-reset_watchdog, Keeps-any_call, Blind,
  call, Over, flow_rules, board_rules, Keeps-put, Keeps-set_light_byte,
}
use freaky_camper_arduino.Light.{set_light_byte, light_on_off, light_command}
use freaky_camper_arduino.Heater.Apart.{heater_got_tc-Keeps}
use freaky_camper_arduino.Protocol.{
  put, prot_repeat_header, shift_data, fill, transmit, send_tm, tm_builder_temperature,
  tm_builder_switch, tm_builder_tension, tm_builder_water, keep_alive, relay_command,
  light_telecommand, heater_command, dispatch, process_received_command,
}

ruleset rules = (flow_rules, board_rules)

module _ {F : Type 0} {L : View → Type 0} (allowed : F) where
  put-Keeps : (i v : ℕ) → Keeps F (Over L) (put i v)
  put-Keeps i v = Keeps-put allowed i v

  set_light_byte-Keeps : (id column v : ℕ) → Keeps F (Over L) (set_light_byte id column v)
  set_light_byte-Keeps id column v = Keeps-set_light_byte allowed id column v

  shift_data-Keeps : (n : ℕ) → Keeps F (Over L) (shift_data n)
  unfolding shift_data
  shift_data-Keeps zero = search rules
  shift_data-Keeps (suc n) = body (shift_data n) (shift_data-Keeps n)
    where
      body :
          (rest : M (Unit {0}))
          → Keeps F (Over L) rest
          → Keeps F (Over L) (do
            tx ← get λ m. m.comm.tx_buffer
            v ← index tx n
            put (n + prot_repeat_header) v
            rest)
      body rest keep = search (rules, put-Keeps) depth 20

  fill-Keeps : (n i v : ℕ) → Keeps F (Over L) (fill n i v)
  unfolding fill
  fill-Keeps zero i v = search rules
  fill-Keeps (suc n) i v = body (fill n (i + 1) v) (fill-Keeps n (i + 1) v)
    where
      body : (rest : M (Unit {0})) → Keeps F (Over L) rest → Keeps F (Over L) (do put i v; rest)
      body rest keep = search (rules, put-Keeps) depth 20

  transmit-Keeps : (env : Env) (n : ℕ) → Keeps F (Over L) (transmit env n)
  unfolding transmit
  transmit-Keeps env n = search (rules) depth 20

  pub send_tm-Keeps : (env : Env) (n : ℕ) → Keeps F (Over L) (send_tm env n)
  unfolding send_tm
  send_tm-Keeps env zero = search rules
  send_tm-Keeps env (suc n) = search (rules, shift_data-Keeps, fill-Keeps, transmit-Keeps) depth 20

  pub tm_builder_temperature-Keeps : (env : Env) → Keeps F (Over L) (tm_builder_temperature env)
  unfolding tm_builder_temperature
  tm_builder_temperature-Keeps env = search (rules, put-Keeps) depth 20

  pub tm_builder_switch-Keeps : (env : Env) → Keeps F (Over L) (tm_builder_switch env)
  unfolding tm_builder_switch
  tm_builder_switch-Keeps env = search (rules, put-Keeps) depth 20

  pub tm_builder_tension-Keeps : Keeps F (Over L) tm_builder_tension
  unfolding tm_builder_tension
  tm_builder_tension-Keeps = search (rules, put-Keeps) depth 20

  pub tm_builder_water-Keeps : (env : Env) → Keeps F (Over L) (tm_builder_water env)
  unfolding tm_builder_water
  tm_builder_water-Keeps env = search (rules, put-Keeps) depth 60 fits 4000

  pub heater_command-Keeps : Keeps F (Over L) heater_command
  unfolding heater_command
  heater_command-Keeps = search (rules, heater_got_tc-Keeps) depth 40 fits 4000

  module _ (reset : (v : View) → L v → L (record v { watchdog = 0 })) where
    reset_watchdog-Keeps : Keeps F (Over L) (set_comm λ c. record c { watchdog = 0 })
    reset_watchdog-Keeps = Keeps-reset_watchdog reset

    pub keep_alive-Keeps : (env : Env) → Keeps F (Over L) (keep_alive env)
    unfolding keep_alive
    keep_alive-Keeps env = search (rules, put-Keeps, reset_watchdog-Keeps, send_tm-Keeps) depth 20

    -- A telecommand for a relay or a light drives any pin.
    module _ (blind : Blind L) where
      any_call : (c : Call) → Keeps F (Over L) (call c)
      any_call c = Keeps-any_call blind c

      relay_command-Keeps : (pin : Pin) → Keeps F (Over L) (relay_command pin)
      unfolding relay_command
      relay_command-Keeps pin = search (rules, any_call) depth 20

      light_on_off-Keeps : (i s : ℕ) → Keeps F (Over L) (light_on_off i s)
      unfolding light_on_off
      light_on_off-Keeps i s = search (rules, any_call, set_light_byte-Keeps) depth 40 fits 4000

      light_command-Keeps : (i d r g b : ℕ) → Keeps F (Over L) (light_command i d r g b)
      unfolding light_command
      light_command-Keeps i d r g b = search (rules, any_call) depth 40 fits 4000

      light_telecommand-Keeps : (n : ℕ) → Keeps F (Over L) (light_telecommand n)
      unfolding light_telecommand
      light_telecommand-Keeps n =
          search (rules, light_on_off-Keeps, light_command-Keeps) depth 40 fits 4000

      dispatch-Keeps : (env : Env) (n code : ℕ) → Keeps F (Over L) (dispatch env n code)
      unfolding dispatch
      dispatch-Keeps env n code =
          search
            (
              rules, keep_alive-Keeps, relay_command-Keeps, light_telecommand-Keeps,
              heater_command-Keeps,
            )
            depth 40

      pub process_received_command-Keeps :
          (env : Env) (n : ℕ) → Keeps F (Over L) (process_received_command env n)
      unfolding process_received_command
      process_received_command-Keeps env n = search (rules, dispatch-Keeps) depth 20
