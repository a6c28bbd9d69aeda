-- ===== src/Heater/Apart.antt =====
-- The heater's services keep every invariant of the frame receiver's variables and the watchdog.
use freaky_camper_arduino.Base.{ℕ, Bool}
use freaky_camper_arduino.Board.{Env}
use freaky_camper_arduino.Machine.{
  View, HeaterState, heater_off, Keeps, Over, flow_rules, board_rules,
}
use freaky_camper_arduino.Webasto.Laws.Apart.{start_webasto-Keeps, stop_webasto-Keeps}
use freaky_camper_arduino.Heater.{
  drive_fans, handle_heater, ask_state, heater_switch, heater_got_tc,
}

ruleset rules = (flow_rules, board_rules)

module _ {F : Type 0} {L : View → Type 0} where
  drive_fans-Keeps : (env : Env) (s : HeaterState) → Keeps F (Over L) (drive_fans env s)
  unfolding drive_fans
  drive_fans-Keeps env heater_off = search (rules, stop_webasto-Keeps) depth 20
  drive_fans-Keeps env _ = search rules depth 20

  pub handle_heater-Keeps : (env : Env) → Keeps F (Over L) (handle_heater env)
  unfolding handle_heater
  handle_heater-Keeps env =
      search (rules, start_webasto-Keeps, stop_webasto-Keeps, drive_fans-Keeps) depth 20

  ask_state-Keeps : (s : HeaterState) (f : ℕ × ℕ) (b : Bool) → Keeps F (Over L) (ask_state s f b)
  unfolding ask_state
  ask_state-Keeps s f b = search rules depth 20

  heater_switch-Keeps : (s : HeaterState) (f : ℕ × ℕ) → Keeps F (Over L) (heater_switch s f)
  unfolding heater_switch
  heater_switch-Keeps heater_off f = search rules depth 20
  heater_switch-Keeps _ f = search (rules)

  pub heater_got_tc-Keeps : (s : HeaterState) (a b t : ℕ) → Keeps F (Over L) (heater_got_tc s a b t)
  unfolding heater_got_tc
  heater_got_tc-Keeps s a b t = search (rules, heater_switch-Keeps)
