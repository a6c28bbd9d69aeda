-- ===== src/Manager/Interleaving.antt =====
-- The main loop, the service of the timer and the interrupts of the switch and of the flow sensor,
-- in any order. Each runs to its end before the next.
use freaky_camper_arduino.Base.{ℕ, ◌≤◌, ◌<◌, ◌≡◌, subst, List, length, arith}
use freaky_camper_arduino.Board.{Env}
use freaky_camper_arduino.Machine.{
  Machine, View, view, done, M, Ends, Keeps, Over, flow_rules, board_rules,
}
use freaky_camper_arduino.Webasto.{turn_on_off_system}
use freaky_camper_arduino.Manager.Apart.{freaky_camp_manager_start-Keeps, timer_isr-Keeps}
use freaky_camper_arduino.Webasto.Laws.Apart.{turn_on_off_system-Keeps}
use freaky_camper_arduino.Water.{on_int_water_flow_sensor}
use freaky_camper_arduino.Protocol.Sending.{frame}
use freaky_camper_arduino.Manager.{
  freaky_camp_manager_start, freaky_camp_manager_loop, timer_isr, tick_watchdog,
}
use freaky_camper_arduino.Manager.Feeding.{IsPlain, feed}
use freaky_camper_arduino.Manager.Receiver.{executed, received, feed-frame_from}
use freaky_camper_arduino.Manager.Sound.{
  IsSound, freaky_camp_manager_loop-IsSound, tick_watchdog-IsSound,
}

-- What interrupts the main loop, and ends without a fault.
pub data Interrupt (env : Env) (m m' : Machine) : Type 0 where
  timer : timer_isr env m ≡ done tt m' → Interrupt env m m'
  on_off_switch : turn_on_off_system env m ≡ done tt m' → Interrupt env m m'
  flow_sensor : on_int_water_flow_sensor m ≡ done tt m' → Interrupt env m m'

-- What runs next.
pub data Step (env : Env) (m m' : Machine) : Type 0 where
  main_loop : freaky_camp_manager_loop env m ≡ done tt m' → Step env m m'
  interrupt : Interrupt env m m' → Step env m m'

-- The variables of freakyCampManager.cpp and the watchdog as the program starts with them.
pub record IsFresh (m : Machine) : Type 0 where
  pub no_headers : m.link.header_count ≡ 0
  pub no_footers : m.link.footer_count ≡ 0
  pub no_datas : m.link.rx_counter ≡ 0
  pub no_ticks : m.comm.watchdog ≡ 0

pub data Reach (env : Env) (m : Machine) : Machine → Type 0 where
  start : {m' : Machine} → freaky_camp_manager_start env m ≡ done tt m' → Reach env m m'
  next : {m' m'' : Machine} → Reach env m m' → Step env m' m'' → Reach env m m''

pub Keeps-done :
    {F : Type 0} {P : Machine → Type 0} (x : M (Unit {0})) (m m' : Machine)
    → Keeps F P x
    → x m ≡ done tt m'
    → P m
    → P m'
Keeps-done {F} {P} x m m' k e h = subst (Ends F P) e (k.at m h)

module _ {L : View → Type 0} where
  on_int_water_flow_sensor-Keeps : Keeps (Unit {0}) (Over L) on_int_water_flow_sensor
  unfolding on_int_water_flow_sensor
  on_int_water_flow_sensor-Keeps = search (flow_rules, board_rules)

  -- The interrupts keep what a tick of the watchdog keeps.
  pub Interrupt-Keeps :
      (env : Env) (m m' : Machine)
      → Keeps (Unit {0}) (Over L) tick_watchdog
      → Interrupt env m m'
      → Over L m
      → Over L m'
  Interrupt-Keeps env m m' tick (timer e) = Keeps-done _ m m' (timer_isr-Keeps tt env tick) e
  Interrupt-Keeps env m m' tick (on_off_switch e) =
      Keeps-done {F = Unit {0}} _ m m' (turn_on_off_system-Keeps env) e
  Interrupt-Keeps env m m' tick (flow_sensor e) = Keeps-done _ m m' on_int_water_flow_sensor-Keeps e

Step-IsSound :
    (s : View) (env : Env) (m m' : Machine)
    → Step env m m'
    → Over (IsSound s) m
    → Over (IsSound s) m'
Step-IsSound s env m m' (main_loop e) = Keeps-done _ m m' (freaky_camp_manager_loop-IsSound s env) e
Step-IsSound s env m m' (interrupt i) = Interrupt-Keeps env m m' (tick_watchdog-IsSound s) i

reached : {env : Env} {m m' : Machine} → IsFresh m → Reach env m m' → Over (IsSound (view m)) m'
reached {env} {m} {m'} f (start e) =
    Keeps-done {F = Unit {0}} _ m m'
      (freaky_camp_manager_start-Keeps tt env (record { at = λ v r g. ground (arith, g) })) e
      (record { holds = ground arith })
reached {env} {m} {m'} f (next r s) = Step-IsSound _ env _ m' s (reached f r)

-- In every state that the program reaches from a start with its counters at zero, by any number of
-- rounds of the main loop, services of the timer and interrupts in any order, at most four header
-- bytes and less than four footer bytes are counted, data are counted only while they are expected,
-- the watchdog is at most five, and every array has the size and the heater the actual state that
-- they started with: the receive and the send buffer, the polled currents and tensions, the lights'
-- table and each of its rows.
pub Reach-IsSound :
    (env : Env) (m m' : Machine) → IsFresh m → Reach env m m' → IsSound (view m) (view m')
Reach-IsSound env m m' f r = (reached f r).holds

-- In every state that the program reaches from a start with its counters at zero, by any number of
-- rounds of the main loop, services of the timer and interrupts in any order, whatever bytes came
-- before, a frame whose payload fits the receive buffer, of less than 256 bytes, and holds no header
-- or footer byte is executed as it stands.
pub Reach-feed-frame :
    (env : Env) (p : List ℕ) (m m' : Machine)
    → IsFresh m
    → Reach env m m'
    → IsPlain p
    → length p ≤ length m.comm.rx_buffer
    → length m.comm.rx_buffer < 256
    → feed env (frame p) m' ≡ executed env (length p) (received p m')
Reach-feed-frame env p m m' f r plain k l =
    let s = Reach-IsSound env m m' f r in
    feed-frame_from env p m' plain s.headers s.counted (omega (arith, s.rx_size))
      (omega (arith, s.rx_size))
