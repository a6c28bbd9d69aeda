-- ===== src/Manager/Memory.antt =====
-- Which accesses outside an array a service of the timer and a round of the main loop can make.
use freaky_camper_arduino.Base.{◌≢◌, arith}
use freaky_camper_arduino.Board.{Env}
use freaky_camper_arduino.Machine.{
  Machine, Heater, Water, ◌>>◌, Keeps, Over, Anything, Safe, Safe-never, Safe-Keeps, Safe-bind,
  Runs-skip, flow_rules, fault,
}
use freaky_camper_arduino.Heater.{handle_heater}
use freaky_camper_arduino.Heater.Apart.{handle_heater-Keeps}
use freaky_camper_arduino.Manager.{get_currents, get_tensions, tick_watchdog, timer_isr}
use freaky_camper_arduino.Manager.Sized.{
  IsSized, call-Runs, pool_current_sensors-Runs, pool_tension_sensors-Runs, send_all_telemetry-Runs,
}
use freaky_camper_arduino.Manager.Interleaving.{IsFresh, Reach}
use freaky_camper_arduino.Manager.Tablet.{HasSizes, Reach-sizes}

tick_watchdog-Keeps : Keeps ⊥ (Over Anything) tick_watchdog
unfolding tick_watchdog
tick_watchdog-Keeps = record { at = λ m h. ground (arith, h) }

module _ {h : Heater} {w : Water} where
  end-Safe : (env : Env) → Safe (IsSized h w) (do handle_heater env; tick_watchdog)
  end-Safe env = Safe-Keeps _ (search (flow_rules, handle_heater-Keeps, tick_watchdog-Keeps))

  pub timer_isr-Safe : (env : Env) → Safe (IsSized h w) (timer_isr env)
  unfolding timer_isr get_currents get_tensions
  timer_isr-Safe env =
      search
        (
          end-Safe, Safe-bind, Runs-skip, call-Runs, pool_current_sensors-Runs,
          pool_tension_sensors-Runs, send_all_telemetry-Runs,
        )
        depth 20

-- In every state that the program reaches from a start with its arrays of currents, tensions and the
-- send buffer at their sizes and its counters at zero, a service of the timer makes no access outside
-- an array, whatever the board answers, though it may not come back.
pub Reach-timer_isr :
    (env : Env) (m m' : Machine)
    → IsFresh m
    → HasSizes m
    → Reach env m m'
    → timer_isr env m' ≢ fault
Reach-timer_isr env m m' f z r =
    Safe-never (timer_isr env m') ((timer_isr-Safe env).at m' (Reach-sizes env m m' f r z))
