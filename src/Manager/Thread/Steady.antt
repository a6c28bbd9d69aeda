-- ===== src/Manager/Thread/Steady.antt =====
-- What holds at every point of a round of the main loop, whatever has interrupted it.
use freaky_camper_arduino.Base.{ℕ, ◌≡◌, ◌≢◌, ◌≤◌, refl, ◌∙◌, List, length, length-set, arith}
use freaky_camper_arduino.Board.{Env}
use freaky_camper_arduino.Machine.{Machine, View, view, done, fault, Keeps, Blind, Over, Safe-never}
use freaky_camper_arduino.Protocol.{process_received_command}
use freaky_camper_arduino.Protocol.Apart.{process_received_command-Keeps}
use freaky_camper_arduino.Manager.{freaky_camp_manager_start, tick_watchdog, timer_isr}
use freaky_camper_arduino.Manager.Watchdog.{tick_watchdog_lem}
use freaky_camper_arduino.Manager.Apart.{freaky_camp_manager_start-Keeps}
use freaky_camper_arduino.Manager.Interleaving.{Interrupt-Keeps, IsFresh, Keeps-done}
use freaky_camper_arduino.Manager.Sized.{IsSized}
use freaky_camper_arduino.Manager.Tablet.{HasSizes}
use freaky_camper_arduino.Manager.Memory.{timer_isr-Safe}
use freaky_camper_arduino.Manager.Thread.{Pc, Move, Event, Run}

-- The watchdog is at most five, and the sizes of the arrays and the heater's actual state are those
-- of `s`.
pub record IsSteady (s : View) (v : View) : Type 0 where
  pub fresh : v.watchdog ≤ 5
  pub rx_size : length v.rx_buffer ≡ length s.rx_buffer
  pub same_tx : v.tx_size ≡ s.tx_size
  pub same_currents : v.currents_size ≡ s.currents_size
  pub same_tensions : v.tensions_size ≡ s.tensions_size
  pub same_columns : v.columns ≡ s.columns
  pub same_state : v.actual_state ≡ s.actual_state

module _ (s : View) where
  IsSteady-Blind : Blind (IsSteady s)
  IsSteady-Blind = record { at = λ v r h. ground (arith, h) }

  tick_watchdog-IsSteady : Keeps (Unit {0}) (Over (IsSteady s)) tick_watchdog
  tick_watchdog-IsSteady = record {
    at = λ m h. rw (tick_watchdog_lem m h.holds.fresh) (record { holds = ground (arith, h.holds) });
  }

  Move-IsSteady :
      (env : Env) (m m' : Machine) (pc pc' : Pc)
      → Move env m pc m' pc'
      → Over (IsSteady s) m
      → Over (IsSteady s) m'
  Move-IsSteady env m m' _ _ Move.clear_watchdog h = record { holds = ground (arith, h.holds) }
  Move-IsSteady env m m' _ _ (Move.store_data {n} {b} k) h = record {
    holds = ground (arith, h.holds, length-set m.comm.rx_buffer n b);
  }
  Move-IsSteady env m m' _ _ _ h = record { holds = ground (arith, h.holds) }

  process_received_command-IsSteady :
      (env : Env) (n : ℕ) → Keeps (Unit {0}) (Over (IsSteady s)) (process_received_command env n)
  process_received_command-IsSteady env n =
      process_received_command-Keeps tt (λ v h. ground (arith, h)) IsSteady-Blind env n

  steps :
      (env : Env) (es : List Event) (m m' : Machine) (pc pc' : Pc)
      → Run env m pc es m' pc'
      → Over (IsSteady s) m
      → Over (IsSteady s) m'
  steps env es m m' pc pc' Run.stay h = h
  steps env es m m' pc pc' (Run.move {m' = n} {pc' = c} a r) h =
      steps env es n m' c pc' r (Move-IsSteady env m n pc c a h)
  steps env _ m m' _ pc' (Run.take_byte {es} l e r) h =
      steps env es _ m' _ pc' r (record { holds = ground (arith, h.holds) })
  steps env _ m m' _ pc' (Run.execute {m' = n} {n = k} {es} e r) h =
      steps env es n m' _ pc' r (Keeps-done _ m n (process_received_command-IsSteady env k) e h)
  steps env es m m' pc pc' (Run.interrupt {m' = n} i r) h =
      steps env es n m' pc pc' r (Interrupt-Keeps env m n tick_watchdog-IsSteady i h)

-- At every point of every round of the main loop, whatever interrupts have come at whichever points of
-- this round and of those before, the watchdog is at most five, every array has the size that it
-- started with, the rows of the lights' table included, and the heater the actual state. The
-- program starts with its counters at zero.
pub Run-IsSteady :
    (env : Env) (es : List Event) (m₀ m₁ m : Machine) (pc : Pc)
    → IsFresh m₀
    → freaky_camp_manager_start env m₀ ≡ done tt m₁
    → Run env m₁ Pc.top es m pc
    → IsSteady (view m₀) (view m)
Run-IsSteady env es m₀ m₁ m pc f s r =
    (steps (view m₀) env es m₁ m Pc.top pc r (
      Keeps-done {F = Unit {0}} (freaky_camp_manager_start env) m₀ m₁
        (freaky_camp_manager_start-Keeps tt env (IsSteady-Blind (view m₀))) s
        (record { holds = ground (arith, f.no_ticks) }))).holds

-- At every point of every round of the main loop, whatever interrupts have come at whichever points of
-- this round and of those before, a service of the timer makes no access outside an array, whatever
-- the board answers, though it may not come back. The program starts with its counters at zero and
-- its arrays of currents, tensions and the send buffer at their sizes.
pub Run-timer_isr :
    (env : Env) (es : List Event) (m₀ m₁ m : Machine) (pc : Pc)
    → IsFresh m₀
    → HasSizes m₀
    → freaky_camp_manager_start env m₀ ≡ done tt m₁
    → Run env m₁ Pc.top es m pc
    → timer_isr env m ≢ fault
Run-timer_isr env es m₀ m₁ m pc f z s r =
    let h = Run-IsSteady env es m₀ m₁ m pc f s r in
    let sized : IsSized m.heater m.water m = record {
      currents_size = h.same_currents ∙ z.currents_size;
      tensions_size = h.same_tensions ∙ z.tensions_size;
      tx_size = h.same_tx ∙ z.tx_size;
      same_heater = refl;
      same_water = refl;
    } in
    Safe-never (timer_isr env m) ((timer_isr-Safe env).at m sized)
