-- ===== src/Sketch.antt =====
-- examples/freakyTest_ino/freakyTest_ino.ino: a program of the library whose loop does nothing.
use freaky_camper_arduino.Base.{◌≡◌, refl, ◌∙◌, false, some, replicate, arith}
use freaky_camper_arduino.Board.{Env}
use freaky_camper_arduino.Config.{initial_lights_conf}
use freaky_camper_arduino.Machine.{Machine, M, done, skip, Over, relay_levels}
use freaky_camper_arduino.Manager.{freaky_camp_manager_start}
use freaky_camper_arduino.Manager.Apart.{freaky_camp_manager_start-Keeps}
use freaky_camper_arduino.Manager.Interleaving.{Interrupt, Keeps-done}
use freaky_camper_arduino.Manager.Interrupted.{At, Interrupt-At}
use freaky_camper_arduino.Manager.Startup.{freaky_camp_manager_start-relay_levels}
use freaky_camper_arduino.Manager.Thread.Simulation.{At-Blind}
use freaky_camper_arduino.Manager.Thread.Lines.{Interrupt-relay_levels}

unfoldable pub setup : Env → M (Unit {0})
setup env = freaky_camp_manager_start env

unfoldable pub loop : M (Unit {0})
loop = skip

-- The setup, then rounds of the loop and interrupts in any order.
pub data Sketch (env : Env) (m : Machine) : Machine → Type 0 where
  set_up : {m' : Machine} → setup env m ≡ done tt m' → Sketch env m m'
  round : {m' m'' : Machine} → Sketch env m m' → loop m' ≡ done tt m'' → Sketch env m m''
  interrupted : {m' m'' : Machine} → Sketch env m m' → Interrupt env m' m'' → Sketch env m m''

-- The receiver's variables and buffer are those of `m`, and every relay's pin is driven low.
pub record IsDeaf (m m' : Machine) : Type 0 where
  pub same_link : m'.link ≡ m.link
  pub same_rx : m'.comm.rx_buffer ≡ m.comm.rx_buffer
  pub all_low : relay_levels m'.trace ≡ replicate 6 (some false)

-- The sketch has no way to receive: whatever the tablet sends and the board answers, behind any rounds
-- of the loop, services of the timer and other interrupts the receiver's variables and its buffer are
-- as they were before the setup, and every relay's pin is low. The lights' table is
-- the one that the program is built with.
pub Sketch-IsDeaf :
    (env : Env) (m m' : Machine)
    → m.lights_conf ≡ initial_lights_conf
    → Sketch env m m'
    → IsDeaf m m'
unfolding setup loop
Sketch-IsDeaf env m m' table (set_up e) =
    let same : Over (At m.link m.comm.rx_buffer) m' =
      Keeps-done {F = Unit {0}} (freaky_camp_manager_start env) m m'
        (freaky_camp_manager_start-Keeps tt env At-Blind) e
        (record { holds = record { same_link = refl; same_rx = refl } }) in
    record {
      same_link = same.holds.same_link;
      same_rx = same.holds.same_rx;
      all_low = freaky_camp_manager_start-relay_levels env m m' table e;
    }
Sketch-IsDeaf env m m' table (round {m' = n} s e) =
    let h = Sketch-IsDeaf env m n table s in ground (arith, h, e)
Sketch-IsDeaf env m m' table (interrupted {m' = n} s i) =
    let h = Sketch-IsDeaf env m n table s in
    let a =
      (Interrupt-At env m.link m.comm.rx_buffer n m' i
        (record { holds = record { same_link = h.same_link; same_rx = h.same_rx } })).holds in
    record {
      same_link = a.same_link;
      same_rx = a.same_rx;
      all_low = Interrupt-relay_levels env n m' i ∙ h.all_low;
    }
