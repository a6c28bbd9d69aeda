-- ===== src/Manager/Thread/Lines.antt =====
-- The levels of the relays' pins along a session with the tablet.
use freaky_camper_arduino.Base.{
  ℕ, ◌≡◌, ◌≢◌, ◌<◌, ◌==◌, refl, sym, ap, ◌∙◌, subst, Bool, false, Option, some, none, List, [], ◌∷◌,
  take, drop, take-append-drop, ◌++◌, length, replicate, arith,
}
use freaky_camper_arduino.Board.{Env, digital_write, usb_task, adk_is_ready, adk_rcv_data, delay}
use freaky_camper_arduino.Config.{initial_lights_conf}
use freaky_camper_arduino.Machine.{
  Machine, View, done, Keeps, Over, relay_levels, spares-relay_levels, Keeps-if, Keeps-skip,
}
use freaky_camper_arduino.Protocol.{process_received_command, dispatch}
use freaky_camper_arduino.Protocol.Apart.{keep_alive-Keeps, heater_command-Keeps}
use freaky_camper_arduino.Protocol.Relays.{process_received_command-relay}
use freaky_camper_arduino.Manager.{freaky_camp_manager_start, tick_watchdog}
use freaky_camper_arduino.Manager.Interleaving.{IsFresh, Interrupt, Keeps-done, Interrupt-Keeps}
use freaky_camper_arduino.Manager.Thread.{Pc, Move, Event, Run, stay}
use freaky_camper_arduino.Manager.Startup.{freaky_camp_manager_start-relay_levels}
use freaky_camper_arduino.Manager.Thread.Simulation.{taken, commands}
use freaky_camper_arduino.Manager.Thread.Placing.{
  place, placed, relays_after, relays_after_all, IsHarmless, AllHarmless, place-Drives,
}
use freaky_camper_arduino.Manager.Thread.Session.{frames, Fit, Run-frames}

record Lit (ls : List (Option Bool)) (v : View) : Type 0 where
  same : v.relays ≡ ls

tick_watchdog-Lit : {ls : List (Option Bool)} → Keeps (Unit {0}) (Over (Lit ls)) tick_watchdog
unfolding tick_watchdog
tick_watchdog-Lit = record { at = λ m h. ground (arith, h.holds) }

begins : (n : ℕ) (rx p : List ℕ) → take n rx ≡ p → rx ≡ p ++ drop n rx
begins n rx p e = sym (take-append-drop n rx) ∙ ap (λ t. t ++ drop n rx) e

module _ (env : Env) where
  dispatch-Lit :
      (ls : List (Option Bool)) (n code : ℕ)
      → place code ≡ none
      → code ≢ 13
      → Keeps (Unit {0}) (Over (Lit ls)) (dispatch env n code)
  unfolding dispatch
  dispatch-Lit ls n code k d =
      let a : (code == 10) ≡ false = ground (arith, k) in
      let b : (code == 11) ≡ false = ground (arith, k) in
      let c : (code == 12) ≡ false = ground (arith, k) in
      let e : (code == 13) ≡ false = ground (arith, d) in
      let f : (code == 14) ≡ false = ground (arith, k) in
      let g : (code == 15) ≡ false = ground (arith, k) in
      let reset : (v : View) → Lit ls v → Lit ls (record v { watchdog = 0 }) =
        λ v h. record { same = h.same } in
      let alive = keep_alive-Keeps {L = Lit ls} tt reset env in
      let heats = heater_command-Keeps {L = Lit ls} tt in
      rw (a, b, c, e, f, g)
        (Keeps-if _ _ _ alive (Keeps-if _ _ _ Keeps-skip (Keeps-if _ _ _ heats Keeps-skip)))

  dispatched :
      (n code : ℕ) (rest : List ℕ) (m m' : Machine)
      → m.comm.rx_buffer ≡ code ∷ rest
      → place code ≡ none
      → code ≢ 13
      → process_received_command env n m ≡ done tt m'
      → relay_levels m'.trace ≡ relay_levels m.trace
  unfolding process_received_command
  dispatched n code rest m m' e k d r =
      let f : dispatch env n code m ≡ process_received_command env n m = rw e refl in
      (Keeps-done (dispatch env n code) m m' (dispatch-Lit (relay_levels m.trace) n code k d)
        (f ∙ r) (record { holds = record { same = refl } })).holds.same

  executed :
      (n : ℕ) (p : List ℕ) (m m' : Machine)
      → take n m.comm.rx_buffer ≡ p
      → IsHarmless p
      → process_received_command env n m ≡ done tt m'
      → relay_levels m'.trace ≡ relays_after p (relay_levels m.trace)
  executed n [] m m' e h r = absurd h
  executed n (code ∷ []) m m' e h r =
      dispatched n code _ m m' (begins n m.comm.rx_buffer _ e) h.1 h.0 r
  executed n (code ∷ v ∷ p) m m' e h r = go (place code) refl
    where
      loaded : m.comm.rx_buffer ≡ code ∷ v ∷ (p ++ drop n m.comm.rx_buffer)
      loaded = begins n m.comm.rx_buffer _ e

      go :
          (o : Option ℕ)
          → place code ≡ o
          → relay_levels m'.trace ≡ placed o v (relay_levels m.trace)
      go none k = dispatched n code _ m m' loaded k h r
      go (some i) k =
          let d = place-Drives code i k in
          let same : done tt m'
              ≡ done tt (record m { trace = digital_write d.pin (v == 1) ∷ m.trace }) =
            sym r ∙ process_received_command-relay env code v n _ d.pin m loaded d.pin_of_code in
          ground (arith, same, d.drives m.trace (v == 1))

  Move-relay_levels :
      (m m' : Machine) (pc pc' : Pc)
      → Move env m pc m' pc'
      → relay_levels m'.trace ≡ relay_levels m.trace
  Move-relay_levels m m' _ _ Move.poll = spares-relay_levels usb_task m.trace refl
  Move-relay_levels m m' _ _ (Move.not_ready e) = spares-relay_levels adk_is_ready m.trace refl
  Move-relay_levels m m' _ _ (Move.is_ready e) = spares-relay_levels adk_is_ready m.trace refl
  Move-relay_levels m m' _ _ (Move.no_byte e) = spares-relay_levels adk_rcv_data m.trace refl
  Move-relay_levels m m' _ _ Move.pause = spares-relay_levels (delay 25) m.trace refl
  Move-relay_levels m m' _ _ _ = refl

  pub Interrupt-relay_levels :
      (m m' : Machine) → Interrupt env m m' → relay_levels m'.trace ≡ relay_levels m.trace
  Interrupt-relay_levels m m' i =
      (Interrupt-Keeps env m m' tick_watchdog-Lit i
        (record { holds = record { same = refl } })).holds.same

  steps :
      (es : List Event) (m m' : Machine) (pc pc' : Pc)
      → Run env m pc es m' pc'
      → AllHarmless (commands es)
      → relay_levels m'.trace ≡ relays_after_all (commands es) (relay_levels m.trace)
  steps es m m' pc pc' Run.stay h = refl
  steps es m m' pc pc' (Run.move {m' = n} {pc' = c} a r) h =
      steps es n m' c pc' r h ∙ ap (relays_after_all (commands es)) (Move-relay_levels m n pc c a)
  steps _ m m' _ pc' (Run.take_byte {es} l e r) h =
      steps es _ m' _ pc' r h
      ∙ ap (relays_after_all (commands es)) (spares-relay_levels adk_rcv_data m.trace refl)
  steps _ m m' _ pc' (Run.execute {m' = n} {n = k} {es} e r) h =
      steps es n m' _ pc' r h.1
      ∙ ap (relays_after_all (commands es)) (executed k (take k m.comm.rx_buffer) m n refl h.0 e)
  steps es m m' pc pc' (Run.interrupt {m' = n} i r) h =
      steps es n m' pc pc' r h ∙ ap (relays_after_all (commands es)) (Interrupt-relay_levels m n i)

-- A tablet that sends frames one behind the other from the start on leaves each of the six relays'
-- pins at the level that the last telecommand for it has set, which is high exactly if its second
-- byte is 1, and low where there was none, whatever
-- idle rounds, services of the timer, which run the heater, and other interrupts come, between the
-- bytes or between any two accesses to shared variables within a round of the main loop. The program
-- starts with its counters at zero and the lights' table it is built with; the payloads fit the
-- receive buffer, of less than 256 bytes, hold no header or footer byte, are not empty and for no
-- light, and have a second byte where they are for a relay.
pub Run-relay_levels :
    (env : Env) (ps : List (List ℕ)) (es : List Event) (m₀ m₁ m : Machine)
    → IsFresh m₀
    → m₀.lights_conf ≡ initial_lights_conf
    → freaky_camp_manager_start env m₀ ≡ done tt m₁
    → Run env m₁ Pc.top es m Pc.top
    → taken es ≡ frames ps
    → Fit (length m₀.comm.rx_buffer) ps
    → length m₀.comm.rx_buffer < 256
    → AllHarmless ps
    → relay_levels m.trace ≡ relays_after_all ps (replicate 6 (some false))
Run-relay_levels env ps es m₀ m₁ m f table s r e fit l safe =
    let ran_all : commands es ≡ ps = Run-frames env ps [] es m₀ m₁ m₁ m f s stay r e fit l in
    steps env es m₁ m Pc.top Pc.top r (subst AllHarmless (sym ran_all) safe)
    ∙ ap (λ cs. relays_after_all cs (relay_levels m₁.trace)) ran_all
    ∙ ap (relays_after_all ps) (freaky_camp_manager_start-relay_levels env m₀ m₁ table s)
