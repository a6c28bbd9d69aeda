-- ===== src/Webasto/Laws/Shipped.antt =====
-- The firmware as committed: `measureTemp` reads a constant zero in place of the thermocouple, and
-- `turnOnOffSystem` is attached to no interrupt.
use freaky_camper_arduino.Base.{
  ℕ, zero, suc, ◌+◌, ◌-◌, ◌/◌, ◌%◌, ◌^◌, ◌≤◌, ◌<◌, ◌≡◌, refl, ltb, leb, Bool, true, false, some,
  List, ◌∷◌, arith,
}
use freaky_camper_arduino.Base.Int.{pos}
use freaky_camper_arduino.Board.{Env, Call, millis, level}
use freaky_camper_arduino.Machine.{
  Machine, done, Returns, Returns-first, SystemState, on, remote_starting, remote_shutdown,
  system_stopping, system_shutdown,
}
use freaky_camper_arduino.Webasto.{
  air_fan, water_pump, glow_plug, cabin_heater, fuel_pump, wait, wait_loop, interrupted,
  serve_interrupts, start_webasto, attempt, pool_webasto, pool_state, pool_running,
  max_start_attempts,
}
use freaky_camper_arduino.Webasto.Laws.Idle.{IsClock, others}
use freaky_camper_arduino.Webasto.Laws.Waiting.{clock_diff}
use freaky_camper_arduino.Webasto.Laws.Stopping.{IsStopped}

-- The committed source with its stub for the thermocouple and its unattached switch.
abbrev pub shipped : Env → Env
shipped env = record env { thermocouple = λ _ _. some (pos 0); switch_pressed = λ _. false }

-- The first poll of a pause measures zero degrees, which means that the sensor is off.
pub first_poll :
    (env : Env) (ms : ℕ) (si : Bool) (current : SystemState) (start fuel : ℕ) (m : Machine)
    → leb ((env.clock m.trace + 2 ^ 32 - start) % 2 ^ 32) ms ≡ true
    → 0 < fuel
    → wait_loop (shipped env) ms si true current start fuel m
      ≡ done true (record m { trace = millis ∷ m.trace })
unfolding wait_loop interrupted serve_interrupts
first_poll env ms si current start zero m e h = elim h [ ]
first_poll env ms si current start (suc fuel) m e h = rw e

-- What the shipped `startWebasto` leaves behind: the air fan runs, and no fuel has flowed.
pub record OnlyFan (m m' : Machine) : Type 0 where
  pub air_fan_on : (m'.webasto.air_fan_state ≡ true) × (level air_fan m'.trace ≡ some true)
  pub water_pump_off :
      (m'.webasto.water_pump_state ≡ false) × (level water_pump m'.trace ≡ some false)
  pub glow_plug_off : (m'.webasto.glow_plug_state ≡ false) × (level glow_plug m'.trace ≡ some false)
  pub cabin_heater_off :
      (m'.webasto.cabin_heater_state ≡ false) × (level cabin_heater m'.trace ≡ some false)
  pub same_fuel : level fuel_pump m'.trace ≡ level fuel_pump m.trace
  pub same_state : m'.webasto.system_state ≡ m.webasto.system_state
  pub counted : m'.webasto.starting_attempts ≡ m.webasto.starting_attempts + 1
  pub alone : others m' ≡ others m

module _ (env : Env) (elapsed : List Call → ℕ) (clock : IsClock env elapsed)
    (enough : 1 ≤ env.fuel) where
  pub shipped-wait :
      (ms : ℕ) (si : Bool) (m : Machine)
      → 1001 ≤ ms
      → wait (shipped env) ms si true m ≡ done true (record m { trace = millis ∷ millis ∷ m.trace })
  unfolding wait
  shipped-wait ms si m h =
      first_poll env ms si m.webasto.system_state (env.clock m.trace) env.fuel
        (record m { trace = millis ∷ m.trace })
        (rw
          (clock_diff env elapsed clock (millis ∷ m.trace) (elapsed m.trace) (env.clock m.trace)
            (clock.reads m.trace) (omega (arith, clock.ticks m.trace))
            (omega (arith, clock.steps m.trace)))
          (let e : elapsed (millis ∷ m.trace) / 1000 - elapsed m.trace / 1000 ≤ ms =
              omega (arith, clock.steps m.trace) in
            ground arith))
        enough

  -- As committed, on a clock that goes on, an attempt of `startWebasto` ends at the first look at
  -- the thermometer: the air fan is left running, the other modules are off, the system state and
  -- the fuel pump's pin are as before, and the attempt is counted.
  pub shipped-start_webasto-OnlyFan :
      (m : Machine)
      → m.webasto.starting_attempts < max_start_attempts
      → Returns (λ _ m'. OnlyFan m m') (start_webasto (shipped env) m)
  unfolding start_webasto attempt level
  shipped-start_webasto-OnlyFan m h =
      let more : ltb m.webasto.starting_attempts max_start_attempts ≡ true = ground arith in
      rw more (
        Returns-first (λ _ m'. OnlyFan m m') (wait (shipped env) 15000 true true) _ _ true _
          (shipped-wait 15000 true _ (omega arith))
          (record {
            air_fan_on = (refl, refl);
            water_pump_off = (refl, refl);
            glow_plug_off = (refl, refl);
            cabin_heater_off = (refl, refl);
            same_fuel = refl;
            same_state = refl;
            counted = refl;
            alone = refl;
          }))

-- What a call of the shipped `poolWebasto` does, by the state that it finds.
abbrev pub PoolAfter : SystemState → Machine → Machine → Type 0
PoolAfter remote_starting m m' = m' ≡ record m {
  webasto = record m.webasto { initial_temperature = pos 0; system_state = system_shutdown };
}
PoolAfter on m m' = m' ≡ record m {
  webasto = record m.webasto { initial_temperature = pos 0; system_state = system_stopping };
}
PoolAfter remote_shutdown m m' = IsStopped m m'
PoolAfter system_shutdown m m' = IsStopped m m'
PoolAfter _ m m' = m' ≡ m

shipped-pool_state :
    (env : Env) (s : SystemState) (m : Machine)
    → Returns (λ _ m'. PoolAfter s m m') (pool_state (shipped env) s m)
unfolding pool_state pool_running level
shipped-pool_state env remote_starting m = refl
shipped-pool_state env on m = refl
shipped-pool_state env remote_shutdown m = ground arith
shipped-pool_state env system_shutdown m = ground arith
shipped-pool_state env _ m = refl

-- As committed, `poolWebasto` comes back in every state and never starts the burner. From
-- REMOTE_STARTING and from ON it records zero degrees and moves to SYSTEM_SHUTDOWN and to
-- SYSTEM_STOPPING; from REMOTE_SHUTDOWN and SYSTEM_SHUTDOWN it turns the four modules off and moves
-- to OFF, without touching the fuel pump; in OFF, REMOTE_STOPPING and SYSTEM_STOPPING it does nothing.
pub shipped-pool_webasto :
    (env : Env) (m : Machine)
    → Returns (λ _ m'. PoolAfter m.webasto.system_state m m') (pool_webasto (shipped env) m)
unfolding pool_webasto
shipped-pool_webasto env m = shipped-pool_state env m.webasto.system_state m
