-- ===== src/Webasto/Laws/Stopping.antt =====
-- `stopWebasto` and the fuel pump.
use freaky_camper_arduino.Base.{
  ℕ, ◌+◌, ◌≤◌, ◌<◌, ◌≡◌, refl, ap, Bool, true, false, some, List, ◌∷◌, arith,
}
use freaky_camper_arduino.Board.{Env, Call, digital_write, level}
use freaky_camper_arduino.Machine.{Machine, Returns, Returns-bind, Returns-if, Returns-mono, off}
use freaky_camper_arduino.Webasto.{
  air_fan, water_pump, glow_plug, cabin_heater, fuel_pump, wait, pulse_fuel_pump, stop_webasto,
}
use freaky_camper_arduino.Webasto.Laws.Idle.{Idles, IsClock, others, Frozen}
use freaky_camper_arduino.Webasto.Laws.Waiting.{Verdict, wait-Ends}

-- The burner `m'` is shut down, and the fuel pump is as in `m`.
pub record IsStopped (m m' : Machine) : Type 0 where
  pub state : m'.webasto.system_state ≡ off
  pub air_fan_off : (m'.webasto.air_fan_state ≡ false) × (level air_fan m'.trace ≡ some false)
  pub water_pump_off :
      (m'.webasto.water_pump_state ≡ false) × (level water_pump m'.trace ≡ some false)
  pub glow_plug_off : (m'.webasto.glow_plug_state ≡ false) × (level glow_plug m'.trace ≡ some false)
  pub cabin_heater_off :
      (m'.webasto.cabin_heater_state ≡ false) × (level cabin_heater m'.trace ≡ some false)
  pub same_fuel : level fuel_pump m'.trace ≡ level fuel_pump m.trace
  pub alone : others m' ≡ others m

-- The level of the fuel pump after a pulse, by the pulse's answer.
abbrev pub PumpAfter : Bool → Machine → Type 0
PumpAfter stop m' = level fuel_pump m'.trace ≡ some stop

module _ (env : Env) (elapsed : List Call → ℕ) (clock : IsClock env elapsed) where
  -- The machine when the pause of `stopWebasto` begins and when its last call is made.
  abbrev cooling : Machine → Machine
  cooling m = record m {
    trace =
        digital_write air_fan true
        ∷ digital_write water_pump true
        ∷ digital_write cabin_heater false
        ∷ digital_write glow_plug false
        ∷ m.trace;
    webasto = record m.webasto {
      air_fan_state = true;
      water_pump_state = true;
      glow_plug_state = false;
      cabin_heater_state = false;
    };
  }

  abbrev cooled : Machine → Machine
  cooled m = record m {
    trace =
        digital_write cabin_heater false
        ∷ digital_write air_fan false
        ∷ digital_write glow_plug false
        ∷ digital_write water_pump false
        ∷ m.trace;
    webasto = record m.webasto {
      system_state = off;
      air_fan_state = false;
      water_pump_state = false;
      glow_plug_state = false;
      cabin_heater_state = false;
    };
  }

  forward_four : (a b c d : Call) (t : List Call) → elapsed t ≤ elapsed (a ∷ b ∷ c ∷ d ∷ t)
  forward_four a b c d t = omega (
    arith,
    clock.forward d t,
    clock.forward c (d ∷ t),
    clock.forward b (c ∷ d ∷ t),
    clock.forward a (b ∷ c ∷ d ∷ t),
  )

  shut_off :
      (stop : Bool) (m m' : Machine)
      → Idles (cooling m) m'
        × Verdict env elapsed 60000 false false (elapsed (cooling m).trace) stop m'
      → elapsed m.trace + 60000000 ≤ elapsed (cooled m').trace
  shut_off true m m' e = cc
  shut_off false m m' e =
      omega (arith, e.1, forward_four _ _ _ _ m.trace, forward_four _ _ _ _ m'.trace)

  stopped : (m m' : Machine) → Idles (cooling m) m' → IsStopped m (cooled m')
  unfolding level
  stopped m m' i = record {
    state = refl;
    air_fan_off = (refl, refl);
    water_pump_off = (refl, refl);
    glow_plug_off = (refl, refl);
    cabin_heater_off = (refl, refl);
    same_fuel = i.same_level fuel_pump;
    alone = ap (λ (f : Frozen). f.others) i.same;
  }

  -- With a clock that goes on and enough fuel, `stopWebasto` comes back with the system off and the
  -- four modules off, in their variables and on their pins; it leaves the fuel pump's pin and the
  -- other modules' variables as they were, and at least 60 seconds have passed.
  pub stop_webasto-IsStopped :
      (m : Machine)
      → 60001000 < env.fuel
      → Returns
          (λ _ m'. IsStopped m m' × (elapsed m.trace + 60000000 ≤ elapsed m'.trace))
          (stop_webasto env m)
  unfolding stop_webasto level
  stop_webasto-IsStopped m enough =
      Returns-bind _ _ (wait env 60000 false false) _ _
        (wait-Ends env elapsed clock 60000 false false _ (omega arith) (omega arith))
        λ a b e. (stopped m b e.0, shut_off a m b e)

  -- With a clock that goes on and enough fuel, `pulseFuelPump` comes back; it answers `true`, that
  -- it was interrupted, with the fuel pump on, and `false` with the fuel pump off.
  pub pulse_fuel_pump-PumpAfter :
      (si ti : Bool) (m : Machine)
      → 101000 < env.fuel
      → Returns PumpAfter (pulse_fuel_pump env si ti m)
  unfolding pulse_fuel_pump level
  pulse_fuel_pump-PumpAfter si ti m enough =
      Returns-if (λ m'. level fuel_pump m'.trace ≡ some true) PumpAfter (wait env 100 si ti) _ _ _
        (Returns-mono _ _ (wait env 100 si ti _)
          (wait-Ends env elapsed clock 100 si ti _ (omega arith) (omega arith))
          λ _ m' e. e.0.same_level fuel_pump)
        (λ m' h. h) (λ m' h. refl)
