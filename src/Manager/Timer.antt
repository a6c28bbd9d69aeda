-- ===== src/Manager/Timer.antt =====
-- The service of the timer's interrupt, with no heat and no hot water asked for.
use freaky_camper_arduino.Base.{
  ℕ, ◌+◌, ◌≤◌, ◌<◌, ap, subst, sym, ◌∙◌, ◌≡◌, arith, false, List, length,
}
use freaky_camper_arduino.Board.{Env, Call}
use freaky_camper_arduino.Machine.{
  Machine, HeaterState, heater_off, off, total_rules, call, Heater, Water, ◌>>◌, Returns,
  Returns-bind, Returns-mono, Runs, get, ◌>>=◌,
}
use freaky_camper_arduino.Webasto.{stop_webasto, is_webasto_on}
use freaky_camper_arduino.Webasto.Laws.Idle.{IsClock, Others}
use freaky_camper_arduino.Webasto.Laws.Stopping.{IsStopped, stop_webasto-IsStopped}
use freaky_camper_arduino.Heater.{drive_fans, handle_heater}
use freaky_camper_arduino.Manager.Sized.{IsSized}

-- The sizes of the arrays, and that neither heat nor hot water is asked for.
pub record IsIdle (m : Machine) : Type 0 where
  pub sized : IsSized m.heater m.water m
  pub no_heat : m.heater.need_heater_on ≡ false
  pub no_hot_water : m.water.use_hot_water ≡ false

pub idle_heater :
    (env : Env) (m : Machine)
    → m.heater.need_heater_on ≡ false
    → m.water.use_hot_water ≡ false
    → handle_heater env m
      ≡ (do stop_webasto env; actual ← get λ m'. m'.heater.actual_state; drive_fans env actual) m
unfolding handle_heater
idle_heater env m e d = ground arith

-- The variables of the system after a stop of the burner.
pub record IsOff (h : Heater) (w : Water) (m : Machine) : Type 0 where
  pub sized : IsSized h w m
  pub state : m.webasto.system_state ≡ off
  pub fan : m.webasto.air_fan_state ≡ false
  pub pump : m.webasto.water_pump_state ≡ false
  pub plug : m.webasto.glow_plug_state ≡ false
  pub cabin : m.webasto.cabin_heater_state ≡ false

module _ {h : Heater} {w : Water} where
  fan_call-Runs : (c : Call) → Runs (IsOff h w) (call c)
  fan_call-Runs c = record { at = λ m s. ground (arith, s.sized) }

  pub stopped-IsOff : (m m' : Machine) → IsSized h w m → IsStopped m m' → IsOff h w m'
  stopped-IsOff m m' s g =
      let same = g.alone in
      record {
        sized = record {
          currents_size = ap (λ (o : Others). length o.currents) same ∙ s.currents_size;
          tensions_size = ap (λ (o : Others). length o.tensions) same ∙ s.tensions_size;
          tx_size = ap (λ (o : Others). length o.comm.tx_buffer) same ∙ s.tx_size;
          same_heater = ap (λ (o : Others). o.heater) same ∙ s.same_heater;
          same_water = ap (λ (o : Others). o.water) same ∙ s.same_water;
        };
        state = g.state;
        fan = g.air_fan_off.0;
        pump = g.water_pump_off.0;
        plug = g.glow_plug_off.0;
        cabin = g.cabin_heater_off.0;
      }

-- The system is off, at `until` or later.
pub record IsLate (elapsed : List Call → ℕ) (until : ℕ) (h : Heater) (w : Water) (m : Machine)
    : Type 0 where
  pub stopped : IsOff h w m
  pub late : until ≤ elapsed m.trace

module _ (env : Env) (elapsed : List Call → ℕ) (clock : IsClock env elapsed) {h : Heater}
    {w : Water} {until : ℕ} where
  timed_call-Runs : (c : Call) → Runs (IsLate elapsed until h w) (call c)
  timed_call-Runs c = record {
    at = λ m s. record {
      stopped = (fan_call-Runs c).at m s.stopped;
      late = omega (arith, s.late, clock.forward c m.trace);
    };
  }

  timed_fans-Runs : (s : HeaterState) → Runs (IsLate elapsed until h w) (drive_fans env s)
  unfolding drive_fans is_webasto_on
  timed_fans-Runs heater_off = search (total_rules, timed_call-Runs) depth 20
  timed_fans-Runs _ = search (total_rules, timed_call-Runs) depth 20

-- With a clock that goes on, enough fuel, and no heat and no hot water asked for, `handleHeater`, which
-- runs in the timer's service, takes 60 seconds at least: it comes back, with the burner's system and
-- its four modules' states off, the sizes of the arrays, and the variables of the heater and of the
-- water as they were. The arrays of currents, tensions and the send buffer have their sizes.
pub handle_heater-IsLate :
    (env : Env) (elapsed : List Call → ℕ) (m : Machine)
    → IsClock env elapsed
    → 60001000 < env.fuel
    → IsIdle m
    → Returns
        (λ _ m'. IsLate elapsed (elapsed m.trace + 60000000) m.heater m.water m')
        (handle_heater env m)
handle_heater-IsLate env elapsed m clock enough i =
    let Q = IsLate elapsed (elapsed m.trace + 60000000) m.heater m.water in
    subst (Returns (λ _ m'. Q m')) (sym (idle_heater env m i.no_heat i.no_hot_water)) (
      Returns-bind (λ _ m'. Q m') (λ _ m'. Q m') (stop_webasto env) _ m
        (Returns-mono _ _ (stop_webasto env m) (stop_webasto-IsStopped env elapsed clock m enough)
          λ _ m' g. record { stopped = stopped-IsOff m m' i.sized g.0; late = g.1 })
        λ _ m' s. (timed_fans-Runs env elapsed clock m'.heater.actual_state).at m' s)
