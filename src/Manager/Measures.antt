-- ===== src/Manager/Measures.antt =====
-- Polling the currents or the tensions and building their telemetry.
use freaky_camper_arduino.Base.{
  ℕ, inl, inr, Bool-cases, ltb, ◌*◌, ◌<◌, ◌≡◌, refl, sym, ◌∙◌, some, none, Option, List, length,
  get_elem?, get_elem?_beyond, arith,
}
use freaky_camper_arduino.Board.{Env, Call, Pin}
use freaky_camper_arduino.Config.{
  current_pins, current_cal_factors, tension_pins, tension_cal_factors,
}
use freaky_camper_arduino.Machine.{
  Machine, M, Heater, Water, Returns, Returns-bind, Returns-both, Returns-mono, ◌>>◌,
}
use freaky_camper_arduino.Sensors.{pool_current_sensors, pool_tension_sensors}
use freaky_camper_arduino.Sensors.Polling.{
  scaled, measured, pool_current_sensors-measured, pool_tension_sensors-measured,
}
use freaky_camper_arduino.Protocol.{tm_builder_current, tm_builder_tension}
use freaky_camper_arduino.Protocol.Shorts.{
  Reports, tm_builder_current-Reports, tm_builder_tension-Reports,
}
use freaky_camper_arduino.Manager.{get_currents, get_tensions}
use freaky_camper_arduino.Manager.Sized.{
  IsSized, pool_current_sensors-Runs, pool_tension_sensors-Runs,
}
use freaky_camper_arduino.Manager.Tablet.{HasSizes}

-- The conversion of a float to `short` gives 16 bits.
pub record IsShort (env : Env) : Type 0 where
  pub bounded : (x : ℕ) → env.short_of x < 65536

module _ (env : Env) (short : IsShort env) where
  scaled_bounded :
      (t : List Call) (pin : Option Pin) (factor : Option ℕ) (v : ℕ)
      → scaled env t pin factor ≡ some v
      → v < 65536
  scaled_bounded t (some pin) (some factor) v e =
      let k = short.bounded (env.analog_level t pin * factor) in ground (arith, e, k)
  scaled_bounded t (some pin) none v e = cc
  scaled_bounded t none factor v e = cc

  -- Values that are all measured fit in 16 bits.
  values_bounded :
      (pins : List Pin) (factors values : List ℕ) (hi : ℕ) (t : List Call)
      → length values ≡ hi
      → ((i : ℕ) → i < hi → get_elem? values i ≡ measured env pins factors i t)
      → (i v : ℕ) → get_elem? values i ≡ some v
      → v < 65536
  values_bounded pins factors values hi t e h i v s = elim (Bool-cases (ltb i hi)) [
    | inl within ↦
        scaled_bounded _ (get_elem? pins i) (get_elem? factors i) v
          (sym (h i (ground (arith, within))) ∙ s)
    | inr beyond ↦ let none_such = get_elem?_beyond values i (ground (arith, e, beyond)) in cc
  ]

  -- A telemetry that is built after polling.
  polled-Reports :
      (array : Machine → List ℕ) (code hi : ℕ) (pins : List Pin) (factors : List ℕ)
      (pool : M (Unit {0})) (build : M ℕ) (h : Heater) (w : Water) (m : Machine)
      → ((m' : Machine) → IsSized h w m' → length (array m') ≡ hi)
      → ((m' : Machine)
          → IsSized h w m'
          → ((i v : ℕ) → get_elem? (array m') i ≡ some v → v < 65536)
          → Returns (Reports code hi (get_elem? (array m'))) (build m'))
      → Returns
          (λ _ m'. (i : ℕ) → i < hi → get_elem? (array m') i ≡ measured env pins factors i m.trace)
          (pool m)
      → Returns (λ _ m'. IsSized h w m') (pool m)
      → Returns (Reports code hi (λ i. measured env pins factors i m.trace)) ((do pool; build) m)
  polled-Reports array code hi pins factors pool build h w m size builds values sized =
      Returns-bind _ _ pool (λ _. build) m (Returns-both _ _ (pool m) values sized)
        λ _ m' g.
          Returns-mono _ _ (build m')
            (builds m' g.1 (values_bounded pins factors (array m') hi m.trace (size m' g.1) g.0))
            λ n m'' r. record {
              count = r.count;
              coded = r.coded;
              shorts = λ i k. r.shorts i k ∙ g.0 i k;
            }

-- With the arrays at their declared sizes, the telemetry that is built after polling is the code and
-- two bytes for each sensor, high byte first, which together are the value that the sensor measured:
-- its reading at its turn times its calibration factor, as the board's conversion to 16 bits gives
-- it. This holds for the seven currents, under code 70, and for the two tensions, under code 71.
pub get_currents-tm_builder_current-Reports :
    (env : Env) (m : Machine)
    → IsShort env
    → HasSizes m
    → Returns
        (Reports 70 7 (λ i. measured env current_pins current_cal_factors i m.trace))
        ((do get_currents env; tm_builder_current) m)
      × Returns
          (Reports 71 2 (λ i. measured env tension_pins tension_cal_factors i m.trace))
          ((do get_tensions env; tm_builder_tension) m)
unfolding get_currents get_tensions
get_currents-tm_builder_current-Reports env m short z =
    let sized : IsSized m.heater m.water m = record {
      currents_size = z.currents_size;
      tensions_size = z.tensions_size;
      tx_size = z.tx_size;
      same_heater = refl;
      same_water = refl;
    } in
    (
      polled-Reports env short (λ m. m.currents) 70 7 current_pins current_cal_factors
          (pool_current_sensors env) tm_builder_current m.heater m.water m (λ m' s. s.currents_size)
          (λ m' s b. tm_builder_current-Reports m' s.currents_size (omega (arith, s.tx_size)) b)
          (pool_current_sensors-measured env m z.currents_size)
          ((pool_current_sensors-Runs env).at m sized),
      polled-Reports env short (λ m. m.tensions) 71 2 tension_pins tension_cal_factors
          (pool_tension_sensors env) tm_builder_tension m.heater m.water m (λ m' s. s.tensions_size)
          (λ m' s b. tm_builder_tension-Reports m' s.tensions_size (omega (arith, s.tx_size)) b)
          (pool_tension_sensors-measured env m z.tensions_size)
          ((pool_tension_sensors-Runs env).at m sized),
    )
