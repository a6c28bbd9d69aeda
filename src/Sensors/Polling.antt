-- ===== src/Sensors/Polling.antt =====
-- current.cpp and tension.cpp: what the arrays of polled values hold.
use freaky_camper_arduino.Base.{
  ℕ, zero, suc, inl, inr, Bool-cases, ◌==◌, ◌*◌, ◌<◌, ◌≡◌, ◌≢◌, refl, sym, ap, ◌∙◌, some, none,
  Option, List, [], ◌∷◌, length, get_elem?, get_elem?_split, get_elem?-set, get_elem?-set_ne,
  length-set, set, ltb, true, arith,
}
use freaky_camper_arduino.Board.{Env, Call, Pin, analog_read}
use freaky_camper_arduino.Config.{
  current_pins, current_cal_factors, tension_pins, tension_cal_factors,
}
use freaky_camper_arduino.Machine.{
  Machine, M, Returns, Returns-mono, ◌>>=◌, done, ask, get, modify, index, store, for_range, Leads,
  Leads-for_range, run-bind, run-index,
}
use freaky_camper_arduino.Sensors.{
  pool_current_sensor, pool_current_sensors, pool_tension_sensor, pool_tension_sensors,
}

-- The calls after the first `i` pins have been read.
abbrev pub reads : List Pin → ℕ → List Call → List Call
reads pins zero t = t
reads [] (suc i) t = t
reads (pin ∷ pins) (suc i) t = reads pins i (analog_read pin ∷ t)

abbrev pub scaled : Env → List Call → Option Pin → Option ℕ → Option ℕ
scaled env t (some pin) (some factor) = some (env.short_of (env.analog_level t pin * factor))
scaled env t (some pin) none = none
scaled env t none factor = none

-- The value of sensor `i`, when the sensors are polled one after the other from `t` on.
abbrev pub measured : Env → List Pin → List ℕ → ℕ → List Call → Option ℕ
measured env pins factors i t = scaled env (reads pins i t) (get_elem? pins i) (get_elem? factors i)

reads_step :
    (pins : List Pin) (i : ℕ) (pin : Pin) (t : List Call)
    → get_elem? pins i ≡ some pin
    → reads pins (suc i) t ≡ analog_read pin ∷ reads pins i t
reads_step [] i pin t e = cc
reads_step (p ∷ pins) zero pin t e = let same : p ≡ pin = cc in rw same
reads_step (p ∷ pins) (suc i) pin t e = reads_step pins i pin (analog_read p ∷ t) e

-- An array of the machine that is polled, and its write.
module _ (array : Machine → List ℕ) (write : List ℕ → Machine → Machine)
    (array-write : (a : List ℕ) (m : Machine) → array (write a m) ≡ a)
    (trace-write : (a : List ℕ) (m : Machine) → (write a m).trace ≡ m.trace)
    (array-call : (c : Call) (m : Machine) → array (record m { trace = c ∷ m.trace }) ≡ array m)
    (env : Env) (pins : List Pin) (factors : List ℕ) (hi : ℕ) (enough_pins : length pins ≡ hi)
    (enough_factors : length factors ≡ hi) (t : List Call) where
  abbrev body : ℕ → M (Unit {0})
  body i = do
    pin ← index pins i
    input_value ← ask (analog_read pin) λ t. env.analog_level t pin
    factor ← index factors i
    values ← get array
    store values i (env.short_of (input_value * factor)) λ vs. modify (write vs)

  -- After the first `j` sensors.
  record Holds (j : ℕ) (m : Machine) : Type 0 where
    size : length (array m) ≡ hi
    polled : m.trace ≡ reads pins j t
    values : (i : ℕ) → i < j → get_elem? (array m) i ≡ measured env pins factors i t

  measured_lem :
      (j factor : ℕ) (pin : Pin)
      → get_elem? pins j ≡ some pin
      → get_elem? factors j ≡ some factor
      → measured env pins factors j t
        ≡ some (env.short_of (env.analog_level (reads pins j t) pin * factor))
  measured_lem j factor pin has_pin has_factor =
      ap (λ p. scaled env (reads pins j t) p (get_elem? factors j)) has_pin
      ∙ ap (scaled env (reads pins j t) (some pin)) has_factor

  values_step :
      (a : List ℕ) (j v : ℕ)
      → j < length a
      → measured env pins factors j t ≡ some v
      → ((i : ℕ) → i < j → get_elem? a i ≡ measured env pins factors i t)
      → (i : ℕ) → i < suc j
      → get_elem? (set a j v) i ≡ measured env pins factors i t
  values_step a j v k e h i l = elim (Bool-cases (i == j)) [
    | inl s ↦ let same : i ≡ j = ground (arith, s) in rw same (get_elem?-set a j v k ∙ sym e)
    | inr d ↦
        let other : i ≢ j = λ q. ground (arith, q, d) in
        get_elem?-set_ne a j i v other ∙ h i (omega (arith, other))
  ]

  body_lem :
      (j pin_factor : ℕ) (pin : Pin) (m : Machine)
      → get_elem? pins j ≡ some pin
      → get_elem? factors j ≡ some pin_factor
      → j < length (array m)
      → body j m
        ≡ done tt (
            write
              (set (array m) j (env.short_of (env.analog_level m.trace pin * pin_factor)))
              (record m { trace = analog_read pin ∷ m.trace }))
  body_lem j f pin m has_pin has_factor k =
      let m₁ = record m { trace = analog_read pin ∷ m.trace } in
      let same = array-call (analog_read pin) m in
      let room : ltb j (length (array m₁)) ≡ true = ground (arith, ap length same) in
      run-bind (index pins j) _ m pin m (run-index pins j pin m has_pin)
      ∙ run-bind (index factors j) _ m₁ f m₁ (run-index factors j f m₁ has_factor)
      ∙ rw (room, same) refl

  body-Holds : (j : ℕ) → j < hi → Leads (Holds j) (Holds (suc j)) (body j)
  body-Holds j k = record {
    at = λ m h.
        let (pin, has_pin, _) = get_elem?_split j pins (omega arith) in
        let (factor, has_factor, _) = get_elem?_split j factors (omega arith) in
        let v = env.short_of (env.analog_level m.trace pin * factor) in
        let m₁ = record m { trace = analog_read pin ∷ m.trace } in
        rw (body_lem j factor pin m has_pin has_factor (omega (arith, h.size))) (record {
          size = ap length (array-write (set (array m) j v) m₁) ∙ length-set (array m) j v ∙ h.size;
          polled =
              trace-write (set (array m) j v) m₁
              ∙ ap (◌∷◌ (analog_read pin)) h.polled
              ∙ sym (reads_step pins j pin t has_pin);
          values = λ i l.
              ap (λ a. get_elem? a i) (array-write (set (array m) j v) m₁)
              ∙ values_step (array m) j v (omega (arith, h.size))
                  (measured_lem j factor pin has_pin has_factor
                    ∙ ap (λ q. some (env.short_of (env.analog_level q pin * factor)))
                        (sym h.polled))
                  h.values i l;
        });
  }

  pool-Holds :
      (m : Machine)
      → length (array m) ≡ hi
      → m.trace ≡ t
      → Returns (λ _ m'. Holds hi m') (for_range hi 0 body m)
  pool-Holds m e d =
      (Leads-for_range Holds hi body body-Holds hi 0 (omega arith)).at m
        (record { size = e; polled = d; values = λ i k. absurd (omega arith) })

module _ (env : Env) where
  -- Every current is what its sensor measured.
  pub pool_current_sensors-measured :
      (m : Machine)
      → length m.currents ≡ 7
      → Returns
          (λ _ m'.
            (i : ℕ)
            → i < 7
            → get_elem? m'.currents i ≡ measured env current_pins current_cal_factors i m.trace)
          (pool_current_sensors env m)
  unfolding pool_current_sensors pool_current_sensor
  pool_current_sensors-measured m e =
      Returns-mono _ _ (pool_current_sensors env m)
        (pool-Holds (λ m. m.currents) (λ a m. record m { currents = a }) (λ a m. refl) (λ a m. refl)
          (λ c m. refl) env current_pins current_cal_factors 7 refl refl m.trace m e refl)
        λ _ m' h. h.values

  -- Every tension is what its sensor measured.
  pub pool_tension_sensors-measured :
      (m : Machine)
      → length m.tensions ≡ 2
      → Returns
          (λ _ m'.
            (i : ℕ)
            → i < 2
            → get_elem? m'.tensions i ≡ measured env tension_pins tension_cal_factors i m.trace)
          (pool_tension_sensors env m)
  unfolding pool_tension_sensors pool_tension_sensor
  pool_tension_sensors-measured m e =
      Returns-mono _ _ (pool_tension_sensors env m)
        (pool-Holds (λ m. m.tensions) (λ a m. record m { tensions = a }) (λ a m. refl) (λ a m. refl)
          (λ c m. refl) env tension_pins tension_cal_factors 2 refl refl m.trace m e refl)
        λ _ m' h. h.values
