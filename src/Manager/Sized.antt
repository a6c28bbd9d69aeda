-- ===== src/Manager/Sized.antt =====
-- The polling and the telemetry of the timer's service come back, without an access outside an
-- array, with the sizes of the arrays and with the variables of the heater and of the water as they were.
use freaky_camper_arduino.Base.{
  ℕ, ◌+◌, ◌*◌, ◌≤◌, ◌<◌, ◌≡◌, ltb, true, List, length, take, drop, length-set, length-append,
  length-drop, length-take_le, arith,
}
use freaky_camper_arduino.Board.{Env, Call}
use freaky_camper_arduino.Machine.{
  Machine, Heater, Water, ◌>>=◌, call, ask, get, modify, store, for_range, Runs, Gives, Runs-bind,
  Runs-for_range, Runs-given, Gives-bind, Gives-return, total_rules,
}
use freaky_camper_arduino.Sensors.{
  pool_current_sensor, pool_tension_sensor, pool_current_sensors, pool_tension_sensors,
}
use freaky_camper_arduino.Protocol.{
  put, send_tm, put_temperature, put_switch, put_short, tm_builder_temperature, tm_builder_switch,
  tm_builder_tension, tm_builder_water,
}
use freaky_camper_arduino.Protocol.Sending.{acknowledged, sent, frame, length-frame, send_tm_lem}
use freaky_camper_arduino.Manager.{send_all_telemetry}

-- The arrays have their sizes, and the variables of the heater and of the water are as given.
pub record IsSized (h : Heater) (w : Water) (m : Machine) : Type 0 where
  pub currents_size : length m.currents ≡ 7
  pub tensions_size : length m.tensions ≡ 2
  pub tx_size : length m.comm.tx_buffer ≡ 32
  pub same_heater : m.heater ≡ h
  pub same_water : m.water ≡ w

module _ {h : Heater} {w : Water} where
  pub call-Runs : (c : Call) → Runs (IsSized h w) (call c)
  call-Runs c = record { at = λ m s. ground arith }

  ask-Runs : {A : Type 0} (c : Call) (f : List Call → A) → Runs (IsSized h w) (ask c f)
  ask-Runs c f = record { at = λ m s. ground arith }

  put-Runs : (i v : ℕ) → i < 32 → Runs (IsSized h w) (put i v)
  put-Runs i v k = record {
    at = λ m s.
        let e : ltb i (length m.comm.tx_buffer) ≡ true = ground arith in
        rw e (ground (arith, length-set m.comm.tx_buffer i v));
  }

  store_current-Runs :
      (i v : ℕ)
      → i < 7
      → Runs (IsSized h w) (do
        currents ← get λ m. m.currents
        store currents i v λ cs. modify λ m. record m { currents = cs })
  store_current-Runs i v k = record {
    at = λ m s.
        let e : ltb i (length m.currents) ≡ true = ground arith in
        rw e (ground (arith, length-set m.currents i v));
  }

  store_tension-Runs :
      (i v : ℕ)
      → i < 2
      → Runs (IsSized h w) (do
        tensions ← get λ m. m.tensions
        store tensions i v λ ts. modify λ m. record m { tensions = ts })
  store_tension-Runs i v k = record {
    at = λ m s.
        let e : ltb i (length m.tensions) ≡ true = ground arith in
        rw e (ground (arith, length-set m.tensions i v));
  }

  pool_current_sensor-Runs :
      (env : Env) (i : ℕ) → i < 7 → Runs (IsSized h w) (pool_current_sensor env i)
  unfolding pool_current_sensor
  pool_current_sensor-Runs env i k = search (total_rules, ask-Runs, store_current-Runs) depth 20

  pool_tension_sensor-Runs :
      (env : Env) (i : ℕ) → i < 2 → Runs (IsSized h w) (pool_tension_sensor env i)
  unfolding pool_tension_sensor
  pool_tension_sensor-Runs env i k = search (total_rules, ask-Runs, store_tension-Runs) depth 20

  pub pool_current_sensors-Runs : (env : Env) → Runs (IsSized h w) (pool_current_sensors env)
  unfolding pool_current_sensors
  pool_current_sensors-Runs env =
      Runs-for_range 7 (pool_current_sensor env) 7 0 (omega arith) (pool_current_sensor-Runs env)

  pub pool_tension_sensors-Runs : (env : Env) → Runs (IsSized h w) (pool_tension_sensors env)
  unfolding pool_tension_sensors
  pool_tension_sensors-Runs env =
      Runs-for_range 2 (pool_tension_sensor env) 2 0 (omega arith) (pool_tension_sensor-Runs env)

  put_temperature-Runs : (env : Env) (i : ℕ) → i < 7 → Runs (IsSized h w) (put_temperature env i)
  unfolding put_temperature
  put_temperature-Runs env i k =
      search (total_rules, ask-Runs, λ (v : ℕ). put-Runs (1 + i) v (omega arith)) depth 20

  put_switch-Runs : (env : Env) (i : ℕ) → i < 6 → Runs (IsSized h w) (put_switch env i)
  unfolding put_switch
  put_switch-Runs env i k =
      search (total_rules, ask-Runs, λ (v : ℕ). put-Runs (1 + i) v (omega arith)) depth 20

  put_temperatures-Runs : (env : Env) → Runs (IsSized h w) (for_range 7 0 (put_temperature env))
  put_temperatures-Runs env =
      Runs-for_range 7 (put_temperature env) 7 0 (omega arith) (put_temperature-Runs env)

  put_switches-Runs : (env : Env) → Runs (IsSized h w) (for_range 6 0 (put_switch env))
  put_switches-Runs env = Runs-for_range 6 (put_switch env) 6 0 (omega arith) (put_switch-Runs env)

  pub tm_builder_temperature-Gives :
      (env : Env) → Gives (IsSized h w) 8 (tm_builder_temperature env)
  unfolding tm_builder_temperature
  tm_builder_temperature-Gives env =
      Gives-bind 8 _ _ (put-Runs 0 72 (omega arith))
        (λ _. Gives-bind 8 _ _ (put_temperatures-Runs env) (λ _. Gives-return 8))

  pub tm_builder_switch-Gives : (env : Env) → Gives (IsSized h w) 7 (tm_builder_switch env)
  unfolding tm_builder_switch
  tm_builder_switch-Gives env =
      Gives-bind 7 _ _ (put-Runs 0 74 (omega arith))
        (λ _. Gives-bind 7 _ _ (put_switches-Runs env) (λ _. Gives-return 7))

  -- The same for a place that is a numeral.
  put_at-Runs : (i v : ℕ) → ltb i 32 ≡ true → Runs (IsSized h w) (put i v)
  put_at-Runs i v e = put-Runs i v (ground arith)

  pub tm_builder_water-Gives : (env : Env) → Gives (IsSized h w) 7 (tm_builder_water env)
  unfolding tm_builder_water
  tm_builder_water-Gives env =
      search (total_rules, call-Runs, ask-Runs, put_at-Runs) depth 60 fits 4000

  put_short-Runs :
      (i : ℕ) → i < 2 → (ts : List ℕ) → length ts ≡ 2 → Runs (IsSized h w) (put_short ts i)
  put_short-Runs i k ts e =
      let j : i < length ts = omega arith in
      search
        (
          total_rules,
          λ (v : ℕ). put-Runs (1 + 2 * i) v (omega arith),
          λ (v : ℕ). put-Runs (2 + 2 * i) v (omega arith),
          j,
        )
        depth 20

  pub tm_builder_tension-Gives : Gives (IsSized h w) 5 tm_builder_tension
  unfolding tm_builder_tension
  tm_builder_tension-Gives = Gives-bind 5 _ _ (put-Runs 0 71 (omega arith)) λ _. record {
    at = λ m s.
        (Gives-bind 5 _ _
            (Runs-for_range 2 (put_short m.tensions) 2 0 (omega arith)
              λ i k. put_short-Runs i k m.tensions s.tensions_size)
            (λ _. Gives-return 5)).at
          m s;
  }

  pub send_tm-Runs : (env : Env) (n : ℕ) → 0 < n → n ≤ 24 → Runs (IsSized h w) (send_tm env n)
  send_tm-Runs env n k l = record {
    at = λ m s.
        rw (send_tm_lem env n m k (omega (arith, s.tx_size)) (omega arith))
          (acked m s (env.ack m.trace));
  }
    where
      framed : (m : Machine) → IsSized h w m → IsSized h w (sent m n)
      framed m s = record {
        currents_size = s.currents_size;
        tensions_size = s.tensions_size;
        tx_size = omega (
          arith,
          length-append (frame (take n m.comm.tx_buffer)) (drop (n + 8) m.comm.tx_buffer),
          length-frame (take n m.comm.tx_buffer),
          length-take_le n m.comm.tx_buffer (omega (arith, s.tx_size)),
          length-drop (n + 8) m.comm.tx_buffer,
          s.tx_size,
        );
        same_heater = s.same_heater;
        same_water = s.same_water;
      }

      acked : (m : Machine) → IsSized h w m → (ack : ℕ) → IsSized h w (acknowledged ack (sent m n))
      acked m s ack = ground (arith, framed m s)

  pub send_all_telemetry-Runs : (env : Env) → Runs (IsSized h w) (send_all_telemetry env)
  unfolding send_all_telemetry
  send_all_telemetry-Runs env = Runs-given 8 _ _ (tm_builder_temperature-Gives env) (
      Runs-bind _ _ (send_tm-Runs env 8 (omega arith) (omega arith)) λ _.
        Runs-given 7 _ _ (tm_builder_switch-Gives env) (
          Runs-bind _ _ (send_tm-Runs env 7 (omega arith) (omega arith)) λ _.
            Runs-given 5 _ _ tm_builder_tension-Gives (
              Runs-given 7 _ _ (tm_builder_water-Gives env)
                (send_tm-Runs env 7 (omega arith) (omega arith)))))
