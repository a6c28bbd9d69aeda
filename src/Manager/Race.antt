-- ===== src/Manager/Race.antt =====
-- The service of the timer between the building of a telemetry frame and its sending by the main
-- loop: both use the same send buffer.
use freaky_camper_arduino.Base.{
  ℕ, ◌≤◌, ◌<◌, ◌≡◌, refl, ap, sym, ◌∙◌, subst, List, false, some, get_elem?, set, length-set, arith,
}
use freaky_camper_arduino.Board.{Env, Call}
use freaky_camper_arduino.Machine.{
  Machine, Heater, HeaterState, heater_off, Water, call, M, Returns-bind, ◌>>=◌, ◌>>◌, return,
  set_comm, run-bind, Returns-first, Returns, Returns-both, Returns-mono, Runs, Runs-skip, Leads,
  Leads-given, Leads-before, Leads-after, Leads-then, leads_rules, total_rules,
}
use freaky_camper_arduino.Heater.{drive_fans, handle_heater}
use freaky_camper_arduino.Webasto.{stop_webasto, is_webasto_on}
use freaky_camper_arduino.Webasto.Laws.Idle.{IsClock, Others}
use freaky_camper_arduino.Webasto.Laws.Stopping.{IsStopped, stop_webasto-IsStopped}
use freaky_camper_arduino.Manager.Timer.{IsIdle, idle_heater, stopped-IsOff}
use freaky_camper_arduino.Protocol.{
  put, keep_alive, tm_builder_is_alive, tm_is_alive, prot_header, send_tm,
}
use freaky_camper_arduino.Protocol.Sending.{acknowledged, sent, put_lem, send_tm_lem}
use freaky_camper_arduino.Manager.{
  send_all_telemetry, get_currents, get_tensions, tick_watchdog, timer_isr,
}
use freaky_camper_arduino.Manager.Sized.{
  IsSized, call-Runs, pool_current_sensors-Runs, pool_tension_sensors-Runs, send_tm-Runs,
  tm_builder_temperature-Gives, tm_builder_switch-Gives, tm_builder_tension-Gives,
  tm_builder_water-Gives,
}
use freaky_camper_arduino.Manager.Builders.{sent_codes, get_elem?-set_start}
use freaky_camper_arduino.Manager.Frames.{send_tm-Leads}

-- `keep_alive`, with the timer's service after the frame is built.
abbrev pub interrupted_keep_alive : Env → M (Unit {0})
interrupted_keep_alive env = do
  set_comm λ c. record c { watchdog = 0 }
  i ← tm_builder_is_alive
  timer_isr env
  send_tm env i

-- The sizes of the arrays, and the byte at the start of the send buffer.
record IsCoded (h : Heater) (w : Water) (c : ℕ) (m : Machine) : Type 0 where
  sized : IsSized h w m
  code : get_elem? m.comm.tx_buffer 0 ≡ some c

module _ {h : Heater} {w : Water} where
  send_tm-IsCoded :
      (env : Env) (n : ℕ)
      → 0 < n
      → n ≤ 24
      → Leads (IsSized h w) (IsCoded h w prot_header) (send_tm env n)
  send_tm-IsCoded env n k l = record {
    at = λ m s.
        Returns-mono _ _ (send_tm env n m)
          (Returns-both (λ _ m'. IsSized h w m')
            (λ _ m'. get_elem? m'.comm.tx_buffer 0 ≡ some prot_header) (send_tm env n m)
            ((send_tm-Runs env n k l).at m s)
            (rw (send_tm_lem env n m k (omega (arith, s.tx_size)) (omega arith))
              (acked (env.ack m.trace) (sent m n) refl)))
          λ _ m' g. record { sized = g.0; code = g.1 };
  }
    where
      acked :
          (ack : ℕ) (m : Machine)
          → get_elem? m.comm.tx_buffer 0 ≡ some prot_header
          → get_elem? (acknowledged ack m).comm.tx_buffer 0 ≡ some prot_header
      acked ack m e = ground arith

  send_all_telemetry-IsCoded :
      (env : Env) → Leads (IsSized h w) (IsCoded h w prot_header) (send_all_telemetry env)
  unfolding send_all_telemetry
  send_all_telemetry-IsCoded env = Leads-given 8 _ _ (tm_builder_temperature-Gives env) (
      Leads-before (send_tm env 8) _ (send_tm-Runs env 8 (omega arith) (omega arith)) λ _.
        Leads-given 7 _ _ (tm_builder_switch-Gives env) (
          Leads-before (send_tm env 7) _ (send_tm-Runs env 7 (omega arith) (omega arith)) λ _.
            Leads-given 5 _ _ tm_builder_tension-Gives (
              Leads-given 7 _ _ (tm_builder_water-Gives env)
                (send_tm-IsCoded env 7 (omega arith) (omega arith)))))

  tick_watchdog-Runs : Runs (IsCoded h w prot_header) tick_watchdog
  unfolding tick_watchdog
  tick_watchdog-Runs = record { at = λ m s. ground (arith, s, s.sized) }

  fan_call-Runs : (c : Call) → Runs (IsCoded h w prot_header) (call c)
  fan_call-Runs c = record { at = λ m s. ground (arith, s, s.sized) }

  drive_fans-Runs :
      (env : Env) (s : HeaterState) → Runs (IsCoded h w prot_header) (drive_fans env s)
  unfolding drive_fans is_webasto_on
  drive_fans-Runs env heater_off = search (total_rules, fan_call-Runs) depth 20
  drive_fans-Runs env _ = search (total_rules, fan_call-Runs) depth 20

  stopped-IsCoded :
      (m m' : Machine) → IsCoded h w prot_header m → IsStopped m m' → IsCoded h w prot_header m'
  stopped-IsCoded m m' s g = record {
    sized = (stopped-IsOff m m' s.sized g).sized;
    code = ap (λ (o : Others). get_elem? o.comm.tx_buffer 0) g.alone ∙ s.code;
  }

  module _ (no_heat : h.need_heater_on ≡ false) (no_hot_water : w.use_hot_water ≡ false)
      (elapsed : List Call → ℕ) where
    handle_heater-Runs :
        (env : Env)
        → IsClock env elapsed
        → 60001000 < env.fuel
        → Runs (IsCoded h w prot_header) (handle_heater env)
    handle_heater-Runs env clock enough = record {
      at = λ m s.
          let Q = IsCoded h w prot_header in
          let need : m.heater.need_heater_on ≡ false = ground (arith, s.sized) in
          let hot : m.water.use_hot_water ≡ false = ground (arith, s.sized) in
          subst (Returns (λ _ m'. Q m')) (sym (idle_heater env m need hot)) (
            Returns-bind (λ _ m'. Q m') (λ _ m'. Q m') (stop_webasto env) _ m
              (Returns-mono _ _ (stop_webasto env m)
                (stop_webasto-IsStopped env elapsed clock m enough)
                λ _ m' g. stopped-IsCoded m m' s g.0)
              λ _ m' g. (drive_fans-Runs env m'.heater.actual_state).at m' g);
    }

    serve-IsCoded :
        (env : Env)
        → IsClock env elapsed
        → 60001000 < env.fuel
        → Leads
            (IsSized h w)
            (IsCoded h w prot_header)
            (do send_all_telemetry env; handle_heater env; tick_watchdog)
    serve-IsCoded env clock enough =
        Leads-after (send_all_telemetry env) (λ _. handle_heater env >> tick_watchdog)
          (send_all_telemetry-IsCoded env)
          λ _. search (total_rules, handle_heater-Runs env clock enough, tick_watchdog-Runs)

    timer_isr-IsCoded :
        (env : Env)
        → IsClock env elapsed
        → 60001000 < env.fuel
        → Leads (IsSized h w) (IsCoded h w prot_header) (timer_isr env)
    unfolding timer_isr get_currents get_tensions
    timer_isr-IsCoded env clock enough =
        search
          (
            leads_rules,
            Runs-skip,
            call-Runs,
            pool_current_sensors-Runs,
            pool_tension_sensors-Runs,
            serve-IsCoded env clock enough,
          )
          depth 20

-- The last frame sent has one byte of payload, which is `c`.
abbrev pub Answers : ℕ → Machine → Type 0
Answers c m = get_elem? (sent_codes m.trace) 0 ≡ some (9, some c)

module _ {h : Heater} {w : Water} where
  set_code-IsCoded :
      (c : ℕ) (m : Machine)
      → IsSized h w m
      → IsCoded h w c (record m { comm = record m.comm { tx_buffer = set m.comm.tx_buffer 0 c } })
  set_code-IsCoded c m s =
      ground (arith, s, length-set m.comm.tx_buffer 0 c, get_elem?-set_start m.comm.tx_buffer c)

  -- What follows the builder of the answer.
  is_alive-then :
      (f : ℕ → M (Unit {0})) (Q : Machine → Type 0)
      → Leads (IsCoded h w tm_is_alive) Q (f 1)
      → Leads (IsSized h w) Q (tm_builder_is_alive >>= f)
  unfolding tm_builder_is_alive
  is_alive-then f Q k = record {
    at = λ m s.
        Returns-first _ tm_builder_is_alive f m 1 _
          (run-bind (put 0 tm_is_alive) (λ _. return 1) m tt _
            (put_lem 0 tm_is_alive m (omega (arith, s.tx_size))))
          (k.at _ (set_code-IsCoded tm_is_alive m s));
  }

  send_one-Answers : (env : Env) (c : ℕ) → Leads (IsCoded h w c) (Answers c) (send_tm env 1)
  send_one-Answers env c = record {
    at = λ m s.
        Returns-mono _ _ (send_tm env 1 m)
          ((send_tm-Leads env 1 c (omega arith) (omega arith)).at m
            (record { sized = s.sized; frames = refl; code = s.code }))
          λ _ m' g. ap (λ f. get_elem? f 0) g.frames;
  }

  reset-Runs : Runs (IsSized h w) (set_comm λ c. record c { watchdog = 0 })
  reset-Runs = record { at = λ m s. ground (arith, s) }

  pub keep_alive-Answers : (env : Env) → Leads (IsSized h w) (Answers tm_is_alive) (keep_alive env)
  unfolding keep_alive
  keep_alive-Answers env =
      Leads-before _ _ reset-Runs
        λ _. is_alive-then (send_tm env) _ (send_one-Answers env tm_is_alive)

-- The answer to a keep-alive telecommand is a frame whose payload is the code 9. If the service of
-- the timer comes between the building of the answer and its sending, the frame that is sent as the
-- answer carries the header byte of the service's last frame instead, since both use one send
-- buffer. The arrays have their sizes, neither heat nor hot water is asked for, the clock goes on, and
-- there is enough fuel.
pub keep_alive-race :
    (env : Env) (elapsed : List Call → ℕ) (m : Machine)
    → IsClock env elapsed
    → 60001000 < env.fuel
    → IsIdle m
    → Returns (λ _ m'. Answers tm_is_alive m') (keep_alive env m)
      × Returns (λ _ m'. Answers prot_header m') (interrupted_keep_alive env m)
keep_alive-race env elapsed m clock enough i = (
  (keep_alive-Answers env).at m i.sized,
  (Leads-before {Q = Answers prot_header} _ _ reset-Runs λ _.
        is_alive-then (λ i. do timer_isr env; send_tm env i) _
          (Leads-then (timer_isr env) (λ _. send_tm env 1)
            (coded_then (timer_isr-IsCoded i.no_heat i.no_hot_water elapsed env clock enough))
            (λ _. send_one-Answers env prot_header))).at
      m i.sized,
)
  where
    coded_then :
        {c : ℕ} {h : Heater} {w : Water} {Q : Machine → Type 0} {x : M (Unit {0})}
        → Leads (IsSized h w) Q x
        → Leads (IsCoded h w c) Q x
    coded_then k = record { at = λ m s. k.at m s.sized }
