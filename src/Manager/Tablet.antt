-- ===== src/Manager/Tablet.antt =====
-- What the tablet's frames do in every state that the program reaches.
use freaky_camper_arduino.Base.{
  ℕ, ◌/◌, ◌≤◌, ◌<◌, ◌≡◌, refl, ◌∙◌, ap, ◌==◌, false, some, [], ◌∷◌, length, length-sizes, arith,
}
use freaky_camper_arduino.Board.{Env, Pin, digital_write}
use freaky_camper_arduino.Machine.{
  Machine, HeaterState, heater_off, Returns, Returns-bind, Returns-mono, run-bind, fault-first,
  done, fault,
}
use freaky_camper_arduino.Heater.{heater_state_of}
use freaky_camper_arduino.Heater.Telecommands.{needed, asked, StopsFans, heater_got_tc_lem}
use freaky_camper_arduino.Protocol.{process_received_command, heater_command, tm_is_alive}
use freaky_camper_arduino.Protocol.Sending.{frame}
use freaky_camper_arduino.Protocol.Relays.{
  relay_of, process_received_command-relay, process_received_command-light_fault,
}
use freaky_camper_arduino.Manager.Sized.{IsSized}
use freaky_camper_arduino.Manager.Race.{Answers, keep_alive-Answers}
use freaky_camper_arduino.Manager.Feeding.{IsPlain, feed}
use freaky_camper_arduino.Manager.Receiver.{received}
use freaky_camper_arduino.Manager.Interleaving.{IsFresh, Reach, Reach-IsSound, Reach-feed-frame}

-- The receiver waits for a frame and the watchdog counts from zero.
abbrev pub rested : Machine → Machine
rested m = record m {
  comm = record m.comm { watchdog = 0 };
  link = record m.link { footer_count = 0; ready_for_datas = false; rx_counter = 0 };
}

-- The heater after a telecommand in its state HEATER_OFF.
pub record Obeys (status : HeaterState) (temp : ℕ) (m m' : Machine) : Type 0 where
  pub still_off : m'.heater.actual_state ≡ heater_off
  pub target : m'.heater.target_temp ≡ temp / 2
  pub need : m'.heater.need_heater_on ≡ needed status m.heater.need_heater_on
  pub state_asked : m'.heater.asked_state ≡ asked status m.heater.asked_state
  pub fans : StopsFans m.trace m'.trace

module _ (env : Env) (m m' : Machine) where
  -- In every state that the program reaches, the frame of a relay's telecommand makes one call,
  -- which drives the relay of its code, high exactly if the value is 1. The receiver then waits for
  -- the next frame with the payload left in its buffer, the watchdog is reset, and nothing else has
  -- changed. The receive buffer has between 2 and 255 bytes, and neither byte is a header or a footer.
  pub Reach-feed-relay :
      (code v : ℕ) (pin : Pin)
      → IsFresh m
      → Reach env m m'
      → relay_of code ≡ some pin
      → IsPlain (code ∷ v ∷ [])
      → 2 ≤ length m.comm.rx_buffer
      → length m.comm.rx_buffer < 256
      → feed env (frame (code ∷ v ∷ [])) m'
        ≡ done tt (record (rested (received (code ∷ v ∷ []) m')) {
          trace = digital_write pin (v == 1) ∷ m'.trace;
        })
  Reach-feed-relay code v pin f r e plain k l =
      Reach-feed-frame env (code ∷ v ∷ []) m m' f r plain k l
      ∙ run-bind (process_received_command env 2) _ _ tt _
          (process_received_command-relay env code v 2 _ pin (received (code ∷ v ∷ []) m') refl e)

  -- In every state that the program reaches, the frame of a telecommand for a light whose identifier
  -- is beyond the lights' table makes the program read outside that table. The receive buffer has
  -- between 7 and 255 bytes, and no byte of the payload is a header or a footer.
  pub Reach-feed-light_fault :
      (type id a b c d : ℕ)
      → IsFresh m
      → Reach env m m'
      → IsPlain (13 ∷ type ∷ id ∷ a ∷ b ∷ c ∷ d ∷ [])
      → 7 ≤ length m.comm.rx_buffer
      → length m.comm.rx_buffer < 256
      → length m.lights_conf ≤ id
      → feed env (frame (13 ∷ type ∷ id ∷ a ∷ b ∷ c ∷ d ∷ [])) m' ≡ fault
  Reach-feed-light_fault type id a b c d f r plain k l h =
      let p = 13 ∷ type ∷ id ∷ a ∷ b ∷ c ∷ d ∷ [] in
      let s = Reach-IsSound env m m' f r in
      let rows : length m'.lights_conf ≡ length m.lights_conf = omega (
        arith,
        ap length s.same_columns,
        length-sizes m.lights_conf,
        length-sizes m'.lights_conf,
      ) in
      Reach-feed-frame env p m m' f r plain k l
      ∙ fault-first (process_received_command env 7) _ _ (
          process_received_command-light_fault env type id a b c d 7 _ (received p m') refl
            (omega arith) (omega arith))

heater_command-Obeys :
    (env : Env) (status fan1 fan2 temp : ℕ) (m : Machine)
    → m.heater.actual_state ≡ heater_off
    → Returns
        (λ _ m'. Obeys (heater_state_of status) temp m m')
        (process_received_command env 5 (received (40 ∷ status ∷ fan1 ∷ fan2 ∷ temp ∷ []) m))
unfolding process_received_command heater_command
heater_command-Obeys env status fan1 fan2 temp m e =
    Returns-mono _ (λ _ m'. Obeys (heater_state_of status) temp m m') _
      (heater_got_tc_lem (heater_state_of status) fan1 fan2 temp
        (received (40 ∷ status ∷ fan1 ∷ fan2 ∷ temp ∷ []) m) e)
      λ _ m' g. record { still_off = g.0; target = g.1; need = g.2; state_asked = g.3; fans = g.4 }

-- In every state that the program reaches from HEATER_OFF, the frame of a heater's telecommand leaves
-- the heater in HEATER_OFF and never turns a fan on, whatever fan speeds it carries: it sets the
-- target temperature, asks for the burner's heat, withdraws it or leaves it, and records the state
-- asked for. The receive buffer has between 5 and 255 bytes, and no byte of the payload is a header
-- or a footer.
pub Reach-feed-heater :
    (env : Env) (status fan1 fan2 temp : ℕ) (m m' : Machine)
    → IsFresh m
    → m.heater.actual_state ≡ heater_off
    → Reach env m m'
    → IsPlain (40 ∷ status ∷ fan1 ∷ fan2 ∷ temp ∷ [])
    → 5 ≤ length m.comm.rx_buffer
    → length m.comm.rx_buffer < 256
    → Returns
        (λ _ m''. Obeys (heater_state_of status) temp m' m'')
        (feed env (frame (40 ∷ status ∷ fan1 ∷ fan2 ∷ temp ∷ [])) m')
Reach-feed-heater env status fan1 fan2 temp m m' f e r plain k l =
    let s = Reach-IsSound env m m' f r in
    rw (Reach-feed-frame env (40 ∷ status ∷ fan1 ∷ fan2 ∷ temp ∷ []) m m' f r plain k l) (
      Returns-bind _ _ (process_received_command env 5) _ _
        (heater_command-Obeys env status fan1 fan2 temp m' (s.same_state ∙ e))
        λ _ n g. record {
          still_off = g.still_off;
          target = g.target;
          need = g.need;
          state_asked = g.state_asked;
          fans = g.fans;
        })

-- The polled values and the send buffer have the sizes of their declarations.
pub record HasSizes (m : Machine) : Type 0 where
  pub currents_size : length m.currents ≡ 7
  pub tensions_size : length m.tensions ≡ 2
  pub tx_size : length m.comm.tx_buffer ≡ 32

pub Reach-sizes :
    (env : Env) (m m' : Machine)
    → IsFresh m
    → Reach env m m'
    → HasSizes m
    → IsSized m'.heater m'.water m'
Reach-sizes env m m' f r z =
    let s = Reach-IsSound env m m' f r in
    record {
      currents_size = s.same_currents ∙ z.currents_size;
      tensions_size = s.same_tensions ∙ z.tensions_size;
      tx_size = s.same_tx ∙ z.tx_size;
      same_heater = refl;
      same_water = refl;
    }

keep_alive-received :
    (env : Env) (m : Machine)
    → IsSized m.heater m.water m
    → Returns
        (λ _ m'. Answers tm_is_alive m')
        (process_received_command env 1 (received (9 ∷ []) m))
unfolding process_received_command
keep_alive-received env m s = (keep_alive-Answers env).at (received (9 ∷ []) m) (record {
  currents_size = s.currents_size;
  tensions_size = s.tensions_size;
  tx_size = s.tx_size;
  same_heater = s.same_heater;
  same_water = s.same_water;
})

-- In every state that the program reaches from a start with its arrays of currents, tensions and the
-- send buffer at their sizes, the frame of a keep-alive telecommand is answered by a frame whose payload is the
-- code 9, as the last one sent, and the watchdog then counts from zero. The receive buffer has
-- between 1 and 255 bytes.
pub Reach-feed-keep_alive :
    (env : Env) (m m' : Machine)
    → IsFresh m
    → Reach env m m'
    → 1 ≤ length m.comm.rx_buffer
    → length m.comm.rx_buffer < 256
    → HasSizes m
    → Returns
        (λ _ m''. Answers tm_is_alive m'' × (m''.comm.watchdog ≡ 0))
        (feed env (frame (9 ∷ [])) m')
Reach-feed-keep_alive env m m' f r k l z =
    let s = Reach-sizes env m m' f r z in
    rw (Reach-feed-frame env (9 ∷ []) m m' f r (omega arith) k l) (
      Returns-bind (λ _ n. Answers tm_is_alive n)
        (λ _ n. Answers tm_is_alive n × (n.comm.watchdog ≡ 0)) (process_received_command env 1) _ _
        (keep_alive-received env m' s) λ _ n g. (g, refl))
