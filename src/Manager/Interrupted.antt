-- ===== src/Manager/Interrupted.antt =====
-- A frame whose bytes the main loop takes while the services of the timer and the other interrupts
-- come between them.
use freaky_camper_arduino.Base.{
  ℕ, ◌≡◌, ◌⊎◌, inl, inr, Bool-cases, refl, sym, subst, true, false, ◌==◌, some, get_elem?, List, [],
  ◌∷◌, arith,
}
use freaky_camper_arduino.Board.{Env, Call, usb_task, adk_is_ready, adk_rcv_data, delay}
use freaky_camper_arduino.Machine.{Machine, Link, View, ◌>>◌, call, run-bind, done, Keeps, Over}
use freaky_camper_arduino.Manager.{freaky_camp_manager_loop, got_byte, tick_watchdog}
use freaky_camper_arduino.Manager.Feeding.{with_rx}
use freaky_camper_arduino.Manager.Interleaving.{Interrupt, Interrupt-Keeps}

-- The machine in which a round of the main loop has asked for a message.
abbrev pub polled : Machine → Machine
polled m = record m { trace = adk_rcv_data ∷ adk_is_ready ∷ usb_task ∷ m.trace }

-- The next round of the main loop takes a message of the one byte `b`.
pub record Takes (env : Env) (m : Machine) (b : ℕ) : Type 0 where
  pub ready : env.adk_ready (usb_task ∷ m.trace) ≡ true
  pub single : (env.reception (adk_is_ready ∷ usb_task ∷ m.trace)).len ≡ 1
  pub first : get_elem? (env.reception (adk_is_ready ∷ usb_task ∷ m.trace)).msg 0 ≡ some b

-- The next round takes none.
abbrev pub TakesNone : Env → Machine → Type 0
TakesNone env m =
    (env.adk_ready (usb_task ∷ m.trace) ≡ false)
    ⊎ (((env.reception (adk_is_ready ∷ usb_task ∷ m.trace)).len == 1) ≡ false)

-- Rounds of the main loop that take the given bytes, with any idle rounds and interrupts before,
-- between and after them.
pub data Fed (env : Env) : List ℕ → Machine → Machine → Type 0 where
  over : {m : Machine} → Fed env [] m m
  byte :
      {b : ℕ} {bs : List ℕ} {m m' m'' : Machine}
      → Takes env m b
      → freaky_camp_manager_loop env m ≡ done tt m'
      → Fed env bs m' m''
      → Fed env (b ∷ bs) m m''
  idle_round :
      {bs : List ℕ} {m m' m'' : Machine}
      → TakesNone env m
      → freaky_camp_manager_loop env m ≡ done tt m'
      → Fed env bs m' m''
      → Fed env bs m m''
  pause :
      {bs : List ℕ} {m m' m'' : Machine} → Interrupt env m m' → Fed env bs m' m'' → Fed env bs m m''

pub loop-Takes :
    (env : Env) (m : Machine) (b : ℕ)
    → Takes env m b
    → freaky_camp_manager_loop env m ≡ (do got_byte env b; call (delay 25)) (polled m)
unfolding freaky_camp_manager_loop
loop-Takes env m b t = ground (arith, t)

-- An idle round only makes calls.
pub loop-TakesNone :
    (env : Env) (m : Machine)
    → TakesNone env m
    → (t : List Call) × (freaky_camp_manager_loop env m ≡ done tt (record m { trace = t }))
unfolding freaky_camp_manager_loop
loop-TakesNone env m (inl e) = (adk_is_ready ∷ usb_task ∷ m.trace, ground (arith, e))
loop-TakesNone env m (inr e) = elim (Bool-cases (env.adk_ready (usb_task ∷ m.trace))) [
  | inl d ↦ (delay 25 ∷ adk_rcv_data ∷ adk_is_ready ∷ usb_task ∷ m.trace, ground (arith, d, e))
  | inr d ↦ (adk_is_ready ∷ usb_task ∷ m.trace, ground (arith, d))
]

-- The receiver's variables and its buffer.
pub record At (l : Link) (rx : List ℕ) (v : View) : Type 0 where
  pub same_link : v.link ≡ l
  pub same_rx : v.rx_buffer ≡ rx

tick_watchdog-At : {l : Link} {rx : List ℕ} → Keeps (Unit {0}) (Over (At l rx)) tick_watchdog
unfolding tick_watchdog
tick_watchdog-At = record { at = λ m h. ground (arith, h.holds) }

module _ (env : Env) where
  pub Interrupt-At :
      (l : Link) (rx : List ℕ) (m m' : Machine)
      → Interrupt env m m'
      → Over (At l rx) m
      → Over (At l rx) m'
  Interrupt-At l rx m m' i = Interrupt-Keeps env m m' tick_watchdog-At i

  idle-At :
      (l : Link) (rx : List ℕ) (m m' : Machine)
      → TakesNone env m
      → freaky_camp_manager_loop env m ≡ done tt m'
      → Over (At l rx) m
      → Over (At l rx) m'
  idle-At l rx m m' t e h =
      let (trace, d) = loop-TakesNone env m t in
      let q : m' ≡ record m { trace = trace } = cc in
      subst (Over (At l rx)) (sym q)
        (record { holds = record { same_link = h.holds.same_link; same_rx = h.holds.same_rx } })

  -- After the last byte only interrupts come.
  pub Fed-At :
      (l : Link) (rx : List ℕ) (m m' : Machine)
      → Fed env [] m m'
      → Over (At l rx) m
      → Over (At l rx) m'
  Fed-At l rx m m' over h = h
  Fed-At l rx m m' (idle_round {m' = n} t e f) h = Fed-At l rx n m' f (idle-At l rx m n t e h)
  Fed-At l rx m m' (pause {m' = n} i f) h = Fed-At l rx n m' f (Interrupt-At l rx m n i h)

  -- One byte, with what comes before it.
  pub Fed-byte :
      (l l' : Link) (rx rx' : List ℕ) (b : ℕ) (bs : List ℕ) (m m' : Machine)
      → ((n : Machine)
          → n.link ≡ l
          → n.comm.rx_buffer ≡ rx
          → got_byte env b n ≡ done tt (with_rx n l' rx'))
      → Fed env (b ∷ bs) m m'
      → Over (At l rx) m
      → (n : Machine) × Over (At l' rx') n × Fed env bs n m'
  Fed-byte l l' rx rx' b bs m m' got (byte {m' = n} t e f) h =
      let q : n ≡ record (with_rx (polled m) l' rx') { trace = delay 25 ∷ (polled m).trace } =
        let d =
          run-bind (got_byte env b) (λ _. call (delay 25)) (polled m) tt _
            (got (polled m) h.holds.same_link h.holds.same_rx) in
        cc (loop-Takes env m b t) in
      (
        n,
        subst (Over (At l' rx')) (sym q)
            (record { holds = record { same_link = refl; same_rx = refl } }),
        f,
      )
  Fed-byte l l' rx rx' b bs m m' got (idle_round {m' = n} t e f) h =
      Fed-byte l l' rx rx' b bs n m' got f (idle-At l rx m n t e h)
  Fed-byte l l' rx rx' b bs m m' got (pause {m' = n} i f) h =
      Fed-byte l l' rx rx' b bs n m' got f (Interrupt-At l rx m n i h)
