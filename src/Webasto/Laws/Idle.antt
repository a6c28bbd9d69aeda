-- ===== src/Webasto/Laws/Idle.antt =====
-- What the machine may do while the burner's control waits: interrupts of the on/off switch move
-- the system state, and nothing else changes.
use freaky_camper_arduino.Base.{
  ℕ, ◌+◌, ◌/◌, ◌%◌, ◌^◌, ◌≤◌, ◌<◌, ◌≡◌, refl, ◌∙◌, Bool, Bool-cases, ◌⊎◌, inl, inr, List, ◌∷◌,
  arith,
}
use freaky_camper_arduino.Base.Int.{ℤ}
use freaky_camper_arduino.Board.{Env, Call, millis, Pin, level}
use freaky_camper_arduino.Machine.{
  Machine, Heater, Water, Link, Comm, Returns, Returns-mono, SystemState, on, off, remote_starting,
  remote_stopping, remote_shutdown,
}
use freaky_camper_arduino.Webasto.{
  press, turn_on_off_system, serve_interrupts, longer_than_debounce,
}

-- What a press of the switch does to the state of the system.
infix 40 ◌⟶◌ ◌⟶*◌
pub data ◌⟶◌ : SystemState → SystemState → Type 0 where
  start : off ⟶ remote_starting
  abort : remote_starting ⟶ remote_shutdown
  stop : on ⟶ remote_stopping

pub data ◌⟶*◌ : SystemState → SystemState → Type 0 where
  here : {s : SystemState} → s ⟶* s
  onward : {s t u : SystemState} → s ⟶ t → t ⟶* u → s ⟶* u

pub ⟶*-trans : {s t u : SystemState} → s ⟶* t → t ⟶* u → s ⟶* u
⟶*-trans here q = q
⟶*-trans (onward e p) q = onward e (⟶*-trans p q)

pub ⟶*-of_eq : {s t : SystemState} → t ≡ s → s ⟶* t
⟶*-of_eq {s} e = rw e here

-- All that the burner's control leaves alone: the variables of the other modules.
pub record Others : Type 0 where
  pub heater : Heater
  pub water : Water
  pub link : Link
  pub comm : Comm
  pub lights_conf : List (List ℕ)
  pub currents : List ℕ
  pub tensions : List ℕ

abbrev pub others : Machine → Others
others m = record {
  heater = m.heater;
  water = m.water;
  link = m.link;
  comm = m.comm;
  lights_conf = m.lights_conf;
  currents = m.currents;
  tensions = m.tensions;
}

-- All that an interrupt of the switch leaves alone.
pub record Frozen : Type 0 where
  pub others : Others
  pub initial_temperature : ℤ
  pub previous_temperature : ℤ
  pub air_fan_state : Bool
  pub water_pump_state : Bool
  pub glow_plug_state : Bool
  pub cabin_heater_state : Bool

abbrev pub frozen : Machine → Frozen
frozen m = record {
  others = others m;
  initial_temperature = m.webasto.initial_temperature;
  previous_temperature = m.webasto.previous_temperature;
  air_fan_state = m.webasto.air_fan_state;
  water_pump_state = m.webasto.water_pump_state;
  glow_plug_state = m.webasto.glow_plug_state;
  cabin_heater_state = m.webasto.cabin_heater_state;
}

pub record Idles (m m' : Machine) : Type 0 where
  pub same : frozen m' ≡ frozen m
  pub few_attempts : m'.webasto.starting_attempts ≤ m.webasto.starting_attempts
  pub turns : m.webasto.system_state ⟶* m'.webasto.system_state
  pub same_level : (p : Pin) → level p m'.trace ≡ level p m.trace

pub Idles-refl : (m : Machine) → Idles m m
Idles-refl m = record {
  same = refl;
  few_attempts = omega arith;
  turns = here;
  same_level = λ p. refl;
}

pub Idles-trans : {a b c : Machine} → Idles a b → Idles b c → Idles a c
Idles-trans h k = record {
  same = k.same ∙ h.same;
  few_attempts = omega arith;
  turns = ⟶*-trans h.turns k.turns;
  same_level = λ p. k.same_level p ∙ h.same_level p;
}

-- The board's clock: `millis` shows the microseconds that have passed, in milliseconds at 32 bits,
-- one call of it takes between a microsecond and a second, and no call turns time back.
pub record IsClock (env : Env) (elapsed : List Call → ℕ) : Type 0 where
  pub reads : (t : List Call) → env.clock t ≡ elapsed t / 1000 % 2 ^ 32
  pub ticks : (t : List Call) → elapsed t < elapsed (millis ∷ t)
  pub steps : (t : List Call) → elapsed (millis ∷ t) ≤ elapsed t + 1000000
  pub forward : (c : Call) (t : List Call) → elapsed t ≤ elapsed (c ∷ t)

-- A reading of the clock.
pub read_clock-Idles : (m : Machine) → Idles m (record m { trace = millis ∷ m.trace })
unfolding level
read_clock-Idles m = record {
  same = refl;
  few_attempts = omega arith;
  turns = here;
  same_level = λ p. refl;
}

-- A state that one press reaches, with no more attempts than before.
pressed-Idles :
    (m : Machine) (s : SystemState) (n : ℕ)
    → n ≤ m.webasto.starting_attempts
    → m.webasto.system_state ⟶ s
    → Idles m (record m { webasto = record m.webasto { system_state = s; starting_attempts = n } })
pressed-Idles m s n h e = record {
  same = refl;
  few_attempts = h;
  turns = onward e here;
  same_level = λ p. refl;
}

press-Idles :
    (s : SystemState) (m : Machine)
    → m.webasto.system_state ≡ s
    → Returns (λ _ m'. Idles m m' × (m'.trace ≡ m.trace)) (press s m)
unfolding press
press-Idles on m e = (pressed-Idles m _ _ (omega arith) (rw e stop), refl)
press-Idles off m e = (pressed-Idles m _ _ (omega arith) (rw e start), refl)
press-Idles remote_starting m e = (pressed-Idles m _ _ (omega arith) (rw e abort), refl)
press-Idles _ m e = (Idles-refl m, refl)

-- At most one reading of the clock, and idling.
abbrev pub Reads : Machine → Machine → Type 0
Reads m m' = Idles m m' × ((m'.trace ≡ m.trace) ⊎ (m'.trace ≡ millis ∷ m.trace))

abbrev debounced : Machine → ℕ → Machine
debounced m t = record m {
  trace = millis ∷ m.trace;
  webasto = record m.webasto { last_debounce_time = t };
}

debounced-Idles : (m : Machine) (t : ℕ) → Idles m (debounced m t)
unfolding level
debounced-Idles m t = record {
  same = refl;
  few_attempts = omega arith;
  turns = here;
  same_level = λ p. refl;
}

press-Reads :
    (m : Machine) (t : ℕ)
    → Returns (λ _ m'. Reads m m') (press m.webasto.system_state (debounced m t))
press-Reads m t =
    Returns-mono (λ _ m'. Idles (debounced m t) m' × (m'.trace ≡ millis ∷ m.trace))
      (λ _ m'. Reads m m') (press m.webasto.system_state (debounced m t))
      (press-Idles m.webasto.system_state (debounced m t) refl)
      λ _ m' h. (Idles-trans (debounced-Idles m t) h.0, inr h.1)

pub turn_on_off_system-Reads :
    (env : Env) (m : Machine) → Returns (λ _ m'. Reads m m') (turn_on_off_system env m)
unfolding turn_on_off_system
turn_on_off_system-Reads env m =
    elim (Bool-cases (longer_than_debounce (env.clock m.trace) m.webasto.last_debounce_time)) [
      | inl long ↦ rw long (press-Reads m (env.clock m.trace))
      | inr short ↦ rw short (read_clock-Idles m, inr refl)
    ]

pub serve_interrupts-Reads :
    (env : Env) (m : Machine) → Returns (λ _ m'. Reads m m') (serve_interrupts env m)
unfolding serve_interrupts
serve_interrupts-Reads env m = elim (Bool-cases (env.switch_pressed m.trace)) [
  | inl hit ↦ rw hit (turn_on_off_system-Reads env m)
  | inr none ↦ rw none (Idles-refl m, inl refl)
]
