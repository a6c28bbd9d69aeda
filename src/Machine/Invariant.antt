-- ===== src/Machine/Invariant.antt =====
-- Invariants of operations, one rule for each way to build an operation. An operation that hangs
-- keeps every invariant; for one that faults, the verdict is a parameter: `Unit` lets it fault, and
-- the empty type rules it out.
use freaky_camper_arduino.Base.{
  ℕ, zero, suc, ◌≡◌, Bool, true, false, if◌then◌else◌, List, ◌∷◌, Option, none, some, get_elem?,
  length, sizes,
}
use freaky_camper_arduino.Board.{Call}
use freaky_camper_arduino.Machine.Relays.{relay_levels, spares, spares-relay_levels}
use freaky_camper_arduino.Machine.State.{
  Machine, Webasto, Heater, HeaterState, Water, Link, Outcome, done, fault, hang, M, ◌>>=◌, return,
  skip, call, ask, get, set_webasto, set_heater, set_water, set_comm, for_range, index,
}

abbrev pub Ends : {A : Type 0} → Type 0 → (Machine → Type 0) → Outcome A → Type 0
Ends F P (done a m) = P m
Ends F P fault = F
Ends F P hang = Unit {0}

pub Ends-bind :
    {A B : Type 0} (F : Type 0) (P Q : Machine → Type 0) (x : M A) (f : A → M B) (m : Machine)
    → Ends F P (x m)
    → ((a : A) (m' : Machine) → P m' → Ends F Q (f a m'))
    → Ends F Q ((x >>= f) m)
Ends-bind {A} {B} F P Q x f m h k = go (x m) h
  where
    go :
        (o : Outcome A)
        → Ends F P o
        → Ends F Q (elim o [ done a m' ↦ f a m' | fault ↦ fault | hang ↦ hang ])
    go (done a m') q = k a m' q
    go fault q = q
    go hang q = tt

pub record Keeps {A : Type 0} (F : Type 0) (P : Machine → Type 0) (x : M A) : Type 0 where
  pub at : (m : Machine) → P m → Ends F P (x m)

module _ {F : Type 0} {P : Machine → Type 0} where
  pub Keeps-return : {A : Type 0} (a : A) → Keeps F P (return a)
  Keeps-return a = record { at = λ m h. h }

  pub Keeps-skip : Keeps F P skip
  Keeps-skip = record { at = λ m h. h }

  pub Keeps-get : {A : Type 0} (f : Machine → A) → Keeps F P (get f)
  Keeps-get f = record { at = λ m h. h }

  pub Keeps-if :
      {A : Type 0} (b : Bool) (x y : M A)
      → Keeps F P x
      → Keeps F P y
      → Keeps F P (if b then x else y)
  Keeps-if true x y h k = h
  Keeps-if false x y h k = k

  pub Keeps-bind :
      {A B : Type 0} (x : M A) (f : A → M B)
      → Keeps F P x
      → ((a : A) → Keeps F P (f a))
      → Keeps F P (x >>= f)
  Keeps-bind x f h k = record {
    at = λ m p. Ends-bind F P P x f m (h.at m p) (λ a m' q. (k a).at m' q);
  }

  pub Keeps-index : {A : Type 0} → F → (xs : List A) (i : ℕ) → Keeps F P (index xs i)
  Keeps-index {A} allowed xs i = record { at = λ m p. go m p (get_elem? xs i) }
    where
      go :
          (m : Machine)
          → P m
          → (o : Option A)
          → Ends F P (elim o as (λ _. Outcome A) [ some x ↦ done x m | none ↦ fault ])
      go m p (some x) = p
      go m p none = allowed

  pub Keeps-for_range :
      (n i : ℕ) (body : ℕ → M (Unit {0}))
      → ((j : ℕ) → Keeps F P (body j))
      → Keeps F P (for_range n i body)
  Keeps-for_range zero i body h = record { at = λ m p. p }
  Keeps-for_range (suc n) i body h =
      let k =
        Keeps-bind (body i) (λ _. for_range n (suc i) body) (h i)
          (λ _. Keeps-for_range n (suc i) body h) in
      record { at = k.at }

pub ruleset flow_rules =
    (Keeps-return, Keeps-skip, Keeps-get, Keeps-if, Keeps-bind, Keeps-index, Keeps-for_range)

-- What the invariants are about: the receiver's variables, the watchdog, the receive buffer, the
-- sizes of the other arrays, the heater's actual state and the levels of the relays.
pub record View : Type 0 where
  pub link : Link
  pub watchdog : ℕ
  pub rx_buffer : List ℕ
  pub tx_size : ℕ
  pub currents_size : ℕ
  pub tensions_size : ℕ
  pub columns : List ℕ  -- of each row of `lights_conf`
  pub actual_state : HeaterState
  pub relays : List (Option Bool)

abbrev pub view : Machine → View
view m = record {
  link = m.link;
  watchdog = m.comm.watchdog;
  rx_buffer = m.comm.rx_buffer;
  tx_size = length m.comm.tx_buffer;
  currents_size = length m.currents;
  tensions_size = length m.tensions;
  columns = sizes m.lights_conf;
  actual_state = m.heater.actual_state;
  relays = relay_levels m.trace;
}

pub record Over (L : View → Type 0) (m : Machine) : Type 0 where
  pub holds : L (view m)

-- The relays do not matter.
pub record Blind (L : View → Type 0) : Type 0 where
  pub at : (v : View) (r : List (Option Bool)) → L v → L (record v { relays = r })

module _ {F : Type 0} {L : View → Type 0} where
  -- A call that drives no relay.
  pub Keeps-call : (c : Call) → spares c ≡ true → Keeps F (Over L) (call c)
  Keeps-call c e = record {
    at = λ m h. record { holds = rw (spares-relay_levels c m.trace e) h.holds };
  }

  pub Keeps-ask :
      {A : Type 0} (c : Call) (f : List Call → A) → spares c ≡ true → Keeps F (Over L) (ask c f)
  Keeps-ask c f e = record {
    at = λ m h. record { holds = rw (spares-relay_levels c m.trace e) h.holds };
  }

  -- Any call, for an invariant that leaves the relays open.
  pub Keeps-any_call : Blind L → (c : Call) → Keeps F (Over L) (call c)
  Keeps-any_call blind c = record {
    at = λ m h. record { holds = blind.at (view m) (relay_levels (c ∷ m.trace)) h.holds };
  }

  pub Keeps-set_webasto : (f : Webasto → Webasto) → Keeps F (Over L) (set_webasto f)
  Keeps-set_webasto f = record { at = λ m h. record { holds = h.holds } }

  -- A change of the heater's other variables.
  pub Keeps-set_heater :
      (f : Heater → Heater)
      → ((h : Heater) → (f h).actual_state ≡ h.actual_state)
      → Keeps F (Over L) (set_heater f)
  Keeps-set_heater f e = record { at = λ m h. record { holds = rw (e m.heater) h.holds } }

  pub Keeps-set_water : (f : Water → Water) → Keeps F (Over L) (set_water f)
  Keeps-set_water f = record { at = λ m h. record { holds = h.holds } }

  pub Keeps-reset_watchdog :
      ((v : View) → L v → L (record v { watchdog = 0 }))
      → Keeps F (Over L) (set_comm λ c. record c { watchdog = 0 })
  Keeps-reset_watchdog k = record { at = λ m h. record { holds = k (view m) h.holds } }

pub ruleset board_rules =
    (Keeps-call, Keeps-ask, Keeps-set_webasto, Keeps-set_heater, Keeps-set_water)
