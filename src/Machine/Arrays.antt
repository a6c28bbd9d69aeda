-- ===== src/Machine/Arrays.antt =====
-- Invariants of a change of an element of an array: the rules that Machine.Invariant has for the
-- other operations. A place outside the array is a fault.
use freaky_camper_arduino.Base.{
  ℕ, ◌≡◌, refl, Bool-cases, inl, inr, List, Option, none, some, get_elem?, set, ltb, length,
  length-set, sizes-set,
}
use freaky_camper_arduino.Machine.State.{
  Machine, Outcome, done, fault, hang, M, ◌>>=◌, get, modify, set_comm, index, store,
}
use freaky_camper_arduino.Machine.Invariant.{Ends, Keeps, View, Over}

Ends-store :
    {A F : Type 0} (P : Machine → Type 0) (xs : List A) (i : ℕ) (x : A)
    (set_array : List A → M (Unit {0})) (m : Machine)
    → F
    → Ends F P (set_array (set xs i x) m)
    → Ends F P (store xs i x set_array m)
Ends-store P xs i x set_array m allowed h = elim (Bool-cases (ltb i (length xs))) [
  | inl e ↦ rw e h
  | inr e ↦ rw e allowed
]

-- The verdict on a fault is `allowed`.
module _ {F : Type 0} {L : View → Type 0} (allowed : F) where
  pub Keeps-put :
      (i v : ℕ)
      → Keeps F (Over L) (do
        tx ← get λ m. m.comm.tx_buffer
        store tx i v λ tx'. set_comm λ c. record c { tx_buffer = tx' })
  Keeps-put i v = record {
    at = λ m h.
        Ends-store (Over L) m.comm.tx_buffer i v (λ tx'. set_comm λ c. record c { tx_buffer = tx' })
          m allowed (record { holds = rw (length-set m.comm.tx_buffer i v) h.holds });
  }

  pub Keeps-store_current :
      (i v : ℕ)
      → Keeps F (Over L) (do
        currents ← get λ m. m.currents
        store currents i v λ cs. modify λ m. record m { currents = cs })
  Keeps-store_current i v = record {
    at = λ m h.
        Ends-store (Over L) m.currents i v (λ cs. modify λ m. record m { currents = cs }) m allowed
          (record { holds = rw (length-set m.currents i v) h.holds });
  }

  pub Keeps-store_tension :
      (i v : ℕ)
      → Keeps F (Over L) (do
        tensions ← get λ m. m.tensions
        store tensions i v λ ts. modify λ m. record m { tensions = ts })
  Keeps-store_tension i v = record {
    at = λ m h.
        Ends-store (Over L) m.tensions i v (λ ts. modify λ m. record m { tensions = ts }) m allowed
          (record { holds = rw (length-set m.tensions i v) h.holds });
  }

  pub Keeps-set_light_byte :
      (id column v : ℕ)
      → Keeps F (Over L) (do
        conf ← get λ m. m.lights_conf
        row ← index conf id
        store row column v
            λ row'. store conf id row' λ conf'. modify λ m. record m { lights_conf = conf' })
  Keeps-set_light_byte id column v = record { at = λ m h. go m h (get_elem? m.lights_conf id) refl }
    where
      go :
          (m : Machine)
          → Over L m
          → (o : Option (List ℕ)) → get_elem? m.lights_conf id ≡ o
          → Ends F
              (Over L)
              (elim (elim o as (λ _. Outcome (List ℕ)) [ some x ↦ done x m | none ↦ fault ])
                as (λ _. Outcome (Unit {0})) [
                  | done row m' ↦
                      store row column v
                        (λ row'.
                          store m.lights_conf id row'
                            λ conf'. modify λ m. record m { lights_conf = conf' })
                        m'
                  | fault ↦ fault
                  | hang ↦ hang
                ])
      go m h none e = allowed
      go m h (some row) e =
          let put_back : List (List ℕ) → M (Unit {0}) =
            λ conf'. modify λ m. record m { lights_conf = conf' } in
          Ends-store (Over L) row column v (λ row'. store m.lights_conf id row' put_back) m allowed
            (Ends-store (Over L) m.lights_conf id (set row column v) put_back m allowed
              (record { holds = rw (sizes-set m.lights_conf id row column v e) h.holds }))

pub ruleset array_rules =
    (Keeps-put, Keeps-store_current, Keeps-store_tension, Keeps-set_light_byte)
