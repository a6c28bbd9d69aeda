-- ===== src/Manager/Rounds.antt =====
-- What keeps a round of the main loop from an access outside an array.
use freaky_camper_arduino.Base.{
  ℕ, ◌+◌, ◌%◌, ◌≤◌, ◌<◌, ◌≡◌, inl, inr, refl, ap, sym, subst, ◌==◌, ◌&&◌, ltb, Bool, Bool-cases,
  true, false, if◌then◌else◌, some, List, [], ◌∷◌, length, get_elem?, get_elem?_split, sizes,
  length-sizes, arith,
}
use freaky_camper_arduino.Board.{Env, Call, usb_task, adk_is_ready}
use freaky_camper_arduino.Machine.{Machine, Link, skip, Ends, Ends-bind, Over, Anything}
use freaky_camper_arduino.Protocol.{process_received_command, prot_header, prot_footer}
use freaky_camper_arduino.Manager.{
  got_header, got_footer, got_data, got_byte, freaky_camp_manager_loop,
}
use freaky_camper_arduino.Manager.Sized.{IsSized}
use freaky_camper_arduino.Manager.Guarded.{process_received_command-Safe}
use freaky_camper_arduino.Manager.Interrupted.{polled, TakesNone, loop-Takes, loop-TakesNone}

-- A message of one byte has one.
pub record HasMessages (env : Env) : Type 0 where
  pub filled : (t : List Call) → (env.reception t).len ≡ 1 → 0 < length (env.reception t).msg

-- The next footer byte completes a telecommand of seven bytes at least.
pub record Completes (l : Link) : Type 0 where
  pub ready : l.ready_for_datas ≡ true
  pub footers : l.footer_count ≡ 3
  pub long : 7 ≤ l.rx_counter

-- What keeps a round from an access outside an array.
pub record IsGuarded (m : Machine) : Type 0 where
  pub sized : IsSized m.heater m.water m
  pub table : sizes m.lights_conf ≡ 9 ∷ 9 ∷ 9 ∷ []
  pub enough : 7 ≤ length m.comm.rx_buffer
  pub room : (m.link.ready_for_datas ≡ true) → m.link.rx_counter < length m.comm.rx_buffer
  pub code : ℕ
  pub has_code : get_elem? m.comm.rx_buffer 0 ≡ some code
  pub id : ℕ
  pub has_id : get_elem? m.comm.rx_buffer 2 ≡ some id
  pub few : m.link.footer_count < 4
  pub within : Completes m.link → code ≡ 13 → id < 3

module _ (env : Env) where
  process-Ends :
      (m : Machine) (l : Link)
      → m.link.ready_for_datas ≡ true
      → m.link.footer_count ≡ 3
      → IsGuarded m
      → Ends ⊥
          (Over Anything)
          (process_received_command env m.link.rx_counter (record m { link = l }))
  process-Ends m l ready footers g =
      let rows : length m.lights_conf ≡ 3 =
        omega (arith, ap length g.table, length-sizes m.lights_conf) in
      (process_received_command-Safe {bytes = m.comm.rx_buffer} {conf = m.lights_conf}
          {h = m.heater} {w = m.water} env g.enough g.table m.link.rx_counter g.code g.id g.has_code
          g.has_id
          (λ long e.
            let k = g.within (record { ready = ready; footers = footers; long = long }) e in
            omega arith)).at
        (record m { link = l })
        (record {
          rx_bytes = refl;
          lights = refl;
          sized = record {
            currents_size = g.sized.currents_size;
            tensions_size = g.sized.tensions_size;
            tx_size = g.sized.tx_size;
            same_heater = refl;
            same_water = refl;
          };
        })

  got_footer-Ends :
      (m : Machine)
      → m.link.ready_for_datas ≡ true
      → IsGuarded m
      → Ends ⊥ (Over Anything) (got_footer env m)
  unfolding got_footer
  got_footer-Ends m ready g = elim (Bool-cases ((m.link.footer_count + 1) % 256 == 4)) [
    | inl t ↦ rw t (
        Ends-bind ⊥ (Over Anything) (Over Anything) (process_received_command env _) _ _
          (process-Ends m _ ready (ground (arith, t, g.few)) g) λ _ n q. record { holds = tt })
    | inr f ↦ rw f (record { holds = tt })
  ]

  got_data-Ends :
      (b : ℕ) (m : Machine)
      → m.link.rx_counter < length m.comm.rx_buffer
      → Ends ⊥ (Over Anything) (got_data b m)
  unfolding got_data
  got_data-Ends b m k =
      let e : ltb m.link.rx_counter (length m.comm.rx_buffer) ≡ true = ground arith in
      rw e (record { holds = tt })

  got_header-Ends : (m : Machine) → Ends ⊥ (Over Anything) (got_header m)
  unfolding got_header
  got_header-Ends m = record { holds = tt }

  -- The choice of `got_byte`.
  chosen-Ends :
      (b : ℕ) (header footer ready : Bool) (m : Machine)
      → m.link.ready_for_datas ≡ ready
      → IsGuarded m
      → Ends ⊥ (Over Anything) (
          (if header
              then got_header
              else if ready && footer
              then got_footer env
              else if ready
              then got_data b
              else skip)
            m)
  chosen-Ends b true footer ready m e g = got_header-Ends m
  chosen-Ends b false true true m e g = got_footer-Ends m e g
  chosen-Ends b false false true m e g = got_data-Ends b m (g.room e)
  chosen-Ends b false footer false m e g = record { holds = tt }

  got_byte-Ends : (b : ℕ) (m : Machine) → IsGuarded m → Ends ⊥ (Over Anything) (got_byte env b m)
  unfolding got_byte
  got_byte-Ends b m g =
      chosen-Ends b (b == prot_header) (b == prot_footer) m.link.ready_for_datas m refl g

  polled-IsGuarded : (m : Machine) → IsGuarded m → IsGuarded (polled m)
  polled-IsGuarded m g = record {
    sized = record {
      currents_size = g.sized.currents_size;
      tensions_size = g.sized.tensions_size;
      tx_size = g.sized.tx_size;
      same_heater = refl;
      same_water = refl;
    };
    table = g.table;
    enough = g.enough;
    room = g.room;
    code = g.code;
    has_code = g.has_code;
    id = g.id;
    has_id = g.has_id;
    few = g.few;
    within = g.within;
  }

  idle-Ends :
      (m : Machine) → TakesNone env m → Ends ⊥ (Over Anything) (freaky_camp_manager_loop env m)
  idle-Ends m t =
      let (trace, e) = loop-TakesNone env m t in
      subst (Ends ⊥ (Over Anything)) (sym e) (record { holds = tt })

  pub loop-Ends :
      (m : Machine)
      → HasMessages env
      → IsGuarded m
      → Ends ⊥ (Over Anything) (freaky_camp_manager_loop env m)
  loop-Ends m messages g = elim (Bool-cases (env.adk_ready (usb_task ∷ m.trace))) [
    | inr otherwise ↦ idle-Ends m (inl otherwise)
    | inl ready ↦
        let r = env.reception (adk_is_ready ∷ usb_task ∷ m.trace) in
        elim (Bool-cases (r.len == 1)) [
          | inr otherwise ↦ idle-Ends m (inr otherwise)
          | inl single_byte ↦
              let single : r.len ≡ 1 = ground (arith, single_byte) in
              let (b, first, _) = get_elem?_split 0 r.msg (messages.filled _ single) in
              subst (Ends ⊥ (Over Anything))
                (sym
                  (loop-Takes env m b (record { ready = ready; single = single; first = first })))
                (Ends-bind ⊥ (Over Anything) (Over Anything) (got_byte env b) _ (polled m)
                  (got_byte-Ends b (polled m) (polled-IsGuarded m g))
                  λ _ n q. record { holds = tt })
        ]
  ]
