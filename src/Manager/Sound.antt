-- ===== src/Manager/Sound.antt =====
-- The invariant of the frame receiver, the watchdog and the heater's state, kept by the main loop and by the service
-- of the timer.
use freaky_camper_arduino.Base.{
  ℕ, ◌+◌, ◌%◌, ◌≤◌, ◌<◌, ◌≡◌, refl, ◌⊎◌, inl, inr, ltb, ◌==◌, ◌&&◌, if◌then◌else◌, Bool, true,
  false, Bool-cases, length, length-set, arith,
}
use freaky_camper_arduino.Board.{Env}
use freaky_camper_arduino.Machine.{
  Machine, View, ◌>>◌, skip, set_link, set_comm, Ends, Ends-bind, Keeps, Blind, Over, flow_rules,
  board_rules,
}
use freaky_camper_arduino.Protocol.{prot_header, prot_footer, process_received_command}
use freaky_camper_arduino.Protocol.Apart.{process_received_command-Keeps}
use freaky_camper_arduino.Manager.{
  got_header, got_footer, got_data, got_byte, freaky_camp_manager_loop, tick_watchdog,
}
use freaky_camper_arduino.Manager.Watchdog.{tick_watchdog_lem}

-- Between two bytes: at most four header bytes and less than four footer bytes are counted, data
-- are counted only while they are expected, the watchdog is at most five, and the sizes of the arrays
-- and the heater's actual state are those of `s`.
pub record IsSound (s : View) (v : View) : Type 0 where
  pub headers : v.link.header_count ≤ 4
  pub footers : v.link.footer_count < 4
  pub counted : (v.link.ready_for_datas ≡ true) ⊎ (v.link.rx_counter ≡ 0)
  pub in_byte : v.link.rx_counter < 256
  pub fresh : v.watchdog ≤ 5
  pub rx_size : length v.rx_buffer ≡ length s.rx_buffer
  pub same_tx : v.tx_size ≡ s.tx_size
  pub same_currents : v.currents_size ≡ s.currents_size
  pub same_tensions : v.tensions_size ≡ s.tensions_size
  pub same_columns : v.columns ≡ s.columns
  pub same_state : v.actual_state ≡ s.actual_state

-- With the fourth footer byte counted, while the command is executed.
record IsComplete (s : View) (v : View) : Type 0 where
  headers : v.link.header_count ≤ 4
  fresh : v.watchdog ≤ 5
  rx_size : length v.rx_buffer ≡ length s.rx_buffer
  same_tx : v.tx_size ≡ s.tx_size
  same_currents : v.currents_size ≡ s.currents_size
  same_tensions : v.tensions_size ≡ s.tensions_size
  same_columns : v.columns ≡ s.columns
  same_state : v.actual_state ≡ s.actual_state

module _ (s : View) where
  got_header-IsSound :
      (m : Machine) → Over (IsSound s) m → Ends (Unit {0}) (Over (IsSound s)) (got_header m)
  unfolding got_header
  got_header-IsSound m h = record { holds = ground (arith, h.holds) }

  got_data-IsSound :
      (b : ℕ) (m : Machine)
      → m.link.ready_for_datas ≡ true
      → Over (IsSound s) m
      → Ends (Unit {0}) (Over (IsSound s)) (got_data b m)
  unfolding got_data
  got_data-IsSound b m e h = elim (Bool-cases (ltb m.link.rx_counter (length m.comm.rx_buffer))) [
    | inl t ↦ rw t (record {
      holds = ground (arith, h.holds, length-set m.comm.rx_buffer m.link.rx_counter b);
    })
    | inr f ↦ rw f tt
  ]

  executed-IsSound :
      (env : Env) (n : ℕ) (m : Machine)
      → Over (IsComplete s) m
      → Ends (Unit {0}) (Over (IsSound s)) (
          (do
            process_received_command env n
            set_comm λ c. record c { watchdog = 0 }
            set_link λ l. record l { footer_count = 0; ready_for_datas = false; rx_counter = 0 })
            m)
  executed-IsSound env n m h =
      Ends-bind (Unit {0}) (Over (IsComplete s)) (Over (IsSound s)) (process_received_command env n)
        _ m ((process_received_command-Keeps tt reset blind env n).at m h)
        λ _ m' g. record { holds = ground (arith, g.holds) }
    where
      blind : Blind (IsComplete s)
      blind = record { at = λ v r g. ground arith }

      reset : (v : View) → IsComplete s v → IsComplete s (record v { watchdog = 0 })
      reset v g = ground arith

  got_footer-IsSound :
      (env : Env) (m : Machine)
      → Over (IsSound s) m
      → Ends (Unit {0}) (Over (IsSound s)) (got_footer env m)
  unfolding got_footer
  got_footer-IsSound env m h = elim (Bool-cases ((m.link.footer_count + 1) % 256 == 4)) [
    | inl t ↦ rw t (executed-IsSound env _ _ (record { holds = ground (arith, h.holds) }))
    | inr f ↦ rw f (record { holds = ground (arith, h.holds) })
  ]

  -- The choice of `got_byte`, by its two tests and by whether data are expected.
  chosen-IsSound :
      (env : Env) (b : ℕ) (header footer ready : Bool) (m : Machine)
      → m.link.ready_for_datas ≡ ready
      → Over (IsSound s) m
      → Ends (Unit {0}) (Over (IsSound s)) (
          (if header
              then got_header
              else if ready && footer
              then got_footer env
              else if ready
              then got_data b
              else skip)
            m)
  chosen-IsSound env b true footer ready m e h = got_header-IsSound m h
  chosen-IsSound env b false true true m e h = got_footer-IsSound env m h
  chosen-IsSound env b false false true m e h = got_data-IsSound b m e h
  chosen-IsSound env b false footer false m e h = h

  -- Whatever byte comes, the receiver keeps its invariant.
  pub got_byte-IsSound : (env : Env) (b : ℕ) → Keeps (Unit {0}) (Over (IsSound s)) (got_byte env b)
  unfolding got_byte
  got_byte-IsSound env b = record {
    at = λ m h.
        chosen-IsSound env b (b == prot_header) (b == prot_footer) m.link.ready_for_datas m refl h;
  }

  pub freaky_camp_manager_loop-IsSound :
      (env : Env) → Keeps (Unit {0}) (Over (IsSound s)) (freaky_camp_manager_loop env)
  unfolding freaky_camp_manager_loop
  freaky_camp_manager_loop-IsSound env = search (flow_rules, board_rules, got_byte-IsSound) depth 30

  pub tick_watchdog-IsSound : Keeps (Unit {0}) (Over (IsSound s)) tick_watchdog
  tick_watchdog-IsSound = record {
    at = λ m h. rw (tick_watchdog_lem m h.holds.fresh) (record { holds = ground (arith, h.holds) });
  }
