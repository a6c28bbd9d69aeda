-- ===== src/Manager/Thread/Coarse.antt =====
-- A round of the main loop that nothing interrupts is a run of its accesses.
use freaky_camper_arduino.Base.{
  ℕ, ◌+◌, ◌%◌, ◌≡◌, ltb, ◌==◌, ◌&&◌, if◌then◌else◌, refl, sym, subst, Bool, Bool-cases, inl, inr,
  true, false, Option, some, none, List, [], ◌∷◌, ◌++◌, length, get_elem?, arith,
}
use freaky_camper_arduino.Board.{Env, usb_task, adk_is_ready, delay}
use freaky_camper_arduino.Machine.{Machine, Outcome, done, fault, hang, call, skip, Ends}
use freaky_camper_arduino.Protocol.{prot_header, prot_footer, process_received_command}
use freaky_camper_arduino.Manager.{
  got_header, got_footer, got_data, got_byte, freaky_camp_manager_loop,
}
use freaky_camper_arduino.Manager.Interrupted.{polled, loop-Takes}
use freaky_camper_arduino.Manager.Thread.{Pc, Move, Event, Run, stay, move}

-- The events are left open.
pub record Lands (env : Env) (m : Machine) (pc pc' : Pc) (m' : Machine) : Type 0 where
  pub events : List Event
  pub run : Run env m pc events m' pc'

module _ (env : Env) where
  pub Run-append :
      (m m' m'' : Machine) (pc pc' pc'' : Pc) (es es' : List Event)
      → Run env m pc es m' pc'
      → Run env m' pc' es' m'' pc''
      → Run env m pc (es ++ es') m'' pc''
  Run-append m m' m'' pc pc' pc'' es es' Run.stay r' = r'
  Run-append m m' m'' pc pc' pc'' es es' (Run.move s r) r' =
      Run.move s (Run-append _ m' m'' _ pc' pc'' es es' r r')
  Run-append m m' m'' pc pc' pc'' es es' (Run.take_byte {es = fs} l e r) r' =
      Run.take_byte l e (Run-append _ m' m'' _ pc' pc'' fs es' r r')
  Run-append m m' m'' pc pc' pc'' es es' (Run.execute {es = fs} e r) r' =
      Run.execute e (Run-append _ m' m'' _ pc' pc'' fs es' r r')
  Run-append m m' m'' pc pc' pc'' es es' (Run.interrupt i r) r' =
      Run.interrupt i (Run-append _ m' m'' _ pc' pc'' es es' r r')

  -- A run before an operation that is a run.
  before :
      (m n : Machine) (pc pc' pc'' : Pc) (es : List Event) (o : Outcome (Unit {0}))
      → Run env m pc es n pc'
      → Ends (Unit {0}) (Lands env n pc' pc'') o
      → Ends (Unit {0}) (Lands env m pc pc'') o
  before m n pc pc' pc'' es (done tt m') r h = record {
    events = es ++ h.events;
    run = Run-append m n m' pc pc' pc'' es h.events r h.run;
  }
  before m n pc pc' pc'' es fault r h = tt
  before m n pc pc' pc'' es hang r h = tt

  -- By the two tests.
  header_moves :
      (low ready : Bool) (m : Machine)
      → ltb m.link.header_count 4 ≡ low
      → m.link.ready_for_datas ≡ ready
      → Lands env m Pc.header_found Pc.waiting (record m {
        link =
            let count = (if low then m.link.header_count + 1 else m.link.header_count) in
            record {
              footer_count = 0;
              header_count = count;
              rx_counter = if ready then 0 else m.link.rx_counter;
              ready_for_datas = count == 4;
            };
      })
  header_moves low ready m e f = record { events = []; run = move Move.no_footers (counts low e) }
    where
      restarts :
          (ready : Bool) (n : Machine)
          → n.link.ready_for_datas ≡ ready
          → Run env n Pc.header_restart []
              (record n {
                link = record n.link {
                  rx_counter = if ready then 0 else n.link.rx_counter;
                  ready_for_datas = n.link.header_count == 4;
                };
              })
              Pc.waiting
      restarts true n f =
          move (Move.restarts f)
            (move Move.reset_counter (move Move.test_header (move Move.store_ready stay)))
      restarts false n f = move (Move.starts f) (move Move.test_header (move Move.store_ready stay))

      counts :
          (low : Bool)
          → ltb m.link.header_count 4 ≡ low
          → Run env
              (record m { link = record m.link { footer_count = 0 } })
              Pc.header_limit
              []
              (record m {
                link =
                    let count = (if low then m.link.header_count + 1 else m.link.header_count) in
                    record {
                      footer_count = 0;
                      header_count = count;
                      rx_counter = if ready then 0 else m.link.rx_counter;
                      ready_for_datas = count == 4;
                    };
              })
              Pc.waiting
      counts true e =
          move (Move.below e) (move Move.load_header (move Move.store_header (restarts ready _ f)))
      counts false e = move (Move.enough e) (restarts ready _ f)

  header-Run :
      (m : Machine) → Ends (Unit {0}) (Lands env m Pc.header_found Pc.waiting) (got_header m)
  unfolding got_header
  header-Run m = header_moves (ltb m.link.header_count 4) m.link.ready_for_datas m refl refl

  data-Run :
      (b : ℕ) (m : Machine)
      → Ends (Unit {0}) (Lands env m (Pc.data_found b) Pc.waiting) (got_data b m)
  unfolding got_data
  data-Run b m = elim (Bool-cases (ltb m.link.rx_counter (length m.comm.rx_buffer))) [
    | inl room ↦ rw room (record {
      events = [];
      run =
          move Move.load_counter
            (move Move.store_counter (move (Move.store_data (ground (arith, room))) stay));
    })
    | inr full ↦ rw full tt
  ]

  -- The fourth footer byte, whose command has come to the outcome.
  last_footer :
      (n : ℕ) (m : Machine) (o : Outcome (Unit {0}))
      → process_received_command env n m ≡ o
      → Ends (Unit {0}) (Lands env m (Pc.executing n) Pc.waiting) (elim o [
        | done _ m' ↦ done tt (record m' {
          link = record m'.link { footer_count = 0; ready_for_datas = false; rx_counter = 0 };
          comm = record m'.comm { watchdog = 0 };
        })
        | fault ↦ fault
        | hang ↦ hang
      ])
  last_footer n m (done tt m') e = record {
    events = _;
    run = Run.execute e (
        move Move.clear_watchdog
          (move Move.clear_footer (move Move.clear_ready (move Move.clear_counter stay))));
  }
  last_footer n m fault e = tt
  last_footer n m hang e = tt

  footer-Run :
      (m : Machine) → Ends (Unit {0}) (Lands env m Pc.footer_found Pc.waiting) (got_footer env m)
  unfolding got_footer
  footer-Run m = elim (Bool-cases ((m.link.footer_count + 1) % 256 == 4)) [
    | inl last ↦ rw last (
        before m _ Pc.footer_found (Pc.executing m.link.rx_counter) Pc.waiting [] _
          (move Move.load_footer (
            move Move.store_footer
              (move Move.no_headers (move (Move.is_last last) (move Move.load_count stay)))))
          (last_footer m.link.rx_counter _ _ refl))
    | inr more ↦ rw more (record {
      events = [];
      run =
          move Move.load_footer
            (move Move.store_footer (move Move.no_headers (move (Move.not_last more) stay)));
    })
  ]

  chosen-Run :
      (b : ℕ) (header footer ready : Bool) (m : Machine)
      → (b == prot_header) ≡ header
      → (b == prot_footer) ≡ footer
      → m.link.ready_for_datas ≡ ready
      → Ends (Unit {0}) (Lands env m (Pc.took b) Pc.waiting) (
          (if header
              then got_header
              else if ready && footer
              then got_footer env
              else if ready
              then got_data b
              else skip)
            m)
  chosen-Run b true footer ready m h f r =
      before m m _ _ _ [] _ (move (Move.is_header h) stay) (header-Run m)
  chosen-Run b false true true m h f r =
      before m m _ _ _ [] _ (move (Move.is_footer h (ground (arith, r, f))) stay) (footer-Run m)
  chosen-Run b false false true m h f r =
      before m m _ _ _ [] _
        (move (Move.is_other h (ground (arith, r, f))) (move (Move.is_data r) stay)) (data-Run b m)
  chosen-Run b false footer false m h f r = record {
    events = [];
    run = move (Move.is_other h (ground (arith, r))) (move (Move.is_noise r) stay);
  }

  byte-Run :
      (b : ℕ) (m : Machine)
      → Ends (Unit {0}) (Lands env m (Pc.took b) Pc.waiting) (got_byte env b m)
  unfolding got_byte
  byte-Run b m =
      chosen-Run b (b == prot_header) (b == prot_footer) m.link.ready_for_datas m refl refl refl

  then_pause :
      (m : Machine) (pc : Pc) (o : Outcome (Unit {0}))
      → Ends (Unit {0}) (Lands env m pc Pc.waiting) o
      → Ends
          (Unit {0})
          (Lands env m pc Pc.top)
          (elim o [ done _ m' ↦ call (delay 25) m' | fault ↦ fault | hang ↦ hang ])
  then_pause m pc (done tt m') h = record {
    events = h.events ++ [];
    run = Run-append m m' _ pc Pc.waiting Pc.top h.events [] h.run (move Move.pause stay);
  }
  then_pause m pc fault h = tt
  then_pause m pc hang h = tt

  pub freaky_camp_manager_loop-Lands :
      (m : Machine) → Ends (Unit {0}) (Lands env m Pc.top Pc.top) (freaky_camp_manager_loop env m)
  unfolding freaky_camp_manager_loop
  freaky_camp_manager_loop-Lands m =
      let r = env.reception (adk_is_ready ∷ usb_task ∷ m.trace) in
      elim (Bool-cases (env.adk_ready (usb_task ∷ m.trace))) [
        | inr absent ↦
            rw absent
              (record { events = []; run = move Move.poll (move (Move.not_ready absent) stay) })
        | inl present ↦ elim (Bool-cases (r.len == 1)) [
          | inr none_sent ↦
              rw (present, none_sent)
                (record {
                  events = [];
                  run = move Move.poll (
                      move (Move.is_ready present)
                        (move (Move.no_byte none_sent) (move Move.pause stay)));
                })
          | inl single ↦ first present single (get_elem? r.msg 0) refl
        ]
      ]
    where
      first :
          env.adk_ready (usb_task ∷ m.trace) ≡ true
          → ((env.reception (adk_is_ready ∷ usb_task ∷ m.trace)).len == 1) ≡ true
          → (o : Option ℕ) → get_elem? (env.reception (adk_is_ready ∷ usb_task ∷ m.trace)).msg 0 ≡ o
          → Ends (Unit {0}) (Lands env m Pc.top Pc.top) (freaky_camp_manager_loop env m)
      first present single none e =
          let q : freaky_camp_manager_loop env m ≡ fault = ground (arith, present, single, e) in
          subst (Ends (Unit {0}) (Lands env m Pc.top Pc.top)) (sym q) tt
      first present single (some b) e =
          let one : (env.reception (adk_is_ready ∷ usb_task ∷ m.trace)).len ≡ 1 =
            ground (arith, single) in
          subst (Ends (Unit {0}) (Lands env m Pc.top Pc.top))
            (sym (loop-Takes env m b (record { ready = present; single = one; first = e })))
            (then_pause m Pc.top (got_byte env b (polled m)) (
              before m (polled m) Pc.top (Pc.took b) Pc.waiting _ (got_byte env b (polled m))
                (move Move.poll (move (Move.is_ready present) (Run.take_byte one e stay)))
                (byte-Run b (polled m))))
