-- ===== src/Manager/Thread.antt =====
-- freakyCampManagerLoop, an access to a shared variable or a call at a time. An interrupt can come
-- before each. A telecommand is executed at once.
pub mod Decoder
pub mod Simulation
pub mod Session
pub mod Coarse
pub mod Embedding
pub mod Steady
pub mod Placing
pub mod Lines
use freaky_camper_arduino.Base.{
  ℕ, ◌+◌, ◌%◌, ◌≡◌, ◌<◌, ltb, ◌==◌, ◌&&◌, true, false, some, List, [], ◌∷◌, length, get_elem?, set,
  take,
}
use freaky_camper_arduino.Board.{Env, usb_task, adk_is_ready, adk_rcv_data, delay}
use freaky_camper_arduino.Machine.{Machine, done}
use freaky_camper_arduino.Protocol.{
  prot_header, prot_footer, prot_repeat_header, process_received_command,
}
use freaky_camper_arduino.Manager.Interleaving.{Interrupt}

-- What the main loop does next, with the local variables that are live there.
pub data Pc : Type 0 where
  top : Pc  -- Usb.Task
  asking : Pc  -- adk.isReady
  fetching : Pc  -- adk.RcvData
  took : (b : ℕ) → Pc  -- the tests of msg[0]
  other : (b : ℕ) → Pc  -- the last of them
  header_found : Pc  -- footerCount = 0
  header_limit : Pc  -- headerCount < PROT_REPEAT_HEADER
  header_load : Pc  -- headerCount++
  header_raise : (n : ℕ) → Pc
  header_restart : Pc  -- if (readyForDatas)
  header_reset : Pc  -- rxCounter = 0
  header_test : Pc  -- headerCount == PROT_REPEAT_HEADER
  header_ready : (n : ℕ) → Pc  -- readyForDatas =
  footer_found : Pc  -- footerCount++
  footer_raise : (n : ℕ) → Pc
  footer_clear : Pc  -- headerCount = 0
  footer_test : Pc  -- footerCount == PROT_REPEAT_HEADER
  footer_count : Pc  -- the argument of processReceivedCommand
  executing : (n : ℕ) → Pc
  end_watchdog : Pc  -- watchdog = 0
  end_footer : Pc  -- footerCount = 0
  end_ready : Pc  -- readyForDatas = false
  end_counter : Pc  -- rxCounter = 0
  data_found : (b : ℕ) → Pc  -- rxCounter++
  data_raise : (n b : ℕ) → Pc
  data_store : (n b : ℕ) → Pc  -- rxBuffer[n] = b
  waiting : Pc  -- delay

-- A step that takes no byte and executes nothing.
pub data Move (env : Env) (m : Machine) : Pc → Machine → Pc → Type 0 where
  poll : Move env m top (record m { trace = usb_task ∷ m.trace }) asking
  not_ready :
      env.adk_ready m.trace ≡ false
      → Move env m asking (record m { trace = adk_is_ready ∷ m.trace }) top
  is_ready :
      env.adk_ready m.trace ≡ true
      → Move env m asking (record m { trace = adk_is_ready ∷ m.trace }) fetching
  no_byte :
      ((env.reception m.trace).len == 1) ≡ false
      → Move env m fetching (record m { trace = adk_rcv_data ∷ m.trace }) waiting
  is_header : {b : ℕ} → (b == prot_header) ≡ true → Move env m (took b) m header_found
  is_footer :
      {b : ℕ}
      → (b == prot_header) ≡ false
      → (m.link.ready_for_datas && b == prot_footer) ≡ true
      → Move env m (took b) m footer_found
  is_other :
      {b : ℕ}
      → (b == prot_header) ≡ false
      → (m.link.ready_for_datas && b == prot_footer) ≡ false
      → Move env m (took b) m (other b)
  is_data : {b : ℕ} → m.link.ready_for_datas ≡ true → Move env m (other b) m (data_found b)
  is_noise : {b : ℕ} → m.link.ready_for_datas ≡ false → Move env m (other b) m waiting
  no_footers :
      Move env m header_found (record m { link = record m.link { footer_count = 0 } }) header_limit
  below : ltb m.link.header_count prot_repeat_header ≡ true → Move env m header_limit m header_load
  enough :
      ltb m.link.header_count prot_repeat_header ≡ false → Move env m header_limit m header_restart
  load_header : Move env m header_load m (header_raise m.link.header_count)
  store_header :
      {n : ℕ}
      → Move env m
          (header_raise n)
          (record m { link = record m.link { header_count = n + 1 } })
          header_restart
  restarts : m.link.ready_for_datas ≡ true → Move env m header_restart m header_reset
  starts : m.link.ready_for_datas ≡ false → Move env m header_restart m header_test
  reset_counter :
      Move env m header_reset (record m { link = record m.link { rx_counter = 0 } }) header_test
  test_header : Move env m header_test m (header_ready m.link.header_count)
  store_ready :
      {n : ℕ}
      → Move env m
          (header_ready n)
          (record m { link = record m.link { ready_for_datas = n == prot_repeat_header } })
          waiting
  load_footer : Move env m footer_found m (footer_raise m.link.footer_count)
  store_footer :
      {n : ℕ}
      → Move env m
          (footer_raise n)
          (record m { link = record m.link { footer_count = (n + 1) % 256 } })
          footer_clear
  no_headers :
      Move env m footer_clear (record m { link = record m.link { header_count = 0 } }) footer_test
  is_last :
      (m.link.footer_count == prot_repeat_header) ≡ true → Move env m footer_test m footer_count
  not_last : (m.link.footer_count == prot_repeat_header) ≡ false → Move env m footer_test m waiting
  load_count : Move env m footer_count m (executing m.link.rx_counter)
  clear_watchdog :
      Move env m end_watchdog (record m { comm = record m.comm { watchdog = 0 } }) end_footer
  clear_footer :
      Move env m end_footer (record m { link = record m.link { footer_count = 0 } }) end_ready
  clear_ready :
      Move env m end_ready
        (record m { link = record m.link { ready_for_datas = false } })
        end_counter
  clear_counter :
      Move env m end_counter (record m { link = record m.link { rx_counter = 0 } }) waiting
  load_counter : {b : ℕ} → Move env m (data_found b) m (data_raise m.link.rx_counter b)
  store_counter :
      {n b : ℕ}
      → Move env m
          (data_raise n b)
          (record m { link = record m.link { rx_counter = (n + 1) % 256 } })
          (data_store n b)
  store_data :
      {n b : ℕ}
      → n < length m.comm.rx_buffer
      → Move env m
          (data_store n b)
          (record m { comm = record m.comm { rx_buffer = set m.comm.rx_buffer n b } })
          waiting
  pause : Move env m waiting (record m { trace = delay 25 ∷ m.trace }) top

-- What the program takes from the tablet, and what it executes.
pub data Event : Type 0 where
  received : (b : ℕ) → Event
  ran : (payload : List ℕ) → Event

-- The main loop at `pc` and the interrupts, in any order, with the events on the way.
pub data Run (env : Env) : Machine → Pc → List Event → Machine → Pc → Type 0 where
  stay : {m : Machine} {pc : Pc} → Run env m pc [] m pc
  move :
      {m m' m'' : Machine} {pc pc' pc'' : Pc} {es : List Event}
      → Move env m pc m' pc'
      → Run env m' pc' es m'' pc''
      → Run env m pc es m'' pc''
  take_byte :
      {m m' : Machine} {pc : Pc} {es : List Event} {b : ℕ}
      → (env.reception m.trace).len ≡ 1
      → get_elem? (env.reception m.trace).msg 0 ≡ some b
      → Run env (record m { trace = adk_rcv_data ∷ m.trace }) (took b) es m' pc
      → Run env m fetching (received b ∷ es) m' pc
  execute :
      {m m' m'' : Machine} {n : ℕ} {pc : Pc} {es : List Event}
      → process_received_command env n m ≡ done tt m'
      → Run env m' end_watchdog es m'' pc
      → Run env m (executing n) (ran (take n m.comm.rx_buffer) ∷ es) m'' pc
  interrupt :
      {m m' m'' : Machine} {pc pc' : Pc} {es : List Event}
      → Interrupt env m m'
      → Run env m' pc es m'' pc'
      → Run env m pc es m'' pc'
