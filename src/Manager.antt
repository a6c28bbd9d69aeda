-- ===== src/Manager.antt =====
-- FreakyCampManager/freakyCampManager.cpp: the start, the main loop's frame receiver and the
-- service of the timer's interrupt. The prints are left out.
pub mod Feeding
pub mod Receiver
pub mod Sized
pub mod Timer
pub mod Builders
pub mod Frames
pub mod Tablet
pub mod Race
pub mod Apart
pub mod Sound
pub mod Interleaving
pub mod Interrupted
pub mod Frame
pub mod Guarded
pub mod Memory
pub mod Rounds
pub mod Overflow
pub mod Measures
pub mod Startup
pub mod Unescaped
pub mod Thread
pub mod Watchdog
use freaky_camper_arduino.Base.{
  ℕ, zero, suc, ◌+◌, ◌*◌, ◌/◌, ◌%◌, ltb, ◌==◌, if◌then◌else◌, Bool, true, false, ◌&&◌, List,
}
use freaky_camper_arduino.Board.{
  Env, Call, Reception, delay, sei, serial_begin, usb_init, usb_task, adk_is_ready, adk_rcv_data,
  timer_initialize, timer_attach_interrupt,
}
use freaky_camper_arduino.Machine.{
  Machine, Link, hang, M, ◌>>=◌, ◌>>◌, return, skip, call, ask, get, set_link, set_comm, index,
  store,
}
use freaky_camper_arduino.Electrical.{init_electrical_function}
use freaky_camper_arduino.Light.{init_light_function}
use freaky_camper_arduino.Sensors.{
  init_temp_sensors, pool_temperature_sensors, pool_current_sensors, pool_tension_sensors,
}
use freaky_camper_arduino.Water.{pool_water_infos}
use freaky_camper_arduino.Heater.{handle_heater}
use freaky_camper_arduino.Protocol.{
  prot_header, prot_footer, prot_repeat_header, process_received_command, send_tm,
  tm_builder_temperature, tm_builder_switch, tm_builder_tension, tm_builder_water,
}

abbrev pub prot_tm_cycle_sec : ℕ
prot_tm_cycle_sec = 2

abbrev pub prot_watchdog_max_sec : ℕ
prot_watchdog_max_sec = 10

-- A byte of the header.
unfoldable pub got_header : M (Unit {0})
got_header = set_link λ l.
    let count =
      (if ltb l.header_count prot_repeat_header then l.header_count + 1 else l.header_count) in
    record {
      footer_count = 0;
      header_count = count;
      rx_counter = if l.ready_for_datas then 0 else l.rx_counter;
      ready_for_datas = count == prot_repeat_header;
    }

-- A byte of the footer, while data is expected.
unfoldable pub got_footer : Env → M (Unit {0})
got_footer env = do
  set_link λ l. record l { footer_count = (l.footer_count + 1) % 256; header_count = 0 }
  l ← get λ m. m.link
  if l.footer_count == prot_repeat_header
      then (do
        process_received_command env l.rx_counter
        set_comm λ c. record c { watchdog = 0 }
        set_link λ k. record k { footer_count = 0; ready_for_datas = false; rx_counter = 0 })
      else skip

-- rxBuffer[rxCounter++] = msg[0];
unfoldable pub got_data : ℕ → M (Unit {0})
got_data b = do
  n ← get λ m. m.link.rx_counter
  set_link λ l. record l { rx_counter = (n + 1) % 256 }
  buffer ← get λ m. m.comm.rx_buffer
  store buffer n b λ buffer'. set_comm λ c. record c { rx_buffer = buffer' }

unfoldable pub got_byte : Env → ℕ → M (Unit {0})
unfolding got_header got_footer got_data
got_byte env b = do
  ready ← get λ m. m.link.ready_for_datas
  if b == prot_header
      then got_header
      else if ready && b == prot_footer
      then got_footer env
      else if ready
      then got_data b
      else skip

unfoldable pub freaky_camp_manager_loop : Env → M (Unit {0})
freaky_camp_manager_loop env = do
  call usb_task
  ready ← ask adk_is_ready env.adk_ready
  if ready
      then (do
        r ← ask adk_rcv_data env.reception
        if r.len == 1 then (do b ← index r.msg 0; got_byte env b) else skip
        call (delay 25))
      else skip

-- `while(1);` after a failed start of the USB host.
abbrev pub halt : M (Unit {0})
halt m = hang

unfoldable pub freaky_camp_manager_start : Env → M (Unit {0})
unfolding init_electrical_function init_light_function init_temp_sensors
freaky_camp_manager_start env = do
  call (serial_begin 115200)
  started ← ask usb_init env.usb_ok
  if started
      then (do
        init_electrical_function
        init_light_function
        init_temp_sensors
        call (timer_initialize (1000000 * prot_tm_cycle_sec))
        call timer_attach_interrupt
        call sei)
      else halt

-- The length of the tension telemetry is overwritten before it is sent.
unfoldable pub send_all_telemetry : Env → M (Unit {0})
send_all_telemetry env = do
  a ← tm_builder_temperature env
  send_tm env a
  b ← tm_builder_switch env
  send_tm env b
  _ ← tm_builder_tension
  c ← tm_builder_water env
  send_tm env c

unfoldable pub tick_watchdog : M (Unit {0})
tick_watchdog = do
  set_comm λ c. record c { watchdog = (c.watchdog + 1) % 256 }
  w ← get λ m. m.comm.watchdog
  if ltb (prot_watchdog_max_sec / prot_tm_cycle_sec) w
      then (set_comm λ c. record c { watchdog = 0 })
      else skip

unfoldable pub get_water_infos : M (Unit {0})
unfolding pool_water_infos
get_water_infos = pool_water_infos

unfoldable pub get_temperatures : M (Unit {0})
unfolding pool_temperature_sensors
get_temperatures = pool_temperature_sensors

unfoldable pub get_currents : Env → M (Unit {0})
get_currents env = pool_current_sensors env

unfoldable pub get_tensions : Env → M (Unit {0})
get_tensions env = pool_tension_sensors env

unfoldable pub get_inputs : M (Unit {0})
get_inputs = skip

unfoldable pub camp_manager_pool : Env → M (Unit {0})
unfolding get_water_infos get_temperatures get_inputs
camp_manager_pool env = do
  get_water_infos
  get_temperatures
  get_currents env
  get_tensions env
  get_inputs
  send_all_telemetry env
  handle_heater env
  tick_watchdog

unfoldable pub timer_isr : Env → M (Unit {0})
unfolding camp_manager_pool
timer_isr env = camp_manager_pool env
