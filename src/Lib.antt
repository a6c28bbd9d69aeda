-- ===== src/Lib.antt =====
-- The FreakyCampManager firmware: the controller of a camper van on an Arduino board, which drives
-- relays, lights and a fuel burner, polls sensors, and exchanges frames with a tablet over USB.
--
-- The program's parts, all under FreakyCampManager/, and the files that model them:
--   masterConf.h, masterConf.cpp        Config       pins, counts and tables
--   electrical.cpp                      Electrical   relays of the power lines
--   current.cpp, tension.cpp,
--   temperatureSensors.cpp              Sensors      polled sensors: Polling
--   light.cpp                           Light        lights, by a table that telecommands index:
--                                                    Dimming, Switching (the commands), Hsv
--                                                    (HSV_to_RGB over an interface of floats)
--   water.cpp                           Water        tanks, pump, flow, hot water
--   webasto.cpp                         Webasto      the burner: Modules (one service a module, the
--                                                    on/off switch), Wait (the pause), Burner (an
--                                                    attempt, the combustion, the stop, the poll)
--   heater.cpp                          Heater       the cabin's heater over the burner:
--                                                    Telecommands, Attempts (its services)
--   inputs.cpp                          Inputs       light switches
--   protocol.h, protocol.cpp            Protocol     Telemetry (builders), Frames (sendTM),
--                                                    Commands (processReceivedCommand); proofs
--                                                    in Sending, Encoding, Reports, Shorts, Relays,
--                                                    Bank (the relays' specification), Clash
--   freakyCampManager.cpp               Manager      start, frame receiver, timer service:
--                                                    Feeding, Receiver, Watchdog, Sound
--                                                    and Interleaving (reachable states),
--                                                    Sized, Builders, Frames and Timer (a whole service),
--                                                    Tablet (its frames in any such state),
--                                                    Race (the service inside an operation),
--                                                    Interrupted and Frame (frames with
--                                                    interrupts between their bytes), Guarded,
--                                                    Memory, Rounds and Overflow (accesses to
--                                                    arrays),
--                                                    Measures (from the sensors to the tablet),
--                                                    Startup (the board after the start),
--                                                    Unescaped (header and footer bytes in a
--                                                    payload), Thread (the main loop, an access at
--                                                    a time; below it Decoder, its specification,
--                                                    Simulation, Session (frames), Placing
--                                                    and Lines (the relays along a session),
--                                                    Coarse and Embedding (whole rounds as
--                                                    runs) and Steady)
--   examples/freakyTest_ino/
--     freakyTest_ino.ino                Sketch       the program that the repository carries, over the
--                                                    start and the interrupts; its loop is empty
-- Modules named Apart prove for their component that it leaves alone what it should. Machine has the
-- rules of the proofs: Logic and Total for operations that come back, Invariant and Arrays for those
-- that may not, with the levels of the relays' pins in Relays, and Safety for those that may not but
-- have no fault. A function keeps its name in snake_case: `startWebasto` is `start_webasto`. Base holds
-- helpers, Tests a bench of concrete boards with an instance of each result.
--
-- State: Machine.State has the global variables as a record for each module, with the trace of the
-- calls made to the board and to the libraries. An operation is a function from the machine to an
-- outcome: a result and a machine, a fault (an access outside an array) or a hang (a loop that never
-- ends or has used up the fuel). The main loop and the timer's service share the machine; the timer's
-- service polls the sensors, sends the telemetry through the protocol and lets the heater drive the
-- burner.
--
-- The board and the libraries that the repository carries as copies (USB_Host_Shield_20,
-- DallasTemperature, OneWire, Button, Timer1) are Board.Env: what a read answers is a function of
-- the trace. The thermocouple of the burner is such an answer too. The source has a zero in its
-- place (webasto.cpp, measureTemp) and attaches the interrupt of the on/off switch nowhere: that
-- program is Webasto.Laws.Shipped.shipped. Elsewhere the switch may be pressed at any poll.
--
-- Numbers: bytes and words are natural numbers with their wrap-around written out; `int` has 16
-- bits. Temperatures count quarters of a degree in the burner and 1/128 of a degree at the probes,
-- which are the steps of the sensors, so that the floats of the source are exact. Calibration
-- factors are hundredths. What a conversion of a float gives beyond the range of its type is an
-- answer of the board.
--
-- Fuel: only `wait` polls a clock. If each reading of the clock takes a microsecond at least, 1000
-- polls for each millisecond of the pause, and 1001 more, are enough; the longest pause is 60
-- seconds. The other loops are bounded and recur on the rounds left.
--
-- Floats: those of `HSV_to_RGB` are a parameter, Light.Hsv.Float, with the laws that hold for all
-- values but NaN as the hypothesis IsFloat; Light.Fixed shows that they can hold.
--
-- Interleavings, in two grains. Manager.Thread.Run takes the main loop an access to a shared variable
-- or a call at a time, as the moves of a program counter, with a service of the timer or one of two
-- interrupts between any two; Manager.Thread.Decoder is the function of the bytes that it implements.
-- Manager.Interleaving.Step is a whole round of the main loop or a whole interrupt; Reach is what they
-- reach from the start in any order, which Manager.Thread.Embedding finds among the runs. In
-- Manager.Interrupted.Fed some rounds take the bytes of a frame, with idle rounds and interrupts
-- between them.
--
-- Not modelled: the prints on the serial port, the libraries, and interrupts within the start, while a
-- telecommand is executed or within another interrupt, but for the on/off switch during a pause and
-- the timer's service between the building and the sending of an answer
-- (Manager.Race.interrupted_keep_alive). The bus operations of the temperature probes enable the
-- interrupts (OneWire/OneWire.cpp), so that a service can come between the last two calls of the start
-- and within another service; for the same reason the clock is taken to go on within a service. The
-- libraries USB_Host_Shield_20, DallasTemperature, OneWire, Button, Timer1 and Adb are copies of other
-- projects. Everything else under FreakyCampManager/ is modelled, but for functions with an empty body.
mod Base
pub mod Board
pub mod Machine
pub mod Webasto
pub mod Config
pub mod Electrical
pub mod Sensors
pub mod Light
pub mod Water
pub mod Heater
pub mod Inputs
pub mod Protocol
pub mod Manager
pub mod Sketch
mod Tests
