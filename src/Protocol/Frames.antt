-- ===== src/Protocol/Frames.antt =====
-- protocol.cpp: `sendTM` and `handleUsbError`. DEBUG is not defined in protocol.cpp, so what stands
-- under it is left out, as are the prints.
use freaky_camper_arduino.Base.{ℕ, zero, suc, ◌+◌, ◌*◌, ◌%◌, ◌==◌, if◌then◌else◌, not, ◌||◌, take}
use freaky_camper_arduino.Board.{Env, adk_snd_data, adk_release}
use freaky_camper_arduino.Machine.{M, ◌>>=◌, ◌>>◌, skip, call, ask, get, set_comm, index, store}

abbrev pub prot_header : ℕ
prot_header = 0xAA

abbrev pub prot_footer : ℕ
prot_footer = 0x55

abbrev pub prot_repeat_header : ℕ
prot_repeat_header = 4

-- txBuffer[i] = v
abbrev pub put : ℕ → ℕ → M (Unit {0})
put i v = do
  tx ← get λ m. m.comm.tx_buffer
  store tx i v λ tx'. set_comm λ c. record c { tx_buffer = tx' }

-- for (i = length; i > 0; i--) txBuffer[i-1+PROT_REPEAT_HEADER] = txBuffer[i-1];
unfoldable pub shift_data : ℕ → M (Unit {0})
shift_data zero = skip
shift_data (suc i) = do
  tx ← get λ m. m.comm.tx_buffer
  v ← index tx i
  put (i + prot_repeat_header) v
  shift_data i

-- for (i = first; i < first + n; i++) txBuffer[i] = v;
unfoldable pub fill : ℕ → ℕ → ℕ → M (Unit {0})
fill zero i v = skip
fill (suc n) i v = do put i v; fill n (i + 1) v

-- The return codes of the USB host library that the firmware names.
abbrev pub hr_success : ℕ
hr_success = 0x00

abbrev pub hr_wrong_pid : ℕ
hr_wrong_pid = 0x07

abbrev pub hr_pid_err : ℕ
hr_pid_err = 0x09

-- All cases of the switch but two do nothing.
unfoldable pub handle_usb_error : ℕ → M (Unit {0})
handle_usb_error ack = if ack == hr_wrong_pid || ack == hr_pid_err then call adk_release else skip

-- Sending the first `len` bytes of the buffer, and what follows from the answer.
unfoldable pub transmit : Env → ℕ → M (Unit {0})
unfolding handle_usb_error
transmit env len = do
  tx ← get λ m. m.comm.tx_buffer
  ack ← ask (adk_snd_data len (take len tx)) env.ack
  if not (ack == hr_success) then handle_usb_error ack else skip

unfoldable pub send_tm : Env → ℕ → M (Unit {0})
send_tm env zero = skip
send_tm env (suc n) = do
  let length = suc n
  shift_data length
  fill prot_repeat_header 0 prot_header
  fill prot_repeat_header (length + prot_repeat_header) prot_footer
  transmit env ((length + 2 * prot_repeat_header) % 256)
