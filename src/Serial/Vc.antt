-- ===== src/Serial/Vc.antt =====
-- The host's input in virtual-circuit mode, where it comes in messages: `vcProcessSerialInput` of
-- Firmware/LoRaSerial/Serial.ino and the addresses of
-- Firmware/LoRaSerial/Virtual_Circuit_Protocol.h. Addresses are bytes.
pub mod Peek
pub mod Message
use spark_fun_lo_ra_serial.Base.{
  ℕ, zero, suc, ◌+◌, ◌-◌, ◌%◌, Bool, true, false, not, List, [], ◌∷◌, ◌++◌, Option, none, some,
  if◌then◌else◌, ltb, leb, ◌==◌, ◌&&◌, ◌||◌, length, get_or, set, u8,
}
use spark_fun_lo_ra_serial.Ring.{Ring, put, get}
use spark_fun_lo_ra_serial.Serial.{Serial, Port, available_rx_bytes, available_radio_tx_bytes}

abbrev pub start_of_vc_serial : ℕ
start_of_vc_serial = 2

abbrev pub vc_serial_header_bytes : ℕ
vc_serial_header_bytes = 4

abbrev pub vc_radio_header_bytes : ℕ
vc_radio_header_bytes = 3

-- `VC_BROADCAST`, `VC_COMMAND`, `VC_UNASSIGNED`, `PC_COMMAND` and `MIN_TX_NOT_ALLOWED`
abbrev pub vc_broadcast : ℕ
vc_broadcast = 255

abbrev pub vc_command : ℕ
vc_command = 254

abbrev pub vc_unassigned : ℕ
vc_unassigned = 253

abbrev pub pc_command : ℕ
pc_command = 224

abbrev pub min_tx_not_allowed : ℕ
min_tx_not_allowed = 96

-- `buffer[NEXT_TAIL(n)]`
abbrev pub peek : Ring → ℕ → ℕ
peek r n = get_or r.buf ((r.tail + n) % r.size) 0

-- `tail = NEXT_TAIL(n)`
pub skip : ℕ → Ring → Ring
skip n r = record r { tail = (r.tail + n) % r.size }

-- The loop that moves a message from one buffer to the other.
pub move_bytes : ℕ → Ring → Ring → Ring × Ring
move_bytes zero rx tx = (rx, tx)
move_bytes (suc n) rx tx = move_bytes n (skip 1 rx) (put tx (peek rx 0))

-- `vcDest < VC_BROADCAST`, which compares signed bytes
abbrev pub below_broadcast : ℕ → Bool
below_broadcast dest = leb 128 dest && ltb dest 255

-- `toupper`
abbrev pub to_upper : ℕ → ℕ
to_upper b = if leb b'a' b && leb b b'z' then b - 32 else b

-- The loop that moves a command into the command buffer.
pub move_command : ℕ → ℕ → Ring → List ℕ → Ring × List ℕ
unfolding skip
move_command zero i rx buffer = (rx, buffer)
move_command (suc n) i rx buffer =
    move_command n (i + 1) (skip 1 rx) (set buffer i (to_upper (peek rx 0)))

-- How a round of the loop ends: it goes on, or leaves the loop.
pub data Turn : Type 0 where
  again leave : Serial → Turn

-- A message for the radio link, whose start byte is gone.
pub data_message : ℕ → ℕ → ℕ → ℕ → Serial → Serial
unfolding skip move_bytes
data_message my_vc n dest src s =
    let (rx, radio_tx) = move_bytes n s.rx s.radio_tx in
    let discarded = record s { rx = skip n s.rx } in
    if not (src == my_vc) || my_vc == vc_unassigned
    then discarded
    else if leb min_tx_not_allowed dest && below_broadcast dest
    then discarded
    else record s { rx = rx; radio_tx = radio_tx }

-- What `checkCommand` does is an argument here.
module _ (check_command : Port → Serial → Serial) where
  -- A message with a command for the radio itself.
  pub command_message : Port → ℕ → ℕ → Serial → Serial
  unfolding skip move_command
  command_message port n src s =
      let m = n - vc_radio_header_bytes in
      let (rx, buffer) = move_command m 0 (skip vc_radio_header_bytes s.rx) s.command_buffer in
      let checked = check_command port (record s {
        rx = rx;
        command_buffer = buffer;
        command_length = u8 m;
        temp_settings = s.settings;
      }) in
      if not (src == pc_command) || ltb (length s.command_buffer - 1) n
      then record s { rx = skip n s.rx }
      else record checked { settings = checked.temp_settings }

  -- The message that starts at the tail.
  pub message : Port → ℕ → ℕ → Serial → Serial
  unfolding data_message command_message
  message port my_vc n s =
      let started = record s { rx = skip 1 s.rx } in
      let dest = peek started.rx 1 in
      let src = peek started.rx 2 in
      if dest == vc_command
      then command_message port n src started
      else data_message my_vc n dest src started

  -- A round of the loop.
  pub vc_round : Port → ℕ → Serial → Turn
  unfolding message
  vc_round port my_vc s =
      let n = peek s.rx 1 in
      if not (peek s.rx 0 == start_of_vc_serial)
      then again (record s { rx = skip 1 s.rx })
      else if ltb n vc_serial_header_bytes
      then again s
      else if ltb (available_rx_bytes s) (n + 1)
      then leave s
      else again (message port my_vc n s)

  -- The test of the loop.
  pub vc_ready : Port → Serial → Bool
  vc_ready port s =
      ltb 0 (available_rx_bytes s)
      && (ltb (available_radio_tx_bytes s) (s.radio_tx.size - 256)
          && not (port.transaction_complete 0))

  -- The loop, for a number of rounds; `none` if it is still running then.
  pub vc_process_serial_input : (ℕ → Port) → ℕ → ℕ → Serial → Option Serial
  unfolding vc_round vc_ready
  vc_process_serial_input world my_vc zero s = none
  vc_process_serial_input world my_vc (suc rounds) s = elim (vc_ready (world rounds) s) [
    | false ↦ some s
    | true ↦ elim (vc_round (world rounds) my_vc s) [
      | again s' ↦ vc_process_serial_input world my_vc rounds s'
      | leave s' ↦ some s'
    ]
  ]
