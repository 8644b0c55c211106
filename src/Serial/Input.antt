-- ===== src/Serial/Input.antt =====
-- From the host to the radio or to the command processor: `processSerialInput` of
-- Firmware/LoRaSerial/Serial.ino, with the escape sequence that enters command mode.
pub mod Transparent
pub mod Stream
use spark_fun_lo_ra_serial.Base.{
  ℕ, zero, suc, ◌+◌, ◌-◌, Bool, true, false, not, List, [], ◌∷◌, ◌++◌, if◌then◌else◌, ltb, leb,
  ◌==◌, ◌&&◌, ◌||◌, length, set, u8, elapsed,
}
use spark_fun_lo_ra_serial.Ring.{Ring, put, get}
use spark_fun_lo_ra_serial.Serial.{Serial, Port, available_rx_bytes, available_radio_tx_bytes}
use spark_fun_lo_ra_serial.Serial.Output.{output_serial_data, system_write}

abbrev pub escape_character : ℕ
escape_character = b'+'

abbrev pub max_escape_characters : ℕ
max_escape_characters = 3

abbrev pub min_escape_time_ms : ℕ
min_escape_time_ms = 2000

abbrev pub crlf : List ℕ
crlf = 13 ∷ 10 ∷ []

-- How a round of the loop ends: it goes on, it leaves the loop (`break`), or it leaves the function.
pub data Flow : Type 0 where
  next break return : Serial → Flow

abbrev pub flow_state : Flow → Serial
flow_state (next s) = s
flow_state (break s) = s
flow_state (return s) = s

-- `while (escapeCharsReceived) radioTxBuffer[radioTxHead++] = escapeCharacter;`
pub replay_escapes : ℕ → Ring → Ring
replay_escapes zero r = r
replay_escapes (suc n) r = replay_escapes n (put r escape_character)

-- Three escape characters, with quiet before them, enter command mode.
pub enter_command_mode : Port → Serial → Serial
enter_command_mode port s =
    let s' = output_serial_data true port (system_write port (13 ∷ 10 ∷ b'O' ∷ b'K' ∷ crlf) s) in
    record s' {
      in_command_mode = true;
      force_radio_reset = false;
      write_on_command_exit = false;
      temp_settings = s'.settings;
      escape_chars_received = 0;
      last_byte_received_ms = port.millis;
    }

-- Whether a byte counts as part of the escape sequence.
abbrev pub is_escape : Port → ℕ → Serial → Bool
is_escape port b s =
    b == escape_character
    && (ltb min_escape_time_ms (elapsed port.millis s.last_byte_received_ms)
        || ltb port.millis min_escape_time_ms)

-- A byte of the stream, outside command mode.
pub data_byte : Port → ℕ → Serial → Flow
unfolding replay_escapes enter_command_mode
data_byte port b s =
    let escaped = record s {
      escape_chars_received = u8 (s.escape_chars_received + 1);
      last_escape_char_entered_ms = port.millis;
    } in
    let forwarded = record s {
      last_byte_received_ms = port.millis;
      escape_chars_received = 0;
      radio_tx = put (replay_escapes s.escape_chars_received s.radio_tx) b;
    } in
    if is_escape port b s
    then (if escaped.escape_chars_received == max_escape_characters
        then return (enter_command_mode port escaped)
        else next escaped)
    else next forwarded

-- What is typed is echoed on request, and in command mode.
pub echo_byte : Port → ℕ → Serial → Serial
echo_byte port b s =
    if s.settings.echo || s.in_command_mode
    then output_serial_data true port (system_write port (b ∷ []) s)
    else s

-- Everything that `checkCommand` does with the command buffer is an argument here.
module _ (check_command : Port → Serial → Serial) where
  -- A byte of a command.
  pub command_byte : Port → ℕ → Serial → Flow
  command_byte port b s =
      let run = check_command port (system_write port crlf s) in
      let erase = record s { command_length = s.command_length - 1 } in
      let longer = record s {
        command_buffer = set s.command_buffer s.command_length b;
        command_length = u8 (s.command_length + 1);
      } in
      let overlong = record longer { printer_to_serial = true } in
      if b == 13 || b == b';'
      then (if ltb 0 s.command_length then break run else next s)
      else if b == 10
      then next s
      else if b == 8
      then (if ltb 0 s.command_length
          then next (output_serial_data true port (system_write port (b' ' ∷ b ∷ []) erase))
          else next (output_serial_data true port (system_write port (7 ∷ []) s)))
      else if leb (length s.command_buffer - 1) longer.command_length
      then break (check_command port (system_write port crlf overlong))
      else next longer

  -- One round: take a byte, echo it if wanted, and hand it on.
  pub input_byte : Port → Serial → Flow
  unfolding data_byte command_byte echo_byte
  input_byte port s =
      let (b, rx) = get s.rx in
      let echoed = echo_byte port b (record s { rx = rx }) in
      if echoed.in_command_mode then command_byte port b echoed else data_byte port b echoed

  -- The test of the loop.
  pub input_ready : Port → Serial → Bool
  input_ready port s =
      ltb 0 (available_rx_bytes s)
      && (ltb (available_radio_tx_bytes s) (s.radio_tx.size - max_escape_characters)
          && ((not s.in_command_mode || not s.wait_remote_command_response)
              && not (port.transaction_complete 0)))

  -- The loop; `world` gives the answers of the hardware in each round, and a round takes a byte of
  -- the receive buffer, so the bytes that wait there are fuel enough.
  pub input_loop : (ℕ → Port) → ℕ → Serial → Flow
  unfolding input_byte
  input_loop world zero s = next s
  input_loop world (suc fuel) s = elim (input_ready (world fuel) s) [
    | true ↦ elim (input_byte (world fuel) s) [
      | next s' ↦ input_loop world fuel s'
      | break s' ↦ break s'
      | return s' ↦ return s'
    ]
    | false ↦ next s
  ]

  -- Escape characters that came to nothing are part of the stream.
  pub flush_escapes : Port → Serial → Serial
  flush_escapes port s =
      if ltb 0 s.escape_chars_received
        && (ltb min_escape_time_ms (elapsed port.millis s.last_escape_char_entered_ms)
            && ltb (available_rx_bytes s) (s.radio_tx.size - max_escape_characters))
      then record s {
        escape_chars_received = 0;
        radio_tx = replay_escapes s.escape_chars_received s.radio_tx;
      }
      else s

  pub process_serial_input : (ℕ → Port) → Port → Serial → Serial
  unfolding input_loop flush_escapes
  process_serial_input world last s = elim (input_loop world (available_rx_bytes s) s) [
    | next s' ↦ flush_escapes last s'
    | break s' ↦ flush_escapes last s'
    | return s' ↦ s'
  ]
