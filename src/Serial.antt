-- ===== src/Serial.antt =====
-- The serial side of the radio, Firmware/LoRaSerial/Serial.ino: its state, and the counts of the
-- bytes that wait in each buffer (the globals of Firmware/LoRaSerial/LoRaSerial.ino).
pub mod Output
pub mod Radio
pub mod Input
pub mod Vc
pub mod Sample
mod Tests
use mathlib.Core.Bool.{xor}
use spark_fun_lo_ra_serial.Base.{
  ℕ, ◌+◌, ◌-◌, ◌*◌, Bool, true, false, not, List, if◌then◌else◌, ◌==◌, ◌&&◌,
}
use spark_fun_lo_ra_serial.Settings.{Settings}
use spark_fun_lo_ra_serial.Ring.{Ring, available}

pub record Serial : Type 0 where
  pub settings : Settings
  pub rx : Ring  -- serialReceiveBuffer: from the host
  pub radio_tx : Ring  -- radioTxBuffer: to the remote radio
  pub tx : Ring  -- serialTransmitBuffer: to the host
  pub command_rx : Ring  -- commandRXBuffer: commands of the remote radio
  pub command_tx : Ring  -- commandTXBuffer: commands and responses to the remote radio
  pub host : List ℕ  -- what `arch.serialWrite` has written to the port, the oldest first
  pub printer_to_serial : Bool  -- printerEndpoint == PRINT_TO_SERIAL
  pub pin_cts : ℕ
  pub pin_rts : ℕ
  pub rts_asserted : Bool
  pub rts_level : Bool  -- what was last written to the RTS pin
  pub outgoing_packet : List ℕ
  pub end_of_tx_data : ℕ  -- index into outgoingPacket
  pub header_bytes : ℕ  -- uint8_t
  pub max_datagram_size : ℕ  -- uint8_t
  pub command_buffer : List ℕ
  pub command_length : ℕ  -- uint8_t
  pub in_command_mode : Bool
  pub remote_command_response : Bool
  pub wait_remote_command_response : Bool
  pub escape_chars_received : ℕ  -- uint8_t
  pub last_escape_char_entered_ms : ℕ  -- uint32_t
  pub last_byte_received_ms : ℕ  -- unsigned long
  pub force_radio_reset : Bool
  pub write_on_command_exit : Bool
  pub temp_settings : Settings

-- What the hardware answers while code runs: the time, the k-th reading of the CTS pin (true for
-- LOW), and of the flag `transactionComplete`, which an interrupt sets.
pub record Port : Type 0 where
  pub millis : ℕ
  pub cts_low : ℕ → Bool
  pub transaction_complete : ℕ → Bool

abbrev pub pin_undefined : ℕ
pin_undefined = 255

pub available_rx_bytes : Serial → ℕ
available_rx_bytes s = available s.rx

pub available_tx_bytes : Serial → ℕ
available_tx_bytes s = available s.tx

pub available_radio_tx_bytes : Serial → ℕ
available_radio_tx_bytes s = available s.radio_tx

pub available_rx_command_bytes : Serial → ℕ
available_rx_command_bytes s = available s.command_rx

pub available_tx_command_bytes : Serial → ℕ
available_tx_command_bytes s = available s.command_tx

-- `low` is whether the pin reads LOW.
pub is_cts : Serial → Bool → Bool
is_cts s low =
    if s.pin_cts == pin_undefined
    then true
    else if not s.settings.flow_control
    then true
    else xor low s.settings.invert_cts

-- The pin is driven to 0 when RTS is asserted, inverted on request.
pub update_rts : Serial → Bool → Serial
update_rts s assert_rts =
    if s.settings.flow_control && not (s.pin_rts == pin_undefined)
    then record s {
      rts_asserted = assert_rts;
      rts_level = xor (if assert_rts then false else true) s.settings.invert_rts;
    }
    else record s { rts_asserted = assert_rts }
