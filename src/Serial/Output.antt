-- ===== src/Serial/Output.antt =====
-- The way out to the host: `outputSerialData`, `serialBufferOutput`, `serialOutputByte` and the
-- printing on top of them (Firmware/LoRaSerial/Serial.ino, Firmware/LoRaSerial/System.ino).
pub mod Fifo
pub mod Frame
use spark_fun_lo_ra_serial.Base.{
  ℕ, zero, suc, ◌+◌, ◌-◌, Bool, true, false, not, List, [], ◌∷◌, ◌++◌, if◌then◌else◌, ltb, ◌&&◌,
  ◌||◌, length,
}
use spark_fun_lo_ra_serial.Ring.{put, get, write}
use spark_fun_lo_ra_serial.Serial.{Serial, Port, available_tx_bytes, is_cts}

-- One round of the loop: `arch.serialWrite(serialTransmitBuffer[txTail]); txTail++; ...`
pub send_byte : Serial → Serial
send_byte s = let (b, tx) = get s.tx in record s { tx = tx; host = s.host ++ b ∷ [] }

-- The loop of `outputSerialData`; `data_bytes` counts down, and k counts the rounds.
pub output_loop : Bool → Port → ℕ → ℕ → Serial → Serial
output_loop ignore_isr port zero k s = s
output_loop ignore_isr port (suc data_bytes) k s =
    elim (is_cts s (port.cts_low k) && (ignore_isr || not (port.transaction_complete k))) [
      | true ↦ output_loop ignore_isr port data_bytes (k + 1) (send_byte s)
      | false ↦ s
    ]

unfoldable pub output_serial_data : Bool → Port → Serial → Serial
unfolding output_loop
output_serial_data ignore_isr port s = output_loop ignore_isr port (available_tx_bytes s) 0 s

-- Make room if the data and 32 bytes more do not fit.
pub make_room : Port → ℕ → Serial → Serial
make_room port n s =
    if ltb (s.tx.size - available_tx_bytes s) n then output_serial_data true port s else s

pub serial_buffer_output : Port → List ℕ → Serial → Serial
unfolding make_room
serial_buffer_output port bytes s =
    let s' = make_room port (length bytes + 32) s in record s' { tx = write s'.tx bytes }

pub serial_output_byte : Port → ℕ → Serial → Serial
unfolding make_room
serial_output_byte port b s =
    if s.printer_to_serial
    then (let s' = make_room port 32 s in record s' { tx = put s'.tx b })
    else record s { command_tx = put s.command_tx b }

-- `systemWrite` and `systemPrint` of a text.
pub system_write : Port → List ℕ → Serial → Serial
unfolding serial_output_byte
system_write port [] s = s
system_write port (b ∷ bytes) s = system_write port bytes (serial_output_byte port b s)
