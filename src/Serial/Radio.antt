-- ===== src/Serial/Radio.antt =====
-- From the serial side to the radio: `readyOutgoingPacket` and `processWaitingSerial` of
-- Firmware/LoRaSerial/Serial.ino.
pub mod Packet
use spark_fun_lo_ra_serial.Base.{
  ℕ, ◌+◌, Bool, true, false, if◌then◌else◌, ltb, leb, ◌&&◌, ◌||◌, length, elapsed,
}
use spark_fun_lo_ra_serial.Ring.{blit, read}
use spark_fun_lo_ra_serial.Serial.{Serial, available_radio_tx_bytes}

-- The most that one packet takes of n bytes.
abbrev pub packet_bytes : Serial → ℕ → ℕ
packet_bytes s n = if ltb s.max_datagram_size n then s.max_datagram_size else n

-- Copy bytes of `radioTxBuffer` behind the header of `outgoingPacket`.
pub ready_outgoing_packet : ℕ → Serial → Serial
ready_outgoing_packet n s =
    let (first, second, radio_tx) = read s.radio_tx (packet_bytes s n) in
    record s {
      outgoing_packet =
          blit (blit s.outgoing_packet s.header_bytes first) (s.header_bytes + length first) second;
      radio_tx = radio_tx;
      end_of_tx_data = s.end_of_tx_data + packet_bytes s n;
    }

-- Whether the time has come for a frame that is not full.
abbrev pub frame_due : ℕ → Serial → Bool
frame_due now s =
    ltb 0 (available_radio_tx_bytes s)
    && leb s.settings.serial_timeout_before_sending_frame_ms (elapsed now s.last_byte_received_ms)

-- The result says whether a packet is ready.
pub process_waiting_serial : ℕ → Bool → Serial → Bool × Serial
process_waiting_serial now send_now s =
    let n = available_radio_tx_bytes s in
    if leb s.max_datagram_size n
    then (true, ready_outgoing_packet n s)
    else if send_now || frame_due now s
    then (true, ready_outgoing_packet n s)
    else (false, s)
