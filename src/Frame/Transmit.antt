-- ===== src/Frame/Transmit.antt =====
-- `transmitDatagram` of Firmware/LoRaSerial/Radio.ino, up to `retransmitDatagram`, which hands the
-- frame to the radio. The hops of an expired channel timer, which it may make between its parts, are
-- left to the channel's model.
use spark_fun_lo_ra_serial.Base.{
  ℕ, ◌+◌, ◌-◌, ◌/◌, ◌%◌, Bool, true, false, List, [], ◌∷◌, ◌++◌, Option, none, some, if◌then◌else◌,
  leb, ltb, ◌==◌, ◌&&◌, length, get_or, set, take, drop, u8, u16, u32, elapsed,
}
use spark_fun_lo_ra_serial.Settings.{Settings, is_virtual_circuit}
use spark_fun_lo_ra_serial.Datagram.{
  PacketType, find_partner, sync_clocks, zero_acks, data_ack, Circuit,
}
use spark_fun_lo_ra_serial.Link.{select_ack_number}
use spark_fun_lo_ra_serial.Frame.{
  Control, control_byte, has_net_id, header_bytes, trailer_bytes, max_packet_size,
  clock_millis_bytes,
}
use spark_fun_lo_ra_serial.Frame.Crc.{crc16}
use spark_fun_lo_ra_serial.Frame.Whitening.{radio_compute_whitening}
use spark_fun_lo_ra_serial.Circuits.{outside, max_vc}

pub record Transmitter : Type 0 where
  pub packet : List ℕ  -- outgoingPacket
  pub end_of_tx_data : ℕ  -- as an index of outgoingPacket
  pub control : Control  -- txControl
  pub circuits : List Circuit  -- virtualCircuitList
  pub messages_sent : List ℕ  -- virtualCircuitList[].messagesSent, uint32_t
  pub datagrams_sent : ℕ  -- uint32_t
  pub tx_dest_vc : ℕ  -- as a byte

-- What stands at the transmitter when it sends: the settings, the bytes that wait for the radio, the
-- channel timer and the time, and what a read through a null pointer would give.
pub record Sending : Type 0 where
  pub settings : Settings
  pub radio_tx_bytes : ℕ
  pub channel_timer_msec : ℕ  -- uint16_t
  pub channel_timer_start : ℕ
  pub millis : ℕ
  pub null_circuit : Circuit

-- `vc`: the circuit that the header names, if its number is no more than MAX_VC.
unfoldable pub tx_circuit : Settings → Transmitter → Option ℕ
tx_circuit s t =
    let dest = get_or t.packet (header_bytes s + 1) 0 in
    if is_virtual_circuit s.operating_mode
    then (if leb dest max_vc then some dest else none)
    else some 0

-- The first part: the header of the virtual circuit, and the messages counted.
unfoldable pub count_datagram : Settings → Transmitter → Transmitter
unfolding tx_circuit
count_datagram s t =
    let sent = record t { datagrams_sent = u32 (t.datagrams_sent + 1) } in
    let dest = get_or t.packet (header_bytes s + 1) 0 in
    if is_virtual_circuit s.operating_mode
    then record sent {
      tx_dest_vc = dest;
      messages_sent =
          if leb dest max_vc
          then set t.messages_sent dest (u32 (get_or t.messages_sent dest 0 + 1))
          else t.messages_sent;
    }
    else sent

abbrev pub circuit_at : List Circuit → Circuit → Option ℕ → Circuit
circuit_at circuits null_circuit none = null_circuit
circuit_at circuits null_circuit (some i) = get_or circuits i outside

abbrev pub is_ack : PacketType → Bool
is_ack data_ack = true
is_ack _ = false

-- `txControl` with its number and the wish that the other side should wait
unfoldable pub select_control : Sending → Transmitter → Control
unfolding tx_circuit
select_control at t = record t.control {
  ack_number =
      select_ack_number (circuit_at t.circuits at.null_circuit (tx_circuit at.settings t))
        t.control.type;
  request_yield = is_ack t.control.type && ltb 0 at.radio_tx_bytes;
}

unfoldable pub ms_to_next_hop : Sending → ℕ
ms_to_next_hop at =
    if at.channel_timer_msec == 0
    then at.settings.max_dwell_time
    else u16 (at.channel_timer_msec + 4294967296 - elapsed at.millis at.channel_timer_start)

-- The bytes in front of the data, for data of a length
unfoldable pub frame_header : Settings → Control → ℕ → ℕ → List ℕ
frame_header s control ms length =
    (if has_net_id s then s.net_id ∷ [] else [])
    ++ (control_byte control ∷ (if s.frequency_hop then ms % 256 ∷ ms / 256 ∷ [] else [])
        ++ (if s.radio_spread_factor == 6 then length ∷ [] else []))

-- `txDatagramSize` without the trailer: with spread factor 6 it depends on the kind of frame only.
unfoldable pub sf6_size : Settings → PacketType → ℕ
sf6_size s find_partner = header_bytes s + clock_millis_bytes
sf6_size s sync_clocks = header_bytes s + clock_millis_bytes
sf6_size s zero_acks = header_bytes s + clock_millis_bytes
sf6_size s data_ack = header_bytes s
sf6_size s _ = max_packet_size - trailer_bytes s

unfoldable pub datagram_size : Settings → PacketType → ℕ → ℕ
unfolding sf6_size
datagram_size s type size = if s.radio_spread_factor == 6 then sf6_size s type else size

-- The trailer
unfoldable pub crc_trailer : Settings → List ℕ → List ℕ
crc_trailer s body = if s.enable_crc16 then crc16 body / 256 ∷ crc16 body % 256 ∷ [] else []

module _ (encrypt : List ℕ → List ℕ → List ℕ) where
  -- `encryptBuffer` is the library's, given the key; then the frame is scrambled.
  unfoldable pub encode_frame : Settings → List ℕ → List ℕ
  encode_frame s frame =
      let hidden = if s.encrypt_data then encrypt s.encryption_key frame else frame in
      if s.data_scrambling then radio_compute_whitening hidden else hidden

  -- The frame that goes to the radio, and the transmitter after it
  unfoldable pub transmit_datagram : Sending → Transmitter → List ℕ × Transmitter
  unfolding count_datagram select_control ms_to_next_hop frame_header datagram_size crc_trailer
      encode_frame
  transmit_datagram at t =
      let s = at.settings in
      let control = select_control at t in
      let length = t.end_of_tx_data - header_bytes s in
      let header = frame_header s control (ms_to_next_hop at) (u8 length) in
      let packet = header ++ drop (header_bytes s) t.packet in
      let body = take (datagram_size s control.type t.end_of_tx_data) packet in
      let frame = encode_frame s (body ++ crc_trailer s body) in
      (
        frame,
        record (count_datagram s t) {
          packet =
              frame
              ++ drop (trailer_bytes s + datagram_size s control.type t.end_of_tx_data) packet;
          end_of_tx_data = header_bytes s;
          control = control;
        },
      )
