-- ===== src/Frame/Xmit.antt =====
-- The functions of Firmware/LoRaSerial/Radio.ino that put the data of a point-to-point or multi-point
-- frame behind what waits in outgoingPacket, and send it. Their check of the frame's length is met:
-- the lengths are constants.
use spark_fun_lo_ra_serial.Base.{
  ℕ, ◌+◌, ◌/◌, ◌%◌, ◌≤◌, ◌<◌, ◌≡◌, refl, true, false, List, [], ◌∷◌, ◌++◌, ◌==◌, if-true, arith,
  length, get_or, take, drop, length-append, length-take, length-drop,
}
use spark_fun_lo_ra_serial.Settings.{Settings, is_virtual_circuit}
use spark_fun_lo_ra_serial.Link.{select_ack_number}
use spark_fun_lo_ra_serial.Datagram.{
  PacketType, find_partner, sync_clocks, zero_acks, data_frame, data_ack, heartbeat, remote_command,
  remote_command_response,
}
use spark_fun_lo_ra_serial.Frame.{header_bytes, max_packet_size}
use spark_fun_lo_ra_serial.Frame.Transmit.{
  Transmitter, Sending, transmit_datagram, select_control, tx_circuit, datagram_size, sf6_size,
}
use spark_fun_lo_ra_serial.Frame.Parse.{parse_frame, decode_frame, refused, bad_frame}
use spark_fun_lo_ra_serial.Circuits.{outside}
use spark_fun_lo_ra_serial.Frame.Sent.{sf6_too_long}

-- `memcpy` of a 32-bit number, the low byte first
abbrev pub bytes_of : ℕ → List ℕ
bytes_of n = n % 256 ∷ n / 256 % 256 ∷ n / 65536 % 256 ∷ n / 16777216 % 256 ∷ []

-- `memcpy(endOfTxData, ...); endOfTxData += ...`
pub append_data : List ℕ → Transmitter → Transmitter
append_data bytes t = record t {
  packet =
      take t.end_of_tx_data t.packet ++ (bytes ++ drop (t.end_of_tx_data + length bytes) t.packet);
  end_of_tx_data = t.end_of_tx_data + length bytes;
}

-- `txControl.datagramType = ...`
pub with_type : PacketType → Transmitter → Transmitter
with_type type t = record t { control = record t.control { type = type } }

module _ (encrypt : List ℕ → List ℕ → List ℕ) (at : Sending) where
  pub xmit_find_partner : Transmitter → List ℕ × Transmitter
  unfolding append_data with_type
  xmit_find_partner t =
      transmit_datagram encrypt at (with_type find_partner (append_data (bytes_of at.millis) t))

  -- The channel number, then the time
  pub xmit_sync_clocks : ℕ → Transmitter → List ℕ × Transmitter
  unfolding append_data with_type
  xmit_sync_clocks channel_number t = transmit_datagram encrypt at (
      with_type sync_clocks
        (append_data (bytes_of at.millis) (append_data (channel_number ∷ []) t)))

  pub xmit_zero_acks : Transmitter → List ℕ × Transmitter
  unfolding append_data with_type
  xmit_zero_acks t =
      transmit_datagram encrypt at (with_type zero_acks (append_data (bytes_of at.millis) t))

  pub xmit_command : Transmitter → List ℕ × Transmitter
  unfolding with_type
  xmit_command t = transmit_datagram encrypt at (with_type remote_command t)

  pub xmit_command_response : Transmitter → List ℕ × Transmitter
  unfolding with_type
  xmit_command_response t = transmit_datagram encrypt at (with_type remote_command_response t)

  pub xmit_data : Transmitter → List ℕ × Transmitter
  unfolding with_type
  xmit_data t = transmit_datagram encrypt at (with_type data_frame t)

  pub xmit_mp_heartbeat : ℕ → Transmitter → List ℕ × Transmitter
  unfolding append_data with_type
  xmit_mp_heartbeat channel_number t =
      transmit_datagram encrypt at (with_type heartbeat (append_data (channel_number ∷ []) t))

  pub xmit_heartbeat : Transmitter → List ℕ × Transmitter
  unfolding append_data with_type
  xmit_heartbeat t =
      transmit_datagram encrypt at (with_type heartbeat (append_data (bytes_of at.millis) t))

  pub xmit_ack : Transmitter → List ℕ × Transmitter
  unfolding append_data with_type
  xmit_ack t =
      transmit_datagram encrypt at (with_type data_ack (append_data (bytes_of at.millis) t))

-- A transmitter with nothing in its packet
pub record IsIdle (s : Settings) (t : Transmitter) : Type 0 where
  pub full : length t.packet ≡ max_packet_size
  pub empty : t.end_of_tx_data ≡ header_bytes s

length-append_data :
    (bytes : List ℕ) (t : Transmitter)
    → t.end_of_tx_data + length bytes ≤ length t.packet
    → length (append_data bytes t).packet ≡ length t.packet
unfolding append_data
length-append_data bytes t h = omega (
  arith,
  length-append (take t.end_of_tx_data t.packet)
      (bytes ++ drop (t.end_of_tx_data + length bytes) t.packet),
  length-append bytes (drop (t.end_of_tx_data + length bytes) t.packet),
  length-take t.end_of_tx_data t.packet,
  length-drop (t.end_of_tx_data + length bytes) t.packet,
)

-- Outside virtual-circuit mode, the number is the one of entry 0.
number-direct :
    (at : Sending) (t : Transmitter)
    → is_virtual_circuit at.settings.operating_mode ≡ false
    → (select_control at t).ack_number
      ≡ select_ack_number (get_or t.circuits 0 outside) t.control.type
unfolding select_control tx_circuit
number-direct at t e = rw (e, tx_circuit) refl

size-six :
    (s : Settings) (type : PacketType) (n : ℕ)
    → s.radio_spread_factor == 6 ≡ true
    → datagram_size s type n ≡ sf6_size s type
unfolding datagram_size
size-six s type n e = if-true _ _ e

-- With spread factor 6, outside virtual-circuit mode, from an idle transmitter with valid packet
-- numbers: the receiver with the same settings refuses, as bad, the frame of every SYNC_CLOCKS and
-- of every acknowledgement that is built, whatever the channel number and the time, since both are
-- longer than the size that transmitDatagram gives their kind.
pub sync_clocks_refused :
    (encrypt decrypt : List ℕ → List ℕ → List ℕ)
    → ((key frame : List ℕ) → decrypt key (encrypt key frame) ≡ frame)
    → (at : Sending) (t : Transmitter) (channel_number my_vc : ℕ) → IsIdle at.settings t
    → t.control.ignore_frame ≡ false
    → at.settings.radio_spread_factor == 6 ≡ true
    → is_virtual_circuit at.settings.operating_mode ≡ false
    → (get_or t.circuits 0 outside).tx_ack_number < 4
    → (get_or t.circuits 0 outside).rx_ack_number < 4
    → (parse_frame at.settings my_vc
          (decode_frame decrypt at.settings (xmit_sync_clocks encrypt at channel_number t).0)
        ≡ refused bad_frame)
      × (parse_frame at.settings my_vc (decode_frame decrypt at.settings (xmit_ack encrypt at t).0)
          ≡ refused bad_frame)
unfolding xmit_sync_clocks xmit_ack with_type append_data sf6_size select_ack_number
sync_clocks_refused encrypt decrypt inverse at t channel_number my_vc idle wanted six mode tx rx = (
  sf6_too_long encrypt decrypt inverse at asking my_vc (omega arith)
      (omega (arith, number-direct at asking mode)) wanted
      (omega (
        arith,
        first,
        length-append_data time (append_data (channel_number ∷ []) t) (omega (arith, first, least)),
      ))
      six (omega (arith, least))
      (omega (arith, least, size-six s sync_clocks asking.end_of_tx_data six)),
  sf6_too_long encrypt decrypt inverse at answering my_vc (omega arith)
      (omega (arith, number-direct at answering mode)) wanted
      (omega (arith, length-append_data time t (omega (arith, least)))) six (omega (arith, least))
      (omega (arith, least, size-six s data_ack answering.end_of_tx_data six)),
)
  where
    s : Settings
    s = at.settings

    time : List ℕ
    time = bytes_of at.millis

    asking : Transmitter
    asking = with_type sync_clocks (append_data time (append_data (channel_number ∷ []) t))

    answering : Transmitter
    answering = with_type data_ack (append_data time t)

    least : header_bytes at.settings ≤ 5
    least = ground arith

    first : length (append_data (channel_number ∷ []) t).packet ≡ length t.packet
    first = length-append_data (channel_number ∷ []) t (omega (arith, least))
