-- ===== src/Frame.antt =====
-- The frames of the radio: their layout (`selectHeaderAndTrailerBytes` of
-- Firmware/LoRaSerial/States.ino) and the control byte (`CONTROL_U8` of
-- Firmware/LoRaSerial/settings.h). The children hold `transmitDatagram` and `rcvDatagram`.
pub mod Crc
pub mod Whitening
pub mod Transmit
pub mod Parse
pub mod Fields
pub mod Trip
pub mod Delivery
pub mod Sent
pub mod Receive
pub mod Xmit
pub mod Accepts
pub mod Refines
mod Tests
use spark_fun_lo_ra_serial.Base.{
  ℕ, ◌+◌, ◌-◌, ◌*◌, ◌/◌, ◌%◌, Bool, true, false, if◌then◌else◌, ◌==◌, ◌||◌,
}
use spark_fun_lo_ra_serial.Settings.{Settings, is_point_to_point}
use spark_fun_lo_ra_serial.Datagram.{
  PacketType, find_partner, sync_clocks, zero_acks, data_frame, data_ack, heartbeat, remote_command,
  remote_command_response, datagram, training_find_partner, training_params, training_ack,
  vc_heartbeat, vc_unknown_acks, vc_sync_acks, vc_zero_acks, bad, crc_error, netid_mismatch,
  duplicate, not_mine,
}

abbrev pub max_packet_size : ℕ
max_packet_size = 255

abbrev pub clock_millis_bytes : ℕ
clock_millis_bytes = 4

abbrev pub channel_timer_bytes : ℕ
channel_timer_bytes = 2

abbrev pub has_net_id : Settings → Bool
has_net_id s = is_point_to_point s.operating_mode || s.verify_rx_net_id

abbrev pub header_bytes : Settings → ℕ
header_bytes s =
    (if has_net_id s then 1 else 0)
    + 1
    + (if s.frequency_hop then channel_timer_bytes else 0)
    + (if s.radio_spread_factor == 6 then 1 else 0)

abbrev pub trailer_bytes : Settings → ℕ
trailer_bytes s = if s.enable_crc16 then 2 else 0

abbrev pub min_datagram_size : Settings → ℕ
min_datagram_size s = header_bytes s + trailer_bytes s

abbrev pub max_datagram_size : Settings → ℕ
max_datagram_size s = max_packet_size - min_datagram_size s

-- The value of the enumeration: MAX_DATAGRAM_TYPE is 16, and stands for no kind of frame.
abbrev pub packet_number : PacketType → ℕ
packet_number find_partner = 0
packet_number sync_clocks = 1
packet_number zero_acks = 2
packet_number data_frame = 3
packet_number data_ack = 4
packet_number heartbeat = 5
packet_number remote_command = 6
packet_number remote_command_response = 7
packet_number datagram = 8
packet_number training_find_partner = 9
packet_number training_params = 10
packet_number training_ack = 11
packet_number vc_heartbeat = 12
packet_number vc_unknown_acks = 13
packet_number vc_sync_acks = 14
packet_number vc_zero_acks = 15
packet_number bad = 17
packet_number crc_error = 18
packet_number netid_mismatch = 19
packet_number duplicate = 20
packet_number not_mine = 21

-- The kind of frame that four bits stand for
abbrev pub packet_type : ℕ → PacketType
packet_type n =
    if n == 0
    then find_partner
    else if n == 1
    then sync_clocks
    else if n == 2
    then zero_acks
    else if n == 3
    then data_frame
    else if n == 4
    then data_ack
    else if n == 5
    then heartbeat
    else if n == 6
    then remote_command
    else if n == 7
    then remote_command_response
    else if n == 8
    then datagram
    else if n == 9
    then training_find_partner
    else if n == 10
    then training_params
    else if n == 11
    then training_ack
    else if n == 12
    then vc_heartbeat
    else if n == 13
    then vc_unknown_acks
    else if n == 14
    then vc_sync_acks
    else vc_zero_acks

pub record Control : Type 0 where
  pub type : PacketType
  pub ack_number : ℕ
  pub request_yield : Bool
  pub ignore_frame : Bool

abbrev pub bit : Bool → ℕ
bit true = 1
bit false = 0

-- The bit fields, from the lowest bit: four bits, two bits, and two flags.
pub control_byte : Control → ℕ
control_byte c =
    packet_number c.type % 16
    + c.ack_number % 4 * 16
    + bit c.request_yield * 64
    + bit c.ignore_frame * 128

pub control_of : ℕ → Control
control_of b = record {
  type = packet_type (b % 16);
  ack_number = b / 16 % 4;
  request_yield = b / 64 % 2 == 1;
  ignore_frame = b / 128 % 2 == 1;
}
