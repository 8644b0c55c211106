-- ===== src/Link.antt =====
-- The numbers that make the point-to-point link reliable: `validateDatagram`, the check of packet
-- numbers at the end of `rcvDatagram`, and the choice of a number in `transmitDatagram`
-- (Firmware/LoRaSerial/Radio.ino), and the start of a session (`enterLinkUp`, `vcZeroAcks` of
-- Firmware/LoRaSerial/States.ino).
pub mod Numbers
pub mod Room
pub mod Session
use mathlib.Core.Logic.{ite}
use spark_fun_lo_ra_serial.Base.{
  ℕ, ◌+◌, ◌%◌, Bool, true, false, not, if◌then◌else◌, ltb, ◌==◌, ◌&&◌, ◌||◌, u32,
}
use spark_fun_lo_ra_serial.Settings.{OperatingMode, is_virtual_circuit}
use spark_fun_lo_ra_serial.Datagram.{
  PacketType, PacketType-discrete, data_frame, data_ack, heartbeat, remote_command,
  remote_command_response, bad, duplicate, Circuit,
}

-- What `rcvDatagram` keeps: the peer's entry and the counters.
pub record Receiver : Type 0 where
  pub vc : Circuit
  pub bad_frames : ℕ  -- uint32_t
  pub duplicate_frames : ℕ  -- uint32_t
  pub insufficient_space : ℕ  -- uint32_t
  pub link_down_timer : ℕ
  pub last_rx_datagram : ℕ

-- What stands at the receiver when a frame is checked: the mode, the bytes of data in the frame, the
-- free bytes of `commandRXBuffer` and of `serialTransmitBuffer`, and the time.
pub record Arrival : Type 0 where
  pub operating_mode : OperatingMode
  pub in_command_mode : Bool
  pub rx_data_bytes : ℕ  -- uint8_t
  pub command_space : ℕ
  pub serial_space : ℕ
  pub millis : ℕ

abbrev pub is_data : PacketType → Bool
is_data data_frame = true
is_data _ = false

abbrev pub is_bad : Receiver → PacketType × Receiver
is_bad r = (bad, record r { bad_frames = u32 (r.bad_frames + 1) })

pub validate_datagram : Arrival → Receiver → PacketType → ℕ → ℕ → PacketType × Receiver
validate_datagram at r type ack_number free_bytes =
    if not (ack_number == r.vc.rmt_tx_ack_number)
    then (if ack_number == (r.vc.rmt_tx_ack_number + 3) % 4
        then (
          duplicate,
          record r { link_down_timer = at.millis; duplicate_frames = u32 (r.duplicate_frames + 1) },
        )
        else is_bad r)
    else if (at.in_command_mode && is_data type) || ltb free_bytes at.rx_data_bytes
    then is_bad (record r { insufficient_space = u32 (r.insufficient_space + 1) })
    else (
      type,
      record r {
        vc = record r.vc {
          rx_ack_number = r.vc.rmt_tx_ack_number;
          rmt_tx_ack_number = (r.vc.rmt_tx_ack_number + 1) % 4;
        };
      },
    )

-- `vc->framesReceived++`
abbrev pub count_frame : Receiver → Receiver
count_frame r = record r { vc = record r.vc { frames_received = u32 (r.vc.frames_received + 1) } }

-- `vc->messagesReceived++`, for a data frame
abbrev pub count_message : PacketType → Receiver → Receiver
count_message data_frame r = record r {
  vc = record r.vc { messages_received = u32 (r.vc.messages_received + 1) };
}
count_message _ r = r

-- A case of the switch that calls `validateDatagram`, and goes on only with the type it was given.
pub validated : Arrival → Receiver → PacketType → ℕ → ℕ → PacketType × Receiver
unfolding validate_datagram
validated at r type ack_number free_bytes =
    let (type', r') = validate_datagram at r type ack_number free_bytes in
    ite (PacketType-discrete type' type)
      (type, count_frame (count_message type (record r' { last_rx_datagram = at.millis })))
      (type', r')

-- The switch of `rcvDatagram` that verifies the packet number, outside multi-point mode.
pub verify_packet_number : Arrival → Receiver → PacketType → ℕ → PacketType × Receiver
unfolding validated
verify_packet_number at r data_ack ack_number =
    if not (ack_number == r.vc.tx_ack_number) then is_bad r else (
      data_ack,
      count_frame (record r {
        vc = record r.vc { tx_ack_number = (r.vc.tx_ack_number + 1) % 4 };
        last_rx_datagram = at.millis;
      }),
    )
verify_packet_number at r heartbeat ack_number =
    if is_virtual_circuit at.operating_mode
    then (heartbeat, count_frame r)
    else validated at r heartbeat ack_number at.rx_data_bytes
verify_packet_number at r remote_command ack_number =
    validated at r remote_command ack_number at.command_space
verify_packet_number at r remote_command_response ack_number =
    validated at r remote_command_response ack_number at.serial_space
verify_packet_number at r data_frame ack_number =
    validated at r data_frame ack_number at.serial_space
verify_packet_number at r type ack_number = (type, count_frame r)

-- The number that `transmitDatagram` puts in a frame.
unfoldable pub select_ack_number : Circuit → PacketType → ℕ
select_ack_number vc data_ack = vc.rx_ack_number
select_ack_number vc type = vc.tx_ack_number

-- `vcZeroAcks`, and the same lines of `enterLinkUp`: a session starts with all numbers zero.
pub zero_acks_of : Circuit → Circuit
zero_acks_of vc = record vc { tx_ack_number = 0; rmt_tx_ack_number = 0; rx_ack_number = 0 }
