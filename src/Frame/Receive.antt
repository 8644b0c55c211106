-- ===== src/Frame/Receive.antt =====
-- `rcvDatagram` of Firmware/LoRaSerial/Radio.ino: the counters and the circuits of the receiver. The
-- library's `readData` is a parameter, as the state that it returns and the bytes that it gives; the
-- hops of an expired channel timer are left to the channel's model. What the function leaves in
-- globals about the frame itself (rxData, rxDestVc, msToNextHopRemote and such) is the record `Rx` that
-- it returns.
use spark_fun_lo_ra_serial.Base.{
  ℕ, ◌+◌, Bool, true, false, List, Option, none, some, if◌then◌else◌, get_or, set, length, u32,
}
use spark_fun_lo_ra_serial.Settings.{Settings, is_multipoint}
use spark_fun_lo_ra_serial.Datagram.{PacketType, Circuit, bad, crc_error, netid_mismatch, not_mine}
use spark_fun_lo_ra_serial.Link.{Receiver, verify_packet_number}
use spark_fun_lo_ra_serial.Frame.Parse.{
  Refusal, bad_frame, other_net, failed_crc, bad_length, ok, refused, Rx, parse_frame, decode_frame,
}
use spark_fun_lo_ra_serial.Circuits.{outside}

-- What `readData` returns: RADIOLIB_ERR_NONE, RADIOLIB_ERR_CRC_MISMATCH, or another error.
pub data ReadState : Type 0 where
  no_error crc_mismatch read_error : ReadState

pub record Radio : Type 0 where
  pub circuits : List Circuit  -- virtualCircuitList
  pub bad_lengths : List ℕ  -- virtualCircuitList[].badLength, uint32_t
  pub frames_received : ℕ  -- uint32_t, as the other counters
  pub datagrams_received : ℕ
  pub bad_frames : ℕ
  pub bad_crc : ℕ
  pub net_id_mismatch : ℕ
  pub duplicate_frames : ℕ
  pub insufficient_space : ℕ
  pub link_down_timer : ℕ
  pub last_rx_datagram : ℕ
  pub request_yield : Bool
  pub yield_timer_start : ℕ

-- What stands at the receiver
pub record Listening : Type 0 where
  pub settings : Settings
  pub my_vc : ℕ
  pub in_command_mode : Bool
  pub command_space : ℕ  -- free bytes of commandRXBuffer
  pub serial_space : ℕ  -- free bytes of serialTransmitBuffer
  pub millis : ℕ

-- The entry of one circuit with the counters that all share, and back
unfoldable pub receiver : Radio → ℕ → Receiver
receiver r i = record {
  vc = get_or r.circuits i outside;
  bad_frames = r.bad_frames;
  duplicate_frames = r.duplicate_frames;
  insufficient_space = r.insufficient_space;
  link_down_timer = r.link_down_timer;
  last_rx_datagram = r.last_rx_datagram;
}

unfoldable pub with_receiver : Radio → ℕ → Receiver → Radio
with_receiver r i v = record r {
  circuits = set r.circuits i v.vc;
  bad_frames = v.bad_frames;
  duplicate_frames = v.duplicate_frames;
  insufficient_space = v.insufficient_space;
  link_down_timer = v.link_down_timer;
  last_rx_datagram = v.last_rx_datagram;
}

abbrev count_bad_frame : Radio → Radio
count_bad_frame r = record r { bad_frames = u32 (r.bad_frames + 1) }

-- A frame that is dropped before its number is looked at: what is returned, and what is counted.
unfoldable pub refuse : Radio → Refusal → PacketType × Radio
refuse r bad_frame = (bad, count_bad_frame r)
refuse r other_net = (netid_mismatch, record r { net_id_mismatch = u32 (r.net_id_mismatch + 1) })
refuse r failed_crc = (crc_error, record r { bad_crc = u32 (r.bad_crc + 1) })
refuse r Refusal.not_mine = (not_mine, r)
refuse r (bad_length none) = (bad, count_bad_frame r)
refuse r (bad_length (some i)) = (
  bad,
  record (count_bad_frame r) {
    bad_lengths = set r.bad_lengths i (u32 (get_or r.bad_lengths i 0 + 1));
  },
)

-- The kinds that are no frames: a frame's number was refused.
abbrev pub is_result : PacketType → Bool
is_result bad = true
is_result PacketType.duplicate = true
is_result _ = false

-- The check of the number, for a frame of a circuit
unfoldable pub check_number : Listening → Radio → Rx → PacketType × Radio
check_number at r x = elim x.vc [
  | none ↦ (x.control.type, r)
  | some i ↦
      if is_multipoint at.settings.operating_mode
      then (x.control.type, r)
      else (let (type, v) =
            verify_packet_number
              (record {
                operating_mode = at.settings.operating_mode;
                in_command_mode = at.in_command_mode;
                rx_data_bytes = length x.rx_data;
                command_space = at.command_space;
                serial_space = at.serial_space;
                millis = at.millis;
              })
              (receiver r i) x.control.type x.control.ack_number in
          (type, with_receiver r i v))
]

-- The end of `rcvDatagram`, for a frame that is passed on
unfoldable pub finish : Listening → Rx → Radio → Radio
finish at x r = record r {
  request_yield = x.control.request_yield;
  yield_timer_start = if x.control.request_yield then at.millis else r.yield_timer_start;
  datagrams_received = u32 (r.datagrams_received + 1);
  link_down_timer = at.millis;
}

unfoldable pub accept : Listening → Radio → Rx → PacketType × Radio
unfolding check_number finish
accept at r x =
    let (type, r') = check_number at r x in (type, if is_result type then r' else finish at x r')

module _ (decrypt : List ℕ → List ℕ → List ℕ) where
  -- What is returned, the data of a frame that is passed on, and the receiver after it.
  unfoldable pub rcv_datagram :
      Listening → Radio → ReadState → List ℕ → PacketType × Option Rx × Radio
  unfolding refuse accept
  rcv_datagram at r state bytes =
      let r' = record r { frames_received = u32 (r.frames_received + 1) } in
      elim state [
        | crc_mismatch ↦ (crc_error, none, record r' { bad_crc = u32 (r.bad_crc + 1) })
        | read_error ↦ (bad, none, count_bad_frame r')
        | no_error ↦
            elim (parse_frame at.settings at.my_vc (decode_frame decrypt at.settings bytes)) [
              | refused why ↦ (let (type, r'') = refuse r' why in (type, none, r''))
              | ok x ↦ (let (type, r'') = accept at r' x in (type, some x, r''))
            ]
      ]
