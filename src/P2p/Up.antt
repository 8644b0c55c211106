-- ===== src/P2p/Up.antt =====
-- The link while it is up: the states RADIO_P2P_LINK_UP and RADIO_P2P_LINK_UP_WAIT_TX_DONE of
-- `updateRadioState`, their macros and `breakLink` (Firmware/LoRaSerial/States.ino),
-- `retransmitDatagram` (Firmware/LoRaSerial/Radio.ino), `readyOutgoingCommandPacket` outside
-- virtual-circuit mode and `resetSerial` (Firmware/LoRaSerial/Serial.ino). Frames are built and read
-- by the model of a frame. The correction of the frequency (floating point) and the estimate of the other
-- clock are left out, and syncChannelTimer, a model of its own, is not called.
pub mod Sends
pub mod Limit
pub mod Waits
mod Tests
use spark_fun_lo_ra_serial.Base.{
  ℕ, ◌+◌, ◌-◌, ◌*◌, ◌/◌, ◌%◌, Bool, true, false, not, List, [], ◌∷◌, ◌++◌, Option, none, some,
  if◌then◌else◌, leb, ltb, ◌==◌, ◌&&◌, ◌||◌, u8, u16, u32, elapsed, length, take, get_or,
}
use spark_fun_lo_ra_serial.Datagram.{
  PacketType, find_partner, data_frame, data_ack, heartbeat, remote_command,
  remote_command_response, duplicate,
}
use spark_fun_lo_ra_serial.Ring.{blit, read, write}
use spark_fun_lo_ra_serial.Serial.{
  Serial, Port, available_radio_tx_bytes, available_tx_bytes, available_rx_command_bytes,
  available_tx_command_bytes, update_rts,
}
use spark_fun_lo_ra_serial.Serial.Output.{output_serial_data, serial_buffer_output}
use spark_fun_lo_ra_serial.Serial.Radio.{packet_bytes, process_waiting_serial}
use spark_fun_lo_ra_serial.Circuits.{outside}
use spark_fun_lo_ra_serial.Frame.{
  Control, header_bytes, trailer_bytes, channel_timer_bytes, max_packet_size,
}
use spark_fun_lo_ra_serial.Frame.Transmit.{Transmitter, Sending}
use spark_fun_lo_ra_serial.Frame.Parse.{Rx}
use spark_fun_lo_ra_serial.Frame.Receive.{Radio, Listening, ReadState, rcv_datagram}
use spark_fun_lo_ra_serial.Frame.Xmit.{
  xmit_heartbeat, xmit_ack, xmit_data, xmit_command, xmit_command_response,
}
use spark_fun_lo_ra_serial.P2p.{
  RadioState, Partner, Moment, link_up, link_up_wait_tx_done, reset, hop, return_to_receiving,
  received_frame, set_heartbeat_short, set_heartbeat_long,
}

-- What becomes of a frame that is handed to the radio: a reception is in the way; one begins while the
-- frame is handed over, and the radio sends all the same; the frame is sent; the radio reports an error.
pub data Start : Type 0 where
  cancelled preamble started failed : Start

-- What one call of `updateRadioState` meets while the link is up
pub record Turn : Type 0 where
  pub moment : Moment
  pub start : Start
  pub incoming : List ℕ  -- the bytes of a frame that has been received
  pub read_state : ReadState
  pub air_time_usec : ℕ → ℕ  -- calcAirTimeUsec, in floating point
  pub response_delay_divisor : ℕ
  pub max_resends : ℕ  -- uint8_t
  pub frames_to_yield : ℕ  -- uint8_t
  pub max_frame_air_time_msec : ℕ  -- uint32_t

pub record Exchange : Type 0 where
  pub partner : Partner
  pub radio : Radio  -- with virtualCircuitList[0] in partner.vc
  pub control : Control  -- txControl
  pub datagram_size : ℕ  -- txDatagramSize, uint8_t
  pub frame_sent_count : ℕ  -- uint8_t
  pub rexmt_buffer : List ℕ
  pub rexmt_control : Control
  pub rexmt_length : ℕ  -- uint8_t
  pub rexmt_frame_sent_count : ℕ  -- uint8_t
  pub retransmit_timeout : ℕ
  pub messages_sent : ℕ  -- of virtualCircuitList[0], as the next field
  pub frames_sent_to_peer : ℕ
  pub frames_sent : ℕ  -- uint32_t
  pub datagrams_sent : ℕ  -- uint32_t
  pub lost_frames : ℕ  -- uint32_t
  pub link_failures : ℕ  -- uint32_t
  pub air : List (List ℕ)  -- the frames that were sent, the latest first

abbrev pub link_break_multiplier : ℕ
link_break_multiplier = 3

abbrev pub with_serial : Serial → Exchange → Exchange
with_serial s u = record u { partner = record u.partner { serial = s } }

-- `START_ACK_TIMER`: the value 0 means that the timer is off.
pub start_ack_timer : Exchange → Exchange
start_ack_timer u = record u {
  partner = record u.partner {
    ack_timer = if u.partner.datagram_timer == 0 then 4294967295 else u.partner.datagram_timer;
  };
}

pub save_tx_buffer : Exchange → Exchange
save_tx_buffer u = record u {
  rexmt_buffer = u.partner.serial.outgoing_packet;
  rexmt_control = u.control;
  rexmt_length = u.datagram_size;
  rexmt_frame_sent_count = u.frame_sent_count;
}

pub restore_tx_buffer : Exchange → Exchange
restore_tx_buffer u =
    record (with_serial (record u.partner.serial { outgoing_packet = u.rexmt_buffer }) u) {
      control = u.rexmt_control;
      datagram_size = u.rexmt_length;
      frame_sent_count = u.rexmt_frame_sent_count;
    }

-- The end of `retransmitDatagram`: the timers move "even if error".
pub time_frame : Turn → Exchange → Exchange
time_frame t u =
    let air = t.air_time_usec u.datagram_size in
    let ack = t.moment.timing.tx_data_ack_usec in
    let delay = u16 (air / t.response_delay_divisor) in
    record u {
      partner = record u.partner { datagram_timer = t.moment.port.millis };
      retransmit_timeout =
          t.moment.random (ack / 1000) ((air + delay + ack) / 1000)
          * (u.frame_sent_count + 1)
          * 3
          / 2;
    }

-- To the peer, whose frames are counted, or to none. The result says whether transmission has started.
pub retransmit_datagram : Bool → Turn → Exchange → Bool × Exchange
unfolding time_frame
retransmit_datagram to_peer t u =
    let frame = take u.datagram_size u.partner.serial.outgoing_packet in
    elim t.start [
      | cancelled ↦ (false, u)
      | preamble ↦ (false, record u { air = frame ∷ u.air })
      | started ↦ (
        true,
        time_frame t (record u {
          frame_sent_count = u8 (u.frame_sent_count + 1);
          frames_sent_to_peer =
              if to_peer then u32 (u.frames_sent_to_peer + 1) else u.frames_sent_to_peer;
          frames_sent = u32 (u.frames_sent + 1);
          air = frame ∷ u.air;
        }),
      )
      | failed ↦ (true, time_frame t u)
    ]

abbrev pub sending_of : Turn → Exchange → Sending
sending_of t u = record {
  settings = u.partner.serial.settings;
  radio_tx_bytes = available_radio_tx_bytes u.partner.serial;
  channel_timer_msec = u.partner.channel_timer_msec;
  channel_timer_start = u.partner.channel_timer_start;
  millis = t.moment.port.millis;
  null_circuit = outside;
}

abbrev pub transmitter_of : Exchange → Transmitter
transmitter_of u = record {
  packet = u.partner.serial.outgoing_packet;
  end_of_tx_data = u.partner.serial.end_of_tx_data;
  control = u.control;
  circuits = u.partner.vc ∷ [];
  messages_sent = u.messages_sent ∷ [];
  datagrams_sent = u.datagrams_sent;
  tx_dest_vc = 0;
}

-- A frame is built, and sent for the first time.
pub transmit : (Sending → Transmitter → List ℕ × Transmitter) → Turn → Exchange → Bool × Exchange
unfolding retransmit_datagram
transmit xmit t u =
    let (frame, built) = xmit (sending_of t u) (transmitter_of u) in
    let s = record u.partner.serial {
      outgoing_packet = built.packet;
      end_of_tx_data = built.end_of_tx_data;
    } in
    retransmit_datagram true t (record (with_serial s u) {
      control = built.control;
      datagram_size = u8 (length frame);
      messages_sent = get_or built.messages_sent 0 0;
      datagrams_sent = built.datagrams_sent;
      frame_sent_count = 0;
    })

-- `changeState(RADIO_P2P_LINK_UP_WAIT_TX_DONE)`, if transmission has started
abbrev pub wait_tx_done : Bool × Exchange → Exchange
wait_tx_done (sent, u) = record u {
  partner = record u.partner { state = if sent then link_up_wait_tx_done else u.partner.state };
}

-- A frame that is to be acknowledged
pub send_saved : (Sending → Transmitter → List ℕ × Transmitter) → Turn → Exchange → Exchange
unfolding transmit save_tx_buffer set_heartbeat_long start_ack_timer
send_saved xmit t u =
    let saved = save_tx_buffer (wait_tx_done (transmit xmit t u)) in
    start_ack_timer (record saved { partner = set_heartbeat_long t.moment saved.partner })

-- `resetSerial`, without the wait in which what still comes from the host is thrown away
pub reset_serial : Port → Serial → Serial
reset_serial port s0 =
    let s = update_rts (output_serial_data true port s0) true in
    record s {
      rx = record s.rx { head = s.rx.tail };
      tx = record s.tx { head = s.tx.tail };
      command_rx = record s.command_rx { head = s.command_rx.tail };
      command_tx = record s.command_tx { head = s.command_tx.tail };
      command_length = 0;
    }

pub break_link : Turn → Exchange → Exchange
unfolding reset_serial
break_link t u =
    let s0 = u.partner.serial in
    let s = if s0.in_command_mode then s0 else reset_serial t.moment.port s0 in
    record u {
      partner = record u.partner {
        ack_timer = 0;
        serial = record s {
          radio_tx = record s.radio_tx { head = s.radio_tx.tail };
          end_of_tx_data = header_bytes s.settings;
        };
        state = reset;
      };
      link_failures = u32 (u.link_failures + 1);
    }

-- `readyOutgoingCommandPacket(0)`, outside virtual-circuit mode
pub ready_outgoing_command_packet : Serial → Serial
ready_outgoing_command_packet s =
    let n = packet_bytes s (available_tx_command_bytes s) in
    let (first, second, command_tx) = read s.command_tx n in
    record s {
      outgoing_packet =
          blit (blit s.outgoing_packet s.header_bytes first) (s.header_bytes + length first) second;
      command_tx = command_tx;
      end_of_tx_data = s.end_of_tx_data + n;
    }

abbrev pub heartbeat_due : Turn → Exchange → Bool
heartbeat_due t u =
    ltb u.partner.heartbeat_random_time (elapsed t.moment.port.millis u.partner.heartbeat_timer)

module _ (encrypt : List ℕ → List ℕ → List ℕ) where
  -- `P2P_SEND_ACK`
  pub send_ack : Turn → Exchange → Exchange
  unfolding transmit set_heartbeat_short
  send_ack t u =
      let (sent, v) = transmit (xmit_ack encrypt) t u in
      if sent
      then record v {
        partner = record (set_heartbeat_short t.moment v.partner) { state = link_up_wait_tx_done };
      }
      else v

  -- A heartbeat is built anew, any other frame is sent as it was.
  abbrev pub send_again : PacketType → Turn → Exchange → Bool × Exchange
  send_again heartbeat t u = transmit (xmit_heartbeat encrypt) t u
  send_again _ t u = retransmit_datagram false t u

  -- An acknowledgement has not come in time, and the frame may be sent again.
  pub resend : Turn → Exchange → Exchange
  unfolding restore_tx_buffer transmit retransmit_datagram set_heartbeat_long start_ack_timer
  resend t u =
      let v = wait_tx_done (send_again u.rexmt_control.type t (restore_tx_buffer u)) in
      start_ack_timer (record v { partner = set_heartbeat_long t.moment v.partner })

  -- An acknowledgement is awaited.
  pub retry : Turn → Exchange → Exchange
  unfolding resend break_link
  retry t u =
      let lost = record u { lost_frames = u32 (u.lost_frames + 1) } in
      if ltb u.retransmit_timeout (elapsed t.moment.port.millis u.partner.datagram_timer)
      then (if t.max_resends == 0 || ltb u.frame_sent_count t.max_resends
          then resend t lost
          else break_link t lost)
      else u

  pub send_command : Turn → Exchange → Exchange
  unfolding ready_outgoing_command_packet send_saved
  send_command t u =
      let ready = with_serial (ready_outgoing_command_packet u.partner.serial) u in
      if u.partner.serial.remote_command_response
      then send_saved (xmit_command_response encrypt) t ready
      else send_saved (xmit_command encrypt) t ready

  -- The other radio may have asked this one to yield for a time.
  pub send_data : Turn → Exchange → Exchange
  unfolding send_saved
  send_data t u =
      let now = t.moment.port.millis in
      if not u.radio.request_yield
        || ltb (t.frames_to_yield * t.max_frame_air_time_msec)
            (elapsed now u.radio.yield_timer_start)
      then (let (ready, s) = process_waiting_serial now false u.partner.serial in
          let v = with_serial s (record u { radio = record u.radio { request_yield = false } }) in
          if ready then send_saved (xmit_data encrypt) t v else v)
      else u

  -- Nothing is received: what to send, in the order of priority.
  pub transmit_next : Turn → Exchange → Exchange
  unfolding send_saved retry send_command send_data
  transmit_next t u =
      if heartbeat_due t u
      then send_saved (xmit_heartbeat encrypt) t u
      else if not (u.partner.ack_timer == 0)
      then retry t u
      else if ltb 0 (available_tx_command_bytes u.partner.serial)
      then send_command t u
      else if ltb 0 (available_radio_tx_bytes u.partner.serial)
      then send_data t u
      else u

  -- What is done with a frame
  pub process_frame : PacketType → List ℕ → Turn → Exchange → Exchange
  unfolding send_ack break_link set_heartbeat_long
  process_frame type rx_data t u =
      let s = u.partner.serial in
      elim type [
        | find_partner ↦ break_link t u
        | heartbeat ↦ send_ack t u
        | duplicate ↦ send_ack t u
        | data_frame ↦ send_ack t (with_serial (serial_buffer_output t.moment.port rx_data s) u)
        | data_ack ↦ (record u {
          partner = set_heartbeat_long t.moment (record u.partner { ack_timer = 0 });
        })
        | remote_command ↦
            send_ack t (with_serial (record s { command_rx = write s.command_rx rx_data }) u)
        | remote_command_response ↦ send_ack t (
            with_serial
              (record (serial_buffer_output t.moment.port rx_data s) {
                wait_remote_command_response = false;
              })
              u)
        | _ ↦ u
      ]

module _ (decrypt : List ℕ → List ℕ → List ℕ) where
  -- `rcvDatagram`: the kind of a frame, its data, and the link after it
  pub receive : Turn → Exchange → PacketType × List ℕ × Exchange
  unfolding received_frame
  receive t u =
      let s = u.partner.serial in
      let (type, rx, radio) =
        rcv_datagram decrypt
          (record {
            settings = s.settings;
            my_vc = 0;
            in_command_mode = s.in_command_mode;
            command_space = s.command_rx.size - available_rx_command_bytes s;
            serial_space = s.tx.size - available_tx_bytes s;
            millis = t.moment.port.millis;
          })
          (record u.radio { circuits = u.partner.vc ∷ [] }) t.read_state t.incoming in
      (
        type,
        elim rx [ none ↦ [] | some x ↦ x.rx_data ],
        record u {
          partner = record (received_frame t.moment u.partner) {
            vc = get_or radio.circuits 0 outside;
          };
          radio = radio;
        },
      )

abbrev pub link_timed_out : Turn → Exchange → Bool
link_timed_out t u =
    leb (link_break_multiplier * t.moment.timing.heartbeat_timeout)
      (elapsed t.moment.port.millis u.radio.link_down_timer)

abbrev pub hop_if_due : Exchange → Exchange
hop_if_due u = if u.partner.time_to_hop then record u { partner = hop u.partner } else u

pub update_wait_tx_done : Turn → Exchange → Exchange
unfolding hop return_to_receiving
update_wait_tx_done t u0 =
    let u = hop_if_due u0 in
    let p = u.partner in
    if p.transaction_complete
    then record u {
      partner =
          record (return_to_receiving t.moment (record p {
            transaction_complete = false;
            sf6_expected_size =
                if p.ack_timer == 0
                then max_packet_size
                else header_bytes p.serial.settings
                  + channel_timer_bytes
                  + trailer_bytes p.serial.settings;
          })) { state = link_up };
    }
    else u

module _ (encrypt decrypt : List ℕ → List ℕ → List ℕ) where
  pub update_link_up : Turn → Exchange → Exchange
  unfolding receive process_frame transmit_next break_link hop
  update_link_up t u0 =
      let u = hop_if_due u0 in
      let v =
        if u.partner.transaction_complete
        then (let (type, rx_data, heard) = receive decrypt t u in
            process_frame encrypt type rx_data t heard)
        else if not t.moment.receiving
        then transmit_next encrypt t u
        else u in
      if link_timed_out t v then break_link t v else v

  pub in_state : RadioState → Turn → Exchange → Exchange
  unfolding update_link_up update_wait_tx_done
  in_state link_up t u = update_link_up t u
  in_state link_up_wait_tx_done t u = update_wait_tx_done t u
  in_state _ t u = u

  pub update_exchange : Turn → Exchange → Exchange
  unfolding in_state
  update_exchange t u = in_state u.partner.state t u
