-- ===== src/Link/Session/Tests.antt =====
-- A run of a session in which the first frame and the first acknowledgement are lost.
use spark_fun_lo_ra_serial.Base.{some, ◌≡◌, refl, false, List, [], ◌∷◌, ◌++◌, none, ◌⊎◌}
use spark_fun_lo_ra_serial.Settings.{point_to_point}
use spark_fun_lo_ra_serial.Datagram.{PacketType-discrete, data_frame, Circuit, connected}
use spark_fun_lo_ra_serial.Link.{
  Receiver, Arrival, validate_datagram, validated, verify_packet_number, select_ack_number,
}
use spark_fun_lo_ra_serial.Link.Numbers.{Outcome, verify_packet_number-Outcome}
use spark_fun_lo_ra_serial.Link.Session.{
  Frame, Session, transmit, retransmit, send_ack, arrive, acknowledge, transmits, retransmits,
  loses_frame, loses_ack, arrives, acknowledges, Run, start, step, IsStart,
}
use spark_fun_lo_ra_serial.Link.Session.Picks.{Picks}
use spark_fun_lo_ra_serial.Link.Session.Delivery.{delivers_in_order}
use spark_fun_lo_ra_serial.Link.Session.Progress.{session_recovers}
use spark_fun_lo_ra_serial.Link.Session.Steady.{singly, delivers_exactly_once}

abbrev peer : Circuit
peer = record {
  unique_id = [];
  first_heartbeat_millis = 0;
  frames_received = 0;
  messages_received = 0;
  link_failures = 0;
  valid = false;
  was_connected = false;
  vc_state = connected;
  rmt_tx_ack_number = 0;
  rx_ack_number = 0;
  tx_ack_number = 0;
}

abbrev fresh : Receiver
fresh = record {
  vc = peer;
  bad_frames = 0;
  duplicate_frames = 0;
  insufficient_space = 0;
  link_down_timer = 0;
  last_rx_datagram = 0;
}

abbrev at : Arrival
at = record {
  operating_mode = point_to_point;
  in_command_mode = false;
  rx_data_bytes = 2;
  command_space = 64;
  serial_space = 64;
  millis = 5;
}

abbrev hello : Frame
hello = record { type = data_frame; bytes = b'h' ∷ b'i' ∷ [] }

abbrev begin : Session
begin = record {
  sender = fresh;
  waiting = false;
  past = [];
  current = [];
  in_air = none;
  receiver = fresh;
  delivered = [];
  ack_in_air = none;
}

begin-IsStart : IsStart begin
begin-IsStart = record {
  sender_zero = refl;
  receiver_zero = refl;
  idle = refl;
  nothing_past = refl;
  nothing_sent = refl;
  nothing_delivered = refl;
  quiet = refl;
  no_ack = refl;
}

-- Sent, lost, sent again and taken; its acknowledgement is lost, so it comes a third time.
abbrev taken : Session
taken =
    let sent = record (transmit hello begin) { in_air = none } in
    record (arrive at hello 0 (retransmit hello sent)) { ack_in_air = none }

abbrev closed : Session
closed = acknowledge at 0 (arrive at hello 0 (retransmit hello taken))

delivered-closed : (closed.delivered ≡ hello ∷ []) × (closed.past ≡ (hello ∷ []) ∷ [])
unfolding acknowledge arrive retransmit transmit send_ack verify_packet_number validated
    validate_datagram select_ack_number PacketType-discrete
delivered-closed = (refl, refl)

run : Run begin closed
unfolding acknowledge arrive retransmit transmit send_ack verify_packet_number validated
    validate_datagram select_ack_number PacketType-discrete
run =
    step
      (step
        (step
          (step
            (step
              (step (step (step start (transmits hello refl refl)) loses_frame)
                (retransmits hello [] refl refl))
              (arrives at hello 0 refl refl))
            loses_ack)
          (retransmits hello [] refl refl))
        (arrives at hello 0 refl refl))
      (acknowledges at 0 refl refl)

delivers_in_order_example :
    Picks closed.delivered closed.past ⊎ Picks closed.delivered (closed.past ++ closed.current ∷ [])
delivers_in_order_example = delivers_in_order begin closed begin-IsStart run

delivers_exactly_once_example :
    (xs : List Frame) × (closed.past ≡ singly xs)
    × ((closed.delivered ≡ xs)
        ⊎ ((f : Frame) × (closed.current ≡ f ∷ []) × (closed.delivered ≡ xs ++ f ∷ [])))
unfolding run
delivers_exactly_once_example = delivers_exactly_once begin closed begin-IsStart run tt

verify_packet_number-Outcome_example :
    Outcome fresh data_frame 3 (verify_packet_number at fresh data_frame 3)
verify_packet_number-Outcome_example = verify_packet_number-Outcome at fresh data_frame 3 refl refl

waiting_run : Run begin taken
unfolding arrive retransmit transmit send_ack verify_packet_number validated validate_datagram
    select_ack_number PacketType-discrete
waiting_run =
    step
      (step
        (step (step (step start (transmits hello refl refl)) loses_frame)
          (retransmits hello [] refl refl))
        (arrives at hello 0 refl refl))
      loses_ack

session_recovers_example :
    let n = taken.sender.vc.tx_ack_number in
    let heard = arrive at hello n (retransmit hello taken) in
    ((retransmit hello taken).in_air ≡ some (hello, n))
    × (heard.ack_in_air ≡ some n)
    × ((acknowledge at n heard).waiting ≡ false)
    × ((acknowledge at n heard).past ≡ taken.past ++ taken.current ∷ [])
unfolding arrive retransmit transmit send_ack verify_packet_number validated validate_datagram
    select_ack_number PacketType-discrete
session_recovers_example =
    session_recovers begin taken hello [] at at begin-IsStart waiting_run refl refl refl refl
