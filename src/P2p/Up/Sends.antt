-- ===== src/P2p/Up/Sends.antt =====
-- What each kind of transmission leaves of the counts of a frame (`updateRadioState` of
-- Firmware/LoRaSerial/States.ino).
use spark_fun_lo_ra_serial.Base.{
  ◌*◌, ℕ, ◌+◌, ◌≤◌, ◌<◌, ◌≡◌, refl, Bool, true, false, not, if◌then◌else◌, if-true, ◌==◌, ◌||◌,
  elapsed, List, u32, ltb, arith,
}
use spark_fun_lo_ra_serial.Datagram.{
  PacketType, find_partner, data_frame, data_ack, heartbeat, remote_command,
  remote_command_response, duplicate,
}
use spark_fun_lo_ra_serial.Frame.Transmit.{Transmitter, Sending}
use spark_fun_lo_ra_serial.Frame.Xmit.{
  xmit_heartbeat, xmit_ack, xmit_data, xmit_command, xmit_command_response,
}
use spark_fun_lo_ra_serial.P2p.{reset, set_heartbeat_short, set_heartbeat_long}
use spark_fun_lo_ra_serial.Serial.{Serial, available_radio_tx_bytes, available_tx_command_bytes}
use spark_fun_lo_ra_serial.Serial.Radio.{process_waiting_serial}
use spark_fun_lo_ra_serial.P2p.Up.{
  with_serial, heartbeat_due, Exchange, Turn, start_ack_timer, save_tx_buffer, restore_tx_buffer,
  time_frame, retransmit_datagram, transmit, send_saved, break_link, send_ack, send_again, resend,
  retry, send_command, send_data, ready_outgoing_command_packet, transmit_next, process_frame,
}

-- The counts of how often the frame at hand, and the frame that is kept to be sent again, were sent
pub record IsFew (u : Exchange) : Type 0 where
  pub sent : u.frame_sent_count ≤ 2
  pub kept : u.rexmt_frame_sent_count ≤ 1

-- A step that sends at most, and goes on
pub record GoesOn (u v : Exchange) : Type 0 where
  pub few : IsFew v
  pub timer : v.radio.link_down_timer ≡ u.radio.link_down_timer
  pub up : ¬ v.partner.state ≡ reset

-- What both branches have, the choice has.
pub if_either :
    {A : Type 0} (P : A → Type 0) (b : Bool) {x y : A} → P x → P y → P (if b then x else y)
if_either P true h k = h
if_either P false h k = k

pub same-GoesOn : (u : Exchange) → IsFew u → ¬ u.partner.state ≡ reset → GoesOn u u
same-GoesOn u few below = record { few = few; timer = refl; up = below }

with_serial-GoesOn :
    (s : Serial) (u : Exchange) {v : Exchange} → GoesOn (with_serial s u) v → GoesOn u v
with_serial-GoesOn s u goes = record { few = goes.few; timer = goes.timer; up = goes.up }

retransmit_datagram-few :
    (to_peer : Bool) (t : Turn) (u : Exchange)
    → let v = (retransmit_datagram to_peer t u).1 in
      (v.frame_sent_count ≤ u.frame_sent_count + 1)
      × (v.rexmt_frame_sent_count ≡ u.rexmt_frame_sent_count)
      × (v.radio ≡ u.radio)
      × (v.partner.state ≡ u.partner.state)
unfolding retransmit_datagram time_frame
retransmit_datagram-few to_peer t u = ground arith

transmit-few :
    (xmit : Sending → Transmitter → List ℕ × Transmitter) (t : Turn) (u : Exchange)
    → let v = (transmit xmit t u).1 in
      (v.frame_sent_count ≤ 1)
      × (v.rexmt_frame_sent_count ≡ u.rexmt_frame_sent_count)
      × (v.radio ≡ u.radio)
      × (v.partner.state ≡ u.partner.state)
unfolding transmit
transmit-few xmit t u = retransmit_datagram-few true t _

send_saved-GoesOn :
    (xmit : Sending → Transmitter → List ℕ × Transmitter) (t : Turn) (u : Exchange)
    → ¬ u.partner.state ≡ reset
    → GoesOn u (send_saved xmit t u)
unfolding send_saved save_tx_buffer set_heartbeat_long start_ack_timer
send_saved-GoesOn xmit t u below =
    let (few, kept, same, state) = transmit-few xmit t u in ground arith

module _ (encrypt : List ℕ → List ℕ → List ℕ) where
  send_again-few :
      (type : PacketType) (t : Turn) (u : Exchange)
      → u.frame_sent_count ≤ 1
      → let v = (send_again encrypt type t u).1 in
        (v.frame_sent_count ≤ 2)
        × (v.rexmt_frame_sent_count ≡ u.rexmt_frame_sent_count)
        × (v.radio ≡ u.radio)
        × (v.partner.state ≡ u.partner.state)
  send_again-few heartbeat t u few =
      let (once, kept, same, state) = transmit-few (xmit_heartbeat encrypt) t u in
      (omega arith, kept, same, state)
  send_again-few _ t u few =
      let (twice, kept, same, state) = retransmit_datagram-few false t u in
      (omega arith, kept, same, state)

  resend-GoesOn :
      (t : Turn) (u : Exchange)
      → IsFew u
      → ¬ u.partner.state ≡ reset
      → GoesOn u (resend encrypt t u)
  unfolding resend restore_tx_buffer set_heartbeat_long start_ack_timer
  resend-GoesOn t u few below =
      let (twice, kept, same, state) =
        send_again-few u.rexmt_control.type t (restore_tx_buffer u) few.kept in
      ground arith

  retry-GoesOn :
      (t : Turn) (u : Exchange)
      → IsFew u
      → 2 < t.max_resends
      → ¬ u.partner.state ≡ reset
      → GoesOn u (retry encrypt t u)
  unfolding retry
  retry-GoesOn t u few high below =
      let lost = record u { lost_frames = u32 (u.lost_frames + 1) } in
      let again = resend-GoesOn t lost (record { sent = few.sent; kept = few.kept }) below in
      let allowed : (t.max_resends == 0 || ltb u.frame_sent_count t.max_resends) ≡ true =
        ground arith in
      if_either (GoesOn u)
        (ltb u.retransmit_timeout (elapsed t.moment.port.millis u.partner.datagram_timer))
        (rw (if-true (resend encrypt t lost) (break_link t lost) allowed)
          (record { few = again.few; timer = again.timer; up = again.up }))
        (same-GoesOn u few below)

  send_command-GoesOn :
      (t : Turn) (u : Exchange) → ¬ u.partner.state ≡ reset → GoesOn u (send_command encrypt t u)
  unfolding send_command
  send_command-GoesOn t u below =
      if_either (GoesOn u) u.partner.serial.remote_command_response
        (with_serial-GoesOn (ready_outgoing_command_packet u.partner.serial) u (
          send_saved-GoesOn (xmit_command_response encrypt) t
            (with_serial (ready_outgoing_command_packet u.partner.serial) u) below))
        (with_serial-GoesOn (ready_outgoing_command_packet u.partner.serial) u (
          send_saved-GoesOn (xmit_command encrypt) t
            (with_serial (ready_outgoing_command_packet u.partner.serial) u) below))

  send_data-GoesOn :
      (t : Turn) (u : Exchange)
      → IsFew u
      → ¬ u.partner.state ≡ reset
      → GoesOn u (send_data encrypt t u)
  unfolding send_data
  send_data-GoesOn t u few below =
      let (ready, s) = process_waiting_serial t.moment.port.millis false u.partner.serial in
      let willing = record u { radio = record u.radio { request_yield = false } } in
      let sent = send_saved-GoesOn (xmit_data encrypt) t (with_serial s willing) below in
      if_either (GoesOn u)
        (not u.radio.request_yield
          || ltb (t.frames_to_yield * t.max_frame_air_time_msec)
              (elapsed t.moment.port.millis u.radio.yield_timer_start))
        (if_either (GoesOn u) ready (record { few = sent.few; timer = sent.timer; up = sent.up })
          (record { few = record { sent = few.sent; kept = few.kept }; timer = refl; up = below }))
        (same-GoesOn u few below)

  retry-IsFew :
      (t : Turn) (u : Exchange) → IsFew u → ¬ u.partner.state ≡ reset → IsFew (retry encrypt t u)
  unfolding retry break_link
  retry-IsFew t u few below =
      let lost = record u { lost_frames = u32 (u.lost_frames + 1) } in
      if_either IsFew
        (ltb u.retransmit_timeout (elapsed t.moment.port.millis u.partner.datagram_timer))
        (if_either IsFew (t.max_resends == 0 || ltb u.frame_sent_count t.max_resends)
          (resend-GoesOn t lost (record { sent = few.sent; kept = few.kept }) below).few
          (record { sent = few.sent; kept = few.kept }))
        few

  transmit_next-one_of :
      (P : Exchange → Type 0) (t : Turn) (u : Exchange)
      → P (send_saved (xmit_heartbeat encrypt) t u)
      → P (retry encrypt t u)
      → P (send_command encrypt t u)
      → P (send_data encrypt t u)
      → P u
      → P (transmit_next encrypt t u)
  unfolding transmit_next
  transmit_next-one_of P t u beat again command sent rest = if_either P (heartbeat_due t u) beat (
      if_either P (not (u.partner.ack_timer == 0)) again (
        if_either P (ltb 0 (available_tx_command_bytes u.partner.serial)) command
          (if_either P (ltb 0 (available_radio_tx_bytes u.partner.serial)) sent rest)))

  pub transmit_next-GoesOn :
      (t : Turn) (u : Exchange)
      → IsFew u
      → 2 < t.max_resends
      → ¬ u.partner.state ≡ reset
      → GoesOn u (transmit_next encrypt t u)
  transmit_next-GoesOn t u few high below =
      transmit_next-one_of (GoesOn u) t u (send_saved-GoesOn (xmit_heartbeat encrypt) t u below)
        (retry-GoesOn t u few high below) (send_command-GoesOn t u below)
        (send_data-GoesOn t u few below) (same-GoesOn u few below)

  pub transmit_next-IsFew :
      (t : Turn) (u : Exchange)
      → IsFew u
      → ¬ u.partner.state ≡ reset
      → IsFew (transmit_next encrypt t u)
  transmit_next-IsFew t u few below =
      transmit_next-one_of IsFew t u (send_saved-GoesOn (xmit_heartbeat encrypt) t u below).few
        (retry-IsFew t u few below) (send_command-GoesOn t u below).few
        (send_data-GoesOn t u few below).few few

  pub send_ack-IsFew : (t : Turn) (u : Exchange) → IsFew u → IsFew (send_ack encrypt t u)
  unfolding send_ack set_heartbeat_short
  send_ack-IsFew t u few =
      let (once, kept, same, state) = transmit-few (xmit_ack encrypt) t u in ground arith

  pub acked-IsFew :
      (t : Turn) (s : Serial) (u : Exchange)
      → IsFew u
      → IsFew (send_ack encrypt t (with_serial s u))
  acked-IsFew t s u few =
      send_ack-IsFew t (with_serial s u) (record { sent = few.sent; kept = few.kept })

  pub process_frame-IsFew :
      (type : PacketType) (rx_data : List ℕ) (t : Turn) (u : Exchange)
      → IsFew u
      → IsFew (process_frame encrypt type rx_data t u)
  unfolding process_frame break_link set_heartbeat_long
  process_frame-IsFew type rx_data t u few =
      elim type as (λ k. IsFew (process_frame encrypt k rx_data t u)) [
        | find_partner ↦ record { sent = few.sent; kept = few.kept }
        | heartbeat ↦ send_ack-IsFew t u few
        | duplicate ↦ send_ack-IsFew t u few
        | data_frame ↦ acked-IsFew t _ u few
        | data_ack ↦ record { sent = few.sent; kept = few.kept }
        | remote_command ↦ acked-IsFew t _ u few
        | remote_command_response ↦ acked-IsFew t _ u few
        | _ ↦ few
      ]
