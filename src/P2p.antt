-- ===== src/P2p.antt =====
-- The three-way handshake of a point-to-point link: the states RADIO_P2P_LINK_DOWN to
-- RADIO_P2P_WAIT_TX_ZERO_ACKS_DONE of `updateRadioState`, `enterLinkUp` and `discardPreviousData`
-- (Firmware/LoRaSerial/States.ino), with the interrupt and the timers of
-- Firmware/LoRaSerial/Radio.ino. What `rcvDatagram` returns is an input here, and a frame that is sent
-- is a result. The estimate of the other clock's time (timestampOffset) is left out.
pub mod Steps
pub mod Completes
pub mod Enters
pub mod Up
mod Tests
use spark_fun_lo_ra_serial.Base.{
  ℕ, ◌+◌, ◌-◌, ◌*◌, ◌/◌, ◌%◌, Bool, true, false, not, Option, none, some, if◌then◌else◌, leb, ltb,
  ◌==◌, ◌&&◌, u16, elapsed,
}
use spark_fun_lo_ra_serial.Settings.{Settings}
use spark_fun_lo_ra_serial.Datagram.{PacketType, find_partner, sync_clocks, zero_acks, Circuit}
use spark_fun_lo_ra_serial.Link.{zero_acks_of}
use spark_fun_lo_ra_serial.Serial.{Serial, Port}
use spark_fun_lo_ra_serial.Serial.Output.{output_serial_data}
use spark_fun_lo_ra_serial.Channel.{hop_channel}
use spark_fun_lo_ra_serial.Frame.{header_bytes, trailer_bytes, clock_millis_bytes, max_packet_size}

-- The states of `RadioStates` (Firmware/LoRaSerial/settings.h) of a point-to-point link
pub data RadioState : Type 0 where
  link_down wait_tx_find_partner_done wait_sync_clocks : RadioState
  wait_tx_sync_clocks_done wait_zero_acks wait_tx_zero_acks_done : RadioState
  link_up link_up_wait_tx_done : RadioState
  reset : RadioState

-- The settings and the air times of the frames that the timers are computed from
pub record Timing : Type 0 where
  pub heartbeat_timeout : ℕ  -- uint16_t
  pub overhead_time : ℕ  -- uint16_t
  pub tx_to_rx_usec : ℕ
  pub frame_air_time_usec : ℕ
  pub tx_sync_clocks_usec : ℕ
  pub tx_data_ack_usec : ℕ
  pub tx_heartbeat_usec : ℕ

-- What one call of `updateRadioState` meets: the time, whether the modem is receiving, what
-- `rcvDatagram` and `transmitDatagram` return, and the library's random numbers.
pub record Moment : Type 0 where
  pub port : Port
  pub receiving : Bool
  pub received : PacketType
  pub sends : Bool
  pub random : ℕ → ℕ → ℕ
  pub timing : Timing

pub record Partner : Type 0 where
  pub state : RadioState
  pub serial : Serial
  pub vc : Circuit  -- virtualCircuitList[0]
  pub channel_number : ℕ  -- uint8_t
  pub channel_timer_msec : ℕ  -- 0 while the channel timer is off
  pub channel_timer_start : ℕ
  pub start_channel_timer_pending : Bool
  pub time_to_hop : Bool
  pub clock_sync_receiver : Bool
  pub transaction_complete : Bool
  pub heartbeat_timer : ℕ
  pub heartbeat_random_time : ℕ  -- uint16_t
  pub random_time : ℕ  -- uint16_t
  pub datagram_timer : ℕ
  pub ack_timer : ℕ
  pub sf6_expected_size : ℕ  -- uint8_t
  pub last_link_up_time : ℕ

-- `startChannelTimer()`
pub start_channel_timer : ℕ → Partner → Partner
start_channel_timer now p = record p {
  time_to_hop = false;
  channel_timer_start = now;
  channel_timer_msec = p.serial.settings.max_dwell_time;
}

pub stop_channel_timer : Partner → Partner
stop_channel_timer p = record p { channel_timer_msec = 0; time_to_hop = false }

-- `transactionCompleteISR`: a frame has been sent or received.
unfoldable pub transaction_complete_isr : ℕ → Partner → Partner
unfolding start_channel_timer
transaction_complete_isr now p =
    let p' =
      if p.start_channel_timer_pending
      then record (start_channel_timer now p) { start_channel_timer_pending = false }
      else p in
    record p' { transaction_complete = true }

pub hop : Partner → Partner
hop p = record p {
  time_to_hop = false;
  channel_number = hop_channel true 1 p.serial.settings.number_of_channels p.channel_number;
}

-- With spread factor 6, the size that is expected is used once.
pub return_to_receiving : Moment → Partner → Partner
return_to_receiving m p =
    if m.receiving
    then p
    else if ltb 6 p.serial.settings.radio_spread_factor
    then p
    else record p { sf6_expected_size = max_packet_size }

-- `rcvDatagram`, as far as the states go
pub received_frame : Moment → Partner → Partner
unfolding return_to_receiving
received_frame m p = return_to_receiving m (record p { transaction_complete = false })

abbrev reply_time : Timing → ℕ
reply_time t = u16 (
    t.heartbeat_timeout
    + 131072
    - (t.tx_heartbeat_usec + t.tx_data_ack_usec + 2 * t.tx_to_rx_usec) / 1000 % 65536
    - 2 * t.overhead_time % 65536)

pub set_heartbeat_short : Moment → Partner → Partner
set_heartbeat_short m p =
    let time = reply_time m.timing in
    record p {
      heartbeat_timer = m.port.millis;
      heartbeat_random_time = u16 (m.random (time * 2 / 10) (time / 2));
    }

pub set_heartbeat_long : Moment → Partner → Partner
set_heartbeat_long m p =
    let time = reply_time m.timing in
    record p {
      heartbeat_timer = m.port.millis;
      heartbeat_random_time = u16 (m.random (time * 8 / 10) time);
    }

-- "Slow down FIND_PARTNERs"
pub slow_down : Moment → Partner → Partner
slow_down m p =
    let t = m.timing in
    let dwell = p.serial.settings.max_dwell_time in
    record p {
      random_time =
          if ltb (t.tx_data_ack_usec / 1000) dwell
          then u16 (m.random (dwell * 2) (dwell * 4))
          else u16 (m.random (t.tx_data_ack_usec * 4) (t.tx_data_ack_usec * 8) / 1000);
    }

-- A frame that starts to be sent sets the datagram timer.
abbrev sent_at : Moment → Partner → Partner
sent_at m p = record p { datagram_timer = m.port.millis }

pub discard_previous_data : Moment → Partner → Partner
discard_previous_data m p =
    let s = output_serial_data true m.port p.serial in
    record p {
      serial = record s {
        radio_tx = record s.radio_tx { tail = s.radio_tx.head };
        tx = record s.tx { tail = s.tx.head };
        command_rx = record s.command_rx { tail = s.command_rx.head };
        command_tx = record s.command_tx { tail = s.command_tx.head };
        wait_remote_command_response = false;
      };
    }

pub enter_link_up : Moment → Partner → Partner
unfolding hop discard_previous_data
enter_link_up m p =
    let home = hop (record p { channel_number = 0 }) in
    let fresh = discard_previous_data m (record home { vc = zero_acks_of p.vc }) in
    record fresh { ack_timer = 0; last_link_up_time = m.port.millis; state = link_up }

-- The sizes of the short frames that are waited for with spread factor 6
abbrev short_frame : Partner → ℕ
short_frame p =
    header_bytes p.serial.settings + clock_millis_bytes + trailer_bytes p.serial.settings

-- After a timeout the link is down again.
pub give_up : Moment → Partner → Partner
unfolding stop_channel_timer set_heartbeat_short slow_down return_to_receiving
give_up m p =
    let late = slow_down m (set_heartbeat_short m (stop_channel_timer p)) in
    record (return_to_receiving m (record late { sf6_expected_size = short_frame p })) {
      state = link_down;
    }

-- SYNC_CLOCKS is the answer to FIND_PARTNER.
abbrev answer_find_partner : Moment → Bool → Partner → Partner × Option PacketType
answer_find_partner m pending p =
    if m.sends
    then (
      record (sent_at m p) {
        start_channel_timer_pending = pending;
        sf6_expected_size = short_frame p;
        state = wait_tx_sync_clocks_done;
      },
      some sync_clocks,
    )
    else (p, none)

pub update_link_down : Moment → Partner → Partner × Option PacketType
unfolding stop_channel_timer received_frame
update_link_down m q =
    let home = record q { channel_number = 0 } in
    let p = if home.channel_timer_msec == 0 then home else stop_channel_timer home in
    if p.transaction_complete
    then elim m.received [
      | find_partner ↦
          answer_find_partner m true (record (received_frame m p) { clock_sync_receiver = false })
      | _ ↦ (received_frame m p, none)
    ]
    else if not m.receiving
        && leb p.random_time (elapsed m.port.millis p.heartbeat_timer)
        && m.sends
    then (
      record (sent_at m p) { sf6_expected_size = short_frame p; state = wait_tx_find_partner_done },
      some find_partner,
    )
    else (p, none)

pub update_wait_sync_clocks : Moment → Partner → Partner × Option PacketType
unfolding stop_channel_timer received_frame hop give_up
update_wait_sync_clocks m p =
    if p.transaction_complete
    then elim m.received [
      | sync_clocks ↦
          let hopped = hop (received_frame m p) in
          if m.sends
          then (
            record (sent_at m hopped) {
              sf6_expected_size = max_packet_size;
              state = wait_tx_zero_acks_done;
            },
            some zero_acks,
          )
          else (hopped, none)
      | find_partner ↦
          answer_find_partner m true (record (stop_channel_timer (received_frame m p)) {
            start_channel_timer_pending = true;
          })
      | _ ↦ (
        record (stop_channel_timer (received_frame m p)) { start_channel_timer_pending = true },
        none,
      )
    ]
    else if leb
        ((m.timing.frame_air_time_usec + m.timing.tx_sync_clocks_usec) / 1000
          + m.timing.overhead_time
          + m.timing.tx_to_rx_usec / 1000)
        (elapsed m.port.millis p.datagram_timer)
    then (give_up m (record p { start_channel_timer_pending = false }), none)
    else (p, none)

pub update_wait_zero_acks : Moment → Partner → Partner × Option PacketType
unfolding received_frame set_heartbeat_long enter_link_up give_up
update_wait_zero_acks m p =
    if p.transaction_complete
    then elim m.received [
      | zero_acks ↦ (enter_link_up m (set_heartbeat_long m (received_frame m p)), none)
      | _ ↦ (received_frame m p, none)
    ]
    else if leb
        (m.timing.overhead_time
          + (m.timing.frame_air_time_usec + m.timing.tx_data_ack_usec + m.timing.tx_to_rx_usec)
            / 1000)
        (elapsed m.port.millis p.datagram_timer)
    then (record (give_up m p) { clock_sync_receiver = true }, none)
    else (p, none)

-- The states that wait for the end of a transmission
abbrev when_sent : (Partner → Partner) → Partner → Partner × Option PacketType
when_sent next p =
    if p.transaction_complete
    then (next (record p { transaction_complete = false }), none)
    else (p, none)

pub update_radio_state : Moment → Partner → Partner × Option PacketType
unfolding update_link_down update_wait_sync_clocks update_wait_zero_acks return_to_receiving hop
    set_heartbeat_short enter_link_up
update_radio_state m p = elim p.state [
  | link_down ↦ update_link_down m p
  | wait_tx_find_partner_done ↦
      when_sent
        (λ q. record (return_to_receiving m (record q { start_channel_timer_pending = true })) {
          state = wait_sync_clocks;
        })
        p
  | wait_sync_clocks ↦ update_wait_sync_clocks m p
  | wait_tx_sync_clocks_done ↦
      when_sent (λ q. record (return_to_receiving m (hop q)) { state = wait_zero_acks }) p
  | wait_zero_acks ↦ update_wait_zero_acks m p
  | wait_tx_zero_acks_done ↦ when_sent (λ q. enter_link_up m (set_heartbeat_short m q)) p
  | link_up ↦ (p, none)
  | link_up_wait_tx_done ↦ (p, none)
  | reset ↦ (p, none)
]
