-- ===== src/P2p/Steps.antt =====
-- The steps of a handshake in which every frame arrives (`updateRadioState` of
-- Firmware/LoRaSerial/States.ino).
use spark_fun_lo_ra_serial.Base.{ℕ, ◌≡◌, true, false, Option, some, leb, elapsed, arith}
use spark_fun_lo_ra_serial.Datagram.{PacketType, find_partner, sync_clocks, zero_acks}
use spark_fun_lo_ra_serial.Link.{zero_acks_of}
use spark_fun_lo_ra_serial.Channel.{hop_channel}
use spark_fun_lo_ra_serial.P2p.{
  Partner, Moment, link_down, wait_tx_find_partner_done, wait_sync_clocks, wait_tx_sync_clocks_done,
  wait_zero_acks, wait_tx_zero_acks_done, link_up, start_channel_timer, stop_channel_timer,
  transaction_complete_isr, hop, return_to_receiving, received_frame, set_heartbeat_short,
  set_heartbeat_long, discard_previous_data, enter_link_up, update_link_down,
  update_wait_sync_clocks, update_wait_zero_acks, update_radio_state,
}

-- A transmission or a reception ends, and the main loop comes round.
abbrev pub completed : ℕ → Moment → Partner → Partner × Option PacketType
completed now m p = update_radio_state m (transaction_complete_isr now p)

-- What the steps keep
pub record Kept (p q : Partner) : Type 0 where
  pub serial : q.serial ≡ p.serial
  pub vc : q.vc ≡ p.vc
  pub read : q.transaction_complete ≡ false

pub asks :
    (m : Moment) (p : Partner)
    → p.state ≡ link_down
    → p.transaction_complete ≡ false
    → m.receiving ≡ false
    → leb p.random_time (elapsed m.port.millis p.heartbeat_timer) ≡ true
    → m.sends ≡ true
    → let (q, f) = update_radio_state m p in
      Kept p q
      × (f ≡ some find_partner)
      × (q.state ≡ wait_tx_find_partner_done)
      × (q.clock_sync_receiver ≡ p.clock_sync_receiver)
unfolding update_radio_state update_link_down stop_channel_timer
asks m p st tc quiet due sends = ground arith

pub has_asked :
    (now : ℕ) (m : Moment) (p : Partner)
    → p.state ≡ wait_tx_find_partner_done
    → let q = (completed now m p).0 in
      Kept p q
      × (q.state ≡ wait_sync_clocks)
      × (q.start_channel_timer_pending ≡ true)
      × (q.clock_sync_receiver ≡ p.clock_sync_receiver)
unfolding update_radio_state transaction_complete_isr start_channel_timer return_to_receiving
has_asked now m p st = ground arith

pub answers :
    (now : ℕ) (m : Moment) (p : Partner)
    → p.state ≡ link_down
    → m.received ≡ find_partner
    → m.sends ≡ true
    → let (q, f) = completed now m p in
      Kept p q
      × (f ≡ some sync_clocks)
      × (q.state ≡ wait_tx_sync_clocks_done)
      × (q.start_channel_timer_pending ≡ true)
      × (q.clock_sync_receiver ≡ false)
unfolding update_radio_state update_link_down stop_channel_timer received_frame return_to_receiving
    transaction_complete_isr start_channel_timer
answers now m p st got sends = ground arith

-- The same frame while an answer to FIND_PARTNER is awaited: the source of the clock stays open.
pub answers_waiting :
    (now : ℕ) (m : Moment) (p : Partner)
    → p.state ≡ wait_sync_clocks
    → m.received ≡ find_partner
    → m.sends ≡ true
    → let (q, f) = completed now m p in
      Kept p q
      × (f ≡ some sync_clocks)
      × (q.state ≡ wait_tx_sync_clocks_done)
      × (q.start_channel_timer_pending ≡ true)
      × (q.clock_sync_receiver ≡ p.clock_sync_receiver)
unfolding update_radio_state update_wait_sync_clocks stop_channel_timer received_frame
    return_to_receiving transaction_complete_isr start_channel_timer
answers_waiting now m p st got sends = ground arith

pub has_answered :
    (now : ℕ) (m : Moment) (p : Partner)
    → p.state ≡ wait_tx_sync_clocks_done
    → p.start_channel_timer_pending ≡ true
    → let q = (completed now m p).0 in
      Kept p q
      × (q.state ≡ wait_zero_acks)
      × (q.start_channel_timer_pending ≡ false)
      × (q.channel_timer_msec ≡ p.serial.settings.max_dwell_time)
      × (q.clock_sync_receiver ≡ p.clock_sync_receiver)
unfolding update_radio_state hop return_to_receiving transaction_complete_isr start_channel_timer
has_answered now m p st pending = ground arith

pub confirms :
    (now : ℕ) (m : Moment) (p : Partner)
    → p.state ≡ wait_sync_clocks
    → p.start_channel_timer_pending ≡ true
    → m.received ≡ sync_clocks
    → m.sends ≡ true
    → let (q, f) = completed now m p in
      Kept p q
      × (f ≡ some zero_acks)
      × (q.state ≡ wait_tx_zero_acks_done)
      × (q.start_channel_timer_pending ≡ false)
      × (q.channel_timer_msec ≡ p.serial.settings.max_dwell_time)
      × (q.clock_sync_receiver ≡ p.clock_sync_receiver)
unfolding update_radio_state update_wait_sync_clocks hop received_frame return_to_receiving
    transaction_complete_isr start_channel_timer
confirms now m p st pending got sends = ground arith

-- A link as the handshake leaves it
pub record IsFresh (p q : Partner) : Type 0 where
  pub up : q.state ≡ link_up
  pub numbers : q.vc ≡ zero_acks_of p.vc
  pub no_wait : q.ack_timer ≡ 0
  pub left_home : q.channel_number ≡ hop_channel true 1 p.serial.settings.number_of_channels 0
  pub nothing_to_radio : q.serial.radio_tx.tail ≡ q.serial.radio_tx.head
  pub nothing_to_host : q.serial.tx.tail ≡ q.serial.tx.head
  pub no_command : q.serial.command_rx.tail ≡ q.serial.command_rx.head
  pub no_response : q.serial.command_tx.tail ≡ q.serial.command_tx.head

pub has_confirmed :
    (now : ℕ) (m : Moment) (p : Partner)
    → p.state ≡ wait_tx_zero_acks_done
    → p.start_channel_timer_pending ≡ false
    → let q = (completed now m p).0 in
      IsFresh p q
      × (q.channel_timer_msec ≡ p.channel_timer_msec)
      × (q.clock_sync_receiver ≡ p.clock_sync_receiver)
unfolding update_radio_state set_heartbeat_short enter_link_up hop discard_previous_data
    transaction_complete_isr
has_confirmed now m p st pending = ground arith

pub is_confirmed :
    (now : ℕ) (m : Moment) (p : Partner)
    → p.state ≡ wait_zero_acks
    → p.start_channel_timer_pending ≡ false
    → m.received ≡ zero_acks
    → let q = (completed now m p).0 in
      IsFresh p q
      × (q.channel_timer_msec ≡ p.channel_timer_msec)
      × (q.clock_sync_receiver ≡ p.clock_sync_receiver)
unfolding update_radio_state update_wait_zero_acks received_frame return_to_receiving
    set_heartbeat_long enter_link_up hop discard_previous_data transaction_complete_isr
is_confirmed now m p st pending got = ground arith
