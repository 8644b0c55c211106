-- ===== src/P2p/Tests.antt =====
-- Two radios at rest that find each other.
use spark_fun_lo_ra_serial.Base.{◌≡◌, refl, true, false, some, ◌∷◌, []}
use spark_fun_lo_ra_serial.Datagram.{find_partner, sync_clocks, zero_acks}
use spark_fun_lo_ra_serial.Serial.Sample.{idle, port}
use spark_fun_lo_ra_serial.Circuits.{outside}
use spark_fun_lo_ra_serial.P2p.{Partner, Moment, link_down, wait_sync_clocks, wait_zero_acks}
use spark_fun_lo_ra_serial.P2p.Completes.{handshake, IsLinked, handshake_completes, no_clock_source}

abbrev moment : Moment
moment = record {
  port = port;
  receiving = false;
  received = zero_acks;
  sends = true;
  random = λ low high. low;
  timing = record {
    heartbeat_timeout = 5000;
    overhead_time = 10;
    tx_to_rx_usec = 1000;
    frame_air_time_usec = 100000;
    tx_sync_clocks_usec = 30000;
    tx_data_ack_usec = 25000;
    tx_heartbeat_usec = 30000;
  };
}

abbrev resting : Partner
resting = record {
  state = link_down;
  serial = idle;
  vc = outside;
  channel_number = 0;
  channel_timer_msec = 0;
  channel_timer_start = 0;
  start_channel_timer_pending = false;
  time_to_hop = false;
  clock_sync_receiver = true;
  transaction_complete = false;
  heartbeat_timer = 0;
  heartbeat_random_time = 0;
  random_time = 800;
  datagram_timer = 0;
  ack_timer = 0;
  sf6_expected_size = 255;
  last_link_up_time = 0;
}

abbrev asking : Partner
asking = record resting { state = wait_sync_clocks; start_channel_timer_pending = true }

abbrev confirming : Partner
confirming = record resting { state = wait_zero_acks; transaction_complete = true }

handshake_completes_example :
    let h = handshake (λ n. moment) (λ n. n) resting resting in
    IsLinked resting resting h.asker h.answerer
    × (h.frames ≡ some find_partner ∷ some sync_clocks ∷ some zero_acks ∷ [])
    × (h.asker.clock_sync_receiver ≡ true)
    × (h.answerer.clock_sync_receiver ≡ false)
handshake_completes_example =
    handshake_completes (λ n. moment) (λ n. n) resting resting (λ n. refl) refl
      (record { down = refl; nothing_heard = refl; quiet = refl; due = refl }) refl

no_clock_source_example :
    let h = handshake (λ n. moment) (λ n. n) resting asking in
    IsLinked resting asking h.asker h.answerer
    × (h.asker.clock_sync_receiver ≡ true)
    × (h.answerer.clock_sync_receiver ≡ true)
no_clock_source_example =
    no_clock_source (λ n. moment) (λ n. n) resting asking (λ n. refl) refl
      (record { down = refl; nothing_heard = refl; quiet = refl; due = refl }) refl
