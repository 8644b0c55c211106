-- ===== src/P2p/Up/Tests.antt =====
-- A link that waits for an acknowledgement.
use spark_fun_lo_ra_serial.Base.{ℕ, ◌*◌, ◌≡◌, refl, true, false, List, [], ◌∷◌, replicate, arith}
use spark_fun_lo_ra_serial.Datagram.{data_frame}
use spark_fun_lo_ra_serial.Circuits.{outside}
use spark_fun_lo_ra_serial.Frame.{Control}
use spark_fun_lo_ra_serial.Frame.Receive.{no_error}
use spark_fun_lo_ra_serial.Frame.Whitening.{radio_compute_whitening}
use spark_fun_lo_ra_serial.Serial.Sample.{idle, port}
use spark_fun_lo_ra_serial.P2p.{link_up, reset}
use spark_fun_lo_ra_serial.P2p.Up.{Exchange, Turn, started, update_exchange}
use spark_fun_lo_ra_serial.P2p.Up.Sends.{IsFew}
use spark_fun_lo_ra_serial.P2p.Up.Limit.{update_exchange-IsFew, never_gives_up}

abbrev turn : Turn
turn = record {
  moment = record {
    port = port;
    receiving = false;
    received = data_frame;
    sends = true;
    random = λ low high. low;
    timing = record {
      heartbeat_timeout = 5000;
      overhead_time = 10;
      tx_to_rx_usec = 1000;
      frame_air_time_usec = 100000;
      tx_sync_clocks_usec = 30000;
      tx_data_ack_usec = 25000;
      tx_heartbeat_usec = 30000;
    };
  };
  start = started;
  incoming = [];
  read_state = no_error;
  air_time_usec = λ size. 1000 * size;
  response_delay_divisor = 4;
  max_resends = 3;
  frames_to_yield = 3;
  max_frame_air_time_msec = 300;
}

abbrev unlimited : Turn
unlimited = record turn { max_resends = 0 }

abbrev numbered : Control
numbered = record { type = data_frame; ack_number = 0; request_yield = false; ignore_frame = false }

-- The frame was sent twice, and the acknowledgement is late.
abbrev late : Exchange
late = record {
  partner = record {
    state = link_up;
    serial = record idle { outgoing_packet = replicate 255 0 };
    vc = outside;
    channel_number = 3;
    channel_timer_msec = 400;
    channel_timer_start = 8800;
    start_channel_timer_pending = false;
    time_to_hop = false;
    clock_sync_receiver = true;
    transaction_complete = false;
    heartbeat_timer = 8000;
    heartbeat_random_time = 4000;
    random_time = 800;
    datagram_timer = 8500;
    ack_timer = 8500;
    sf6_expected_size = 255;
    last_link_up_time = 0;
  };
  radio = record {
    circuits = outside ∷ [];
    bad_lengths = 0 ∷ [];
    frames_received = 0;
    datagrams_received = 0;
    bad_frames = 0;
    bad_crc = 0;
    net_id_mismatch = 0;
    duplicate_frames = 0;
    insufficient_space = 0;
    link_down_timer = 7000;
    last_rx_datagram = 7000;
    request_yield = false;
    yield_timer_start = 0;
  };
  control = numbered;
  datagram_size = 8;
  frame_sent_count = 2;
  rexmt_buffer = replicate 255 7;
  rexmt_control = numbered;
  rexmt_length = 8;
  rexmt_frame_sent_count = 1;
  retransmit_timeout = 200;
  messages_sent = 0;
  frames_sent_to_peer = 1;
  frames_sent = 2;
  datagrams_sent = 1;
  lost_frames = 1;
  link_failures = 0;
  air = [];
}

abbrev scrambled : List ℕ → List ℕ → List ℕ
scrambled key frame = radio_compute_whitening frame

late-IsFew : IsFew late
late-IsFew = record { sent = omega arith; kept = omega arith }

update_exchange-IsFew_example : IsFew (update_exchange scrambled scrambled turn late)
update_exchange-IsFew_example = update_exchange-IsFew scrambled scrambled turn late late-IsFew

never_gives_up_example : ¬ (update_exchange scrambled scrambled turn late).partner.state ≡ reset
never_gives_up_example =
    never_gives_up scrambled scrambled turn late late-IsFew (omega arith) refl refl refl
