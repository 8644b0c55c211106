-- ===== src/Frame/Tests.antt =====
-- A frame of two bytes on a point-to-point link, and frames that are looked at.
use spark_fun_lo_ra_serial.Base.{
  ℕ, ◌/◌, ◌≡◌, refl, false, List, [], ◌∷◌, ◌++◌, some, replicate, arith,
}
use spark_fun_lo_ra_serial.Datagram.{data_frame}
use spark_fun_lo_ra_serial.Settings.{Settings}
use spark_fun_lo_ra_serial.Serial.Sample.{settings}
use spark_fun_lo_ra_serial.Circuits.{outside}
use spark_fun_lo_ra_serial.Frame.{Control, control_of}
use spark_fun_lo_ra_serial.Frame.Crc.{
  crc16, crc16_from, crc16_byte, crc16_table, divide, crc16-eq-divide,
}
use spark_fun_lo_ra_serial.Frame.Whitening.{radio_compute_whitening, radio_compute_whitening_twice}
use spark_fun_lo_ra_serial.Frame.Transmit.{Transmitter, Sending, frame_header}
use spark_fun_lo_ra_serial.Frame.Parse.{
  refused, bad_frame, check_net_id, check_crc, take_timer, take_data, check_vc, parse_frame,
  decode_frame,
}
use spark_fun_lo_ra_serial.Frame.Delivery.{received, parse_frame_last_byte}
use spark_fun_lo_ra_serial.Frame.Accepts.{Addressed, parse_frame-Addressed}
use spark_fun_lo_ra_serial.Frame.Receive.{Radio, Listening}
use spark_fun_lo_ra_serial.Frame.Xmit.{xmit_sync_clocks, xmit_ack, sync_clocks_refused}

abbrev digits : List ℕ
digits = 0x31 ∷ 0x32 ∷ 0x33 ∷ 0x34 ∷ 0x35 ∷ 0x36 ∷ 0x37 ∷ 0x38 ∷ 0x39 ∷ []

-- The known check value of this CRC
crc16_of_digits : crc16 digits ≡ 0x29b1
unfolding crc16_from crc16_byte crc16_table
crc16_of_digits = refl

crc16-eq-divide_example : crc16 digits ≡ divide 0xffff digits
crc16-eq-divide_example = crc16-eq-divide digits (omega arith)

abbrev plain : Control
plain = record { type = data_frame; ack_number = 0; request_yield = false; ignore_frame = false }

abbrev transmitter : Transmitter
transmitter = record {
  packet = 0 ∷ 0 ∷ 0 ∷ 0 ∷ b'h' ∷ b'i' ∷ replicate 249 0;
  end_of_tx_data = 6;
  control = plain;
  circuits = outside ∷ [];
  messages_sent = 0 ∷ [];
  datagrams_sent = 0;
  tx_dest_vc = 0;
}

abbrev sending : Sending
sending = record {
  settings = settings;
  radio_tx_bytes = 0;
  channel_timer_msec = 400;
  channel_timer_start = 1000;
  millis = 1100;
  null_circuit = outside;
}

abbrev radio : Radio
radio = record {
  circuits = outside ∷ [];
  bad_lengths = 0 ∷ [];
  frames_received = 0;
  datagrams_received = 0;
  bad_frames = 0;
  bad_crc = 0;
  net_id_mismatch = 0;
  duplicate_frames = 0;
  insufficient_space = 0;
  link_down_timer = 0;
  last_rx_datagram = 0;
  request_yield = false;
  yield_timer_start = 0;
}

abbrev listening : Listening
listening = record {
  settings = settings;
  my_vc = 1;
  in_command_mode = false;
  command_space = 100;
  serial_space = 4096;
  millis = 1200;
}

-- A cipher that undoes itself
abbrev scramble : List ℕ → List ℕ → List ℕ
scramble key frame = radio_compute_whitening frame

abbrev body : List ℕ
body = frame_header settings plain 300 2 ++ (b'h' ∷ b'i' ∷ [])

parse_frame_last_byte_example :
    parse_frame settings 1 (body ++ (crc16 body / 256 ∷ 99 ∷ []))
    ≡ received settings 1 plain 300 (b'h' ∷ b'i' ∷ [])
parse_frame_last_byte_example =
    parse_frame_last_byte settings 1 plain 300 (b'h' ∷ b'i' ∷ []) 99 refl (omega arith)
      (omega arith) refl

-- Net ID 192, a data frame, 300 ms, two bytes and one byte of the CRC that agrees
abbrev heard : List ℕ
heard = 192 ∷ 3 ∷ 44 ∷ 1 ∷ b'h' ∷ b'i' ∷ 0x6e ∷ 0x42 ∷ []

parse_frame-Addressed_example : Addressed settings 1 heard (record {
  control = plain;
  ms_to_next_hop_remote = some 300;
  rx_data = b'h' ∷ b'i' ∷ [];
  vc = some 0;
  rx_dest_vc = 0;
  rx_src_vc = 0;
})
unfolding parse_frame crc16_from crc16_byte crc16_table control_of check_net_id check_crc take_timer
    take_data check_vc
parse_frame-Addressed_example = parse_frame-Addressed settings 1 heard refl

abbrev six : Settings
six = record settings { radio_spread_factor = 6 }

abbrev sending_six : Sending
sending_six = record sending { settings = six }

abbrev idle_six : Transmitter
idle_six = record transmitter { packet = replicate 255 0; end_of_tx_data = 5 }

sync_clocks_refused_example :
    (parse_frame six 1
        (decode_frame scramble six (xmit_sync_clocks scramble sending_six 3 idle_six).0)
      ≡ refused bad_frame)
    × (parse_frame six 1 (decode_frame scramble six (xmit_ack scramble sending_six idle_six).0)
        ≡ refused bad_frame)
sync_clocks_refused_example =
    sync_clocks_refused scramble scramble (λ key frame. radio_compute_whitening_twice frame)
      sending_six idle_six 3 1 (record { full = refl; empty = refl }) refl refl refl (omega arith)
      (omega arith)
