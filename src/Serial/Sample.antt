-- ===== src/Serial/Sample.antt =====
-- States of the serial side to run the code on.
use spark_fun_lo_ra_serial.Base.{true, false, [], ◌∷◌, replicate}
use spark_fun_lo_ra_serial.Settings.{Settings, point_to_point}
use spark_fun_lo_ra_serial.Ring.{Ring}
use spark_fun_lo_ra_serial.Serial.{Serial, Port}

abbrev pub settings : Settings
settings = record {
  flow_control = true;
  invert_cts = false;
  invert_rts = false;
  echo = false;
  serial_timeout_before_sending_frame_ms = 50;
  rts_off_bytes = 32;
  operating_mode = point_to_point;
  server = false;
  net_id = 192;
  verify_rx_net_id = true;
  frequency_hop = true;
  number_of_channels = 50;
  max_dwell_time = 400;
  radio_spread_factor = 9;
  enable_crc16 = true;
  encrypt_data = true;
  data_scrambling = false;
  encryption_key = [];
}

abbrev pub empty_ring : Ring
empty_ring = record { buf = replicate 8 0; size = 8; head = 0; tail = 0 }

-- "+a+" round the end of the array
abbrev pub typed : Ring
typed = record { buf = b'+' ∷ 0 ∷ 0 ∷ 0 ∷ 0 ∷ 0 ∷ b'+' ∷ b'a' ∷ []; size = 8; head = 1; tail = 6 }

abbrev pub idle : Serial
idle = record {
  settings = settings;
  rx = typed;
  radio_tx = empty_ring;
  tx = empty_ring;
  command_rx = empty_ring;
  command_tx = empty_ring;
  host = [];
  printer_to_serial = true;
  pin_cts = 4;
  pin_rts = 5;
  rts_asserted = true;
  rts_level = false;
  outgoing_packet = replicate 6 0;
  end_of_tx_data = 2;
  header_bytes = 2;
  max_datagram_size = 2;
  command_buffer = replicate 100 0;
  command_length = 0;
  in_command_mode = false;
  remote_command_response = false;
  wait_remote_command_response = false;
  escape_chars_received = 0;
  last_escape_char_entered_ms = 0;
  last_byte_received_ms = 0;
  force_radio_reset = false;
  write_on_command_exit = false;
  temp_settings = settings;
}

abbrev pub ready : Serial
ready = record idle { radio_tx = typed; tx = typed }

abbrev pub port : Port
port = record { millis = 9000; cts_low = λ _. true; transaction_complete = λ _. false }

abbrev pub blocked : Port
blocked = record port { cts_low = λ _. false }
