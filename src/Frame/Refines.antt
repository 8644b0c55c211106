-- ===== src/Frame/Refines.antt =====
-- On a point-to-point link, `rcvDatagram` of the bytes of `transmitDatagram`
-- (Firmware/LoRaSerial/Radio.ino) is the step on packet numbers that the model of a session takes.
use spark_fun_lo_ra_serial.Base.{ℕ, ◌+◌, ◌-◌, List, some, length, take, drop, u32}
use spark_fun_lo_ra_serial.Datagram.{PacketType}
use spark_fun_lo_ra_serial.Link.{Receiver, Arrival, verify_packet_number}
use spark_fun_lo_ra_serial.Frame.{header_bytes}
use spark_fun_lo_ra_serial.Frame.Transmit.{Transmitter, Sending, select_control, ms_to_next_hop}
use spark_fun_lo_ra_serial.Frame.Parse.{Rx}
use spark_fun_lo_ra_serial.Frame.Trip.{timer_of}
use spark_fun_lo_ra_serial.Frame.Receive.{Radio, Listening, receiver}

-- What the check of the number is given
abbrev pub arrival : Listening → ℕ → Arrival
arrival at n = record {
  operating_mode = at.settings.operating_mode;
  in_command_mode = at.in_command_mode;
  rx_data_bytes = n;
  command_space = at.command_space;
  serial_space = at.serial_space;
  millis = at.millis;
}

-- The data that a transmitter holds
abbrev pub outgoing : Sending → Transmitter → List ℕ
outgoing at t =
    take (t.end_of_tx_data - header_bytes at.settings) (drop (header_bytes at.settings) t.packet)

-- The parts of a frame on a point-to-point link
abbrev pub arrived : Sending → Transmitter → Rx
arrived at t = record {
  control = select_control at t;
  ms_to_next_hop_remote = timer_of at.settings (ms_to_next_hop at);
  rx_data = outgoing at t;
  vc = some 0;
  rx_dest_vc = 0;
  rx_src_vc = 0;
}

-- The step on packet numbers
abbrev pub step : Listening → Radio → Rx → PacketType × Receiver
step at r x =
    verify_packet_number (arrival at (length x.rx_data)) (receiver r 0) x.control.type
      x.control.ack_number

-- The receiver when it looks at a number: one frame more is counted.
abbrev pub counted : Radio → Radio
counted r = record r { frames_received = u32 (r.frames_received + 1) }
