-- ===== src/Frame/Delivery.antt =====
-- `transmitDatagram` and `rcvDatagram` of Firmware/LoRaSerial/Radio.ino together: what arrives of a
-- frame.
use spark_fun_lo_ra_serial.Base.{
  ℕ, ◌/◌, if-true, take-length, ◌+◌, ◌≤◌, ◌<◌, ◌≡◌, refl, sym, ap, ◌∙◌, true, false, not, List, [],
  ◌∷◌, ◌++◌, leb, ◌==◌, arith, length, take, append_assoc, length-append, length-take,
}
use spark_fun_lo_ra_serial.Settings.{Settings}
use spark_fun_lo_ra_serial.Frame.{
  Control, control_byte, control_of, trailer_bytes, min_datagram_size,
}
use spark_fun_lo_ra_serial.Frame.Crc.{crc16}
use spark_fun_lo_ra_serial.Frame.Fields.{OnAir, control_of-control_byte}
use spark_fun_lo_ra_serial.Frame.Transmit.{frame_header}
use spark_fun_lo_ra_serial.Frame.Trip.{
  net_part, timer_part, size_part, timer_of, header-append, length-frame_header,
  check_net_id-net_part, take_timer-timer_part, take_data-size_part, take_data-refused,
  check_crc_first,
}
use spark_fun_lo_ra_serial.Frame.Parse.{
  Parsed, ok, ◌>>=◌, Rx, check_net_id, check_crc, take_timer, take_data, check_vc, parse_frame,
  refused, guard, bad_frame,
}

-- What the receiver makes of the data, given the control byte and the channel timer of a frame.
unfoldable pub received : Settings → ℕ → Control → ℕ → List ℕ → Parsed Rx
received s my_vc c ms bytes = check_vc s my_vc bytes >>= λ addresses. ok (record {
  control = c;
  ms_to_next_hop_remote = timer_of s ms;
  rx_data = bytes;
  vc = addresses.0;
  rx_dest_vc = addresses.1;
  rx_src_vc = addresses.2;
})

-- A frame of a header, k bytes of which n are data, and a trailer
module _ (s : Settings) (my_vc : ℕ) (c : Control) (ms n k : ℕ) (area trailer : List ℕ)
    (known : OnAir c.type) (number : c.ack_number < 4) (wanted : c.ignore_frame ≡ false)
    (inside : k ≤ length area) (size : length trailer ≡ trailer_bytes s)
    (sound : check_crc s ((frame_header s c ms n ++ take k area) ++ trailer) ≡ ok tt) where
  abbrev pub frame : List ℕ
  frame = (frame_header s c ms n ++ take k area) ++ trailer

  behind : List ℕ
  behind = size_part s n ++ (take k area ++ trailer)

  frame_parts : frame ≡ net_part s ++ (control_byte c ∷ (timer_part s ms ++ behind))
  unfolding behind
  frame_parts =
      append_assoc (frame_header s c ms n) (take k area) trailer
      ∙ header-append s c ms n (take k area ++ trailer)

  length-frame : length frame ≡ k + min_datagram_size s
  length-frame = omega (
    arith,
    length-append (frame_header s c ms n ++ take k area) trailer,
    length-append (frame_header s c ms n) (take k area),
    length-frame_header s c ms n,
    length-take k area,
    size,
  )

  enough : leb (min_datagram_size s) (length frame) ≡ true
  enough = ap (leb (min_datagram_size s)) length-frame ∙ ground arith

  ours : check_net_id s frame ≡ ok (control_byte c ∷ (timer_part s ms ++ behind))
  ours = ap (check_net_id s) frame_parts ∙ check_net_id-net_part s _

  control : control_of (control_byte c) ≡ c
  control = control_of-control_byte c known number

  accepted : guard (not (control_of (control_byte c)).ignore_frame) bad_frame ≡ ok tt
  accepted =
      ap (λ b. guard (not b.ignore_frame) bad_frame) control
      ∙ ap (λ b. guard (not b) bad_frame) wanted

  timed : take_timer s (timer_part s ms ++ behind) ≡ (timer_of s ms, behind)
  timed = take_timer-timer_part s ms behind

  sized :
      take_data s (length frame) behind
      ≡ take_data s (k + min_datagram_size s) (size_part s n ++ (take k area ++ trailer))
  unfolding behind
  sized = ap (λ m. take_data s m (size_part s n ++ (take k area ++ trailer))) length-frame

  pub parse_frame-received :
      n ≤ k
      → (s.radio_spread_factor == 6 ≡ false → n ≡ k)
      → parse_frame s my_vc frame ≡ received s my_vc c ms (take n area)
  unfolding parse_frame received
  parse_frame-received fits exact = rw (enough, ours, sound, accepted, timed, whole, control) refl
    where
      whole : take_data s (length frame) behind ≡ ok (take n area)
      whole = sized ∙ take_data-size_part s n k area trailer fits inside exact

  pub parse_frame-refused :
      s.radio_spread_factor == 6 ≡ true → k < n → parse_frame s my_vc frame ≡ refused bad_frame
  unfolding parse_frame
  parse_frame-refused six long = rw (enough, ours, sound, accepted, timed, none_left) refl
    where
      none_left : take_data s (length frame) behind ≡ refused bad_frame
      none_left = sized ∙ take_data-refused s n k (take k area ++ trailer) six long

-- With the software CRC on, a frame of a valid number and kind that is not to be ignored is
-- received as it was sent whatever its last byte, the low byte of the CRC, is.
pub parse_frame_last_byte :
    (s : Settings) (my_vc : ℕ) (c : Control) (ms : ℕ) (bytes : List ℕ) (y : ℕ)
    → s.enable_crc16 ≡ true
    → OnAir c.type
    → c.ack_number < 4
    → c.ignore_frame ≡ false
    → let body = frame_header s c ms (length bytes) ++ bytes in
      parse_frame s my_vc (body ++ (crc16 body / 256 ∷ y ∷ [])) ≡ received s my_vc c ms bytes
parse_frame_last_byte s my_vc c ms bytes y crc known number wanted =
    ap (λ b. parse_frame s my_vc ((frame_header s c ms n ++ b) ++ two b)) (sym (take-length bytes))
    ∙ parse_frame-received s my_vc c ms n n bytes (two (take n bytes)) known number wanted
        (omega arith) (sym (if-true 2 0 crc))
        (check_crc_first s (frame_header s c ms n ++ take n bytes) y) (omega arith) (λ e. refl)
    ∙ ap (received s my_vc c ms) (take-length bytes)
  where
    n : ℕ
    n = length bytes

    two : List ℕ → List ℕ
    two b = crc16 (frame_header s c ms n ++ b) / 256 ∷ y ∷ []
