-- ===== src/Frame/Sent.antt =====
-- What arrives of a frame of `transmitDatagram` (Firmware/LoRaSerial/Radio.ino), whatever the
-- settings, if both radios have the same.
use spark_fun_lo_ra_serial.Base.{
  if-true, ℕ, suc, ◌+◌, ◌-◌, ◌≤◌, ◌<◌, ◌≡◌, refl, sym, subst, ap, ap₂, ◌∙◌, Bool, true, false, List,
  [], ◌∷◌, ◌++◌, if◌then◌else◌, ◌==◌, arith, length, take, drop, length-drop, Bool-cases, inl, inr,
  u8,
}
use spark_fun_lo_ra_serial.Datagram.{PacketType, find_partner, sync_clocks, zero_acks, data_ack}
use spark_fun_lo_ra_serial.Settings.{Settings}
use spark_fun_lo_ra_serial.Frame.{Control, header_bytes, trailer_bytes, max_packet_size}
use spark_fun_lo_ra_serial.Frame.Fields.{OnAir}
use spark_fun_lo_ra_serial.Frame.Whitening.{radio_compute_whitening, radio_compute_whitening_twice}
use spark_fun_lo_ra_serial.Frame.Transmit.{
  Transmitter, Sending, frame_header, crc_trailer, select_control, ms_to_next_hop, sf6_size,
  datagram_size, encode_frame, transmit_datagram,
}
use spark_fun_lo_ra_serial.Frame.Parse.{parse_frame, decode_frame, refused, bad_frame}
use spark_fun_lo_ra_serial.Frame.Trip.{length-frame_header, check_crc-crc_trailer}
use spark_fun_lo_ra_serial.Frame.Delivery.{parse_frame-refused}

zero-add : (n : ℕ) → 0 + n ≡ n
zero-add n = omega arith

suc-add : (m n : ℕ) → suc m + n ≡ suc (m + n)
suc-add m n = omega arith

take-append_ge : (k : ℕ) (xs ys : List ℕ) → take (length xs + k) (xs ++ ys) ≡ xs ++ take k ys
take-append_ge k [] ys = ap (λ n. take n ys) (zero-add k)
take-append_ge k (x ∷ xs) ys =
    ap (λ n. take n (x ∷ (xs ++ ys))) (suc-add (length xs) k)
    ∙ ap (λ r. x ∷ r) (take-append_ge k xs ys)

length-crc_trailer : (s : Settings) (body : List ℕ) → length (crc_trailer s body) ≡ trailer_bytes s
unfolding crc_trailer
length-crc_trailer s body = ground arith

sf6_size-le : (s : Settings) (t : PacketType) → sf6_size s t ≤ 255
unfolding sf6_size
sf6_size-le s find_partner = ground arith
sf6_size-le s sync_clocks = ground arith
sf6_size-le s zero_acks = ground arith
sf6_size-le s data_ack = ground arith
sf6_size-le s _ = omega arith

datagram_size-le : (s : Settings) (t : PacketType) (n : ℕ) → n ≤ 255 → datagram_size s t n ≤ 255
unfolding datagram_size
datagram_size-le s t n h = elim (Bool-cases (s.radio_spread_factor == 6)) [
  | inl e ↦ rw e (sf6_size-le s t)
  | inr e ↦ rw e h
]

sf6_size-header : (s : Settings) (t : PacketType) → header_bytes s ≤ sf6_size s t
unfolding sf6_size
sf6_size-header s find_partner = omega arith
sf6_size-header s sync_clocks = omega arith
sf6_size-header s zero_acks = omega arith
sf6_size-header s data_ack = omega arith
sf6_size-header s _ = ground arith

datagram_size-header :
    (s : Settings) (t : PacketType) (n : ℕ)
    → s.radio_spread_factor == 6 ≡ true
    → header_bytes s ≤ datagram_size s t n
unfolding datagram_size
datagram_size-header s t n e =
    subst (λ m. header_bytes s ≤ m) (sym (if-true (sf6_size s t) n e)) (sf6_size-header s t)

module _ (encrypt decrypt : List ℕ → List ℕ → List ℕ)
    (inverse : (key frame : List ℕ) → decrypt key (encrypt key frame) ≡ frame) where
  decode_frame-encode_frame :
      (s : Settings) (frame : List ℕ)
      → decode_frame decrypt s (encode_frame encrypt s frame) ≡ frame
  unfolding decode_frame encode_frame
  decode_frame-encode_frame s frame = go s.encrypt_data s.data_scrambling
    where
      go :
          (e d : Bool)
          → (let plain =
                (if d
                  then radio_compute_whitening (
                      let hidden = (if e then encrypt s.encryption_key frame else frame) in
                      if d then radio_compute_whitening hidden else hidden)
                  else (let hidden = (if e then encrypt s.encryption_key frame else frame) in
                      if d then radio_compute_whitening hidden else hidden)) in
              if e then decrypt s.encryption_key plain else plain)
            ≡ frame
      go true true =
          ap (decrypt s.encryption_key)
            (radio_compute_whitening_twice (encrypt s.encryption_key frame))
          ∙ inverse s.encryption_key frame
      go true false = inverse s.encryption_key frame
      go false true = radio_compute_whitening_twice frame
      go false false = refl

  -- What is decoded, put together
  transmit_datagram-frame :
      (at : Sending) (t : Transmitter)
      → length t.packet ≡ max_packet_size
      → header_bytes at.settings ≤ t.end_of_tx_data
      → t.end_of_tx_data ≤ max_packet_size
      → header_bytes at.settings ≤ datagram_size at.settings t.control.type t.end_of_tx_data
      → let s = at.settings in
        let n = t.end_of_tx_data - header_bytes s in
        let k = datagram_size s t.control.type t.end_of_tx_data - header_bytes s in
        let body =
          frame_header s (select_control at t) (ms_to_next_hop at) n
          ++ take k (drop (header_bytes s) t.packet) in
        decode_frame decrypt s (transmit_datagram encrypt at t).0 ≡ body ++ crc_trailer s body
  unfolding transmit_datagram select_control
  transmit_datagram-frame at t full start end room =
      decode_frame-encode_frame s _ ∙ ap (λ b. b ++ crc_trailer s b) body
    where
      s : Settings
      s = at.settings

      c : Control
      c = select_control at t

      ms : ℕ
      ms = ms_to_next_hop at

      n : ℕ
      n = t.end_of_tx_data - header_bytes s

      k : ℕ
      k = datagram_size s t.control.type t.end_of_tx_data - header_bytes s

      area : List ℕ
      area = drop (header_bytes s) t.packet

      body :
          take
            (datagram_size s t.control.type t.end_of_tx_data)
            (frame_header s c ms (u8 n) ++ area)
          ≡ frame_header s c ms n ++ take k area
      body =
          ap₂ (λ i j. take i (frame_header s c ms j ++ area))
            (omega (arith, length-frame_header s c ms n)) (omega arith)
          ∙ take-append_ge k (frame_header s c ms n) area

  -- With spread factor 6, data longer than the frame of its kind is refused.
  pub sf6_too_long :
      (at : Sending) (t : Transmitter) (my_vc : ℕ)
      → OnAir t.control.type
      → (select_control at t).ack_number < 4
      → t.control.ignore_frame ≡ false
      → length t.packet ≡ max_packet_size
      → at.settings.radio_spread_factor == 6 ≡ true
      → t.end_of_tx_data ≤ max_packet_size
      → datagram_size at.settings t.control.type t.end_of_tx_data < t.end_of_tx_data
      → parse_frame at.settings my_vc
          (decode_frame decrypt at.settings (transmit_datagram encrypt at t).0)
        ≡ refused bad_frame
  unfolding select_control
  sf6_too_long at t my_vc known number wanted full six end long =
      ap (parse_frame at.settings my_vc)
        (transmit_datagram-frame at t full (omega (arith, room)) end room)
      ∙ parse_frame-refused at.settings my_vc (select_control at t) (ms_to_next_hop at)
          (t.end_of_tx_data - header_bytes at.settings)
          (datagram_size at.settings t.control.type t.end_of_tx_data - header_bytes at.settings)
          (drop (header_bytes at.settings) t.packet) _ known number wanted
          (omega (
            arith,
            length-drop (header_bytes at.settings) t.packet,
            datagram_size-le at.settings t.control.type t.end_of_tx_data end,
          ))
          (length-crc_trailer at.settings _) (check_crc-crc_trailer at.settings _) six
          (omega (arith, room))
    where
      room : header_bytes at.settings ≤ datagram_size at.settings t.control.type t.end_of_tx_data
      room = datagram_size-header at.settings t.control.type t.end_of_tx_data six
