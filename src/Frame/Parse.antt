-- ===== src/Frame/Parse.antt =====
-- The first half of `rcvDatagram` of Firmware/LoRaSerial/Radio.ino: from the bytes that the radio
-- received to the parts of a frame, or the reason to drop it.
use spark_fun_lo_ra_serial.Base.{
  ℕ, ◌+◌, ◌-◌, ◌*◌, ◌/◌, ◌%◌, Bool, true, false, List, Option, none, some, if◌then◌else◌, leb, ltb,
  ◌==◌, ◌&&◌, ◌||◌, not, length, get_or, take, drop,
}
use spark_fun_lo_ra_serial.Settings.{Settings, is_virtual_circuit}
use spark_fun_lo_ra_serial.Frame.{
  Control, control_of, has_net_id, min_datagram_size, channel_timer_bytes,
}
use spark_fun_lo_ra_serial.Frame.Crc.{crc16}
use spark_fun_lo_ra_serial.Frame.Whitening.{radio_compute_whitening}
use spark_fun_lo_ra_serial.Serial.Vc.{vc_broadcast, vc_unassigned, vc_radio_header_bytes}
use spark_fun_lo_ra_serial.Circuits.{max_vc}

-- Why a frame is dropped: the values that `rcvDatagram` returns, and the counters, differ.
pub data Refusal : Type 0 where
  bad_frame other_net failed_crc not_mine : Refusal
  -- The length in the header of a virtual circuit is wrong; the circuit it names, if any.
  bad_length : Option ℕ → Refusal

pub data Parsed {ℓ} (A : Type ℓ) : Type ℓ where
  ok : A → Parsed A
  refused : Refusal → Parsed A

infixl 5 ◌>>=◌
abbrev pub ◌>>=◌ {ℓ κ} : {A : Type ℓ} {B : Type κ} → Parsed A → (A → Parsed B) → Parsed B
ok a >>= f = f a
refused r >>= f = refused r

infixl 5 ◌>>◌
abbrev pub ◌>>◌ {ℓ} : {B : Type ℓ} → Parsed (Unit {0}) → Parsed B → Parsed B
m >> k = m >>= λ _. k

abbrev pub guard : Bool → Refusal → Parsed (Unit {0})
guard true r = ok tt
guard false r = refused r

-- A frame taken apart. `data` is `rxData`, with the header of a virtual circuit still in front.
pub record Rx : Type 0 where
  pub control : Control
  pub ms_to_next_hop_remote : Option ℕ  -- 16 bits, if hopping is enabled
  pub rx_data : List ℕ
  pub vc : Option ℕ  -- the index of the entry of virtualCircuitList
  pub rx_dest_vc : ℕ
  pub rx_src_vc : ℕ

-- The net ID, in front if it is used.
unfoldable pub check_net_id : Settings → List ℕ → Parsed (List ℕ)
check_net_id s bytes =
    if not (has_net_id s)
    then ok bytes
    else if get_or bytes 0 0 == s.net_id
    then ok (drop 1 bytes)
    else refused other_net

-- The software CRC, over all but the last two bytes
unfoldable pub check_crc : Settings → List ℕ → Parsed (Unit {0})
check_crc s bytes =
    let n = length bytes in
    let crc = crc16 (take (n - 2) bytes) in
    guard
      (not (
        s.enable_crc16
        && (not (get_or bytes (n - 2) 0 == crc / 256)
            && not (get_or bytes (n - 1) 0 == crc % 256))))
      failed_crc

-- The channel timer, and what is behind it
unfoldable pub take_timer : Settings → List ℕ → Option ℕ × List ℕ
take_timer s bytes =
    if s.frequency_hop
    then (some (get_or bytes 0 0 + get_or bytes 1 0 * 256), drop channel_timer_bytes bytes)
    else (none, bytes)

-- `rxDataBytes` bytes of data, of a frame of a size
unfoldable pub take_data : Settings → ℕ → List ℕ → Parsed (List ℕ)
take_data s size bytes =
    if s.radio_spread_factor == 6
    then (if leb (get_or bytes 0 0 + min_datagram_size s) size
        then ok (take (get_or bytes 0 0) (drop 1 bytes))
        else refused bad_frame)
    else ok (take (size - min_datagram_size s) bytes)

-- The header of the virtual circuit: the entry of the source, the destination and the source.
unfoldable pub check_vc_header : ℕ → List ℕ → Parsed (Option ℕ × ℕ × ℕ)
check_vc_header my_vc bytes =
    let dest = get_or bytes 1 0 in
    let src = get_or bytes 2 0 in
    let vc = if src == vc_unassigned then none else some src in
    do
      guard (leb vc_radio_header_bytes (length bytes)) bad_frame
      guard (src == vc_unassigned || ltb src max_vc) bad_frame
      guard (get_or bytes 0 0 == length bytes) (bad_length vc)
      guard (dest == vc_broadcast || dest == my_vc) not_mine
      ok (vc, dest, src)

unfoldable pub check_vc : Settings → ℕ → List ℕ → Parsed (Option ℕ × ℕ × ℕ)
unfolding check_vc_header
check_vc s my_vc bytes =
    if is_virtual_circuit s.operating_mode then check_vc_header my_vc bytes else ok (some 0, 0, 0)

-- The parts of a frame, for a station with an address. Type numbers have four bits, so none is
-- too large.
unfoldable pub parse_frame : Settings → ℕ → List ℕ → Parsed Rx
parse_frame s my_vc bytes = do
  guard (leb (min_datagram_size s) (length bytes)) bad_frame
  rest ← check_net_id s bytes
  check_crc s bytes
  let control = control_of (get_or rest 0 0)
  guard (not control.ignore_frame) bad_frame
  let timer = take_timer s (drop 1 rest)
  rx_data ← take_data s (length bytes) timer.1
  addresses ← check_vc s my_vc rx_data
  ok (record {
    control = control;
    ms_to_next_hop_remote = timer.0;
    rx_data = rx_data;
    vc = addresses.0;
    rx_dest_vc = addresses.1;
    rx_src_vc = addresses.2;
  })

module _ (decrypt : List ℕ → List ℕ → List ℕ) where
  unfoldable pub decode_frame : Settings → List ℕ → List ℕ
  decode_frame s frame =
      let plain = if s.data_scrambling then radio_compute_whitening frame else frame in
      if s.encrypt_data then decrypt s.encryption_key plain else plain
