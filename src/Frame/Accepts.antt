-- ===== src/Frame/Accepts.antt =====
-- What holds of every frame that `rcvDatagram` of Firmware/LoRaSerial/Radio.ino takes apart.
use spark_fun_lo_ra_serial.Base.{
  ℕ, ◌+◌, ◌-◌, ◌≤◌, ◌<◌, ◌≡◌, refl, subst, ◌⊎◌, inl, inr, Bool, true, false, not, List, Option,
  some, leb, arith, length, get_or, drop, length-take, Bool-cases,
}
use spark_fun_lo_ra_serial.Settings.{Settings, is_virtual_circuit}
use spark_fun_lo_ra_serial.Serial.Vc.{vc_broadcast}
use spark_fun_lo_ra_serial.Circuits.{max_vc}
use spark_fun_lo_ra_serial.Frame.{control_of, has_net_id, min_datagram_size}
use spark_fun_lo_ra_serial.Frame.Parse.{
  Refusal, Parsed, ok, refused, ◌>>=◌, guard, Rx, check_net_id, check_crc, take_timer, take_data,
  check_vc_header, check_vc, parse_frame,
}

-- The frame is for this station, and the data lies inside it.
pub record Addressed (s : Settings) (my_vc : ℕ) (bytes : List ℕ) (x : Rx) : Type 0 where
  pub net_id : has_net_id s ≡ true → get_or bytes 0 0 ≡ s.net_id
  pub wanted : x.control.ignore_frame ≡ false
  pub inside : length x.rx_data + min_datagram_size s ≤ length bytes
  pub direct : is_virtual_circuit s.operating_mode ≡ false → x.vc ≡ some 0
  pub header : is_virtual_circuit s.operating_mode ≡ true → 3 ≤ length x.rx_data
  pub size : is_virtual_circuit s.operating_mode ≡ true → get_or x.rx_data 0 0 ≡ length x.rx_data
  pub mine :
      is_virtual_circuit s.operating_mode ≡ true
      → (x.rx_dest_vc ≡ vc_broadcast) ⊎ (x.rx_dest_vc ≡ my_vc)
  pub source : (i : ℕ) → x.vc ≡ some i → i < max_vc

bind-eq-ok {ℓ κ} :
    {A : Type ℓ} {B : Type κ} (m : Parsed A) (f : A → Parsed B) {b : B}
    → (m >>= f) ≡ ok b
    → (a : A) × (m ≡ ok a) × (f a ≡ ok b)
bind-eq-ok (ok a) f h = (a, refl, h)
bind-eq-ok (refused r) f h = cc

guard-eq-ok : (b : Bool) (r : Refusal) {u : Unit {0}} → guard b r ≡ ok u → b ≡ true
guard-eq-ok true r h = refl
guard-eq-ok false r h = cc

check_net_id-ok :
    (s : Settings) (bytes : List ℕ) {rest : List ℕ}
    → check_net_id s bytes ≡ ok rest
    → has_net_id s ≡ true
    → get_or bytes 0 0 ≡ s.net_id
unfolding check_net_id
check_net_id-ok s bytes h e = ground arith

take_data-ok :
    (s : Settings) (n : ℕ) (bytes : List ℕ) {got : List ℕ}
    → min_datagram_size s ≤ n
    → take_data s n bytes ≡ ok got
    → length got + min_datagram_size s ≤ n
unfolding take_data
take_data-ok s n bytes h e = ground (
  arith,
  length-take (get_or bytes 0 0) (drop 1 bytes),
  length-take (n - min_datagram_size s) bytes,
)

-- What the header of a virtual circuit says, once it has passed
abbrev HeaderOk : ℕ → List ℕ → Option ℕ × ℕ × ℕ → Type 0
HeaderOk my_vc bytes a =
    (3 ≤ length bytes)
    × (get_or bytes 0 0 ≡ length bytes)
    × ((a.1 ≡ vc_broadcast) ⊎ (a.1 ≡ my_vc))
    × ((i : ℕ) → a.0 ≡ some i → i < max_vc)

check_vc_header-ok :
    (my_vc : ℕ) (bytes : List ℕ) {a : Option ℕ × ℕ × ℕ}
    → check_vc_header my_vc bytes ≡ ok a
    → HeaderOk my_vc bytes a
unfolding check_vc_header
check_vc_header-ok my_vc bytes e = (ground arith, ground arith, ground arith, λ i h. ground arith)

-- What stands behind the net ID decides.
after : Settings → ℕ → List ℕ → List ℕ → Parsed Rx
after s my_vc bytes rest = check_crc s bytes >>= λ _.
    guard (not (control_of (get_or rest 0 0)).ignore_frame) Refusal.bad_frame >>= λ _.
    take_data s (length bytes) (take_timer s (drop 1 rest)).1 >>= λ rx_data.
    check_vc s my_vc rx_data >>= λ addresses. ok (record {
      control = control_of (get_or rest 0 0);
      ms_to_next_hop_remote = (take_timer s (drop 1 rest)).0;
      rx_data = rx_data;
      vc = addresses.0;
      rx_dest_vc = addresses.1;
      rx_src_vc = addresses.2;
    })

check_vc-direct :
    (s : Settings) (my_vc : ℕ) (bytes : List ℕ) {a : Option ℕ × ℕ × ℕ}
    → check_vc s my_vc bytes ≡ ok a
    → is_virtual_circuit s.operating_mode ≡ false
    → a.0 ≡ some 0
unfolding check_vc
check_vc-direct s my_vc bytes h e = ground arith

check_vc-HeaderOk :
    (s : Settings) (my_vc : ℕ) (bytes : List ℕ) {a : Option ℕ × ℕ × ℕ}
    → check_vc s my_vc bytes ≡ ok a
    → is_virtual_circuit s.operating_mode ≡ true
    → HeaderOk my_vc bytes a
unfolding check_vc
check_vc-HeaderOk s my_vc bytes {a} h e = check_vc_header-ok my_vc bytes (rw e at h)

check_vc-source :
    (s : Settings) (my_vc : ℕ) (bytes : List ℕ) {a : Option ℕ × ℕ × ℕ}
    → check_vc s my_vc bytes ≡ ok a
    → (i : ℕ) → a.0 ≡ some i
    → i < max_vc
check_vc-source s my_vc bytes h i e = elim (Bool-cases (is_virtual_circuit s.operating_mode)) [
  | inl v ↦ (check_vc-HeaderOk s my_vc bytes h v).3 i e
  | inr d ↦ ground (arith, check_vc-direct s my_vc bytes h d)
]

ok-injective : {x y : Rx} → ok x ≡ ok y → x ≡ y
ok-injective h = cc

not-false : (b : Bool) → not b ≡ true → b ≡ false
not-false true h = cc
not-false false h = refl

-- The record at the end of `parse_frame`
abbrev rx_of : Settings → List ℕ → List ℕ → Option ℕ × ℕ × ℕ → Rx
rx_of s rest rx_data a = record {
  control = control_of (get_or rest 0 0);
  ms_to_next_hop_remote = (take_timer s (drop 1 rest)).0;
  rx_data = rx_data;
  vc = a.0;
  rx_dest_vc = a.1;
  rx_src_vc = a.2;
}

rx_of-Addressed :
    (s : Settings) (my_vc : ℕ) (bytes rest rx_data : List ℕ) (a : Option ℕ × ℕ × ℕ)
    → min_datagram_size s ≤ length bytes
    → check_net_id s bytes ≡ ok rest
    → not (control_of (get_or rest 0 0)).ignore_frame ≡ true
    → take_data s (length bytes) (take_timer s (drop 1 rest)).1 ≡ ok rx_data
    → check_vc s my_vc rx_data ≡ ok a
    → Addressed s my_vc bytes (rx_of s rest rx_data a)
rx_of-Addressed s my_vc bytes rest rx_data a long ours want d v = record {
  net_id = check_net_id-ok s bytes ours;
  wanted = not-false _ want;
  inside = take_data-ok s (length bytes) _ long d;
  direct = check_vc-direct s my_vc rx_data v;
  header = λ e. (check_vc-HeaderOk s my_vc rx_data v e).0;
  size = λ e. (check_vc-HeaderOk s my_vc rx_data v e).1;
  mine = λ e. (check_vc-HeaderOk s my_vc rx_data v e).2;
  source = check_vc-source s my_vc rx_data v;
}

module _ (s : Settings) (my_vc : ℕ) (bytes rest : List ℕ) (x : Rx)
    (long : min_datagram_size s ≤ length bytes) (ours : check_net_id s bytes ≡ ok rest)
    (h : after s my_vc bytes rest ≡ ok x) where
  after-Addressed : Addressed s my_vc bytes x
  unfolding after
  after-Addressed =
      let (_, _, h1) = bind-eq-ok (check_crc s bytes) _ h in
      let (_, g, h2) =
        bind-eq-ok (guard (not (control_of (get_or rest 0 0)).ignore_frame) Refusal.bad_frame) _
          h1 in
      let (rx_data, d, h3) =
        bind-eq-ok (take_data s (length bytes) (take_timer s (drop 1 rest)).1) _ h2 in
      let (a, v, h4) = bind-eq-ok (check_vc s my_vc rx_data) _ h3 in
      subst (Addressed s my_vc bytes) (ok-injective h4) (
        rx_of-Addressed s my_vc bytes rest rx_data a long ours (guard-eq-ok _ Refusal.bad_frame g) d
          v)

-- Whatever bytes arrive, a frame that rcvDatagram does not drop before its number is checked has
-- the net ID of this radio if net IDs are used, is not marked to be ignored, and its data with
-- header and trailer is no longer than what was received; in virtual-circuit mode its header is
-- whole, gives the length of the data, a destination that is everybody or this radio, and names at
-- most a circuit of the list.
pub parse_frame-Addressed :
    (s : Settings) (my_vc : ℕ) (bytes : List ℕ) {x : Rx}
    → parse_frame s my_vc bytes ≡ ok x
    → Addressed s my_vc bytes x
unfolding parse_frame after
parse_frame-Addressed s my_vc bytes {x} h =
    let (_, g, h1) =
      bind-eq-ok (guard (leb (min_datagram_size s) (length bytes)) Refusal.bad_frame) _ h in
    let (rest, ours, h2) = bind-eq-ok (check_net_id s bytes) _ h1 in
    let full : leb (min_datagram_size s) (length bytes) ≡ true =
      guard-eq-ok _ Refusal.bad_frame g in
    after-Addressed s my_vc bytes rest x (ground arith) ours h2
