-- ===== src/Frame/Trip.antt =====
-- A frame that `transmitDatagram` builds comes apart in `rcvDatagram` as it was put together.
use spark_fun_lo_ra_serial.Base.{
  ℕ, zero, suc, ◌+◌, ◌-◌, ◌/◌, ◌%◌, ◌≤◌, ◌<◌, ◌≡◌, refl, sym, ap, ◌∙◌, true, false, List, [], ◌∷◌,
  ◌++◌, Option, none, some, if◌then◌else◌, if-true, not, ◌&&◌, leb, ◌==◌, ==_iff, arith, length,
  get_or, take, append_assoc, length-append, length-take, take-append, Bool-cases, inl, inr,
}
use spark_fun_lo_ra_serial.Settings.{Settings}
use spark_fun_lo_ra_serial.Frame.{
  Control, control_byte, has_net_id, header_bytes, trailer_bytes, min_datagram_size,
  channel_timer_bytes,
}
use spark_fun_lo_ra_serial.Frame.Crc.{crc16}
use spark_fun_lo_ra_serial.Frame.Transmit.{frame_header, crc_trailer}
use spark_fun_lo_ra_serial.Frame.Parse.{
  ok, check_net_id, check_crc, take_timer, take_data, refused, guard, bad_frame, failed_crc,
}

-- The optional parts of a header
abbrev pub net_part : Settings → List ℕ
net_part s = if has_net_id s then s.net_id ∷ [] else []

abbrev pub timer_part : Settings → ℕ → List ℕ
timer_part s ms = if s.frequency_hop then ms % 256 ∷ ms / 256 ∷ [] else []

abbrev pub size_part : Settings → ℕ → List ℕ
size_part s n = if s.radio_spread_factor == 6 then n ∷ [] else []

abbrev pub timer_of : Settings → ℕ → Option ℕ
timer_of s ms = if s.frequency_hop then some ms else none

same : (n : ℕ) → (n == n) ≡ true
same n = (==_iff n n).1 refl

-- The bytes of a header, then a rest
pub header-append :
    (s : Settings) (c : Control) (ms n : ℕ) (rest : List ℕ)
    → frame_header s c ms n ++ rest
      ≡ net_part s ++ (control_byte c ∷ (timer_part s ms ++ (size_part s n ++ rest)))
unfolding frame_header
header-append s c ms n rest =
    append_assoc (net_part s) ((control_byte c ∷ timer_part s ms) ++ size_part s n) rest
    ∙ ap (λ r. net_part s ++ r)
        (append_assoc (control_byte c ∷ timer_part s ms) (size_part s n) rest)

pub length-frame_header :
    (s : Settings) (c : Control) (ms n : ℕ) → length (frame_header s c ms n) ≡ header_bytes s
unfolding frame_header
length-frame_header s c ms n = ground arith

pub check_net_id-net_part :
    (s : Settings) (rest : List ℕ) → check_net_id s (net_part s ++ rest) ≡ ok rest
unfolding check_net_id
check_net_id-net_part s rest = elim (Bool-cases (has_net_id s)) [
  | inl e ↦ rw (e, same s.net_id) refl
  | inr e ↦ rw e refl
]

pub take_timer-timer_part :
    (s : Settings) (ms : ℕ) (rest : List ℕ)
    → take_timer s (timer_part s ms ++ rest) ≡ (timer_of s ms, rest)
unfolding take_timer
take_timer-timer_part s ms rest = elim (Bool-cases s.frequency_hop) [
  | inl e ↦ rw e (ap (λ n. (some n, rest)) (omega arith))
  | inr e ↦ rw e refl
]

take-append_lt :
    {A : Type 0} (n : ℕ) (xs ys : List A) → n ≤ length xs → take n (xs ++ ys) ≡ take n xs
take-append_lt zero xs ys h = refl
take-append_lt (suc n) [] ys h = absurd (omega arith)
take-append_lt (suc n) (x ∷ xs) ys h = ap (λ r. x ∷ r) (take-append_lt n xs ys (omega arith))

take-take : {A : Type 0} (n k : ℕ) (xs : List A) → n ≤ k → take n (take k xs) ≡ take n xs
take-take zero k xs h = refl
take-take (suc n) zero xs h = absurd (omega arith)
take-take (suc n) (suc k) [] h = refl
take-take (suc n) (suc k) (x ∷ xs) h = ap (λ r. x ∷ r) (take-take n k xs (omega arith))

-- The least size of a frame with a number of length bytes
abbrev least : Settings → ℕ → ℕ
least s n =
    (if has_net_id s then 1 else 0)
    + 1
    + (if s.frequency_hop then channel_timer_bytes else 0)
    + n
    + trailer_bytes s

-- n bytes of data at the start of k bytes, which are all of them but for spread factor 6
pub take_data-size_part :
    (s : Settings) (n k : ℕ) (bytes trailer : List ℕ)
    → n ≤ k
    → k ≤ length bytes
    → (s.radio_spread_factor == 6 ≡ false → n ≡ k)
    → take_data s (k + min_datagram_size s) (size_part s n ++ (take k bytes ++ trailer))
      ≡ ok (take n bytes)
unfolding take_data
take_data-size_part s n k bytes trailer h fits exact =
    elim (Bool-cases (s.radio_spread_factor == 6)) [
      | inl e ↦
          rw (e, enough (least s 1))
            (ap ok (
              take-append_lt n (take k bytes) trailer (omega (arith, length-take k bytes))
              ∙ take-take n k bytes h))
      | inr e ↦ rw e (
          ap ok (
            ap (λ j. take j (take k bytes ++ trailer)) (back (least s 0))
            ∙ take-append_lt k (take k bytes) trailer (omega (arith, length-take k bytes))
            ∙ take-take k k bytes (omega arith)
            ∙ ap (λ j. take j bytes) (sym (exact e))))
    ]
  where
    enough : (m : ℕ) → leb (n + m) (k + m) ≡ true
    enough m = ground arith

    back : (m : ℕ) → k + m - m ≡ k
    back m = omega arith

-- More data than the short frame of spread factor 6 holds
pub take_data-refused :
    (s : Settings) (n k : ℕ) (bytes : List ℕ)
    → s.radio_spread_factor == 6 ≡ true
    → k < n
    → take_data s (k + min_datagram_size s) (size_part s n ++ bytes) ≡ refused bad_frame
unfolding take_data
take_data-refused s n k bytes e h = rw (e, less (least s 1)) refl
  where
    less : (m : ℕ) → leb (n + m) (k + m) ≡ false
    less m = ground arith

last_two :
    (body : List ℕ) (x y : ℕ)
    → (get_or (body ++ (x ∷ y ∷ [])) (length body) 0 ≡ x)
      × (get_or (body ++ (x ∷ y ∷ [])) (suc (length body)) 0 ≡ y)
last_two [] x y = (refl, refl)
last_two (b ∷ body) x y = last_two body x y

-- One byte that agrees is enough.
agree : (a b c d : ℕ) → a ≡ b → guard (not (not (a == b) && not (c == d))) failed_crc ≡ ok tt
agree a b c d e = let q : (a == b) ≡ true = (==_iff a b).1 e in rw q refl

-- With any last byte at all
pub check_crc_first :
    (s : Settings) (body : List ℕ) (y : ℕ)
    → check_crc s (body ++ (crc16 body / 256 ∷ y ∷ [])) ≡ ok tt
unfolding check_crc
check_crc_first s body y = elim (Bool-cases s.enable_crc16) [
  | inl e ↦ rw e (
      agree (get_or bytes (length bytes - 2) 0) (crc16 (take (length bytes - 2) bytes) / 256)
        (get_or bytes (length bytes - 1) 0) (crc16 (take (length bytes - 2) bytes) % 256)
        (ap (λ i. get_or bytes i 0) size
          ∙ (last_two body (crc16 body / 256) y).0
          ∙ sym (
              ap (λ b. crc16 b / 256)
                (ap (λ i. take i bytes) size ∙ take-append body (crc16 body / 256 ∷ y ∷ [])))))
  | inr e ↦ rw e refl
]
  where
    bytes : List ℕ
    bytes = body ++ (crc16 body / 256 ∷ y ∷ [])

    size : length bytes - 2 ≡ length body
    size = omega (arith, length-append body (crc16 body / 256 ∷ y ∷ []))

pub check_crc-crc_trailer :
    (s : Settings) (body : List ℕ) → check_crc s (body ++ crc_trailer s body) ≡ ok tt
unfolding check_crc crc_trailer
check_crc-crc_trailer s body = elim (Bool-cases s.enable_crc16) [
  | inl e ↦
      ap (λ t. check_crc s (body ++ t)) (if-true two [] e)
      ∙ check_crc_first s body (crc16 body % 256)
  | inr e ↦ rw e refl
]
  where
    two : List ℕ
    two = crc16 body / 256 ∷ crc16 body % 256 ∷ []
