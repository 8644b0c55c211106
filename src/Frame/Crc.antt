-- ===== src/Frame/Crc.antt =====
-- The software CRC of Firmware/LoRaSerial/Radio.ino: its table, and the loop over it that
-- `transmitDatagram` and `rcvDatagram` share.
use Prim.Native.Nat.{bit_xor}
use native.Mathlib.Nat.{pow-suc, one-le-pow}
use spark_fun_lo_ra_serial.Base.{
  ℕ, zero, suc, ◌+◌, ◌*◌, ◌/◌, ◌%◌, ◌^◌, ◌<◌, ◌≡◌, refl, sym, ap, ap₂, ◌∙◌, Bool, true, false, List,
  [], ◌∷◌, if◌then◌else◌, leb, ◌==◌, ==_iff, ◌&&◌, get_or, arith, Bool-cases, inl, inr,
}
use spark_fun_lo_ra_serial.Base.Xor.{
  zero-bit_xor, bit_xor-zero, bit_xor_fields, bit_xor-lt, bit_xor_swap,
}

unfoldable pub crc16_table : List ℕ
crc16_table =
    0x0000 ∷ 0x1021 ∷ 0x2042 ∷ 0x3063 ∷ 0x4084 ∷ 0x50a5 ∷ 0x60c6 ∷ 0x70e7 ∷ 0x8108 ∷ 0x9129 ∷ 0xa14a
    ∷ 0xb16b ∷ 0xc18c ∷ 0xd1ad ∷ 0xe1ce ∷ 0xf1ef ∷ 0x1231 ∷ 0x0210 ∷ 0x3273 ∷ 0x2252 ∷ 0x52b5
    ∷ 0x4294 ∷ 0x72f7 ∷ 0x62d6 ∷ 0x9339 ∷ 0x8318 ∷ 0xb37b ∷ 0xa35a ∷ 0xd3bd ∷ 0xc39c ∷ 0xf3ff
    ∷ 0xe3de ∷ 0x2462 ∷ 0x3443 ∷ 0x0420 ∷ 0x1401 ∷ 0x64e6 ∷ 0x74c7 ∷ 0x44a4 ∷ 0x5485 ∷ 0xa56a
    ∷ 0xb54b ∷ 0x8528 ∷ 0x9509 ∷ 0xe5ee ∷ 0xf5cf ∷ 0xc5ac ∷ 0xd58d ∷ 0x3653 ∷ 0x2672 ∷ 0x1611
    ∷ 0x0630 ∷ 0x76d7 ∷ 0x66f6 ∷ 0x5695 ∷ 0x46b4 ∷ 0xb75b ∷ 0xa77a ∷ 0x9719 ∷ 0x8738 ∷ 0xf7df
    ∷ 0xe7fe ∷ 0xd79d ∷ 0xc7bc ∷ 0x48c4 ∷ 0x58e5 ∷ 0x6886 ∷ 0x78a7 ∷ 0x0840 ∷ 0x1861 ∷ 0x2802
    ∷ 0x3823 ∷ 0xc9cc ∷ 0xd9ed ∷ 0xe98e ∷ 0xf9af ∷ 0x8948 ∷ 0x9969 ∷ 0xa90a ∷ 0xb92b ∷ 0x5af5
    ∷ 0x4ad4 ∷ 0x7ab7 ∷ 0x6a96 ∷ 0x1a71 ∷ 0x0a50 ∷ 0x3a33 ∷ 0x2a12 ∷ 0xdbfd ∷ 0xcbdc ∷ 0xfbbf
    ∷ 0xeb9e ∷ 0x9b79 ∷ 0x8b58 ∷ 0xbb3b ∷ 0xab1a ∷ 0x6ca6 ∷ 0x7c87 ∷ 0x4ce4 ∷ 0x5cc5 ∷ 0x2c22
    ∷ 0x3c03 ∷ 0x0c60 ∷ 0x1c41 ∷ 0xedae ∷ 0xfd8f ∷ 0xcdec ∷ 0xddcd ∷ 0xad2a ∷ 0xbd0b ∷ 0x8d68
    ∷ 0x9d49 ∷ 0x7e97 ∷ 0x6eb6 ∷ 0x5ed5 ∷ 0x4ef4 ∷ 0x3e13 ∷ 0x2e32 ∷ 0x1e51 ∷ 0x0e70 ∷ 0xff9f
    ∷ 0xefbe ∷ 0xdfdd ∷ 0xcffc ∷ 0xbf1b ∷ 0xaf3a ∷ 0x9f59 ∷ 0x8f78 ∷ 0x9188 ∷ 0x81a9 ∷ 0xb1ca
    ∷ 0xa1eb ∷ 0xd10c ∷ 0xc12d ∷ 0xf14e ∷ 0xe16f ∷ 0x1080 ∷ 0x00a1 ∷ 0x30c2 ∷ 0x20e3 ∷ 0x5004
    ∷ 0x4025 ∷ 0x7046 ∷ 0x6067 ∷ 0x83b9 ∷ 0x9398 ∷ 0xa3fb ∷ 0xb3da ∷ 0xc33d ∷ 0xd31c ∷ 0xe37f
    ∷ 0xf35e ∷ 0x02b1 ∷ 0x1290 ∷ 0x22f3 ∷ 0x32d2 ∷ 0x4235 ∷ 0x5214 ∷ 0x6277 ∷ 0x7256 ∷ 0xb5ea
    ∷ 0xa5cb ∷ 0x95a8 ∷ 0x8589 ∷ 0xf56e ∷ 0xe54f ∷ 0xd52c ∷ 0xc50d ∷ 0x34e2 ∷ 0x24c3 ∷ 0x14a0
    ∷ 0x0481 ∷ 0x7466 ∷ 0x6447 ∷ 0x5424 ∷ 0x4405 ∷ 0xa7db ∷ 0xb7fa ∷ 0x8799 ∷ 0x97b8 ∷ 0xe75f
    ∷ 0xf77e ∷ 0xc71d ∷ 0xd73c ∷ 0x26d3 ∷ 0x36f2 ∷ 0x0691 ∷ 0x16b0 ∷ 0x6657 ∷ 0x7676 ∷ 0x4615
    ∷ 0x5634 ∷ 0xd94c ∷ 0xc96d ∷ 0xf90e ∷ 0xe92f ∷ 0x99c8 ∷ 0x89e9 ∷ 0xb98a ∷ 0xa9ab ∷ 0x5844
    ∷ 0x4865 ∷ 0x7806 ∷ 0x6827 ∷ 0x18c0 ∷ 0x08e1 ∷ 0x3882 ∷ 0x28a3 ∷ 0xcb7d ∷ 0xdb5c ∷ 0xeb3f
    ∷ 0xfb1e ∷ 0x8bf9 ∷ 0x9bd8 ∷ 0xabbb ∷ 0xbb9a ∷ 0x4a75 ∷ 0x5a54 ∷ 0x6a37 ∷ 0x7a16 ∷ 0x0af1
    ∷ 0x1ad0 ∷ 0x2ab3 ∷ 0x3a92 ∷ 0xfd2e ∷ 0xed0f ∷ 0xdd6c ∷ 0xcd4d ∷ 0xbdaa ∷ 0xad8b ∷ 0x9de8
    ∷ 0x8dc9 ∷ 0x7c26 ∷ 0x6c07 ∷ 0x5c64 ∷ 0x4c45 ∷ 0x3ca2 ∷ 0x2c83 ∷ 0x1ce0 ∷ 0x0cc1 ∷ 0xef1f
    ∷ 0xff3e ∷ 0xcf5d ∷ 0xdf7c ∷ 0xaf9b ∷ 0xbfba ∷ 0x8fd9 ∷ 0x9ff8 ∷ 0x6e17 ∷ 0x7e36 ∷ 0x4e55
    ∷ 0x5e74 ∷ 0x2e93 ∷ 0x3eb2 ∷ 0x0ed1 ∷ 0x1ef0 ∷ []

-- `crc16Table[*data ^ (uint8_t)(crc >> (16 - 8))] ^ (crc << 8)`, stored in a uint16_t
unfoldable pub crc16_byte : ℕ → ℕ → ℕ
unfolding crc16_table
crc16_byte crc b = bit_xor (get_or crc16_table (bit_xor b (crc / 256)) 0) (crc * 256) % 65536

unfoldable pub crc16_from : ℕ → List ℕ → ℕ
unfolding crc16_byte
crc16_from crc [] = crc
crc16_from crc (b ∷ bytes) = crc16_from (crc16_byte crc b) bytes

abbrev pub crc16 : List ℕ → ℕ
crc16 bytes = crc16_from 0xffff bytes

-- The division of a message by the polynomial x^16 + x^12 + x^5 + 1, a bit at a time
abbrev pub shift_bit : ℕ → ℕ
shift_bit crc = if leb 32768 crc then bit_xor (crc * 2 % 65536) 0x1021 else crc * 2

pub shift_bits : ℕ → ℕ → ℕ
shift_bits zero crc = crc
shift_bits (suc n) crc = shift_bits n (shift_bit crc)

pub divide : ℕ → List ℕ → ℕ
divide crc [] = crc
divide crc (b ∷ bytes) = divide (shift_bits 8 (bit_xor (b * 256) crc)) bytes

every : ℕ → (ℕ → Bool) → Bool
every zero p = true
every (suc n) p = p n && every n p

every-at : (n : ℕ) (p : ℕ → Bool) (x : ℕ) → every n p ≡ true → x < n → p x ≡ true
unfolding every
every-at zero p x h lt = absurd (omega arith)
every-at (suc n) p x h lt = ground (arith, every-at n p x)

table_true : every 256 (λ h. get_or crc16_table h 0 == shift_bits 8 (h * 256)) ≡ true
unfolding every crc16_table shift_bits
table_true = refl

table_below : every 256 (λ h. leb (get_or crc16_table h 0) 65535) ≡ true
unfolding every crc16_table
table_below = refl

high_bit :
    (x y : ℕ) → y < 32768 → x < 65536 → bit_xor x y ≡ x / 32768 * 32768 + bit_xor (x % 32768) y
high_bit x y h k =
    ap₂ bit_xor top low
    ∙ bit_xor_fields 15 (x / 32768) (x % 32768) 0 y (omega arith) (omega arith)
    ∙ ap (λ q. q * 32768 + bit_xor (x % 32768) y) (bit_xor-zero (x / 32768))
  where
    top : x ≡ x / 32768 * 2 ^ 15 + x % 32768
    top = omega arith

    low : y ≡ 0 * 2 ^ 15 + y
    low = omega arith

doubled : (x y : ℕ) → bit_xor x y * 2 ≡ bit_xor (x * 2) (y * 2)
doubled x y =
    omega arith
    ∙ sym (bit_xor_fields 1 x 0 y 0 (omega arith) (omega arith))
    ∙ ap₂ bit_xor (same x) (same y)
  where
    same : (n : ℕ) → n * 2 ^ 1 + 0 ≡ n * 2
    same n = omega arith

shift_bit-lt : (x : ℕ) → x < 65536 → shift_bit x < 65536
shift_bit-lt x h = ground (arith, bit_xor-lt 16 (x * 2 % 65536) 0x1021 (omega arith) (omega arith))

low_bits-lt : (x y : ℕ) → y < 32768 → bit_xor (x % 32768) y < 32768
low_bits-lt x y h = bit_xor-lt 15 (x % 32768) y (omega arith) h

-- Bits below the highest only move up.
shift_bit-xor :
    (x y : ℕ) → x < 65536 → y < 32768 → shift_bit (bit_xor x y) ≡ bit_xor (shift_bit x) (y * 2)
shift_bit-xor x y h k = elim (Bool-cases (leb 32768 x)) [
  | inl e ↦
      rw (high e, e)
        (ap (λ z. bit_xor z 0x1021) (rest e)
          ∙ bit_xor_swap (x % 32768 * 2) (y * 2) 0x1021
          ∙ ap (λ z. bit_xor (bit_xor z 0x1021) (y * 2)) (cut x))
  | inr e ↦ rw (below e, e) (doubled x y)
]
  where
    cut : (n : ℕ) → n % 32768 * 2 ≡ n * 2 % 65536
    cut n = omega arith

    high : leb 32768 x ≡ true → leb 32768 (bit_xor x y) ≡ true
    high e = ground (arith, high_bit x y k h, low_bits-lt x y k)

    below : leb 32768 x ≡ false → leb 32768 (bit_xor x y) ≡ false
    below e = ground (arith, high_bit x y k h, low_bits-lt x y k)

    rest : leb 32768 x ≡ true → bit_xor x y * 2 % 65536 ≡ bit_xor (x % 32768 * 2) (y * 2)
    rest e = omega (arith, high_bit x y k h, low_bits-lt x y k) ∙ doubled (x % 32768) y

twice : (n y : ℕ) → y * 2 * 2 ^ n ≡ y * 2 ^ suc n
twice n y = grind (arith, pow-suc 2 n)

small : (n y : ℕ) → y * 2 ^ suc n < 65536 → y < 32768
small n y h = grind (arith, pow-suc 2 n, one-le-pow n 2)

shift_bits-xor :
    (n x y : ℕ)
    → x < 65536
    → y * 2 ^ n < 65536
    → shift_bits n (bit_xor x y) ≡ bit_xor (shift_bits n x) (y * 2 ^ n)
unfolding shift_bits
shift_bits-xor zero x y h k = ap (bit_xor x) (omega arith)
shift_bits-xor (suc n) x y h k =
    ap (shift_bits n) (shift_bit-xor x y h (small n y k))
    ∙ shift_bits-xor n (shift_bit x) (y * 2) (shift_bit-lt x h) (omega (arith, twice n y))
    ∙ ap (bit_xor (shift_bits n (shift_bit x))) (twice n y)

shift_bits-lt : (n x : ℕ) → x < 65536 → shift_bits n x < 65536
unfolding shift_bits
shift_bits-lt zero x h = h
shift_bits-lt (suc n) x h = shift_bits-lt n (shift_bit x) (shift_bit-lt x h)

table-eq-shift_bits : (i : ℕ) → i < 256 → get_or crc16_table i 0 ≡ shift_bits 8 (i * 256)
table-eq-shift_bits i h = (==_iff _ _).0 (every-at 256 _ i table_true h)

-- What the table gives for the high byte, and the low byte moved up
table-cut : (t crc : ℕ) → t < 65536 → bit_xor t (crc * 256) % 65536 ≡ bit_xor t (crc % 256 * 256)
table-cut t crc h =
    ap (λ z. z % 65536)
      (ap₂ bit_xor (whole t) (parts crc)
        ∙ bit_xor_fields 16 0 t (crc / 256) (crc % 256 * 256) h (omega arith))
    ∙ omega (arith, bit_xor-lt 16 t (crc % 256 * 256) h (omega arith))
  where
    whole : (n : ℕ) → n ≡ 0 * 2 ^ 16 + n
    whole n = omega arith

    parts : (n : ℕ) → n * 256 ≡ n / 256 * 2 ^ 16 + n % 256 * 256
    parts n = omega arith

-- The byte goes to the high byte of the CRC.
split-xor : (crc b : ℕ) → bit_xor (b * 256) crc ≡ bit_xor (bit_xor b (crc / 256) * 256) (crc % 256)
split-xor crc b =
    ap₂ bit_xor (low b) (parts crc)
    ∙ bit_xor_fields 8 b 0 (crc / 256) (crc % 256) (omega arith) (omega arith)
    ∙ ap (λ z. i * 256 + z) (zero-bit_xor (crc % 256))
    ∙ ap (λ z. i * 256 + z) (sym (zero-bit_xor (crc % 256)))
    ∙ ap (λ z. z * 256 + bit_xor 0 (crc % 256)) (sym (bit_xor-zero i))
    ∙ sym (bit_xor_fields 8 i 0 0 (crc % 256) (omega arith) (omega arith))
    ∙ ap₂ bit_xor (sym (low i)) (none_above (crc % 256))
  where
    i : ℕ
    i = bit_xor b (crc / 256)

    low : (n : ℕ) → n * 256 ≡ n * 2 ^ 8 + 0
    low n = omega arith

    parts : (n : ℕ) → n ≡ n / 256 * 2 ^ 8 + n % 256
    parts n = omega arith

    none_above : (n : ℕ) → 0 * 2 ^ 8 + n ≡ n
    none_above n = omega arith

-- A byte by the table is eight bits of the division.
crc16_byte-eq-shift_bits :
    (crc b : ℕ) → crc < 65536 → b < 256 → crc16_byte crc b ≡ shift_bits 8 (bit_xor (b * 256) crc)
unfolding crc16_byte
crc16_byte-eq-shift_bits crc b h k =
    ap (λ t. bit_xor t (crc * 256) % 65536) (table-eq-shift_bits i i-lt)
    ∙ table-cut (shift_bits 8 (i * 256)) crc (shift_bits-lt 8 (i * 256) (omega (arith, i-lt)))
    ∙ sym (shift_bits-xor 8 (i * 256) (crc % 256) (omega (arith, i-lt)) (omega arith))
    ∙ ap (shift_bits 8) (sym (split-xor crc b))
  where
    i : ℕ
    i = bit_xor b (crc / 256)

    i-lt : bit_xor b (crc / 256) < 256
    i-lt = bit_xor-lt 8 b (crc / 256) k (omega arith)

abbrev pub Bytes : List ℕ → Type 0
Bytes [] = Unit {0}
Bytes (b ∷ bytes) = (b < 256) × Bytes bytes

crc16_from-eq-divide :
    (bytes : List ℕ) (crc : ℕ)
    → crc < 65536
    → Bytes bytes
    → (crc16_from crc bytes ≡ divide crc bytes) × (crc16_from crc bytes < 65536)
unfolding crc16_from divide
crc16_from-eq-divide [] crc h v = (refl, h)
crc16_from-eq-divide (b ∷ bytes) crc h (k, v) =
    let step = crc16_byte-eq-shift_bits crc b h k in
    let below =
      shift_bits-lt 8 (bit_xor (b * 256) crc) (bit_xor-lt 16 (b * 256) crc (omega arith) h) in
    rw step (crc16_from-eq-divide bytes (shift_bits 8 (bit_xor (b * 256) crc)) below v)

-- For every string of bytes, the loop over crc16Table computes the remainder that dividing bit by
-- bit by x^16 + x^12 + x^5 + 1, from the start value 0xffff, gives.
pub crc16-eq-divide : (bytes : List ℕ) → Bytes bytes → crc16 bytes ≡ divide 0xffff bytes
crc16-eq-divide bytes v = (crc16_from-eq-divide bytes 0xffff (omega arith) v).0
