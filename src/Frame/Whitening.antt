-- ===== src/Frame/Whitening.antt =====
-- `radioComputeWhitening` of Firmware/LoRaSerial/System.ino, which scrambles a frame and undoes it.
use Prim.Native.Nat.{bit_and, bit_or, bit_xor}
use spark_fun_lo_ra_serial.Base.{
  ℕ, zero, suc, ◌*◌, ◌/◌, ◌%◌, ◌≡◌, refl, ap, ap₂, List, [], ◌∷◌, length,
}
use spark_fun_lo_ra_serial.Base.Xor.{bit_xor_twice}

-- WhiteningKeyMSB, a bit, and WhiteningKeyLSB
pub record Key : Type 0 where
  pub msb : ℕ
  pub lsb : ℕ

abbrev pub first_key : Key
first_key = record { msb = 0x01; lsb = 0xff }

pub shift_key : Key → Key
shift_key k = record {
  msb = bit_xor (bit_and k.lsb 0x01) (bit_and (k.lsb / 32) 0x01);
  lsb = bit_or (bit_and (k.lsb / 2) 0xff) (bit_and (k.msb * 128 % 256) 0x80);
}

pub shift_keys : ℕ → Key → Key
unfolding shift_key
shift_keys zero k = k
shift_keys (suc n) k = shift_keys n (shift_key k)

pub whiten : Key → List ℕ → List ℕ
unfolding shift_keys
whiten k [] = []
whiten k (b ∷ buffer) = bit_xor b k.lsb ∷ whiten (shift_keys 8 k) buffer

pub radio_compute_whitening : List ℕ → List ℕ
unfolding whiten
radio_compute_whitening buffer = whiten first_key buffer

whiten_twice : (k : Key) (buffer : List ℕ) → whiten k (whiten k buffer) ≡ buffer
unfolding whiten
whiten_twice k [] = refl
whiten_twice k (b ∷ buffer) =
    ap₂ (λ x xs. x ∷ xs) (bit_xor_twice b k.lsb) (whiten_twice (shift_keys 8 k) buffer)

pub radio_compute_whitening_twice :
    (buffer : List ℕ) → radio_compute_whitening (radio_compute_whitening buffer) ≡ buffer
unfolding radio_compute_whitening
radio_compute_whitening_twice buffer = whiten_twice first_key buffer

length-whiten : (k : Key) (buffer : List ℕ) → length (whiten k buffer) ≡ length buffer
unfolding whiten
length-whiten k [] = refl
length-whiten k (b ∷ buffer) = ap suc (length-whiten (shift_keys 8 k) buffer)

pub length-radio_compute_whitening :
    (buffer : List ℕ) → length (radio_compute_whitening buffer) ≡ length buffer
unfolding radio_compute_whitening
length-radio_compute_whitening buffer = length-whiten first_key buffer
