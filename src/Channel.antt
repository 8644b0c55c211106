-- ===== src/Channel.antt =====
-- The channel table and the hops through it, Firmware/LoRaSerial/Radio.ino: the random numbers that
-- both radios derive from their settings, the shuffle of the table, `hopChannel` and
-- `mSecToChannelZero`. Frequencies are only moved, so a table holds values of any type.
pub mod Random
pub mod Shuffle
pub mod Hops
pub mod Sync
mod Tests
use Prim.Native.Nat.{bit_and, bit_xor}
use spark_fun_lo_ra_serial.Base.{
  ℕ, zero, suc, ◌+◌, ◌-◌, ◌*◌, ◌/◌, ◌%◌, Bool, List, if◌then◌else◌, get_or, set, u8, u16, u32,
  elapsed, ltb,
}

-- `myRandBit`: bits 0, 2, 3 and 5 of the seed, combined.
pub rand_bit : ℕ → ℕ
rand_bit seed = bit_and (bit_xor (bit_xor (bit_xor seed (seed / 4)) (seed / 8)) (seed / 32)) 1

-- `myRand`: the new seed is also the result. The shifted seed has no bit 15, so the sum is the `|`.
pub my_rand : ℕ → ℕ
unfolding rand_bit
my_rand seed = seed / 2 + rand_bit seed * 32768

module _ {ℓ} {A : Type ℓ} where
  -- `t = array[j]; array[j] = array[i]; array[i] = t;`
  pub swap : List A → ℕ → ℕ → A → List A
  swap array i j d = set (set array j (get_or array i d)) i (get_or array j d)

  -- The loop of `shuffle`, with the rounds left, from index i on.
  pub shuffle_loop : ℕ → ℕ → ℕ → ℕ → A → List A → List A
  unfolding swap
  shuffle_loop zero i n seed d array = array
  shuffle_loop (suc rounds) i n seed d array =
      shuffle_loop rounds (i + 1) n (my_rand seed) d (swap array i (my_rand seed % n) d)

  -- `d` stands for what a read outside the array would give.
  pub shuffle : ℕ → ℕ → A → List A → List A
  unfolding shuffle_loop
  shuffle n seed d array = shuffle_loop (n - 1) 0 n seed d array

-- `hopChannel(moveForwardThroughTable, channelCount)`, for n channels; the sum is a uint8_t.
pub hop_channel : Bool → ℕ → ℕ → ℕ → ℕ
hop_channel forward count n channel =
    if forward then u8 (channel + count) % n else u8 (channel + (n - count)) % n

-- `mSecToChannelZero`
pub msec_to_channel_zero : ℕ → ℕ → ℕ → ℕ → ℕ → ℕ → ℕ
msec_to_channel_zero timer_msec start now n max_dwell_time channel =
    let here = u32 (timer_msec + 4294967296 - elapsed now start) in
    let remaining = u16 (n + 65536 - 1 - channel) in
    if ltb 0 remaining then u32 (here + remaining * max_dwell_time) else here
