-- ===== src/Channel/Hops.antt =====
-- `hopChannel` walks round the channel table, and `mSecToChannelZero` says when it is at its start
-- (Firmware/LoRaSerial/Radio.ino).
use native.Mathlib.Nat.{mod-eq_of_lt}
use spark_fun_lo_ra_serial.Base.{
  ℕ, zero, suc, ◌+◌, ◌-◌, ◌*◌, ◌≤◌, ◌<◌, ◌≡◌, refl, ap, ap₂, ◌∙◌, ◌↔◌, u16, u32, true, false, arith,
  dec_lt, elapsed, ltb, if◌then◌else◌,
}
use spark_fun_lo_ra_serial.Ring.Inv.{round-eq}
use spark_fun_lo_ra_serial.Channel.{hop_channel, msec_to_channel_zero}

-- k calls of `hopChannel()`.
pub hops : ℕ → ℕ → ℕ → ℕ
unfolding hop_channel
hops zero n channel = channel
hops (suc k) n channel = hops k n (hop_channel true 1 n channel)

hop_forward :
    (n channel : ℕ)
    → n ≤ 255
    → channel < n
    → hop_channel true 1 n channel ≡ (if ltb (channel + 1) n then channel + 1 else 0)
unfolding hop_channel
hop_forward n channel h lt = ground (arith, round-eq (channel + 1) n)

hop_backward :
    (n channel : ℕ)
    → n ≤ 128
    → channel < n
    → hop_channel false 1 n channel ≡ (if ltb 0 channel then channel - 1 else n - 1)
unfolding hop_channel
hop_backward n channel h lt = ground (arith, round-eq (channel + (n - 1)) n)

-- From a channel of a table of at most 128, a reverse hop undoes a forward hop and the other way
-- round, and both stay within the table.
pub hop_channel_inverse :
    (n channel : ℕ)
    → n ≤ 128
    → channel < n
    → (hop_channel false 1 n (hop_channel true 1 n channel) ≡ channel)
      × (hop_channel true 1 n (hop_channel false 1 n channel) ≡ channel)
      × (hop_channel true 1 n channel < n)
      × (hop_channel false 1 n channel < n)
hop_channel_inverse n channel h lt = ground (
  arith,
  hop_forward n channel,
  hop_backward n channel,
  hop_backward n (hop_channel true 1 n channel),
  hop_forward n (hop_channel false 1 n channel),
)

hops-straight : (k n channel : ℕ) → n ≤ 255 → channel + k < n → hops k n channel ≡ channel + k
unfolding hops
hops-straight zero n channel h lt = omega arith
hops-straight (suc k) n channel h lt =
    ap (hops k n) (ground (arith, hop_forward n channel))
    ∙ hops-straight k n (channel + 1) h (omega arith)
    ∙ omega arith

hops-suc : (k n channel : ℕ) → hops (suc k) n channel ≡ hop_channel true 1 n (hops k n channel)
unfolding hops
hops-suc zero n channel = refl
hops-suc (suc k) n channel = hops-suc k n (hop_channel true 1 n channel)

-- The hops that are left until the channel is 0 again.
pub hops-eq-zero_iff :
    (k n channel : ℕ)
    → n ≤ 255
    → channel < n
    → k ≤ n - 1 - channel
    → (hops (suc k) n channel ≡ 0) ↔ (k ≡ n - 1 - channel)
hops-eq-zero_iff k n channel h lt le = elim (dec_lt (channel + suc k) n) [
  | yes p ↦
      (λ e. absurd (omega (arith, hops-straight (suc k) n channel h p)), λ e. absurd (omega arith))
  | no p ↦ (λ _. omega arith, λ _. last (omega arith))
]
  where
    last : n ≤ channel + k + 1 → hops (suc k) n channel ≡ 0
    last over =
        hops-suc k n channel
        ∙ ap (hop_channel true 1 n) (hops-straight k n channel h (omega arith))
        ∙ ground (arith, hop_forward n (channel + k))

elapsed-eq : (now start : ℕ) → start ≤ now → now < 4294967296 → elapsed now start ≡ now - start
elapsed-eq now start order small = ground (arith, round-eq (now + 4294967296 - start) 4294967296)

u32-eq : (n : ℕ) → n < 4294967296 → u32 n ≡ n
u32-eq n h = mod-eq_of_lt {n = n} h

ltb-suc : (r : ℕ) → ltb 0 (suc r) ≡ true
ltb-suc r = ground arith

whole_time :
    (a r dwell : ℕ)
    → a + r * dwell < 4294967296
    → (if ltb 0 r then u32 (a + r * dwell) else a) ≡ a + r * dwell
whole_time a zero dwell h = omega arith
whole_time a (suc r) dwell h = rw (ltb-suc r) (u32-eq (a + suc r * dwell) h)

-- For a current channel of a table of at most 255, if the channel timer has not run out and no
-- 32-bit number overflows, mSecToChannelZero is the time left on this channel and a whole dwell
-- time for each further one, and of the next hops, up to the number of further channels and one
-- more, only the last leads to channel 0.
pub msec_to_channel_zero_lem :
    (timer start now n dwell channel k : ℕ)
    → n ≤ 255
    → channel < n
    → start ≤ now
    → now < 4294967296
    → now - start ≤ timer
    → timer + (n - 1 - channel) * dwell < 4294967296
    → k ≤ n - 1 - channel
    → (msec_to_channel_zero timer start now n dwell channel
        ≡ (timer - (now - start)) + (n - 1 - channel) * dwell)
      × ((hops (suc k) n channel ≡ 0) ↔ (k ≡ n - 1 - channel))
unfolding msec_to_channel_zero
msec_to_channel_zero_lem timer start now n dwell channel k h lt order small due fits le =
    (time, hops-eq-zero_iff k n channel h lt le)
  where
    left : ℕ
    left = timer - (now - start)

    here : u32 (timer + 4294967296 - elapsed now start) ≡ left
    here =
        ap (λ e. u32 (timer + 4294967296 - e)) (elapsed-eq now start order small)
        ∙ ground (arith, round-eq (timer + 4294967296 - (now - start)) 4294967296)

    remaining : u16 (n + 65536 - 1 - channel) ≡ n - 1 - channel
    remaining = ground (arith, round-eq (n + 65536 - 1 - channel) 65536)

    time : msec_to_channel_zero timer start now n dwell channel ≡ left + (n - 1 - channel) * dwell
    time =
        ap₂ (λ a b. if ltb 0 b then u32 (a + b * dwell) else a) here remaining
        ∙ whole_time left (n - 1 - channel) dwell (omega arith)
