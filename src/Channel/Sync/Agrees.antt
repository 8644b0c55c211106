-- ===== src/Channel/Sync/Agrees.antt =====
-- The channel timer after it has been synchronised (`syncChannelTimer`, Firmware/LoRaSerial/Radio.ino).
use spark_fun_lo_ra_serial.Base.{
  ℕ, zero, suc, ◌+◌, ◌-◌, ◌*◌, ◌≤◌, ◌<◌, ◌≡◌, ◌⊎◌, inl, inr, refl, sym, ap, subst, true, false, not,
  if-true, if-false, ◌==◌, ◌||◌, u16, dec_lt, arith,
}
use spark_fun_lo_ra_serial.Channel.Sync.{
  ChannelTimer, Heard, negative, next_hop_within, frame_air_time_msec, remote_hops, next_dwell,
  all_rounds, next_hop_msec, sync_channel_timer,
}

next_dwell-positive : (rounds dwell n : ℕ) → 0 < n → n < 32768 → next_dwell rounds dwell n ≡ n
unfolding next_dwell
next_dwell-positive zero dwell n pos small = refl
next_dwell-positive (suc rounds) dwell n pos small =
    let test : (n == 0 || negative n) ≡ false = ground arith in
    if-false (next_dwell rounds dwell (u16 (n + dwell))) n test

-- From a time that d milliseconds ago was due, the loop gives the next dwell's end.
next_dwell_lem :
    (rounds dwell d : ℕ)
    → 0 < dwell
    → dwell < 32768
    → d ≤ 32768
    → d < rounds
    → let r = next_dwell rounds dwell (u16 (65536 - d)) in
      (0 < r) × (r ≤ dwell) × ((k : ℕ) × (r + d ≡ k * dwell))
unfolding next_dwell
next_dwell_lem zero dwell d pos small late enough = absurd (omega arith)
next_dwell_lem (suc rounds) dwell d pos small late enough =
    rw (if-true (next_dwell rounds dwell (u16 (n + dwell))) n test) (elim (dec_lt d dwell) [
      | yes soon ↦
          let e : u16 (n + dwell) ≡ dwell - d = omega arith in
          rw (e, next_dwell-positive rounds dwell (dwell - d) (omega arith) (omega arith))
            (omega arith, omega arith, (1, omega arith))
      | no far ↦
          let e : u16 (n + dwell) ≡ u16 (65536 - (d - dwell)) = omega arith in
          let (least, most, (k, agrees)) =
            next_dwell_lem rounds dwell (d - dwell) pos small (omega arith) (omega arith) in
          rw (e) (least, most, (suc k, omega arith))
    ])
  where
    n : ℕ
    n = u16 (65536 - d)

    test : (n == 0 || negative n) ≡ true
    test = ground arith

-- The timer value r fires within a dwell time and a little, at the same time as a remote timer that had
-- ms left to a hop before an air time went by, dwell times apart.
abbrev pub Agrees : ℕ → ℕ → ℕ → ℕ → Type 0
Agrees dwell ms air r = (0 < r) × (r ≤ dwell + 2) × ((k : ℕ) × (r + air ≡ ms + k * dwell))

-- The remote timer has fired since.
Agrees-late :
    (rounds dwell ms air : ℕ)
    → 32768 < rounds
    → 0 < dwell
    → dwell < 32766
    → ms ≤ dwell
    → air ≤ 32768
    → ms ≤ air
    → Agrees dwell ms air (next_dwell rounds dwell (u16 (u16 (ms + 65536 - air) + dwell)))
Agrees-late rounds dwell ms air enough pos small remote short late =
    elim (dec_lt (air - ms) dwell) [
      | yes soon ↦
          let e : u16 (u16 (ms + 65536 - air) + dwell) ≡ dwell - (air - ms) = omega arith in
          rw (e, next_dwell-positive rounds dwell (dwell - (air - ms)) (omega arith) (omega arith))
            (omega arith, omega arith, (1, omega arith))
      | no far ↦
          let e : u16 (u16 (ms + 65536 - air) + dwell) ≡ u16 (65536 - (air - ms - dwell)) =
            omega arith in
          let (least, most, (k, same)) =
            next_dwell_lem rounds dwell (air - ms - dwell) pos (omega arith) (omega arith)
              (omega arith) in
          rw (e) (least, omega arith, (suc k, omega arith))
    ]

-- It has yet to fire.
Agrees-early :
    (rounds dwell ms air adjustment : ℕ)
    → dwell < 32766
    → ms ≤ dwell
    → air < ms
    → (adjustment ≡ 0) ⊎ (adjustment ≡ dwell) × (ms ≤ air + 2)
    → Agrees dwell ms air (next_dwell rounds dwell (u16 (u16 (ms + 65536 - air) + adjustment)))
Agrees-early rounds dwell ms air adjustment small remote early (inl none) =
    let e : u16 (u16 (ms + 65536 - air) + adjustment) ≡ ms - air = omega arith in
    rw (e, next_dwell-positive rounds dwell (ms - air) (omega arith) (omega arith))
      (omega arith, omega arith, (0, omega arith))
Agrees-early rounds dwell ms air adjustment small remote early (inr (one, soon)) =
    let e : u16 (u16 (ms + 65536 - air) + adjustment) ≡ ms - air + dwell = omega arith in
    rw (e, next_dwell-positive rounds dwell (ms - air + dwell) (omega arith) (omega arith))
      (omega arith, omega arith, (1, omega arith))

next_hop_within-Agrees :
    (rounds : ℕ) (h : Heard)
    → 32768 < rounds
    → 0 < h.settings.max_dwell_time
    → h.settings.max_dwell_time < 32766
    → h.ms_to_next_hop_remote ≤ h.settings.max_dwell_time
    → frame_air_time_msec h ≤ 32768
    → Agrees h.settings.max_dwell_time h.ms_to_next_hop_remote
        (frame_air_time_msec h)
        (next_hop_within rounds h)
unfolding next_hop_within
next_hop_within-Agrees rounds h enough pos small remote air =
    elim (dec_lt (frame_air_time_msec h) ms) [
      | no late ↦
          let test : remote_hops h ≡ true = ground arith in
          rw (if-true (u16 dwell) 0 test, whole)
            (Agrees-late rounds dwell ms (frame_air_time_msec h) enough pos small remote air
              (omega arith))
      | yes early ↦ elim (dec_lt (frame_air_time_msec h + 2) ms) [
        | yes far ↦
            let test : remote_hops h ≡ false = ground arith in
            rw (if-false (u16 dwell) 0 test)
              (Agrees-early rounds dwell ms (frame_air_time_msec h) 0 small remote early (inl refl))
        | no soon ↦
            let test : remote_hops h ≡ true = ground arith in
            rw (if-true (u16 dwell) 0 test, whole)
              (Agrees-early rounds dwell ms (frame_air_time_msec h) dwell small remote early
                (inr (refl, omega arith)))
      ]
    ]
  where
    dwell : ℕ
    dwell = h.settings.max_dwell_time

    ms : ℕ
    ms = h.ms_to_next_hop_remote

    whole : u16 h.settings.max_dwell_time ≡ h.settings.max_dwell_time
    whole = omega arith

-- For a radio that takes its clock from others and hops, with a dwell time from 1 to 32765 ms, a
-- remote time to the next hop of at most that, and a frame that took at most 32768 ms:
-- syncChannelTimer sets the channel timer to a time above 0 and at most the dwell time and 2 ms,
-- and it fires when the remote timer does, up to a whole number of dwell times later.
pub sync_channel_timer_lem :
    (h : Heard) (c : ChannelTimer)
    → h.clock_sync_receiver ≡ true
    → h.settings.frequency_hop ≡ true
    → 0 < h.settings.max_dwell_time
    → h.settings.max_dwell_time < 32766
    → h.ms_to_next_hop_remote ≤ h.settings.max_dwell_time
    → frame_air_time_msec h ≤ 32768
    → Agrees h.settings.max_dwell_time h.ms_to_next_hop_remote
        (frame_air_time_msec h)
        (sync_channel_timer h c).channel_timer_msec
unfolding sync_channel_timer next_hop_msec
sync_channel_timer_lem h c listens hops pos small remote air =
    subst (Agrees h.settings.max_dwell_time h.ms_to_next_hop_remote (frame_air_time_msec h))
      (sym (ap (λ (x : ChannelTimer). x.channel_timer_msec) (if-false _ _ test)))
      (next_hop_within-Agrees all_rounds h (omega arith) pos small remote air)
  where
    test : (not h.clock_sync_receiver || not h.settings.frequency_hop) ≡ false
    test = ground arith
