-- ===== src/Channel/Sync.antt =====
-- `syncChannelTimer` (Firmware/LoRaSerial/Radio.ino): the channel timer is set to fire when the other
-- radio's does. Numbers of type int16_t are kept as their 16 bits. The log of the last synchronisations
-- is left out.
pub mod Agrees
use spark_fun_lo_ra_serial.Base.{
  ℕ, zero, suc, ◌+◌, ◌-◌, ◌/◌, ◌%◌, Bool, true, false, not, if◌then◌else◌, leb, ltb, ◌==◌, ◌&&◌,
  ◌||◌, u16, u32, elapsed,
}
use spark_fun_lo_ra_serial.Settings.{Settings}
use spark_fun_lo_ra_serial.Channel.{hop_channel}

pub record ChannelTimer : Type 0 where
  pub channel_number : ℕ  -- uint8_t
  pub channel_timer_msec : ℕ  -- uint16_t
  pub channel_timer_start : ℕ
  pub reload_channel_timer : Bool
  pub time_to_hop : Bool

-- What stands when a frame has been received: the time, the time that the frame took in microseconds
-- from its start, and the other radio's time to its next hop when it sent the frame.
pub record Heard : Type 0 where
  pub settings : Settings
  pub clock_sync_receiver : Bool
  pub millis : ℕ
  pub frame_usec : ℕ  -- frameAirTimeUsec + settings.txToRxUsec + micros() - transactionCompleteMicros
  pub ms_to_next_hop_remote : ℕ  -- int16_t

abbrev pub negative : ℕ → Bool
negative n = leb 32768 n

abbrev pub remote_system_likely_to_hop_msec : ℕ
remote_system_likely_to_hop_msec = 2

abbrev pub frame_air_time_msec : Heard → ℕ
frame_air_time_msec h = u16 (h.frame_usec / 1000)

abbrev pub rmt_hop_time_msec : Heard → ℕ
rmt_hop_time_msec h = u16 (h.ms_to_next_hop_remote + 65536 - frame_air_time_msec h)

-- "Determine if the remote has hopped or is likely to hop very soon"
abbrev pub remote_hops : Heard → Bool
remote_hops h =
    negative (rmt_hop_time_msec h) || leb (rmt_hop_time_msec h) remote_system_likely_to_hop_msec

-- Whether this radio has hopped already
abbrev pub has_just_hopped : Heard → ChannelTimer → Bool
has_just_hopped h c =
    let local = u16 (elapsed h.millis c.channel_timer_start) in
    not (negative local) && leb local (frame_air_time_msec h + remote_system_likely_to_hop_msec)

-- `while (msToNextHop <= 0) msToNextHop += settings.maxDwellTime`
pub next_dwell : ℕ → ℕ → ℕ → ℕ
next_dwell zero dwell n = n
next_dwell (suc rounds) dwell n =
    let rest = next_dwell rounds dwell (u16 (n + dwell)) in if n == 0 || negative n then rest else n

-- A round moves the number up by at least one, so these are enough.
abbrev pub all_rounds : ℕ
all_rounds = 32769

-- With a number of rounds
pub next_hop_within : ℕ → Heard → ℕ
unfolding next_dwell
next_hop_within rounds h =
    let adjustment = if remote_hops h then u16 h.settings.max_dwell_time else 0 in
    next_dwell rounds h.settings.max_dwell_time (u16 (rmt_hop_time_msec h + adjustment))

pub next_hop_msec : Heard → ℕ
unfolding next_hop_within
next_hop_msec h = next_hop_within all_rounds h

-- `abs(settings.maxDwellTime - msToNextHop) <= 3`
abbrev pub nearly_a_dwell : Heard → ℕ → Bool
nearly_a_dwell h n = leb h.settings.max_dwell_time (n + 3) && leb n (h.settings.max_dwell_time + 3)

pub delayed_hop_count : Heard → ChannelTimer → ℕ
unfolding next_hop_msec
delayed_hop_count h c =
    (if c.time_to_hop then 1 else 0)
    + (if remote_hops h && not (has_just_hopped h c) then 1 else 0)
    + (if nearly_a_dwell h (next_hop_msec h) then 1 else 0)

pub sync_channel_timer : Heard → ChannelTimer → ChannelTimer
unfolding next_hop_msec delayed_hop_count
sync_channel_timer h c =
    if not h.clock_sync_receiver || not h.settings.frequency_hop
    then c
    else (let hops = delayed_hop_count h c in
        record {
          channel_number =
              if hops == 0
              then c.channel_number
              else hop_channel true hops h.settings.number_of_channels c.channel_number;
          channel_timer_msec = next_hop_msec h;
          channel_timer_start = h.millis;
          reload_channel_timer = true;
          time_to_hop = false;
        })

-- `channelTimerHandler` (Firmware/LoRaSerial/Begin.ino): the interrupt of the channel timer
pub channel_timer_handler : Settings → ℕ → ChannelTimer → ChannelTimer
channel_timer_handler s now c = record c {
  channel_timer_start = now;
  channel_timer_msec = if c.reload_channel_timer then s.max_dwell_time else c.channel_timer_msec;
  reload_channel_timer = false;
  time_to_hop = s.frequency_hop || c.time_to_hop;
}
