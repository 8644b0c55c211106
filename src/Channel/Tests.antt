-- ===== src/Channel/Tests.antt =====
-- Hops and shuffles of small tables.
use spark_fun_lo_ra_serial.Base.{
  ℕ, suc, ◌+◌, ◌-◌, ◌*◌, ◌<◌, ◌≡◌, refl, true, false, arith, List, [], ◌∷◌, length, leb, ◌↔◌,
}
use spark_fun_lo_ra_serial.Channel.{
  my_rand, rand_bit, swap, shuffle_loop, shuffle, hop_channel, msec_to_channel_zero,
}
use spark_fun_lo_ra_serial.Serial.Sample.{settings}
use spark_fun_lo_ra_serial.Channel.Sync.{Heard, ChannelTimer, sync_channel_timer}
use spark_fun_lo_ra_serial.Channel.Sync.Agrees.{Agrees, sync_channel_timer_lem}
use spark_fun_lo_ra_serial.Channel.Shuffle.{count, shuffle_keeps}
use spark_fun_lo_ra_serial.Channel.Hops.{hops, hop_channel_inverse, msec_to_channel_zero_lem}

abbrev table : List ℕ
table = 902 ∷ 907 ∷ 912 ∷ 917 ∷ 922 ∷ []

shuffled : shuffle 5 1234 0 table ≡ 912 ∷ 907 ∷ 902 ∷ 917 ∷ 922 ∷ []
unfolding shuffle shuffle_loop swap my_rand rand_bit
shuffled = refl

-- With 200 channels the sum of a reverse hop does not fit 8 bits.
reverse_wraps : hop_channel false 1 200 100 ≡ 43
unfolding hop_channel
reverse_wraps = refl

shuffle_keeps_example :
    (count (leb 910) (shuffle 5 1234 0 table) ≡ count (leb 910) table)
    × (length (shuffle 5 1234 0 table) ≡ 5)
shuffle_keeps_example = shuffle_keeps (leb 910) 1234 0 table

hop_channel_inverse_example :
    (hop_channel false 1 50 (hop_channel true 1 50 49) ≡ 49)
    × (hop_channel true 1 50 (hop_channel false 1 50 49) ≡ 49)
    × (hop_channel true 1 50 49 < 50)
    × (hop_channel false 1 50 49 < 50)
hop_channel_inverse_example = hop_channel_inverse 50 49 (omega arith) (omega arith)

msec_to_channel_zero_lem_example :
    (msec_to_channel_zero 400 1000 1100 50 400 47 ≡ (400 - (1100 - 1000)) + (50 - 1 - 47) * 400)
    × ((hops (suc 2) 50 47 ≡ 0) ↔ (2 ≡ 50 - 1 - 47))
msec_to_channel_zero_lem_example =
    msec_to_channel_zero_lem 400 1000 1100 50 400 47 2 (omega arith) (omega arith) (omega arith)
      (omega arith) (omega arith) (omega arith) (omega arith)

-- The other radio had 100 ms left, and the frame took 50 ms.
abbrev heard : Heard
heard = record {
  settings = settings;
  clock_sync_receiver = true;
  millis = 9000;
  frame_usec = 50000;
  ms_to_next_hop_remote = 100;
}

abbrev running : ChannelTimer
running = record {
  channel_number = 3;
  channel_timer_msec = 400;
  channel_timer_start = 8700;
  reload_channel_timer = false;
  time_to_hop = false;
}

sync_channel_timer_lem_example :
    Agrees 400 100 50 (sync_channel_timer heard running).channel_timer_msec
sync_channel_timer_lem_example =
    sync_channel_timer_lem heard running refl refl (omega arith) (omega arith) (omega arith)
      (omega arith)
