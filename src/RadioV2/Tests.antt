-- ===== src/RadioV2/Tests.antt =====
-- A heartbeat from a station without an address, and its reading byte by byte.
use spark_fun_lo_ra_serial.Base.{
  ℕ, ◌≡◌, refl, true, [], ◌++◌, some, replicate, take, drop, length, arith,
}
use spark_fun_lo_ra_serial.RadioV2.Terminal.{read_lora_serial, read_lora_serial_short}
use spark_fun_lo_ra_serial.RadioV2.{Station, xmit_vc_heartbeat}

abbrev silent : Station
silent = record {
  tx_buffer = [];
  rx_buffer = [];
  rx_bytes = 0;
  dest_addr = 0;
  src_addr = 0;
  datagram_timer = 0;
}

-- `read` that gives one byte a call
abbrev bytewise : ℕ → ℕ → ℕ
bytewise k n = 1

read_lora_serial_short_example :
    let datagram = (xmit_vc_heartbeat true 9 253 (replicate 16 7) silent).tx_buffer in
    (read_lora_serial bytewise 18 (datagram ++ [])
      ≡ some (take 19 datagram, drop 19 datagram ++ []))
    × (length (drop 19 datagram) ≡ 1)
read_lora_serial_short_example =
    read_lora_serial_short bytewise true 9 253 18 (replicate 16 7) [] silent
      (λ k n h. (omega arith, omega (arith, h))) refl (omega arith)
