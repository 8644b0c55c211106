-- ===== src/RadioV2.antt =====
-- The datagrams of the radio that Firmware/Tools/RadioV2.c stands in for: `xmitVcHeartbeat`,
-- `transmitDatagram` and `rcvDatagram`, with the globals of Firmware/Tools/settings.h. What `sendto`
-- and `recvfrom` do is an argument; addresses are bytes.
pub mod Terminal
mod Tests
use spark_fun_lo_ra_serial.Base.{
  ℕ, ◌+◌, ◌-◌, ap, ◌∙◌, Bool, true, false, List, [], ◌∷◌, if◌then◌else◌, length, get_or, set, u8,
}

pub record Station : Type 0 where
  pub tx_buffer : List ℕ  -- the first txBytes bytes of txBuffer
  pub rx_buffer : List ℕ  -- what was received
  pub rx_bytes : ℕ
  pub dest_addr : ℕ
  pub src_addr : ℕ
  pub datagram_timer : ℕ

abbrev pub frame_vc_heartbeat : ℕ
frame_vc_heartbeat = 0

abbrev pub vc_broadcast : ℕ
vc_broadcast = 255

-- `sent` is whether `sendto` takes the datagram, `now` the time.
pub transmit_datagram : Bool → ℕ → Station → Station
transmit_datagram sent now s =
    let bytes = set s.tx_buffer 1 (u8 (length s.tx_buffer - 1)) in
    record s {
      tx_buffer = bytes;
      dest_addr = get_or bytes 2 0;
      src_addr = get_or bytes 3 0;
      datagram_timer = if sent then now else s.datagram_timer;
    }

pub xmit_vc_heartbeat : Bool → ℕ → ℕ → List ℕ → Station → Station
unfolding transmit_datagram
xmit_vc_heartbeat sent now addr id s =
    transmit_datagram sent now
      (record s { tx_buffer = frame_vc_heartbeat ∷ 0 ∷ vc_broadcast ∷ addr ∷ id })

-- The result is the type of the frame. The bytes counted then do not include it.
pub rcv_datagram : List ℕ → Station → ℕ × Station
rcv_datagram received s = (
  get_or received 0 0,
  record s {
    rx_buffer = received;
    rx_bytes = length received - 1;
    dest_addr = get_or received 2 0;
    src_addr = get_or received 3 0;
  },
)
