-- ===== src/Link/Room.antt =====
-- A receiver with room: its answer to the frame that it expects, and to the one it took last.
use mathlib.Core.Logic.{if_pos, if_neg}
use spark_fun_lo_ra_serial.Base.{
  ℕ, ◌+◌, ◌%◌, ◌≡◌, ◌≢◌, refl, ap, ◌∙◌, Bool, true, false, not, arith, if-true, if-false, ltb, ◌==◌,
  ◌&&◌, ◌||◌, ==_iff, u32,
}
use spark_fun_lo_ra_serial.Settings.{is_virtual_circuit}
use spark_fun_lo_ra_serial.Datagram.{
  PacketType, PacketType-discrete, data_frame, heartbeat, remote_command, remote_command_response,
  duplicate,
}
use spark_fun_lo_ra_serial.Link.{
  Receiver, Arrival, is_data, validate_datagram, validated, verify_packet_number, count_message,
  count_frame,
}
use spark_fun_lo_ra_serial.Link.Numbers.{is_numbered, not-numbered, count_message-vc}

-- The bytes that a frame of a type may bring.
abbrev pub free_bytes : Arrival → PacketType → ℕ
free_bytes at data_frame = at.serial_space
free_bytes at remote_command = at.command_space
free_bytes at remote_command_response = at.serial_space
free_bytes at _ = at.rx_data_bytes

-- Whether the receiver takes what a frame brings: no data in command mode, and no more than fits.
abbrev pub has_room : Arrival → PacketType → Bool
has_room at type =
    not ((at.in_command_mode && is_data type) || ltb (free_bytes at type) at.rx_data_bytes)

verify-validated :
    (at : Arrival) (r : Receiver) (type : PacketType) (n : ℕ)
    → is_virtual_circuit at.operating_mode ≡ false
    → is_numbered type ≡ true
    → verify_packet_number at r type n ≡ validated at r type n (free_bytes at type)
unfolding verify_packet_number
verify-validated at r data_frame n mode h = refl
verify-validated at r heartbeat n mode h = if-false _ _ mode
verify-validated at r remote_command n mode h = refl
verify-validated at r remote_command_response n mode h = refl
verify-validated at r _ n mode h = cc

not-true : (b : Bool) → not b ≡ true → b ≡ false
not-true true e = cc
not-true false e = refl

validated-expected :
    (at : Arrival) (r : Receiver) (type : PacketType) (n : ℕ)
    → n ≡ r.vc.rmt_tx_ack_number
    → has_room at type ≡ true
    → ((validated at r type n (free_bytes at type)).0 ≡ type)
      × ((validated at r type n (free_bytes at type)).1.vc.rx_ack_number ≡ r.vc.rmt_tx_ack_number)
unfolding validated validate_datagram
validated-expected at r type n same room = (
  ap (λ (p : PacketType × Receiver). p.0) whole,
  ap (λ (p : PacketType × Receiver). p.1.vc.rx_ack_number) whole
      ∙ (count_message-vc type heard).0
      ∙ ap (λ (p : PacketType × Receiver). p.1.vc.rx_ack_number) taken,
)
  where
    taken : validate_datagram at r type n (free_bytes at type) ≡ (
      type,
      record r {
        vc = record r.vc {
          rx_ack_number = r.vc.rmt_tx_ack_number;
          rmt_tx_ack_number = (r.vc.rmt_tx_ack_number + 1) % 4;
        };
      },
    )
    taken =
        if-false _ _ (ap not ((==_iff n r.vc.rmt_tx_ack_number).1 same))
        ∙ if-false _ _ (not-true _ room)

    heard : Receiver
    heard = record (validate_datagram at r type n (free_bytes at type)).1 {
      last_rx_datagram = at.millis;
    }

    whole :
        validated at r type n (free_bytes at type) ≡ (type, count_frame (count_message type heard))
    whole =
        if_pos (PacketType-discrete (validate_datagram at r type n (free_bytes at type)).0 type)
          (ap (λ (p : PacketType × Receiver). p.0) taken) _ _

validated-taken :
    (at : Arrival) (r : Receiver) (type : PacketType) (n free : ℕ)
    → is_numbered type ≡ true
    → n ≢ r.vc.rmt_tx_ack_number
    → n ≡ (r.vc.rmt_tx_ack_number + 3) % 4
    → ((validated at r type n free).0 ≡ duplicate)
      × ((validated at r type n free).1.vc.rx_ack_number ≡ r.vc.rx_ack_number)
unfolding validated validate_datagram
validated-taken at r type n free numbered other last = (
  ap (λ (p : PacketType × Receiver). p.0) (whole ∙ known),
  ap (λ (p : PacketType × Receiver). p.1.vc.rx_ack_number) (whole ∙ known),
)
  where
    different : not (n == r.vc.rmt_tx_ack_number) ≡ true
    different = ground (arith, other)

    known : validate_datagram at r type n free ≡ (
      duplicate,
      record r { link_down_timer = at.millis; duplicate_frames = u32 (r.duplicate_frames + 1) },
    )
    known =
        if-true _ _ different ∙ if-true _ _ ((==_iff n ((r.vc.rmt_tx_ack_number + 3) % 4)).1 last)

    whole : validated at r type n free ≡ validate_datagram at r type n free
    whole =
        if_neg (PacketType-discrete (validate_datagram at r type n free).0 type)
          (not-numbered type _ duplicate numbered refl
            (ap (λ (p : PacketType × Receiver). p.0) known))
          _ _

-- With room, the expected frame is taken and becomes the one to be acknowledged.
pub verify_packet_number-expected :
    (at : Arrival) (r : Receiver) (type : PacketType) (n : ℕ)
    → is_virtual_circuit at.operating_mode ≡ false
    → is_numbered type ≡ true
    → n ≡ r.vc.rmt_tx_ack_number
    → has_room at type ≡ true
    → ((verify_packet_number at r type n).0 ≡ type)
      × ((verify_packet_number at r type n).1.vc.rx_ack_number ≡ r.vc.rmt_tx_ack_number)
verify_packet_number-expected at r type n mode numbered same room =
    rw (verify-validated at r type n mode numbered) (validated-expected at r type n same room)

-- The frame that was taken last is a duplicate, and is to be acknowledged again.
pub verify_packet_number-taken :
    (at : Arrival) (r : Receiver) (type : PacketType) (n : ℕ)
    → is_virtual_circuit at.operating_mode ≡ false
    → is_numbered type ≡ true
    → n ≢ r.vc.rmt_tx_ack_number
    → n ≡ (r.vc.rmt_tx_ack_number + 3) % 4
    → ((verify_packet_number at r type n).0 ≡ duplicate)
      × ((verify_packet_number at r type n).1.vc.rx_ack_number ≡ r.vc.rx_ack_number)
verify_packet_number-taken at r type n mode numbered other last =
    rw (verify-validated at r type n mode numbered)
      (validated-taken at r type n (free_bytes at type) numbered other last)
