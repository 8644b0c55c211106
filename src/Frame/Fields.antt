-- ===== src/Frame/Fields.antt =====
-- The control byte holds what was put into it.
use spark_fun_lo_ra_serial.Base.{
  ℕ, ◌+◌, ◌*◌, ◌/◌, ◌%◌, ◌<◌, ◌≡◌, refl, ap, ◌∙◌, Bool, true, false, ◌==◌, arith,
}
use spark_fun_lo_ra_serial.Datagram.{
  PacketType, find_partner, sync_clocks, zero_acks, data_frame, data_ack, heartbeat, remote_command,
  remote_command_response, datagram, training_find_partner, training_params, training_ack,
  vc_heartbeat, vc_unknown_acks, vc_sync_acks, vc_zero_acks, bad, crc_error, netid_mismatch,
  duplicate, not_mine,
}
use spark_fun_lo_ra_serial.Frame.{
  packet_number, packet_type, Control, bit, control_byte, control_of,
}

-- A kind of frame that is sent, and no result of a reception
abbrev pub OnAir : PacketType → Type 0
OnAir t = packet_number t < 16

packet_type-packet_number : (t : PacketType) → OnAir t → packet_type (packet_number t) ≡ t
packet_type-packet_number find_partner h = refl
packet_type-packet_number sync_clocks h = refl
packet_type-packet_number zero_acks h = refl
packet_type-packet_number data_frame h = refl
packet_type-packet_number data_ack h = refl
packet_type-packet_number heartbeat h = refl
packet_type-packet_number remote_command h = refl
packet_type-packet_number remote_command_response h = refl
packet_type-packet_number datagram h = refl
packet_type-packet_number training_find_partner h = refl
packet_type-packet_number training_params h = refl
packet_type-packet_number training_ack h = refl
packet_type-packet_number vc_heartbeat h = refl
packet_type-packet_number vc_unknown_acks h = refl
packet_type-packet_number vc_sync_acks h = refl
packet_type-packet_number vc_zero_acks h = refl
packet_type-packet_number bad h = absurd (omega arith)
packet_type-packet_number crc_error h = absurd (omega arith)
packet_type-packet_number netid_mismatch h = absurd (omega arith)
packet_type-packet_number duplicate h = absurd (omega arith)
packet_type-packet_number not_mine h = absurd (omega arith)

bit-lt : (b : Bool) → bit b < 2
bit-lt true = omega arith
bit-lt false = omega arith

bit-one : (b : Bool) → (bit b == 1) ≡ b
bit-one true = refl
bit-one false = refl

module _ (t n y i : ℕ) (ht : t < 16) (hn : n < 4) (hy : y < 2) (hi : i < 2) where
  byte : ℕ
  byte = t % 16 + n % 4 * 16 + y * 64 + i * 128

  byte_type : byte % 16 ≡ t
  unfolding byte
  byte_type = omega arith

  byte_number : byte / 16 % 4 ≡ n
  unfolding byte
  byte_number = omega arith

  byte_yield : byte / 64 % 2 ≡ y
  unfolding byte
  byte_yield = omega arith

  byte_ignore : byte / 128 % 2 ≡ i
  unfolding byte
  byte_ignore = omega arith

make : PacketType → ℕ → Bool → Bool → Control
make t n y i = record { type = t; ack_number = n; request_yield = y; ignore_frame = i }

pub control_of-control_byte :
    (c : Control) → OnAir c.type → c.ack_number < 4 → control_of (control_byte c) ≡ c
unfolding control_of control_byte make byte
control_of-control_byte c h k = λ j. make (type j) (number j) (yield j) (ignore j)
  where
    p : ℕ
    p = bit c.request_yield

    q : ℕ
    q = bit c.ignore_frame

    type : packet_type (control_byte c % 16) ≡ c.type
    type =
        ap packet_type (byte_type (packet_number c.type) c.ack_number p q h k (bit-lt _) (bit-lt _))
        ∙ packet_type-packet_number c.type h

    number : control_byte c / 16 % 4 ≡ c.ack_number
    number = byte_number (packet_number c.type) c.ack_number p q h k (bit-lt _) (bit-lt _)

    yield : (control_byte c / 64 % 2 == 1) ≡ c.request_yield
    yield =
        ap (λ b. b == 1)
          (byte_yield (packet_number c.type) c.ack_number p q h k (bit-lt _) (bit-lt _))
        ∙ bit-one c.request_yield

    ignore : (control_byte c / 128 % 2 == 1) ≡ c.ignore_frame
    ignore =
        ap (λ b. b == 1)
          (byte_ignore (packet_number c.type) c.ack_number p q h k (bit-lt _) (bit-lt _))
        ∙ bit-one c.ignore_frame
