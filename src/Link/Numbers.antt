-- ===== src/Link/Numbers.antt =====
-- What the check of a packet number can come to.
use mathlib.Core.Logic.{if_pos, if_neg}
use spark_fun_lo_ra_serial.Base.{
  ℕ, ◌+◌, ◌%◌, ◌≡◌, ◌≢◌, refl, sym, ap, ◌∙◌, Bool, true, false, not, arith, Bool-cases, inl, inr,
  if◌then◌else◌, ◌==◌, ◌&&◌, ◌||◌, ltb, ◌⊎◌,
}
use spark_fun_lo_ra_serial.Settings.{is_virtual_circuit}
use spark_fun_lo_ra_serial.Datagram.{
  PacketType, PacketType-discrete, data_frame, data_ack, heartbeat, remote_command,
  remote_command_response, bad, duplicate,
}
use spark_fun_lo_ra_serial.Link.{
  Receiver, Arrival, is_data, validate_datagram, validated, verify_packet_number, count_message,
}

-- The frames that carry a number of their own, and wait for an acknowledgement.
abbrev pub is_numbered : PacketType → Bool
is_numbered data_frame = true
is_numbered heartbeat = true
is_numbered remote_command = true
is_numbered remote_command_response = true
is_numbered _ = false

-- A numbered frame is accepted as the next one, known as a repetition of the last one, or dropped;
-- only an accepted one moves the receiver's numbers.
pub data Outcome (r : Receiver) (type : PacketType) (ack_number : ℕ)
    (result : PacketType × Receiver) : Type 0 where
  accepted :
      result.0 ≡ type
      → ack_number ≡ r.vc.rmt_tx_ack_number
      → result.1.vc.rx_ack_number ≡ r.vc.rmt_tx_ack_number
      → result.1.vc.rmt_tx_ack_number ≡ (r.vc.rmt_tx_ack_number + 1) % 4
      → Outcome r type ack_number result
  repeated :
      result.0 ≡ duplicate
      → ack_number ≡ (r.vc.rmt_tx_ack_number + 3) % 4
      → result.1.vc.rx_ack_number ≡ r.vc.rx_ack_number
      → result.1.vc.rmt_tx_ack_number ≡ r.vc.rmt_tx_ack_number
      → Outcome r type ack_number result
  dropped :
      result.0 ≡ bad
      → result.1.vc.rx_ack_number ≡ r.vc.rx_ack_number
      → result.1.vc.rmt_tx_ack_number ≡ r.vc.rmt_tx_ack_number
      → Outcome r type ack_number result

Outcome-if :
    (r : Receiver) (type : PacketType) (n : ℕ) (c : Bool) (x y : PacketType × Receiver)
    → (c ≡ true → Outcome r type n x)
    → (c ≡ false → Outcome r type n y)
    → Outcome r type n (if c then x else y)
Outcome-if r type n true x y p q = p refl
Outcome-if r type n false x y p q = q refl

validate_datagram-Outcome :
    (at : Arrival) (r : Receiver) (type : PacketType) (n free : ℕ)
    → Outcome r type n (validate_datagram at r type n free)
unfolding validate_datagram
validate_datagram-Outcome at r type n free =
    Outcome-if r type n (not (n == r.vc.rmt_tx_ack_number)) _ _
      (λ other.
        Outcome-if r type n (n == (r.vc.rmt_tx_ack_number + 3) % 4) _ _
          (λ e. Outcome.repeated refl (ground arith) refl refl)
          (λ _. Outcome.dropped refl refl refl))
      (λ same.
        Outcome-if r type n ((at.in_command_mode && is_data type) || ltb free at.rx_data_bytes) _ _
          (λ _. Outcome.dropped refl refl refl)
          (λ _. Outcome.accepted refl (ground arith) refl refl))

-- The steps behind an accepted frame keep its numbers.
pub count_message-vc :
    (type : PacketType) (r : Receiver)
    → ((count_message type r).vc.rx_ack_number ≡ r.vc.rx_ack_number)
      × ((count_message type r).vc.rmt_tx_ack_number ≡ r.vc.rmt_tx_ack_number)
count_message-vc data_frame r = (refl, refl)
count_message-vc _ r = (refl, refl)

pub not-numbered :
    (type type' other : PacketType)
    → is_numbered type ≡ true
    → is_numbered other ≡ false
    → type' ≡ other
    → type' ≢ type
not-numbered type type' other h o e same = cc (ap is_numbered (sym e ∙ same))

validated-Outcome :
    (at : Arrival) (r : Receiver) (type : PacketType) (n free : ℕ)
    → is_numbered type ≡ true
    → Outcome r type n (validated at r type n free)
unfolding validated
validated-Outcome at r type n free h = elim (validate_datagram-Outcome at r type n free) [
  | Outcome.accepted e a rx rmt ↦
      rw (validated, if_pos (PacketType-discrete _ type) e)
        (Outcome.accepted refl a ((count_message-vc type _).0 ∙ rx)
          ((count_message-vc type _).1 ∙ rmt))
  | Outcome.repeated e a rx rmt ↦
      rw (validated, if_neg (PacketType-discrete _ type) (not-numbered type _ duplicate h refl e))
        (Outcome.repeated e a rx rmt)
  | Outcome.dropped e rx rmt ↦
      rw (validated, if_neg (PacketType-discrete _ type) (not-numbered type _ bad h refl e))
        (Outcome.dropped e rx rmt)
]

-- On a point-to-point link a numbered frame is accepted as the next one, reported as a duplicate
-- of the last one, or dropped; only an accepted frame moves the receiver's numbers.
pub verify_packet_number-Outcome :
    (at : Arrival) (r : Receiver) (type : PacketType) (n : ℕ)
    → is_virtual_circuit at.operating_mode ≡ false
    → is_numbered type ≡ true
    → Outcome r type n (verify_packet_number at r type n)
unfolding verify_packet_number
verify_packet_number-Outcome at r data_frame n mode h =
    validated-Outcome at r data_frame n at.serial_space h
verify_packet_number-Outcome at r heartbeat n mode h =
    rw mode (validated-Outcome at r heartbeat n at.rx_data_bytes h)
verify_packet_number-Outcome at r remote_command n mode h =
    validated-Outcome at r remote_command n at.command_space h
verify_packet_number-Outcome at r remote_command_response n mode h =
    validated-Outcome at r remote_command_response n at.serial_space h
verify_packet_number-Outcome at r _ n mode h = cc

-- An acknowledgement counts exactly when it carries the awaited number, and then moves that number
-- on by one, modulo four; any other is bad and moves nothing.
pub verify_data_ack :
    (at : Arrival) (r : Receiver) (n : ℕ)
    → let (type, r') = verify_packet_number at r data_ack n in
      ((n ≡ r.vc.tx_ack_number)
        × (type ≡ data_ack)
        × (r'.vc.tx_ack_number ≡ (r.vc.tx_ack_number + 1) % 4))
      ⊎ ((n ≢ r.vc.tx_ack_number) × (type ≡ bad) × (r'.vc.tx_ack_number ≡ r.vc.tx_ack_number))
unfolding verify_packet_number
verify_data_ack at r n = elim (Bool-cases (n == r.vc.tx_ack_number)) [
  | inl e ↦ rw e (inl (ground arith, refl, refl))
  | inr e ↦ rw e (inr ((λ q. ground arith), refl, refl))
]
