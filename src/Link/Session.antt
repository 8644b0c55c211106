-- ===== src/Link/Session.antt =====
-- One direction of a point-to-point session, from `enterLinkUp` to `breakLink`: the state
-- RADIO_P2P_LINK_UP of `updateRadioState` (Firmware/LoRaSerial/States.ino) at both radios, and the
-- air between them, which holds one frame each way, loses frames, and is overwritten by the next
-- transmission. The other direction has numbers of its own.
pub mod Picks
pub mod Invariant
pub mod Receive
pub mod Delivery
pub mod Steady
pub mod Progress
mod Tests
use mathlib.Core.Logic.{ite}
use spark_fun_lo_ra_serial.Base.{
  ℕ, ◌≡◌, Bool, true, false, List, [], ◌∷◌, ◌++◌, Option, none, some, if◌then◌else◌,
}
use spark_fun_lo_ra_serial.Settings.{point_to_point}
use spark_fun_lo_ra_serial.Datagram.{
  PacketType, PacketType-discrete, data_ack, heartbeat, duplicate,
}
use spark_fun_lo_ra_serial.Link.{Receiver, Arrival, verify_packet_number, select_ack_number}
use spark_fun_lo_ra_serial.Link.Numbers.{is_numbered}

pub record Frame : Type 0 where
  pub type : PacketType
  pub bytes : List ℕ

-- `past` and `current` are a log: the frames sent under each acknowledged number, and those sent
-- under the number that is still to be acknowledged, the last one first.
pub record Session : Type 0 where
  pub sender : Receiver
  pub waiting : Bool  -- ackTimer != 0
  pub past : List (List Frame)
  pub current : List Frame
  pub in_air : Option (Frame × ℕ)
  pub receiver : Receiver
  pub delivered : List Frame
  pub ack_in_air : Option ℕ

-- A frame goes out, and the ACK timer starts (SAVE_TX_BUFFER, START_ACK_TIMER).
pub transmit : Frame → Session → Session
transmit f l = record l {
  waiting = true;
  current = f ∷ [];
  in_air = some (f, select_ack_number l.sender.vc f.type);
}

-- A heartbeat comes before the wait for an ACK, and one that is sent again carries a new time: it
-- takes the place of the frame that was to be sent again, under the same number.
pub preempt : Frame → Session → Session
preempt f l = record l {
  current = f ∷ l.current;
  in_air = some (f, select_ack_number l.sender.vc f.type);
}

-- The ACK timer has run out: the saved frame is sent again.
pub retransmit : Frame → Session → Session
retransmit f l = record l { in_air = some (f, select_ack_number l.sender.vc f.type) }

abbrev pub is_duplicate : PacketType → Bool
is_duplicate duplicate = true
is_duplicate _ = false

abbrev pub is_data_ack : PacketType → Bool
is_data_ack data_ack = true
is_data_ack _ = false

-- P2P_SEND_ACK
pub send_ack : Session → Session
send_ack l = record l { ack_in_air = some (select_ack_number l.receiver.vc data_ack) }

-- A frame is received: its data is delivered and acknowledged, a duplicate is acknowledged again.
pub arrive : Arrival → Frame → ℕ → Session → Session
unfolding send_ack
arrive at f n l =
    let (type, r) = verify_packet_number at l.receiver f.type n in
    let heard = record l { in_air = none; receiver = r } in
    ite (PacketType-discrete type f.type)
      (send_ack (record heard { delivered = l.delivered ++ f ∷ [] }))
      (if is_duplicate type then send_ack heard else heard)

-- DATAGRAM_DATA_ACK is received: the awaited one stops the ACK timer.
pub acknowledge : Arrival → ℕ → Session → Session
acknowledge at n l =
    let (type, s) = verify_packet_number at l.sender data_ack n in
    let heard = record l { ack_in_air = none; sender = s } in
    if is_data_ack type
    then record heard { waiting = false; past = l.past ++ l.current ∷ []; current = [] }
    else heard

-- Everything that can happen in a session, in any order.
pub data Step (l : Session) : Session → Type 0 where
  transmits : (f : Frame) → is_numbered f.type ≡ true → l.waiting ≡ false → Step l (transmit f l)
  preempts : (f : Frame) → f.type ≡ heartbeat → l.waiting ≡ true → Step l (preempt f l)
  retransmits :
      (f : Frame) (fs : List Frame)
      → l.waiting ≡ true
      → l.current ≡ f ∷ fs
      → Step l (retransmit f l)
  loses_frame : Step l (record l { in_air = none })
  loses_ack : Step l (record l { ack_in_air = none })
  arrives :
      (at : Arrival) (f : Frame) (n : ℕ)
      → at.operating_mode ≡ point_to_point
      → l.in_air ≡ some (f, n)
      → Step l (arrive at f n l)
  acknowledges :
      (at : Arrival) (n : ℕ)
      → at.operating_mode ≡ point_to_point
      → l.ack_in_air ≡ some n
      → Step l (acknowledge at n l)

pub data Run (l : Session) : Session → Type 0 where
  start : Run l l
  step : {m k : Session} → Run l m → Step m k → Run l k

-- A session as both radios enter it.
pub record IsStart (l : Session) : Type 0 where
  pub sender_zero : l.sender.vc.tx_ack_number ≡ 0
  pub receiver_zero : l.receiver.vc.rmt_tx_ack_number ≡ 0
  pub idle : l.waiting ≡ false
  pub nothing_past : l.past ≡ []
  pub nothing_sent : l.current ≡ []
  pub nothing_delivered : l.delivered ≡ []
  pub quiet : l.in_air ≡ none
  pub no_ack : l.ack_in_air ≡ none
