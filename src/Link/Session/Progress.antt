-- ===== src/Link/Session/Progress.antt =====
-- A frame that waits gets through as soon as one transmission of it and one acknowledgement do.
use mathlib.Core.Logic.{if_pos, if_neg}
use mathlib.Core.List.{Memᴰ}
use spark_fun_lo_ra_serial.Base.{
  ℕ, ◌≡◌, refl, sym, ap, ap₂, ◌∙◌, Bool, true, false, arith, List, [], ◌∷◌, ◌++◌, some, subst, inl,
  inr, if-true,
}
use spark_fun_lo_ra_serial.Settings.{point_to_point, is_virtual_circuit}
use spark_fun_lo_ra_serial.Datagram.{PacketType-discrete, duplicate}
use spark_fun_lo_ra_serial.Link.{Receiver, Arrival, verify_packet_number, select_ack_number}
use spark_fun_lo_ra_serial.Link.Numbers.{is_numbered, verify_data_ack, not-numbered}
use spark_fun_lo_ra_serial.Link.Room.{
  has_room, verify_packet_number-expected, verify_packet_number-taken,
}
use spark_fun_lo_ra_serial.Link.Session.{
  Frame, Session, retransmit, send_ack, arrive, acknowledge, is_duplicate, is_data_ack, Run,
  IsStart,
}
use spark_fun_lo_ra_serial.Link.Session.Invariant.{Inv, retransmit-Inv, select-numbered}
use spark_fun_lo_ra_serial.Link.Session.Delivery.{Run-Inv}
use spark_fun_lo_ra_serial.Link.Session.Steady.{arrive-SameLog}

-- The frame is answered with the number that its sender waits for.
answered :
    (taken : Bool) (at : Arrival) (f : Frame) (l : Session)
    → Inv taken l
    → is_numbered f.type ≡ true
    → at.operating_mode ≡ point_to_point
    → has_room at f.type ≡ true
    → (arrive at f l.sender.vc.tx_ack_number l).ack_in_air ≡ some l.sender.vc.tx_ack_number
unfolding arrive send_ack select_ack_number
answered false at f l v numbered mode room =
    let (type, rx) =
      verify_packet_number-expected at l.receiver f.type l.sender.vc.tx_ack_number
        (ap is_virtual_circuit mode) numbered (omega (arith, v.tx, v.rmt)) room in
    ap (λ (k : Session). k.ack_in_air)
      (if_pos
        (PacketType-discrete (verify_packet_number at l.receiver f.type l.sender.vc.tx_ack_number).0
          f.type)
        type _ _)
    ∙ ap some (rx ∙ omega (arith, v.tx, v.rmt))
answered true at f l v numbered mode room =
    let (type, rx) =
      verify_packet_number-taken at l.receiver f.type l.sender.vc.tx_ack_number
        (ap is_virtual_circuit mode) numbered (λ e. absurd (omega (arith, v.tx, v.rmt)))
        (omega (arith, v.tx, v.rmt)) in
    ap (λ (k : Session). k.ack_in_air)
      (if_neg
          (PacketType-discrete
            (verify_packet_number at l.receiver f.type l.sender.vc.tx_ack_number).0 f.type)
          (not-numbered f.type _ duplicate numbered refl type) _ _
        ∙ if-true _ _ (ap is_duplicate type))
    ∙ ap some (rx ∙ omega (arith, v.tx, v.rx (omega arith)))

-- The awaited acknowledgement closes the number.
closes :
    (back : Arrival) (n : ℕ) (l : Session)
    → n ≡ l.sender.vc.tx_ack_number
    → ((acknowledge back n l).waiting ≡ false)
      × ((acknowledge back n l).past ≡ l.past ++ l.current ∷ [])
unfolding acknowledge
closes back n l awaited = elim (verify_data_ack back l.sender n) [
  | inl (same, type, tx) ↦ rw (ap is_data_ack type) (refl, refl)
  | inr (other, type, tx) ↦ absurd (other awaited)
]

-- From every state of a point-to-point session in which a frame waits: if it is sent again and
-- arrives where there is room for it, the answer is the acknowledgement that is awaited, and when
-- that arrives, the wait is over and the number closed.
pub session_recovers :
    (s l : Session) (f : Frame) (fs : List Frame) (at back : Arrival)
    → IsStart s
    → Run s l
    → l.waiting ≡ true
    → l.current ≡ f ∷ fs
    → at.operating_mode ≡ point_to_point
    → has_room at f.type ≡ true
    → let n = l.sender.vc.tx_ack_number in
      let heard = arrive at f n (retransmit f l) in
      let closed = acknowledge back n heard in
      ((retransmit f l).in_air ≡ some (f, n))
      × (heard.ack_in_air ≡ some n)
      × (closed.waiting ≡ false)
      × (closed.past ≡ l.past ++ l.current ∷ [])
unfolding retransmit
session_recovers s l f fs at back start run waiting current mode room =
    let (taken, v) = Run-Inv s l start run in
    let again = retransmit-Inv taken f fs l v waiting current in
    let numbered = v.numbered f (subst (Memᴰ f) (sym current) (Memᴰ.head refl)) in
    let (past, frames, wait, sender) =
      arrive-SameLog at f l.sender.vc.tx_ack_number (retransmit f l) in
    let (done, closed) =
      closes back l.sender.vc.tx_ack_number (arrive at f l.sender.vc.tx_ack_number (retransmit f l))
        (ap (λ (r : Receiver). r.vc.tx_ack_number) (sym sender)) in
    (
      ap (λ n. some (f, n)) (select-numbered l.sender f.type numbered),
      answered taken at f (retransmit f l) again numbered mode room,
      done,
      closed ∙ ap₂ (λ p q. p ++ q ∷ []) past frames,
    )
