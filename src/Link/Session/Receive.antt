-- ===== src/Link/Session/Receive.antt =====
-- The reception of a frame, and of an acknowledgement, keeps the invariant of the session.
use mathlib.Core.List.{Memᴰ}
use mathlib.Core.Logic.{if_pos, if_neg}
use spark_fun_lo_ra_serial.Base.{
  ℕ, ◌+◌, ◌%◌, ◌<◌, ◌≡◌, refl, ap, ◌∙◌, Bool, true, false, arith, [], ◌∷◌, ◌++◌, Option, none, some,
  length, length-append, ◌⊎◌, inl, inr, subst,
}
use spark_fun_lo_ra_serial.Settings.{OperatingMode, point_to_point, is_virtual_circuit}
use spark_fun_lo_ra_serial.Datagram.{PacketType-discrete, data_ack, duplicate, bad}
use spark_fun_lo_ra_serial.Link.{Receiver, Arrival, verify_packet_number, select_ack_number}
use spark_fun_lo_ra_serial.Link.Numbers.{
  Outcome, verify_packet_number-Outcome, verify_data_ack, not-numbered,
}
use spark_fun_lo_ra_serial.Link.Session.{
  Frame, Session, send_ack, arrive, acknowledge, is_duplicate, is_data_ack,
}
use spark_fun_lo_ra_serial.Link.Session.Picks.{Picks-snoc}
use spark_fun_lo_ra_serial.Link.Session.Invariant.{AirIsOk, AckIsOk, Inv}

-- A fresh frame finds the receiver without one of its number, and leaves it with one.
accepted-Inv :
    (taken : Bool) (f : Frame) (n : ℕ) (l : Session) (r : Receiver)
    → Inv taken l
    → AirIsOk l.past l.current l.waiting (some (f, n))
    → n ≡ l.receiver.vc.rmt_tx_ack_number
    → r.vc.rx_ack_number ≡ l.receiver.vc.rmt_tx_ack_number
    → r.vc.rmt_tx_ack_number ≡ (l.receiver.vc.rmt_tx_ack_number + 1) % 4
    → Inv true
        (send_ack (record l { in_air = none; receiver = r; delivered = l.delivered ++ f ∷ [] }))
unfolding send_ack select_ack_number
accepted-Inv true f n l r v (_, inl (a, m, w)) same rx rmt = absurd (omega (arith, v.rmt))
accepted-Inv true f n l r v (_, inr (a, p, w)) same rx rmt = cc (v.busy refl)
accepted-Inv false f n l r v (_, inr (a, p, w)) same rx rmt = absurd (omega (arith, v.rmt))
accepted-Inv false f n l r v (_, inl (a, m, w)) same rx rmt = record {
  tx = v.tx;
  rmt = omega (arith, v.rmt);
  rx = λ _. omega (arith, v.rmt);
  log = Picks-snoc l.delivered l.past f l.current v.log m;
  busy = λ _. w;
  numbered = v.numbered;
  air = tt;
  ack = inl (omega (arith, v.rmt), refl);
}

-- A repeated frame is acknowledged once more, with the number it had.
repeated-Inv :
    (taken : Bool) (f : Frame) (n : ℕ) (l : Session) (r : Receiver)
    → Inv taken l
    → AirIsOk l.past l.current l.waiting (some (f, n))
    → n ≡ (l.receiver.vc.rmt_tx_ack_number + 3) % 4
    → r.vc.rx_ack_number ≡ l.receiver.vc.rx_ack_number
    → r.vc.rmt_tx_ack_number ≡ l.receiver.vc.rmt_tx_ack_number
    → Inv taken (send_ack (record l { in_air = none; receiver = r }))
unfolding send_ack select_ack_number
repeated-Inv taken f n l r v air same rx rmt = record {
  tx = v.tx;
  rmt = rmt ∙ v.rmt;
  rx = λ p. rx ∙ v.rx p;
  log = v.log;
  busy = v.busy;
  numbered = v.numbered;
  air = tt;
  ack = again taken v air.1;
}
  where
    again :
        (t : Bool)
        → Inv t l
        → ((n ≡ length l.past % 4) × Memᴰ f l.current × (l.waiting ≡ true))
          ⊎ ((n ≡ (length l.past + 3) % 4) × (0 < length l.past) × (l.waiting ≡ false))
        → AckIsOk t l.past (some r.vc.rx_ack_number)
    again true u (inl (a, m, w)) = inl (omega (arith, u.rx (omega arith)), refl)
    again true u (inr (a, p, w)) = cc (u.busy refl)
    again false u (inl (a, m, w)) = absurd (omega (arith, u.rmt))
    again false u (inr (a, p, w)) = inr (omega (arith, u.rx (omega arith)), p)

dropped-Inv :
    (taken : Bool) (l : Session) (r : Receiver)
    → Inv taken l
    → r.vc.rx_ack_number ≡ l.receiver.vc.rx_ack_number
    → r.vc.rmt_tx_ack_number ≡ l.receiver.vc.rmt_tx_ack_number
    → Inv taken (record l { in_air = none; receiver = r })
dropped-Inv taken l r v rx rmt = record {
  tx = v.tx;
  rmt = rmt ∙ v.rmt;
  rx = λ p. rx ∙ v.rx p;
  log = v.log;
  busy = v.busy;
  numbered = v.numbered;
  air = tt;
  ack = v.ack;
}

not_virtual_circuit : (m : OperatingMode) → m ≡ point_to_point → is_virtual_circuit m ≡ false
not_virtual_circuit m e = ap is_virtual_circuit e

-- A frame that arrives keeps the invariant, whatever the receiver makes of it.
pub arrive-Inv :
    (taken : Bool) (at : Arrival) (f : Frame) (n : ℕ) (l : Session)
    → Inv taken l
    → at.operating_mode ≡ point_to_point
    → l.in_air ≡ some (f, n)
    → (t : Bool) × Inv t (arrive at f n l)
unfolding arrive
arrive-Inv taken at f n l v mode e =
    elim (verify_packet_number-Outcome at l.receiver f.type n (not_virtual_circuit _ mode) air.0) [
      | Outcome.accepted type same rx rmt ↦ (
        true,
        rw (arrive, if_pos (PacketType-discrete _ f.type) type)
            (accepted-Inv taken f n l r v air same rx rmt),
      )
      | Outcome.repeated type same rx rmt ↦ (
        taken,
        rw
            (
              arrive,
              if_neg (PacketType-discrete _ f.type)
                  (not-numbered f.type _ duplicate air.0 refl type),
              ap is_duplicate type,
            )
            (repeated-Inv taken f n l r v air same rx rmt),
      )
      | Outcome.dropped type rx rmt ↦ (
        taken,
        rw
            (
              arrive,
              if_neg (PacketType-discrete _ f.type) (not-numbered f.type _ bad air.0 refl type),
              ap is_duplicate type,
            )
            (dropped-Inv taken l r v rx rmt),
      )
    ]
  where
    air : AirIsOk l.past l.current l.waiting (some (f, n))
    air = subst (AirIsOk l.past l.current l.waiting) e v.air

    r : Receiver
    r = (verify_packet_number at l.receiver f.type n).1

-- The awaited acknowledgement moves the current frames to the past.
acknowledged-Inv :
    (l : Session) (s : Receiver)
    → Inv true l
    → s.vc.tx_ack_number ≡ (l.sender.vc.tx_ack_number + 1) % 4
    → Inv false (record l {
      ack_in_air = none;
      sender = s;
      waiting = false;
      past = l.past ++ l.current ∷ [];
      current = [];
    })
acknowledged-Inv l s v tx = record {
  tx = omega (arith, v.tx, longer);
  rmt = omega (arith, v.rmt, longer);
  rx = λ p. omega (arith, v.rx (omega arith), longer);
  log = v.log;
  busy = λ e. cc;
  numbered = λ f m. elim m [ ];
  air = settle l.in_air v.air;
  ack = tt;
}
  where
    longer : length (l.past ++ l.current ∷ []) ≡ length l.past + 1
    longer = length-append l.past (l.current ∷ [])

    settle :
        (o : Option (Frame × ℕ))
        → AirIsOk l.past l.current l.waiting o
        → AirIsOk (l.past ++ l.current ∷ []) [] false o
    settle none a = tt
    settle (some (f, n)) (h, inl (e, m, w)) =
        (h, inr (omega (arith, longer), omega (arith, longer), refl))
    settle (some (f, n)) (h, inr (e, p, w)) = absurd (cc (v.busy refl))

unheard-Inv :
    (taken : Bool) (l : Session) (s : Receiver)
    → Inv taken l
    → s.vc.tx_ack_number ≡ l.sender.vc.tx_ack_number
    → Inv taken (record l { ack_in_air = none; sender = s })
unheard-Inv taken l s v tx = record {
  tx = tx ∙ v.tx;
  rmt = v.rmt;
  rx = v.rx;
  log = v.log;
  busy = v.busy;
  numbered = v.numbered;
  air = v.air;
  ack = tt;
}

pub awaited :
    (taken : Bool) (n : ℕ) (l : Session)
    → Inv taken l
    → AckIsOk taken l.past (some n)
    → n ≡ l.sender.vc.tx_ack_number
    → taken ≡ true
awaited taken n l v (inl (e, t)) same = t
awaited taken n l v (inr (e, p)) same = absurd (omega (arith, v.tx))

-- An acknowledgement that arrives keeps the invariant: only that of a taken frame counts.
pub acknowledge-Inv :
    (taken : Bool) (at : Arrival) (n : ℕ) (l : Session)
    → Inv taken l
    → l.ack_in_air ≡ some n
    → (t : Bool) × Inv t (acknowledge at n l)
unfolding acknowledge
acknowledge-Inv taken at n l v e = elim (verify_data_ack at l.sender n) [
  | inl (same, type, tx) ↦ (
    false,
    rw (acknowledge, ap is_data_ack type)
        (acknowledged-Inv l s (subst (λ t. Inv t l) (awaited taken n l v ack same) v) tx),
  )
  | inr (other, type, tx) ↦
      (taken, rw (acknowledge, ap is_data_ack type) (unheard-Inv taken l s v tx))
]
  where
    ack : AckIsOk taken l.past (some n)
    ack = subst (AckIsOk taken l.past) e v.ack

    s : Receiver
    s = (verify_packet_number at l.sender data_ack n).1
