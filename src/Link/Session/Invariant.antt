-- ===== src/Link/Session/Invariant.antt =====
-- The invariant of a session: how the numbers of the two radios and of the frames in the air stand
-- to the log.
use mathlib.Core.List.{Memᴰ}
use spark_fun_lo_ra_serial.Base.{
  ℕ, ◌+◌, ◌%◌, ◌<◌, ◌≡◌, refl, sym, ap, ◌∙◌, Bool, true, false, List, [], ◌∷◌, ◌++◌, Option, none,
  some, length, ◌⊎◌, inl, subst,
}
use spark_fun_lo_ra_serial.Datagram.{PacketType, data_ack, heartbeat}
use spark_fun_lo_ra_serial.Link.{Receiver, select_ack_number}
use spark_fun_lo_ra_serial.Link.Numbers.{is_numbered}
use spark_fun_lo_ra_serial.Link.Session.{Frame, Session, transmit, preempt, retransmit}
use spark_fun_lo_ra_serial.Link.Session.Picks.{Picks, Picks-more}

-- 1 if the receiver has taken a frame of the current number.
abbrev pub one_if : Bool → ℕ
one_if true = 1
one_if false = 0

-- The log that the delivered frames are picked from.
abbrev pub taken_log : Bool → List (List Frame) → List Frame → List (List Frame)
taken_log true past current = past ++ current ∷ []
taken_log false past current = past

-- A frame in the air was sent under the current number, or under the one before it, if nothing has
-- been sent since.
abbrev pub AirIsOk : List (List Frame) → List Frame → Bool → Option (Frame × ℕ) → Type 0
AirIsOk past current waiting none = Unit {0}
AirIsOk past current waiting (some (f, a)) =
    (is_numbered f.type ≡ true)
    × (((a ≡ length past % 4) × Memᴰ f current × (waiting ≡ true))
        ⊎ ((a ≡ (length past + 3) % 4) × (0 < length past) × (waiting ≡ false)))

-- An acknowledgement in the air is that of a taken frame, or of the number before.
abbrev pub AckIsOk : Bool → List (List Frame) → Option ℕ → Type 0
AckIsOk taken past none = Unit {0}
AckIsOk taken past (some a) =
    ((a ≡ length past % 4) × (taken ≡ true)) ⊎ ((a ≡ (length past + 3) % 4) × (0 < length past))

pub record Inv (taken : Bool) (l : Session) : Type 0 where
  pub tx : l.sender.vc.tx_ack_number ≡ length l.past % 4
  pub rmt : l.receiver.vc.rmt_tx_ack_number ≡ (length l.past + one_if taken) % 4
  pub rx :
      0 < length l.past + one_if taken
      → l.receiver.vc.rx_ack_number ≡ (length l.past + one_if taken + 3) % 4
  pub log : Picks l.delivered (taken_log taken l.past l.current)
  pub busy : taken ≡ true → l.waiting ≡ true
  pub numbered : (f : Frame) → Memᴰ f l.current → is_numbered f.type ≡ true
  pub air : AirIsOk l.past l.current l.waiting l.in_air
  pub ack : AckIsOk taken l.past l.ack_in_air

-- A numbered frame carries the number to be acknowledged next.
pub select-numbered :
    (r : Receiver) (type : PacketType)
    → is_numbered type ≡ true
    → select_ack_number r.vc type ≡ r.vc.tx_ack_number
unfolding select_ack_number
select-numbered r data_ack h = cc
select-numbered r _ h = refl

pub transmit-Inv :
    (taken : Bool) (f : Frame) (l : Session)
    → Inv taken l
    → is_numbered f.type ≡ true
    → l.waiting ≡ false
    → Inv taken (transmit f l)
unfolding transmit
transmit-Inv true f l v h w = cc (v.busy refl)
transmit-Inv false f l v h w = record {
  tx = v.tx;
  rmt = v.rmt;
  rx = v.rx;
  log = v.log;
  busy = λ _. refl;
  numbered = numbered_one;
  air = (h, inl (select-numbered l.sender f.type h ∙ v.tx, Memᴰ.head refl, refl));
  ack = v.ack;
}
  where
    numbered_one : (g : Frame) → Memᴰ g (f ∷ []) → is_numbered g.type ≡ true
    numbered_one g (Memᴰ.head e) = ap (λ (x : Frame). is_numbered x.type) e ∙ h
    numbered_one g (Memᴰ.tail m) = elim m [ ]

pub preempt-Inv :
    (taken : Bool) (f : Frame) (l : Session)
    → Inv taken l
    → f.type ≡ heartbeat
    → l.waiting ≡ true
    → Inv taken (preempt f l)
unfolding preempt
preempt-Inv taken f l v h w = record {
  tx = v.tx;
  rmt = v.rmt;
  rx = v.rx;
  log = more taken v.log;
  busy = v.busy;
  numbered = numbered_more;
  air = (
    ap is_numbered h,
    inl (select-numbered l.sender f.type (ap is_numbered h) ∙ v.tx, Memᴰ.head refl, w),
  );
  ack = v.ack;
}
  where
    numbered_more : (g : Frame) → Memᴰ g (f ∷ l.current) → is_numbered g.type ≡ true
    numbered_more g (Memᴰ.head e) = ap (λ (x : Frame). is_numbered x.type) e ∙ ap is_numbered h
    numbered_more g (Memᴰ.tail m) = v.numbered g m

    more :
        (t : Bool)
        → Picks l.delivered (taken_log t l.past l.current)
        → Picks l.delivered (taken_log t l.past (f ∷ l.current))
    more true p = Picks-more l.delivered l.past f l.current p
    more false p = p

pub retransmit-Inv :
    (taken : Bool) (f : Frame) (fs : List Frame) (l : Session)
    → Inv taken l
    → l.waiting ≡ true
    → l.current ≡ f ∷ fs
    → Inv taken (retransmit f l)
unfolding retransmit
retransmit-Inv taken f fs l v w e = record {
  tx = v.tx;
  rmt = v.rmt;
  rx = v.rx;
  log = v.log;
  busy = v.busy;
  numbered = v.numbered;
  air = (
    v.numbered f is_current,
    inl (select-numbered l.sender f.type (v.numbered f is_current) ∙ v.tx, is_current, w),
  );
  ack = v.ack;
}
  where
    is_current : Memᴰ f l.current
    is_current = subst (Memᴰ f) (sym e) (Memᴰ.head refl)

-- What is lost in the air leaves everything else in order.
pub loses_frame-Inv :
    (taken : Bool) (l : Session) → Inv taken l → Inv taken (record l { in_air = none })
loses_frame-Inv taken l v = record {
  tx = v.tx;
  rmt = v.rmt;
  rx = v.rx;
  log = v.log;
  busy = v.busy;
  numbered = v.numbered;
  air = tt;
  ack = v.ack;
}

pub loses_ack-Inv :
    (taken : Bool) (l : Session) → Inv taken l → Inv taken (record l { ack_in_air = none })
loses_ack-Inv taken l v = record {
  tx = v.tx;
  rmt = v.rmt;
  rx = v.rx;
  log = v.log;
  busy = v.busy;
  numbered = v.numbered;
  air = v.air;
  ack = tt;
}
