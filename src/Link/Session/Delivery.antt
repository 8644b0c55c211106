-- ===== src/Link/Session/Delivery.antt =====
-- What a session delivers: every run of it, with any losses, repetitions and overtaking of the ACK
-- timer, hands on one frame for each number, in order.
use mathlib.Core.List.{Memᴰ}
use spark_fun_lo_ra_serial.Base.{
  ◌+◌, ◌%◌, sym, ap, ◌∙◌, Bool, true, false, arith, [], ◌∷◌, ◌++◌, length, ◌⊎◌, inl, inr, subst,
}
use spark_fun_lo_ra_serial.Link.Session.{
  Session, Step, transmits, preempts, retransmits, loses_frame, loses_ack, arrives, acknowledges,
  Run, start, step, IsStart,
}
use spark_fun_lo_ra_serial.Link.Session.Picks.{Picks}
use spark_fun_lo_ra_serial.Link.Session.Invariant.{
  Inv, AirIsOk, AckIsOk, transmit-Inv, preempt-Inv, retransmit-Inv, loses_frame-Inv, loses_ack-Inv,
}
use spark_fun_lo_ra_serial.Link.Session.Receive.{arrive-Inv, acknowledge-Inv}

start-Inv : (l : Session) → IsStart l → Inv false l
start-Inv l s = record {
  tx = s.sender_zero ∙ ap (λ p. length p % 4) (sym s.nothing_past);
  rmt = s.receiver_zero ∙ ap (λ p. (length p + 0) % 4) (sym s.nothing_past);
  rx = λ h. absurd (omega (arith, ap length s.nothing_past));
  log =
      subst (λ p. Picks l.delivered p) (sym s.nothing_past)
        (subst (λ d. Picks d []) (sym s.nothing_delivered) tt);
  busy = λ e. cc;
  numbered = λ f m. elim (subst (Memᴰ f) s.nothing_sent m) [ ];
  air = subst (AirIsOk l.past l.current l.waiting) (sym s.quiet) tt;
  ack = subst (AckIsOk false l.past) (sym s.no_ack) tt;
}

Step-Inv : (taken : Bool) (l k : Session) → Step l k → Inv taken l → (t : Bool) × Inv t k
Step-Inv taken l _ (transmits f h w) v = (taken, transmit-Inv taken f l v h w)
Step-Inv taken l _ (preempts f h w) v = (taken, preempt-Inv taken f l v h w)
Step-Inv taken l _ (retransmits f fs w e) v = (taken, retransmit-Inv taken f fs l v w e)
Step-Inv taken l _ loses_frame v = (taken, loses_frame-Inv taken l v)
Step-Inv taken l _ loses_ack v = (taken, loses_ack-Inv taken l v)
Step-Inv taken l _ (arrives at f n mode e) v = arrive-Inv taken at f n l v mode e
Step-Inv taken l _ (acknowledges at n mode e) v = acknowledge-Inv taken at n l v e

pub Run-Inv : (l k : Session) → IsStart l → Run l k → (t : Bool) × Inv t k
Run-Inv l k s start = (false, start-Inv l s)
Run-Inv l k s (step {m} r st) = let (t, v) = Run-Inv l m s r in Step-Inv t m k st v

-- In every run of a point-to-point session from its start, with any losses, repetitions and
-- delays, the receiver delivers, in the order of the numbers, exactly one of the frames that were
-- sent under each acknowledged number, and at most one more, sent under the number that is still
-- to be acknowledged.
pub delivers_in_order :
    (l k : Session)
    → IsStart l
    → Run l k
    → Picks k.delivered k.past ⊎ Picks k.delivered (k.past ++ k.current ∷ [])
delivers_in_order l k s r = let (t, v) = Run-Inv l k s r in log t v
  where
    log :
        (t : Bool)
        → Inv t k
        → Picks k.delivered k.past ⊎ Picks k.delivered (k.past ++ k.current ∷ [])
    log true v = inr v.log
    log false v = inl v.log
