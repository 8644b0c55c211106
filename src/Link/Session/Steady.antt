-- ===== src/Link/Session/Steady.antt =====
-- Sessions in which no heartbeat takes the place of a frame that waits for its acknowledgement.
use mathlib.Core.List.{Memᴰ}
use mathlib.Core.Logic.{ite}
use spark_fun_lo_ra_serial.Base.{
  ℕ, ◌≡◌, refl, sym, ap, ap₂, ◌∙◌, Bool, true, false, List, [], ◌∷◌, ◌++◌, map, none, some, ◌⊎◌,
  inl, inr, subst, if◌then◌else◌,
}
use spark_fun_lo_ra_serial.Datagram.{PacketType-discrete, data_ack}
use spark_fun_lo_ra_serial.Link.{Arrival, verify_packet_number}
use spark_fun_lo_ra_serial.Link.Numbers.{verify_data_ack}
use spark_fun_lo_ra_serial.Link.Session.{
  Frame, Session, transmit, retransmit, send_ack, arrive, acknowledge, is_duplicate, is_data_ack,
  transmits, preempts, retransmits, loses_frame, loses_ack, arrives, acknowledges, Run, start, step,
  IsStart,
}
use spark_fun_lo_ra_serial.Link.Session.Picks.{Picks}
use spark_fun_lo_ra_serial.Link.Session.Invariant.{Inv, AckIsOk}
use spark_fun_lo_ra_serial.Link.Session.Receive.{awaited}
use spark_fun_lo_ra_serial.Link.Session.Delivery.{Run-Inv}

-- A run in which no heartbeat overtakes the wait for an acknowledgement.
abbrev pub IsSteady : (l k : Session) → Run l k → Type 0
IsSteady l k start = Unit {0}
IsSteady l k (step {m} r (preempts f h w)) = ⊥
IsSteady l k (step {m} r _) = IsSteady l m r

-- The log of frames that were each the only one of their number.
abbrev pub singly : List Frame → List (List Frame)
singly = map (λ f. f ∷ [])

singly-append : (xs : List Frame) (f : Frame) → singly xs ++ (f ∷ []) ∷ [] ≡ singly (xs ++ f ∷ [])
singly-append [] f = refl
singly-append (x ∷ xs) f = ap (λ r. (x ∷ []) ∷ r) (singly-append xs f)

Picks-singly : (ds xs : List Frame) → Picks ds (singly xs) → ds ≡ xs
Picks-singly [] [] p = refl
Picks-singly [] (x ∷ xs) p = absurd p
Picks-singly (d ∷ ds) [] p = absurd p
Picks-singly (d ∷ ds) (x ∷ xs) (Memᴰ.head e, p) = ap₂ ◌∷◌ e (Picks-singly ds xs p)
Picks-singly (d ∷ ds) (x ∷ xs) (Memᴰ.tail m, p) = elim m [ ]

-- One frame for each number.
record Single (l : Session) : Type 0 where
  acked : List Frame
  past : l.past ≡ singly acked
  current : l.waiting ≡ true → (f : Frame) × (l.current ≡ f ∷ [])

-- What an arrival leaves alone.
abbrev pub SameLog : Session → Session → Type 0
SameLog l k =
    (k.past ≡ l.past) × (k.current ≡ l.current) × (k.waiting ≡ l.waiting) × (k.sender ≡ l.sender)

SameLog-if :
    (l : Session) (c : Bool) (x y : Session)
    → SameLog l x
    → SameLog l y
    → SameLog l (if c then x else y)
SameLog-if l true x y p q = p
SameLog-if l false x y p q = q

SameLog-ite :
    {P : Type 0} (l : Session) (d : Dec P) (x y : Session)
    → SameLog l x
    → SameLog l y
    → SameLog l (ite d x y)
SameLog-ite l (yes e) x y p q = p
SameLog-ite l (no e) x y p q = q

pub arrive-SameLog : (at : Arrival) (f : Frame) (n : ℕ) (l : Session) → SameLog l (arrive at f n l)
unfolding arrive
arrive-SameLog at f n l =
    SameLog-ite l (PacketType-discrete (verify_packet_number at l.receiver f.type n).0 f.type) _ _
      (unfold send_ack in (refl, refl, refl, refl))
      (SameLog-if l (is_duplicate (verify_packet_number at l.receiver f.type n).0) _ _
        (unfold send_ack in (refl, refl, refl, refl)) (refl, refl, refl, refl))

Single-SameLog : (l k : Session) → SameLog l k → Single l → Single k
Single-SameLog l k (past, current, waiting, sender) s = record {
  acked = s.acked;
  past = past ∙ s.past;
  current = λ w. let (f, e) = s.current (sym waiting ∙ w) in (f, current ∙ e);
}

-- `acknowledge` closes the current number, or leaves the log alone.
acknowledge-Single :
    (taken : Bool) (at : Arrival) (n : ℕ) (l : Session)
    → Inv taken l
    → l.ack_in_air ≡ some n
    → Single l
    → Single (acknowledge at n l)
unfolding acknowledge
acknowledge-Single taken at n l v e s = elim (verify_data_ack at l.sender n) [
  | inl (same, type, tx) ↦
      rw (acknowledge, ap is_data_ack type)
        (closed
          (s.current (v.busy (awaited taken n l v (subst (AckIsOk taken l.past) e v.ack) same))))
  | inr (other, type, tx) ↦
      rw (acknowledge, ap is_data_ack type)
        (record { acked = s.acked; past = s.past; current = s.current })
]
  where
    closed :
        (f : Frame) × (l.current ≡ f ∷ [])
        → Single (record l {
          ack_in_air = none;
          sender = (verify_packet_number at l.sender data_ack n).1;
          waiting = false;
          past = l.past ++ l.current ∷ [];
          current = [];
        })
    closed (f, c) = record {
      acked = s.acked ++ f ∷ [];
      past = ap₂ (λ p q. p ++ q ∷ []) s.past c ∙ singly-append s.acked f;
      current = λ w. cc;
    }

Run-Single : (l k : Session) → IsStart l → (r : Run l k) → IsSteady l k r → Single k
unfolding transmit retransmit
Run-Single l _ s start h = record { acked = []; past = s.nothing_past; current = λ w. cc (s.idle) }
Run-Single l _ s (step {m} r (transmits f p w)) h = record {
  acked = (Run-Single l m s r h).acked;
  past = (Run-Single l m s r h).past;
  current = λ _. (f, refl);
}
Run-Single l _ s (step {m} r (preempts f p w)) h = absurd h
Run-Single l _ s (step {m} r (retransmits f fs w e)) h =
    Single-SameLog m _ (refl, refl, refl, refl) (Run-Single l m s r h)
Run-Single l _ s (step {m} r loses_frame) h =
    Single-SameLog m _ (refl, refl, refl, refl) (Run-Single l m s r h)
Run-Single l _ s (step {m} r loses_ack) h =
    Single-SameLog m _ (refl, refl, refl, refl) (Run-Single l m s r h)
Run-Single l _ s (step {m} r (arrives at f n mode e)) h =
    Single-SameLog m _ (arrive-SameLog at f n m) (Run-Single l m s r h)
Run-Single l _ s (step {m} r (acknowledges at n mode e)) h =
    let (t, v) = Run-Inv l m s r in acknowledge-Single t at n m v e (Run-Single l m s r h)

-- In every run of a point-to-point session from its start in which no heartbeat takes the place of
-- a frame that waits for its acknowledgement, the receiver has delivered exactly the acknowledged
-- frames, each once and in order, and at most the frame that still waits besides, whatever is
-- lost, repeated or delayed.
pub delivers_exactly_once :
    (l k : Session)
    → IsStart l
    → (r : Run l k) → IsSteady l k r
    → (xs : List Frame) × (k.past ≡ singly xs)
      × ((k.delivered ≡ xs) ⊎ ((f : Frame) × (k.current ≡ f ∷ []) × (k.delivered ≡ xs ++ f ∷ [])))
delivers_exactly_once l k s r h =
    let single = Run-Single l k s r h in
    let (t, v) = Run-Inv l k s r in (single.acked, single.past, cases t v single)
  where
    cases :
        (t : Bool)
        → Inv t k
        → (o : Single k)
        → (k.delivered ≡ o.acked)
          ⊎ ((f : Frame) × (k.current ≡ f ∷ []) × (k.delivered ≡ o.acked ++ f ∷ []))
    cases false v o =
        inl (Picks-singly k.delivered o.acked (subst (Picks k.delivered) o.past v.log))
    cases true v o =
        let (f, e) = o.current (v.busy refl) in
        inr (
          f,
          e,
          Picks-singly k.delivered (o.acked ++ f ∷ []) (
              subst (Picks k.delivered)
                (ap₂ (λ p q. p ++ q ∷ []) o.past e ∙ singly-append o.acked f) v.log),
        )
