-- ===== src/P2p/Completes.antt =====
-- What becomes of two radios whose frames of a handshake all arrive.
use spark_fun_lo_ra_serial.Base.{
  ℕ, ◌≡◌, sym, ap, ap₂, ◌∙◌, true, false, List, ◌∷◌, [], Option, none, some, leb, elapsed,
}
use spark_fun_lo_ra_serial.Datagram.{PacketType, find_partner, sync_clocks, zero_acks}
use spark_fun_lo_ra_serial.Channel.{hop_channel}
use spark_fun_lo_ra_serial.P2p.{
  Partner, Moment, link_down, wait_sync_clocks, wait_tx_sync_clocks_done, update_radio_state,
}
use spark_fun_lo_ra_serial.P2p.Steps.{
  completed, Kept, IsFresh, asks, has_asked, answers, answers_waiting, has_answered, confirms,
  has_confirmed, is_confirmed,
}

-- The moment at which a frame that was sent is received
abbrev pub hears : Option PacketType → Moment → Moment
hears (some frame) m = record m { received = frame }
hears none m = m

pub record Handshake : Type 0 where
  pub frames : List (Option PacketType)
  pub asker : Partner
  pub answerer : Partner

-- The second half: the answerer has handed its answer to the radio.
abbrev pub second_half : (ℕ → Moment) → (ℕ → ℕ) → Partner → Partner × Option PacketType → Handshake
second_half at end a b =
    let b1 = (completed (end 3) (at 3) b.0).0 in
    let a1 = completed (end 4) (hears b.1 (at 4)) a in
    let a2 = (completed (end 5) (at 5) a1.0).0 in
    let b2 = (completed (end 6) (hears a1.1 (at 6)) b1).0 in
    record { frames = b.1 ∷ a1.1 ∷ []; asker = a2; answerer = b2 }

-- The first half: the asker sends FIND_PARTNER.
abbrev pub first_half : (ℕ → Moment) → (ℕ → ℕ) → Partner → Partner × Option PacketType
first_half at end a =
    let a1 = update_radio_state (at 0) a in ((completed (end 1) (at 1) a1.0).0, a1.1)

-- The answerer hears it; then the second half.
abbrev pub handshake : (ℕ → Moment) → (ℕ → ℕ) → Partner → Partner → Handshake
handshake at end a b =
    let a1 = first_half at end a in
    let rest = second_half at end a1.0 (completed (end 2) (hears a1.1 (at 2)) b) in
    record rest { frames = a1.1 ∷ rest.frames }

-- Both radios have a link, on the same channel and with running channel timers.
pub record IsLinked (a b asker answerer : Partner) : Type 0 where
  pub asker_fresh : IsFresh a asker
  pub answerer_fresh : IsFresh b answerer
  pub same_channel : asker.channel_number ≡ answerer.channel_number
  pub asker_timer : asker.channel_timer_msec ≡ a.serial.settings.max_dwell_time
  pub answerer_timer : answerer.channel_timer_msec ≡ b.serial.settings.max_dwell_time

IsFresh-since : {p q r : Partner} → Kept p q → IsFresh q r → IsFresh p r
IsFresh-since {p} {q} {r} kept fresh = record {
  up = fresh.up;
  numbers = rw (sym kept.vc) fresh.numbers;
  no_wait = fresh.no_wait;
  left_home = rw (sym kept.serial) fresh.left_home;
  nothing_to_radio = fresh.nothing_to_radio;
  nothing_to_host = fresh.nothing_to_host;
  no_command = fresh.no_command;
  no_response = fresh.no_response;
}

second_half-IsLinked :
    (at : ℕ → Moment) (end : ℕ → ℕ) (a : Partner) (b : Partner × Option PacketType)
    → ((n : ℕ) → (at n).sends ≡ true)
    → a.serial.settings.number_of_channels ≡ b.0.serial.settings.number_of_channels
    → a.state ≡ wait_sync_clocks
    → a.start_channel_timer_pending ≡ true
    → b.1 ≡ some sync_clocks
    → b.0.state ≡ wait_tx_sync_clocks_done
    → b.0.start_channel_timer_pending ≡ true
    → let h = second_half at end a b in
      IsLinked a b.0 h.asker h.answerer
      × (h.frames ≡ some sync_clocks ∷ some zero_acks ∷ [])
      × (h.asker.clock_sync_receiver ≡ a.clock_sync_receiver)
      × (h.answerer.clock_sync_receiver ≡ b.0.clock_sync_receiver)
second_half-IsLinked at end a b sends same a_state a_pending b_frame b_state b_pending =
    let (b_kept, b_waits, b_started, b_timer, b_clock) =
      has_answered (end 3) (at 3) b.0 b_state b_pending in
    let (a_kept, a_frame, a_done, a_started, a_timer, a_clock) =
      confirms (end 4) (hears b.1 (at 4)) a a_state a_pending
        (ap (λ f. (hears f (at 4)).received) b_frame)
        (ap (λ f. (hears f (at 4)).sends) b_frame ∙ sends 4) in
    let (a_up, a_same, a_source) = has_confirmed (end 5) (at 5) _ a_done a_started in
    let (b_up, b_same, b_source) =
      is_confirmed (end 6) (hears _ (at 6)) _ b_waits b_started
        (ap (λ f. (hears f (at 6)).received) a_frame) in
    (
      record {
        asker_fresh = IsFresh-since a_kept a_up;
        answerer_fresh = IsFresh-since b_kept b_up;
        same_channel =
            (IsFresh-since a_kept a_up).left_home
            ∙ ap (λ n. hop_channel true 1 n 0) same
            ∙ sym (IsFresh-since b_kept b_up).left_home;
        asker_timer = a_same ∙ a_timer;
        answerer_timer = b_same ∙ b_timer;
      },
      ap₂ (λ f g. f ∷ g ∷ []) b_frame a_frame,
      a_source ∙ a_clock,
      b_source ∙ b_clock,
    )

Kept-twice : {p q r : Partner} → Kept p q → Kept q r → Kept p r
Kept-twice first second = record {
  serial = second.serial ∙ first.serial;
  vc = second.vc ∙ first.vc;
  read = second.read;
}

IsLinked-since :
    {a a' b b' p q : Partner} → Kept a a' → Kept b b' → IsLinked a' b' p q → IsLinked a b p q
IsLinked-since a_kept b_kept up = record {
  asker_fresh = IsFresh-since a_kept up.asker_fresh;
  answerer_fresh = IsFresh-since b_kept up.answerer_fresh;
  same_channel = up.same_channel;
  asker_timer = up.asker_timer ∙ ap (λ s. s.settings.max_dwell_time) a_kept.serial;
  answerer_timer = up.answerer_timer ∙ ap (λ s. s.settings.max_dwell_time) b_kept.serial;
}

-- A radio that is about to send FIND_PARTNER
pub record IsDue (m : Moment) (p : Partner) : Type 0 where
  pub down : p.state ≡ link_down
  pub nothing_heard : p.transaction_complete ≡ false
  pub quiet : m.receiving ≡ false
  pub due : leb p.random_time (elapsed m.port.millis p.heartbeat_timer) ≡ true

first_half-asks :
    (at : ℕ → Moment) (end : ℕ → ℕ) (a : Partner)
    → (at 0).sends ≡ true
    → IsDue (at 0) a
    → let (q, f) = first_half at end a in
      Kept a q
      × (f ≡ some find_partner)
      × (q.state ≡ wait_sync_clocks)
      × (q.start_channel_timer_pending ≡ true)
      × (q.clock_sync_receiver ≡ a.clock_sync_receiver)
first_half-asks at end a sends ready =
    let a1 = (update_radio_state (at 0) a).0 in
    let (kept, frame, sent, clock) =
      asks (at 0) a ready.down ready.nothing_heard ready.quiet ready.due sends in
    let (kept', waits, pending, clock') = has_asked (end 1) (at 1) a1 sent in
    (Kept-twice kept kept', frame, waits, pending, clock' ∙ clock)

-- Whatever state the answerer is in, if it answers, the two get a link.
handshake-IsLinked :
    (at : ℕ → Moment) (end : ℕ → ℕ) (a b : Partner)
    → ((n : ℕ) → (at n).sends ≡ true)
    → a.serial.settings.number_of_channels ≡ b.serial.settings.number_of_channels
    → IsDue (at 0) a
    → let (b1, f) = completed (end 2) (hears (first_half at end a).1 (at 2)) b in
      Kept b b1
      → f ≡ some sync_clocks
      → b1.state ≡ wait_tx_sync_clocks_done
      → b1.start_channel_timer_pending ≡ true
      → let h = handshake at end a b in
        IsLinked a b h.asker h.answerer
        × (h.frames ≡ some find_partner ∷ some sync_clocks ∷ some zero_acks ∷ [])
        × (h.asker.clock_sync_receiver ≡ a.clock_sync_receiver)
        × (h.answerer.clock_sync_receiver ≡ b1.clock_sync_receiver)
handshake-IsLinked at end a b sends same ready b_kept b_frame b_sent b_pending =
    let (a_kept, a_frame, a_waits, a_pending, a_clock) = first_half-asks at end a (sends 0) ready in
    let (linked, frames, a_source, b_source) =
      second_half-IsLinked at end (first_half at end a).0
        (completed (end 2) (hears (first_half at end a).1 (at 2)) b) sends
        (ap (λ s. s.settings.number_of_channels) a_kept.serial
          ∙ same
          ∙ sym (ap (λ s. s.settings.number_of_channels) b_kept.serial))
        a_waits a_pending b_frame b_sent b_pending in
    (
      IsLinked-since a_kept b_kept linked,
      ap₂ (λ f g. f ∷ g) a_frame frames,
      a_source ∙ a_clock,
      b_source,
    )

-- If one radio is due to send FIND_PARTNER, the other is down too, both have the same number of
-- channels, and every frame of the handshake starts, ends and arrives before a timeout:
-- FIND_PARTNER, SYNC_CLOCKS and ZERO_ACKS are sent in this order, both radios have a link with all
-- packet numbers zero and empty buffers, on the same channel and with the channel timer started
-- for a dwell time, the radio that answered is the clock source, and the other keeps what it was.
pub handshake_completes :
    (at : ℕ → Moment) (end : ℕ → ℕ) (a b : Partner)
    → ((n : ℕ) → (at n).sends ≡ true)
    → a.serial.settings.number_of_channels ≡ b.serial.settings.number_of_channels
    → IsDue (at 0) a
    → b.state ≡ link_down
    → let h = handshake at end a b in
      IsLinked a b h.asker h.answerer
      × (h.frames ≡ some find_partner ∷ some sync_clocks ∷ some zero_acks ∷ [])
      × (h.asker.clock_sync_receiver ≡ a.clock_sync_receiver)
      × (h.answerer.clock_sync_receiver ≡ false)
handshake_completes at end a b sends same ready down =
    let heard = hears (first_half at end a).1 (at 2) in
    let asked = (first_half-asks at end a (sends 0) ready).1 in
    let (kept, frame, sent, pending, clock) =
      answers (end 2) heard b down (ap (λ f. (hears f (at 2)).received) asked)
        (ap (λ f. (hears f (at 2)).sends) asked ∙ sends 2) in
    let (linked, frames, source, other) =
      handshake-IsLinked at end a b sends same ready kept frame sent pending in
    (linked, frames, source, other ∙ clock)

-- If the answering radio is itself waiting for SYNC_CLOCKS, because its own FIND_PARTNER was lost,
-- the handshake in which all further frames arrive in time ends in a link at both radios, and
-- neither has changed whether it takes its clock from the other; two radios that both assume they
-- do have no source.
pub no_clock_source :
    (at : ℕ → Moment) (end : ℕ → ℕ) (a b : Partner)
    → ((n : ℕ) → (at n).sends ≡ true)
    → a.serial.settings.number_of_channels ≡ b.serial.settings.number_of_channels
    → IsDue (at 0) a
    → b.state ≡ wait_sync_clocks
    → let h = handshake at end a b in
      IsLinked a b h.asker h.answerer
      × (h.asker.clock_sync_receiver ≡ a.clock_sync_receiver)
      × (h.answerer.clock_sync_receiver ≡ b.clock_sync_receiver)
no_clock_source at end a b sends same ready waits =
    let heard = hears (first_half at end a).1 (at 2) in
    let asked = (first_half-asks at end a (sends 0) ready).1 in
    let (kept, frame, sent, pending, clock) =
      answers_waiting (end 2) heard b waits (ap (λ f. (hears f (at 2)).received) asked)
        (ap (λ f. (hears f (at 2)).sends) asked ∙ sends 2) in
    let (linked, frames, source, other) =
      handshake-IsLinked at end a b sends same ready kept frame sent pending in
    (linked, source, other ∙ clock)
