-- ===== src/Serial/Input/Stream.antt =====
-- The whole of `processSerialInput` outside command mode: no byte of the host is lost, doubled or
-- reordered on its way to the buffer for the radio.
use spark_fun_lo_ra_serial.Base.{
  ℕ, zero, suc, ◌+◌, ◌-◌, ◌<◌, ◌≡◌, refl, sym, ap, ap₂, ◌∙◌, Bool, true, false, List, [], ◌∷◌, ◌++◌,
  arith, append_assoc, append-nil, replicate, Bool-cases, inl, inr, subst, if◌then◌else◌, ◌||◌, ◌⊎◌,
}
use spark_fun_lo_ra_serial.Ring.{available, get}
use spark_fun_lo_ra_serial.Ring.Inv.{get-IsValid}
use spark_fun_lo_ra_serial.Ring.Queue.{contents, contents-get}
use spark_fun_lo_ra_serial.Serial.{Serial, Port, available_rx_bytes, available_radio_tx_bytes}
use spark_fun_lo_ra_serial.Serial.Output.{system_write}
use spark_fun_lo_ra_serial.Serial.Output.Frame.{
  Printed, Printed-refl, Printed-trans, if-Printed, system_write-Printed,
  output_serial_data-Printed,
}
use spark_fun_lo_ra_serial.Serial.Input.{
  escape_character, Flow, next, break, return, data_byte, echo_byte, input_byte, input_ready,
  input_loop, replay_escapes, flush_escapes, process_serial_input,
}
use spark_fun_lo_ra_serial.Serial.Input.Transparent.{
  radio_stream, Fits, Took, data_byte-Took, Replayed, replay_escapes-Replayed,
}

-- All that is still to be sent to the radio, the host's input included.
abbrev pub pending : Serial → List ℕ
pending s = radio_stream s ++ contents s.rx

-- What rounds of the loop make of the pending bytes: they stay, or three escape characters were
-- taken out and command mode entered.
abbrev pub Moved : Serial → Flow → Type 0
Moved s (next t) = (pending t ≡ pending s) × Fits t × (t.in_command_mode ≡ false)
Moved s (break t) = ⊥
Moved s (return t) =
    ((contents t.radio_tx ++ replicate 3 escape_character) ++ contents t.rx ≡ pending s)
    × Fits t
    × (t.in_command_mode ≡ true)

Moved-trans : (s t : Serial) (f : Flow) → Moved s (next t) → Moved t f → Moved s f
Moved-trans s t (next u) a b = (b.0 ∙ a.0, b.1, b.2)
Moved-trans s t (break u) a b = b
Moved-trans s t (return u) a b = (b.0 ∙ a.0, b.1, b.2)

Moved-if :
    (s : Serial) (c : Bool) (x y : Flow) → c ≡ false → Moved s y → Moved s (if c then x else y)
Moved-if s true x y e m = cc
Moved-if s false x y e m = m

-- What follows a round goes on from where it ended.
Moved-next :
    (s : Serial) (f : Flow) (rest : Serial → Flow)
    → Moved s f
    → ((t : Serial) → Fits t → t.in_command_mode ≡ false → Moved t (rest t))
    → Moved s (elim f [ next t ↦ rest t | break t ↦ break t | return t ↦ return t ])
Moved-next s (next t) rest m go = Moved-trans s t (rest t) m (go t m.1 m.2)
Moved-next s (break t) rest m go = m
Moved-next s (return t) rest m go = m

Took→Moved :
    (s e : Serial) (b : ℕ) (f : Flow)
    → radio_stream e ≡ radio_stream s
    → contents s.rx ≡ b ∷ contents e.rx
    → e.in_command_mode ≡ false
    → Took e b f
    → Moved s f
Took→Moved s e b (next t) same input mode (q, fits, m, rx) = (
  ap₂ ◌++◌ (q ∙ ap (λ w. w ++ b ∷ []) same) (ap contents rx)
      ∙ append_assoc (radio_stream s) (b ∷ []) (contents e.rx)
      ∙ ap (λ w. radio_stream s ++ w) (sym input),
  fits,
  m ∙ mode,
)
Took→Moved s e b (break t) same input mode h = h
Took→Moved s e b (return t) same input mode (q, fits, m, rx) = (
  ap₂ ◌++◌ (q ∙ ap (λ w. w ++ b ∷ []) same) (ap contents rx)
      ∙ append_assoc (radio_stream s) (b ∷ []) (contents e.rx)
      ∙ ap (λ w. radio_stream s ++ w) (sym input),
  fits,
  m,
)

echo_byte-Printed : (port : Port) (b : ℕ) (s : Serial) → Printed s (echo_byte port b s)
unfolding echo_byte
echo_byte-Printed port b s =
    if-Printed s (s.settings.echo || s.in_command_mode) _ _
      (Printed-trans s (system_write port (b ∷ []) s) _ (system_write-Printed port (b ∷ []) s)
        (output_serial_data-Printed true port (system_write port (b ∷ []) s)))
      (Printed-refl s)

Fits-Printed : (s t : Serial) → Printed s t → Fits s → Fits t
Fits-Printed s t p f =
    subst Fits (sym p.kept)
      (record { radio = f.radio; input = f.input; held = f.held; room = f.room; big = f.big })

-- Replayed escape characters leave the stream as it was.
abbrev Flushed : Serial → Serial → Type 0
Flushed s t =
    (radio_stream t ≡ radio_stream s)
    × (t.rx ≡ s.rx)
    × Fits t
    × (t.in_command_mode ≡ s.in_command_mode)

replayed-Flushed :
    (s : Serial)
    → Fits s
    → Flushed s (record s {
      escape_chars_received = 0;
      radio_tx = replay_escapes s.escape_chars_received s.radio_tx;
    })
replayed-Flushed s f = (
  append-nil _ ∙ p.queue,
  refl,
  (record {
    radio = p.valid;
    input = f.input;
    held = omega arith;
    room = omega (arith, p.count, p.size, f.room);
    big = omega (arith, p.size, f.big);
  }),
  refl,
)
  where
    p : Replayed s.escape_chars_received s.radio_tx
    p = replay_escapes-Replayed s.escape_chars_received s.radio_tx f.radio f.room

Flushed-if :
    (s : Serial) (c : Bool) (t : Serial) → Fits s → Flushed s t → Flushed s (if c then t else s)
Flushed-if s true t f p = p
Flushed-if s false t f p = (refl, refl, f, refl)

-- What `processSerialInput` promises of its result t, outside command mode.
abbrev pub Transparent : Serial → Serial → Type 0
Transparent s t =
    Fits t
    × (((t.in_command_mode ≡ false) × (pending t ≡ pending s))
        ⊎ ((t.in_command_mode ≡ true)
            × ((contents t.radio_tx ++ replicate 3 escape_character) ++ contents t.rx ≡ pending s)))

module _ (check_command : Port → Serial → Serial) where
  input_byte-Moved :
      (port : Port) (s : Serial)
      → Fits s
      → s.in_command_mode ≡ false
      → 0 < available s.rx
      → available s.radio_tx + 3 < s.radio_tx.size
      → Moved s (input_byte check_command port s)
  unfolding input_byte
  input_byte-Moved port s f mode some_input h = Moved-if s e.in_command_mode _ _ quiet (
      Took→Moved s e b (data_byte port b e) (ap radio_stream p.kept)
        (contents-get f.input some_input ∙ ap (λ (w : Serial). b ∷ contents w.rx) (sym p.kept))
        quiet
        (data_byte-Took port b e (Fits-Printed taken e p taken-Fits)
          (subst (λ (w : Serial). available w.radio_tx + 3 < w.radio_tx.size) (sym p.kept) h)))
    where
      b : ℕ
      b = (get s.rx).0

      taken : Serial
      taken = record s { rx = (get s.rx).1 }

      e : Serial
      e = echo_byte port b taken

      p : Printed taken e
      p = echo_byte-Printed port b taken

      quiet : e.in_command_mode ≡ false
      quiet = ap (λ (w : Serial). w.in_command_mode) p.kept ∙ mode

      taken-Fits : Fits taken
      taken-Fits = record {
        radio = f.radio;
        input = get-IsValid f.input;
        held = f.held;
        room = f.room;
        big = f.big;
      }

  input_ready→lt :
      (port : Port) (s : Serial)
      → input_ready check_command port s ≡ true
      → (0 < available s.rx) × (available s.radio_tx < s.radio_tx.size - 3)
  unfolding input_ready available_rx_bytes available_radio_tx_bytes
  input_ready→lt port s h = ground arith

  input_loop-Moved :
      (world : ℕ → Port) (fuel : ℕ) (s : Serial)
      → Fits s
      → s.in_command_mode ≡ false
      → Moved s (input_loop check_command world fuel s)
  unfolding input_loop
  input_loop-Moved world zero s f mode = (refl, f, mode)
  input_loop-Moved world (suc fuel) s f mode =
      elim (Bool-cases (input_ready check_command (world fuel) s)) [
        | inl go ↦
            rw (go, input_loop)
              (Moved-next s (input_byte check_command (world fuel) s)
                (input_loop check_command world fuel)
                (input_byte-Moved (world fuel) s f mode (input_ready→lt (world fuel) s go).0
                  (omega (arith, (input_ready→lt (world fuel) s go).1, f.big)))
                (input_loop-Moved world fuel))
        | inr stop ↦ rw (stop, input_loop) (refl, f, mode)
      ]

  flush_escapes-Flushed :
      (port : Port) (s : Serial) → Fits s → Flushed s (flush_escapes check_command port s)
  unfolding flush_escapes
  flush_escapes-Flushed port s f = Flushed-if s _ _ f (replayed-Flushed s f)

  after_loop :
      (last : Port) (s : Serial) (f : Flow)
      → Moved s f
      → Transparent s (elim f [
        | next t ↦ flush_escapes check_command last t
        | break t ↦ flush_escapes check_command last t
        | return t ↦ t
      ])
  after_loop last s (next t) (same, fits, mode) =
      let (stream, rx, fits', mode') = flush_escapes-Flushed last t fits in
      (fits', inl (mode' ∙ mode, ap₂ ◌++◌ stream (ap contents rx) ∙ same))
  after_loop last s (break t) m = absurd m
  after_loop last s (return t) (same, fits, mode) = (fits, inr (mode, same))

  -- Started outside command mode with well-formed buffers, at most two escape characters held back
  -- and room for them, processSerialInput moves bytes from the host's input to the stream for the
  -- radio without loss, repetition or reordering; if it enters command mode, the three escape
  -- characters that did so are taken out; and the buffer for the radio does not overflow.
  pub process_serial_input-Transparent :
      (world : ℕ → Port) (last : Port) (s : Serial)
      → Fits s
      → s.in_command_mode ≡ false
      → Transparent s (process_serial_input check_command world last s)
  unfolding process_serial_input
  process_serial_input-Transparent world last s f mode =
      after_loop last s _ (input_loop-Moved world (available_rx_bytes s) s f mode)
