-- ===== src/Serial/Input/Transparent.antt =====
-- Outside command mode `processSerialInput` of Firmware/LoRaSerial/Serial.ino is transparent: each
-- byte of the host reaches the buffer for the radio, escape characters that come to nothing too,
-- and that buffer never overflows.
use Prim.Native.Nat.{zero-le}
use spark_fun_lo_ra_serial.Base.{
  ℕ, zero, suc, ◌+◌, ◌≤◌, ◌<◌, ◌≡◌, refl, sym, ap, ◌∙◌, Bool, true, false, List, [], ◌∷◌, ◌++◌,
  arith, append_assoc, append-nil, replicate, length, length-replicate, ◌==◌, subst, u8,
  if◌then◌else◌,
}
use spark_fun_lo_ra_serial.Ring.{Ring, available, put}
use spark_fun_lo_ra_serial.Ring.Inv.{IsValid, put-IsValid, available-put}
use spark_fun_lo_ra_serial.Ring.Queue.{
  contents, contents-put, put_all, put_all-IsValid, available-put_all, contents-put_all, size-put,
}
use spark_fun_lo_ra_serial.Serial.{Serial, Port}
use spark_fun_lo_ra_serial.Serial.Output.{output_serial_data, system_write}
use spark_fun_lo_ra_serial.Serial.Output.Frame.{
  Printed, Printed-trans, system_write-Printed, output_serial_data-Printed,
}
use spark_fun_lo_ra_serial.Serial.Input.{
  escape_character, crlf, Flow, next, break, return, replay_escapes, is_escape, data_byte,
  enter_command_mode,
}

-- The stream for the radio: what waits in its buffer, then the escape characters held back.
abbrev pub radio_stream : Serial → List ℕ
radio_stream s = contents s.radio_tx ++ replicate s.escape_chars_received escape_character

-- What holds between two rounds: the escape characters held back have room in the buffer.
pub record Fits (s : Serial) : Type 0 where
  pub radio : IsValid s.radio_tx
  pub input : IsValid s.rx
  pub held : s.escape_chars_received ≤ 2
  pub room : available s.radio_tx + s.escape_chars_received < s.radio_tx.size
  pub big : 6 ≤ s.radio_tx.size

replay_escapes-eq-put_all :
    (n : ℕ) (r : Ring) → replay_escapes n r ≡ put_all r (replicate n escape_character)
unfolding replay_escapes put_all
replay_escapes-eq-put_all zero r = refl
replay_escapes-eq-put_all (suc n) r = replay_escapes-eq-put_all n (put r escape_character)

size-put_all : (xs : List ℕ) (r : Ring) → (put_all r xs).size ≡ r.size
unfolding put_all
size-put_all [] r = refl
size-put_all (x ∷ xs) r = size-put_all xs (put r x) ∙ size-put r x

-- Held characters that have room are appended when they are replayed.
pub record Replayed (n : ℕ) (r : Ring) : Type 0 where
  pub valid : IsValid (replay_escapes n r)
  pub queue : contents (replay_escapes n r) ≡ contents r ++ replicate n escape_character
  pub count : available (replay_escapes n r) ≡ available r + n
  pub size : (replay_escapes n r).size ≡ r.size

pub replay_escapes-Replayed :
    (n : ℕ) (r : Ring) → IsValid r → available r + n < r.size → Replayed n r
replay_escapes-Replayed n r v h = record {
  valid = subst IsValid same (put_all-IsValid (replicate n escape_character) v);
  queue = ap contents (sym same) ∙ contents-put_all (replicate n escape_character) v less;
  count =
      ap available (sym same)
      ∙ available-put_all (replicate n escape_character) v less
      ∙ ap (λ k. available r + k) (length-replicate n escape_character);
  size = ap (λ (q : Ring). q.size) (sym same) ∙ size-put_all (replicate n escape_character) r;
}
  where
    same : put_all r (replicate n escape_character) ≡ replay_escapes n r
    same = sym (replay_escapes-eq-put_all n r)

    less : available r + length (replicate n escape_character) < r.size
    less = omega (arith, length-replicate n escape_character)

replicate-snoc {ℓ} : {A : Type ℓ} (n : ℕ) (a : A) → replicate n a ++ a ∷ [] ≡ replicate (suc n) a
replicate-snoc zero a = refl
replicate-snoc (suc n) a = ap (λ r. a ∷ r) (replicate-snoc n a)

-- A byte forwarded behind the held escape characters.
forward_queue :
    (n b : ℕ) (r : Ring)
    → IsValid r
    → available r + n + 1 < r.size
    → contents (put (replay_escapes n r) b) ≡ (contents r ++ replicate n escape_character) ++ b ∷ []
forward_queue n b r v h =
    contents-put b p.valid (omega (arith, p.count, p.size)) ∙ ap (λ q. q ++ b ∷ []) p.queue
  where
    p : Replayed n r
    p = replay_escapes-Replayed n r v (omega arith)

-- What a round makes of byte b, outside command mode: it is appended to the stream, or it is the
-- third escape character, and the three of them are dropped.
abbrev pub Took : Serial → ℕ → Flow → Type 0
Took s b (next t) =
    (radio_stream t ≡ radio_stream s ++ b ∷ [])
    × Fits t
    × (t.in_command_mode ≡ s.in_command_mode)
    × (t.rx ≡ s.rx)
Took s b (break t) = ⊥
Took s b (return t) =
    (contents t.radio_tx ++ replicate 3 escape_character ≡ radio_stream s ++ b ∷ [])
    × Fits t
    × (t.in_command_mode ≡ true)
    × (t.rx ≡ s.rx)

Took-if :
    (s : Serial) (b : ℕ) (c : Bool) (x y : Flow)
    → (c ≡ true → Took s b x)
    → (c ≡ false → Took s b y)
    → Took s b (if c then x else y)
Took-if s b true x y p q = p refl
Took-if s b false x y p q = q refl

is_escape→eq : (port : Port) (b : ℕ) (s : Serial) → is_escape port b s ≡ true → b ≡ escape_character
is_escape→eq port b s h = ground arith

-- One more escape character held back is one more at the end of the stream.
escape_held :
    (q : List ℕ) (n b : ℕ)
    → b ≡ escape_character
    → q ++ replicate (suc n) escape_character ≡ (q ++ replicate n escape_character) ++ b ∷ []
escape_held q n b e =
    ap (λ w. q ++ w) (sym (replicate-snoc n escape_character))
    ∙ ap (λ c. q ++ (replicate n escape_character ++ c ∷ [])) (sym e)
    ∙ sym (append_assoc q (replicate n escape_character) (b ∷ []))

-- A state with the same buffers, and few enough characters held back.
Fits-same :
    (s t : Serial)
    → Fits s
    → t.radio_tx ≡ s.radio_tx
    → t.rx ≡ s.rx
    → t.escape_chars_received ≤ 2
    → available s.radio_tx + 3 < s.radio_tx.size
    → Fits t
Fits-same s t f radio rx held h = record {
  radio = subst IsValid (sym radio) f.radio;
  input = subst IsValid (sym rx) f.input;
  held = held;
  room = omega (arith, ap available radio, ap (λ (q : Ring). q.size) radio);
  big = omega (arith, f.big, ap (λ (q : Ring). q.size) radio);
}

Fits-forward :
    (s t : Serial) (b : ℕ)
    → Fits s
    → t.radio_tx ≡ put (replay_escapes s.escape_chars_received s.radio_tx) b
    → t.rx ≡ s.rx
    → t.escape_chars_received ≡ 0
    → available s.radio_tx + 3 < s.radio_tx.size
    → Fits t
Fits-forward s t b f radio rx none_held h = record {
  radio = subst IsValid (sym radio) (put-IsValid b p.valid);
  input = subst IsValid (sym rx) f.input;
  held = omega arith;
  room = omega (
    arith,
    ap available radio,
    ap (λ (q : Ring). q.size) radio,
    size-put (replay_escapes n s.radio_tx) b,
    available-put b p.valid (omega (arith, p.count, p.size, f.held)),
    p.count,
    p.size,
    f.held,
  );
  big = omega (
    arith,
    f.big,
    ap (λ (q : Ring). q.size) radio,
    size-put (replay_escapes n s.radio_tx) b,
    p.size,
  );
}
  where
    n : ℕ
    n = s.escape_chars_received

    p : Replayed n s.radio_tx
    p = replay_escapes-Replayed n s.radio_tx f.radio f.room

-- Entering command mode leaves the buffers of the radio and of the host's input alone.
enter_command_mode_buffers :
    (port : Port) (s : Serial)
    → let t = enter_command_mode port s in (t.radio_tx ≡ s.radio_tx) × (t.rx ≡ s.rx)
unfolding enter_command_mode
enter_command_mode_buffers port s =
    (ap (λ (w : Serial). w.radio_tx) p.kept, ap (λ (w : Serial). w.rx) p.kept)
  where
    text : List ℕ
    text = 13 ∷ 10 ∷ b'O' ∷ b'K' ∷ crlf

    p : Printed s (output_serial_data true port (system_write port text s))
    p =
        Printed-trans s (system_write port text s) _ (system_write-Printed port text s)
          (output_serial_data-Printed true port (system_write port text s))

enter_command_mode-Took :
    (port : Port) (b : ℕ) (s t : Serial)
    → Fits s
    → available s.radio_tx + 3 < s.radio_tx.size
    → b ≡ escape_character
    → s.escape_chars_received ≡ 2
    → t.radio_tx ≡ s.radio_tx
    → t.rx ≡ s.rx
    → Took s b (return (enter_command_mode port t))
enter_command_mode-Took port b s t f h e two radio rx = (
  ap (λ q. contents q ++ replicate 3 escape_character) radio'
      ∙ ap (λ n. contents s.radio_tx ++ replicate (suc n) escape_character) (sym two)
      ∙ escape_held (contents s.radio_tx) s.escape_chars_received b e,
  Fits-same s u f radio' rx' (unfold enter_command_mode in zero-le) h,
  (unfold enter_command_mode in refl),
  rx',
)
  where
    u : Serial
    u = enter_command_mode port t

    radio' : u.radio_tx ≡ s.radio_tx
    radio' = (enter_command_mode_buffers port t).0 ∙ radio

    rx' : u.rx ≡ s.rx
    rx' = (enter_command_mode_buffers port t).1 ∙ rx

pub data_byte-Took :
    (port : Port) (b : ℕ) (s : Serial)
    → Fits s
    → available s.radio_tx + 3 < s.radio_tx.size
    → Took s b (data_byte port b s)
unfolding data_byte
data_byte-Took port b s f h =
    Took-if s b (is_escape port b s) _ _
      (λ e.
        Took-if s b (u8 (n + 1) == 3) _ _
          (λ k.
            enter_command_mode-Took port b s _ f h (is_escape→eq port b s e)
              (ground (arith, f.held)) refl refl)
          (λ k. (
            ap (λ m. contents r ++ replicate m escape_character) one_more
                ∙ escape_held (contents r) n b (is_escape→eq port b s e),
            Fits-same s _ f refl refl (ground (arith, f.held)) h,
            refl,
            refl,
          )))
      (λ e. (
        append-nil _ ∙ forward_queue n b r f.radio (omega (arith, f.held)),
        Fits-forward s _ b f refl refl refl h,
        refl,
        refl,
      ))
  where
    n : ℕ
    n = s.escape_chars_received

    r : Ring
    r = s.radio_tx

    one_more : u8 (n + 1) ≡ suc n
    one_more = omega (arith, f.held)
