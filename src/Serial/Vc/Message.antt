-- ===== src/Serial/Vc/Message.antt =====
-- Whole messages of the host on their way through `vcProcessSerialInput`.
use spark_fun_lo_ra_serial.Base.{
  ℕ, zero, suc, ◌+◌, ◌≤◌, ◌<◌, ◌≡◌, ◌≢◌, refl, sym, ap, ◌∙◌, ◌⊎◌, true, false, not, List, [], ◌∷◌,
  ◌++◌, none, some, if-true, if-false, ltb, leb, ◌==◌, ◌&&◌, ◌||◌, ==_iff, arith, length,
  length-append, append_assoc, append-nil,
}
use spark_fun_lo_ra_serial.Ring.{Ring, available}
use spark_fun_lo_ra_serial.Ring.Inv.{IsValid}
use spark_fun_lo_ra_serial.Ring.Queue.{contents, length-contents}
use spark_fun_lo_ra_serial.Serial.{Serial, Port, available_rx_bytes, available_radio_tx_bytes}
use spark_fun_lo_ra_serial.Serial.Vc.{
  start_of_vc_serial, vc_unassigned, vc_command, min_tx_not_allowed, below_broadcast, peek, skip,
  move_bytes, again, message, data_message, vc_round, vc_ready, vc_process_serial_input,
}
use spark_fun_lo_ra_serial.Serial.Vc.Peek.{
  skip-IsValid, contents-skip, peek-contents, move_bytes_lem, enough,
}

pub record Message : Type 0 where
  pub dest : ℕ
  pub payload : List ℕ

-- A message as it goes over the radio link, from circuit my_vc.
abbrev pub body : ℕ → Message → List ℕ
body my_vc m = (3 + length m.payload) ∷ m.dest ∷ my_vc ∷ m.payload

abbrev pub bodies : ℕ → List Message → List ℕ
bodies my_vc [] = []
bodies my_vc (m ∷ ms) = body my_vc m ++ bodies my_vc ms

-- Messages as the host writes them to the serial port.
abbrev pub frames : ℕ → List Message → List ℕ
frames my_vc [] = []
frames my_vc (m ∷ ms) = start_of_vc_serial ∷ body my_vc m ++ frames my_vc ms

-- A message with data that fits a length byte, to an address that is open to hosts.
pub record IsSendable (m : Message) : Type 0 where
  pub some_data : 1 ≤ length m.payload
  pub short : length m.payload ≤ 252
  pub open_address : (m.dest < 96) ⊎ (m.dest ≡ 255)

abbrev pub AllSendable : List Message → Type 0
AllSendable [] = Unit {0}
AllSendable (m ∷ ms) = IsSendable m × AllSendable ms

module _ (check_command : Port → Serial → Serial) where
  round-message :
      (port : Port) (my_vc : ℕ) (m : Message) (rest : List ℕ) (s : Serial)
      → IsValid s.rx
      → IsSendable m
      → my_vc ≢ vc_unassigned
      → contents s.rx ≡ start_of_vc_serial ∷ body my_vc m ++ rest
      → let (rx, radio_tx) = move_bytes (length (body my_vc m)) (skip 1 s.rx) s.radio_tx in
        vc_round check_command port my_vc s ≡ again (record s { rx = rx; radio_tx = radio_tx })
  unfolding vc_round message data_message available_rx_bytes
  round-message port my_vc m rest s v ok mine e =
      if-false _ _ b0
      ∙ if-false _ _ b1
      ∙ if-false _ _ b2
      ∙ ap again (if-false _ _ b3 ∙ if-false _ _ b4 ∙ if-false _ _ b5 ∙ moved)
    where
      size : peek s.rx 1 ≡ 3 + length m.payload
      size =
          peek-contents (start_of_vc_serial ∷ []) (m.dest ∷ my_vc ∷ m.payload ++ rest)
            (3 + length m.payload) v e

      started : contents (skip 1 s.rx) ≡ body my_vc m ++ rest
      started = contents-skip (start_of_vc_serial ∷ []) (body my_vc m ++ rest) v e

      v' : IsValid (skip 1 s.rx)
      v' =
          skip-IsValid 1 v
            (omega (arith, enough s.rx (start_of_vc_serial ∷ []) (body my_vc m ++ rest) e))

      dest : peek (skip 1 s.rx) 1 ≡ m.dest
      dest =
          peek-contents ((3 + length m.payload) ∷ []) (my_vc ∷ m.payload ++ rest) m.dest v' started

      src : peek (skip 1 s.rx) 2 ≡ my_vc
      src =
          peek-contents ((3 + length m.payload) ∷ m.dest ∷ []) (m.payload ++ rest) my_vc v' started

      b0 : not (peek s.rx 0 == start_of_vc_serial) ≡ false
      b0 = ap not (
          (==_iff (peek s.rx 0) start_of_vc_serial).1
            (peek-contents [] (body my_vc m ++ rest) start_of_vc_serial v e))

      b1 : ltb (peek s.rx 1) 4 ≡ false
      b1 = ground (arith, size, ok.some_data)

      b2 : ltb (available s.rx) (peek s.rx 1 + 1) ≡ false
      b2 = ground (arith, size, enough s.rx (start_of_vc_serial ∷ body my_vc m) rest e)

      b3 : (peek (skip 1 s.rx) 1 == vc_command) ≡ false
      b3 = ground (arith, dest, ok.open_address)

      b4 : (not (peek (skip 1 s.rx) 2 == my_vc) || my_vc == vc_unassigned) ≡ false
      b4 = ground (arith, src, mine)

      b5 :
          (leb min_tx_not_allowed (peek (skip 1 s.rx) 1) && below_broadcast (peek (skip 1 s.rx) 1))
          ≡ false
      b5 = ground (arith, dest, ok.open_address)

      all : peek s.rx 1 ≡ length (body my_vc m)
      all = omega (arith, size)

      moved :
          (let (rx, radio_tx) = move_bytes (peek s.rx 1) (skip 1 s.rx) s.radio_tx in
            record s { rx = rx; radio_tx = radio_tx })
          ≡ (let (rx, radio_tx) = move_bytes (length (body my_vc m)) (skip 1 s.rx) s.radio_tx in
              record s { rx = rx; radio_tx = radio_tx })
      moved =
          ap {B = Serial}
            (λ n.
              let (rx, radio_tx) = move_bytes n (skip 1 s.rx) s.radio_tx in
              record s { rx = rx; radio_tx = radio_tx })
            all

  -- With well-formed buffers, room for all messages in the buffer for the radio and no interrupt
  -- of the radio, vcProcessSerialInput moves messages with data, from an assigned circuit to
  -- addresses open to hosts, into that buffer, in order and without their start bytes, and ends
  -- with the receive buffer empty, after one round for each message and one more.
  pub vc_process_serial_input_delivers :
      (world : ℕ → Port) (my_vc : ℕ) (ms : List Message) (s : Serial)
      → ((k : ℕ) → (world k).transaction_complete 0 ≡ false)
      → IsValid s.rx
      → IsValid s.radio_tx
      → my_vc ≢ vc_unassigned
      → AllSendable ms
      → contents s.rx ≡ frames my_vc ms
      → available s.radio_tx + length (bodies my_vc ms) + 256 < s.radio_tx.size
      → (t : Serial) × (vc_process_serial_input check_command world my_vc (suc (length ms)) s
          ≡ some t)
        × (contents t.radio_tx ≡ contents s.radio_tx ++ bodies my_vc ms)
        × (contents t.rx ≡ [])
  unfolding vc_process_serial_input vc_ready available_rx_bytes available_radio_tx_bytes
  vc_process_serial_input_delivers world my_vc [] s calm v w mine ok e room =
      (s, rw (idle, vc_process_serial_input), sym (append-nil (contents s.radio_tx)), e)
    where
      idle : vc_ready check_command (world 0) s ≡ false
      idle = ground (arith, length-contents s.rx, ap length e)
  vc_process_serial_input_delivers world my_vc (m ∷ ms) s calm v w mine ok e room =
      let (t, ran, sent, done) =
        vc_process_serial_input_delivers world my_vc ms next calm moved.2 moved.3 mine ok.1 moved.0
          left in
      (
        t,
        rw (ready, round, vc_process_serial_input) ran,
        sent
            ∙ ap (λ q. q ++ bodies my_vc ms) moved.1
            ∙ append_assoc (contents s.radio_tx) (body my_vc m) (bodies my_vc ms),
        done,
      )
    where
      pair : Ring × Ring
      pair = move_bytes (length (body my_vc m)) (skip 1 s.rx) s.radio_tx

      next : Serial
      next = record s { rx = pair.0; radio_tx = pair.1 }

      waiting : available s.rx ≡ 1 + length (body my_vc m ++ frames my_vc ms)
      waiting =
          omega (arith, enough s.rx (start_of_vc_serial ∷ []) (body my_vc m ++ frames my_vc ms) e)

      total : length (bodies my_vc (m ∷ ms)) ≡ length (body my_vc m) + length (bodies my_vc ms)
      total = length-append (body my_vc m) (bodies my_vc ms)

      moved :
          (contents next.rx ≡ frames my_vc ms)
          × (contents next.radio_tx ≡ contents s.radio_tx ++ body my_vc m)
          × IsValid next.rx
          × IsValid next.radio_tx
          × (next.radio_tx.size ≡ s.radio_tx.size)
      moved =
          move_bytes_lem (body my_vc m) (frames my_vc ms)
            (skip-IsValid 1 v (omega (arith, waiting))) w
            (contents-skip (start_of_vc_serial ∷ []) (body my_vc m ++ frames my_vc ms) v e)
            (omega (arith, total))

      left : available next.radio_tx + length (bodies my_vc ms) + 256 < next.radio_tx.size
      left = omega (
        arith,
        moved.4,
        total,
        enough next.radio_tx (contents s.radio_tx) (body my_vc m) moved.1,
        length-contents s.radio_tx,
      )

      ready : vc_ready check_command (world (suc (length ms))) s ≡ true
      ready = ground (arith, waiting, calm (suc (length ms)))

      round : vc_round check_command (world (suc (length ms))) my_vc s ≡ again next
      round = round-message (world (suc (length ms))) my_vc m (frames my_vc ms) s v ok.0 mine e

  -- With a well-formed receive buffer and room in the buffer for the radio, a start byte that is
  -- followed by a length below four is never passed by vcProcessSerialInput: however long the loop
  -- runs, it does not end, as long as no interrupt of the radio ends it.
  pub vc_process_serial_input_stuck :
      (world : ℕ → Port) (my_vc n rounds : ℕ) (rest : List ℕ) (s : Serial)
      → ((k : ℕ) → (world k).transaction_complete 0 ≡ false)
      → IsValid s.rx
      → contents s.rx ≡ start_of_vc_serial ∷ n ∷ rest
      → n < 4
      → available s.radio_tx + 256 < s.radio_tx.size
      → vc_process_serial_input check_command world my_vc rounds s ≡ none
  unfolding vc_process_serial_input vc_ready vc_round available_rx_bytes available_radio_tx_bytes
  vc_process_serial_input_stuck world my_vc n zero rest s calm v e short room = refl
  vc_process_serial_input_stuck world my_vc n (suc rounds) rest s calm v e short room =
      rw (ready, same, vc_process_serial_input)
        (vc_process_serial_input_stuck world my_vc n rounds rest s calm v e short room)
    where
      ready : vc_ready check_command (world rounds) s ≡ true
      ready = ground (arith, calm rounds, enough s.rx (start_of_vc_serial ∷ n ∷ []) rest e)

      b0 : not (peek s.rx 0 == start_of_vc_serial) ≡ false
      b0 = ap not (
          (==_iff (peek s.rx 0) start_of_vc_serial).1
            (peek-contents [] (n ∷ rest) start_of_vc_serial v e))

      b1 : ltb (peek s.rx 1) 4 ≡ true
      b1 = ground (arith, peek-contents (start_of_vc_serial ∷ []) rest n v e)

      same : vc_round check_command (world rounds) my_vc s ≡ again s
      same = if-false _ _ b0 ∙ if-true _ _ b1
