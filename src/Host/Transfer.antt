-- ===== src/Host/Transfer.antt =====
-- From the keyboard of the host to the buffer for the radio: `stdinToRadio` of
-- Firmware/Tools/VcServerTest.c, then `vcProcessSerialInput` of Firmware/LoRaSerial/Serial.ino.
use spark_fun_lo_ra_serial.Base.{
  ℕ, suc, ◌+◌, ◌*◌, ◌<◌, ◌≡◌, ◌≢◌, ◌⊎◌, ap, ◌∙◌, true, false, List, [], ◌++◌, Option, some, ltb,
  length, take, arith, take-length,
}
use spark_fun_lo_ra_serial.Ring.{available}
use spark_fun_lo_ra_serial.Ring.Inv.{IsValid}
use spark_fun_lo_ra_serial.Ring.Queue.{contents}
use spark_fun_lo_ra_serial.Serial.{Serial, Port}
use spark_fun_lo_ra_serial.Serial.Vc.{vc_unassigned, vc_process_serial_input}
use spark_fun_lo_ra_serial.Serial.Vc.Message.{Message, bodies, vc_process_serial_input_delivers}
use spark_fun_lo_ra_serial.Host.{
  Terminal, Sending, sent, failed, running, send_loop, stdin_to_radio,
}
use spark_fun_lo_ra_serial.Host.Chunks.{
  pieces_of, payloads, payloads-pieces_of, pieces_of-AllSendable, send_chunks_whole, length-bodies,
}

-- The bytes that the terminal has taken.
abbrev pub out_of : Sending → List ℕ
out_of (sent t) = t.out
out_of (failed t) = t.out
out_of (running t) = t.out

-- If the operating system writes all it is asked to, what is typed for an address open to hosts is
-- sent by stdinToRadio from an assigned circuit; and if the radio has received just this, has room
-- for it and is not interrupted, vcProcessSerialInput ends with it in the buffer for the radio, as
-- messages from this circuit whose data is what was typed.
pub stdin_to_radio_transfer :
    (write : ℕ → ℕ → Option ℕ) (check_command : Port → Serial → Serial) (world : ℕ → Port)
    (rounds dest_vc my_vc : ℕ) (input : List ℕ) (s : Serial)
    → ((k n : ℕ) → write k n ≡ some n)
    → ((k : ℕ) → (world k).transaction_complete 0 ≡ false)
    → IsValid s.rx
    → IsValid s.radio_tx
    → my_vc ≢ vc_unassigned
    → (dest_vc < 96) ⊎ (dest_vc ≡ 255)
    → contents s.rx
      ≡ out_of (
          stdin_to_radio write
            (suc (suc rounds))
            dest_vc
            my_vc
            input
            (record { out = []; calls = 0 }))
    → available s.radio_tx + 4 * length input + 256 < s.radio_tx.size
    → (k : ℕ) × (ms : List Message) × (t : Serial) × (vc_process_serial_input check_command world
          my_vc k s
        ≡ some t)
      × (contents t.radio_tx ≡ contents s.radio_tx ++ bodies my_vc ms)
      × (payloads ms ≡ input)
unfolding stdin_to_radio
stdin_to_radio_transfer write check_command world rounds dest_vc my_vc input s whole calm v w mine
      ok e room =
    let (u, ran, out) =
      send_chunks_whole write whole (length input) rounds dest_vc my_vc input
        (record { out = []; calls = 0 }) in
    let (t, done, moved, empty) =
      vc_process_serial_input_delivers check_command world my_vc ms s calm v w mine
        (pieces_of-AllSendable (length input) dest_vc input ok) (e ∙ ap out_of ran ∙ out)
        (omega (arith, length-bodies (length input) dest_vc my_vc input)) in
    (
      suc (length ms),
      ms,
      t,
      done,
      moved,
      payloads-pieces_of (length input) dest_vc input (omega arith),
    )
  where
    ms : List Message
    ms = pieces_of (length input) dest_vc input

-- If write takes only a part of a message and then a whole one, the loop of hostToRadio sends that
-- part and then the message from its start, and returns success.
pub send_loop_repeats :
    (write : ℕ → ℕ → Option ℕ) (rounds n : ℕ) (buffer : List ℕ) (t : Terminal)
    → n < length buffer
    → write t.calls (length buffer) ≡ some n
    → write (t.calls + 1) (length buffer) ≡ some (length buffer)
    → send_loop write (suc (suc (suc rounds))) buffer 0 t
      ≡ sent (record { out = (t.out ++ take n buffer) ++ buffer; calls = t.calls + 1 + 1 })
unfolding send_loop
send_loop_repeats write rounds n buffer t h part rest =
    rw (more, part, again, rest, over, send_loop)
      (ap (λ b. sent (record { out = (t.out ++ take n buffer) ++ b; calls = t.calls + 1 + 1 }))
        (take-length buffer))
  where
    more : ltb 0 (length buffer) ≡ true
    more = ground arith

    again : ltb (0 + n) (length buffer) ≡ true
    again = ground arith

    over : ltb (0 + n + length buffer) (length buffer) ≡ false
    over = ground arith
