-- ===== src/Serial/Output/Fifo.antt =====
-- Output to the host is a queue: `outputSerialData` and `serialBufferOutput` of
-- Firmware/LoRaSerial/Serial.ino neither lose nor reorder bytes.
use spark_fun_lo_ra_serial.Base.{
  ℕ, zero, suc, ◌+◌, ◌-◌, ◌≤◌, ◌<◌, ◌≡◌, refl, sym, ap, ◌∙◌, Bool, true, false, not, List, [], ◌∷◌,
  ◌++◌, append_assoc, append-nil, arith, ltb, ◌&&◌, ◌||◌, length, Bool-cases, inl, inr,
}
use spark_fun_lo_ra_serial.Ring.{available, get, write}
use spark_fun_lo_ra_serial.Ring.Inv.{IsValid, available-get, get-IsValid, size-get}
use spark_fun_lo_ra_serial.Ring.Queue.{contents, contents-get, contents-eq-nil}
use spark_fun_lo_ra_serial.Ring.Copy.{contents-write, write-IsValid, available-write_full}
use spark_fun_lo_ra_serial.Serial.{Serial, Port, available_tx_bytes, is_cts}
use spark_fun_lo_ra_serial.Serial.Output.{
  send_byte, output_loop, output_serial_data, make_room, serial_buffer_output,
}

-- The bytes on their way to the host, those that have left the port first.
abbrev pub host_stream : Serial → List ℕ
host_stream s = s.host ++ contents s.tx

-- What sending does: bytes move from the buffer to the port, and nothing else changes.
pub record Sent (s t : Serial) : Type 0 where
  pub kept : t ≡ record s { tx = t.tx; host = t.host }
  pub stream : host_stream t ≡ host_stream s
  pub valid : IsValid t.tx
  pub same_size : t.tx.size ≡ s.tx.size
  pub fewer : available t.tx ≤ available s.tx

send_byte-Sent : (s : Serial) → IsValid s.tx → 0 < available s.tx → Sent s (send_byte s)
unfolding send_byte
send_byte-Sent s v h = record {
  kept = refl;
  stream =
      append_assoc s.host ((get s.tx).0 ∷ []) (contents (get s.tx).1)
      ∙ ap (λ q. s.host ++ q) (sym (contents-get v h));
  valid = get-IsValid v;
  same_size = size-get s.tx;
  fewer = omega (arith, available-get v h);
}

available-send_byte :
    (s : Serial)
    → IsValid s.tx
    → 0 < available s.tx
    → available (send_byte s).tx + 1 ≡ available s.tx
unfolding send_byte
available-send_byte s v h = available-get v h

Sent-refl : (s : Serial) → IsValid s.tx → Sent s s
Sent-refl s v = record {
  kept = refl;
  stream = refl;
  valid = v;
  same_size = refl;
  fewer = omega arith;
}

Sent-trans : (s t u : Serial) → Sent s t → Sent t u → Sent s u
Sent-trans s t u a b = record {
  kept = b.kept ∙ ap {B = Serial} (λ w. record w { tx = u.tx; host = u.host }) a.kept;
  stream = b.stream ∙ a.stream;
  valid = b.valid;
  same_size = b.same_size ∙ a.same_size;
  fewer = omega (arith, a.fewer, b.fewer);
}

output_loop-Sent :
    (ignore_isr : Bool) (port : Port) (n k : ℕ) (s : Serial)
    → IsValid s.tx
    → n ≤ available s.tx
    → Sent s (output_loop ignore_isr port n k s)
unfolding output_loop
output_loop-Sent ignore_isr port zero k s v h = Sent-refl s v
output_loop-Sent ignore_isr port (suc n) k s v h =
    elim (Bool-cases
      (is_cts s (port.cts_low k) && (ignore_isr || not (port.transaction_complete k)))) [
        | inl go ↦
            rw (go, output_loop)
              (Sent-trans s (send_byte s) _ first (
                output_loop-Sent ignore_isr port n (k + 1) (send_byte s) first.valid
                  (omega (arith, available-send_byte s v (omega arith)))))
        | inr stop ↦ rw (stop, output_loop) (Sent-refl s v)
      ]
  where
    first : Sent s (send_byte s)
    first = send_byte-Sent s v (omega arith)

-- From a well-formed buffer, outputSerialData only moves bytes from the buffer to the port, in
-- order, whatever CTS and the radio's interrupt do, and changes nothing else.
pub output_serial_data-Sent :
    (ignore_isr : Bool) (port : Port) (s : Serial)
    → IsValid s.tx
    → Sent s (output_serial_data ignore_isr port s)
unfolding output_serial_data available_tx_bytes
output_serial_data-Sent ignore_isr port s v =
    output_loop-Sent ignore_isr port (available s.tx) 0 s v (omega arith)

is_cts-send_byte : (s : Serial) (low : Bool) → is_cts (send_byte s) low ≡ is_cts s low
unfolding is_cts send_byte
is_cts-send_byte s low = refl

-- While the host lets data flow, nothing is left in the buffer.
output_loop_drains :
    (port : Port) (n k : ℕ) (s : Serial)
    → IsValid s.tx
    → ((i : ℕ) → is_cts s (port.cts_low i) ≡ true)
    → n ≡ available s.tx
    → available (output_loop true port n k s).tx ≡ 0
unfolding output_loop
output_loop_drains port zero k s v flow e = sym e
output_loop_drains port (suc n) k s v flow e =
    rw (flow k, output_loop)
      (output_loop_drains port n (k + 1) (send_byte s) (send_byte-Sent s v (omega arith)).valid
        (λ i. is_cts-send_byte s (port.cts_low i) ∙ flow i) less)
  where
    less : n ≡ available (send_byte s).tx
    less = omega (arith, available-send_byte s v (omega arith))

-- While the host lets data flow, outputSerialData, told to ignore the radio's interrupt, leaves
-- nothing in a well-formed buffer.
pub output_serial_data_drains :
    (port : Port) (s : Serial)
    → IsValid s.tx
    → ((i : ℕ) → is_cts s (port.cts_low i) ≡ true)
    → available (output_serial_data true port s).tx ≡ 0
unfolding output_serial_data available_tx_bytes
output_serial_data_drains port s v flow = output_loop_drains port (available s.tx) 0 s v flow refl

pub make_room-Sent : (port : Port) (n : ℕ) (s : Serial) → IsValid s.tx → Sent s (make_room port n s)
unfolding make_room available_tx_bytes
make_room-Sent port n s v = elim (Bool-cases (ltb (s.tx.size - available s.tx) n)) [
  | inl short ↦ rw (short, make_room) (output_serial_data-Sent true port s v)
  | inr enough ↦ rw (enough, make_room) (Sent-refl s v)
]

-- From a well-formed buffer, serialBufferOutput appends its data to the stream for the host and
-- keeps the buffer well formed, if the data leaves at least a byte of the buffer free.
pub serial_buffer_output_fifo :
    (port : Port) (bytes : List ℕ) (s : Serial)
    → IsValid s.tx
    → available s.tx + length bytes < s.tx.size
    → (host_stream (serial_buffer_output port bytes s) ≡ host_stream s ++ bytes)
      × IsValid (serial_buffer_output port bytes s).tx
unfolding serial_buffer_output
serial_buffer_output_fifo port bytes s v h = (
  ap (λ q. room.host ++ q) (contents-write bytes sent.valid fits)
      ∙ sym (append_assoc room.host (contents room.tx) bytes)
      ∙ ap (λ q. q ++ bytes) sent.stream,
  write-IsValid bytes sent.valid (omega (arith, sent.same_size)),
)
  where
    room : Serial
    room = make_room port (length bytes + 32) s

    sent : Sent s room
    sent = make_room-Sent port (length bytes + 32) s v

    fits : available room.tx + length bytes < room.tx.size
    fits = omega (arith, sent.same_size, sent.fewer)

output_loop_blocked :
    (ignore_isr : Bool) (port : Port) (n k : ℕ) (s : Serial)
    → is_cts s (port.cts_low k) ≡ false
    → output_loop ignore_isr port n k s ≡ s
unfolding output_loop
output_loop_blocked ignore_isr port zero k s stop = refl
output_loop_blocked ignore_isr port (suc n) k s stop = rw (stop, output_loop)

-- While the host holds CTS off, data that takes exactly the free bytes of a well-formed transmit
-- buffer leaves it looking empty: what waited, and the data, is lost.
pub serial_buffer_output_full :
    (port : Port) (bytes : List ℕ) (s : Serial)
    → IsValid s.tx
    → is_cts s (port.cts_low 0) ≡ false
    → 0 < length bytes
    → available s.tx + length bytes ≡ s.tx.size
    → host_stream (serial_buffer_output port bytes s) ≡ s.host
unfolding serial_buffer_output
serial_buffer_output_full port bytes s v stop k h = rw stays (
    ap (λ q. s.host ++ q) (contents-eq-nil (write s.tx bytes) (available-write_full bytes v k h))
    ∙ append-nil s.host)
  where
    stays : make_room port (length bytes + 32) s ≡ s
    stays =
        unfold make_room output_serial_data in
        ground (arith, output_loop_blocked true port (available_tx_bytes s) 0 s)
