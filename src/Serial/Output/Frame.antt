-- ===== src/Serial/Output/Frame.antt =====
-- Printing changes the buffers on the way to the printer, and what the host has received; all else
-- of the serial state stays as it is.
use spark_fun_lo_ra_serial.Base.{
  ℕ, zero, suc, ◌+◌, ◌≡◌, refl, ap, ◌∙◌, Bool, true, false, not, List, [], ◌∷◌, ltb, ◌&&◌, ◌||◌,
  Bool-cases, inl, inr, ◌-◌, if◌then◌else◌,
}
use spark_fun_lo_ra_serial.Serial.{Serial, Port, available_tx_bytes, is_cts}
use spark_fun_lo_ra_serial.Serial.Output.{
  send_byte, output_loop, output_serial_data, make_room, serial_output_byte, system_write,
}

pub record Printed (s t : Serial) : Type 0 where
  pub kept : t ≡ record s { tx = t.tx; host = t.host; command_tx = t.command_tx }

pub Printed-refl : (s : Serial) → Printed s s
Printed-refl s = record { kept = refl }

pub Printed-trans : (s t u : Serial) → Printed s t → Printed t u → Printed s u
Printed-trans s t u a b = record {
  kept =
      b.kept
      ∙ ap {B = Serial} (λ w. record w { tx = u.tx; host = u.host; command_tx = u.command_tx })
          a.kept;
}

pub if-Printed :
    (s : Serial) (b : Bool) (t u : Serial)
    → Printed s t
    → Printed s u
    → Printed s (if b then t else u)
if-Printed s true t u p q = p
if-Printed s false t u p q = q

output_loop-Printed :
    (ignore_isr : Bool) (port : Port) (n k : ℕ) (s : Serial)
    → Printed s (output_loop ignore_isr port n k s)
unfolding output_loop
output_loop-Printed ignore_isr port zero k s = Printed-refl s
output_loop-Printed ignore_isr port (suc n) k s =
    elim (Bool-cases
      (is_cts s (port.cts_low k) && (ignore_isr || not (port.transaction_complete k)))) [
        | inl go ↦
            rw (go, output_loop)
              (Printed-trans s (send_byte s) _ (unfold send_byte in record { kept = refl })
                (output_loop-Printed ignore_isr port n (k + 1) (send_byte s)))
        | inr stop ↦ rw (stop, output_loop) (Printed-refl s)
      ]

pub output_serial_data-Printed :
    (ignore_isr : Bool) (port : Port) (s : Serial)
    → Printed s (output_serial_data ignore_isr port s)
unfolding output_serial_data
output_serial_data-Printed ignore_isr port s =
    output_loop-Printed ignore_isr port (available_tx_bytes s) 0 s

make_room-Printed : (port : Port) (n : ℕ) (s : Serial) → Printed s (make_room port n s)
unfolding make_room
make_room-Printed port n s =
    if-Printed s (ltb (s.tx.size - available_tx_bytes s) n) _ _
      (output_serial_data-Printed true port s) (Printed-refl s)

serial_output_byte-Printed :
    (port : Port) (b : ℕ) (s : Serial) → Printed s (serial_output_byte port b s)
unfolding serial_output_byte
serial_output_byte-Printed port b s =
    if-Printed s s.printer_to_serial _ _
      (Printed-trans s (make_room port 32 s) _ (make_room-Printed port 32 s)
        (record { kept = refl }))
      (record { kept = refl })

pub system_write-Printed :
    (port : Port) (bytes : List ℕ) (s : Serial) → Printed s (system_write port bytes s)
unfolding system_write
system_write-Printed port [] s = Printed-refl s
system_write-Printed port (b ∷ bytes) s =
    Printed-trans s (serial_output_byte port b s) _ (serial_output_byte-Printed port b s)
      (system_write-Printed port bytes (serial_output_byte port b s))
