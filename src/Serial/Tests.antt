-- ===== src/Serial/Tests.antt =====
-- Serial states, and what the operations do to them.
use mathlib.Core.Bool.{xor}
use spark_fun_lo_ra_serial.Base.{◌≡◌, refl, ◌⊎◌, true, false, [], ◌∷◌, ◌++◌, arith, leb, ◌||◌}
use spark_fun_lo_ra_serial.Ring.{available, slice}
use spark_fun_lo_ra_serial.Ring.Inv.{IsValid}
use spark_fun_lo_ra_serial.Ring.Queue.{contents}
use spark_fun_lo_ra_serial.Serial.{is_cts, available_radio_tx_bytes}
use spark_fun_lo_ra_serial.Serial.Sample.{typed, idle, ready, port, blocked}
use spark_fun_lo_ra_serial.Serial.Output.{output_serial_data, serial_buffer_output}
use spark_fun_lo_ra_serial.Serial.Output.Fifo.{
  host_stream, Sent, output_serial_data-Sent, output_serial_data_drains, serial_buffer_output_fifo,
  serial_buffer_output_full,
}
use spark_fun_lo_ra_serial.Serial.Radio.{packet_bytes, frame_due, process_waiting_serial}
use spark_fun_lo_ra_serial.Serial.Radio.Packet.{process_waiting_serial_lem}
use spark_fun_lo_ra_serial.Serial.Input.{process_serial_input}
use spark_fun_lo_ra_serial.Serial.Input.Transparent.{Fits}
use spark_fun_lo_ra_serial.Serial.Input.Stream.{Transparent, process_serial_input-Transparent}

typed-IsValid : IsValid typed
typed-IsValid = omega arith

idle-Fits : Fits idle
unfolding available
idle-Fits = record {
  radio = omega arith;
  input = typed-IsValid;
  held = omega arith;
  room = omega arith;
  big = omega arith;
}

process_serial_input-Transparent_example :
    Transparent idle (process_serial_input (λ _ s. s) (λ _. port) port idle)
process_serial_input-Transparent_example =
    process_serial_input-Transparent (λ _ s. s) (λ _. port) port idle idle-Fits refl

output_serial_data-Sent_example : Sent ready (output_serial_data false port ready)
output_serial_data-Sent_example = output_serial_data-Sent false port ready typed-IsValid

output_serial_data_drains_example : available (output_serial_data true port ready).tx ≡ 0
unfolding is_cts xor
output_serial_data_drains_example = output_serial_data_drains port ready typed-IsValid (λ _. refl)

serial_buffer_output_fifo_example :
    (host_stream (serial_buffer_output port (1 ∷ 2 ∷ 3 ∷ 4 ∷ []) ready)
      ≡ host_stream ready ++ 1 ∷ 2 ∷ 3 ∷ 4 ∷ [])
    × IsValid (serial_buffer_output port (1 ∷ 2 ∷ 3 ∷ 4 ∷ []) ready).tx
unfolding available
serial_buffer_output_fifo_example =
    serial_buffer_output_fifo port (1 ∷ 2 ∷ 3 ∷ 4 ∷ []) ready typed-IsValid (omega arith)

serial_buffer_output_full_example :
    host_stream (serial_buffer_output blocked (1 ∷ 2 ∷ 3 ∷ 4 ∷ 5 ∷ []) ready) ≡ []
unfolding available is_cts xor
serial_buffer_output_full_example =
    serial_buffer_output_full blocked (1 ∷ 2 ∷ 3 ∷ 4 ∷ 5 ∷ []) ready typed-IsValid refl
      (omega arith) refl

process_waiting_serial_lem_example :
    let (due, t) = process_waiting_serial 9000 false ready in
    (due ≡ (leb 2 (available_radio_tx_bytes ready) || (false || frame_due 9000 ready)))
    × (((due ≡ false) × (t ≡ ready))
        ⊎ ((due ≡ true)
            × (contents typed
                ≡ slice t.outgoing_packet 2 (packet_bytes ready (available typed))
                  ++ contents t.radio_tx)))
process_waiting_serial_lem_example =
    process_waiting_serial_lem 9000 false ready typed-IsValid (omega arith)
