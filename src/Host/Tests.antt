-- ===== src/Host/Tests.antt =====
-- Text from a host to its radio.
use spark_fun_lo_ra_serial.Base.{
  ℕ, zero, suc, ◌+◌, ◌≡◌, refl, arith, inl, List, [], ◌∷◌, ◌++◌, Option, none, some, replicate,
  take,
}
use spark_fun_lo_ra_serial.Ring.{Ring, available}
use spark_fun_lo_ra_serial.Ring.Inv.{IsValid}
use spark_fun_lo_ra_serial.Ring.Queue.{contents}
use spark_fun_lo_ra_serial.Serial.{Serial}
use spark_fun_lo_ra_serial.Serial.Sample.{idle, port}
use spark_fun_lo_ra_serial.Serial.Vc.{vc_process_serial_input}
use spark_fun_lo_ra_serial.Serial.Vc.Message.{
  Message, bodies, vc_process_serial_input_delivers, vc_process_serial_input_stuck,
}
use spark_fun_lo_ra_serial.Host.{
  Terminal, sent, send_loop, send, host_to_radio, send_chunks, stdin_to_radio,
}
use spark_fun_lo_ra_serial.Host.Chunks.{payloads}
use spark_fun_lo_ra_serial.Host.Transfer.{stdin_to_radio_transfer, send_loop_repeats}

abbrev whole : ℕ → ℕ → Option ℕ
whole k n = some n

-- One byte less than asked for, at first.
abbrev short : ℕ → ℕ → Option ℕ
short zero n = some 2
short (suc k) n = some n

abbrev hi : List ℕ
hi = b'h' ∷ b'i' ∷ []

-- "hi" for circuit 1, from circuit 0
abbrev received : Ring
received = record { buf = 2 ∷ 5 ∷ 1 ∷ 0 ∷ b'h' ∷ b'i' ∷ 0 ∷ 0 ∷ []; size = 8; head = 6; tail = 0 }

abbrev broken : Ring
broken = record { buf = 2 ∷ 3 ∷ 1 ∷ 0 ∷ b'h' ∷ b'i' ∷ 0 ∷ 0 ∷ []; size = 8; head = 6; tail = 0 }

abbrev big_ring : Ring
big_ring = record { buf = replicate 300 0; size = 300; head = 0; tail = 0 }

abbrev radio : Serial
radio = record idle { rx = received; radio_tx = big_ring }

abbrev halted : Serial
halted = record idle { rx = broken; radio_tx = big_ring }

abbrev empty : Terminal
empty = record { out = []; calls = 0 }

received-IsValid : IsValid received
received-IsValid = omega arith

broken-IsValid : IsValid broken
broken-IsValid = omega arith

big_ring-IsValid : IsValid big_ring
big_ring-IsValid = omega arith

vc_process_serial_input_delivers_example :
    (t : Serial) × (vc_process_serial_input (λ _ s. s) (λ _. port) 0 2 radio ≡ some t)
    × (contents t.radio_tx ≡ contents big_ring ++ bodies 0 (record { dest = 1; payload = hi } ∷ []))
    × (contents t.rx ≡ [])
unfolding available
vc_process_serial_input_delivers_example =
    vc_process_serial_input_delivers (λ _ s. s) (λ _. port) 0
      (record { dest = 1; payload = hi } ∷ []) radio (λ _. refl) received-IsValid big_ring-IsValid
      (omega arith)
      (
        record { some_data = omega arith; short = omega arith; open_address = inl (omega arith) },
        tt,
      )
      refl (omega arith)

vc_process_serial_input_stuck_example :
    vc_process_serial_input (λ _ s. s) (λ _. port) 0 1000 halted ≡ none
unfolding available
vc_process_serial_input_stuck_example =
    vc_process_serial_input_stuck (λ _ s. s) (λ _. port) 0 3 1000 (1 ∷ 0 ∷ hi) halted (λ _. refl)
      broken-IsValid refl (omega arith) (omega arith)

stdin_to_radio_transfer_example :
    (k : ℕ) × (ms : List Message) × (t : Serial) × (vc_process_serial_input
        (λ _ s. s)
        (λ _. port)
        0
        k
        radio
      ≡ some t)
    × (contents t.radio_tx ≡ contents big_ring ++ bodies 0 ms)
    × (payloads ms ≡ hi)
unfolding available stdin_to_radio send_chunks host_to_radio send send_loop
stdin_to_radio_transfer_example =
    stdin_to_radio_transfer whole (λ _ s. s) (λ _. port) 0 1 0 hi radio (λ _ _. refl) (λ _. refl)
      received-IsValid big_ring-IsValid (omega arith) (inl (omega arith)) refl (omega arith)

send_loop_repeats_example :
    send_loop short 3 (b'a' ∷ hi) 0 empty
    ≡ sent (record { out = ([] ++ take 2 (b'a' ∷ hi)) ++ b'a' ∷ hi; calls = 0 + 1 + 1 })
send_loop_repeats_example = send_loop_repeats short 0 2 (b'a' ∷ hi) empty (omega arith) refl refl
