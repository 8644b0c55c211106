-- ===== src/Serial/Radio/Packet.antt =====
-- What a packet for the radio holds, and what stays in the buffer.
use spark_fun_lo_ra_serial.Base.{
  ℕ, ◌+◌, ◌≤◌, ◌≡◌, refl, sym, ap, ◌∙◌, ◌⊎◌, Bool, true, false, ◌++◌, arith, leb, ◌||◌, length,
  Bool-cases, inl, inr,
}
use spark_fun_lo_ra_serial.Ring.{available, blit, slice, read}
use spark_fun_lo_ra_serial.Ring.Inv.{IsValid}
use spark_fun_lo_ra_serial.Ring.Queue.{contents}
use spark_fun_lo_ra_serial.Ring.Copy.{contents-read, read-IsValid}
use spark_fun_lo_ra_serial.Ring.Blit.{blit-append, slice-blit}
use spark_fun_lo_ra_serial.Serial.{Serial, available_radio_tx_bytes}
use spark_fun_lo_ra_serial.Serial.Radio.{
  packet_bytes, ready_outgoing_packet, frame_due, process_waiting_serial,
}

-- From a well-formed buffer, for no more bytes than wait and with room for them in the packet,
-- readyOutgoingPacket moves the oldest bytes, as many as fit a datagram, behind the packet's
-- header, keeps the others waiting in order, moves the end of the packet by the bytes copied, and
-- keeps the buffer well formed.
pub ready_outgoing_packet_moves :
    (n : ℕ) (s : Serial)
    → IsValid s.radio_tx
    → n ≤ available s.radio_tx
    → s.header_bytes + packet_bytes s n ≤ length s.outgoing_packet
    → let t = ready_outgoing_packet n s in
      (contents s.radio_tx
        ≡ slice t.outgoing_packet s.header_bytes (packet_bytes s n) ++ contents t.radio_tx)
      × (t.end_of_tx_data ≡ s.end_of_tx_data + packet_bytes s n)
      × IsValid t.radio_tx
unfolding ready_outgoing_packet
ready_outgoing_packet_moves n s v h room = (
  moved.0 ∙ ap (λ q. q ++ contents (read s.radio_tx k).2) (sym copied),
  refl,
  read-IsValid k v most,
)
  where
    k : ℕ
    k = packet_bytes s n

    most : k ≤ available s.radio_tx
    most = ground arith

    moved :
        (contents s.radio_tx
          ≡ ((read s.radio_tx k).0 ++ (read s.radio_tx k).1) ++ contents (read s.radio_tx k).2)
        × (length ((read s.radio_tx k).0 ++ (read s.radio_tx k).1) ≡ k)
    moved = contents-read k v most

    copied :
        slice
          (blit
            (blit s.outgoing_packet s.header_bytes (read s.radio_tx k).0)
            (s.header_bytes + length (read s.radio_tx k).0)
            (read s.radio_tx k).1)
          s.header_bytes
          k
        ≡ (read s.radio_tx k).0 ++ (read s.radio_tx k).1
    copied =
        ap (λ b. slice b s.header_bytes k)
          (sym (
            blit-append (read s.radio_tx k).0 (read s.radio_tx k).1 s.outgoing_packet
              s.header_bytes))
        ∙ ap
            (slice
              (blit s.outgoing_packet s.header_bytes
                ((read s.radio_tx k).0 ++ (read s.radio_tx k).1))
              s.header_bytes)
            (sym moved.1)
        ∙ slice-blit ((read s.radio_tx k).0 ++ (read s.radio_tx k).1) s.outgoing_packet
            s.header_bytes (omega (arith, moved.1))

-- With a well-formed buffer and room for a datagram in the packet, processWaitingSerial readies a
-- packet exactly when the data fills one, the caller asks for it, or data has waited for the
-- timeout; the packet takes the oldest bytes, and otherwise nothing changes.
pub process_waiting_serial_lem :
    (now : ℕ) (send_now : Bool) (s : Serial)
    → IsValid s.radio_tx
    → s.header_bytes + s.max_datagram_size ≤ length s.outgoing_packet
    → let (ready, t) = process_waiting_serial now send_now s in
      (ready
        ≡ (leb s.max_datagram_size (available_radio_tx_bytes s) || (send_now || frame_due now s)))
      × (((ready ≡ false) × (t ≡ s))
          ⊎ ((ready ≡ true)
              × (contents s.radio_tx
                  ≡ slice t.outgoing_packet s.header_bytes (packet_bytes s (available s.radio_tx))
                    ++ contents t.radio_tx)))
unfolding process_waiting_serial available_radio_tx_bytes
process_waiting_serial_lem now send_now s v room =
    elim (Bool-cases (leb s.max_datagram_size (available s.radio_tx))) [
      | inl full ↦ rw full (refl, inr (refl, moved))
      | inr part ↦ elim (Bool-cases (send_now || frame_due now s)) [
        | inl due ↦ rw (part, due) (refl, inr (refl, moved))
        | inr early ↦ rw (part, early) (refl, inl (refl, refl))
      ]
    ]
  where
    moved :
        contents s.radio_tx
        ≡ slice
            (ready_outgoing_packet (available s.radio_tx) s).outgoing_packet
            s.header_bytes
            (packet_bytes s (available s.radio_tx))
          ++ contents (ready_outgoing_packet (available s.radio_tx) s).radio_tx
    moved = (ready_outgoing_packet_moves (available s.radio_tx) s v (omega arith) (ground arith)).0
