-- ===== src/Host/Chunks.antt =====
-- What the host types reaches the radio link whole: the pieces of `stdinToRadio` through
-- `vcProcessSerialInput`.
use spark_fun_lo_ra_serial.Base.{
  length-append, ◌*◌, ℕ, zero, suc, ◌+◌, ◌≤◌, ◌<◌, ◌≡◌, ◌⊎◌, refl, sym, ap, ◌∙◌, true, false, List,
  [], ◌∷◌, ◌++◌, Option, some, ltb, length, take, drop, u8, arith, append_assoc, append-nil,
  length-take, length-drop, take-append-drop, take-length,
}
use native.Mathlib.Nat.{mod-eq_of_lt}
use spark_fun_lo_ra_serial.Serial.Vc.Message.{Message, AllSendable, frames, body, bodies}
use spark_fun_lo_ra_serial.Host.{
  max_message_size, Terminal, sent, send_loop, send, host_to_radio, send_chunks,
}

-- The pieces of a text, as messages.
pub pieces_of : ℕ → ℕ → List ℕ → List Message
pieces_of zero dest_vc input = []
pieces_of (suc n) dest_vc [] = []
pieces_of (suc n) dest_vc (b ∷ input) =
    record { dest = dest_vc; payload = take max_message_size (b ∷ input) }
    ∷ pieces_of n dest_vc (drop max_message_size (b ∷ input))

abbrev pub payloads : List Message → List ℕ
payloads [] = []
payloads (m ∷ ms) = m.payload ++ payloads ms

pub payloads-pieces_of :
    (n dest_vc : ℕ) (input : List ℕ)
    → length input ≤ n
    → payloads (pieces_of n dest_vc input) ≡ input
unfolding pieces_of
payloads-pieces_of zero dest_vc [] h = refl
payloads-pieces_of zero dest_vc (b ∷ input) h = absurd (omega arith)
payloads-pieces_of (suc n) dest_vc [] h = refl
payloads-pieces_of (suc n) dest_vc (b ∷ input) h =
    ap (λ q. take 32 (b ∷ input) ++ q)
      (payloads-pieces_of n dest_vc (drop 32 (b ∷ input))
        (omega (arith, length-drop 32 (b ∷ input))))
    ∙ take-append-drop 32 (b ∷ input)

pub pieces_of-AllSendable :
    (n dest_vc : ℕ) (input : List ℕ)
    → (dest_vc < 96) ⊎ (dest_vc ≡ 255)
    → AllSendable (pieces_of n dest_vc input)
unfolding pieces_of
pieces_of-AllSendable zero dest_vc input open_address = tt
pieces_of-AllSendable (suc n) dest_vc [] open_address = tt
pieces_of-AllSendable (suc n) dest_vc (b ∷ input) open_address = (
  record {
    some_data = ground (arith, length-take 32 (b ∷ input));
    short = ground (arith, length-take 32 (b ∷ input));
    open_address = open_address;
  },
  pieces_of-AllSendable n dest_vc (drop 32 (b ∷ input)) open_address,
)

-- A piece has at least a byte, and three more in front.
pub length-bodies :
    (n dest_vc my_vc : ℕ) (input : List ℕ)
    → length (bodies my_vc (pieces_of n dest_vc input)) ≤ 4 * length input
unfolding pieces_of
length-bodies zero dest_vc my_vc input = omega arith
length-bodies (suc n) dest_vc my_vc [] = omega arith
length-bodies (suc n) dest_vc my_vc (b ∷ input) = ground (
  arith,
  length-append (take 32 (b ∷ input)) (bodies my_vc (pieces_of n dest_vc (drop 32 (b ∷ input)))),
  length-bodies n dest_vc my_vc (drop 32 (b ∷ input)),
  length-take 32 (b ∷ input),
  length-drop 32 (b ∷ input),
)

module _ (write : ℕ → ℕ → Option ℕ) (whole : (k n : ℕ) → write k n ≡ some n) where
  send_loop_whole :
      (rounds : ℕ) (buffer : List ℕ) (t : Terminal)
      → 1 ≤ length buffer
      → send_loop write (suc (suc rounds)) buffer 0 t
        ≡ sent (record { out = t.out ++ buffer; calls = t.calls + 1 })
  unfolding send_loop
  send_loop_whole rounds buffer t h =
      rw (more, whole t.calls (length buffer), over, send_loop)
        (ap (λ b. sent (record { out = t.out ++ b; calls = t.calls + 1 })) (take-length buffer))
    where
      more : ltb 0 (length buffer) ≡ true
      more = ground arith

      over : ltb (0 + length buffer) (length buffer) ≡ false
      over = ground arith

  host_to_radio_whole :
      (rounds : ℕ) (m : Message) (my_vc : ℕ) (t : Terminal)
      → 1 ≤ length m.payload
      → length m.payload ≤ 252
      → host_to_radio write (suc (suc rounds)) m.dest my_vc m.payload t
        ≡ sent (record { out = t.out ++ 2 ∷ body my_vc m; calls = t.calls + 1 + 1 })
  unfolding host_to_radio send
  host_to_radio_whole rounds m my_vc t some_data short =
      rw (whole t.calls 4, send)
        (send_loop_whole rounds m.payload (record { out = t.out ++ header; calls = t.calls + 1 })
            some_data
          ∙ ap (λ o. sent (record { out = o; calls = t.calls + 1 + 1 }))
              (append_assoc t.out header m.payload
                ∙ ap (λ n. t.out ++ 2 ∷ n ∷ m.dest ∷ my_vc ∷ m.payload)
                    (mod-eq_of_lt {n = 3 + length m.payload} (omega arith))))
    where
      header : List ℕ
      header = 2 ∷ u8 (3 + length m.payload) ∷ m.dest ∷ my_vc ∷ []

  pub send_chunks_whole :
      (pieces rounds dest_vc my_vc : ℕ) (input : List ℕ) (t : Terminal)
      → (u : Terminal) × (send_chunks write pieces (suc (suc rounds)) dest_vc my_vc input t
          ≡ sent u)
        × (u.out ≡ t.out ++ frames my_vc (pieces_of pieces dest_vc input))
  unfolding send_chunks pieces_of
  send_chunks_whole zero rounds dest_vc my_vc input t = (t, refl, sym (append-nil t.out))
  send_chunks_whole (suc pieces) rounds dest_vc my_vc [] t = (t, refl, sym (append-nil t.out))
  send_chunks_whole (suc pieces) rounds dest_vc my_vc (b ∷ input) t =
      let (u, ran, out) =
        send_chunks_whole pieces rounds dest_vc my_vc (drop 32 (b ∷ input)) next in
      (
        u,
        rw (first, send_chunks) ran,
        out
            ∙ append_assoc t.out (2 ∷ body my_vc m)
                (frames my_vc (pieces_of pieces dest_vc (drop 32 (b ∷ input)))),
      )
    where
      m : Message
      m = record { dest = dest_vc; payload = take 32 (b ∷ input) }

      next : Terminal
      next = record { out = t.out ++ 2 ∷ body my_vc m; calls = t.calls + 1 + 1 }

      first :
          host_to_radio write (suc (suc rounds)) dest_vc my_vc (take 32 (b ∷ input)) t ≡ sent next
      first =
          host_to_radio_whole rounds m my_vc t (ground (arith, length-take 32 (b ∷ input)))
            (ground (arith, length-take 32 (b ∷ input)))
