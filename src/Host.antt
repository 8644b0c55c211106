-- ===== src/Host.antt =====
-- The host's side of a virtual circuit: the sending half of Firmware/Tools/VcServerTest.c. The
-- operating system's `write` is a parameter: the result of the k-th call that is asked to write n
-- bytes, `none` for an error.
pub mod Chunks
pub mod Transfer
pub mod Console
mod Tests
use spark_fun_lo_ra_serial.Base.{
  ℕ, zero, suc, ◌+◌, ◌-◌, Bool, true, false, List, [], ◌∷◌, ◌++◌, Option, none, some, if◌then◌else◌,
  ltb, length, take, drop, u8,
}

abbrev pub max_message_size : ℕ
max_message_size = 32

-- The terminal of the radio: the bytes that it has taken, and the number of `write` calls so far.
pub record Terminal : Type 0 where
  pub out : List ℕ
  pub calls : ℕ

-- How sending ends: all is sent, an error is returned, or the loop still runs.
pub data Sending : Type 0 where
  sent failed running : Terminal → Sending

module _ (write : ℕ → ℕ → Option ℕ) where
  abbrev pub called : Terminal → Terminal
  called t = record t { calls = t.calls + 1 }

  abbrev pub wrote : ℕ → List ℕ → Terminal → Terminal
  wrote n bytes t = record t { out = t.out ++ take n bytes; calls = t.calls + 1 }

  -- `while (bytesSent < length)`: each round writes the buffer from its start.
  pub send_loop : ℕ → List ℕ → ℕ → Terminal → Sending
  send_loop zero buffer bytes_sent t = running t
  send_loop (suc rounds) buffer bytes_sent t = elim (ltb bytes_sent (length buffer)) [
    | false ↦ sent t
    | true ↦ elim (write t.calls (length buffer)) [
      | none ↦ failed (called t)
      | some n ↦ send_loop rounds buffer (bytes_sent + n) (wrote n buffer t)
    ]
  ]

  -- The header, then the message.
  pub send : ℕ → List ℕ → List ℕ → Terminal → Sending
  unfolding send_loop
  send rounds header buffer t = elim (write t.calls (length header)) [
    | none ↦ failed (called t)
    | some n ↦
        if ltb n (length header)
        then failed (wrote n header t)
        else send_loop rounds buffer 0 (wrote n header t)
  ]

  -- To the radio itself, from `PC_COMMAND` to `VC_COMMAND`.
  pub cmd_to_radio : ℕ → List ℕ → Terminal → Sending
  unfolding send
  cmd_to_radio rounds buffer t = send rounds (2 ∷ u8 (3 + length buffer) ∷ 254 ∷ 224 ∷ []) buffer t

  pub host_to_radio : ℕ → ℕ → ℕ → List ℕ → Terminal → Sending
  unfolding send
  host_to_radio rounds dest_vc my_vc buffer t =
      send rounds (2 ∷ u8 (3 + length buffer) ∷ dest_vc ∷ my_vc ∷ []) buffer t

  -- The loop of `stdinToRadio` over what it has read, in pieces; the pieces that may be left are at
  -- most the bytes that are left.
  pub send_chunks : ℕ → ℕ → ℕ → ℕ → List ℕ → Terminal → Sending
  unfolding host_to_radio
  send_chunks zero rounds dest_vc my_vc input t = sent t
  send_chunks (suc pieces) rounds dest_vc my_vc [] t = sent t
  send_chunks (suc pieces) rounds dest_vc my_vc (b ∷ input) t =
      elim (host_to_radio rounds dest_vc my_vc (take max_message_size (b ∷ input)) t) [
        | sent t' ↦ send_chunks pieces rounds dest_vc my_vc (drop max_message_size (b ∷ input)) t'
        | failed t' ↦ failed t'
        | running t' ↦ running t'
      ]

  pub stdin_to_radio : ℕ → ℕ → ℕ → List ℕ → Terminal → Sending
  unfolding send_chunks
  stdin_to_radio rounds dest_vc my_vc input t =
      send_chunks (length input) rounds dest_vc my_vc input t
