-- ===== src/Host/Console.antt =====
-- The receiving half of Firmware/Tools/VcServerTest.c: `radioToHost` parts the stream from the radio
-- into text and messages, and acts on the messages. `findMyVc` is off: the program knows its number. The lines
-- of `printf` are left out.
pub mod Split
pub mod Status
mod Tests
use Prim.Native.Nat.{bit_or}
use spark_fun_lo_ra_serial.Base.{
  ℕ, zero, suc, ◌+◌, ◌-◌, Bool, true, false, not, List, [], ◌∷◌, ◌++◌, Option, none, some,
  if◌then◌else◌, ltb, leb, ◌==◌, ◌&&◌, ◌||◌, length, get_or, set, take, drop, u8,
}
use spark_fun_lo_ra_serial.Circuits.{unique_id_bytes, erased_id, pc_link_status}
use spark_fun_lo_ra_serial.Circuits.Search.{bytes_eq}
use spark_fun_lo_ra_serial.Circuits.Address.{text, decimal}
use spark_fun_lo_ra_serial.Serial.Vc.{start_of_vc_serial, vc_serial_header_bytes, vc_broadcast}
use spark_fun_lo_ra_serial.Host.{Terminal, Sending, sent, failed, running, cmd_to_radio}

-- The program's own entry for a circuit.
pub record Peer : Type 0 where
  pub vc_state : ℕ
  pub unique_id : List ℕ
  pub valid : Bool

-- `held` are the bytes from dataStart to dataEnd, `start` is where they begin in outputBuffer.
-- Addresses are bytes.
pub record Console : Type 0 where
  pub start : ℕ
  pub held : List ℕ
  pub screen : Terminal
  pub radio : Terminal
  pub list : List Peer
  pub my_vc : ℕ
  pub remote_vc : ℕ
  pub command_status : Bool
  pub waiting_for_command_complete : Bool
  pub remote_command_vc : ℕ

-- `sizeof(outputBuffer)`
abbrev pub output_buffer_size : ℕ
output_buffer_size = 2052

abbrev pub terminal_of : Sending → Terminal
terminal_of (sent t) = t
terminal_of (failed t) = t
terminal_of (running t) = t

-- `PC_COMMAND_COMPLETE`, `PC_REMOTE_RESPONSE`
abbrev pub pc_command_complete : ℕ
pc_command_complete = 229

abbrev pub pc_remote_response : ℕ
pc_remote_response = 192

-- What would be read outside the list.
abbrev pub no_peer : Peer
no_peer = record { vc_state = 0; unique_id = []; valid = false }

-- The text in front of the first start byte, and what begins there.
pub split_text : List ℕ → List ℕ × List ℕ
split_text [] = ([], [])
split_text (b ∷ bytes) =
    let (debug, message) = split_text bytes in
    if b == start_of_vc_serial then ([], b ∷ bytes) else (b ∷ debug, message)

-- A new ID replaces an unknown or a different one, if the radio knows it.
pub save_id : List ℕ → Peer → Peer
save_id id p =
    let saved = record p { unique_id = id; valid = true } in
    if not p.valid
    then (if not (bytes_eq id erased_id) then saved else p)
    else (if not (bytes_eq id p.unique_id) && not (bytes_eq id erased_id) then saved else p)

module _ (write : ℕ → ℕ → Option ℕ) where
  -- The loop of `hostToStdout`, which writes what is left.
  pub stdout_loop : ℕ → List ℕ → Terminal → Sending
  stdout_loop zero bytes t = running t
  stdout_loop (suc n) [] t = sent t
  stdout_loop (suc n) (b ∷ bytes) t = elim (write t.calls (length (b ∷ bytes))) [
    | none ↦ failed (record t { calls = t.calls + 1 })
    | some k ↦
        stdout_loop n (drop k (b ∷ bytes))
          (record t { out = t.out ++ take k (b ∷ bytes); calls = t.calls + 1 })
  ]

module _ (write : ℕ → ℕ → Option ℕ) (rounds : ℕ) where
  -- The count of bytes is a uint8_t.
  pub host_to_stdout : List ℕ → ℕ → Console → Console
  unfolding stdout_loop
  host_to_stdout bytes n c = record c {
    screen = terminal_of (stdout_loop write rounds (take (u8 n) bytes) c.screen);
  }

  -- Two commands bring up the connection to a circuit.
  pub connect : ℕ → Console → Console
  connect src c =
      let t = terminal_of (cmd_to_radio write rounds (text "at-CmdVc=" ++ decimal src) c.radio) in
      record c { radio = terminal_of (cmd_to_radio write rounds (text "atC") t) }

  -- Upon the transition to ALIVE, the connection is brought up.
  pub bring_up : ℕ → ℕ → ℕ → Console → Console
  unfolding connect
  bring_up src previous_state state c =
      if state == 1
        && (not (previous_state == state)
            && (c.my_vc == 0 || (src == c.remote_vc || src == c.my_vc)))
      then connect src c
      else c

  -- A command is over if its link fails.
  pub fail_command : ℕ → ℕ → Console → Console
  fail_command src state c =
      if c.waiting_for_command_complete && (not (state == 5) && src == c.remote_command_vc)
      then record c { command_status = true; waiting_for_command_complete = false }
      else c

  -- The state message begins with its header, at the start byte.
  pub radio_to_pc_link_status : List ℕ → Console → Console
  unfolding save_id bring_up fail_command
  radio_to_pc_link_status message c =
      let src = get_or message 3 0 in
      let state = get_or message 4 0 in
      let id = take unique_id_bytes (drop 5 message) in
      let peer = get_or c.list src no_peer in
      fail_command src state (
        bring_up src peer.vc_state state
          (record c { list = set c.list src (save_id id (record peer { vc_state = state })) }))

  -- `radioCommandComplete`
  pub radio_command_complete : List ℕ → Console → Console
  radio_command_complete message c = record c {
    command_status = not (get_or message 4 0 == 0);
    waiting_for_command_complete = false;
  }

  -- A whole message, n is its length byte; its data has `n - 3` bytes, as a uint8_t. ACKs, NACKs and
  -- unknown messages change nothing.
  pub process_message : List ℕ → ℕ → Console → Console
  unfolding host_to_stdout radio_to_pc_link_status radio_command_complete
  process_message message n c =
      let dest = get_or message 2 0 in
      let shown = host_to_stdout (drop vc_serial_header_bytes message) (n + 253) c in
      if dest == pc_link_status
      then radio_to_pc_link_status message c
      else if dest == bit_or pc_remote_response c.my_vc
      then shown
      else if dest == pc_command_complete
      then radio_command_complete message c
      else if dest == 226 || dest == 227
      then c
      else if dest == c.my_vc || dest == vc_broadcast
      then shown
      else c

  -- What is done with the bytes in the buffer, at `outputBuffer` from the first start byte on.
  pub process_held : List ℕ → Console → Console
  unfolding process_message
  process_held message c =
      let n = get_or message 1 0 in
      let size = vc_serial_header_bytes + (n - 3) in
      let kept = record c { start = 0; held = message } in
      if ltb (length message) vc_serial_header_bytes || ltb (length message) (n + 1)
      then kept
      else record (process_message message n kept) { start = size; held = drop size message }

  -- `incoming` is what `read` gives, at most the free bytes of the buffer; `none` for an error.
  pub radio_to_host : Option (List ℕ) → Console → Console
  unfolding process_held split_text
  radio_to_host none c = c
  radio_to_host (some []) c = c
  radio_to_host (some (b ∷ bytes)) c =
      let (debug, message) = split_text (c.held ++ b ∷ bytes) in
      let shown = if ltb 0 (length debug) then host_to_stdout debug (length debug) c else c in
      if length message == 0
      then record shown { start = 0; held = [] }
      else process_held message shown
