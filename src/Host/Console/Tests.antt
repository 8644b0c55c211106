-- ===== src/Host/Console/Tests.antt =====
-- A host that hears its radio.
use spark_fun_lo_ra_serial.Base.{
  ℕ, ◌≡◌, refl, arith, false, List, [], ◌∷◌, ◌++◌, Option, some, replicate, get_or, take, drop,
}
use spark_fun_lo_ra_serial.Circuits.{unique_id_bytes}
use spark_fun_lo_ra_serial.Host.{Terminal}
use spark_fun_lo_ra_serial.Host.Console.{
  Console, no_peer, split_text, host_to_stdout, process_message, process_held, stdout_loop,
  radio_to_pc_link_status, radio_to_host,
}
use spark_fun_lo_ra_serial.Host.Console.Split.{Splits, radio_to_host-Splits}
use spark_fun_lo_ra_serial.Host.Console.Status.{Learned, radio_to_pc_link_status_lem}

-- The system writes one byte at a time.
abbrev bytewise : ℕ → ℕ → Option ℕ
bytewise k n = some 1

abbrev blank : Terminal
blank = record { out = []; calls = 0 }

-- "hi" from circuit 1 to circuit 0
abbrev greeting : List ℕ
greeting = 2 ∷ 5 ∷ 0 ∷ 1 ∷ b'h' ∷ b'i' ∷ []

abbrev console : Console
console = record {
  start = 0;
  held = [];
  screen = blank;
  radio = blank;
  list = replicate 32 no_peer;
  my_vc = 0;
  remote_vc = 1;
  command_status = false;
  waiting_for_command_complete = false;
  remote_command_vc = 0;
}

-- A whole message at the end of the buffer.
abbrev full : Console
full = record console { start = 2046; held = greeting }

radio_to_host-Splits_example :
    Splits
      ([] ++ b'o' ∷ b'k' ∷ greeting)
      (radio_to_host bytewise 300 (some (b'o' ∷ b'k' ∷ greeting)) console)
radio_to_host-Splits_example =
    radio_to_host-Splits bytewise 300 (b'o' ∷ b'k' ∷ greeting) console (omega arith)

shows :
    let c = radio_to_host bytewise 300 (some (b'o' ∷ b'k' ∷ greeting)) console in
    (c.screen.out ≡ b'o' ∷ b'k' ∷ b'h' ∷ b'i' ∷ []) × (c.held ≡ [])
unfolding radio_to_host process_held process_message split_text host_to_stdout stdout_loop
shows = (refl, refl)

-- Circuit 1 is alive, and has the ID 7, 7, ...
abbrev alive : List ℕ
alive = 2 ∷ 20 ∷ 225 ∷ 1 ∷ 1 ∷ replicate 16 7

radio_to_pc_link_status_lem_example :
    let p = get_or console.list 1 no_peer in
    let q = get_or (radio_to_pc_link_status bytewise 300 alive console).list 1 no_peer in
    (q.vc_state ≡ 1) × Learned (take unique_id_bytes (drop 5 alive)) p q
radio_to_pc_link_status_lem_example =
    radio_to_pc_link_status_lem bytewise 300 alive console (omega arith)
