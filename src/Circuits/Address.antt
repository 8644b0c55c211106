-- ===== src/Circuits/Address.antt =====
-- `vcIdToAddressByte` of Firmware/LoRaSerial/States.ino: from a unique ID to the number of a circuit.
pub mod Unique
mod Tests
use Prim.Native.Char.{code}
use Prim.Native.String.{String, [] as []ₛ, ◌∷◌ as ◌∷ₛ◌}
use spark_fun_lo_ra_serial.Base.{
  ℕ, zero, suc, ◌+◌, ◌-◌, ◌/◌, ◌%◌, Bool, true, false, not, List, [], ◌∷◌, ◌++◌, Option, none, some,
  if◌then◌else◌, ltb, ◌==◌, ◌&&◌,
}
use spark_fun_lo_ra_serial.Datagram.{Circuit}
use spark_fun_lo_ra_serial.Serial.{Serial, Port}
use spark_fun_lo_ra_serial.Serial.Output.{output_serial_data, system_write}
use spark_fun_lo_ra_serial.Circuits.{
  Circuits, circuit, vc_unassigned, vc_link_alive, nvm_save_unique_id,
}
use spark_fun_lo_ra_serial.Circuits.Search.{first, bytes_eq}

-- The bytes of a string.
pub text : String → List ℕ
text []ₛ = []
text (c ∷ₛ s) = code c ∷ text s

abbrev pub new_line : List ℕ
new_line = 13 ∷ 10 ∷ []

-- "%d" of a byte, and the digit and the byte of "%02X".
pub decimal : ℕ → List ℕ
decimal n =
    if ltb n 10
    then (b'0' + n) ∷ []
    else if ltb n 100
    then (b'0' + n / 10) ∷ (b'0' + n % 10) ∷ []
    else (b'0' + n / 100) ∷ (b'0' + n / 10 % 10) ∷ (b'0' + n % 10) ∷ []

abbrev pub hex_digit : ℕ → ℕ
hex_digit n = if ltb n 10 then b'0' + n else b'A' + (n - 10)

pub hex_bytes : List ℕ → List ℕ
hex_bytes [] = []
hex_bytes (b ∷ bytes) = hex_digit (b / 16) ∷ hex_digit (b % 16) ∷ hex_bytes bytes

-- The number of a circuit, or the errors -1, -2 and -3.
pub data Address : Type 0 where
  address : ℕ → Address
  not_server too_many_clients conflict : Address

-- What is printed is followed by `outputSerialData(true)`.
pub report : Port → List ℕ → Circuits → Circuits
report port message t = record t {
  serial = output_serial_data true port (system_write port message t.serial);
}

pub conflict_message : ℕ → List ℕ → List ℕ → List ℕ
unfolding text decimal hex_bytes
conflict_message src received assigned =
    text "ERROR: Unknown ID with pre-assigned conflicting address: "
    ++ decimal src
    ++ new_line
    ++ text "Received ID: "
    ++ hex_bytes received
    ++ new_line
    ++ text "Assigned ID: "
    ++ hex_bytes assigned
    ++ new_line

-- Whether an entry is in use for an ID, and whether it is free.
abbrev pub holds : List ℕ → Circuit → Bool
holds id vc = vc.valid && bytes_eq vc.unique_id id

abbrev pub is_free : Circuit → Bool
is_free vc = not vc.valid

-- Check for a conflict and save the ID: the part from an address on.
pub assign : Port → ℕ → List ℕ → Circuits → Address × Circuits
unfolding report conflict_message
assign port i id t =
    if (circuit t i).valid
    then (conflict, report port (conflict_message i id (circuit t i).unique_id) t)
    else (address i, vc_link_alive port i (nvm_save_unique_id i id t))

pub too_many_clients_message : List ℕ
unfolding text
too_many_clients_message = text "ERROR: Too many clients, no free addresses!\n" ++ new_line

-- An unknown client gets the first free entry.
pub assign_free : Port → List ℕ → Circuits → Address × Circuits
unfolding assign report too_many_clients_message
assign_free port id t = elim (first is_free t.list 0) [
  | some i ↦ assign port i id t
  | none ↦ (too_many_clients, report port too_many_clients_message t)
]

-- Only the server can assign addresses.
pub assign_new : Port → ℕ → List ℕ → Circuits → Address × Circuits
unfolding assign_free
assign_new port src id t =
    if src == vc_unassigned
    then (if not t.serial.settings.server then (not_server, t) else assign_free port id t)
    else assign port src id t

-- `src` is the address in the frame, a byte.
pub vc_id_to_address_byte : Port → ℕ → List ℕ → Circuits → Address × Circuits
unfolding assign_new
vc_id_to_address_byte port src id t = elim (first (holds id) t.list 0) [
  | some i ↦ (address i, vc_link_alive port i t)
  | none ↦ assign_new port src id t
]
