-- ===== src/Circuits.antt =====
-- The list of virtual circuits: `virtualCircuitList` with its copy of the unique IDs in the NVM, the
-- state of each circuit and the messages to the host about it (Firmware/LoRaSerial/States.ino and
-- Firmware/LoRaSerial/NVM.ino).
pub mod Search
pub mod Tags
pub mod Address
pub mod Connecting
pub mod Nvm
use spark_fun_lo_ra_serial.Base.{
  ℕ, zero, suc, ◌+◌, Bool, true, false, not, List, [], ◌∷◌, ◌++◌, Option, none, some, if◌then◌else◌,
  get_or, set, replicate, ltb, ◌==◌, ◌&&◌, ◌||◌, u32,
}
use spark_fun_lo_ra_serial.Datagram.{
  VcState, Circuit, link_down, link_alive, send_unknown_acks, wait_sync_acks, wait_zero_acks,
  connected,
}
use spark_fun_lo_ra_serial.Link.{zero_acks_of}
use spark_fun_lo_ra_serial.Serial.{Serial, Port}
use spark_fun_lo_ra_serial.Serial.Output.{output_serial_data, system_write}
use spark_fun_lo_ra_serial.Circuits.Search.{first, bytes_eq}

-- `vcConnecting` is a list of its bits, the lowest first; `nvm` holds the slots of 16 bytes at
-- `nvmVcOffset`, one for each circuit.
pub record Circuits : Type 0 where
  pub list : List Circuit  -- virtualCircuitList
  pub nvm : List (List ℕ)
  pub connecting : List Bool
  pub serial : Serial

abbrev pub max_vc : ℕ
max_vc = 32

abbrev pub unique_id_bytes : ℕ
unique_id_bytes = 16

-- `VC_UNASSIGNED` and `PC_LINK_STATUS`, as bytes
abbrev pub vc_unassigned : ℕ
vc_unassigned = 253

abbrev pub pc_link_status : ℕ
pc_link_status = 225

-- UNIQUE_ID_ERASE_VALUE and NVM_ERASE_VALUE, in every byte
abbrev pub erased_id : List ℕ
erased_id = replicate unique_id_bytes 255

-- What would be read outside the list.
abbrev pub outside : Circuit
outside = record {
  unique_id = [];
  first_heartbeat_millis = 0;
  frames_received = 0;
  messages_received = 0;
  link_failures = 0;
  valid = false;
  was_connected = false;
  vc_state = link_down;
  rmt_tx_ack_number = 0;
  rx_ack_number = 0;
  tx_ack_number = 0;
}

-- `virtualCircuitList[i]`
abbrev pub circuit : Circuits → ℕ → Circuit
circuit t i = get_or t.list i outside

-- The value of the enumeration.
abbrev pub vc_state_number : VcState → ℕ
vc_state_number link_down = 0
vc_state_number link_alive = 1
vc_state_number send_unknown_acks = 2
vc_state_number wait_sync_acks = 3
vc_state_number wait_zero_acks = 4
vc_state_number connected = 5

-- `vcSendPcStateMessage`: the header and the message.
pub state_message : ℕ → VcState → Circuit → List ℕ
state_message i state vc =
    2
    ∷ (3 + 17)
    ∷ pc_link_status
    ∷ i
    ∷ vc_state_number state
    ∷ (if vc.valid then vc.unique_id else erased_id)

pub vc_send_pc_state_message : Port → ℕ → VcState → Circuits → Circuits
unfolding state_message
vc_send_pc_state_message port i state t = record t {
  serial = system_write port (state_message i state (circuit t i)) t.serial;
}

-- Whether the bit of a circuit in `vcConnecting` is to be set.
abbrev pub is_connecting : VcState → Bool → Bool
is_connecting state was_connected =
    (ltb 1 (vc_state_number state) && ltb (vc_state_number state) 5)
    || (was_connected && vc_state_number state == 1)

pub vc_change_state : Port → ℕ → VcState → Circuits → Circuits
unfolding vc_send_pc_state_message
vc_change_state port i state t =
    let vc = circuit t i in
    let changed = record t {
      list = set t.list i (record vc {
        vc_state = state;
        was_connected = if vc_state_number state == 5 then false else vc.was_connected;
      });
      connecting = set t.connecting i (is_connecting state vc.was_connected);
    } in
    vc_send_pc_state_message port i state
      (if vc_state_number state == vc_state_number vc.vc_state then t else changed)

pub vc_link_alive : Port → ℕ → Circuits → Circuits
unfolding vc_change_state
vc_link_alive port i t =
    let vc = circuit t i in
    let heard = record t {
      list = set t.list i (record vc { first_heartbeat_millis = port.millis });
    } in
    if vc_state_number vc.vc_state == 0 then vc_change_state port i link_alive heard else t

pub vc_zero_acks : ℕ → Circuits → Circuits
vc_zero_acks i t = record t { list = set t.list i (zero_acks_of (circuit t i)) }

-- `nvmSaveUniqueId`
pub nvm_save_unique_id : ℕ → List ℕ → Circuits → Circuits
nvm_save_unique_id i id t = record t {
  nvm = set t.nvm i id;
  list = set t.list i (record (circuit t i) { unique_id = id; valid = true });
}

-- `nvmEraseUniqueId`
pub nvm_erase_unique_id : ℕ → Circuits → Circuits
unfolding nvm_save_unique_id
nvm_erase_unique_id i t =
    let saved = nvm_save_unique_id i erased_id t in
    record saved {
      list = set saved.list i (record (circuit saved i) { unique_id = erased_id; valid = false });
    }

-- `nvmGetUniqueId`
abbrev pub nvm_get_unique_id : ℕ → Circuits → List ℕ
nvm_get_unique_id i t = get_or t.nvm i []

-- `nvmIsVcUniqueIdSet`: the loop over the bytes.
pub is_set : List ℕ → Bool
is_set [] = false
is_set (b ∷ bytes) = if b == 255 then is_set bytes else true

-- `nvmLoadVcUniqueId`
pub nvm_load_vc_unique_id : ℕ → Circuits → Circuits
unfolding is_set
nvm_load_vc_unique_id i t =
    let id = nvm_get_unique_id i t in
    let loaded = record t {
      list = set t.list i (record (circuit t i) { unique_id = id; valid = true });
    } in
    if is_set id then loaded else t

-- `nvmSaveVcUniqueId`
pub nvm_save_vc_unique_id : ℕ → Circuits → Circuits
unfolding nvm_save_unique_id
nvm_save_vc_unique_id i t =
    if bytes_eq (nvm_get_unique_id i t) (circuit t i).unique_id
    then t
    else nvm_save_unique_id i (circuit t i).unique_id t
