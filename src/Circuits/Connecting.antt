-- ===== src/Circuits/Connecting.antt =====
-- `vcConnecting`, which `vcChangeState` of Firmware/LoRaSerial/States.ino keeps.
use spark_fun_lo_ra_serial.Base.{ℕ, ◌≡◌, false, get_or}
use spark_fun_lo_ra_serial.Circuits.{Circuits, circuit, is_connecting}

-- The bit of a circuit says whether it is connecting.
abbrev pub IsMarked : Circuits → ℕ → Type 0
IsMarked t j =
    get_or t.connecting j false ≡ is_connecting (circuit t j).vc_state (circuit t j).was_connected
