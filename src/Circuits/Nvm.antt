-- ===== src/Circuits/Nvm.antt =====
-- Unique IDs survive a restart: `nvmSaveUniqueId`, `nvmEraseUniqueId` and `nvmLoadVcUniqueId` of
-- Firmware/LoRaSerial/NVM.ino.
use spark_fun_lo_ra_serial.Base.{List}
use spark_fun_lo_ra_serial.Datagram.{Circuit}
use spark_fun_lo_ra_serial.Circuits.{Circuits}

-- What a restart keeps: the NVM. The list is new.
abbrev pub restart : List Circuit → Circuits → Circuits
restart list t = record t { list = list }
