-- ===== src/P2p/Enters.antt =====
-- How a link comes up (`updateRadioState` of Firmware/LoRaSerial/States.ino).
