-- ===== src/Settings.antt =====
-- The fields of `struct_settings` (Firmware/LoRaSerial/settings.h) that the modelled code reads.
-- The debug and print switches are not fields: the model follows the code with them off.
use spark_fun_lo_ra_serial.Base.{ℕ, Bool, List}

pub data OperatingMode : Type 0 where
  multipoint point_to_point virtual_circuit : OperatingMode

pub OperatingMode-discrete : Discrete OperatingMode
OperatingMode-discrete = hlevel

abbrev pub is_virtual_circuit : OperatingMode → Bool
is_virtual_circuit virtual_circuit = Bool.true
is_virtual_circuit _ = Bool.false

abbrev pub is_point_to_point : OperatingMode → Bool
is_point_to_point point_to_point = Bool.true
is_point_to_point _ = Bool.false

abbrev pub is_multipoint : OperatingMode → Bool
is_multipoint multipoint = Bool.true
is_multipoint _ = Bool.false

pub record Settings : Type 0 where
  pub flow_control : Bool
  pub invert_cts : Bool
  pub invert_rts : Bool
  pub echo : Bool
  pub serial_timeout_before_sending_frame_ms : ℕ  -- uint16_t
  pub rts_off_bytes : ℕ  -- uint16_t
  pub operating_mode : OperatingMode
  pub server : Bool
  pub net_id : ℕ  -- uint8_t
  pub verify_rx_net_id : Bool
  pub frequency_hop : Bool
  pub number_of_channels : ℕ  -- uint8_t
  pub max_dwell_time : ℕ  -- uint16_t
  pub radio_spread_factor : ℕ  -- uint8_t
  pub enable_crc16 : Bool
  pub encrypt_data : Bool
  pub data_scrambling : Bool
  pub encryption_key : List ℕ
