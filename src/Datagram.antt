-- ===== src/Datagram.antt =====
-- The kinds of frames, `PacketType` of Firmware/LoRaSerial/settings.h, and the state that a radio
-- keeps for each peer, `VIRTUAL_CIRCUIT` there. Point-to-point links use entry 0 of the list.
use spark_fun_lo_ra_serial.Base.{ℕ, Bool, List}

pub data PacketType : Type 0 where
  find_partner sync_clocks zero_acks data_frame data_ack heartbeat : PacketType
  remote_command remote_command_response datagram : PacketType
  training_find_partner training_params training_ack : PacketType
  vc_heartbeat vc_unknown_acks vc_sync_acks vc_zero_acks : PacketType
  bad crc_error netid_mismatch duplicate not_mine : PacketType

unfoldable pub PacketType-discrete : Discrete PacketType
PacketType-discrete = hlevel

-- `VC_STATE_TYPE` of Firmware/LoRaSerial/Virtual_Circuit_Protocol.h.
pub data VcState : Type 0 where
  link_down link_alive send_unknown_acks wait_sync_acks wait_zero_acks connected : VcState

pub record Circuit : Type 0 where
  pub unique_id : List ℕ
  pub first_heartbeat_millis : ℕ
  pub frames_received : ℕ  -- uint32_t
  pub messages_received : ℕ  -- uint32_t
  pub link_failures : ℕ  -- uint32_t
  pub valid : Bool  -- flags.valid
  pub was_connected : Bool  -- flags.wasConnected
  pub vc_state : VcState
  pub rmt_tx_ack_number : ℕ  -- uint8_t, the number of the frame expected next
  pub rx_ack_number : ℕ  -- uint8_t, the number of the frame accepted last
  pub tx_ack_number : ℕ  -- uint8_t, the number of the frame to be acknowledged next
