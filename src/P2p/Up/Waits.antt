-- ===== src/P2p/Up/Waits.antt =====
-- While an acknowledgement is awaited (`updateRadioState` of Firmware/LoRaSerial/States.ino).
use spark_fun_lo_ra_serial.Base.{◌≡◌, ◌⊎◌, ◌∷◌, take}
use spark_fun_lo_ra_serial.P2p.Up.{Exchange}

-- Nothing is taken from the buffers; the frame that is kept has been sent again as it was, or not.
pub record KeepsWaiting (u v : Exchange) : Type 0 where
  pub data_waits : v.partner.serial.radio_tx ≡ u.partner.serial.radio_tx
  pub commands_wait : v.partner.serial.command_tx ≡ u.partner.serial.command_tx
  pub same_frame : v.rexmt_buffer ≡ u.rexmt_buffer
  pub same_control : v.rexmt_control ≡ u.rexmt_control
  pub same_length : v.rexmt_length ≡ u.rexmt_length
  pub sent : (v.air ≡ u.air) ⊎ (v.air ≡ take u.rexmt_length u.rexmt_buffer ∷ u.air)
  pub timer : ¬ v.partner.ack_timer ≡ 0
  pub alive : v.radio ≡ u.radio
