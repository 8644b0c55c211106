-- ===== src/Lib.antt =====
-- SparkFun LoRaSerial: the firmware of a pair of serial radios, and its models.
--
-- A host writes bytes to the serial port of its radio; the radio collects them, sends them in frames
-- over the air, hopping through a table of channels, and the remote radio hands them to its host.
-- A frame is numbered, acknowledged, and sent again until its acknowledgement arrives.
--
-- Base and its children: arrays as lists, Boolean tests and fixed-width integers on native numbers.
-- Settings: the settings that the code reads (Firmware/LoRaSerial/settings.h).
-- Ring: the circular buffers of Firmware/LoRaSerial/Serial.ino as one record; Ring.Inv holds the
--   invariant, Ring.Queue the view as a queue, Ring.Copy and Ring.Blit the block copies.
-- Serial: the state of Firmware/LoRaSerial/Serial.ino. Serial.Output is outputSerialData,
--   serialBufferOutput, serialOutputByte and systemWrite; Serial.Radio is readyOutgoingPacket and
--   processWaitingSerial; Serial.Input is processSerialInput. What the hardware answers (time, CTS,
--   the flag of the interrupt) is a Port, one for each round of a loop.
-- Datagram: the kinds of frames and the state kept for a peer (Firmware/LoRaSerial/settings.h).
-- Link: validateDatagram and the check of packet numbers in rcvDatagram, the number that
--   transmitDatagram chooses (Firmware/LoRaSerial/Radio.ino). Link.Session is the state
--   RADIO_P2P_LINK_UP of updateRadioState (Firmware/LoRaSerial/States.ino) at both radios, with the
--   air between them: a step relation with loss, repetition and delay.
-- Serial.Vc: vcProcessSerialInput, the input in virtual-circuit mode, with the addresses of
--   Firmware/LoRaSerial/Virtual_Circuit_Protocol.h. Host: the program that talks to it,
--   Firmware/Tools/VcServerTest.c; Host.Console is its receiving half.
-- RadioV2: the datagrams of the simulated radio, Firmware/Tools/RadioV2.c, and (Terminal)
--   readLoRaSerial of Firmware/Tools/Terminal.c, for reads that do not fail.
-- Circuits: virtualCircuitList, vcChangeState, vcLinkAlive and vcIdToAddressByte
--   (Firmware/LoRaSerial/States.ino), and the unique IDs in the NVM (Firmware/LoRaSerial/NVM.ino).
-- Command: trimCommand (Firmware/LoRaSerial/Commands.ino), on the line of a command before it is
--   looked up.
-- Frame: the layout of a frame (selectHeaderAndTrailerBytes, Firmware/LoRaSerial/States.ino).
--   Frame.Transmit is transmitDatagram, Frame.Parse and Frame.Receive are rcvDatagram, Frame.Crc is
--   the software CRC (Firmware/LoRaSerial/Radio.ino), Frame.Whitening is radioComputeWhitening
--   (Firmware/LoRaSerial/System.ino). The cipher is a parameter.
--   Frame.Xmit is the xmitDatagramP2P functions that put data in a frame and send it.
-- P2p: the three-way handshake of updateRadioState (Firmware/LoRaSerial/States.ino) from
--   RADIO_P2P_LINK_DOWN to enterLinkUp, with the interrupt and timers of
--   Firmware/LoRaSerial/Radio.ino; P2p.Steps holds its steps, P2p.Completes two radios, P2p.Enters
--   how a link comes up. What rcvDatagram returns and whether a frame starts are inputs. P2p.Up is
--   the link while it is up at one radio: RADIO_P2P_LINK_UP and RADIO_P2P_LINK_UP_WAIT_TX_DONE,
--   retransmitDatagram, breakLink, resetSerial and readyOutgoingCommandPacket.
-- Channel: myRand, shuffle, hopChannel and mSecToChannelZero (Firmware/LoRaSerial/Radio.ino);
--   Channel.Sync is syncChannelTimer, with int16_t numbers as their 16 bits.
--
-- Loops: outputSerialData runs on its count of bytes; the loop of processSerialInput takes a byte
-- of the receive buffer in each round, so the bytes that wait there are fuel enough, since the
-- buffer is not filled while the loop runs; shuffle runs on its count of rounds. Both loops of
-- trimCommand over white space run on the length of the line and two, which is enough. The loop
-- of vcProcessSerialInput may run for ever: it takes a number of rounds, and for well-formed
-- messages one more than there are is enough; so do the loops of the host program and of
-- readLoRaSerial.
-- The loop of syncChannelTimer runs on 32769 rounds, more than the numbers that are not positive.
-- Integers are native numbers, and wrap where the code stores them. Debug output is off.
-- Not modelled: access to the radio chip and the boards, floating-point air times and frequencies,
-- LEDs, debug printing, and all but trimCommand of the command processor, which is an argument of
-- processSerialInput and vcProcessSerialInput.
pub mod Base
pub mod Channel
pub mod Circuits
pub mod Command
pub mod Datagram
pub mod Frame
pub mod Host
pub mod Link
pub mod P2p
pub mod RadioV2
pub mod Ring
pub mod Serial
pub mod Settings
