-- ===== src/MqttSn.antt =====
-- src/mqttsn: the MQTT-SN packets, their encoder and their decoder.
pub mod Packets
pub mod Flags
pub mod Size
pub mod Encode
pub mod Decode
pub mod Wire
pub mod Sent
pub mod Gateway
pub mod Client
