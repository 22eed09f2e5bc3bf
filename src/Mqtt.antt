-- ===== src/Mqtt.antt =====
-- src/mqtt/parser.c and src/mqtt/packets: the MQTT packets, their encoder and their decoder.
pub mod Packets
pub mod Remaining
pub mod Size
pub mod Encode
pub mod Decode
pub mod Wire
pub mod Fire
pub mod RoundTrip
pub mod Broker
pub mod Sound
pub mod Client
