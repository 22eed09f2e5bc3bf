-- ===== src/Mqtt/Wire.antt =====
-- The MQTT wire format, and the encoder and the decoder against it.
pub mod Format
pub mod Frame
pub mod Stores
pub mod Opening
pub mod Parsed
