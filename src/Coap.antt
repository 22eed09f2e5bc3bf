-- ===== src/Coap.antt =====
-- src/coap: the CoAP messages, their encoder and their decoder.
pub mod Packets
pub mod Encode
pub mod Decode
pub mod Wire
pub mod Options
pub mod Stores
pub mod RoundTrip
pub mod Client
