-- ===== src/Tests.antt =====
-- The concrete inputs of the tests: a fresh block, a table, a client.
mod Table
mod Helpers
mod Mqtt
mod Client
mod Deliveries
mod Coap
mod CoapClient
mod CoapConnection
mod MqttSn
mod SnClient
mod SnConnection
mod Ws
