-- ===== src/MqttSn/Client.antt =====
-- src/mqttsn/mqtt_sn_client.c and src/mqttsn/mqtt_sn_timers.c.
pub mod State
pub mod Timers
pub mod Send
pub mod Receive
pub mod Steps
pub mod Registration
pub mod Publication
pub mod Subscription
pub mod Sound
pub mod Stopping
pub mod Topics
pub mod Replies
pub mod Calls
pub mod Reach
pub mod Incoming
pub mod Closing
pub mod Connection
pub mod Retries
