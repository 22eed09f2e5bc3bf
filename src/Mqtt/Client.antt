-- ===== src/Mqtt/Client.antt =====
-- src/mqtt/mqtt_client.c and src/mqtt/mqtt_timers.c: the MQTT client over a plain connection.
pub mod State
pub mod Timers
pub mod Send
pub mod Receive
pub mod Stream
pub mod Flow
pub mod Subscription
pub mod Keyed
pub mod Replies
pub mod Calls
pub mod Reach
pub mod Batch
pub mod Incoming
pub mod Resend
pub mod Closing
