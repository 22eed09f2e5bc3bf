-- ===== src/Coap/Client.antt =====
-- src/coap/coap_client.c and src/coap/coap_timers.c.
pub mod State
pub mod Timers
pub mod Send
pub mod Receive
pub mod Delivery
pub mod Incoming
pub mod Connection
pub mod Subscription
pub mod Keyed
pub mod Replies
pub mod Reach
