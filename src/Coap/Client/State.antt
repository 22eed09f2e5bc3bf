-- ===== src/Coap/Client/State.antt =====
-- The variables of src/coap/coap_client.c and src/coap/coap_timers.c, and the log of what the client does
-- to the world, the oldest entry first.
use iotbroker_cloud_c_client.Base.{ℕ, Bool, List, ◌++◌, Bytes}
use iotbroker_cloud_c_client.Base.HashTable.{MapPointer}
pub use iotbroker_cloud_c_client.Mqtt.Client.State.{Account, Timer, connecter, pinger, messager}
use iotbroker_cloud_c_client.Coap.Packets.{CoapMessage}

pub data CoapEffect : Type 0 where
  sent : Bytes → CoapEffect
  timer_started : Timer → CoapEffect
  timer_stopped : Timer → CoapEffect
  connection_successful : CoapEffect
  connection_unsuccessful : CoapEffect
  publish_received : Bytes → Bytes → ℕ → CoapEffect
  message_saved : Bytes → Bytes → ℕ → CoapEffect
  window_updated : Bytes → Bytes → ℕ → CoapEffect
  topic_unlisted : Bytes → CoapEffect
  topic_deleted : Bytes → CoapEffect
  topic_listed : Bytes → ℕ → CoapEffect
  topic_saved : Bytes → ℕ → CoapEffect
  connection_closed : CoapEffect

-- A message with its `time_stamp`.
pub record CoapEntry : Type 0 where
  pub message : CoapMessage
  pub time_stamp : ℕ

-- `ping_delay` is the `delay_in_seconds` of src/coap/coap_timers.c.
pub record CoapClient (Table : Type 0) : Type 0 where
  pub current_packet_number : ℕ
  pub delay_in_seconds : ℕ
  pub ping_delay : ℕ
  pub init_connect : Bool
  pub account : Account
  pub messages_map : MapPointer Table
  pub log : List CoapEffect

abbrev pub record_effects : {Table : Type 0} → List CoapEffect → CoapClient Table → CoapClient Table
record_effects es c = record c { log = c.log ++ es }
