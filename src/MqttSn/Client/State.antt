-- ===== src/MqttSn/Client/State.antt =====
-- The variables of src/mqttsn/mqtt_sn_client.c and src/mqttsn/mqtt_sn_timers.c, and the log of what the
-- client does to the world, the oldest entry first.
use iotbroker_cloud_c_client.Base.{ℕ, Bool, Option, List, ◌++◌, Bytes}
use iotbroker_cloud_c_client.Base.HashTable.{HashTable, TextTable, MapPointer}
pub use iotbroker_cloud_c_client.Mqtt.Client.State.{
  Account, Timer, connecter, pinger, messager, started,
}
use iotbroker_cloud_c_client.MqttSn.Packets.{SnMessage}

-- A message as the listener, the database and the window get it.
pub record SnDelivery : Type 0 where
  pub content : Bytes
  pub topic_name : Option Bytes
  pub qos : ℕ
  pub retain : Bool
  pub dup : Bool

-- The flag of a message that is saved or shown is `is_incoming`.
pub data SnEffect : Type 0 where
  sent : Bytes → SnEffect
  timer_started : Timer → SnEffect
  timer_stopped : Timer → SnEffect
  connection_successful : SnEffect
  connection_unsuccessful : SnEffect
  publish_received : SnDelivery → SnEffect
  message_saved : SnDelivery → Bool → SnEffect
  window_updated : SnDelivery → Bool → SnEffect
  topic_unlisted : Option Bytes → SnEffect
  topic_deleted : Option Bytes → SnEffect
  topic_listed : Bytes → ℕ → SnEffect
  topic_saved : Bytes → ℕ → SnEffect
  error_shown : ℕ → SnEffect
  connection_closed : SnEffect

-- A message with its `time_stamp`.
pub record SnEntry : Type 0 where
  pub message : SnMessage
  pub time_stamp : ℕ

-- What the client calls: malloc, the table of the messages that wait, and the tables from a topic's name
-- to its id and back.
pub record Libraries : Type 1 where
  pub malloc : ℕ → Bytes
  pub messages : HashTable SnEntry
  pub topic_ids : TextTable ℕ
  pub topic_names : HashTable Bytes

-- `ping_delay` is the `delay_in_seconds` of src/mqttsn/mqtt_sn_timers.c.
pub record SnClient (w : Libraries) : Type 0 where
  pub current_packet_number : ℕ
  pub delay_in_seconds : ℕ
  pub ping_delay : ℕ
  pub is_disconnect_sent : Bool
  pub account : Account
  pub messages_map : MapPointer w.messages.Table
  pub topic_name_map : MapPointer w.topic_ids.Table
  pub reverse_topic_name_map : MapPointer w.topic_names.Table
  pub threads : Timer → Bool
  pub log : List SnEffect

abbrev pub record_effects : {w : Libraries} → List SnEffect → SnClient w → SnClient w
record_effects es c = record c { log = c.log ++ es }
