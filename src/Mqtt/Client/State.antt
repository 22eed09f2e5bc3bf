-- ===== src/Mqtt/Client/State.antt =====
-- The variables of src/mqtt/mqtt_client.c and src/mqtt/mqtt_timers.c, and what the client does to
-- the world: every call of another module is an entry of a log, the oldest first.
use iotbroker_cloud_c_client.Base.{ℕ, Bool, true, Option, List, ◌++◌, Bytes}
pub use iotbroker_cloud_c_client.Base.HashTable.{
  MapPointer, null, live, destroyed, the_table, destroy,
}
use iotbroker_cloud_c_client.Mqtt.Packets.{Message}

pub record Account : Type 0 where
  pub username : Bytes
  pub password : Bytes
  pub client_id : Bytes
  pub clean_session : Bool
  pub keep_alive : ℕ
  pub will_topic : Option Bytes
  pub is_retain : Bool
  pub qos : ℕ
  pub will : Option Bytes

pub data Timer : Type 0 where
  connecter pinger messager : Timer

-- The argument of `cu_pt`: a return code of CONNACK, or -1.
pub data Cause : Type 0 where
  return_code : ℕ → Cause
  no_connection : Cause

-- A message as the database, the window and the listener get it.
pub record Delivery : Type 0 where
  pub content : Bytes
  pub topic_name : Bytes
  pub qos : ℕ
  pub retain : Bool
  pub dup : Bool

pub data Effect : Type 0 where
  sent : Bytes → Effect
  timer_started : Timer → Effect
  timer_stopped : Timer → Effect
  connection_successful : Effect
  connection_unsuccessful : Cause → Effect
  publish_received : Delivery → Effect
  message_saved : Delivery → Effect
  window_updated : Delivery → Effect
  topic_unlisted : Bytes → Effect
  topic_deleted : Bytes → Effect
  topic_listed : Bytes → ℕ → Effect
  topic_saved : Bytes → ℕ → Effect
  error_shown : ℕ → Effect
  connection_closed : Effect

-- Which of the three `pthread_t` hold a thread; a thread is never joined.
abbrev pub started : Timer → (Timer → Bool) → Timer → Bool
started connecter threads connecter = true
started pinger threads pinger = true
started messager threads messager = true
started t threads t' = threads t'

-- A message with its `time_stamp`.
pub record Entry : Type 0 where
  pub message : Message
  pub time_stamp : ℕ

pub record Client (Table : Type 0) : Type 0 where
  pub current_packet_number : ℕ
  pub delay_in_seconds : ℕ
  pub connection_established : Bool
  pub messages_map : MapPointer Table
  pub threads : Timer → Bool
  pub log : List Effect

abbrev pub record_effects : {Table : Type 0} → List Effect → Client Table → Client Table
record_effects es c = record c { log = c.log ++ es }
