-- ===== src/Mqtt/Packets.antt =====
-- src/mqtt/packets: the structs of the MQTT messages. A C string stands without its terminator; an
-- `int` that the code uses as a flag is a Bool; an enum is its number. `none` is a pointer or a
-- number that nothing has set.
use iotbroker_cloud_c_client.Base.{ℕ, Bool, Option, List, Bytes}

pub record Topic : Type 0 where
  pub topic_name : Bytes
  pub qos : ℕ

pub record Will : Type 0 where
  pub topic_name : Option Bytes
  pub qos : ℕ
  pub content : Option Bytes
  pub retain : Bool

pub record Connect : Type 0 where
  pub username : Option Bytes
  pub password : Option Bytes
  pub client_id : Bytes
  pub clean_session : Bool
  pub will_flag : Bool
  pub keepalive : ℕ
  pub protocol_level : ℕ
  pub will : Will

pub record Connack : Type 0 where
  pub session_present : ℕ
  pub return_code : ℕ

-- `is_incoming` is left out: the MQTT code does not touch it.
pub record Publish : Type 0 where
  pub topic : Topic
  pub content : Option Bytes
  pub retain : Bool
  pub dup : Bool
  pub packet_id : Option ℕ

-- `topics_number` and `codes_number` are the lengths of the lists.
pub record Subscribe : Type 0 where
  pub topics : List Topic
  pub packet_id : ℕ

pub record Suback : Type 0 where
  pub packet_id : ℕ
  pub codes : List ℕ

pub record Unsubscribe : Type 0 where
  pub topics : List Topic
  pub packet_id : ℕ

pub data MessageType : Type 0 where
  connect_type connack_type publish_type puback_type pubrec_type : MessageType
  pubrel_type pubcomp_type subscribe_type suback_type unsubscribe_type : MessageType
  unsuback_type pingreq_type pingresp_type disconnect_type : MessageType

abbrev pub type_number : MessageType → ℕ
type_number connect_type = 1
type_number connack_type = 2
type_number publish_type = 3
type_number puback_type = 4
type_number pubrec_type = 5
type_number pubrel_type = 6
type_number pubcomp_type = 7
type_number subscribe_type = 8
type_number suback_type = 9
type_number unsubscribe_type = 10
type_number unsuback_type = 11
type_number pingreq_type = 12
type_number pingresp_type = 13
type_number disconnect_type = 14

-- `message_type` with the packet that it says `packet` points to. The structs of the
-- acknowledgements hold a packet id alone.
pub data Message : Type 0 where
  connect : Connect → Message
  connack : Connack → Message
  publish : Publish → Message
  puback pubrec pubrel pubcomp : ℕ → Message
  subscribe : Subscribe → Message
  suback : Suback → Message
  unsubscribe : Unsubscribe → Message
  unsuback : ℕ → Message
  pingreq pingresp disconnect : Message

abbrev pub message_type : Message → MessageType
message_type (connect c) = connect_type
message_type (connack c) = connack_type
message_type (publish p) = publish_type
message_type (puback n) = puback_type
message_type (pubrec n) = pubrec_type
message_type (pubrel n) = pubrel_type
message_type (pubcomp n) = pubcomp_type
message_type (subscribe s) = subscribe_type
message_type (suback s) = suback_type
message_type (unsubscribe s) = unsubscribe_type
message_type (unsuback n) = unsuback_type
message_type pingreq = pingreq_type
message_type pingresp = pingresp_type
message_type disconnect = disconnect_type

-- What `decode` returns: a message whose packet lives on the heap, one whose packet is a local
-- variable of `decode`, one with its packet not set, or one with nothing set.
pub data Decoded : Type 0 where
  received : Message → Decoded
  dangling : Message → Decoded
  incomplete : MessageType → Decoded
  unknown : Decoded
