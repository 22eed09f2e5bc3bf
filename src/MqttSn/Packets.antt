-- ===== src/MqttSn/Packets.antt =====
-- src/mqttsn/packets: the structs of the MQTT-SN messages. A C string stands without its terminator,
-- an `int` that the code uses as a flag is a Bool, an enum is its number, and a `char` its byte.
-- `none` is a pointer that is NULL, or a field that nothing has set.
use iotbroker_cloud_c_client.Base.{ℕ, Bool, Option, Bytes}

pub record SnTopic : Type 0 where
  pub id : Option ℕ
  pub value : Option Bytes
  pub qos : ℕ
  pub topic_type : Option ℕ

pub record SnConnect : Type 0 where
  pub will_present : Bool
  pub clean_session : Bool
  pub protocol_id : ℕ
  pub duration : ℕ
  pub client_id : Option Bytes

pub record SnWillTopic : Type 0 where
  pub retain : Bool
  pub topic : Option SnTopic

pub record SnRegister : Type 0 where
  pub topic_id : ℕ
  pub msg_id : ℕ
  pub topic_name : Option Bytes

pub record SnRegAck : Type 0 where
  pub topic_id : ℕ
  pub message_id : ℕ
  pub code : ℕ

pub record SnPublish : Type 0 where
  pub message_id : ℕ
  pub topic : SnTopic
  pub data_text : Option Bytes
  pub dup : Bool
  pub retain : Bool
  pub is_incoming : Option Bool

pub record SnPuback : Type 0 where
  pub topic_id : ℕ
  pub message_id : ℕ
  pub code : ℕ

pub record SnSubscribe : Type 0 where
  pub message_id : ℕ
  pub topic : SnTopic
  pub dup : Bool

pub record SnSuback : Type 0 where
  pub topic_id : ℕ
  pub message_id : ℕ
  pub code : ℕ
  pub allowed_qos : ℕ

pub record SnUnsubscribe : Type 0 where
  pub message_id : ℕ
  pub topic : SnTopic

-- Of the message inside the code reads only whether it is there.
pub record SnEncapsulated : Type 0 where
  pub radius : ℕ
  pub wireless_node_id : Option Bytes
  pub has_message : Bool

-- `message_type` with the packet that it says `packet` points to, in the order of the enum.
pub data SnMessage : Type 0 where
  sn_advertise : ℕ → ℕ → SnMessage
  sn_searchgw : ℕ → SnMessage
  sn_gwinfo : ℕ → Option Bytes → SnMessage
  sn_connect : SnConnect → SnMessage
  sn_connack : ℕ → SnMessage
  sn_will_topic_req : SnMessage
  sn_will_topic : SnWillTopic → SnMessage
  sn_will_msg_req : SnMessage
  sn_will_msg : Option Bytes → SnMessage
  sn_register : SnRegister → SnMessage
  sn_regack : SnRegAck → SnMessage
  sn_publish : SnPublish → SnMessage
  sn_puback : SnPuback → SnMessage
  sn_pubcomp sn_pubrec sn_pubrel : ℕ → SnMessage
  sn_subscribe : SnSubscribe → SnMessage
  sn_suback : SnSuback → SnMessage
  sn_unsubscribe : SnUnsubscribe → SnMessage
  sn_unsuback : ℕ → SnMessage
  sn_pingreq : Option Bytes → SnMessage
  sn_pingresp : SnMessage
  sn_disconnect : ℕ → SnMessage
  sn_will_topic_upd : SnWillTopic → SnMessage
  sn_will_topic_resp : ℕ → SnMessage
  sn_will_msg_upd : Option Bytes → SnMessage
  sn_will_msg_resp : ℕ → SnMessage
  sn_encapsulated : SnEncapsulated → SnMessage

abbrev pub sn_message_type : SnMessage → ℕ
sn_message_type (sn_advertise g d) = 0x00
sn_message_type (sn_searchgw r) = 0x01
sn_message_type (sn_gwinfo g a) = 0x02
sn_message_type (sn_connect c) = 0x04
sn_message_type (sn_connack c) = 0x05
sn_message_type sn_will_topic_req = 0x06
sn_message_type (sn_will_topic w) = 0x07
sn_message_type sn_will_msg_req = 0x08
sn_message_type (sn_will_msg m) = 0x09
sn_message_type (sn_register r) = 0x0a
sn_message_type (sn_regack r) = 0x0b
sn_message_type (sn_publish p) = 0x0c
sn_message_type (sn_puback p) = 0x0d
sn_message_type (sn_pubcomp n) = 0x0e
sn_message_type (sn_pubrec n) = 0x0f
sn_message_type (sn_pubrel n) = 0x10
sn_message_type (sn_subscribe s) = 0x12
sn_message_type (sn_suback s) = 0x13
sn_message_type (sn_unsubscribe u) = 0x14
sn_message_type (sn_unsuback n) = 0x15
sn_message_type (sn_pingreq c) = 0x16
sn_message_type sn_pingresp = 0x17
sn_message_type (sn_disconnect d) = 0x18
sn_message_type (sn_will_topic_upd w) = 0x1a
sn_message_type (sn_will_topic_resp c) = 0x1b
sn_message_type (sn_will_msg_upd m) = 0x1c
sn_message_type (sn_will_msg_resp c) = 0x1d
sn_message_type (sn_encapsulated e) = 0xfe
