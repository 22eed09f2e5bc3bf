-- ===== src/MqttSn/Sent/Sizes.antt =====
-- The types of the packets that the client sends, and `sn_get_length` of their messages.
use iotbroker_cloud_c_client.Base.{
  ℕ, ◌+◌, ◌<◌, ◌≡◌, refl, arith, if◌then◌else◌, leb, ok, Bytes, length,
}
use iotbroker_cloud_c_client.MqttSn.Packets.{SnMessage, sn_message_type}
use iotbroker_cloud_c_client.MqttSn.Size.{sn_get_length}
use iotbroker_cloud_c_client.MqttSn.Wire.{
  SnWire, wire_connect, wire_will_topic, wire_will_msg, wire_register, wire_regack, wire_publish,
  wire_puback, wire_pubcomp, wire_pubrec, wire_pubrel, wire_subscribe_id, wire_subscribe_name,
  wire_unsubscribe_id, wire_unsubscribe_name, wire_pingreq, wire_disconnect,
}

pub sn_message_type-SnWire :
    {m : SnMessage} {type : ℕ} {body : Bytes}
    → SnWire m type body
    → (sn_message_type m ≡ type) × (type < 256)
sn_message_type-SnWire (wire_connect c s e ep h) = (refl, omega arith)
sn_message_type-SnWire (wire_will_topic r t s e h hs) = (refl, omega arith)
sn_message_type-SnWire (wire_will_msg s h) = (refl, omega arith)
sn_message_type-SnWire (wire_register t m s h) = (refl, omega arith)
sn_message_type-SnWire (wire_regack t m c h) = (refl, omega arith)
sn_message_type-SnWire (wire_publish p id qos s t hq e h) = (refl, omega arith)
sn_message_type-SnWire (wire_puback t m c h) = (refl, omega arith)
sn_message_type-SnWire (wire_pubcomp n) = (refl, omega arith)
sn_message_type-SnWire (wire_pubrec n) = (refl, omega arith)
sn_message_type-SnWire (wire_pubrel n) = (refl, omega arith)
sn_message_type-SnWire (wire_subscribe_id s id qos t hq) = (refl, omega arith)
sn_message_type-SnWire (wire_subscribe_name s n qos t hq h) = (refl, omega arith)
sn_message_type-SnWire (wire_unsubscribe_id u id qos t) = (refl, omega arith)
sn_message_type-SnWire (wire_unsubscribe_name u n qos t h) = (refl, omega arith)
sn_message_type-SnWire (wire_pingreq s h) = (refl, omega arith)
sn_message_type-SnWire (wire_disconnect d) = (refl, omega arith)

-- The length of a packet with a body of `n` bytes.
abbrev pub packet_size : ℕ → ℕ
packet_size n = if leb n 253 then n + 2 else n + 4

pub sn_get_length-SnWire :
    {m : SnMessage} {type : ℕ} {body : Bytes}
    → SnWire m type body
    → sn_get_length m ≡ ok (packet_size (length body))
unfolding sn_get_length
sn_get_length-SnWire (wire_connect c s e ep h) = rw e (ground arith)
sn_get_length-SnWire (wire_will_topic r t s e h hs) = rw e (ground arith)
sn_get_length-SnWire (wire_will_msg s h) = ground arith
sn_get_length-SnWire (wire_register t m s h) = ground arith
sn_get_length-SnWire (wire_regack t m c h) = refl
sn_get_length-SnWire (wire_publish p id qos s t hq e h) = rw e (ground arith)
sn_get_length-SnWire (wire_puback t m c h) = refl
sn_get_length-SnWire (wire_pubcomp n) = refl
sn_get_length-SnWire (wire_pubrec n) = refl
sn_get_length-SnWire (wire_pubrel n) = refl
sn_get_length-SnWire (wire_subscribe_id s id qos t hq) = rw (t.0) refl
sn_get_length-SnWire (wire_subscribe_name s n qos t hq h) = rw (t.0, t.1) (ground arith)
sn_get_length-SnWire (wire_unsubscribe_id u id qos t) = rw (t.0) refl
sn_get_length-SnWire (wire_unsubscribe_name u n qos t h) = rw (t.0, t.1) (ground arith)
sn_get_length-SnWire (wire_pingreq s h) = ground arith
sn_get_length-SnWire (wire_disconnect d) = ground arith
