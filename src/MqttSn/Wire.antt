-- ===== src/MqttSn/Wire.antt =====
-- The format of MQTT-SN 1.2, written down without the encoder: the length of the whole packet in one
-- byte, or in three, the first of them 1, then the type and the body.
use iotbroker_cloud_c_client.Base.{
  ℕ, ◌+◌, ◌*◌, ◌<◌, ◌≡◌, Bool, false, some, [], ◌∷◌, ◌++◌, if◌then◌else◌, ltb, leb, Bytes, length,
}
use iotbroker_cloud_c_client.Helpers.{short_bytes}
use iotbroker_cloud_c_client.MqttSn.Packets.{
  SnTopic, SnConnect, SnPublish, SnSubscribe, SnUnsubscribe, SnMessage, sn_connect, sn_will_topic,
  sn_will_msg, sn_register, sn_regack, sn_publish, sn_puback, sn_pubcomp, sn_pubrec, sn_pubrel,
  sn_subscribe, sn_unsubscribe, sn_pingreq, sn_disconnect,
}

abbrev pub sn_header : ℕ → ℕ → Bytes
sn_header type size =
    if leb size 253 then (size + 2) ∷ type ∷ [] else 1 ∷ (short_bytes (size + 4) ++ type ∷ [])

unfoldable pub sn_frame : ℕ → Bytes → Bytes
sn_frame type body = sn_header type (length body) ++ body

-- The flags of a QoS of at most 3 and a kind of topic of at most 2.
abbrev pub sn_flags : Bool → ℕ → Bool → Bool → Bool → ℕ → ℕ
sn_flags dup qos retain will clean topic_type =
    (if dup then 128 else 0)
    + qos * 32
    + (if retain then 16 else 0)
    + (if will then 8 else 0)
    + (if clean then 4 else 0)
    + topic_type

abbrev pub TopicOfId : ℕ → ℕ → SnTopic → Type 0
TopicOfId id qos t = (t.topic_type ≡ some 1) × (t.id ≡ some id) × (t.qos ≡ qos)

abbrev pub TopicOfName : Bytes → ℕ → SnTopic → Type 0
TopicOfName name qos t = (t.topic_type ≡ some 0) × (t.value ≡ some name) × (t.qos ≡ qos)

-- The messages that the client sends, each with the packet that MQTT-SN asks for: the type and the
-- body. A PUBLISH names its topic by an id; the texts of CONNECT and PINGREQ leave the packet below 256
-- bytes.
pub data SnWire : SnMessage → ℕ → Bytes → Type 0 where
  wire_connect :
      (c : SnConnect) (client_id : Bytes)
      → c.client_id ≡ some client_id
      → c.protocol_id ≡ 1
      → length client_id < 250
      → SnWire (sn_connect c) 0x04 (
          sn_flags false 0 false c.will_present c.clean_session 0 ∷ 1 ∷ short_bytes c.duration
          ++ client_id)
  wire_will_topic :
      (retain : Bool) (t : SnTopic) (topic_name : Bytes)
      → t.value ≡ some topic_name
      → t.qos < 4
      → length topic_name < 65536
      → SnWire
          (sn_will_topic (record { retain = retain; topic = some t }))
          0x07
          (sn_flags false t.qos retain false false 0 ∷ topic_name)
  wire_will_msg :
      (message : Bytes) → length message < 65536 → SnWire (sn_will_msg (some message)) 0x09 message
  wire_register :
      (topic_id msg_id : ℕ) (topic_name : Bytes)
      → length topic_name < 65536
      → SnWire
          (sn_register
            (record { topic_id = topic_id; msg_id = msg_id; topic_name = some topic_name }))
          0x0a
          (short_bytes topic_id ++ (short_bytes msg_id ++ topic_name))
  wire_regack :
      (topic_id message_id code : ℕ)
      → code < 256
      → SnWire
          (sn_regack (record { topic_id = topic_id; message_id = message_id; code = code }))
          0x0b
          (short_bytes topic_id ++ (short_bytes message_id ++ code ∷ []))
  wire_publish :
      (p : SnPublish) (id qos : ℕ) (content : Bytes)
      → TopicOfId id qos p.topic
      → qos < 4
      → p.data_text ≡ some content
      → length content < 65536
      → SnWire (sn_publish p) 0x0c (
          sn_flags p.dup qos p.retain false false 1 ∷ short_bytes id
          ++ (short_bytes p.message_id ++ content))
  wire_puback :
      (topic_id message_id code : ℕ)
      → code < 256
      → SnWire
          (sn_puback (record { topic_id = topic_id; message_id = message_id; code = code }))
          0x0d
          (short_bytes topic_id ++ (short_bytes message_id ++ code ∷ []))
  wire_pubcomp : (n : ℕ) → SnWire (sn_pubcomp n) 0x0e (short_bytes n)
  wire_pubrec : (n : ℕ) → SnWire (sn_pubrec n) 0x0f (short_bytes n)
  wire_pubrel : (n : ℕ) → SnWire (sn_pubrel n) 0x10 (short_bytes n)
  wire_subscribe_id :
      (s : SnSubscribe) (id qos : ℕ)
      → TopicOfId id qos s.topic
      → qos < 4
      → SnWire
          (sn_subscribe s)
          0x12
          (sn_flags s.dup qos false false false 1 ∷ short_bytes s.message_id ++ short_bytes id)
  wire_subscribe_name :
      (s : SnSubscribe) (name : Bytes) (qos : ℕ)
      → TopicOfName name qos s.topic
      → qos < 4
      → length name < 65536
      → SnWire
          (sn_subscribe s)
          0x12
          (sn_flags s.dup qos false false false 0 ∷ short_bytes s.message_id ++ name)
  wire_unsubscribe_id :
      (u : SnUnsubscribe) (id qos : ℕ)
      → TopicOfId id qos u.topic
      → SnWire
          (sn_unsubscribe u)
          0x14
          (sn_flags false 0 false false false 1 ∷ short_bytes u.message_id ++ short_bytes id)
  wire_unsubscribe_name :
      (u : SnUnsubscribe) (name : Bytes) (qos : ℕ)
      → TopicOfName name qos u.topic
      → length name < 65536
      → SnWire
          (sn_unsubscribe u)
          0x14
          (sn_flags false 0 false false false 0 ∷ short_bytes u.message_id ++ name)
  wire_pingreq :
      (client_id : Bytes)
      → length client_id < 254
      → SnWire (sn_pingreq (some client_id)) 0x16 client_id
  wire_disconnect :
      (duration : ℕ)
      → SnWire (sn_disconnect duration) 0x18 (if ltb 0 duration then short_bytes duration else [])
