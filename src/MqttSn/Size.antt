-- ===== src/MqttSn/Size.antt =====
-- src/mqttsn/sn_parser.c, `sn_get_length`. The result -1 is `refused`.
use iotbroker_cloud_c_client.Base.{
  ℕ, ◌+◌, Option, none, some, if◌then◌else◌, ltb, ◌==◌, Outcome, ok, refused, fault, ◌>>=◌, deref,
  Bytes, length,
}
use iotbroker_cloud_c_client.MqttSn.Packets.{
  SnTopic, SnMessage, sn_advertise, sn_searchgw, sn_gwinfo, sn_connect, sn_connack,
  sn_will_topic_req, sn_will_topic, sn_will_msg_req, sn_will_msg, sn_register, sn_regack,
  sn_publish, sn_puback, sn_pubcomp, sn_pubrec, sn_pubrel, sn_subscribe, sn_suback, sn_unsubscribe,
  sn_unsuback, sn_pingreq, sn_pingresp, sn_disconnect, sn_will_topic_upd, sn_will_topic_resp,
  sn_will_msg_upd, sn_will_msg_resp, sn_encapsulated,
}

-- `strlen` of a pointer that may be NULL, where the code tests it.
abbrev size_or_zero : Option Bytes → ℕ
size_or_zero none = 0
size_or_zero (some s) = length s

-- A length that grows by the two bytes of a long length field.
abbrev pub widened : ℕ → ℕ → ℕ → ℕ
widened fixed limit l = fixed + l + (if ltb limit l then 2 else 0)

-- WILLTOPIC and WILLTOPICUPD
abbrev will_topic_length : Option SnTopic → Outcome ℕ
will_topic_length none = ok 2
will_topic_length (some t) = do value ← deref t.value; ok (widened 3 252 (length value))

-- SUBSCRIBE and UNSUBSCRIBE: an id takes two bytes, and a name its own.
abbrev topic_length : SnTopic → Outcome ℕ
topic_length t = do
  topic_type ← deref t.topic_type
  (if topic_type == 1 then ok 7 else (do value ← deref t.value; ok (widened 5 250 (length value))))

-- `strlen(en.message->packet)` runs over the bytes of a struct.
unfoldable pub sn_get_length : SnMessage → Outcome ℕ
sn_get_length (sn_advertise g d) = ok 5
sn_get_length (sn_searchgw r) = ok 3
sn_get_length (sn_gwinfo g a) = ok (3 + size_or_zero a)
sn_get_length (sn_connect c) = do client_id ← deref c.client_id; ok (6 + length client_id)
sn_get_length (sn_connack c) = ok 3
sn_get_length sn_will_topic_req = ok 2
sn_get_length (sn_will_topic w) = will_topic_length w.topic
sn_get_length sn_will_msg_req = ok 2
sn_get_length (sn_will_msg m) = do message ← deref m; ok (widened 2 253 (length message))
sn_get_length (sn_register r) = elim r.topic_name as (λ o. Outcome ℕ) [
  | none ↦ refused
  | some topic_name ↦ ok (widened 6 249 (length topic_name))
]
sn_get_length (sn_regack r) = ok 7
sn_get_length (sn_publish p) = do content ← deref p.data_text; ok (widened 7 248 (length content))
sn_get_length (sn_puback p) = ok 7
sn_get_length (sn_pubcomp n) = ok 4
sn_get_length (sn_pubrec n) = ok 4
sn_get_length (sn_pubrel n) = ok 4
sn_get_length (sn_subscribe s) = topic_length s.topic
sn_get_length (sn_suback s) = ok 8
sn_get_length (sn_unsubscribe u) = topic_length u.topic
sn_get_length (sn_unsuback n) = ok 4
sn_get_length (sn_pingreq c) = ok (2 + size_or_zero c)
sn_get_length sn_pingresp = ok 2
sn_get_length (sn_disconnect d) = ok (if ltb 0 d then 4 else 2)
sn_get_length (sn_will_topic_upd w) = will_topic_length w.topic
sn_get_length (sn_will_topic_resp c) = ok 2
sn_get_length (sn_will_msg_upd m) = do message ← deref m; ok (widened 2 253 (length message))
sn_get_length (sn_will_msg_resp c) = ok 2
sn_get_length (sn_encapsulated e) =
    if e.has_message then fault else ok (3 + size_or_zero e.wireless_node_id)
