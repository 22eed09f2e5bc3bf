-- ===== src/MqttSn/Encode.antt =====
-- src/mqttsn/sn_parser.c, `sn_encode`, and the bytes that `sn_encode_and_fire` of
-- src/mqttsn/mqtt_sn_client.c hands on. A store that leaves the index where it is, is a `store`. The
-- message that is printed where the index is not the length at the end is left out.
use iotbroker_cloud_c_client.Base.{
  ℕ, ◌%◌, false, Option, none, some, [], ◌∷◌, if◌then◌else◌, ltb, leb, ◌==◌, Outcome, ok, refused,
  fault, ◌>>=◌, deref, Bytes, slice, Cursor, start, contents, write, store, length, take,
}
use iotbroker_cloud_c_client.Helpers.{short_bytes, add_short}
use iotbroker_cloud_c_client.MqttSn.Packets.{
  SnTopic, SnConnect, SnWillTopic, SnRegister, SnRegAck, SnPublish, SnPuback, SnSubscribe, SnSuback,
  SnUnsubscribe, SnMessage, sn_message_type, sn_advertise, sn_searchgw, sn_gwinfo, sn_connect,
  sn_connack, sn_will_topic_req, sn_will_topic, sn_will_msg_req, sn_will_msg, sn_register,
  sn_regack, sn_publish, sn_puback, sn_pubcomp, sn_pubrec, sn_pubrel, sn_subscribe, sn_suback,
  sn_unsubscribe, sn_unsuback, sn_pingreq, sn_pingresp, sn_disconnect, sn_will_topic_upd,
  sn_will_topic_resp, sn_will_msg_upd, sn_will_msg_resp, sn_encapsulated,
}
use iotbroker_cloud_c_client.MqttSn.Flags.{encode_flags}
use iotbroker_cloud_c_client.MqttSn.Size.{sn_get_length}

-- `buf[i++] = b`
abbrev pub put_byte : ℕ → Cursor → Outcome Cursor
put_byte b = write ((b % 256) ∷ [])

-- What memcpy takes of a text: its length is an unsigned short, and nothing is copied where it is 0.
abbrev pub text_bytes : Bytes → Bytes
text_bytes s = take (length s % 65536) s

abbrev pub put_text : Option Bytes → Cursor → Outcome Cursor
put_text s k = do s ← deref s; write (text_bytes s) k

-- The same with no move of the index.
abbrev pub store_text : Option Bytes → Cursor → Outcome Cursor
store_text s k = do s ← deref s; store (text_bytes s) k

-- An id, or the text of a topic.
abbrev pub put_topic : SnTopic → Cursor → Outcome Cursor
put_topic t k = do
  topic_type ← deref t.topic_type
  (if topic_type == 1 then (do id ← deref t.id; add_short id k) else put_text t.value k)

abbrev encode_connect : SnConnect → Cursor → Outcome Cursor
encode_connect c k = do
  k ← put_byte (encode_flags false none false c.will_present c.clean_session none) k
  k ← put_byte c.protocol_id k
  k ← add_short c.duration k
  put_text c.client_id k

abbrev encode_will_topic : SnWillTopic → Cursor → Outcome Cursor
encode_will_topic w k = elim w.topic as (λ o. Outcome Cursor) [
  | none ↦ ok k
  | some t ↦ (do
    k ← put_byte (encode_flags false (some t.qos) w.retain false false none) k
    put_text t.value k)
]

abbrev encode_register : SnRegister → Cursor → Outcome Cursor
encode_register r k = do
  k ← add_short r.topic_id k
  k ← add_short r.msg_id k
  put_text r.topic_name k

abbrev encode_regack : SnRegAck → Cursor → Outcome Cursor
encode_regack r k = do k ← add_short r.topic_id k; k ← add_short r.message_id k; put_byte r.code k

abbrev encode_publish : SnPublish → Cursor → Outcome Cursor
encode_publish p k = do
  topic_type ← deref p.topic.topic_type
  k ← put_byte (encode_flags p.dup (some p.topic.qos) p.retain false false (some topic_type)) k
  k ← put_topic p.topic k
  k ← add_short p.message_id k
  put_text p.data_text k

abbrev encode_puback : SnPuback → Cursor → Outcome Cursor
encode_puback p k = do
  k ← add_short p.topic_id k
  k ← add_short p.message_id k
  store ((p.code % 256) ∷ []) k

abbrev encode_subscribe : SnSubscribe → Cursor → Outcome Cursor
encode_subscribe s k = do
  topic_type ← deref s.topic.topic_type
  k ← put_byte (encode_flags s.dup (some s.topic.qos) false false false (some topic_type)) k
  k ← add_short s.message_id k
  put_topic s.topic k

abbrev encode_suback : SnSuback → Cursor → Outcome Cursor
encode_suback s k = do
  k ← put_byte (encode_flags false (some s.allowed_qos) false false false none) k
  k ← add_short s.topic_id k
  k ← add_short s.message_id k
  store ((s.code % 256) ∷ []) k

abbrev encode_unsubscribe : SnUnsubscribe → Cursor → Outcome Cursor
encode_unsubscribe u k = do
  topic_type ← deref u.topic.topic_type
  k ← put_byte (encode_flags false none false false false (some topic_type)) k
  k ← add_short u.message_id k
  put_topic u.topic k

abbrev encode_will_topic_upd : SnWillTopic → Cursor → Outcome Cursor
encode_will_topic_upd w k = elim w.topic as (λ o. Outcome Cursor) [
  | none ↦ ok k
  | some t ↦ (do
    k ← put_byte (encode_flags false (some t.qos) w.retain false false none) k
    store_text t.value k)
]

abbrev encode_gwinfo : ℕ → Option Bytes → Cursor → Outcome Cursor
encode_gwinfo gw_id address k = do
  k ← put_byte gw_id k
  elim address as (λ o. Outcome Cursor) [ none ↦ ok k | some s ↦ store (text_bytes s) k ]

-- The switch over the type.
unfoldable pub sn_encode_body : SnMessage → ℕ → Cursor → Outcome Cursor
unfolding encode_flags
sn_encode_body (sn_advertise gw_id duration) l k = do
  k ← put_byte gw_id k
  store (short_bytes duration) k
sn_encode_body (sn_searchgw radius) l k = store ((radius % 256) ∷ []) k
sn_encode_body (sn_gwinfo gw_id address) l k = encode_gwinfo gw_id address k
sn_encode_body (sn_connect c) l k = encode_connect c k
sn_encode_body (sn_connack code) l k = store ((code % 256) ∷ []) k
sn_encode_body sn_will_topic_req l k = ok k
sn_encode_body (sn_will_topic w) l k = encode_will_topic w k
sn_encode_body sn_will_msg_req l k = ok k
sn_encode_body (sn_will_msg m) l k = put_text m k
sn_encode_body (sn_register r) l k = encode_register r k
sn_encode_body (sn_regack r) l k = encode_regack r k
sn_encode_body (sn_publish p) l k = encode_publish p k
sn_encode_body (sn_puback p) l k = encode_puback p k
sn_encode_body (sn_pubcomp n) l k = add_short n k
sn_encode_body (sn_pubrec n) l k = add_short n k
sn_encode_body (sn_pubrel n) l k = add_short n k
sn_encode_body (sn_subscribe s) l k = encode_subscribe s k
sn_encode_body (sn_suback s) l k = encode_suback s k
sn_encode_body (sn_unsubscribe u) l k = encode_unsubscribe u k
sn_encode_body (sn_unsuback n) l k = add_short n k
sn_encode_body (sn_pingreq client_id) l k = if ltb 2 l then put_text client_id k else ok k
sn_encode_body sn_pingresp l k = ok k
sn_encode_body (sn_disconnect duration) l k = if ltb 2 l then add_short duration k else ok k
sn_encode_body (sn_will_topic_upd w) l k = encode_will_topic_upd w k
sn_encode_body (sn_will_topic_resp code) l k = store ((code % 256) ∷ []) k
sn_encode_body (sn_will_msg_upd m) l k = store_text m k
sn_encode_body (sn_will_msg_resp code) l k = store ((code % 256) ∷ []) k
sn_encode_body (sn_encapsulated e) l k = do k ← put_byte e.radius k; put_text e.wireless_node_id k

-- `block` is what `malloc(length)` returned.
unfoldable pub sn_encode : SnMessage → ℕ → Bytes → Outcome Bytes
sn_encode m l block = do
  k ←
      if leb l 255
      then put_byte l (start block)
      else (do k ← put_byte 1 (start block); add_short l k)
  k ← put_byte (sn_message_type m) k
  k ← sn_encode_body m l k
  ok (contents k)

-- A length of -1 is no size for malloc, and what it returns is written to.
abbrev malloc_size : Outcome ℕ → Outcome ℕ
malloc_size (ok l) = ok l
malloc_size refused = fault
malloc_size fault = fault

unfoldable pub sn_encode_and_fire : (ℕ → Bytes) → SnMessage → Outcome Bytes
sn_encode_and_fire malloc m = do
  l ← malloc_size (sn_get_length m)
  buf ← sn_encode m l (malloc l)
  slice buf 0 l
