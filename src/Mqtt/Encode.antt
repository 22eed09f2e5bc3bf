-- ===== src/Mqtt/Encode.antt =====
-- src/mqtt/parser.c, `encode`. The block that malloc returns, with whatever it holds, is an
-- argument; what was stored and what was not are both in the result.
use iotbroker_cloud_c_client.Base.{
  ℕ, ◌+◌, ◌*◌, ◌%◌, Bool, not, List, [], ◌∷◌, if◌then◌else◌, ◌==◌, Outcome, ok, ◌>>=◌, deref, Bytes,
  Cursor, contents, start, write, poke, length, take,
}
use iotbroker_cloud_c_client.Helpers.{add_short}
use iotbroker_cloud_c_client.Helpers.Length.{add_packet_length}
use iotbroker_cloud_c_client.Mqtt.Packets.{
  Topic, Connect, Connack, Publish, Subscribe, Suback, Unsubscribe, Message, connect, connack,
  publish, puback, pubrec, pubrel, pubcomp, subscribe, suback, unsubscribe, unsuback, pingreq,
  pingresp, disconnect,
}

-- `buf[i++] = b`
abbrev pub put : ℕ → Cursor → Outcome Cursor
put b = write ((b % 256) ∷ [])

-- `string_length = strlen(s)` is an unsigned short.
abbrev pub string_length : Bytes → ℕ
string_length s = length s % 65536

-- The two length bytes and the text.
unfoldable pub put_string : Bytes → Cursor → Outcome Cursor
put_string s c = do c ← add_short (string_length s) c; write (take (string_length s) s) c

-- Under `if (string_length != 0)`.
unfoldable pub put_nonempty : Bytes → Cursor → Outcome Cursor
put_nonempty s c = if string_length s == 0 then ok c else put_string s c

abbrev pub protocol_name : Bytes
protocol_name = b'M' ∷ b'Q' ∷ b'T' ∷ b'T' ∷ []

abbrev pub bit : Bool → ℕ → ℕ
bit b weight = if b then weight else 0

-- `contentFlags`; the bit 0x40 stands for the user name and 0x80 for the password.
unfoldable pub content_flags : Connect → Bytes → Bytes → ℕ
content_flags c username password =
    bit c.clean_session 0x02
    + (if c.will_flag then 0x04 + c.will.qos * 8 + bit c.will.retain 0x20 else 0)
    + bit (not (length username == 0)) 0x40
    + bit (not (length password == 0)) 0x80

unfoldable pub put_will : Connect → Cursor → Outcome Cursor
put_will c k =
    if c.will_flag
    then (do
      topic_name ← deref c.will.topic_name
      k ← put_nonempty topic_name k
      content ← deref c.will.content
      put_nonempty content k)
    else ok k

unfoldable pub encode_connect : Connect → ℕ → Cursor → Outcome Cursor
encode_connect c l k = do
  k ← put 0x10 k
  k ← add_packet_length l k
  k ← put 0 k
  k ← put 4 k
  k ← write protocol_name k
  k ← put 4 k
  username ← deref c.username
  password ← deref c.password
  k ← put (content_flags c username password) k
  k ← add_short c.keepalive k
  k ← put_string c.client_id k
  k ← put_will c k
  k ← put_nonempty username k
  put_nonempty password k

unfoldable pub encode_connack : Connack → Cursor → Outcome Cursor
encode_connack c k = do
  k ← put 0x20 k
  k ← put 2 k
  k ← put c.session_present k
  put c.return_code k

abbrev pub publish_first_byte : Publish → ℕ
publish_first_byte p = 0x30 + bit p.dup 0x08 + p.topic.qos * 2 + bit p.retain 0x01

unfoldable pub encode_publish : Publish → ℕ → Cursor → Outcome Cursor
encode_publish p l k = do
  k ← put (publish_first_byte p) k
  k ← add_packet_length l k
  k ← put_nonempty p.topic.topic_name k
  packet_id ← deref p.packet_id
  k ← if packet_id == 0 then ok k else add_short packet_id k
  content ← deref p.content
  write content k

-- PUBACK, PUBREC, PUBREL and PUBCOMP, which differ in their first byte.
unfoldable pub encode_ack : ℕ → ℕ → ℕ → Cursor → Outcome Cursor
encode_ack first packet_id l k = do k ← put first k; k ← put l k; add_short packet_id k

-- The store of the QoS leaves the index where it is.
unfoldable pub encode_topics : List Topic → Cursor → Outcome Cursor
encode_topics [] k = ok k
encode_topics (t ∷ ts) k = do
  k ← put_nonempty t.topic_name k
  k ← poke (t.qos % 256) k
  encode_topics ts k

unfoldable pub encode_subscribe : Subscribe → ℕ → Cursor → Outcome Cursor
encode_subscribe s l k = do
  k ← put 0x82 k
  k ← add_packet_length l k
  k ← add_short s.packet_id k
  encode_topics s.topics k

-- No length field is written.
unfoldable pub encode_suback : Suback → Cursor → Outcome Cursor
encode_suback s k = do k ← put 0x90 k; k ← add_short s.packet_id k; write s.codes k

unfoldable pub encode_filters : List Topic → Cursor → Outcome Cursor
encode_filters [] k = ok k
encode_filters (t ∷ ts) k = do k ← put_nonempty t.topic_name k; encode_filters ts k

unfoldable pub encode_unsubscribe : Unsubscribe → ℕ → Cursor → Outcome Cursor
encode_unsubscribe u l k = do
  k ← put 0xa2 k
  k ← add_packet_length l k
  k ← add_short u.packet_id k
  encode_filters u.topics k

unfoldable pub encode_unsuback : ℕ → ℕ → Cursor → Outcome Cursor
encode_unsuback packet_id l k = do k ← put 0xb0 k; k ← add_packet_length l k; add_short packet_id k

-- PINGREQ, PINGRESP and DISCONNECT, with the bit 0x2 in the first byte.
unfoldable pub encode_empty : ℕ → Cursor → Outcome Cursor
encode_empty first k = do k ← put first k; poke 0 k

unfoldable pub encode_into : Message → ℕ → Cursor → Outcome Cursor
encode_into (connect c) l k = encode_connect c l k
encode_into (connack c) l k = encode_connack c k
encode_into (publish p) l k = encode_publish p l k
encode_into (puback n) l k = encode_ack 0x40 n l k
encode_into (pubrec n) l k = encode_ack 0x50 n l k
encode_into (pubrel n) l k = encode_ack 0x62 n l k
encode_into (pubcomp n) l k = encode_ack 0x70 n l k
encode_into (subscribe s) l k = encode_subscribe s l k
encode_into (suback s) l k = encode_suback s k
encode_into (unsubscribe u) l k = encode_unsubscribe u l k
encode_into (unsuback n) l k = encode_unsuback n l k
encode_into pingreq l k = encode_empty 0xc2 k
encode_into pingresp l k = encode_empty 0xd2 k
encode_into disconnect l k = encode_empty 0xe2 k

-- `block` is what `malloc(length + 5)` returned.
unfoldable pub encode : Message → ℕ → Bytes → Outcome Bytes
unfolding encode_into
encode m l block = do k ← encode_into m l (start block); ok (contents k)
