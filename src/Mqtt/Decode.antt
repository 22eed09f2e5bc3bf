-- ===== src/Mqtt/Decode.antt =====
-- src/mqtt/parser.c, `decode`. A string that is copied out of the buffer is read as a C string
-- from then on, so it ends at its first zero. The local arrays of `decode` are taken to have a byte
-- behind their declared size for the terminator that the code stores there, or that strcmp reads.
mod Text
mod Opening
unfoldable pub use Text.*
pub use Opening.{decode_connect}
use iotbroker_cloud_c_client.Base.{
  ℕ, zero, suc, ◌+◌, ◌-◌, ◌*◌, ◌/◌, ◌%◌, not, ◌&&◌, ◌||◌, Option, none, some, List, [], ◌∷◌,
  if◌then◌else◌, ltb, leb, ◌==◌, Outcome, ok, refused, fault, ◌>>=◌, ◌>>◌, check, require, Bytes,
  byte_at, slice, length,
}
use iotbroker_cloud_c_client.Helpers.{get_short}
use iotbroker_cloud_c_client.Mqtt.Packets.{
  Topic, Connect, Connack, Publish, Subscribe, Suback, Unsubscribe, Message, MessageType, Decoded,
  connect, connack, publish, puback, pubrec, pubrel, pubcomp, subscribe, suback, unsubscribe,
  unsuback, pingreq, pingresp, disconnect, connect_type, connack_type, publish_type, puback_type,
  pubrec_type, pubrel_type, pubcomp_type, subscribe_type, suback_type, unsubscribe_type,
  unsuback_type, pingreq_type, pingresp_type, disconnect_type, received, dangling, incomplete,
  unknown,
}
use iotbroker_cloud_c_client.Mqtt.Remaining.{
  LengthDetails, next_index, bytes_left, decode_remaining_length,
}

unfoldable pub decode_connack : Bytes → Outcome Connack
decode_connack buf = do
  session_present ← byte_at buf 2
  check (session_present == 0 || session_present == 1)
  return_code ← byte_at buf 3
  check (leb return_code 5)
  ok (record { session_present = session_present; return_code = return_code })

-- The content is what the packet still holds, and is not set where that is nothing.
unfoldable pub decode_content : Bytes → LengthDetails → ℕ → Outcome (Option Bytes)
decode_content buf d i =
    if ltb 0 (bytes_left d i)
    then (do bytes ← slice buf i (bytes_left d i); ok (some (c_string bytes)))
    else ok none

-- What follows the topic: the packet id, and the content if there is any. Without them their
-- fields stay as malloc left them.
unfoldable pub decode_payload : Bytes → LengthDetails → ℕ → Topic → ℕ → Outcome Publish
decode_payload buf d i topic header = do
  (packet_id, i) ←
      if topic.qos == 0 then ok (none, i) else (do n ← get_short buf i; ok (some n, i + 2))
  content ← decode_content buf d i
  ok (record {
    topic = topic;
    content = content;
    retain = header % 2 == 1;
    dup = header / 8 % 2 == 1;
    packet_id = packet_id;
  })

-- `header` is `fixedHeader & 0xf`.
unfoldable pub decode_publish : ℕ → Bytes → Outcome Publish
decode_publish header buf = do
  d ← decode_remaining_length buf
  let i = next_index d
  let qos = header % 8 / 2
  check (leb qos 2)
  check (not (header / 8 % 2 == 1 && qos == 0))
  (topic_name, i) ← string_at buf i
  decode_payload buf d i (record { topic_name = topic_name; qos = qos }) header

-- The acknowledgements: the id stands behind the first two bytes, whatever the length says.
unfoldable pub decode_ack : Bytes → Outcome ℕ
decode_ack buf = get_short buf 2

-- One round of the loop over the filters. The array `s.topics` that the filter is stored in is a
-- pointer that nothing has set.
unfoldable pub decode_filter : Bytes → ℕ → Outcome Subscribe
unfolding string_at
decode_filter buf i = do
  (topic_filter, i) ← string_at buf i
  qos ← byte_at buf i
  check (leb qos 2)
  fault

unfoldable pub decode_subscribe : Bytes → Outcome Subscribe
unfolding decode_filter
decode_subscribe buf = do
  d ← decode_remaining_length buf
  let i = next_index d
  packet_id ← get_short buf i
  let i = i + 2
  (if ltb i (bytes_left d i)
      then decode_filter buf i
      else ok (record { topics = []; packet_id = packet_id }))

-- `abs(buf[i++])` of a signed char
abbrev pub abs_char : ℕ → ℕ
abs_char b = if ltb b 128 then b else 256 - b

unfoldable pub decode_codes : Bytes → ℕ → ℕ → Outcome (List ℕ)
decode_codes buf i zero = ok []
decode_codes buf i (suc n) = do
  b ← byte_at buf i
  let code = abs_char b
  check (code == 128 || leb code 2)
  codes ← decode_codes buf (i + 1) n
  ok (code ∷ codes)

unfoldable pub decode_suback : Bytes → Outcome Suback
unfolding decode_codes
decode_suback buf = do
  d ← decode_remaining_length buf
  let i = next_index d
  packet_id ← get_short buf i
  let i = i + 2
  codes ← decode_codes buf i (bytes_left d i)
  check (not (length codes == 0))
  ok (record { packet_id = packet_id; codes = codes })

-- `us.topics` is not set either, so the first topic that is stored is a fault. Nothing is refused
-- before that: `utf8_check` returns NULL on every string.
unfoldable pub decode_unsubscribe : Bytes → Outcome Unsubscribe
unfolding string_at
decode_unsubscribe buf = do
  d ← decode_remaining_length buf
  let i = next_index d
  packet_id ← get_short buf i
  let i = i + 2
  check (ltb i (bytes_left d i))
  topic ← string_at buf i
  fault

-- `m->packet = packet; return m`, and the early `return m` with the packet not set
abbrev pub on_heap {ℓ} : {A : Type ℓ} → MessageType → (A → Message) → Outcome A → Outcome Decoded
on_heap t f (ok a) = ok (received (f a))
on_heap t f refused = ok (incomplete t)
on_heap t f fault = fault

-- The same with `m->packet = &c` for a local variable.
abbrev pub on_stack {ℓ} : {A : Type ℓ} → MessageType → (A → Message) → Outcome A → Outcome Decoded
on_stack t f (ok a) = ok (dangling (f a))
on_stack t f refused = ok (incomplete t)
on_stack t f fault = fault

-- The switch over the type, the high half of the first byte. 0 and 15 have no case.
unfoldable pub decode_type : ℕ → ℕ → Bytes → Outcome Decoded
decode_type type header buf =
    if type == 1
    then on_stack connect_type connect (decode_connect buf)
    else if type == 2
    then on_heap connack_type connack (decode_connack buf)
    else if type == 3
    then on_heap publish_type publish (decode_publish header buf)
    else if type == 4
    then on_heap puback_type puback (decode_ack buf)
    else if type == 5
    then on_heap pubrec_type pubrec (decode_ack buf)
    else if type == 6
    then on_heap pubrel_type pubrel (decode_ack buf)
    else if type == 7
    then on_heap pubcomp_type pubcomp (decode_ack buf)
    else if type == 8
    then on_stack subscribe_type subscribe (decode_subscribe buf)
    else if type == 9
    then on_heap suback_type suback (decode_suback buf)
    else if type == 10
    then on_stack unsubscribe_type unsubscribe (decode_unsubscribe buf)
    else if type == 11
    then on_heap unsuback_type unsuback (decode_ack buf)
    else if type == 12
    then ok (received pingreq)
    else if type == 13
    then ok (received pingresp)
    else if type == 14
    then ok (received disconnect)
    else ok unknown

unfoldable pub decode : Bytes → Outcome Decoded
decode buf = do
  fixed_header ← byte_at buf 0
  decode_type (fixed_header / 16 % 16) (fixed_header % 16) buf
