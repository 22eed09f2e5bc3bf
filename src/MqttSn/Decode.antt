-- ===== src/MqttSn/Decode.antt =====
-- src/mqttsn/sn_parser.c, `sn_decode`. What it prints is left out, but for the one print that reads
-- what may not be set.
use iotbroker_cloud_c_client.Base.{
  ℕ, ◌+◌, ◌-◌, ◌^◌, false, Option, none, some, if◌then◌else◌, ltb, leb, ◌==◌, Outcome, ok, fault,
  ◌>>=◌, ◌>>◌, require, Bytes, byte_at, slice,
}
use iotbroker_cloud_c_client.Helpers.{get_short}
use iotbroker_cloud_c_client.Mqtt.Decode.{c_string}
use iotbroker_cloud_c_client.MqttSn.Packets.{
  SnTopic, SnMessage, sn_advertise, sn_searchgw, sn_gwinfo, sn_connect, sn_connack,
  sn_will_topic_req, sn_will_topic, sn_will_msg_req, sn_will_msg, sn_register, sn_regack,
  sn_publish, sn_puback, sn_pubcomp, sn_pubrec, sn_pubrel, sn_suback, sn_unsuback, sn_pingreq,
  sn_pingresp, sn_disconnect, sn_will_topic_upd, sn_will_topic_resp, sn_will_msg_upd,
  sn_will_msg_resp,
}
use iotbroker_cloud_c_client.MqttSn.Flags.{decode_flag}

-- A message with its packet, or a type that has no case and leaves the packet unset. A `char` is
-- signed, so SN_ENCAPSULATED is read as a negative type, which has none.
pub data SnDecoded : Type 0 where
  received : SnMessage → SnDecoded
  incomplete : ℕ → SnDecoded

-- A signed char as the 32 bits of an enum.
abbrev pub char_bits : ℕ → ℕ
char_bits b = if ltb b 128 then b else b + (2 ^ 32 - 256)

-- `get_string(&buf[i], bytes_left)`, where `bytes_left` is `l - used`: below 0 it is an enormous size
-- for memcpy.
unfoldable pub get_string : Bytes → ℕ → ℕ → ℕ → Outcome Bytes
get_string buf i used l = do
  require (leb used l)
  bytes ← slice buf i (l - used)
  ok (c_string bytes)

-- The length and the index behind it. A negative length, that of a byte from 128 on, is below every
-- index as 0 is.
unfoldable pub decode_length : Bytes → Outcome (ℕ × ℕ)
decode_length buf = do
  first ← byte_at buf 0
  (if first == 1
      then (do l ← get_short buf 1; ok (l, 3))
      else ok (if ltb first 128 then first else 0, 1))

module _ (buf : Bytes) (i l : ℕ) where
  -- `i` is the index behind the type.
  unfoldable pub decode_connect : Outcome SnMessage
  decode_connect = do
    flags_byte ← byte_at buf i
    let flags = decode_flag flags_byte
    protocol_id ← byte_at buf (i + 1)
    duration ← get_short buf (i + 2)
    client_id ← get_string buf (i + 4) (i + 4) l
    ok (
        sn_connect (record {
          will_present = flags.will;
          clean_session = flags.clean_session;
          protocol_id = protocol_id;
          duration = duration;
          client_id = some client_id;
        }))

  -- The flags are read, the index is moved, and the bytes left are not counted down; then they are
  -- read again, from the next byte.
  unfoldable pub decode_will_topic : Outcome SnMessage
  decode_will_topic = do
    first ← byte_at buf i
    (if ltb i l
        then (do
          flags_byte ← byte_at buf (i + 1)
          let flags = decode_flag flags_byte
          value ← get_string buf (i + 2) (i + 1) l
          let topic : SnTopic = record {
            id = none;
            value = some value;
            qos = flags.qos;
            topic_type = none;
          }
          ok (sn_will_topic (record { retain = flags.retain; topic = some topic })))
        else ok (sn_will_topic (record { retain = (decode_flag first).retain; topic = none })))

  unfoldable pub decode_register : Outcome SnMessage
  decode_register = do
    topic_id ← get_short buf i
    msg_id ← get_short buf (i + 2)
    topic_name ← get_string buf (i + 4) (i + 4) l
    ok (sn_register (record { topic_id = topic_id; msg_id = msg_id; topic_name = some topic_name }))

  -- The content is printed, and is not set where there is none. The value of a topic
  -- that is sent as a short name points to a local array, of which nothing is left, and the id is not
  -- set then.
  unfoldable pub decode_publish : Outcome SnMessage
  decode_publish = do
    flags_byte ← byte_at buf i
    let flags = decode_flag flags_byte
    topic_id ← get_short buf (i + 1)
    message_id ← get_short buf (i + 3)
    require (ltb (i + 5) l)
    content ← get_string buf (i + 5) (i + 5) l
    let topic : SnTopic = record {
      id = if flags.topic_type == 2 then none else some topic_id;
      value = none;
      qos = flags.qos;
      topic_type = none;
    }
    ok (
        sn_publish (record {
          message_id = message_id;
          topic = topic;
          data_text = some content;
          dup = flags.dup;
          retain = flags.retain;
          is_incoming = none;
        }))

  -- REGACK and PUBACK
  unfoldable pub decode_ids_and_code : (ℕ → ℕ → ℕ → SnMessage) → Outcome SnMessage
  decode_ids_and_code f = do
    topic_id ← get_short buf i
    message_id ← get_short buf (i + 2)
    code ← byte_at buf (i + 4)
    ok (f topic_id message_id (char_bits code))

  -- PUBREC, PUBREL, PUBCOMP and UNSUBACK
  unfoldable pub decode_id : (ℕ → SnMessage) → Outcome SnMessage
  decode_id f = do message_id ← get_short buf i; ok (f message_id)

  unfoldable pub decode_suback : Outcome SnMessage
  decode_suback = do
    flags_byte ← byte_at buf i
    topic_id ← get_short buf (i + 1)
    message_id ← get_short buf (i + 3)
    code ← byte_at buf (i + 5)
    ok (
        sn_suback (record {
          topic_id = topic_id;
          message_id = message_id;
          code = char_bits code;
          allowed_qos = (decode_flag flags_byte).qos;
        }))

  unfoldable pub decode_code : (ℕ → SnMessage) → Outcome SnMessage
  decode_code f = do code ← byte_at buf i; ok (f (char_bits code))

  unfoldable pub decode_gwinfo : Outcome SnMessage
  decode_gwinfo = do
    gw_id ← byte_at buf i
    gw_address ← get_string buf (i + 1) (i + 1) l
    ok (sn_gwinfo gw_id (some gw_address))

  unfoldable pub decode_text : (Option Bytes → SnMessage) → Outcome SnMessage
  decode_text f = do text ← get_string buf i i l; ok (f (some text))

  unfoldable pub decode_pingreq : Outcome SnMessage
  decode_pingreq = if ltb i l then decode_text sn_pingreq else ok (sn_pingreq none)

  unfoldable pub decode_disconnect : Outcome SnMessage
  decode_disconnect = if ltb i l then decode_id sn_disconnect else ok (sn_disconnect 0)

  -- The topic is NULL, and its QoS is stored.
  unfoldable pub decode_will_topic_upd : Outcome SnMessage
  decode_will_topic_upd =
      if ltb i l then fault else ok (sn_will_topic_upd (record { retain = false; topic = none }))

  unfoldable pub decode_advertise : Outcome SnMessage
  decode_advertise = do
    gw_id ← byte_at buf i
    duration ← get_short buf (i + 1)
    ok (sn_advertise gw_id duration)

  -- SUBSCRIBE and UNSUBSCRIBE: `topic` is a pointer that nothing has set, and is stored through.
  unfoldable pub decode_unset_topic : Outcome SnMessage
  decode_unset_topic = do flags_byte ← byte_at buf i; fault

  abbrev complete : Outcome SnMessage → Outcome SnDecoded
  complete r = do m ← r; ok (received m)

  -- The switch over the type.
  unfoldable pub sn_decode_type : ℕ → Outcome SnDecoded
  sn_decode_type type =
      if type == 0x00
      then complete decode_advertise
      else if type == 0x01
      then complete (decode_code sn_searchgw)
      else if type == 0x02
      then complete decode_gwinfo
      else if type == 0x04
      then complete decode_connect
      else if type == 0x05
      then complete (decode_code sn_connack)
      else if type == 0x06
      then ok (received sn_will_topic_req)
      else if type == 0x07
      then complete decode_will_topic
      else if type == 0x08
      then ok (received sn_will_msg_req)
      else if type == 0x09
      then complete (decode_text sn_will_msg)
      else if type == 0x0a
      then complete decode_register
      else if type == 0x0b
      then complete (
          decode_ids_and_code
            λ t m c. sn_regack (record { topic_id = t; message_id = m; code = c }))
      else if type == 0x0c
      then complete decode_publish
      else if type == 0x0d
      then complete (
          decode_ids_and_code
            λ t m c. sn_puback (record { topic_id = t; message_id = m; code = c }))
      else if type == 0x0e
      then complete (decode_id sn_pubcomp)
      else if type == 0x0f
      then complete (decode_id sn_pubrec)
      else if type == 0x10
      then complete (decode_id sn_pubrel)
      else if type == 0x12
      then complete decode_unset_topic
      else if type == 0x13
      then complete decode_suback
      else if type == 0x14
      then complete decode_unset_topic
      else if type == 0x15
      then complete (decode_id sn_unsuback)
      else if type == 0x16
      then complete decode_pingreq
      else if type == 0x17
      then ok (received sn_pingresp)
      else if type == 0x18
      then complete decode_disconnect
      else if type == 0x1a
      then complete decode_will_topic_upd
      else if type == 0x1b
      then complete (decode_code sn_will_topic_resp)
      else if type == 0x1c
      then complete (decode_text sn_will_msg_upd)
      else if type == 0x1d
      then complete (decode_code sn_will_msg_resp)
      else ok (incomplete type)

unfoldable pub sn_decode : Bytes → Outcome SnDecoded
sn_decode buf = do
  (l, i) ← decode_length buf
  type ← byte_at buf i
  sn_decode_type buf (i + 1) l type
