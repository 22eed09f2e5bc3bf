-- ===== src/MqttSn/Gateway.antt =====
-- `sn_decode` on what a gateway sends.
mod Bodies
pub use Bodies.{IsText}
use Bodies.{
  decode_code-eq, decode_id-eq, decode_ids_and_code-eq, decode_suback-eq, decode_register-eq,
  decode_publish-eq, decode_disconnect-eq, decode_disconnect-nil,
}
use iotbroker_cloud_c_client.Base.{
  ℕ, zero, suc, ◌+◌, ◌-◌, ◌*◌, ◌/◌, ◌%◌, ◌^◌, ◌≤◌, ◌<◌, ◌≡◌, ◌⊎◌, inl, inr, refl, ap, sym, ◌∙◌,
  arith, Bool, true, false, Bool-cases, Option, none, some, List, [], ◌∷◌, ◌++◌, if◌then◌else◌, ltb,
  leb, ◌==◌, le→leb, lt→ltb, Outcome, ok, ◌>>=◌, ◌>>◌, require, Bytes, All, length, length-append,
  append_assoc, drop, drop-append, drop-next, drop-next₂, drop-past, byte_at, byte_at-eq, slice,
  slice-eq,
}
use iotbroker_cloud_c_client.Helpers.{short_bytes, short_value, get_short, get_short-short_bytes}
use iotbroker_cloud_c_client.Mqtt.Decode.{c_string, c_string-text}
use iotbroker_cloud_c_client.MqttSn.Packets.{
  SnTopic, SnRegister, SnRegAck, SnPublish, SnPuback, SnSuback, SnMessage, sn_connack,
  sn_will_topic_req, sn_will_msg_req, sn_register, sn_regack, sn_publish, sn_puback, sn_pubcomp,
  sn_pubrec, sn_pubrel, sn_suback, sn_unsuback, sn_pingresp, sn_disconnect,
}
use iotbroker_cloud_c_client.MqttSn.Flags.{
  ValidFlags, decode_flag, flag_fields, decode_flag-encode_flags,
}
use iotbroker_cloud_c_client.MqttSn.Decode.{
  SnDecoded, received, char_bits, get_string, decode_length, decode_register, decode_publish,
  decode_ids_and_code, decode_id, decode_suback, decode_code, decode_disconnect, sn_decode_type,
  sn_decode,
}
use iotbroker_cloud_c_client.MqttSn.Sent.{encode_flags-eq}
use iotbroker_cloud_c_client.MqttSn.Wire.{sn_header, sn_frame, sn_flags}

-- The sizes of a body with which a packet can be read: the length is a byte below 128, or a short.
abbrev pub IsReadable : ℕ → Type 0
IsReadable n = (n < 126) ⊎ ((253 < n) × (n + 4 < 65536))

-- Messages that a gateway sends to a client, with their type and their body. A return code is at most
-- 3, and a PUBLISH has a predefined id for its topic and a content.
pub data SnAnswer : SnMessage → ℕ → Bytes → Type 0 where
  connack_answer : (code : ℕ) → code < 4 → SnAnswer (sn_connack code) 0x05 (code ∷ [])
  will_topic_req_answer : SnAnswer sn_will_topic_req 0x06 []
  will_msg_req_answer : SnAnswer sn_will_msg_req 0x08 []
  register_answer :
      (topic_id msg_id : ℕ) (topic_name : Bytes)
      → topic_id < 65536
      → msg_id < 65536
      → IsText topic_name
      → SnAnswer
          (sn_register
            (record { topic_id = topic_id; msg_id = msg_id; topic_name = some topic_name }))
          0x0a
          (short_bytes topic_id ++ (short_bytes msg_id ++ topic_name))
  regack_answer :
      (topic_id message_id code : ℕ)
      → topic_id < 65536
      → message_id < 65536
      → code < 4
      → SnAnswer
          (sn_regack (record { topic_id = topic_id; message_id = message_id; code = code }))
          0x0b
          (short_bytes topic_id ++ (short_bytes message_id ++ code ∷ []))
  publish_answer :
      (dup retain : Bool) (qos id message_id b : ℕ) (content : Bytes)
      → qos < 4
      → id < 65536
      → message_id < 65536
      → IsText (b ∷ content)
      → SnAnswer
          (sn_publish (record {
            message_id = message_id;
            topic = record { id = some id; value = none; qos = qos; topic_type = none };
            data_text = some (b ∷ content);
            dup = dup;
            retain = retain;
            is_incoming = none;
          }))
          0x0c
          (sn_flags dup qos retain false false 1 ∷ short_bytes id
            ++ (short_bytes message_id ++ b ∷ content))
  puback_answer :
      (topic_id message_id code : ℕ)
      → topic_id < 65536
      → message_id < 65536
      → code < 4
      → SnAnswer
          (sn_puback (record { topic_id = topic_id; message_id = message_id; code = code }))
          0x0d
          (short_bytes topic_id ++ (short_bytes message_id ++ code ∷ []))
  pubcomp_answer : (n : ℕ) → n < 65536 → SnAnswer (sn_pubcomp n) 0x0e (short_bytes n)
  pubrec_answer : (n : ℕ) → n < 65536 → SnAnswer (sn_pubrec n) 0x0f (short_bytes n)
  pubrel_answer : (n : ℕ) → n < 65536 → SnAnswer (sn_pubrel n) 0x10 (short_bytes n)
  suback_answer :
      (qos topic_id message_id code : ℕ)
      → qos < 4
      → topic_id < 65536
      → message_id < 65536
      → code < 4
      → SnAnswer
          (sn_suback (record {
            topic_id = topic_id;
            message_id = message_id;
            code = code;
            allowed_qos = qos;
          }))
          0x13
          (sn_flags false qos false false false 0 ∷ short_bytes topic_id
            ++ (short_bytes message_id ++ code ∷ []))
  unsuback_answer : (n : ℕ) → n < 65536 → SnAnswer (sn_unsuback n) 0x15 (short_bytes n)
  pingresp_answer : SnAnswer sn_pingresp 0x17 []
  disconnect_answer : SnAnswer (sn_disconnect 0) 0x18 []
  sleep_answer :
      (duration : ℕ)
      → duration < 65536
      → SnAnswer (sn_disconnect duration) 0x18 (short_bytes duration)

-- A frame, from the index behind its type on.
sn_decode-frame :
    (type : ℕ) (body rest : Bytes)
    → IsReadable (length body)
    → sn_decode (sn_frame type body ++ rest)
      ≡ sn_decode_type
          (sn_frame type body ++ rest)
          (length (sn_header type (length body)))
          (length (sn_header type (length body)) + length body)
          type
unfolding sn_decode decode_length sn_frame byte_at get_short
sn_decode-frame type body rest (inl h) =
    let n = length body in
    let one_byte : leb n 253 ≡ true = ground arith in
    let not_long : (n + 2 == 1) ≡ false = ground arith in
    let positive : ltb (n + 2) 128 ≡ true = ground arith in
    let swap : n + 2 ≡ 2 + n = omega arith in
    rw (one_byte, not_long, positive)
      (ap (λ l. sn_decode_type ((n + 2) ∷ type ∷ body ++ rest) 2 l type) swap)
sn_decode-frame type body rest (inr h) =
    let n = length body in
    let three_bytes : leb n 253 ≡ false = ground arith in
    let swap : n + 4 ≡ 4 + n = omega arith in
    rw (three_bytes, short_value (n + 4) (omega arith))
      (ap (λ l. sn_decode_type (1 ∷ short_bytes (n + 4) ++ (type ∷ body ++ rest)) 4 l type) swap)

drop-header :
    (type : ℕ) (body rest : Bytes)
    → drop (length (sn_header type (length body))) (sn_frame type body ++ rest) ≡ body ++ rest
unfolding sn_frame
drop-header type body rest =
    ap (drop (length (sn_header type (length body))))
      (append_assoc (sn_header type (length body)) body rest)
    ∙ drop-append (sn_header type (length body)) (body ++ rest)

decode_type-SnAnswer :
    {m : SnMessage} {type : ℕ} {body : Bytes} (buf : Bytes) (i : ℕ) (rest : Bytes)
    → SnAnswer m type body
    → drop i buf ≡ body ++ rest
    → sn_decode_type buf i (i + length body) type ≡ ok (received m)
unfolding sn_decode_type
decode_type-SnAnswer buf i rest (connack_answer code h) e =
    rw (decode_code-eq buf i (i + 1) sn_connack code rest h e)
decode_type-SnAnswer buf i rest will_topic_req_answer e = refl
decode_type-SnAnswer buf i rest will_msg_req_answer e = refl
decode_type-SnAnswer buf i rest (register_answer t m name ht hm hs) e =
    let l = i + length (short_bytes t ++ (short_bytes m ++ name)) in
    let size : l ≡ i + (4 + length name) = omega arith in
    rw (decode_register-eq buf i l t m name rest ht hm hs (e ∙ simp append_assoc) size)
decode_type-SnAnswer buf i rest (regack_answer t m code ht hm hc) e =
    rw (decode_ids_and_code-eq buf i (i + 5) _ t m code rest ht hm hc e)
decode_type-SnAnswer buf i rest (publish_answer dup retain qos id m b content hq hi hm hs) e =
    let l =
      i
      + length (
          sn_flags dup qos retain false false 1 ∷ short_bytes id
          ++ (short_bytes m ++ b ∷ content)) in
    let size : l ≡ i + (6 + length content) = omega arith in
    rw (
      decode_publish-eq buf i l dup retain qos id m b content rest hq hi hm hs
        (e ∙ simp append_assoc) size)
decode_type-SnAnswer buf i rest (puback_answer t m code ht hm hc) e =
    rw (decode_ids_and_code-eq buf i (i + 5) _ t m code rest ht hm hc e)
decode_type-SnAnswer buf i rest (pubcomp_answer n h) e =
    rw (decode_id-eq buf i (i + 2) sn_pubcomp n rest h e)
decode_type-SnAnswer buf i rest (pubrec_answer n h) e =
    rw (decode_id-eq buf i (i + 2) sn_pubrec n rest h e)
decode_type-SnAnswer buf i rest (pubrel_answer n h) e =
    rw (decode_id-eq buf i (i + 2) sn_pubrel n rest h e)
decode_type-SnAnswer buf i rest (suback_answer qos t m code hq ht hm hc) e =
    rw (decode_suback-eq buf i (i + 6) qos t m code rest hq ht hm hc e)
decode_type-SnAnswer buf i rest (unsuback_answer n h) e =
    rw (decode_id-eq buf i (i + 2) sn_unsuback n rest h e)
decode_type-SnAnswer buf i rest pingresp_answer e = refl
decode_type-SnAnswer buf i rest disconnect_answer e = rw (decode_disconnect-nil buf i (i + 0) refl)
decode_type-SnAnswer buf i rest (sleep_answer d h) e =
    rw (decode_disconnect-eq buf i (i + 2) d rest h e refl)

-- `sn_decode` reads a packet of a gateway as the message that it stands for, whatever bytes stand behind
-- it. The packets: CONNACK, WILLTOPICREQ, WILLMSGREQ, REGISTER, REGACK, PUBLISH with a predefined topic id
-- (topic type 01), PUBACK, PUBCOMP, PUBREC, PUBREL, SUBACK, UNSUBACK, PINGRESP and DISCONNECT, with ids
-- below 65536, a return code of at most 3, and texts without a zero byte, the content of a PUBLISH not
-- empty. ADVERTISE, GWINFO and a PUBLISH with a normal id or a short name are not among them. The
-- condition is that the length field has one byte below 128, or three bytes with a length from 258 to
-- 65535.
pub sn_decode-SnAnswer :
    {m : SnMessage} {type : ℕ} {body : Bytes} (rest : Bytes)
    → SnAnswer m type body
    → IsReadable (length body)
    → sn_decode (sn_frame type body ++ rest) ≡ ok (received m)
sn_decode-SnAnswer {m} {type} {body} rest a readable =
    sn_decode-frame type body rest readable
    ∙ decode_type-SnAnswer (sn_frame type body ++ rest) (length (sn_header type (length body))) rest
        a (drop-header type body rest)
