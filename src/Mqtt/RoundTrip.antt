-- ===== src/Mqtt/RoundTrip.antt =====
-- What the client sends is read back by its own decoder, and the packets of a broker are read as
-- what they mean.
use iotbroker_cloud_c_client.Base.{
  ℕ, ◌+◌, ◌%◌, ◌^◌, ◌<◌, ◌≡◌, refl, ◌∙◌, arith, [], ◌++◌, some, Bool, false, ◌&&◌, if◌then◌else◌,
  ◌==◌, ok, Bytes, All, length, length-append, append_assoc,
}
use iotbroker_cloud_c_client.Mqtt.Wire.Stores.{IsFilter}
use iotbroker_cloud_c_client.Helpers.{short_bytes}
use iotbroker_cloud_c_client.Helpers.Length.{length_bytes}
use iotbroker_cloud_c_client.Mqtt.Packets.{Publish, publish, received}
use iotbroker_cloud_c_client.Mqtt.Decode.{IsText, decode_publish, decode_type, decode}
use iotbroker_cloud_c_client.Mqtt.Fire.{encode_and_fire}
use iotbroker_cloud_c_client.Mqtt.Fire.Sent.{Wire, wire_publish, encode_and_fire-Wire}
use iotbroker_cloud_c_client.Mqtt.Wire.Format.{frame, publish_body}
use iotbroker_cloud_c_client.Mqtt.Wire.Parsed.{
  decode-frame, publish_first, first_fields, incoming_publish, decode_publish-eq, drop-framed,
  remaining-framed, sent_id,
}

-- PUBLISH as `send_publish` makes it: the id is 0 at QoS 0.
abbrev pub outgoing_publish : Bytes → ℕ → Bool → Bool → ℕ → Bytes → Publish
outgoing_publish topic_name qos dup retain id content = record {
  topic = record { topic_name = topic_name; qos = qos };
  content = some content;
  retain = retain;
  dup = dup;
  packet_id = some (if qos == 0 then 0 else id);
}

-- The messages that can be published: texts that are C strings, a QoS of 0, 1 or 2, an id that is
-- not 0 where one is sent, and no mark of a second delivery at QoS 0.
pub record IsPublishable (topic_name : Bytes) (qos : ℕ) (dup : Bool) (id : ℕ) (content : Bytes)
    : Type 0 where
  pub topic_text : IsText topic_name
  pub topic_filled : 0 < length topic_name
  pub content_text : All (λ b. 0 < b) content
  pub qos_valid : qos < 3
  pub dup_valid : (dup && qos == 0) ≡ false
  pub id_set : 0 < qos → 0 < id
  pub id_short : id < 65536
  pub body_short : length (publish_body topic_name (if qos == 0 then 0 else id) content) < 2 ^ 28

body_size :
    (t content : Bytes) (qos id : ℕ)
    → (0 < qos → 0 < id)
    → length (publish_body t (if qos == 0 then 0 else id) content)
      ≡ 2 + length t + (if qos == 0 then 0 else 2) + length content
body_size t content qos id h =
    rw (sent_id qos id h)
      (ground (arith, length-append t ((if qos == 0 then [] else short_bytes id) ++ content)))

decode_type-publish :
    (header : ℕ) (buf : Bytes) {p : Publish}
    → decode_publish header buf ≡ ok p
    → decode_type 3 header buf ≡ ok (received (publish p))
unfolding decode_type
decode_type-publish header buf e = rw e

body-rest :
    (t content rest : Bytes) (qos id : ℕ)
    → (0 < qos → 0 < id)
    → publish_body t (if qos == 0 then 0 else id) content ++ rest
      ≡ short_bytes (length t)
        ++ (t ++ ((if qos == 0 then [] else short_bytes id) ++ (content ++ rest)))
body-rest t content rest qos id h = rw (sent_id qos id h) (simp append_assoc)

-- PUBLISH on the wire, with any bytes behind it.
pub decode-publish_frame :
    (t : Bytes) (qos : ℕ) (dup retain : Bool) (id : ℕ) (content rest : Bytes)
    → IsPublishable t qos dup id content
    → decode (
        frame (publish_first dup qos retain) (publish_body t (if qos == 0 then 0 else id) content)
        ++ rest)
      ≡ ok (received (publish (incoming_publish t qos dup retain id content)))
decode-publish_frame t qos dup retain id content rest p =
    let body : Bytes = publish_body t (if qos == 0 then 0 else id) content in
    let first = publish_first dup qos retain in
    let buf : Bytes = frame first body ++ rest in
    let n = length (length_bytes 5 (length body)) in
    let fields = first_fields dup retain qos p.qos_valid in
    decode-frame first body rest
    ∙ rw (fields.0) (
        decode_type-publish (first % 16) buf (
          decode_publish-eq buf (first % 16) n (1 + n + length body) qos id dup retain t content
            rest (remaining-framed first body rest p.body_short) fields.1 fields.2 fields.3
            p.qos_valid p.dup_valid p.topic_text p.content_text p.id_short
            (drop-framed first body rest ∙ body-rest t content rest qos id p.id_set)
            (omega (arith, body_size t content qos id p.id_set))))

outgoing-Wire :
    (t : Bytes) (qos : ℕ) (dup retain : Bool) (id : ℕ) (content : Bytes)
    → IsPublishable t qos dup id content
    → Wire
        (publish (outgoing_publish t qos dup retain id content))
        (publish_first dup qos retain)
        (publish_body t (if qos == 0 then 0 else id) content)
outgoing-Wire t qos dup retain id content p =
    let sent = outgoing_publish t qos dup retain id content in
    let filter : IsFilter sent.topic = (p.topic_filled, omega (arith, p.topic_text)) in
    wire_publish sent (if qos == 0 then 0 else id) content refl refl filter p.qos_valid

pub encode_and_fire-publish :
    (malloc : ℕ → Bytes) (t : Bytes) (qos : ℕ) (dup retain : Bool) (id : ℕ) (content : Bytes)
    → ((n : ℕ) → length (malloc n) ≡ n)
    → IsPublishable t qos dup id content
    → encode_and_fire malloc (publish (outgoing_publish t qos dup retain id content))
      ≡ ok (
          frame
            (publish_first dup qos retain)
            (publish_body t (if qos == 0 then 0 else id) content))
encode_and_fire-publish malloc t qos dup retain id content fresh p =
    encode_and_fire-Wire malloc fresh (outgoing-Wire t qos dup retain id content p) p.body_short

-- What the client sends for a PUBLISH is read back by `decode`, whatever stands behind it, as the same
-- message, except that the id is not set at QoS 0 and an empty content is not set. The conditions:
-- malloc returns blocks of the size that is asked for; topic and content hold no zero byte; the topic
-- has 1 to 65535 bytes, the body less than 2 ^ 28; the QoS is 0, 1 or 2, and at 0 the mark of a second
-- delivery is not set; the id is below 65536, and from QoS 1 on not 0.
pub decode-encode_and_fire :
    (malloc : ℕ → Bytes) (t : Bytes) (qos : ℕ) (dup retain : Bool) (id : ℕ) (content : Bytes)
    → ((n : ℕ) → length (malloc n) ≡ n)
    → IsPublishable t qos dup id content
    → (sent : Bytes) × (encode_and_fire malloc
          (publish (outgoing_publish t qos dup retain id content))
        ≡ ok sent)
      × ((rest : Bytes)
          → decode (sent ++ rest)
            ≡ ok (received (publish (incoming_publish t qos dup retain id content))))
decode-encode_and_fire malloc t qos dup retain id content fresh p = (
  _,
  encode_and_fire-publish malloc t qos dup retain id content fresh p,
  λ rest. decode-publish_frame t qos dup retain id content rest p,
)
