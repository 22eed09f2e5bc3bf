-- ===== src/Mqtt/Wire/Parsed.antt =====
-- `decode` on the packets of the wire format.
use iotbroker_cloud_c_client.Base.{
  ℕ, ◌+◌, ◌*◌, ◌-◌, ◌/◌, ◌%◌, ◌^◌, ◌<◌, ◌≡◌, inl, inr, refl, arith, [], ◌∷◌, ◌++◌, Option, some,
  none, Bool, true, false, if◌then◌else◌, ◌==◌, ok, Bytes, All, length, drop, drop-next₂, drop-past,
  slice-eq, byte_at, append_assoc, Bool-cases, le→leb, ◌&&◌,
}
use iotbroker_cloud_c_client.Helpers.{short_bytes, get_short-short_bytes}
use iotbroker_cloud_c_client.Helpers.Length.{length_bytes}
use iotbroker_cloud_c_client.Mqtt.Packets.{Topic, Publish}
use iotbroker_cloud_c_client.Mqtt.Encode.{bit}
use iotbroker_cloud_c_client.Mqtt.Remaining.{details, decode_remaining_length}
use iotbroker_cloud_c_client.Mqtt.Decode.{
  IsText, c_string-text, string_at-eq, drop-string, decode_content, decode_payload, decode_publish,
  decode_type, decode,
}
use iotbroker_cloud_c_client.Mqtt.Wire.Format.{frame}
use iotbroker_cloud_c_client.Mqtt.Wire.Frame.{decode_remaining_length-length_bytes}

-- The fields of the first byte of a PUBLISH packet.
abbrev pub publish_first : Bool → ℕ → Bool → ℕ
publish_first dup qos retain = 0x30 + bit dup 0x08 + qos * 2 + bit retain 0x01

pub first_fields :
    (dup retain : Bool) (qos : ℕ)
    → qos < 3
    → let f = publish_first dup qos retain in
      (f / 16 % 16 ≡ 3)
      × (f % 16 % 8 / 2 ≡ qos)
      × ((f % 16 / 8 % 2 == 1) ≡ dup)
      × ((f % 16 % 2 == 1) ≡ retain)
first_fields true true qos h = ground arith
first_fields true false qos h = ground arith
first_fields false true qos h = ground arith
first_fields false false qos h = ground arith

-- What stays unset where there is nothing.
abbrev pub unless_empty : Bytes → Option Bytes
unless_empty s = if length s == 0 then none else some s

-- The packet as `decode` hands it on: there is no id at QoS 0, and no content if it is empty.
abbrev pub incoming_publish : Bytes → ℕ → Bool → Bool → ℕ → Bytes → Publish
incoming_publish topic_name qos dup retain id content = record {
  topic = record { topic_name = topic_name; qos = qos };
  content = unless_empty content;
  retain = retain;
  dup = dup;
  packet_id = if qos == 0 then none else some id;
}

decode_content-eq :
    (buf : Bytes) (n l i : ℕ) (content rest : Bytes)
    → All (λ b. 0 < b) content
    → drop i buf ≡ content ++ rest
    → l ≡ i + length content
    → decode_content buf (details n l) i ≡ ok (unless_empty content)
unfolding decode_content
decode_content-eq buf n l i [] rest hc e el = ground arith
decode_content-eq buf n l i (b ∷ content) rest hc e el =
    let left : l - i ≡ length (b ∷ content) = omega arith in
    rw
      (
        left,
        slice-eq buf i (b ∷ content) rest (length (b ∷ content)) refl e,
        c_string-text (b ∷ content) hc,
      )
      (ground arith)

decode_payload-eq :
    (buf : Bytes) (n l i : ℕ) (t : Topic) (header id : ℕ) (content rest : Bytes)
    → All (λ b. 0 < b) content
    → id < 65536
    → drop i buf ≡ (if t.qos == 0 then [] else short_bytes id) ++ (content ++ rest)
    → l ≡ i + (if t.qos == 0 then 0 else 2) + length content
    → decode_payload buf (details n l) i t header
      ≡ ok (record {
        topic = t;
        content = unless_empty content;
        retain = header % 2 == 1;
        dup = header / 8 % 2 == 1;
        packet_id = if t.qos == 0 then none else some id;
      })
unfolding decode_payload
decode_payload-eq buf n l i t header id content rest hc hid e el = elim (Bool-cases (t.qos == 0)) [
  | inl z ↦
      let el' : l ≡ i + 0 + length content = rw z at el in
      rw (z, decode_content-eq buf n l i content rest hc (rw z at e) (omega arith))
  | inr nz ↦
      let e' : drop i buf ≡ short_bytes id ++ (content ++ rest) = rw nz at e in
      let el' : l ≡ i + 2 + length content = rw nz at el in
      rw (
        nz,
        get_short-short_bytes buf i id {rest = content ++ rest} hid e',
        decode_content-eq buf n l (i + 2) content rest hc (drop-next₂ buf i e') el',
      )
]

-- PUBLISH in any buffer, from its index behind the length field on.
pub decode_publish-eq :
    (buf : Bytes) (header n l qos id : ℕ) (dup retain : Bool) (topic_name content rest : Bytes)
    → decode_remaining_length buf ≡ ok (details n l)
    → header % 8 / 2 ≡ qos
    → (header / 8 % 2 == 1) ≡ dup
    → (header % 2 == 1) ≡ retain
    → qos < 3
    → (dup && qos == 0) ≡ false
    → IsText topic_name
    → All (λ b. 0 < b) content
    → id < 65536
    → drop (1 + n) buf
      ≡ short_bytes (length topic_name)
        ++ (topic_name ++ ((if qos == 0 then [] else short_bytes id) ++ (content ++ rest)))
    → l ≡ 1 + n + 2 + length topic_name + (if qos == 0 then 0 else 2) + length content
    → decode_publish header buf ≡ ok (incoming_publish topic_name qos dup retain id content)
unfolding decode_publish
decode_publish-eq buf header n l qos id dup retain t content rest er eq ed ew hq hd ht hc hid e el =
    rw (er, eq, ed, le→leb qos 2 (omega arith), hd, string_at-eq buf (1 + n) t _ ht e)
      (rw (
        decode_payload-eq buf n l (1 + n + 2 + length t) (record { topic_name = t; qos = qos })
            header id content rest hc hid (drop-string buf (1 + n) t _ e) el,
        ed,
        ew,
      ))

-- The index behind the length field, and what stands there.
pub drop-framed :
    (first : ℕ) (body rest : Bytes)
    → drop (1 + length (length_bytes 5 (length body))) (frame first body ++ rest) ≡ body ++ rest
unfolding frame
drop-framed first body rest = rw append_assoc (
    drop-past (first ∷ length_bytes 5 (length body) ++ (body ++ rest)) 1
      (length_bytes 5 (length body)) (body ++ rest) _ refl refl)

pub remaining-framed :
    (first : ℕ) (body rest : Bytes)
    → length body < 2 ^ 28
    → let n = length (length_bytes 5 (length body)) in
      decode_remaining_length (frame first body ++ rest) ≡ ok (details n (1 + n + length body))
unfolding frame
remaining-framed first body rest h =
    rw append_assoc (decode_remaining_length-length_bytes first (length body) (body ++ rest) h)

-- The id of a packet that goes out, and its place in the body.
pub sent_id :
    (qos id : ℕ)
    → (0 < qos → 0 < id)
    → (if (if qos == 0 then 0 else id) == 0 then [] else short_bytes (if qos == 0 then 0 else id))
      ≡ (if qos == 0 then [] else short_bytes id)
sent_id qos id h = ground arith

-- `decode` on a frame takes its case by the first byte.
pub decode-frame :
    (first : ℕ) (body rest : Bytes)
    → decode (frame first body ++ rest)
      ≡ decode_type (first / 16 % 16) (first % 16) (frame first body ++ rest)
unfolding decode frame byte_at
decode-frame first body rest = refl

pub first-lt : (dup retain : Bool) (qos : ℕ) → qos < 3 → publish_first dup qos retain < 256
first-lt true true qos h = omega arith
first-lt true false qos h = omega arith
first-lt false true qos h = omega arith
first-lt false false qos h = omega arith
