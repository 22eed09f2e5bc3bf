-- ===== src/Mqtt/Wire/Stores.antt =====
-- The encoders as a single store each.
use iotbroker_cloud_c_client.Base.{
  ℕ, ◌%◌, ◌<◌, ◌≡◌, refl, sym, arith, List, [], ◌∷◌, ◌++◌, some, ◌>>=◌, >>=-ok, Bytes, All, Cursor,
  write, write-nil, poke, write-write, write-write_lem, write-write_last, write_unless, length,
  append_assoc, take-length,
}
use iotbroker_cloud_c_client.Helpers.{short_bytes, add_short}
use iotbroker_cloud_c_client.Helpers.Length.{length_bytes, add_packet_length}
use iotbroker_cloud_c_client.Mqtt.Packets.{Topic, Publish, Unsubscribe}
use iotbroker_cloud_c_client.Mqtt.Encode.{
  put_string, put_nonempty, publish_first_byte, encode_publish, encode_ack, encode_unsubscribe,
  encode_filters, encode_subscribe, encode_topics,
}
use iotbroker_cloud_c_client.Mqtt.Wire.Format.{wire_string, publish_body, filters, unsubscribe_body}
use native.Mathlib.Nat.{mod-eq_of_lt}

pub put_string-write :
    (s : Bytes) (k : Cursor) → length s < 65536 → put_string s k ≡ write (wire_string s) k
unfolding put_string add_short
put_string-write s k h =
    rw (mod-eq_of_lt h, take-length s) (write-write_lem (short_bytes (length s)) s k)

pub put_nonempty-write :
    (s : Bytes) (k : Cursor)
    → 0 < length s
    → length s < 65536
    → put_nonempty s k ≡ write (wire_string s) k
unfolding put_nonempty
put_nonempty-write s k pos h = ground (arith, put_string-write s k h)

-- PUBLISH with its fields set.
pub encode_publish-write :
    (p : Publish) (l : ℕ) (k : Cursor) {id : ℕ} {content : Bytes}
    → p.packet_id ≡ some id
    → p.content ≡ some content
    → 0 < length p.topic.topic_name
    → length p.topic.topic_name < 65536
    → encode_publish p l k
      ≡ write
          ((publish_first_byte p % 256) ∷ length_bytes 5 l
            ++ publish_body p.topic.topic_name id content)
          k
unfolding encode_publish add_packet_length add_short
encode_publish-write p l k {id} {content} ei ec pos short =
    simp (ei, ec, put_nonempty-write _ _ pos short, write_unless, write-write, append_assoc)
      (write-write_last _ content k (simp append_assoc))

-- PUBACK, PUBREC, PUBREL, PUBCOMP.
pub encode_ack-write :
    (first n l : ℕ) (k : Cursor)
    → encode_ack first n l k ≡ write ((first % 256) ∷ (l % 256) ∷ short_bytes n) k
unfolding encode_ack add_short
encode_ack-write first n l k = simp write-write (write-write_last _ (short_bytes n) k refl)

abbrev pub IsFilter : Topic → Type 0
IsFilter t = (0 < length t.topic_name) × (length t.topic_name < 65536)

-- SUBSCRIBE to one topic: the QoS stands behind the text, and the index in front of it.
pub encode_subscribe-write :
    (n l : ℕ) (t : Topic) (k : Cursor)
    → IsFilter t
    → encode_subscribe (record { topics = t ∷ []; packet_id = n }) l k ≡ (
        write (0x82 ∷ length_bytes 5 l ++ (short_bytes n ++ wire_string t.topic_name)) k
        >>= poke (t.qos % 256))
unfolding encode_subscribe encode_topics add_packet_length add_short
encode_subscribe-write n l t k h = simp (put_nonempty-write _ _ h.0 h.1, write-write, >>=-ok)

encode_filters-write :
    (ts : List Topic) (k : Cursor) → All IsFilter ts → encode_filters ts k ≡ write (filters ts) k
unfolding encode_filters
encode_filters-write [] k h = sym (write-nil k)
encode_filters-write (t ∷ ts) k h =
    simp (put_nonempty-write _ _ h.0.0 h.0.1, λ (k' : Cursor). encode_filters-write ts k' h.1)
      (write-write_last _ (filters ts) k refl)

pub encode_unsubscribe-write :
    (u : Unsubscribe) (l : ℕ) (k : Cursor)
    → All IsFilter u.topics
    → encode_unsubscribe u l k
      ≡ write (0xa2 ∷ length_bytes 5 l ++ unsubscribe_body u.packet_id u.topics) k
unfolding encode_unsubscribe add_packet_length add_short
encode_unsubscribe-write u l k h =
    simp (write-write, encode_filters-write _ _ h)
      (write-write_last _ (filters u.topics) k (simp append_assoc))
