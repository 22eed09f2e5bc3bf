-- ===== src/Mqtt/Fire/Sent.antt =====
-- What `encode_and_fire` sends, against the wire format.
use iotbroker_cloud_c_client.Base.{
  ℕ, ◌+◌, ◌*◌, ◌%◌, ◌^◌, ◌≤◌, ◌<◌, ◌≡◌, refl, ap, ◌∙◌, arith, List, [], ◌∷◌, ◌++◌, some, ok, Bytes,
  Cursor, start, All, write, write-start, write-poke, length, length-append, drop, slice-eq,
  append_assoc, if◌then◌else◌, ◌==◌,
}
use native.Mathlib.Nat.{mod-eq_of_lt}
use iotbroker_cloud_c_client.Helpers.{short_bytes}
use iotbroker_cloud_c_client.Helpers.Length.{length_bytes, length-length_bytes}
use iotbroker_cloud_c_client.Mqtt.Packets.{
  Topic, Connect, Publish, Unsubscribe, Message, connect, publish, puback, pubrec, pubrel, pubcomp,
  subscribe, unsubscribe,
}
use iotbroker_cloud_c_client.Mqtt.Size.{get_length, will_length, topics_length, optional_size}
use iotbroker_cloud_c_client.Mqtt.Encode.{
  content_flags, publish_first_byte, encode, encode_into, encode_ack,
}
use iotbroker_cloud_c_client.Mqtt.Wire.Format.{
  frame, wire_string, optional_string, publish_body, subscribe_body, unsubscribe_body, connect_body,
  filters,
}
use iotbroker_cloud_c_client.Mqtt.Wire.Frame.{decode_remaining_length-length_bytes}
use iotbroker_cloud_c_client.Mqtt.Wire.Parsed.{publish_first, first-lt}
use iotbroker_cloud_c_client.Mqtt.Wire.Stores.{
  encode_publish-write, encode_ack-write, IsFilter, encode_subscribe-write,
  encode_unsubscribe-write,
}
use iotbroker_cloud_c_client.Mqtt.Wire.Opening.{WillWire, no_will, with_will, encode_connect-write}
use iotbroker_cloud_c_client.Mqtt.Fire.{encode_and_fire}

-- The content flags of CONNECT as MQTT 3.1.1 has them: user name 0x80, password 0x40, retain of the
-- will 0x20, its QoS from 0x08 on, will 0x04, clean session 0x02.
abbrev pub connect_flags : Connect → Bytes → Bytes → ℕ
connect_flags c username password =
    (if length username == 0 then 0 else 0x80)
    + (if length password == 0 then 0 else 0x40)
    + (if c.will_flag then (if c.will.retain then 0x20 else 0) + c.will.qos * 8 + 0x04 else 0)
    + (if c.clean_session then 0x02 else 0)

-- The messages that the client sends, each with the packet that MQTT asks for: the first byte and
-- the body. The texts of the fields are C strings of at most 65535 bytes, filters and topics not
-- empty. An account has both a user name and a password, or neither: with one of them alone the code
-- sets the flag of the other.
pub data Wire : Message → ℕ → Bytes → Type 0 where
  wire_connect :
      (c : Connect) (w username password : Bytes)
      → c.username ≡ some username
      → c.password ≡ some password
      → length c.client_id < 65536
      → length username < 65536
      → length password < 65536
      → (length username == 0) ≡ (length password == 0)
      → c.will.qos < 3
      → WillWire c w
      → Wire (connect c) 0x10 (
          connect_body
            (connect_flags c username password)
            c.keepalive
            c.client_id
            w
            username
            password)
  wire_publish :
      (p : Publish) (id : ℕ) (content : Bytes)
      → p.packet_id ≡ some id
      → p.content ≡ some content
      → IsFilter p.topic
      → p.topic.qos < 3
      → Wire
          (publish p)
          (publish_first p.dup p.topic.qos p.retain)
          (publish_body p.topic.topic_name id content)
  wire_puback : (n : ℕ) → Wire (puback n) 0x40 (short_bytes n)
  wire_pubrec : (n : ℕ) → Wire (pubrec n) 0x50 (short_bytes n)
  wire_pubrel : (n : ℕ) → Wire (pubrel n) 0x62 (short_bytes n)
  wire_pubcomp : (n : ℕ) → Wire (pubcomp n) 0x70 (short_bytes n)
  wire_subscribe :
      (n : ℕ) (t : Topic)
      → IsFilter t
      → t.qos < 256
      → Wire (subscribe (record { topics = t ∷ []; packet_id = n })) 0x82 (subscribe_body n t)
  wire_unsubscribe :
      (u : Unsubscribe)
      → All IsFilter u.topics
      → Wire (unsubscribe u) 0xa2 (unsubscribe_body u.packet_id u.topics)

optional_size-string : (s : Bytes) → optional_size s ≡ length (optional_string s)
optional_size-string s = ground arith

length-filters : (ts : List Topic) → topics_length 2 ts ≡ length (filters ts)
length-filters [] = refl
length-filters (t ∷ ts) =
    omega (arith, length-filters ts, length-append {0} t.topic_name (filters ts))

will_length-WillWire : (c : Connect) (w : Bytes) → WillWire c w → will_length c ≡ ok (length w)
unfolding will_length
will_length-WillWire c w (no_will e ew) = rw (e, ew)
will_length-WillWire c w (with_will t s e et es t0 t1 s0 s1 ew) =
    rw (e, et, es, ew) (ap ok (omega (arith, length-append {0} t (wire_string s))))

publish_size :
    (topic_name : Bytes) (id : ℕ) (content : Bytes)
    → (if id == 0 then 0 else 2) + (length topic_name + 2) + length content
      ≡ length (publish_body topic_name id content)
publish_size topic_name id content =
    ground (arith, length-append topic_name ((if id == 0 then [] else short_bytes id) ++ content))

-- `get_length` is the length of the body.
pub get_length-Wire :
    {m : Message} {first : ℕ} {body : Bytes} → Wire m first body → get_length m ≡ ok (length body)
unfolding get_length
get_length-Wire (wire_connect c w username password eu ep hc hu hp both hq will) =
    rw (will_length-WillWire c w will, eu, ep)
      (ap ok (
        omega (
          arith,
          length-append {0} c.client_id
              (w ++ (optional_string username ++ optional_string password)),
          length-append {0} w (optional_string username ++ optional_string password),
          length-append {0} (optional_string username) (optional_string password),
          optional_size-string username,
          optional_size-string password,
        )))
get_length-Wire (wire_publish p id content ei ec h hq) =
    rw (ei, ec) (ap ok (publish_size p.topic.topic_name id content))
get_length-Wire (wire_puback n) = refl
get_length-Wire (wire_pubrec n) = refl
get_length-Wire (wire_pubrel n) = refl
get_length-Wire (wire_pubcomp n) = refl
get_length-Wire (wire_subscribe n t h q) =
    ap ok (omega (arith, length-append {0} t.topic_name (t.qos ∷ [])))
get_length-Wire (wire_unsubscribe u h) = ap ok (omega (arith, length-filters u.topics))

frame-fits :
    (first : ℕ) (body block : Bytes)
    → length body < 2 ^ 28
    → length block ≡ length body + 5
    → length (frame first body) ≤ length block
unfolding frame
frame-fits first body block h e = omega (
  arith,
  length-append {0} (length_bytes 5 (length body)) body,
  length-length_bytes (length body) h,
)

-- An encoder that is a store of the frame leaves the frame in front of the rest of its block.
store-frame :
    (m : Message) (first : ℕ) (body block : Bytes)
    → encode_into m (length body) (start block) ≡ write (frame first body) (start block)
    → length body < 2 ^ 28
    → length block ≡ length body + 5
    → encode m (length body) block ≡ ok (frame first body ++ drop (length (frame first body)) block)
unfolding encode
store-frame m first body block e h hb =
    rw e (write-start (frame first body) block (frame-fits first body block h hb))

encode_ack-frame :
    (first n : ℕ) (k : Cursor)
    → encode_ack first n 2 k ≡ write (frame (first % 256) (short_bytes n)) k
unfolding frame length_bytes
encode_ack-frame first n k = encode_ack-write first n 2 k

encode_subscribe-frame :
    (n : ℕ) (t : Topic) (block : Bytes)
    → IsFilter t
    → t.qos < 256
    → length (subscribe_body n t) < 2 ^ 28
    → length block ≡ length (subscribe_body n t) + 5
    → (rest : Bytes) × (encode
          (subscribe (record { topics = t ∷ []; packet_id = n }))
          (length (subscribe_body n t))
          block
        ≡ ok (frame 0x82 (subscribe_body n t) ++ rest))
unfolding encode frame
encode_subscribe-frame n t block ht q h hb =
    let l = length (subscribe_body n t) in
    let front : Bytes = short_bytes n ++ wire_string t.topic_name in
    let xs : Bytes = 0x82 ∷ length_bytes 5 l ++ front in
    let fits : length xs < length block = omega (
      arith,
      length-append {0} (length_bytes 5 l) front,
      length-append {0} t.topic_name (t.qos ∷ []),
      length-length_bytes l h,
    ) in
    (
      drop 1 (drop (length xs) block),
      rw (encode_subscribe-write n l t (start block) ht, mod-eq_of_lt q)
          (write-poke xs t.qos block fits ∙ ap ok (simp append_assoc)),
    )

content_flags-eq :
    (c : Connect) (username password : Bytes)
    → (length username == 0) ≡ (length password == 0)
    → c.will.qos < 3
    → content_flags c username password % 256 ≡ connect_flags c username password
unfolding content_flags
content_flags-eq c username password both hq = ground (arith, both)

first_byte :
    (p : Publish)
    → p.topic.qos < 3
    → publish_first_byte p % 256 ≡ publish_first p.dup p.topic.qos p.retain
first_byte p h = mod-eq_of_lt (first-lt p.dup p.retain p.topic.qos h)

-- The block that `encode` returns starts with the frame.
encode-Wire :
    {m : Message} {first : ℕ} {body : Bytes} (block : Bytes)
    → Wire m first body
    → length body < 2 ^ 28
    → length block ≡ length body + 5
    → (rest : Bytes) × (encode m (length body) block ≡ ok (frame first body ++ rest))
unfolding encode_into frame
encode-Wire block (wire_connect c w username password eu ep hc hu hp both hq will) h hb =
    let flags = connect_flags c username password in
    let body = connect_body flags c.keepalive c.client_id w username password in
    let stored = rw (content_flags-eq c username password both hq) at (
      encode_connect-write c (length body) w username password (start block) eu ep hc hu hp will) in
    (drop (length (frame 0x10 body)) block, store-frame (connect c) 0x10 body block stored h hb)
encode-Wire block (wire_publish p id content ei ec t hq) h hb = (
  _,
  store-frame (publish p) (publish_first p.dup p.topic.qos p.retain)
      (publish_body p.topic.topic_name id content) block
      (rw (first_byte p hq) at (
        encode_publish-write p (length (publish_body p.topic.topic_name id content)) (start block)
          ei ec t.0 t.1))
      h hb,
)
encode-Wire block (wire_puback n) h hb =
    (_, store-frame (puback n) 0x40 (short_bytes n) block (encode_ack-frame 0x40 n _) h hb)
encode-Wire block (wire_pubrec n) h hb =
    (_, store-frame (pubrec n) 0x50 (short_bytes n) block (encode_ack-frame 0x50 n _) h hb)
encode-Wire block (wire_pubrel n) h hb =
    (_, store-frame (pubrel n) 0x62 (short_bytes n) block (encode_ack-frame 0x62 n _) h hb)
encode-Wire block (wire_pubcomp n) h hb =
    (_, store-frame (pubcomp n) 0x70 (short_bytes n) block (encode_ack-frame 0x70 n _) h hb)
encode-Wire block (wire_subscribe n t ht q) h hb = encode_subscribe-frame n t block ht q h hb
encode-Wire block (wire_unsubscribe u ts) h hb =
    (_, store-frame _ _ _ block (encode_unsubscribe-write u _ _ ts) h hb)

-- A packet that `encode` leaves at the start of its block goes out, and nothing behind it.
encode_and_fire-frame :
    (malloc : ℕ → Bytes) (m : Message) (first : ℕ) (body rest : Bytes)
    → get_length m ≡ ok (length body)
    → length body < 2 ^ 28
    → encode m (length body) (malloc (length body + 5)) ≡ ok (frame first body ++ rest)
    → encode_and_fire malloc m ≡ ok (frame first body)
unfolding encode_and_fire frame
encode_and_fire-frame malloc m first body rest el h e =
    rw
      (
        el,
        e,
        append_assoc (length_bytes 5 (length body)) body rest,
        decode_remaining_length-length_bytes first (length body) (body ++ rest) h,
      )
      (slice-eq _ 0 (first ∷ length_bytes 5 (length body) ++ body) rest _
        (omega (arith, length-append {0} (length_bytes 5 (length body)) body)) (simp append_assoc))

-- `encode_and_fire` sends the packet that MQTT lays down for the message: the first byte, the length
-- of the body and the body, with nothing of what the block held before. The message is a CONNECT, a
-- PUBLISH, one of its four acknowledgements, a SUBSCRIBE to one topic or an UNSUBSCRIBE. The
-- conditions: malloc returns blocks of the size that is asked for; the body is below 2 ^ 28 bytes;
-- texts have less than 65536 bytes, and topics and filters are not empty; in a CONNECT user name and
-- password are both there or both not, and the QoS of the will is below 3, and a will has a topic
-- and a content, both not empty; in a PUBLISH id and content are set and the QoS is below 3, in a
-- SUBSCRIBE below 256.
pub encode_and_fire-Wire :
    (malloc : ℕ → Bytes) {m : Message} {first : ℕ} {body : Bytes}
    → ((n : ℕ) → length (malloc n) ≡ n)
    → Wire m first body
    → length body < 2 ^ 28
    → encode_and_fire malloc m ≡ ok (frame first body)
encode_and_fire-Wire malloc {m} {first} {body} fresh w h =
    let (rest, e) = encode-Wire (malloc (length body + 5)) w h (fresh (length body + 5)) in
    encode_and_fire-frame malloc m first body rest (get_length-Wire w) h e
