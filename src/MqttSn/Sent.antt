-- ===== src/MqttSn/Sent.antt =====
-- What `sn_encode_and_fire` sends, against the format of MQTT-SN.
mod Sizes
use iotbroker_cloud_c_client.Base.{
  ℕ, suc, ◌+◌, ◌%◌, ◌≤◌, ◌<◌, ◌≡◌, refl, sym, ap, ◌∙◌, arith, Bool, true, false, Bool-cases, inl,
  inr, none, some, [], ◌∷◌, ◌++◌, if◌then◌else◌, ltb, leb, Outcome, ok, refused, fault, ◌>>=◌,
  Bytes, Cursor, start, contents, write, store, store-contents, write-nil, write-write,
  write-write_lem, write-write_last, write-fits, length, length-append, append_assoc, take-length,
  drop, slice-eq,
}
use native.Mathlib.Nat.{mod-eq_of_lt}
use iotbroker_cloud_c_client.Helpers.{short_bytes, add_short}
use iotbroker_cloud_c_client.MqttSn.Packets.{SnMessage, sn_message_type}
use iotbroker_cloud_c_client.MqttSn.Flags.{encode_flags}
use iotbroker_cloud_c_client.MqttSn.Size.{sn_get_length}
use iotbroker_cloud_c_client.MqttSn.Encode.{
  text_bytes, put_text, sn_encode_body, sn_encode, sn_encode_and_fire,
}
use iotbroker_cloud_c_client.MqttSn.Wire.{
  sn_header, sn_frame, sn_flags, SnWire, wire_connect, wire_will_topic, wire_will_msg,
  wire_register, wire_regack, wire_publish, wire_puback, wire_pubcomp, wire_pubrec, wire_pubrel,
  wire_subscribe_id, wire_subscribe_name, wire_unsubscribe_id, wire_unsubscribe_name, wire_pingreq,
  wire_disconnect,
}
use Sizes.{packet_size, sn_message_type-SnWire, sn_get_length-SnWire}

abbrev final : Outcome Cursor → Outcome Bytes
final r = r >>= λ k. ok (contents k)

text_bytes-eq : (s : Bytes) → length s < 65536 → text_bytes s ≡ s
text_bytes-eq s h = rw (mod-eq_of_lt h) (take-length s)

pub encode_flags-eq :
    (dup retain will clean : Bool) (qos topic_type : ℕ)
    → qos < 4
    → topic_type < 3
    → encode_flags dup (some qos) retain will clean (some topic_type)
      ≡ sn_flags dup qos retain will clean topic_type
unfolding encode_flags
encode_flags-eq dup retain will clean qos topic_type hq ht = mod-eq_of_lt (ground arith)

sn_flags-lt :
    (dup retain will clean : Bool) (qos topic_type : ℕ)
    → qos < 4
    → topic_type < 3
    → sn_flags dup qos retain will clean topic_type % 256
      ≡ sn_flags dup qos retain will clean topic_type
sn_flags-lt dup retain will clean qos topic_type hq ht = mod-eq_of_lt (ground arith)

-- A store that leaves the index where it is, at the end.
final-store : (bs : Bytes) (r : Outcome Cursor) → final (r >>= store bs) ≡ final (r >>= write bs)
final-store bs (ok k) = store-contents bs k
final-store bs refused = refl
final-store bs fault = refl

flags_byte :
    (dup retain will clean : Bool) (qos topic_type : ℕ)
    → qos < 4
    → topic_type < 3
    → encode_flags dup (some qos) retain will clean (some topic_type) % 256
      ≡ sn_flags dup qos retain will clean topic_type
flags_byte dup retain will clean qos topic_type hq ht =
    rw (encode_flags-eq dup retain will clean qos topic_type hq ht)
      (sn_flags-lt dup retain will clean qos topic_type hq ht)

-- A QoS and a kind of topic that are NULL are 0.
encode_flags-none :
    (dup retain will clean : Bool) (qos topic_type : ℕ)
    → (encode_flags dup none retain will clean none
        ≡ encode_flags dup (some 0) retain will clean (some 0))
      × (encode_flags dup (some qos) retain will clean none
          ≡ encode_flags dup (some qos) retain will clean (some 0))
      × (encode_flags dup none retain will clean (some topic_type)
          ≡ encode_flags dup (some 0) retain will clean (some topic_type))
unfolding encode_flags
encode_flags-none dup retain will clean qos topic_type = (refl, refl, refl)

ping_text :
    (k : Cursor) (s : Bytes)
    → text_bytes s ≡ s
    → (if ltb 2 (packet_size (length s)) then put_text (some s) k else ok k) ≡ write s k
ping_text k [] e = sym (write-nil k)
ping_text k (b ∷ s) e =
    let long : ltb 2 (packet_size (suc (length s))) ≡ true = ground arith in simp (long, e)

disconnect_duration :
    (k : Cursor) (d : ℕ)
    → (if ltb 2 (packet_size (length (if ltb 0 d then short_bytes d else [])))
        then add_short d k
        else ok k)
      ≡ write (if ltb 0 d then short_bytes d else []) k
unfolding add_short
disconnect_duration k d = elim (Bool-cases (ltb 0 d)) [
  | inl pos ↦ rw pos
  | inr zero_duration ↦ rw zero_duration (sym (write-nil k))
]

-- The body of a packet of `l` bytes is written by the switch as one text.
sn_encode_body-SnWire :
    {m : SnMessage} {type : ℕ} {body : Bytes} (k : Cursor)
    → SnWire m type body
    → final (sn_encode_body m (packet_size (length body)) k) ≡ final (write body k)
unfolding sn_encode_body add_short
sn_encode_body-SnWire k (wire_connect c s e ep h) =
    let none_flags = (encode_flags-none false false c.will_present c.clean_session 0 0).0 in
    let flags =
      flags_byte false false c.will_present c.clean_session 0 0 (omega arith) (omega arith) in
    let text = text_bytes-eq s (omega arith) in
    ap final (
      simp (none_flags, flags, e, ep, text, write-write)
        (write-write_last _ s k (simp append_assoc)))
sn_encode_body-SnWire k (wire_will_topic r t s e hq hs) =
    let none_flags = (encode_flags-none false r false false t.qos 0).1 in
    let flags = flags_byte false r false false t.qos 0 hq (omega arith) in
    ap final (simp (none_flags, flags, e, text_bytes-eq s hs) (write-write_last _ s k refl))
sn_encode_body-SnWire k (wire_will_msg s h) = ap final (simp (text_bytes-eq s h))
sn_encode_body-SnWire k (wire_register t m s h) =
    ap final (simp (text_bytes-eq s h, write-write) (write-write_last _ s k (simp append_assoc)))
sn_encode_body-SnWire k (wire_regack t m c h) =
    ap final
      (simp (mod-eq_of_lt h, write-write) (write-write_last _ (c ∷ []) k (simp append_assoc)))
sn_encode_body-SnWire k (wire_publish p id qos s (et, ei, eq) hq e h) =
    let flags = flags_byte p.dup p.retain false false qos 1 hq (omega arith) in
    ap final (
      simp (et, ei, eq, flags, e, text_bytes-eq s h, write-write)
        (write-write_last _ s k (simp append_assoc)))
sn_encode_body-SnWire k (wire_puback t m c h) =
    simp (mod-eq_of_lt h, write-write)
      (final-store (c ∷ []) (write (short_bytes t ++ short_bytes m) k)
        ∙ ap final (write-write_last (short_bytes t ++ short_bytes m) (c ∷ []) k refl))
sn_encode_body-SnWire k (wire_pubcomp n) = refl
sn_encode_body-SnWire k (wire_pubrec n) = refl
sn_encode_body-SnWire k (wire_pubrel n) = refl
sn_encode_body-SnWire k (wire_subscribe_id s id qos (et, ei, eq) hq) =
    let flags = flags_byte s.dup false false false qos 1 hq (omega arith) in
    ap final (
      simp (et, ei, eq, flags, write-write)
        (write-write_last _ (short_bytes id) k (simp append_assoc)))
sn_encode_body-SnWire k (wire_subscribe_name s n qos (et, ei, eq) hq h) =
    let flags = flags_byte s.dup false false false qos 0 hq (omega arith) in
    ap final (
      simp (et, ei, eq, flags, text_bytes-eq n h, write-write)
        (write-write_last _ n k (simp append_assoc)))
sn_encode_body-SnWire k (wire_unsubscribe_id u id qos (et, ei, eq)) =
    ap final
      (simp (et, ei, write-write) (write-write_last _ (short_bytes id) k (simp append_assoc)))
sn_encode_body-SnWire k (wire_unsubscribe_name u n qos (et, ei, eq) h) =
    ap final
      (simp (et, ei, text_bytes-eq n h, write-write) (write-write_last _ n k (simp append_assoc)))
sn_encode_body-SnWire k (wire_pingreq s h) =
    ap final (ping_text k s (text_bytes-eq s (omega arith)))
sn_encode_body-SnWire k (wire_disconnect d) = ap final (disconnect_duration k d)

packet_size-header : (type n : ℕ) → n < 65532 → packet_size n ≡ length (sn_header type n) + n
packet_size-header type n h = ground arith

-- The length field and the type.
sn_encode-header :
    (m : SnMessage) (type n : ℕ) (block : Bytes)
    → n < 65532
    → sn_message_type m ≡ type
    → type < 256
    → sn_encode m (packet_size n) block ≡ (
        write (sn_header type n) (start block) >>= λ k.
        sn_encode_body m (packet_size n) k >>= λ k. ok (contents k))
unfolding sn_encode add_short
sn_encode-header m type n block h et ht = elim (Bool-cases (leb n 253)) [
  | inl short ↦
      let field : leb (n + 2) 255 ≡ true = ground arith in
      let small : (n + 2) % 256 ≡ n + 2 = ground arith in
      rw (et, short, field, small, mod-eq_of_lt ht) (simp write-write)
  | inr long ↦
      let field : leb (n + 4) 255 ≡ false = ground arith in
      rw (et, long, field, mod-eq_of_lt ht) (simp (write-write_lem, write-write))
]

-- The block that `sn_encode` returns is the packet, and nothing else.
sn_encode-SnWire :
    {m : SnMessage} {type : ℕ} {body : Bytes} (block : Bytes)
    → SnWire m type body
    → length body < 65532
    → length block ≡ packet_size (length body)
    → (rest : Bytes) × (sn_encode m (packet_size (length body)) block
        ≡ ok (sn_frame type body ++ rest))
unfolding sn_frame
sn_encode-SnWire {m} {type} {body} block w h hb =
    let (et, ht) = sn_message_type-SnWire w in
    let head = sn_header type (length body) in
    let room : length (head ++ body) ≤ length block =
      omega (arith, length-append head body, packet_size-header type (length body) h) in
    let bodies : (k : Cursor)
        → final (sn_encode_body m (packet_size (length body)) k) ≡ final (write body k) =
      λ k. sn_encode_body-SnWire k w in
    (
      drop (length (head ++ body)) block,
      sn_encode-header m type (length body) block h et ht
          ∙ simp (bodies, write-write) (rw (write-fits (head ++ body) (start block) room)),
    )

-- `sn_encode_and_fire` sends the packet that MQTT-SN lays down for the message, with the length field
-- of one byte or of three as its size asks: the length of the whole packet, the type and the body, with
-- nothing of what the block held before. The message is a CONNECT, WILLTOPIC, WILLMSG, REGISTER, REGACK,
-- PUBLISH with a topic id, PUBACK, PUBCOMP, PUBREC, PUBREL, SUBSCRIBE or UNSUBSCRIBE to an id or a name,
-- PINGREQ or DISCONNECT. The conditions: malloc returns blocks of the size that is asked for; the body
-- is below 65532 bytes; the client id has less than 250 bytes in a CONNECT and less than 254 in a
-- PINGREQ; the protocol id of a CONNECT is 1; a QoS has two bits and a return code eight.
pub sn_encode_and_fire-SnWire :
    (malloc : ℕ → Bytes) {m : SnMessage} {type : ℕ} {body : Bytes}
    → ((n : ℕ) → length (malloc n) ≡ n)
    → SnWire m type body
    → length body < 65532
    → sn_encode_and_fire malloc m ≡ ok (sn_frame type body)
unfolding sn_encode_and_fire
sn_encode_and_fire-SnWire malloc {m} {type} {body} fresh w h =
    let l = packet_size (length body) in
    let (rest, e) = sn_encode-SnWire (malloc l) w h (fresh l) in
    let size : l ≡ length (sn_frame type body) =
      unfold sn_frame in
      (packet_size-header type (length body) h
        ∙ sym (length-append (sn_header type (length body)) body)) in
    rw (sn_get_length-SnWire w, e) (slice-eq _ 0 (sn_frame type body) rest l (sym size) refl)
