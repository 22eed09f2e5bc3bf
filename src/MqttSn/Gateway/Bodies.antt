-- ===== src/MqttSn/Gateway/Bodies.antt =====
-- The bodies of the packets of a gateway, at any index of any buffer.
use iotbroker_cloud_c_client.Base.{
  ℕ, ◌+◌, ◌-◌, ◌<◌, ◌≡◌, refl, ap, sym, ◌∙◌, arith, Bool, true, false, none, some, ◌∷◌, ◌++◌, ltb,
  leb, ok, Bytes, All, length, drop, drop-next, drop-next₂, drop-past, byte_at-eq, slice-eq,
}
use iotbroker_cloud_c_client.Helpers.{short_bytes, get_short-short_bytes}
use iotbroker_cloud_c_client.Mqtt.Decode.{c_string-text}
use iotbroker_cloud_c_client.MqttSn.Packets.{
  SnMessage, sn_register, sn_publish, sn_suback, sn_disconnect,
}
use iotbroker_cloud_c_client.MqttSn.Flags.{decode_flag, decode_flag-encode_flags}
use iotbroker_cloud_c_client.MqttSn.Decode.{
  get_string, decode_register, decode_publish, decode_ids_and_code, decode_id, decode_suback,
  decode_code, decode_disconnect,
}
use iotbroker_cloud_c_client.MqttSn.Sent.{encode_flags-eq}
use iotbroker_cloud_c_client.MqttSn.Wire.{sn_flags}

-- The text of a packet: no zero in it.
abbrev pub IsText : Bytes → Type 0
IsText s = All (λ b. 0 < b) s

get_string-eq :
    (buf : Bytes) (i l : ℕ) (s rest : Bytes)
    → IsText s
    → drop i buf ≡ s ++ rest
    → l ≡ i + length s
    → get_string buf i i l ≡ ok s
unfolding get_string
get_string-eq buf i l s rest h e el =
    let room : leb i l ≡ true = ground arith in
    let size : l - i ≡ length s = omega arith in
    rw (room, size, slice-eq buf i s rest (length s) refl e, c_string-text s h)

sn_flags-decode :
    (dup retain will clean : Bool) (qos topic_type : ℕ)
    → qos < 4
    → topic_type < 3
    → decode_flag (sn_flags dup qos retain will clean topic_type) ≡ record {
      dup = dup;
      qos = qos;
      retain = retain;
      will = will;
      clean_session = clean;
      topic_type = topic_type;
    }
sn_flags-decode dup retain will clean qos topic_type hq ht =
    ap decode_flag (sym (encode_flags-eq dup retain will clean qos topic_type hq ht))
    ∙ decode_flag-encode_flags dup retain will clean qos topic_type hq ht

-- The bodies, at any index of any buffer.
module _ (buf : Bytes) (i l : ℕ) where
  pub decode_code-eq :
      (f : ℕ → SnMessage) (code : ℕ) (rest : Bytes)
      → code < 4
      → drop i buf ≡ code ∷ rest
      → decode_code buf i l f ≡ ok (f code)
  unfolding decode_code
  decode_code-eq f code rest h e =
      let positive : ltb code 128 ≡ true = ground arith in rw (byte_at-eq buf i e, positive)

  pub decode_id-eq :
      (f : ℕ → SnMessage) (n : ℕ) (rest : Bytes)
      → n < 65536
      → drop i buf ≡ short_bytes n ++ rest
      → decode_id buf i l f ≡ ok (f n)
  unfolding decode_id
  decode_id-eq f n rest h e = rw (get_short-short_bytes buf i n {rest = rest} h e)

  pub decode_ids_and_code-eq :
      (f : ℕ → ℕ → ℕ → SnMessage) (t m code : ℕ) (rest : Bytes)
      → t < 65536
      → m < 65536
      → code < 4
      → drop i buf ≡ short_bytes t ++ (short_bytes m ++ code ∷ rest)
      → decode_ids_and_code buf i l f ≡ ok (f t m code)
  unfolding decode_ids_and_code
  decode_ids_and_code-eq f t m code rest ht hm hc e =
      let second = drop-next₂ buf i e in
      let third = drop-past buf i (short_bytes t ++ short_bytes m) (code ∷ rest) 4 refl e in
      let positive : ltb code 128 ≡ true = ground arith in
      rw (
        get_short-short_bytes buf i t {rest = short_bytes m ++ code ∷ rest} ht e,
        get_short-short_bytes buf (i + 2) m {rest = code ∷ rest} hm second,
        byte_at-eq buf (i + 4) third,
        positive,
      )

  pub decode_suback-eq :
      (qos t m code : ℕ) (rest : Bytes)
      → qos < 4
      → t < 65536
      → m < 65536
      → code < 4
      → drop i buf
        ≡ sn_flags false qos false false false 0 ∷ short_bytes t ++ (short_bytes m ++ code ∷ rest)
      → decode_suback buf i l
        ≡ ok (sn_suback (record { topic_id = t; message_id = m; code = code; allowed_qos = qos }))
  unfolding decode_suback
  decode_suback-eq qos t m code rest hq ht hm hc e =
      let flags = sn_flags false qos false false false 0 in
      let first = drop-next buf i e in
      let second =
        drop-past buf i (flags ∷ short_bytes t) (short_bytes m ++ code ∷ rest) 3 refl e in
      let third = drop-past buf i (flags ∷ short_bytes t ++ short_bytes m) (code ∷ rest) 5 refl e in
      let positive : ltb code 128 ≡ true = ground arith in
      rw (
        byte_at-eq buf i e,
        get_short-short_bytes buf (i + 1) t {rest = short_bytes m ++ code ∷ rest} ht first,
        get_short-short_bytes buf (i + 3) m {rest = code ∷ rest} hm second,
        byte_at-eq buf (i + 5) third,
        positive,
        sn_flags-decode false false false false qos 0 hq (omega arith),
      )

  pub decode_register-eq :
      (t m : ℕ) (name rest : Bytes)
      → t < 65536
      → m < 65536
      → IsText name
      → drop i buf ≡ short_bytes t ++ (short_bytes m ++ (name ++ rest))
      → l ≡ i + (4 + length name)
      → decode_register buf i l
        ≡ ok (sn_register (record { topic_id = t; msg_id = m; topic_name = some name }))
  unfolding decode_register
  decode_register-eq t m name rest ht hm hs e el =
      let second = drop-next₂ buf i e in
      let third = drop-past buf i (short_bytes t ++ short_bytes m) (name ++ rest) 4 refl e in
      rw (
        get_short-short_bytes buf i t {rest = short_bytes m ++ (name ++ rest)} ht e,
        get_short-short_bytes buf (i + 2) m {rest = name ++ rest} hm second,
        get_string-eq buf (i + 4) l name rest hs third (omega arith),
      )

  pub decode_publish-eq :
      (dup retain : Bool) (qos id m b : ℕ) (content rest : Bytes)
      → qos < 4
      → id < 65536
      → m < 65536
      → IsText (b ∷ content)
      → drop i buf
        ≡ sn_flags dup qos retain false false 1 ∷ short_bytes id
          ++ (short_bytes m ++ (b ∷ content ++ rest))
      → l ≡ i + (6 + length content)
      → decode_publish buf i l
        ≡ ok (
            sn_publish (record {
              message_id = m;
              topic = record { id = some id; value = none; qos = qos; topic_type = none };
              data_text = some (b ∷ content);
              dup = dup;
              retain = retain;
              is_incoming = none;
            }))
  unfolding decode_publish
  decode_publish-eq dup retain qos id m b content rest hq hi hm hs e el =
      let flags = sn_flags dup qos retain false false 1 in
      let first = drop-next buf i e in
      let second =
        drop-past buf i (flags ∷ short_bytes id) (short_bytes m ++ (b ∷ content ++ rest)) 3 refl
          e in
      let third =
        drop-past buf i (flags ∷ short_bytes id ++ short_bytes m) (b ∷ content ++ rest) 5 refl e in
      let filled : ltb (i + 5) l ≡ true = ground arith in
      rw (
        byte_at-eq buf i e,
        get_short-short_bytes buf (i + 1) id {rest = short_bytes m ++ (b ∷ content ++ rest)} hi
            first,
        get_short-short_bytes buf (i + 3) m {rest = b ∷ content ++ rest} hm second,
        filled,
        get_string-eq buf (i + 5) l (b ∷ content) rest hs third (omega arith),
        sn_flags-decode dup retain false false qos 1 hq (omega arith),
      )

  pub decode_disconnect-eq :
      (duration : ℕ) (rest : Bytes)
      → duration < 65536
      → drop i buf ≡ short_bytes duration ++ rest
      → l ≡ i + 2
      → decode_disconnect buf i l ≡ ok (sn_disconnect duration)
  unfolding decode_disconnect
  decode_disconnect-eq duration rest h e el =
      let more : ltb i l ≡ true = ground arith in
      rw more (decode_id-eq sn_disconnect duration rest h e)

  pub decode_disconnect-nil : l ≡ i + 0 → decode_disconnect buf i l ≡ ok (sn_disconnect 0)
  unfolding decode_disconnect
  decode_disconnect-nil el = let over : ltb i l ≡ false = ground arith in rw over
