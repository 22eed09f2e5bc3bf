-- ===== src/Mqtt/Broker.antt =====
-- `decode` on what a broker answers.
use iotbroker_cloud_c_client.Base.{
  ℕ, ◌+◌, ◌-◌, ◌^◌, ◌≤◌, ◌<◌, ◌≡◌, ◌⊎◌, refl, arith, List, [], ◌∷◌, ◌++◌, ok, Bytes, All, length,
  drop, drop-next, drop-next₂, byte_at, byte_at-eq,
}
use iotbroker_cloud_c_client.Helpers.{short_bytes, get_short-short_bytes}
use iotbroker_cloud_c_client.Helpers.Length.{length_bytes}
use iotbroker_cloud_c_client.Mqtt.Packets.{
  Message, connack, puback, pubrec, pubrel, pubcomp, suback, unsuback, pingresp, received,
}
use iotbroker_cloud_c_client.Mqtt.Decode.{
  decode_codes, decode_suback, decode_connack, decode_ack, decode_type, decode,
}
use iotbroker_cloud_c_client.Mqtt.Wire.Format.{frame}
use iotbroker_cloud_c_client.Mqtt.Wire.Parsed.{decode-frame, drop-framed, remaining-framed}

-- A return code of SUBACK: the granted QoS, or the failure 0x80.
abbrev pub IsCode : ℕ → Type 0
IsCode c = (c ≤ 2) ⊎ (c ≡ 128)

-- The answers of a broker, with their first byte and their body.
pub data Answer : Message → ℕ → Bytes → Type 0 where
  connack_answer :
      (session code : ℕ)
      → session < 2
      → code < 6
      → Answer
          (connack (record { session_present = session; return_code = code }))
          0x20
          (session ∷ code ∷ [])
  puback_answer : (n : ℕ) → n < 65536 → Answer (puback n) 0x40 (short_bytes n)
  pubrec_answer : (n : ℕ) → n < 65536 → Answer (pubrec n) 0x50 (short_bytes n)
  pubrel_answer : (n : ℕ) → n < 65536 → Answer (pubrel n) 0x62 (short_bytes n)
  pubcomp_answer : (n : ℕ) → n < 65536 → Answer (pubcomp n) 0x70 (short_bytes n)
  suback_answer :
      (n : ℕ) (codes : List ℕ)
      → n < 65536
      → All IsCode codes
      → 0 < length codes
      → length codes + 2 < 2 ^ 28
      → Answer (suback (record { packet_id = n; codes = codes })) 0x90 (short_bytes n ++ codes)
  unsuback_answer : (n : ℕ) → n < 65536 → Answer (unsuback n) 0xb0 (short_bytes n)
  pingresp_answer : Answer pingresp 0xd0 []

decode_codes-eq :
    (buf : Bytes) (i : ℕ) (codes rest : Bytes)
    → All IsCode codes
    → drop i buf ≡ codes ++ rest
    → decode_codes buf i (length codes) ≡ ok codes
unfolding decode_codes
decode_codes-eq buf i [] rest h e = refl
decode_codes-eq buf i (c ∷ codes) rest h e = ground (
  arith,
  byte_at-eq buf i {b = c} {rest = codes ++ rest} e,
  decode_codes-eq buf (i + 1) codes rest h.1 (drop-next buf i {b = c} {rest = codes ++ rest} e),
)

decode-suback_frame :
    (n : ℕ) (codes rest : Bytes)
    → n < 65536
    → All IsCode codes
    → 0 < length codes
    → length codes + 2 < 2 ^ 28
    → decode_suback (frame 0x90 (short_bytes n ++ codes) ++ rest)
      ≡ ok (record { packet_id = n; codes = codes })
unfolding decode_suback
decode-suback_frame n codes rest hn hc pos short =
    let body : Bytes = short_bytes n ++ codes in
    let buf : Bytes = frame 0x90 body ++ rest in
    let i = 1 + length (length_bytes 5 (length body)) in
    let at_id : drop i buf ≡ short_bytes n ++ (codes ++ rest) = drop-framed 0x90 body rest in
    let left : i + length body - (i + 2) ≡ length codes = omega arith in
    rw
      (
        remaining-framed 0x90 body rest (omega arith),
        get_short-short_bytes buf i n {rest = codes ++ rest} hn at_id,
        left,
        decode_codes-eq buf (i + 2) codes rest hc (drop-next₂ buf i at_id),
      )
      (ground arith)

decode_ack-frame :
    (first n : ℕ) (rest : Bytes)
    → n < 65536
    → decode_ack (frame first (short_bytes n) ++ rest) ≡ ok n
unfolding decode_ack frame length_bytes
decode_ack-frame first n rest h = get_short-short_bytes _ 2 n {rest = rest} h refl

decode_connack-frame :
    (session code : ℕ) (rest : Bytes)
    → session < 2
    → code < 6
    → decode_connack (frame 0x20 (session ∷ code ∷ []) ++ rest)
      ≡ ok (record { session_present = session; return_code = code })
unfolding decode_connack frame length_bytes byte_at
decode_connack-frame session code rest hs hc = ground arith

-- `decode` reads each answer of a broker as the message that it stands for, whatever bytes stand
-- behind it: CONNACK with a valid flag and code, the acknowledgements, SUBACK with one or more
-- valid codes, and PINGRESP.
pub decode-Answer :
    {m : Message} {first : ℕ} {body : Bytes} (rest : Bytes)
    → Answer m first body
    → decode (frame first body ++ rest) ≡ ok (received m)
unfolding decode_type
decode-Answer rest (connack_answer session code hs hc) =
    rw decode-frame (rw (decode_connack-frame session code rest hs hc))
decode-Answer rest (puback_answer n h) = rw decode-frame (rw (decode_ack-frame 0x40 n rest h))
decode-Answer rest (pubrec_answer n h) = rw decode-frame (rw (decode_ack-frame 0x50 n rest h))
decode-Answer rest (pubrel_answer n h) = rw decode-frame (rw (decode_ack-frame 0x62 n rest h))
decode-Answer rest (pubcomp_answer n h) = rw decode-frame (rw (decode_ack-frame 0x70 n rest h))
decode-Answer rest (suback_answer n codes hn hc pos short) =
    rw decode-frame (rw (decode-suback_frame n codes rest hn hc pos short))
decode-Answer rest (unsuback_answer n h) = rw decode-frame (rw (decode_ack-frame 0xb0 n rest h))
decode-Answer rest pingresp_answer = rw decode-frame
