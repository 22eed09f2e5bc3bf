-- ===== src/Coap/RoundTrip.antt =====
-- What `coap_encode` writes, as `coap_decode` reads it.
use iotbroker_cloud_c_client.Base.{
  ℕ, suc, ◌+◌, ◌-◌, ◌*◌, ◌/◌, ◌%◌, ◌≤◌, ◌<◌, ◌≡◌, refl, ap, arith, true, false, Option, none, some,
  List, [], ◌∷◌, ◌++◌, if◌then◌else◌, leb, ◌==◌, ok, Bytes, All, length, length-append,
  append_assoc, drop, drop-next, drop-past, byte_at-eq, slice-eq,
}
use iotbroker_cloud_c_client.Helpers.{short_bytes, get_short-short_bytes}
use iotbroker_cloud_c_client.Mqtt.Decode.{c_string, c_string-text}
use iotbroker_cloud_c_client.Coap.Packets.{CoapMessage}
use iotbroker_cloud_c_client.Coap.Decode.{decode_token, decode_body, decoded_code, coap_decode}
use iotbroker_cloud_c_client.Coap.Wire.{extended, options_wire, coap_options, coap_wire, IsCode}
use iotbroker_cloud_c_client.Coap.Options.{option_loop-eq}
use iotbroker_cloud_c_client.Coap.Stores.{IsSendable}

-- The payload as it is read: of an empty one, what stands behind the packet decides.
abbrev pub incoming_payload : Bytes → ℕ → Option Bytes
incoming_payload [] next = if next == 0 then none else some []
incoming_payload (b ∷ bs) next = some (b ∷ bs)

abbrev pub incoming_token : Bytes → Option Bytes
incoming_token [] = none
incoming_token (b ∷ bs) = some (b ∷ bs)

-- One bit of the type is lost, and what is empty is not set.
abbrev pub incoming_coap : ℕ → ℕ → ℕ → Bytes → List (ℕ × Bytes) → Bytes → ℕ → CoapMessage
incoming_coap type code message_id token os payload next = record {
  version = 1;
  type = type / 2 * 2;
  code = code;
  message_id = message_id;
  token = incoming_token token;
  options = coap_options os;
  payload = incoming_payload payload next;
}

decode_token-eq :
    (token buf rest : Bytes)
    → All (λ b. 0 < b) token
    → drop 4 buf ≡ token ++ rest
    → decode_token (length token) buf ≡ ok (incoming_token token)
unfolding decode_token
decode_token-eq [] buf rest h e = refl
decode_token-eq (b ∷ bs) buf rest h e =
    let filled : (suc (length bs) == 0) ≡ false = ground arith in
    rw (filled, slice-eq buf 4 (b ∷ bs) rest (length (b ∷ bs)) refl e, c_string-text (b ∷ bs) h)

decode_body-eq :
    (buf : Bytes) (n i : ℕ) (payload : Bytes) (next : ℕ) (rest : Bytes)
    → All (λ b. 0 < b) payload
    → drop i buf ≡ 255 ∷ payload ++ next ∷ rest
    → n ≡ i + 1 + length payload
    → decode_body buf n i ≡ ok (incoming_payload payload next)
unfolding decode_body
decode_body-eq buf n i [] next rest h e en =
    let behind = drop-next buf i e in
    let room : n - i - 1 ≡ 0 = omega arith in
    rw (byte_at-eq buf (i + 1) behind, room, slice-eq buf (i + 1) [] (next ∷ rest) 0 refl behind)
      (unfold c_string in ground arith)
decode_body-eq buf n i (b ∷ bs) next rest h e en =
    let behind = drop-next buf i e in
    let room : n - i - 1 ≡ length (b ∷ bs) = omega arith in
    rw
      (
        byte_at-eq buf (i + 1) behind,
        room,
        slice-eq buf (i + 1) (b ∷ bs) (next ∷ rest) (length (b ∷ bs)) refl behind,
        c_string-text (b ∷ bs) h,
      )
      (ground (arith, h.0))

decoded_code-eq : (code : ℕ) → IsCode code → decoded_code (code / 100 * 32 + code % 100) ≡ code
decoded_code-eq code h = ground (arith, h.0, h.1)

options-count :
    (previous : ℕ) (os : List (ℕ × Bytes)) → length os ≤ length (options_wire previous os)
options-count previous [] = omega arith
options-count previous ((number, v) ∷ os) = omega (
  arith,
  options-count number os,
  length-append {0} (extended (number - previous) ++ (extended (length v) ++ v))
      (options_wire number os),
)

-- A packet in a buffer with a byte behind it.
pub coap_decode-coap_wire :
    (type code id : ℕ) (token : Bytes) (os : List (ℕ × Bytes)) (payload : Bytes) (next : ℕ)
    (rest : Bytes)
    → IsSendable type code id token os payload
    → All (λ b. 0 < b) token
    → All (λ b. 0 < b) payload
    → coap_decode
        (coap_wire type code id token os payload ++ next ∷ rest)
        (length (coap_wire type code id token os payload))
      ≡ ok (incoming_coap type code id token os payload next)
unfolding coap_decode
coap_decode-coap_wire type code id token os payload next rest s ht hp =
    let wire = coap_wire type code id token os payload in
    let buf : Bytes = wire ++ next ∷ rest in
    let first = 64 + type * 16 + length token in
    let behind : Bytes = options_wire 0 os ++ 255 ∷ (payload ++ next ∷ rest) in
    let at_token : drop 4 buf ≡ token ++ behind = simp append_assoc in
    let at_options = drop-past buf 4 token behind _ refl at_token in
    let i = 4 + length token + length (options_wire 0 os) in
    let at_mark =
      drop-past buf (4 + length token) (options_wire 0 os) (255 ∷ (payload ++ next ∷ rest)) _ refl
        at_options in
    let size : length wire ≡ i + 1 + length payload = omega (
      arith,
      length-append {0} token (options_wire 0 os ++ 255 ∷ payload),
      length-append {0} (options_wire 0 os) (255 ∷ payload),
    ) in
    let version : first / 64 ≡ 1 = omega (arith, s.type_valid, s.token_short) in
    let low : first % 16 ≡ length token = omega (arith, s.type_valid, s.token_short) in
    let bits : first / 32 % 2 * 2 ≡ type / 2 * 2 = omega (arith, s.type_valid, s.token_short) in
    let few : leb (length token) 8 ≡ true = ground (arith, s.token_short) in
    rw (
      byte_at-eq buf 0 {b = first} refl,
      version,
      low,
      few,
      bits,
      byte_at-eq buf 1 {b = code / 100 * 32 + code % 100} refl,
      decoded_code-eq code s.code_valid,
      get_short-short_bytes buf 2 id {rest = token ++ behind} s.id_short
          (ap (λ t. short_bytes id ++ t) at_token),
      decode_token-eq token buf behind ht at_token,
      option_loop-eq (suc (length wire)) buf (length wire) 0 (4 + length token) os
          (payload ++ next ∷ rest) (omega (arith, options-count 0 os)) s.options_valid at_options
          (omega arith),
      decode_body-eq buf (length wire) i payload next rest hp at_mark size,
    )
