-- ===== src/Coap/Decode.antt =====
-- src/coap/coap_parser.c, `coap_decode`. A message that is refused, for which the code returns NULL,
-- is `refused`. The bytes of an option may run past `length`, which is not checked, but not past
-- the buffer.
use iotbroker_cloud_c_client.Base.{
  ℕ, zero, suc, ◌+◌, ◌-◌, ◌*◌, ◌/◌, ◌%◌, ◌^◌, ◌&&◌, Option, none, some, List, [], ◌∷◌,
  if◌then◌else◌, ltb, leb, ◌==◌, Outcome, ok, refused, fault, ◌>>=◌, ◌>>◌, check, Bytes, byte_at,
  slice,
}
use iotbroker_cloud_c_client.Helpers.{get_short}
use iotbroker_cloud_c_client.Mqtt.Decode.{c_string}
use iotbroker_cloud_c_client.Coap.Packets.{CoapOption, CoapMessage}

-- `number += delta`, refused where it is negative, and the index behind the delta. A char is
-- signed, a short is declared as unsigned; a datagram is too short for the sum to pass 2 ^ 31.
unfoldable pub next_number : ℕ → ℕ → Bytes → ℕ → Outcome (ℕ × ℕ)
next_number number delta buf j =
    if delta == 13
    then (do
      e ← byte_at buf j
      (if ltb e 128
          then ok (number + (e + 13), j + 1)
          else (do check (leb 256 (number + (e + 13))); ok (number + (e + 13) - 256, j + 1))))
    else if delta == 14
    then (do e ← get_short buf j; ok (number + (e + 269), j + 2))
    else if delta == 15
    then refused
    else ok (number + delta, j)

-- `bits - modulus` as the 32 bits of an int.
abbrev pub int_bits : ℕ → ℕ → ℕ
int_bits modulus bits = if leb modulus bits then bits - modulus else 2 ^ 32 + bits - modulus

-- After a length of two bytes the index stays in front of them.
unfoldable pub option_length : ℕ → Bytes → ℕ → Outcome (ℕ × ℕ)
option_length nibble buf j =
    if nibble == 13
    then (do e ← byte_at buf j; ok ((if ltb e 128 then e + 13 else int_bits 256 (e + 13)), j + 1))
    else if nibble == 14
    then (do e ← get_short buf j; ok (e + 269, j))
    else if nibble == 15
    then refused
    else ok (nibble, j)

-- A length that is 0 or negative leaves the value NULL.
unfoldable pub option_value : ℕ → Bytes → ℕ → Outcome (Option Bytes × ℕ)
option_value l buf j =
    if ltb 0 l && ltb l (2 ^ 31)
    then (do value ← slice buf j l; ok (some value, j + l))
    else ok (none, j)

unfoldable pub decode_option : ℕ → ℕ → Bytes → ℕ → Outcome (CoapOption × ℕ)
decode_option number next_byte buf j = do
  (number, j) ← next_number number (next_byte / 16) buf j
  (l, j) ← option_length (next_byte % 16) buf j
  (value, j) ← option_value l buf j
  ok (record { number = number; length = l; value = value }, j)

-- The loop over `j`, which every round moves: the result has the index `i` behind the last option.
unfoldable pub option_loop : ℕ → Bytes → ℕ → ℕ → ℕ → Outcome (List CoapOption × ℕ)
option_loop zero buf length number j = fault
option_loop (suc fuel) buf length number j =
    let round = do
      next_byte ← byte_at buf j
      (if next_byte == 255 then ok ([], j) else (do
        (o, j) ← decode_option number next_byte buf (j + 1)
        (os, i) ← option_loop fuel buf length o.number j
        ok (o ∷ os, i)))
    in if ltb j length then round else ok ([], j)

unfoldable pub decode_token : ℕ → Bytes → Outcome (Option Bytes)
decode_token token_length buf =
    if token_length == 0
    then ok none
    else (do token ← slice buf 4 token_length; ok (some (c_string token)))

unfoldable pub decode_body : Bytes → ℕ → ℕ → Outcome (Option Bytes)
decode_body buf length i =
    if ltb i length
    then (do
      b ← byte_at buf (i + 1)
      (if b == 0
          then ok none
          else (do payload ← slice buf (i + 1) (length - i - 1); ok (some (c_string payload)))))
    else ok none

-- `code_byte >> 5` is negative from 128 on.
abbrev pub decoded_code : ℕ → ℕ
decoded_code b = if ltb b 128 then b / 32 * 100 + b % 32 else 2 ^ 32 + b % 32 - (8 - b / 32) * 100

-- Two bits of the type are there, and the mask takes one.
unfoldable pub coap_decode : Bytes → ℕ → Outcome CoapMessage
coap_decode buf length = do
  first_byte ← byte_at buf 0
  check (first_byte / 64 == 1)
  let token_length = first_byte % 16
  check (leb token_length 8)
  code ← byte_at buf 1
  message_id ← get_short buf 2
  token ← decode_token token_length buf
  (options, i) ← option_loop (suc length) buf length 0 (4 + token_length)
  payload ← decode_body buf length i
  ok (record {
    version = 1;
    type = first_byte / 32 % 2 * 2;
    code = decoded_code code;
    message_id = message_id;
    token = token;
    options = options;
    payload = payload;
  })
