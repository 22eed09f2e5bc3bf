-- ===== src/Coap/Encode.antt =====
-- src/coap/coap_parser.c, `coap_encode`, and the bytes that `coap_encode_and_fire` of
-- src/coap/coap_client.c hands on.
use Prim.Native.Nat.{bit_or}
use iotbroker_cloud_c_client.Base.{
  ℕ, ◌+◌, ◌-◌, ◌*◌, ◌/◌, ◌%◌, ◌^◌, ◌&&◌, ◌||◌, List, [], ◌∷◌, if◌then◌else◌, ltb, leb, ◌==◌,
  Outcome, ok, ◌>>=◌, deref, Bytes, slice, Cursor, start, contents, write, length, take,
}
use iotbroker_cloud_c_client.Helpers.{short_bytes, add_short}
use iotbroker_cloud_c_client.Coap.Packets.{CoapOption, CoapMessage}

-- `buf[i++] = b`
abbrev pub put_byte : ℕ → Cursor → Outcome Cursor
put_byte b = write ((b % 256) ∷ [])

-- The 256 bytes, and the payload of a PUT.
abbrev pub buffer_size : CoapMessage → Outcome ℕ
buffer_size m =
    if m.code == 3 && ltb 0 m.message_id
    then (do payload ← deref m.payload; ok (256 + length payload))
    else ok 256

abbrev pub first_byte : CoapMessage → ℕ → ℕ
first_byte m string_length = bit_or ((m.version * 64 + m.type * 16) % 256) (string_length % 256)

-- `(code_msb << 5) + code_lsb`, both with the sign of the code
abbrev pub code_byte : ℕ → ℕ
code_byte code =
    if ltb code (2 ^ 31)
    then code / 100 * 32 + code % 100
    else 256 - ((2 ^ 32 - code) / 100 * 32 + (2 ^ 32 - code) % 100) % 256

-- `delta << 4`, or the mark of an extended delta; a negative delta is below 13.
abbrev pub delta_nibble : ℕ → ℕ → ℕ
delta_nibble previous_number number =
    if ltb number previous_number
    then (16 - (previous_number - number) % 16) % 16 * 16
    else if ltb (number - previous_number) 13
    then (number - previous_number) * 16
    else if ltb (number - previous_number) 255
    then 13 * 16
    else 14 * 16

abbrev pub length_nibble : ℕ → ℕ
length_nibble l = if ltb l 13 || leb (2 ^ 31) l then l else if ltb l 255 then 13 else 14

-- The bytes of an extended delta or length: 269 is taken off modulo 2 ^ 16.
abbrev pub extension : ℕ → Bytes
extension n =
    if ltb n 13 || leb (2 ^ 31) n
    then []
    else if ltb n 255
    then (n - 13) ∷ []
    else short_bytes ((n + 65267) % 65536)

-- What memcpy takes from `value`; the size is an unsigned short.
abbrev pub value_bytes : CoapOption → Outcome Bytes
value_bytes o =
    if o.length % 65536 == 0
    then ok []
    else (do value ← deref o.value; slice value 0 (o.length % 65536))

unfoldable pub encode_option : ℕ → CoapOption → Cursor → Outcome Cursor
encode_option previous_number o k = do
  k ← put_byte (delta_nibble previous_number o.number + length_nibble o.length) k
  k ← write (extension (o.number - previous_number)) k
  k ← write (extension o.length) k
  value ← value_bytes o
  write value k

unfoldable pub encode_options : ℕ → List CoapOption → Cursor → Outcome Cursor
encode_options previous_number [] k = ok k
encode_options previous_number (o ∷ os) k = do
  k ← encode_option previous_number o k
  encode_options o.number os k

-- Everything in front of the payload.
unfoldable pub encode_head : CoapMessage → Cursor → Outcome Cursor
encode_head m k = do
  token ← deref m.token
  let string_length = length token % 65536
  k ← write (first_byte m string_length ∷ []) k
  k ← put_byte (code_byte m.code) k
  k ← add_short m.message_id k
  k ← write (take string_length token) k
  k ← encode_options 0 m.options k
  put_byte 0xff k

-- The buffer, and its length in `*length`.
unfoldable pub coap_encode : (ℕ → Bytes) → CoapMessage → Outcome (Bytes × ℕ)
coap_encode malloc m = do
  buf_size ← buffer_size m
  k ← encode_head m (start (malloc buf_size))
  payload ← deref m.payload
  let string_length = length payload % 65536
  k ← if ltb 0 string_length then write (take string_length payload) k else ok k
  ok (contents k, length k.done)

unfoldable pub coap_encode_and_fire : (ℕ → Bytes) → CoapMessage → Outcome Bytes
coap_encode_and_fire malloc m = do
  (buf, total_length) ← coap_encode malloc m
  slice buf 0 total_length
