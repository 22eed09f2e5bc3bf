-- ===== src/Mqtt/Decode/Opening.antt =====
-- src/mqtt/parser.c, the CONNECT case of `decode`.
use iotbroker_cloud_c_client.Base.{
  ℕ, ◌+◌, ◌/◌, ◌%◌, Bool, not, ◌&&◌, Option, none, some, if◌then◌else◌, ltb, leb, ◌==◌, same_text,
  Outcome, ok, ◌>>=◌, ◌>>◌, check, Bytes, byte_at, slice,
}
use iotbroker_cloud_c_client.Helpers.{get_short}
use iotbroker_cloud_c_client.Mqtt.Encode.{protocol_name}
use iotbroker_cloud_c_client.Mqtt.Packets.{Connect, Will}
use iotbroker_cloud_c_client.Mqtt.Remaining.{
  LengthDetails, next_index, bytes_left, decode_remaining_length,
}
use iotbroker_cloud_c_client.Mqtt.Decode.Text.{c_string, string_at}

-- A signed char stored in an unsigned short
abbrev pub char_to_short : ℕ → ℕ
char_to_short b = if ltb b 128 then b else b + 65280

-- A field of the payload, checked against the length of the packet before it is
-- copied.
unfoldable pub checked_string : Bytes → LengthDetails → ℕ → ℕ → Outcome (Bytes × ℕ)
checked_string buf d i least = do
  check (leb 2 (bytes_left d i))
  l ← get_short buf i
  check (leb l (bytes_left d (i + 2)) && leb least l)
  bytes ← slice buf (i + 2) l
  ok (c_string bytes, i + 2 + l)

unfoldable pub optional_string : Bool → Bytes → LengthDetails → ℕ → Outcome (Option Bytes × ℕ)
unfolding checked_string
optional_string flag buf d i =
    if flag then (do (s, i) ← checked_string buf d i 0; ok (some s, i)) else ok (none, i)

unfoldable pub decode_will : Bytes → LengthDetails → ℕ → ℕ → Outcome (Will × ℕ)
unfolding checked_string
decode_will buf d flags i =
    let qos = flags / 8 % 4 in
    let retain = flags / 32 % 2 == 1 in
    if flags / 4 % 2 == 1
    then (do
      (topic_name, i) ← checked_string buf d i 1
      (content, i) ← checked_string buf d i 0
      ok (
        record { topic_name = some topic_name; qos = qos; content = some content; retain = retain },
        i,
      ))
    else ok (record { topic_name = none; qos = qos; content = none; retain = retain }, i)

-- The tests on the content flags, in the code's order.
unfoldable pub check_flags : ℕ → Outcome (Unit {0})
check_flags flags =
    let qos = flags / 8 % 4 in
    let will_flag = flags / 4 % 2 == 1 in
    let retain = flags / 32 % 2 == 1 in
    do
      check (leb qos 2)
      check (not (not (qos == 0) && not will_flag))
      check (not (retain && not will_flag))
      check (not (flags % 2 == 1))

-- Here 0x80 is the flag of the user name and 0x40 that of the password.
unfoldable pub decode_connect : Bytes → Outcome Connect
unfolding check_flags string_at decode_will optional_string
decode_connect buf = do
  d ← decode_remaining_length buf
  let i = next_index d
  name_size ← get_short buf i
  name ← slice buf (i + 2) name_size
  check (same_text protocol_name (c_string name))
  let i = i + 2 + name_size
  protocol_level ← byte_at buf i
  flags ← byte_at buf (i + 1)
  check_flags flags
  keepalive ← get_short buf (i + 2)
  (client_id, i) ← string_at buf (i + 4)
  (will, i) ← decode_will buf d flags i
  (username, i) ← optional_string (flags / 128 % 2 == 1) buf d i
  (password, i) ← optional_string (flags / 64 % 2 == 1) buf d i
  check (not (ltb 0 (bytes_left d i)))
  ok (record {
    username = username;
    password = password;
    client_id = client_id;
    clean_session = flags / 2 % 2 == 1;
    will_flag = flags / 4 % 2 == 1;
    keepalive = keepalive;
    protocol_level = char_to_short protocol_level;
    will = will;
  })
