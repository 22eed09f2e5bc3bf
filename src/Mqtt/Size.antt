-- ===== src/Mqtt/Size.antt =====
-- src/mqtt/parser.c, `get_length`: the number of bytes behind the length field.
use iotbroker_cloud_c_client.Base.{
  ℕ, ◌+◌, List, [], ◌∷◌, if◌then◌else◌, ◌==◌, Outcome, ok, ◌>>=◌, deref, Bytes, length,
}
use iotbroker_cloud_c_client.Mqtt.Packets.{
  Topic, Connect, Publish, Message, connect, connack, publish, puback, pubrec, pubrel, pubcomp,
  subscribe, suback, unsubscribe, unsuback, pingreq, pingresp, disconnect,
}

-- `strlen(s) != 0 ? strlen(s) + 2 : 0`
abbrev pub optional_size : Bytes → ℕ
optional_size s = if length s == 0 then 0 else length s + 2

unfoldable pub will_length : Connect → Outcome ℕ
will_length c =
    if c.will_flag
    then (do
      content ← deref c.will.content
      topic_name ← deref c.will.topic_name
      ok (length content + length topic_name + 4))
    else ok 0

connect_length : Connect → Outcome ℕ
connect_length c = do
  let fixed = 10 + (length c.client_id + 2)
  will ← will_length c
  username ← deref c.username
  password ← deref c.password
  ok (fixed + will + optional_size username + optional_size password)

publish_length : Publish → Outcome ℕ
publish_length p = do
  packet_id ← deref p.packet_id
  content ← deref p.content
  ok ((if packet_id == 0 then 0 else 2) + (length p.topic.topic_name + 2) + length content)

-- The loops over the topics: a filter takes `extra` bytes more than its text.
abbrev pub topics_length : ℕ → List Topic → ℕ
topics_length extra [] = 0
topics_length extra (t ∷ ts) = length t.topic_name + extra + topics_length extra ts

unfoldable pub get_length : Message → Outcome ℕ
unfolding connect_length publish_length
get_length (connect c) = connect_length c
get_length (connack c) = ok 2
get_length (publish p) = publish_length p
get_length (puback n) = ok 2
get_length (pubrec n) = ok 2
get_length (pubrel n) = ok 2
get_length (pubcomp n) = ok 2
get_length (subscribe s) = ok (2 + topics_length 3 s.topics)
get_length (suback s) = ok (2 + length s.codes)
get_length (unsubscribe u) = ok (2 + topics_length 2 u.topics)
get_length (unsuback n) = ok 2
get_length pingreq = ok 0
get_length pingresp = ok 0
get_length disconnect = ok 0
