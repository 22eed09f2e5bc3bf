-- ===== src/Mqtt/Wire/Format.antt =====
-- The MQTT 3.1.1 wire format, written down without the encoder: a first byte, the length of the
-- body, and the body.
use iotbroker_cloud_c_client.Base.{ℕ, List, [], ◌∷◌, ◌++◌, if◌then◌else◌, ◌==◌, Bytes, length}
use iotbroker_cloud_c_client.Helpers.{short_bytes}
use iotbroker_cloud_c_client.Helpers.Length.{length_bytes}
use iotbroker_cloud_c_client.Mqtt.Packets.{Topic}

-- A string behind its length.
abbrev pub wire_string : Bytes → Bytes
wire_string s = short_bytes (length s) ++ s

unfoldable pub frame : ℕ → Bytes → Bytes
frame first body = first ∷ length_bytes 5 (length body) ++ body

abbrev pub publish_body : Bytes → ℕ → Bytes → Bytes
publish_body topic_name packet_id content =
    wire_string topic_name ++ ((if packet_id == 0 then [] else short_bytes packet_id) ++ content)

-- A subscription to one topic.
abbrev pub subscribe_body : ℕ → Topic → Bytes
subscribe_body packet_id t = short_bytes packet_id ++ (wire_string t.topic_name ++ (t.qos ∷ []))

abbrev pub filters : List Topic → Bytes
filters [] = []
filters (t ∷ ts) = wire_string t.topic_name ++ filters ts

abbrev pub unsubscribe_body : ℕ → List Topic → Bytes
unsubscribe_body packet_id ts = short_bytes packet_id ++ filters ts

-- A user name or a password: absent if it is empty.
abbrev pub optional_string : Bytes → Bytes
optional_string s = if length s == 0 then [] else wire_string s

abbrev pub connect_body : ℕ → ℕ → Bytes → Bytes → Bytes → Bytes → Bytes
connect_body flags keepalive client_id will username password =
    (0 ∷ 4 ∷ b'M' ∷ b'Q' ∷ b'T' ∷ b'T' ∷ 4 ∷ flags ∷ [])
    ++ (short_bytes keepalive
        ++ (wire_string client_id
            ++ (will ++ (optional_string username ++ optional_string password))))
