-- ===== src/Mqtt/Wire/Opening.antt =====
-- The CONNECT packet as a single store.
use iotbroker_cloud_c_client.Base.{
  ℕ, ◌%◌, ◌<◌, ◌≡◌, refl, arith, [], ◌∷◌, ◌++◌, some, true, false, Bytes, Cursor, write,
  write-write, write-write_last, write-nil, length, append_assoc,
}
use iotbroker_cloud_c_client.Helpers.{add_short}
use iotbroker_cloud_c_client.Helpers.Length.{length_bytes, add_packet_length}
use iotbroker_cloud_c_client.Mqtt.Packets.{Connect}
use iotbroker_cloud_c_client.Mqtt.Encode.{put_nonempty, put_will, content_flags, encode_connect}
use iotbroker_cloud_c_client.Mqtt.Wire.Format.{wire_string, optional_string, connect_body}
use iotbroker_cloud_c_client.Mqtt.Wire.Stores.{put_string-write, put_nonempty-write}

-- The will of a CONNECT packet on the wire: nothing without the flag, else its two texts, which
-- must not be empty.
pub data WillWire (c : Connect) (w : Bytes) : Type 0 where
  no_will : c.will_flag ≡ false → w ≡ [] → WillWire c w
  with_will :
      (topic_name content : Bytes)
      → c.will_flag ≡ true
      → c.will.topic_name ≡ some topic_name
      → c.will.content ≡ some content
      → 0 < length topic_name
      → length topic_name < 65536
      → 0 < length content
      → length content < 65536
      → w ≡ wire_string topic_name ++ wire_string content
      → WillWire c w

put_will-write : (c : Connect) (w : Bytes) (k : Cursor) → WillWire c w → put_will c k ≡ write w k
unfolding put_will
put_will-write c w k (no_will e ew) = rw (e, ew, write-nil)
put_will-write c w k (with_will t s e et es t0 t1 s0 s1 ew) =
    simp (e, et, es, ew, put_nonempty-write t _ t0 t1, put_nonempty-write s _ s0 s1)
      (write-write_last _ (wire_string s) k refl)

pub put_nonempty-optional :
    (s : Bytes) (k : Cursor) → length s < 65536 → put_nonempty s k ≡ write (optional_string s) k
unfolding put_nonempty
put_nonempty-optional s k h = ground (arith, put_string-write s k h, write-nil k)

pub encode_connect-write :
    (c : Connect) (l : ℕ) (w username password : Bytes) (k : Cursor)
    → c.username ≡ some username
    → c.password ≡ some password
    → length c.client_id < 65536
    → length username < 65536
    → length password < 65536
    → WillWire c w
    → encode_connect c l k
      ≡ write
          (0x10 ∷ length_bytes 5 l
            ++ connect_body
                (content_flags c username password % 256)
                c.keepalive
                c.client_id
                w
                username
                password)
          k
unfolding encode_connect add_packet_length add_short
encode_connect-write c l w username password k eu ep hc hu hp will =
    simp
      (
        eu,
        ep,
        put_string-write c.client_id _ hc,
        λ (k : Cursor). put_will-write c w k will,
        put_nonempty-optional username _ hu,
        put_nonempty-optional password _ hp,
        write-write,
      )
      (write-write_last _ (optional_string password) k (simp append_assoc))
