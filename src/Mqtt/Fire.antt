-- ===== src/Mqtt/Fire.antt =====
-- src/mqtt/mqtt_client.c, `encode_and_fire` over plain MQTT: what goes out to the socket.
pub mod Sent
use iotbroker_cloud_c_client.Base.{ℕ, ◌+◌, Outcome, ok, fault, ◌>>=◌, Bytes, slice}
use iotbroker_cloud_c_client.Mqtt.Packets.{Message}
use iotbroker_cloud_c_client.Mqtt.Size.{get_length}
use iotbroker_cloud_c_client.Mqtt.Encode.{encode}
use iotbroker_cloud_c_client.Mqtt.Remaining.{
  LengthDetails, invalid, details, decode_remaining_length,
}

-- `raw_fire(buf, length)`; a length of -1 is no size.
abbrev pub raw_fire : Bytes → LengthDetails → Outcome Bytes
raw_fire buf invalid = fault
raw_fire buf (details bytes_used l) = slice buf 0 l

-- `malloc n` is the block of `n` bytes that the library hands out, with what it holds. The number
-- of bytes to send is read back from the packet.
unfoldable pub encode_and_fire : (ℕ → Bytes) → Message → Outcome Bytes
encode_and_fire malloc m = do
  l ← get_length m
  buf ← encode m l (malloc (l + 5))
  ld ← decode_remaining_length buf
  raw_fire buf ld
