-- ===== src/Mqtt/Client/Stream.antt =====
-- src/mqtt/mqtt_client.c, `mqtt_data_received`: the bytes that one read of the socket brought.
use iotbroker_cloud_c_client.Base.{
  ℕ, zero, suc, ◌+◌, ◌-◌, Option, none, some, if◌then◌else◌, ltb, leb, Outcome, ok, fault, ◌>>=◌,
  deref, Bytes, byte_at, slice,
}
use iotbroker_cloud_c_client.Base.HashTable.{HashTable}
use iotbroker_cloud_c_client.Mqtt.Remaining.{invalid, details, decode_remaining_length}
use iotbroker_cloud_c_client.Mqtt.Client.State.{Client, Entry}
use iotbroker_cloud_c_client.Mqtt.Client.Receive.{process_rx}

-- `buf[i+1] + 2` for a signed char: none where it is negative, which is no size for memcpy.
abbrev pub next_length : ℕ → Option ℕ
next_length b = if ltb b 128 then some (b + 2) else if leb 254 b then some (b - 254) else none

module _ (malloc : ℕ → Bytes) (h : HashTable Entry) where
  open h use {Table}

  -- `next_bytes` is a block of `length * sizeof(char*)` bytes, of which the first `length` are set.
  -- A round that goes on takes a byte at least, so the fuel of `readable_bytes` rounds is enough.
  unfoldable pub packet_loop : ℕ → Bytes → ℕ → ℕ → Option ℕ → Client Table → Outcome (Client Table)
  packet_loop zero buf readable_bytes i l c = fault
  packet_loop (suc fuel) buf readable_bytes i l c = do
    l ← deref l
    next_bytes ← slice buf i l
    c ← process_rx malloc h next_bytes c
    let i = i + l
    b ← byte_at buf (i + 1)
    let more = packet_loop fuel buf readable_bytes i (next_length b) c
    (if ltb i readable_bytes then more else ok c)

  -- An invalid length, -1, is below every number of readable bytes, and no size for memcpy.
  unfoldable pub mqtt_data_received : Bytes → ℕ → Client Table → Outcome (Client Table)
  mqtt_data_received buf readable_bytes c = do
    ld ← decode_remaining_length buf
    elim ld as (λ d. Outcome (Client Table)) [
      | invalid ↦ fault
      | details bytes_used l ↦
          (if ltb l readable_bytes
            then packet_loop readable_bytes buf readable_bytes 0 (some l) c
            else process_rx malloc h buf c)
    ]
