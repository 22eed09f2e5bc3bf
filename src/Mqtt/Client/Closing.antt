-- ===== src/Mqtt/Client/Closing.antt =====
-- The client after it has disconnected.
use iotbroker_cloud_c_client.Base.{
  ℕ, ◌≡◌, true, refl, arith, [], ◌∷◌, ◌++◌, ok, fault, Bytes, length, append_assoc, drop,
  write-poke, slice-eq, byte_at, ◌<◌,
}
use iotbroker_cloud_c_client.Base.HashTable.{HashTable}
use iotbroker_cloud_c_client.Mqtt.Packets.{disconnect}
use iotbroker_cloud_c_client.Mqtt.Fire.{encode_and_fire}
use iotbroker_cloud_c_client.Mqtt.Size.{get_length}
use iotbroker_cloud_c_client.Mqtt.Encode.{encode, encode_into, encode_empty}
use iotbroker_cloud_c_client.Mqtt.Remaining.{decode_remaining_length}
use iotbroker_cloud_c_client.Mqtt.Client.State.{
  Client, Entry, live, destroyed, sent, timer_stopped, pinger, messager, connection_closed,
}
use iotbroker_cloud_c_client.Mqtt.Client.Timers.{
  fire, stop_all_timers, cancel, stop_ping_timer, stop_message_timer, message_resend_round,
  add_message_in_map, map_key,
}
use iotbroker_cloud_c_client.Mqtt.Client.Send.{send_disconnect, send_subscribe, next_packet}

-- DISCONNECT as it is sent, with the bit 0x2 in its first byte.
abbrev pub disconnect_packet : Bytes
disconnect_packet = 0xe2 ∷ 0 ∷ []

encode-disconnect :
    (block : Bytes)
    → 1 < length block
    → encode disconnect 0 block ≡ ok (0xe2 ∷ 0 ∷ drop 1 (drop 1 block))
unfolding encode encode_into encode_empty
encode-disconnect block room = write-poke (0xe2 ∷ []) 0 block room

encode_and_fire-disconnect :
    (malloc : ℕ → Bytes)
    → ((n : ℕ) → length (malloc n) ≡ n)
    → encode_and_fire malloc disconnect ≡ ok disconnect_packet
unfolding encode_and_fire get_length decode_remaining_length byte_at
encode_and_fire-disconnect malloc fresh =
    let room : 1 < length (malloc 5) = omega (arith, fresh 5) in
    rw (encode-disconnect (malloc 5) room)
      (slice-eq _ 0 disconnect_packet (drop 1 (drop 1 (malloc 5))) 2 refl refl)

module _ (malloc : ℕ → Bytes) (h : HashTable Entry) where
  open h use {Table}

  -- The client after `send_disconnect`: the map is destroyed, and the pointer still set.
  abbrev pub closed : Client Table → Client Table
  closed c = record c {
    messages_map = destroyed;
    log =
        c.log
        ++ (timer_stopped pinger
            ∷ timer_stopped messager
            ∷ sent disconnect_packet
            ∷ connection_closed
            ∷ []);
  }

  -- `send_disconnect` stops the timers, sends DISCONNECT and closes the connection, in that order,
  -- and leaves the pointer to the destroyed map: to disconnect or to subscribe after that, without
  -- connecting again, or a round of the resend thread, uses the destroyed map, which is undefined.
  -- The conditions are that malloc returns blocks of the size that is asked for, that there is a
  -- map, and that the ping and the resend thread have been started; else `pthread_cancel` is called
  -- on a thread that is not there.
  pub send_disconnect-send_disconnect :
      (t : Table) (c : Client Table) (now qos : ℕ) (topic_name : Bytes)
      → ((n : ℕ) → length (malloc n) ≡ n)
      → c.messages_map ≡ live t
      → c.threads pinger ≡ true
      → c.threads messager ≡ true
      → (send_disconnect malloc h c ≡ ok (closed c))
        × (send_disconnect malloc h (closed c) ≡ fault)
        × (send_subscribe malloc h now topic_name qos (closed c) ≡ fault)
        × (message_resend_round malloc h now (closed c) ≡ fault)
  unfolding send_disconnect stop_all_timers stop_ping_timer stop_message_timer cancel send_subscribe
      next_packet message_resend_round add_message_in_map map_key fire
  send_disconnect-send_disconnect t c now qos topic_name fresh em ep et =
      (simp (em, ep, et, encode_and_fire-disconnect malloc fresh, append_assoc), refl, refl, refl)
