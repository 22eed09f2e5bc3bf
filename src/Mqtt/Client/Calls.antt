-- ===== src/Mqtt/Client/Calls.antt =====
-- The message map through the calls of the user, of the socket and of the timers.
use iotbroker_cloud_c_client.Base.{
  ℕ, zero, suc, ◌+◌, ◌-◌, Bool, true, false, Option, none, some, List, [], ◌∷◌, if◌then◌else◌, ltb,
  ◌==◌, Outcome, ok, fault, deref, Bytes, byte_at, slice,
}
use iotbroker_cloud_c_client.Base.HashTable.{HashTable}
use iotbroker_cloud_c_client.Mqtt.Packets.{connect}
use iotbroker_cloud_c_client.Mqtt.Remaining.{
  LengthDetails, invalid, details, decode_remaining_length,
}
use iotbroker_cloud_c_client.Mqtt.Client.State.{Account, Client, Entry, the_table}
use iotbroker_cloud_c_client.Mqtt.Client.Timers.{
  fire, map_key, start_connect_timer, resend_old, message_resend_round, connect_round,
}
use iotbroker_cloud_c_client.Mqtt.Client.Send.{
  connect_packet, next_packet, send_connect, send_subscribe, send_unsubscribe, send_publish,
  fin_mqtt_client,
}
use iotbroker_cloud_c_client.Mqtt.Client.Receive.{process_rx}
use iotbroker_cloud_c_client.Mqtt.Client.Stream.{packet_loop, next_length, mqtt_data_received}
use iotbroker_cloud_c_client.Mqtt.Client.Keyed.{
  IsKeyed, IsKeyOf-publish, Kept, Kept-ok, Kept-fault, Kept->>=, Kept-step, Kept-if, Kept-fire,
  Kept-add, IsKeyed-start_connect_timer, Kept-stop_all_timers,
}
use iotbroker_cloud_c_client.Mqtt.Client.Replies.{Kept-process_rx}

module _ (malloc : ℕ → Bytes) (h : HashTable Entry) where
  open h use {Table, entries, lookup}

  pub Kept-send_connect :
      (now : ℕ) (a : Account) (c : Client Table)
      → IsKeyed malloc h c.messages_map
      → Kept malloc h (send_connect malloc h now a c)
  unfolding send_connect map_key
  Kept-send_connect now a c k =
      Kept->>= malloc h _ _
        (Kept-fire malloc h (connect (connect_packet a))
          (record c { delay_in_seconds = a.keep_alive }) k)
        λ c k.
          Kept->>= malloc h _ _
            (Kept-add malloc h now (connect (connect_packet a)) (start_connect_timer malloc h c)
              (λ n e. cc) (IsKeyed-start_connect_timer malloc h c))
            λ c k. Kept-ok malloc h _ k

  pub Kept-send_subscribe :
      (now : ℕ) (t : Bytes) (qos : ℕ) (c : Client Table)
      → IsKeyed malloc h c.messages_map
      → Kept malloc h (send_subscribe malloc h now t qos c)
  unfolding send_subscribe next_packet map_key
  Kept-send_subscribe now t qos c k =
      Kept->>= malloc h _ _ (Kept-add malloc h now _ (next_packet malloc h c) (λ n e. cc) k)
        λ c k. Kept-fire malloc h _ c k

  pub Kept-send_unsubscribe :
      (now : ℕ) (t : Bytes) (c : Client Table)
      → IsKeyed malloc h c.messages_map
      → Kept malloc h (send_unsubscribe malloc h now t c)
  unfolding send_unsubscribe next_packet map_key
  Kept-send_unsubscribe now t c k =
      Kept->>= malloc h _ _ (Kept-add malloc h now _ (next_packet malloc h c) (λ n e. cc) k)
        λ c k. Kept-fire malloc h _ c k

  numbered-IsKeyed :
      (b : Bool) (c : Client Table)
      → IsKeyed malloc h c.messages_map
      → IsKeyed malloc h (if b then c else next_packet malloc h c).messages_map
  unfolding next_packet
  numbered-IsKeyed true c k = k
  numbered-IsKeyed false c k = k

  pub Kept-send_publish :
      (now : ℕ) (content t : Bytes) (qos : ℕ) (retain dup : Bool) (c : Client Table)
      → IsKeyed malloc h c.messages_map
      → Kept malloc h (send_publish malloc h now content t qos retain dup c)
  unfolding send_publish
  Kept-send_publish now content t qos retain dup c k =
      Kept->>= malloc h _ _
        (Kept-fire malloc h _ (if qos == 0 then c else next_packet malloc h c)
          (numbered-IsKeyed (qos == 0) c k))
        λ c k.
          Kept-if malloc h (qos == 0) (Kept-ok malloc h _ k)
            (Kept-add malloc h now _ c (λ n e. IsKeyOf-publish _ n e) k)

  pub Kept-fin_mqtt_client :
      (c : Client Table)
      → IsKeyed malloc h c.messages_map
      → Kept malloc h (fin_mqtt_client malloc h c)
  unfolding fin_mqtt_client
  Kept-fin_mqtt_client c k =
      Kept-if malloc h c.connection_established (Kept-ok malloc h c k)
        (Kept-stop_all_timers malloc h _)

  Kept-resend_old :
      (now : ℕ) (es : List (ℕ × Entry)) (c : Client Table)
      → IsKeyed malloc h c.messages_map
      → Kept malloc h (resend_old malloc h now es c)
  unfolding resend_old
  Kept-resend_old now [] c k = Kept-ok malloc h c k
  Kept-resend_old now ((key, e) ∷ es) c k =
      Kept->>= malloc h _ _
        (Kept-if malloc h (ltb 10 (now - e.time_stamp)) (Kept-fire malloc h e.message c k)
          (Kept-ok malloc h c k))
        λ c k. Kept-resend_old now es c k

  pub Kept-message_resend_round :
      (now : ℕ) (c : Client Table)
      → IsKeyed malloc h c.messages_map
      → Kept malloc h (message_resend_round malloc h now c)
  unfolding message_resend_round
  Kept-message_resend_round now c k =
      Kept-step malloc h (the_table c.messages_map) _ λ t. Kept-resend_old now (entries t) c k

  Kept-packet_loop :
      (fuel : ℕ) (buf : Bytes) (readable_bytes i : ℕ) (l : Option ℕ) (c : Client Table)
      → IsKeyed malloc h c.messages_map
      → Kept malloc h (packet_loop malloc h fuel buf readable_bytes i l c)
  unfolding packet_loop
  Kept-packet_loop zero buf readable_bytes i l c k = Kept-fault malloc h
  Kept-packet_loop (suc fuel) buf readable_bytes i l c k = Kept-step malloc h (deref l) _ λ l.
      Kept-step malloc h (slice buf i l) _ λ next_bytes.
        Kept->>= malloc h _ _ (Kept-process_rx malloc h next_bytes c k) λ c k.
          Kept-step malloc h (byte_at buf (i + l + 1)) _ λ b.
            Kept-if malloc h (ltb (i + l) readable_bytes)
              (Kept-packet_loop fuel buf readable_bytes (i + l) (next_length b) c k)
              (Kept-ok malloc h c k)

  pub Kept-mqtt_data_received :
      (buf : Bytes) (readable_bytes : ℕ) (c : Client Table)
      → IsKeyed malloc h c.messages_map
      → Kept malloc h (mqtt_data_received malloc h buf readable_bytes c)
  unfolding mqtt_data_received
  Kept-mqtt_data_received buf readable_bytes c k =
      Kept-step malloc h (decode_remaining_length buf) _ λ d. received_whole d
    where
      received_whole :
          (d : LengthDetails)
          → Kept malloc h (elim d as (λ d. Outcome (Client Table)) [
            | invalid ↦ fault
            | details bytes_used l ↦
                (if ltb l readable_bytes
                  then packet_loop malloc h readable_bytes buf readable_bytes 0 (some l) c
                  else process_rx malloc h buf c)
          ])
      received_whole invalid = Kept-fault malloc h
      received_whole (details bytes_used l) =
          Kept-if malloc h (ltb l readable_bytes)
            (Kept-packet_loop readable_bytes buf readable_bytes 0 (some l) c k)
            (Kept-process_rx malloc h buf c k)

  pub Kept-connect_round :
      (c : Client Table)
      → IsKeyed malloc h c.messages_map
      → Kept malloc h (connect_round malloc h c)
  unfolding connect_round
  Kept-connect_round c k =
      Kept-step malloc h (the_table c.messages_map) _ λ t. sent_again (lookup 0 t)
    where
      sent_again :
          (o : Option Entry)
          → Kept malloc h (elim o as (λ o. Outcome (Client Table)) [
            | none ↦ ok c
            | some e ↦ fire malloc h e.message c
          ])
      sent_again none = Kept-ok malloc h c k
      sent_again (some e) = Kept-fire malloc h e.message c k
