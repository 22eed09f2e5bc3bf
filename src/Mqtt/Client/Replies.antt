-- ===== src/Mqtt/Client/Replies.antt =====
-- The message map through `process_rx`, case by case.
use iotbroker_cloud_c_client.Base.{ℕ, ◌==◌, deref, Bytes}
use iotbroker_cloud_c_client.Base.HashTable.{HashTable}
use iotbroker_cloud_c_client.Mqtt.Packets.{
  Message, MessageType, connect_type, subscribe_type, unsubscribe_type, Connack, Publish, Suback,
  Decoded, received, dangling, incomplete, unknown, connack, publish, puback, pubrec, pubrel,
  pubcomp, suback, unsuback, pingresp, connect, subscribe, unsubscribe, pingreq, disconnect,
}
use iotbroker_cloud_c_client.Mqtt.Decode.{decode}
use iotbroker_cloud_c_client.Mqtt.Client.State.{Client, Entry, connecter}
use iotbroker_cloud_c_client.Mqtt.Client.Timers.{
  stop_connect_timer, start_mqtt_ping_timer, start_message_timer,
}
use iotbroker_cloud_c_client.Mqtt.Client.Send.{
  send_puback, send_pubrec, send_pubrel, send_pubcomp, send_disconnect,
}
use iotbroker_cloud_c_client.Mqtt.Client.Receive.{
  as_publish, as_subscribe, as_unsubscribe, first, delivery_of, on_connack, on_publish,
  on_delivered, on_suback, on_unsuback, on_unacceptable, handle_message, handle_incomplete,
  handle_decoded, process_rx,
}
use iotbroker_cloud_c_client.Mqtt.Client.Keyed.{
  IsKeyed, Kept, Kept-ok, Kept-fault, Kept->>=, Kept-step, Kept-if, Kept-fire, Kept-remove,
  Kept-cancel, Kept-refused, Kept-get, Kept-stop_all_timers,
}

module _ (malloc : ℕ → Bytes) (h : HashTable Entry) where
  open h use {Table}

  Kept-on_connack :
      (ca : Connack) (c : Client Table)
      → IsKeyed malloc h c.messages_map
      → Kept malloc h (on_connack malloc h ca c)
  unfolding on_connack stop_connect_timer start_mqtt_ping_timer start_message_timer
  Kept-on_connack ca c k = Kept->>= malloc h _ _ (Kept-cancel malloc h connecter c k) λ c k.
      Kept->>= malloc h _ _ (Kept-remove malloc h 0 c k)
        λ c k. Kept-if malloc h (ca.return_code == 0) (Kept-ok malloc h _ k) (Kept-ok malloc h _ k)

  Kept-on_publish :
      (p : Publish) (c : Client Table)
      → IsKeyed malloc h c.messages_map
      → Kept malloc h (on_publish malloc h p c)
  unfolding on_publish send_puback send_pubrec
  Kept-on_publish p c k = Kept-step malloc h (delivery_of p) _ λ d.
      Kept-if malloc h (p.topic.qos == 1)
        (Kept-step malloc h (deref p.packet_id) _ λ n. Kept-fire malloc h _ _ k)
        (Kept-if malloc h (p.topic.qos == 2)
          (Kept-step malloc h (deref p.packet_id) _ λ n. Kept-fire malloc h _ _ k)
          (Kept-ok malloc h _ k))

  Kept-on_delivered :
      (n : ℕ) (c : Client Table)
      → IsKeyed malloc h c.messages_map
      → Kept malloc h (on_delivered malloc h n c)
  unfolding on_delivered
  Kept-on_delivered n c k = Kept-get malloc h n c _ (Kept-ok malloc h c k) λ e.
      Kept-step malloc h (as_publish e.message) _
        λ p. Kept-step malloc h (delivery_of p) _ λ d. Kept-remove malloc h n _ k

  Kept-on_suback :
      (sa : Suback) (c : Client Table)
      → IsKeyed malloc h c.messages_map
      → Kept malloc h (on_suback malloc h sa c)
  unfolding on_suback
  Kept-on_suback sa c k = Kept-get malloc h sa.packet_id c _ (Kept-ok malloc h c k) λ e.
      Kept-step malloc h (first sa.codes) _ λ code.
        Kept->>= malloc h _ _
          (Kept-if malloc h (code == 128) (Kept-ok malloc h _ k) (
            Kept-step malloc h (as_subscribe e.message) _
              λ s. Kept-step malloc h (first s.topics) _ λ t. Kept-ok malloc h _ k))
          λ c k. Kept-remove malloc h sa.packet_id c k

  Kept-on_unsuback :
      (n : ℕ) (c : Client Table)
      → IsKeyed malloc h c.messages_map
      → Kept malloc h (on_unsuback malloc h n c)
  unfolding on_unsuback
  Kept-on_unsuback n c k = Kept-get malloc h n c _ (Kept-ok malloc h c k) λ e.
      Kept-step malloc h (as_unsubscribe e.message) _
        λ u. Kept-step malloc h (first u.topics) _ λ t. Kept-remove malloc h n _ k

  pub Kept-send_disconnect : (c : Client Table) → Kept malloc h (send_disconnect malloc h c)
  unfolding send_disconnect
  Kept-send_disconnect c =
      Kept->>= malloc h _ _ (Kept-stop_all_timers malloc h c)
        λ c k. Kept->>= malloc h _ _ (Kept-fire malloc h disconnect c k) λ c k. Kept-ok malloc h _ k

  Kept-on_unacceptable : (c : Client Table) → Kept malloc h (on_unacceptable malloc h c)
  unfolding on_unacceptable
  Kept-on_unacceptable c =
      Kept->>= malloc h _ _ (Kept-send_disconnect c) λ c k. Kept-refused malloc h

  Kept-handle_message :
      (m : Message) (c : Client Table)
      → IsKeyed malloc h c.messages_map
      → Kept malloc h (handle_message malloc h m c)
  unfolding handle_message send_pubrel send_pubcomp
  Kept-handle_message (connack ca) c k = Kept-on_connack ca c k
  Kept-handle_message (publish p) c k = Kept-on_publish p c k
  Kept-handle_message (puback n) c k = Kept-on_delivered n c k
  Kept-handle_message (pubrec n) c k = Kept-fire malloc h _ c k
  Kept-handle_message (pubrel n) c k = Kept-fire malloc h _ c k
  Kept-handle_message (pubcomp n) c k = Kept-on_delivered n c k
  Kept-handle_message (suback sa) c k = Kept-on_suback sa c k
  Kept-handle_message (unsuback n) c k = Kept-on_unsuback n c k
  Kept-handle_message pingresp c k = Kept-ok malloc h c k
  Kept-handle_message (connect p) c k = Kept-on_unacceptable c
  Kept-handle_message (subscribe s) c k = Kept-on_unacceptable c
  Kept-handle_message (unsubscribe u) c k = Kept-on_unacceptable c
  Kept-handle_message pingreq c k = Kept-on_unacceptable c
  Kept-handle_message disconnect c k = Kept-on_unacceptable c

  Kept-handle_incomplete :
      (t : MessageType) (c : Client Table) → Kept malloc h (handle_incomplete malloc h t c)
  Kept-handle_incomplete t c = elim t as (λ t. Kept malloc h (handle_incomplete malloc h t c)) [
    | connect_type ↦ Kept-on_unacceptable c
    | subscribe_type ↦ Kept-on_unacceptable c
    | unsubscribe_type ↦ Kept-on_unacceptable c
    | _ ↦ Kept-fault malloc h
  ]

  Kept-handle_decoded :
      (d : Decoded) (c : Client Table)
      → IsKeyed malloc h c.messages_map
      → Kept malloc h (handle_decoded malloc h d c)
  unfolding handle_decoded
  Kept-handle_decoded (received m) c k = Kept-handle_message m c k
  Kept-handle_decoded (dangling m) c k = Kept-on_unacceptable c
  Kept-handle_decoded (incomplete t) c k = Kept-handle_incomplete t c
  Kept-handle_decoded unknown c k = Kept-fault malloc h

  pub Kept-process_rx :
      (buf : Bytes) (c : Client Table)
      → IsKeyed malloc h c.messages_map
      → Kept malloc h (process_rx malloc h buf c)
  unfolding process_rx
  Kept-process_rx buf c k = Kept-step malloc h (decode buf) _ λ d. Kept-handle_decoded d c k
