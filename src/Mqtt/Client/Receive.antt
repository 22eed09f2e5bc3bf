-- ===== src/Mqtt/Client/Receive.antt =====
-- src/mqtt/mqtt_client.c, `process_rx`: what the client does with a packet.
use iotbroker_cloud_c_client.Base.{
  ℕ, true, none, some, List, [], ◌∷◌, if◌then◌else◌, ◌==◌, Outcome, ok, refused, fault, ◌>>=◌,
  deref, Bytes,
}
use iotbroker_cloud_c_client.Base.HashTable.{HashTable}
use iotbroker_cloud_c_client.Mqtt.Packets.{
  Message, MessageType, Decoded, Connack, Publish, Subscribe, Suback, Unsubscribe, Topic, connack,
  publish, puback, pubrec, pubrel, pubcomp, subscribe, suback, unsubscribe, unsuback, pingresp,
  received, dangling, incomplete, unknown, connect_type, subscribe_type, unsubscribe_type,
}
use iotbroker_cloud_c_client.Mqtt.Decode.{decode}
use iotbroker_cloud_c_client.Mqtt.Client.State.{
  Client, Entry, Effect, Delivery, return_code, connection_successful, connection_unsuccessful,
  publish_received, message_saved, window_updated, topic_unlisted, topic_deleted, topic_listed,
  topic_saved, error_shown, connection_closed, record_effects,
}
use iotbroker_cloud_c_client.Mqtt.Client.Timers.{
  start_mqtt_ping_timer, start_message_timer, stop_connect_timer, get_message_from_map,
  remove_message_from_map,
}
use iotbroker_cloud_c_client.Mqtt.Client.Send.{
  send_puback, send_pubrec, send_pubrel, send_pubcomp, send_disconnect,
}

-- `message->packet` cast to a struct: of another message than the code takes it for, its bytes mean
-- nothing.
abbrev pub as_publish : Message → Outcome Publish
as_publish (publish p) = ok p
as_publish _ = fault

abbrev pub as_subscribe : Message → Outcome Subscribe
as_subscribe (subscribe s) = ok s
as_subscribe _ = fault

abbrev pub as_unsubscribe : Message → Outcome Unsubscribe
as_unsubscribe (unsubscribe u) = ok u
as_unsubscribe _ = fault

-- The first element of an array.
abbrev pub first {ℓ} : {A : Type ℓ} → List A → Outcome A
first [] = fault
first (a ∷ as') = ok a

unfoldable pub delivery_of : Publish → Outcome Delivery
delivery_of p = do
  content ← deref p.content
  ok (record {
    content = content;
    topic_name = p.topic.topic_name;
    qos = p.topic.qos;
    retain = p.retain;
    dup = p.dup;
  })

-- A topic that is there already is taken out first.
abbrev pub listed : Topic → List Effect
listed t =
    topic_unlisted t.topic_name
    ∷ topic_deleted t.topic_name
    ∷ topic_listed t.topic_name t.qos
    ∷ topic_saved t.topic_name t.qos
    ∷ []

module _ (malloc : ℕ → Bytes) (h : HashTable Entry) where
  open h use {Table}

  unfoldable pub on_connack : Connack → Client Table → Outcome (Client Table)
  on_connack ca c = do
    c ← stop_connect_timer malloc h c
    c ← remove_message_from_map malloc h 0 c
    (if ca.return_code == 0
        then (do
          let c = record_effects (connection_successful ∷ []) c
          let c = start_mqtt_ping_timer malloc h c.delay_in_seconds c
          let c = start_message_timer malloc h c
          ok (record c { connection_established = true }))
        else ok (
            record_effects
              (connection_unsuccessful (return_code ca.return_code) ∷ connection_closed ∷ []) c))

  unfoldable pub on_publish : Publish → Client Table → Outcome (Client Table)
  on_publish p c = do
    d ← delivery_of p
    let c = record_effects (publish_received d ∷ []) c
    (if p.topic.qos == 1
        then (do n ← deref p.packet_id; send_puback malloc h n c)
        else if p.topic.qos == 2
        then (do n ← deref p.packet_id; send_pubrec malloc h n c)
        else ok c)

  -- The end of a delivery: PUBACK at QoS 1 and PUBCOMP at QoS 2.
  unfoldable pub on_delivered : ℕ → Client Table → Outcome (Client Table)
  on_delivered n c = do
    waiting ← get_message_from_map malloc h n c
    elim waiting as (λ o. Outcome (Client Table)) [
      | none ↦ ok c
      | some e ↦ (do
        p ← as_publish e.message
        d ← delivery_of p
        remove_message_from_map malloc h n
            (record_effects (message_saved d ∷ window_updated d ∷ []) c))
    ]

  unfoldable pub on_suback : Suback → Client Table → Outcome (Client Table)
  on_suback sa c = do
    waiting ← get_message_from_map malloc h sa.packet_id c
    elim waiting as (λ o. Outcome (Client Table)) [
      | none ↦ ok c
      | some e ↦ (do
        code ← first sa.codes
        c ← if code == 128 then ok (record_effects (error_shown code ∷ []) c) else (do
          s ← as_subscribe e.message
          t ← first s.topics
          ok (record_effects (listed t) c))
        remove_message_from_map malloc h sa.packet_id c)
    ]

  unfoldable pub on_unsuback : ℕ → Client Table → Outcome (Client Table)
  on_unsuback n c = do
    waiting ← get_message_from_map malloc h n c
    elim waiting as (λ o. Outcome (Client Table)) [
      | none ↦ ok c
      | some e ↦ (do
        u ← as_unsubscribe e.message
        t ← first u.topics
        remove_message_from_map malloc h n
            (record_effects (topic_unlisted t.topic_name ∷ topic_deleted t.topic_name ∷ []) c))
    ]

  -- A packet that no broker sends: the client disconnects and `exit(-1)` ends the process, so
  -- that there is no client any more and nothing behind the packet is handled.
  unfoldable pub on_unacceptable : Client Table → Outcome (Client Table)
  on_unacceptable c = do c ← send_disconnect malloc h c; refused

  unfoldable pub handle_message : Message → Client Table → Outcome (Client Table)
  handle_message (connack ca) c = on_connack ca c
  handle_message (publish p) c = on_publish p c
  handle_message (puback n) c = on_delivered n c
  handle_message (pubrec n) c = send_pubrel malloc h n c
  handle_message (pubrel n) c = send_pubcomp malloc h n c
  handle_message (pubcomp n) c = on_delivered n c
  handle_message (suback sa) c = on_suback sa c
  handle_message (unsuback n) c = on_unsuback n c
  handle_message pingresp c = ok c
  handle_message _ c = on_unacceptable c

  -- The types whose case does not look at the packet.
  abbrev pub handle_incomplete : MessageType → Client Table → Outcome (Client Table)
  handle_incomplete connect_type c = on_unacceptable c
  handle_incomplete subscribe_type c = on_unacceptable c
  handle_incomplete unsubscribe_type c = on_unacceptable c
  handle_incomplete _ c = fault

  unfoldable pub handle_decoded : Decoded → Client Table → Outcome (Client Table)
  handle_decoded (received m) c = handle_message m c
  handle_decoded (dangling m) c = on_unacceptable c
  handle_decoded (incomplete t) c = handle_incomplete t c
  handle_decoded unknown c = fault

  -- Over plain MQTT `process_rx` does not look at its second argument, the length.
  unfoldable pub process_rx : Bytes → Client Table → Outcome (Client Table)
  process_rx buf c = do m ← decode buf; handle_decoded m c
