-- ===== src/MqttSn/Client/Receive.antt =====
-- src/mqttsn/mqtt_sn_client.c, `process_sn_rx`: what the client does with a packet.
use iotbroker_cloud_c_client.Base.{
  ℕ, ◌+◌, ◌%◌, Option, none, some, [], ◌∷◌, if◌then◌else◌, ◌==◌, Outcome, ok, fault, ◌>>=◌, deref,
  Bytes,
}
use iotbroker_cloud_c_client.MqttSn.Packets.{
  SnTopic, SnRegister, SnRegAck, SnPublish, SnSubscribe, SnSuback, SnUnsubscribe, SnMessage,
  sn_connack, sn_will_topic_req, sn_will_msg_req, sn_register, sn_regack, sn_publish, sn_puback,
  sn_pubcomp, sn_pubrec, sn_pubrel, sn_subscribe, sn_suback, sn_unsubscribe, sn_unsuback,
  sn_disconnect,
}
use iotbroker_cloud_c_client.MqttSn.Decode.{SnDecoded, received, incomplete, sn_decode}
use iotbroker_cloud_c_client.MqttSn.Client.State.{
  Libraries, SnClient, SnDelivery, connection_successful, publish_received, message_saved,
  window_updated, topic_unlisted, topic_deleted, topic_listed, topic_saved, error_shown,
  record_effects,
}
use iotbroker_cloud_c_client.MqttSn.Client.Timers.{
  start_mqtt_sn_ping_timer, sn_stop_connect_timer, sn_get_message_from_map,
  sn_remove_message_from_map, sn_add_topic_id_in_map, sn_add_topic_name_in_map,
  sn_get_topic_name_from_map,
}
use iotbroker_cloud_c_client.MqttSn.Client.Send.{
  sn_delivery_of, send_sn_publish, send_will_topic, send_will_message, send_sn_pubrel,
  send_sn_puback, send_sn_pubrec, send_sn_pubcomp, send_sn_regack, fin_mqtt_sn_client,
}

-- `sn_message->packet` cast to a struct: of another message than the code takes it for, its bytes mean
-- nothing.
abbrev pub as_publish : SnMessage → Outcome SnPublish
as_publish (sn_publish p) = ok p
as_publish _ = fault

abbrev pub as_subscribe : SnMessage → Outcome SnSubscribe
as_subscribe (sn_subscribe s) = ok s
as_subscribe _ = fault

abbrev pub as_unsubscribe : SnMessage → Outcome SnUnsubscribe
as_unsubscribe (sn_unsubscribe u) = ok u
as_unsubscribe _ = fault

module _ (w : Libraries) where
  unfoldable pub on_connack : ℕ → SnClient w → Outcome (SnClient w)
  on_connack code c = do
    c ← sn_stop_connect_timer w c
    c ← sn_remove_message_from_map w 0 c
    (if code == 0
        then (do
          let c = record_effects (connection_successful ∷ []) c
          ok (start_mqtt_sn_ping_timer w c.delay_in_seconds c))
        else ok c)

  -- The two tables of topics, the name first.
  unfoldable pub add_topic : Bytes → ℕ → SnClient w → Outcome (SnClient w)
  add_topic topic_name topic_id c = do
    c ← sn_add_topic_id_in_map w topic_name topic_id c
    sn_add_topic_name_in_map w topic_id topic_name c

  unfoldable pub on_register : SnRegister → SnClient w → Outcome (SnClient w)
  on_register r c = do
    topic_name ← deref r.topic_name
    c ← add_topic topic_name r.topic_id c
    send_sn_regack w r.msg_id r.topic_id c

  -- `message_id - 1` passes through an unsigned short.
  abbrev pub previous : ℕ → ℕ
  previous n = (n + 65535) % 65536

  unfoldable pub on_registered : ℕ → SnRegAck → SnPublish → SnClient w → Outcome (SnClient w)
  on_registered now ra p c = do
    topic_name ← deref p.topic.value
    c ← add_topic topic_name ra.topic_id c
    let topic : SnTopic = record p.topic { id = some ra.topic_id }
    send_sn_publish w now (record p { topic = topic }) c

  unfoldable pub on_regack : ℕ → SnRegAck → SnClient w → Outcome (SnClient w)
  on_regack now ra c = do
    waiting ← sn_get_message_from_map w (previous ra.message_id) c
    elim waiting as (λ o. Outcome (SnClient w)) [
      | none ↦ ok c
      | some e ↦ (do
        c ← if ra.code == 0 then (do p ← as_publish e.message; on_registered now ra p c) else ok c
        c ← sn_remove_message_from_map w (previous ra.message_id) c
        sn_remove_message_from_map w ra.message_id c)
    ]

  unfoldable pub on_publish : SnPublish → SnClient w → Outcome (SnClient w)
  on_publish p c = do
    topic_id ← deref p.topic.id
    topic_name ← sn_get_topic_name_from_map w topic_id c
    content ← deref p.data_text
    let d : SnDelivery = record {
      content = content;
      topic_name = topic_name;
      qos = p.topic.qos;
      retain = p.retain;
      dup = p.dup;
    }
    let c = record_effects (publish_received d ∷ []) c
    (if p.topic.qos == 1
        then send_sn_puback w p.message_id topic_id c
        else if p.topic.qos == 2
        then send_sn_pubrec w p.message_id c
        else ok c)

  abbrev pub save_delivery : SnPublish → SnClient w → Outcome (SnClient w)
  save_delivery p c = do
    d ← sn_delivery_of p
    is_incoming ← deref p.is_incoming
    ok (record_effects (message_saved d is_incoming ∷ window_updated d is_incoming ∷ []) c)

  unfoldable pub on_puback : ℕ → SnClient w → Outcome (SnClient w)
  on_puback n c = do
    waiting ← sn_get_message_from_map w n c
    elim waiting as (λ o. Outcome (SnClient w)) [
      | none ↦ ok c
      | some e ↦ (do
        p ← as_publish e.message
        c ← save_delivery p c
        sn_remove_message_from_map w n c)
    ]

  -- The test is of the PUBCOMP, not of what the map holds, and never true.
  unfoldable pub on_pubcomp : ℕ → SnClient w → Outcome (SnClient w)
  on_pubcomp n c = do
    waiting ← sn_get_message_from_map w n c
    e ← deref waiting
    p ← as_publish e.message
    c ← save_delivery p c
    sn_remove_message_from_map w p.message_id c

  -- A topic that the gateway accepts, by the name that its id has already, or by that of the SUBSCRIBE.
  unfoldable pub list_topic :
      SnSuback → SnSubscribe → Option Bytes → SnClient w → Outcome (SnClient w)
  list_topic sa s none c = do
    value ← deref s.topic.value
    c ← add_topic value sa.topic_id c
    ok (record_effects (topic_listed value s.topic.qos ∷ topic_saved value s.topic.qos ∷ []) c)
  list_topic sa s (some topic_name) c = ok (
      record_effects (topic_listed topic_name s.topic.qos ∷ topic_saved topic_name s.topic.qos ∷ [])
        c)

  unfoldable pub on_suback : SnSuback → SnClient w → Outcome (SnClient w)
  on_suback sa c = do
    waiting ← sn_get_message_from_map w sa.message_id c
    elim waiting as (λ o. Outcome (SnClient w)) [
      | none ↦ ok c
      | some e ↦ (do
        c ←
            if sa.code == 0
            then (do
              s ← as_subscribe e.message
              topic_name ← sn_get_topic_name_from_map w sa.topic_id c
              list_topic sa s topic_name c)
            else ok (record_effects (error_shown sa.code ∷ []) c)
        sn_remove_message_from_map w sa.message_id c)
    ]

  -- The name of a topic, copied, or looked up by its id.
  unfoldable pub topic_name_of : SnTopic → SnClient w → Outcome (Option Bytes)
  topic_name_of t c = do
    topic_type ← deref t.topic_type
    (if topic_type == 0
        then (do value ← deref t.value; ok (some value))
        else (do id ← deref t.id; sn_get_topic_name_from_map w id c))

  -- As in `on_pubcomp`, the test is of the wrong message.
  unfoldable pub on_unsuback : ℕ → SnClient w → Outcome (SnClient w)
  on_unsuback n c = do
    waiting ← sn_get_message_from_map w n c
    e ← deref waiting
    u ← as_unsubscribe e.message
    topic_name ← topic_name_of u.topic c
    let c = record_effects (topic_unlisted topic_name ∷ topic_deleted topic_name ∷ []) c
    sn_remove_message_from_map w u.message_id c

  -- The types that a gateway does not send are printed only.
  unfoldable pub handle_sn_message : ℕ → SnMessage → SnClient w → Outcome (SnClient w)
  handle_sn_message now (sn_connack code) c = on_connack code c
  handle_sn_message now sn_will_topic_req c = send_will_topic w c
  handle_sn_message now sn_will_msg_req c = send_will_message w c
  handle_sn_message now (sn_register r) c = on_register r c
  handle_sn_message now (sn_regack r) c = on_regack now r c
  handle_sn_message now (sn_publish p) c = on_publish p c
  handle_sn_message now (sn_puback p) c = on_puback p.message_id c
  handle_sn_message now (sn_pubcomp n) c = on_pubcomp n c
  handle_sn_message now (sn_pubrec n) c = send_sn_pubrel w n c
  handle_sn_message now (sn_pubrel n) c = send_sn_pubcomp w n c
  handle_sn_message now (sn_suback s) c = on_suback s c
  handle_sn_message now (sn_unsuback n) c = on_unsuback n c
  handle_sn_message now (sn_disconnect d) c = fin_mqtt_sn_client w c
  handle_sn_message now _ c = ok c

  -- A type with no packet has no case.
  unfoldable pub handle_sn_decoded : ℕ → SnDecoded → SnClient w → Outcome (SnClient w)
  handle_sn_decoded now (received m) c = handle_sn_message now m c
  handle_sn_decoded now (incomplete type) c = ok c

  unfoldable pub process_sn_rx : ℕ → Bytes → SnClient w → Outcome (SnClient w)
  process_sn_rx now data_bytes c = do d ← sn_decode data_bytes; handle_sn_decoded now d c
