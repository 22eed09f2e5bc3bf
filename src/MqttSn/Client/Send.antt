-- ===== src/MqttSn/Client/Send.antt =====
-- src/mqttsn/mqtt_sn_client.c: the calls of the user, and the answers to a gateway.
use iotbroker_cloud_c_client.Base.{
  ℕ, ◌+◌, ◌%◌, Bool, true, false, ◌&&◌, Option, none, some, [], ◌∷◌, if◌then◌else◌, ◌==◌, Outcome,
  ok, ◌>>=◌, deref, Bytes,
}
use iotbroker_cloud_c_client.MqttSn.Packets.{
  SnTopic, SnConnect, SnPublish, sn_connect, sn_will_topic, sn_will_msg, sn_register, sn_regack,
  sn_publish, sn_puback, sn_pubcomp, sn_pubrec, sn_pubrel, sn_subscribe, sn_unsubscribe, sn_pingreq,
  sn_disconnect,
}
use iotbroker_cloud_c_client.MqttSn.Client.State.{
  Account, Libraries, SnClient, SnDelivery, message_saved, window_updated, connection_closed,
  connection_unsuccessful, record_effects,
}
use iotbroker_cloud_c_client.MqttSn.Client.Timers.{
  sn_fire, sn_start_connect_timer, sn_add_message_in_map, sn_stop_all_timers,
  sn_get_topic_id_from_map, sn_connect_rounds,
}

abbrev is_some : Option Bytes → Bool
is_some none = false
is_some (some s) = true

-- An unsigned short holds the keep-alive time.
unfoldable pub sn_connect_packet : Account → SnConnect
sn_connect_packet a = record {
  will_present = is_some a.will && is_some a.will_topic;
  clean_session = a.clean_session;
  protocol_id = 1;
  duration = a.keep_alive % 65536;
  client_id = some a.client_id;
}

-- The topic of a SUBSCRIBE or an UNSUBSCRIBE: its id where it has one, its name where it has none.
unfoldable pub named_topic : Bytes → ℕ → ℕ → SnTopic
named_topic topic_name qos topic_id =
    if topic_id == 0
    then record { id = none; value = some topic_name; qos = qos; topic_type = some 0 }
    else record { id = some topic_id; value = none; qos = qos; topic_type = some 1 }

unfoldable pub sn_delivery_of : SnPublish → Outcome SnDelivery
sn_delivery_of p = do
  content ← deref p.data_text
  topic_name ← deref p.topic.value
  ok (record {
    content = content;
    topic_name = some topic_name;
    qos = p.topic.qos;
    retain = p.retain;
    dup = p.dup;
  })

module _ (w : Libraries) where
  unfoldable pub send_sn_connect : ℕ → Account → SnClient w → Outcome (SnClient w)
  send_sn_connect now a c = do
    let message = sn_connect (sn_connect_packet a)
    c ← sn_fire w message (record c { delay_in_seconds = a.keep_alive; account = a })
    sn_add_message_in_map w now message (sn_start_connect_timer w c)

  -- `++current_packet_number`; an unsigned short holds the packet id.
  unfoldable pub next_packet : SnClient w → SnClient w
  next_packet c = record c { current_packet_number = c.current_packet_number + 1 }

  abbrev pub packet_id : SnClient w → ℕ
  packet_id c = c.current_packet_number % 65536

  unfoldable pub send_sn_subscribe : ℕ → Bytes → ℕ → SnClient w → Outcome (SnClient w)
  send_sn_subscribe now topic_name qos c = do
    topic_id ← sn_get_topic_id_from_map w topic_name c
    let c = next_packet c
    let message = sn_subscribe (record {
      message_id = packet_id c;
      topic = named_topic topic_name qos topic_id;
      dup = false;
    })
    c ← sn_add_message_in_map w now message c
    sn_fire w message c

  unfoldable pub send_sn_register : ℕ → Bytes → SnClient w → Outcome (SnClient w)
  send_sn_register now topic_name c = do
    let c = next_packet c
    let message =
        sn_register (record { topic_id = 0; msg_id = packet_id c; topic_name = some topic_name })
    c ← sn_add_message_in_map w now message c
    sn_fire w message c

  unfoldable pub send_sn_publish : ℕ → SnPublish → SnClient w → Outcome (SnClient w)
  send_sn_publish now p c = do
    let c = next_packet c
    let p : SnPublish = record p { is_incoming = some false; message_id = packet_id c }
    c ← sn_fire w (sn_publish p) c
    (if p.topic.qos == 0
        then (do
          d ← sn_delivery_of p
          ok (record_effects (message_saved d false ∷ window_updated d false ∷ []) c))
        else sn_add_message_in_map w now (sn_publish p) c)

  unfoldable pub send_sn_message :
      ℕ → Bytes → Bytes → ℕ → Bool → Bool → SnClient w → Outcome (SnClient w)
  send_sn_message now content topic_name qos retain dup c = do
    topic_id ← sn_get_topic_id_from_map w topic_name c
    let c = next_packet c
    let p : SnPublish = record {
      message_id = packet_id c;
      topic = record {
        id = some topic_id;
        value = some topic_name;
        qos = qos;
        topic_type = some 1;
      };
      data_text = some content;
      dup = dup;
      retain = retain;
      is_incoming = some false;
    }
    (if topic_id == 0
        then (do
          c ← sn_add_message_in_map w now (sn_publish p) c
          send_sn_register now topic_name c)
        else send_sn_publish now p c)

  -- The QoS of the topic is not set and not read.
  unfoldable pub send_sn_unsubscribe : ℕ → Bytes → SnClient w → Outcome (SnClient w)
  send_sn_unsubscribe now topic_name c = do
    topic_id ← sn_get_topic_id_from_map w topic_name c
    let c = next_packet c
    let message =
        sn_unsubscribe
          (record { message_id = packet_id c; topic = named_topic topic_name 0 topic_id })
    c ← sn_add_message_in_map w now message c
    sn_fire w message c

  unfoldable pub send_will_topic : SnClient w → Outcome (SnClient w)
  send_will_topic c =
      let topic : SnTopic = record {
        id = none;
        value = c.account.will_topic;
        qos = c.account.qos;
        topic_type = none;
      } in
      sn_fire w (sn_will_topic (record { retain = c.account.is_retain; topic = some topic })) c

  unfoldable pub send_will_message : SnClient w → Outcome (SnClient w)
  send_will_message c = sn_fire w (sn_will_msg c.account.will) c

  unfoldable pub send_sn_pubrel : ℕ → SnClient w → Outcome (SnClient w)
  send_sn_pubrel n c = sn_fire w (sn_pubrel n) c

  unfoldable pub send_sn_puback : ℕ → ℕ → SnClient w → Outcome (SnClient w)
  send_sn_puback n topic_id c =
      sn_fire w (sn_puback (record { topic_id = topic_id; message_id = n; code = 0 })) c

  unfoldable pub send_sn_pubrec : ℕ → SnClient w → Outcome (SnClient w)
  send_sn_pubrec n c = sn_fire w (sn_pubrec n) c

  unfoldable pub send_sn_pubcomp : ℕ → SnClient w → Outcome (SnClient w)
  send_sn_pubcomp n c = sn_fire w (sn_pubcomp n) c

  unfoldable pub send_sn_regack : ℕ → ℕ → SnClient w → Outcome (SnClient w)
  send_sn_regack n topic_id c =
      sn_fire w (sn_regack (record { topic_id = topic_id; message_id = n; code = 0 })) c

  unfoldable pub sn_send_ping : SnClient w → Outcome (SnClient w)
  sn_send_ping c = sn_fire w (sn_pingreq (some c.account.client_id)) c

  unfoldable pub send_sn_disconnect : SnClient w → Outcome (SnClient w)
  send_sn_disconnect c = do
    c ← sn_stop_all_timers w (record c { is_disconnect_sent = true })
    c ← sn_fire w (sn_disconnect (c.account.keep_alive % 65536)) c
    ok (record_effects (connection_closed ∷ []) c)

  unfoldable pub fin_mqtt_sn_client : SnClient w → Outcome (SnClient w)
  fin_mqtt_sn_client c = if c.is_disconnect_sent then ok c else (do
    c ← sn_stop_all_timers w c
    ok (record_effects (connection_closed ∷ connection_unsuccessful ∷ []) c))

  -- The thread that the connect timer starts.
  unfoldable pub sn_connect_task : SnClient w → Outcome (SnClient w)
  sn_connect_task c = do c ← sn_connect_rounds w 5 c; fin_mqtt_sn_client c
