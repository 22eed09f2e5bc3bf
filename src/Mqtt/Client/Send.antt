-- ===== src/Mqtt/Client/Send.antt =====
-- src/mqtt/mqtt_client.c: the calls of the user, and the answers to a broker.
use iotbroker_cloud_c_client.Base.{
  ℕ, ◌+◌, ◌%◌, Bool, true, false, ◌&&◌, Option, none, some, [], ◌∷◌, if◌then◌else◌, ◌==◌, Outcome,
  ok, ◌>>=◌, Bytes,
}
use iotbroker_cloud_c_client.Base.HashTable.{HashTable}
use iotbroker_cloud_c_client.Mqtt.Packets.{
  Connect, Publish, Topic, connect, publish, puback, pubrec, pubrel, pubcomp, subscribe,
  unsubscribe, pingreq, disconnect,
}
use iotbroker_cloud_c_client.Mqtt.Client.State.{
  Account, Client, Entry, Delivery, no_connection, message_saved, window_updated, connection_closed,
  connection_unsuccessful, record_effects,
}
use iotbroker_cloud_c_client.Mqtt.Client.Timers.{
  fire, start_connect_timer, add_message_in_map, stop_all_timers,
}

abbrev is_some : Option Bytes → Bool
is_some none = false
is_some (some s) = true

-- An unsigned short holds the keep-alive time.
unfoldable pub connect_packet : Account → Connect
connect_packet a = record {
  username = some a.username;
  password = some a.password;
  client_id = a.client_id;
  clean_session = a.clean_session;
  will_flag = is_some a.will && is_some a.will_topic;
  keepalive = a.keep_alive % 65536;
  protocol_level = 4;
  will = record { topic_name = a.will_topic; qos = a.qos; content = a.will; retain = a.is_retain };
}

module _ (malloc : ℕ → Bytes) (h : HashTable Entry) where
  open h use {Table}

  unfoldable pub send_connect : ℕ → Account → Client Table → Outcome (Client Table)
  send_connect now a c = do
    let message = connect (connect_packet a)
    c ← fire malloc h message (record c { delay_in_seconds = a.keep_alive })
    c ← add_message_in_map malloc h now message (start_connect_timer malloc h c)
    ok (record c { connection_established = true })

  -- `++current_packet_number`; an unsigned short holds the packet id.
  unfoldable pub next_packet : Client Table → Client Table
  next_packet c = record c { current_packet_number = c.current_packet_number + 1 }

  abbrev pub packet_id : Client Table → ℕ
  packet_id c = c.current_packet_number % 65536

  unfoldable pub send_subscribe : ℕ → Bytes → ℕ → Client Table → Outcome (Client Table)
  send_subscribe now topic_name qos c = do
    let c = next_packet c
    let topic : Topic = record { topic_name = topic_name; qos = qos }
    let message = subscribe (record { topics = topic ∷ []; packet_id = packet_id c })
    c ← add_message_in_map malloc h now message c
    fire malloc h message c

  -- The QoS of the topic is not set and not read.
  unfoldable pub send_unsubscribe : ℕ → Bytes → Client Table → Outcome (Client Table)
  send_unsubscribe now topic_name c = do
    let c = next_packet c
    let topic : Topic = record { topic_name = topic_name; qos = 0 }
    let message = unsubscribe (record { topics = topic ∷ []; packet_id = packet_id c })
    c ← add_message_in_map malloc h now message c
    fire malloc h message c

  unfoldable pub send_publish :
      ℕ → Bytes → Bytes → ℕ → Bool → Bool → Client Table → Outcome (Client Table)
  send_publish now content topic_name qos retain dup c = do
    let c = if qos == 0 then c else next_packet c
    let p : Publish = record {
      topic = record { topic_name = topic_name; qos = qos };
      content = some content;
      retain = retain;
      dup = dup;
      packet_id = some (if qos == 0 then 0 else packet_id c);
    }
    let delivery : Delivery = record {
      content = content;
      topic_name = topic_name;
      qos = qos;
      retain = retain;
      dup = dup;
    }
    c ← fire malloc h (publish p) c
    (if qos == 0
        then ok (record_effects (message_saved delivery ∷ window_updated delivery ∷ []) c)
        else add_message_in_map malloc h now (publish p) c)

  unfoldable pub send_puback : ℕ → Client Table → Outcome (Client Table)
  send_puback n c = fire malloc h (puback n) c

  unfoldable pub send_pubrec : ℕ → Client Table → Outcome (Client Table)
  send_pubrec n c = fire malloc h (pubrec n) c

  unfoldable pub send_pubrel : ℕ → Client Table → Outcome (Client Table)
  send_pubrel n c = fire malloc h (pubrel n) c

  unfoldable pub send_pubcomp : ℕ → Client Table → Outcome (Client Table)
  send_pubcomp n c = fire malloc h (pubcomp n) c

  unfoldable pub send_disconnect : Client Table → Outcome (Client Table)
  send_disconnect c = do
    c ← stop_all_timers malloc h c
    c ← fire malloc h disconnect c
    ok (record_effects (connection_closed ∷ []) c)

  unfoldable pub send_ping : Client Table → Outcome (Client Table)
  send_ping c = fire malloc h pingreq c

  unfoldable pub fin_mqtt_client : Client Table → Outcome (Client Table)
  fin_mqtt_client c =
      if c.connection_established
      then ok c
      else stop_all_timers malloc h (record_effects (connection_unsuccessful no_connection ∷ []) c)
