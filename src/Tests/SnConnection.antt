-- ===== src/Tests/SnConnection.antt =====
-- The MQTT-SN client on concrete inputs: connections, their end, and the invariants.
use iotbroker_cloud_c_client.Base.{
  ℕ, ◌≡◌, ◌∙◌, refl, arith, true, false, none, some, [], ◌∷◌, ◌++◌, inl, ok, fault, Bytes, write,
  slice,
}
use iotbroker_cloud_c_client.Base.HashTable.{live}
use iotbroker_cloud_c_client.Tests.Table.{length-block}
use iotbroker_cloud_c_client.Helpers.{add_short}
use iotbroker_cloud_c_client.MqttSn.Packets.{sn_connect, sn_connack, sn_register}
use iotbroker_cloud_c_client.MqttSn.Flags.{encode_flags}
use iotbroker_cloud_c_client.MqttSn.Size.{sn_get_length}
use iotbroker_cloud_c_client.MqttSn.Encode.{sn_encode, sn_encode_body, sn_encode_and_fire}
use iotbroker_cloud_c_client.MqttSn.Decode.{received, sn_decode}
use iotbroker_cloud_c_client.MqttSn.Wire.{sn_frame}
use iotbroker_cloud_c_client.MqttSn.Gateway.{
  connack_answer, register_answer, will_topic_req_answer, will_msg_req_answer, regack_answer,
  puback_answer, pubcomp_answer, suback_answer, unsuback_answer, sn_decode-SnAnswer,
}
use iotbroker_cloud_c_client.MqttSn.Client.State.{
  SnClient, SnEntry, sent, timer_started, timer_stopped, started, connecter, pinger,
  connection_successful,
}
use iotbroker_cloud_c_client.MqttSn.Client.Timers.{
  sn_fire, sn_map_key, sn_start_connect_timer, sn_stop_connect_timer, start_mqtt_sn_ping_timer,
  sn_add_message_in_map, sn_remove_message_from_map, sn_add_topic_id_in_map,
  sn_add_topic_name_in_map, sn_get_message_from_map, sn_get_topic_id_from_map,
  sn_get_topic_name_from_map, sn_connect_rounds, cancel,
}
use iotbroker_cloud_c_client.MqttSn.Client.Send.{
  sn_connect_packet, send_sn_connect, send_sn_disconnect, send_sn_regack, sn_connect_task,
  fin_mqtt_sn_client,
}
use iotbroker_cloud_c_client.MqttSn.Client.Receive.{
  add_topic, on_connack, on_register, handle_sn_message, process_sn_rx,
}
use iotbroker_cloud_c_client.MqttSn.Client.Steps.{entry, process_sn_rx-eq}
use iotbroker_cloud_c_client.MqttSn.Client.Sound.{IsKeyOf}
use iotbroker_cloud_c_client.MqttSn.Client.Closing.{process_sn_rx-unknown}
use iotbroker_cloud_c_client.MqttSn.Client.Connection.{
  sn_connect_frame, sn_will_topic_frame, send_sn_connect-will,
}
use iotbroker_cloud_c_client.MqttSn.Client.Retries.{send_sn_connect-sn_connect_task}
use iotbroker_cloud_c_client.MqttSn.Client.Reach.{
  Reachable, initial_client, starts, steps, connects, receives, Reachable-sn_map_key,
  Reachable-topics, Reachable-send_sn_disconnect,
}
use iotbroker_cloud_c_client.Tests.SnClient.{w, topic, content, account, client, connected}

-- A packet of the gateway with a body of the bytes `body`.
decoded_connack : sn_decode (sn_frame 0x05 (0 ∷ []) ++ []) ≡ ok (received (sn_connack 0))
decoded_connack = sn_decode-SnAnswer [] (connack_answer 0 (omega arith)) (inl (omega arith))

decoded_register :
    sn_decode (sn_frame 0x0a (0 ∷ 7 ∷ 0 ∷ 1 ∷ topic) ++ [])
    ≡ ok (received (sn_register (record { topic_id = 7; msg_id = 1; topic_name = some topic })))
decoded_register =
    sn_decode-SnAnswer []
      (register_answer 7 1 topic (omega arith) (omega arith) (omega arith, (omega arith, tt)))
      (inl (omega arith))

process_sn_rx-unknown_example :
    (process_sn_rx w 0 (sn_frame 0x0b (0 ∷ 7 ∷ 0 ∷ 9 ∷ 0 ∷ []) ++ []) connected ≡ ok connected)
    × (process_sn_rx w 0 (sn_frame 0x0d (0 ∷ 7 ∷ 0 ∷ 9 ∷ 0 ∷ []) ++ []) connected ≡ ok connected)
    × (process_sn_rx w 0 (sn_frame 0x13 (0 ∷ 0 ∷ 7 ∷ 0 ∷ 9 ∷ 0 ∷ []) ++ []) connected
        ≡ ok connected)
    × (process_sn_rx w 0 (sn_frame 0x0e (0 ∷ 9 ∷ []) ++ []) connected ≡ fault)
    × (process_sn_rx w 0 (sn_frame 0x15 (0 ∷ 9 ∷ []) ++ []) connected ≡ fault)
process_sn_rx-unknown_example =
    process_sn_rx-unknown w 0 7 0 0 9 [] [] [] client (sn_frame 0x0b (0 ∷ 7 ∷ 0 ∷ 9 ∷ 0 ∷ []) ++ [])
      (sn_frame 0x0d (0 ∷ 7 ∷ 0 ∷ 9 ∷ 0 ∷ []) ++ [])
      (sn_frame 0x13 (0 ∷ 0 ∷ 7 ∷ 0 ∷ 9 ∷ 0 ∷ []) ++ []) (sn_frame 0x0e (0 ∷ 9 ∷ []) ++ [])
      (sn_frame 0x15 (0 ∷ 9 ∷ []) ++ []) refl refl
      (sn_decode-SnAnswer [] (regack_answer 7 9 0 (omega arith) (omega arith) (omega arith))
        (inl (omega arith)))
      (sn_decode-SnAnswer [] (puback_answer 7 9 0 (omega arith) (omega arith) (omega arith))
        (inl (omega arith)))
      (sn_decode-SnAnswer []
        (suback_answer 0 7 9 0 (omega arith) (omega arith) (omega arith) (omega arith))
        (inl (omega arith)))
      (sn_decode-SnAnswer [] (pubcomp_answer 9 (omega arith)) (inl (omega arith)))
      (sn_decode-SnAnswer [] (unsuback_answer 9 (omega arith)) (inl (omega arith)))

send_sn_connect-will_example :
    (c₁ c₂ c₃ c₄ : SnClient w) × (send_sn_connect w 0 account client ≡ ok c₁)
    × (process_sn_rx w 1 (sn_frame 0x06 [] ++ []) c₁ ≡ ok c₂)
    × (process_sn_rx w 1 (sn_frame 0x08 [] ++ []) c₂ ≡ ok c₃)
    × (process_sn_rx w 1 (sn_frame 0x05 (0 ∷ []) ++ []) c₃ ≡ ok c₄)
    × (c₄.log ≡ (
        sent (sn_connect_frame true account)
        ∷ timer_started connecter
        ∷ sent (sn_will_topic_frame account topic)
        ∷ sent (sn_frame 0x09 content)
        ∷ timer_stopped connecter
        ∷ connection_successful
        ∷ timer_started pinger
        ∷ []))
    × (c₄.ping_delay ≡ 60)
    × (sn_get_message_from_map w 0 c₄ ≡ ok none)
    × (sn_get_topic_id_from_map w topic c₄ ≡ ok 0)
    × (sn_get_topic_name_from_map w 7 c₄ ≡ ok none)
send_sn_connect-will_example =
    send_sn_connect-will w 0 1 0 7 account topic content topic client (sn_frame 0x06 [] ++ [])
      (sn_frame 0x08 [] ++ []) (sn_frame 0x05 (0 ∷ []) ++ []) length-block (omega arith) refl refl
      (omega arith) (omega arith) (omega arith)
      (sn_decode-SnAnswer [] will_topic_req_answer (inl (omega arith)))
      (sn_decode-SnAnswer [] will_msg_req_answer (inl (omega arith))) decoded_connack

abbrev connect_entry : SnEntry
connect_entry = entry (sn_connect (sn_connect_packet account)) 0

send_sn_connect-sn_connect_task_example :
    (c₁ c₂ : SnClient w) × (send_sn_connect w 0 account client ≡ ok c₁)
    × (sn_connect_rounds w 5 c₁ ≡ ok c₂)
    × (c₂.log ≡ (
        sent (sn_connect_frame (sn_connect_packet account).will_present account)
        ∷ timer_started connecter
        ∷ sent (sn_connect_frame (sn_connect_packet account).will_present account)
        ∷ sent (sn_connect_frame (sn_connect_packet account).will_present account)
        ∷ sent (sn_connect_frame (sn_connect_packet account).will_present account)
        ∷ sent (sn_connect_frame (sn_connect_packet account).will_present account)
        ∷ sent (sn_connect_frame (sn_connect_packet account).will_present account)
        ∷ []))
    × (sn_get_message_from_map w 0 c₂ ≡ ok (some connect_entry))
    × (sn_connect_task w c₁ ≡ fault)
send_sn_connect-sn_connect_task_example =
    send_sn_connect-sn_connect_task w 0 account client length-block (omega arith) refl refl

-- A new client that connects, is accepted, and is told a topic.
abbrev opened : SnClient w
opened = record (initial_client w account) {
  delay_in_seconds = 60;
  messages_map = live ((0, connect_entry) ∷ []);
  threads = started connecter (λ t. false);
  log = sent (7 ∷ 4 ∷ 12 ∷ 1 ∷ 0 ∷ 60 ∷ 99 ∷ []) ∷ timer_started connecter ∷ [];
}

opens : send_sn_connect w 0 account (initial_client w account) ≡ ok opened
unfolding send_sn_connect sn_connect_packet sn_fire sn_encode_and_fire sn_get_length sn_encode
    sn_encode_body encode_flags write slice add_short sn_start_connect_timer sn_add_message_in_map
    sn_map_key
opens = refl

opened-Reachable : Reachable w opened
opened-Reachable = steps (starts account) (connects 0 account opens)

Reachable-sn_map_key_example : IsKeyOf 0 connect_entry.message
Reachable-sn_map_key_example =
    Reachable-sn_map_key w opened ((0, connect_entry) ∷ []) 0 connect_entry opened-Reachable refl
      refl

abbrev accepted : SnClient w
accepted = record opened {
  ping_delay = 60;
  messages_map = live [];
  topic_name_map = live [];
  reverse_topic_name_map = live [];
  threads = started pinger (started connecter (λ t. false));
  log = opened.log ++ (timer_stopped connecter ∷ connection_successful ∷ timer_started pinger ∷ []);
}

accepts : process_sn_rx w 1 (sn_frame 0x05 (0 ∷ []) ++ []) opened ≡ ok accepted
unfolding handle_sn_message on_connack sn_stop_connect_timer cancel sn_remove_message_from_map
    start_mqtt_sn_ping_timer
accepts = process_sn_rx-eq w 1 _ (sn_connack 0) opened decoded_connack ∙ refl

abbrev told : SnClient w
told = record accepted {
  topic_name_map = live ((topic, 7) ∷ []);
  reverse_topic_name_map = live ((7, topic) ∷ []);
  log = accepted.log ++ (sent (7 ∷ 0x0b ∷ 0 ∷ 7 ∷ 0 ∷ 1 ∷ 0 ∷ []) ∷ []);
}

tells : process_sn_rx w 2 (sn_frame 0x0a (0 ∷ 7 ∷ 0 ∷ 1 ∷ topic) ++ []) accepted ≡ ok told
unfolding handle_sn_message on_register add_topic sn_add_topic_id_in_map sn_add_topic_name_in_map
    send_sn_regack sn_fire sn_encode_and_fire sn_get_length sn_encode sn_encode_body write slice
    add_short
tells =
    process_sn_rx-eq w 2 _
      (sn_register (record { topic_id = 7; msg_id = 1; topic_name = some topic })) accepted
      decoded_register
    ∙ refl

Reachable-send_sn_disconnect_example :
    (send_sn_disconnect w opened ≡ fault)
    × (fin_mqtt_sn_client w (record opened { is_disconnect_sent = false }) ≡ fault)
Reachable-send_sn_disconnect_example = Reachable-send_sn_disconnect w opened opened-Reachable

Reachable-topics_example :
    (other : Bytes) × (other_id : ℕ) × (w.topic_names.lookup 7 ((7, topic) ∷ []) ≡ some other)
    × (w.topic_ids.lookup other ((topic, 7) ∷ []) ≡ some other_id)
Reachable-topics_example =
    Reachable-topics w told ((topic, 7) ∷ []) ((7, topic) ∷ []) topic 7
      (steps (steps opened-Reachable (receives 1 _ accepts)) (receives 2 _ tells)) refl refl refl
