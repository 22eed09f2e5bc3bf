-- ===== src/Tests/SnClient.antt =====
-- The MQTT-SN client on concrete inputs: the text "hi" on the topic "ab", which gets the id 7.
use iotbroker_cloud_c_client.Base.{
  ℕ, ◌≡◌, refl, arith, true, false, none, some, [], ◌∷◌, ◌++◌, inl, ok, Bytes,
}
use iotbroker_cloud_c_client.Base.HashTable.{null}
use iotbroker_cloud_c_client.Tests.Table.{block, length-block, association_list, text_list}
use iotbroker_cloud_c_client.MqttSn.Packets.{sn_regack, sn_puback, sn_suback, sn_publish}
use iotbroker_cloud_c_client.MqttSn.Decode.{received, sn_decode}
use iotbroker_cloud_c_client.MqttSn.Wire.{sn_frame}
use iotbroker_cloud_c_client.MqttSn.Gateway.{
  regack_answer, puback_answer, suback_answer, sn_decode-SnAnswer,
}
use iotbroker_cloud_c_client.MqttSn.Client.State.{
  Account, Libraries, SnClient, SnEntry, sent, publish_received, topic_listed, topic_saved,
  record_effects,
}
use iotbroker_cloud_c_client.MqttSn.Client.Timers.{
  sn_get_message_from_map, sn_get_topic_id_from_map, sn_get_topic_name_from_map,
}
use iotbroker_cloud_c_client.MqttSn.Client.Send.{send_sn_subscribe, send_sn_message}
use iotbroker_cloud_c_client.MqttSn.Client.Receive.{process_sn_rx}
use iotbroker_cloud_c_client.MqttSn.Client.Steps.{
  sn_publish_frame, sn_register_frame, outgoing, delivered, entry, with_maps,
}
use iotbroker_cloud_c_client.MqttSn.Client.Publication.{send_sn_message-registered}
use iotbroker_cloud_c_client.MqttSn.Client.Subscription.{
  sn_subscribe_frame, send_sn_subscribe-send_sn_message,
}
use iotbroker_cloud_c_client.MqttSn.Client.Incoming.{
  sn_acknowledgement, process_sn_rx-sn_publish_frame,
}

abbrev pub w : Libraries
w = record {
  malloc = block;
  messages = association_list SnEntry;
  topic_ids = text_list ℕ;
  topic_names = association_list Bytes;
}

abbrev pub topic : Bytes
topic = 97 ∷ 98 ∷ []

abbrev pub content : Bytes
content = 104 ∷ 105 ∷ []

abbrev pub account : Account
account = record {
  username = [];
  password = [];
  client_id = 99 ∷ [];
  clean_session = true;
  keep_alive = 60;
  will_topic = some topic;
  is_retain = false;
  qos = 1;
  will = some content;
}

abbrev pub client : SnClient w
client = record {
  current_packet_number = 7;
  delay_in_seconds = 60;
  ping_delay = 60;
  is_disconnect_sent = false;
  account = account;
  messages_map = null;
  topic_name_map = null;
  reverse_topic_name_map = null;
  threads = λ t. false;
  log = [];
}

abbrev pub connected : SnClient w
connected = with_maps w [] [] [] client

abbrev regack : Bytes
regack = 7 ∷ 0x0b ∷ 0 ∷ 7 ∷ 0 ∷ 9 ∷ 0 ∷ []

abbrev puback : Bytes
puback = 7 ∷ 0x0d ∷ 0 ∷ 7 ∷ 0 ∷ 10 ∷ 0 ∷ []

abbrev suback : Bytes
suback = 8 ∷ 0x13 ∷ 0 ∷ 0 ∷ 7 ∷ 0 ∷ 8 ∷ 0 ∷ []

regack-decode :
    sn_decode regack ≡ ok (received (sn_regack (record { topic_id = 7; message_id = 9; code = 0 })))
unfolding sn_frame
regack-decode =
    sn_decode-SnAnswer [] (regack_answer 7 9 0 (omega arith) (omega arith) (omega arith))
      (inl (omega arith))

puback-decode :
    sn_decode puback
    ≡ ok (received (sn_puback (record { topic_id = 7; message_id = 10; code = 0 })))
unfolding sn_frame
puback-decode =
    sn_decode-SnAnswer [] (puback_answer 7 10 0 (omega arith) (omega arith) (omega arith))
      (inl (omega arith))

suback-decode :
    sn_decode suback
    ≡ ok (received (sn_suback (record { topic_id = 7; message_id = 8; code = 0; allowed_qos = 0 })))
unfolding sn_frame
suback-decode =
    sn_decode-SnAnswer []
      (suback_answer 0 7 8 0 (omega arith) (omega arith) (omega arith) (omega arith))
      (inl (omega arith))

send_sn_message-registered_example :
    (c₁ c₂ c₃ : SnClient w) × (send_sn_message w 0 content topic 1 false false connected ≡ ok c₁)
    × (process_sn_rx w 1 regack c₁ ≡ ok c₂)
    × (process_sn_rx w 2 puback c₂ ≡ ok c₃)
    × (c₃.log
        ≡ client.log
          ++ (sent (sn_register_frame 9 topic)
              ∷ sent (sn_publish_frame content 7 1 false false 10)
              ∷ delivered content topic 1 false false))
    × (sn_get_topic_id_from_map w topic c₃ ≡ ok 7)
    × (sn_get_topic_name_from_map w 7 c₃ ≡ ok (some topic))
    × (sn_get_message_from_map w 8 c₃ ≡ ok none)
send_sn_message-registered_example =
    send_sn_message-registered w 0 1 2 content topic 1 false false 7 8 [] [] [] client regack puback
      length-block (omega arith) (omega arith) (omega arith) (omega arith) (omega arith)
      (omega arith) refl regack-decode puback-decode

send_sn_subscribe-send_sn_message_example :
    (c₁ c₂ c₃ : SnClient w) × (send_sn_subscribe w 0 topic 2 connected ≡ ok c₁)
    × (process_sn_rx w 1 suback c₁ ≡ ok c₂)
    × (send_sn_message w 2 content topic 1 false false c₂ ≡ ok c₃)
    × (c₃.log
        ≡ client.log
          ++ (sent (sn_subscribe_frame 8 topic 2)
              ∷ topic_listed topic 2
              ∷ topic_saved topic 2
              ∷ sent (sn_publish_frame content 7 1 false false 10)
              ∷ []))
    × (sn_get_message_from_map w 10 c₃
        ≡ ok (some (entry (sn_publish (outgoing content topic 1 false false 7 10)) 2)))
send_sn_subscribe-send_sn_message_example =
    send_sn_subscribe-send_sn_message w 0 1 2 content topic 1 2 0 false false 7 [] [] [] client
      suback length-block (omega arith) (omega arith) (omega arith) (omega arith) (omega arith)
      (omega arith) (omega arith) (omega arith) refl refl suback-decode

process_sn_rx-sn_publish_frame_example :
    process_sn_rx w 0
      (sn_publish_frame content 7 1 false false 5 ++ 99 ∷ [])
      (with_maps w [] [] ((7, topic) ∷ []) client)
    ≡ ok (
        record_effects
          (publish_received (record {
            content = content;
            topic_name = some topic;
            qos = 1;
            retain = false;
            dup = false;
          })
            ∷ sn_acknowledgement 1 7 5)
          (with_maps w [] [] ((7, topic) ∷ []) client))
process_sn_rx-sn_publish_frame_example =
    process_sn_rx-sn_publish_frame w 0 104 (105 ∷ []) (99 ∷ []) 7 1 false false 5 [] []
      ((7, topic) ∷ []) client length-block (omega arith) (omega arith) (omega arith)
      (omega arith, (omega arith, tt)) (inl (omega arith))
