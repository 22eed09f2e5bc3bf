-- ===== src/Tests/Client.antt =====
-- A client that connects, and one that subscribes to the topic "ab".
use iotbroker_cloud_c_client.Base.{
  ℕ, ◌≡◌, refl, arith, true, false, none, List, [], ◌∷◌, ◌++◌, inl, ok, fault, Bytes, length, write,
  byte_at, slice,
}
use iotbroker_cloud_c_client.Tests.Table.{block, length-block, association_list}
use iotbroker_cloud_c_client.Helpers.Length.{length_bytes, add_packet_length}
use iotbroker_cloud_c_client.Helpers.{add_short}
use iotbroker_cloud_c_client.Mqtt.Fire.{encode_and_fire}
use iotbroker_cloud_c_client.Mqtt.Size.{get_length, will_length}
use iotbroker_cloud_c_client.Mqtt.Encode.{
  encode, encode_into, encode_connect, put_string, put_will, put_nonempty, content_flags,
}
use iotbroker_cloud_c_client.Mqtt.Remaining.{decode_remaining_length, remaining_loop}
use iotbroker_cloud_c_client.Mqtt.Packets.{puback, suback, connect, received}
use iotbroker_cloud_c_client.Mqtt.Decode.{decode}
use iotbroker_cloud_c_client.Mqtt.Wire.Format.{frame}
use iotbroker_cloud_c_client.Mqtt.Broker.{suback_answer, puback_answer, decode-Answer}
use iotbroker_cloud_c_client.Mqtt.Client.State.{
  Account, Client, Entry, live, sent, timer_started, started, connecter,
}
use iotbroker_cloud_c_client.Mqtt.Client.Timers.{
  fire, map_key, add_message_in_map, start_connect_timer, get_message_from_map,
}
use iotbroker_cloud_c_client.Mqtt.Client.Send.{send_connect, send_subscribe, connect_packet}
use iotbroker_cloud_c_client.Mqtt.Client.Receive.{process_rx}
use iotbroker_cloud_c_client.Mqtt.Client.Subscription.{
  subscribe_frame, suback_effects, send_subscribe-answer,
}
use iotbroker_cloud_c_client.Mqtt.Client.Stream.{mqtt_data_received}
use iotbroker_cloud_c_client.Mqtt.Client.Batch.{joined, process_all, mqtt_data_received-process_all}
use iotbroker_cloud_c_client.Mqtt.Client.Keyed.{IsKeyOf}
use iotbroker_cloud_c_client.Mqtt.Client.Reach.{
  starts, steps, connects, initial_client, Reachable-map_key,
}

abbrev topic_name : Bytes
topic_name = 97 ∷ 98 ∷ []

abbrev client : Client (List (ℕ × Entry))
client = record {
  current_packet_number = 7;
  delay_in_seconds = 60;
  connection_established = true;
  messages_map = live [];
  threads = λ t. true;
  log = [];
}

suback_packet :
    decode (0x90 ∷ 3 ∷ 0 ∷ 8 ∷ 1 ∷ [])
    ≡ ok (received (suback (record { packet_id = 8; codes = 1 ∷ [] })))
unfolding frame length_bytes
suback_packet =
    decode-Answer []
      (suback_answer 8 (1 ∷ []) (omega arith) (inl (omega arith), tt) (omega arith) (omega arith))

puback_packet : decode (0x40 ∷ 2 ∷ 0 ∷ 8 ∷ []) ≡ ok (received (puback 8))
unfolding frame length_bytes
puback_packet = decode-Answer [] (puback_answer 8 (omega arith))

send_subscribe-answer_example :
    (c₁ c₂ : Client (List (ℕ × Entry))) × (send_subscribe block
        (association_list Entry)
        100
        topic_name
        1
        client
      ≡ ok c₁)
    × (process_rx block (association_list Entry) (0x90 ∷ 3 ∷ 0 ∷ 8 ∷ 1 ∷ []) c₁ ≡ ok c₂)
    × (get_message_from_map block (association_list Entry) 8 c₂ ≡ ok none)
    × (c₂.log
        ≡ []
          ++ (sent (subscribe_frame 8 topic_name 1)
              ∷ suback_effects 1 (record { topic_name = topic_name; qos = 1 })))
    × (process_rx block (association_list Entry) (0x40 ∷ 2 ∷ 0 ∷ 8 ∷ []) c₁ ≡ fault)
send_subscribe-answer_example =
    send_subscribe-answer block (association_list Entry) 100 topic_name 1 1 [] [] client
      (0x90 ∷ 3 ∷ 0 ∷ 8 ∷ 1 ∷ []) (0x40 ∷ 2 ∷ 0 ∷ 8 ∷ []) length-block (omega arith) (omega arith)
      (omega arith) refl suback_packet puback_packet

abbrev account : Account
account = record {
  username = 117 ∷ [];
  password = 112 ∷ [];
  client_id = 99 ∷ [];
  clean_session = true;
  keep_alive = 60;
  will_topic = none;
  is_retain = false;
  qos = 0;
  will = none;
}

abbrev connect_entry : Entry
connect_entry = record { message = connect (connect_packet account); time_stamp = 100 }

abbrev connected : Client (List (ℕ × Entry))
connected = record {
  current_packet_number = 0;
  delay_in_seconds = 60;
  connection_established = true;
  messages_map = live ((0, connect_entry) ∷ []);
  threads = started connecter (λ t. false);
  log =
      sent (
        0x10 ∷ 19 ∷ 0 ∷ 4 ∷ 77 ∷ 81 ∷ 84 ∷ 84 ∷ 4 ∷ 194 ∷ 0 ∷ 60 ∷ 0 ∷ 1 ∷ 99 ∷ 0 ∷ 1 ∷ 117 ∷ 0 ∷ 1
        ∷ 112 ∷ [])
      ∷ timer_started connecter
      ∷ [];
}

connects_once :
    send_connect block
      (association_list Entry)
      100
      account
      (initial_client block (association_list Entry))
    ≡ ok connected
unfolding send_connect fire encode_and_fire get_length will_length connect_packet encode encode_into
    encode_connect write add_packet_length length_bytes add_short put_string put_will put_nonempty
    content_flags decode_remaining_length remaining_loop byte_at slice add_message_in_map map_key
    start_connect_timer
connects_once = refl

Reachable-map_key_example : IsKeyOf 0 connect_entry.message
Reachable-map_key_example =
    Reachable-map_key block (association_list Entry) connected ((0, connect_entry) ∷ []) 0
      connect_entry (steps starts (connects 100 account connects_once)) refl refl

-- A PUBACK, a PINGRESP and a PUBLISH at QoS 0, with the zeros of the receive buffer behind them.
abbrev acknowledgement : ℕ × Bytes
acknowledgement = (0x40, 0 ∷ 8 ∷ [])

abbrev pong : ℕ × Bytes
pong = (0xd0, [])

abbrev message_packet : ℕ × Bytes
message_packet = (0x30, 0 ∷ 1 ∷ 97 ∷ 98 ∷ [])

mqtt_data_received-process_all_example :
    mqtt_data_received block
      (association_list Entry)
      (joined (acknowledgement ∷ pong ∷ message_packet ∷ []) ++ 0 ∷ 0 ∷ [])
      (length (joined (acknowledgement ∷ pong ∷ message_packet ∷ [])))
      client
    ≡ process_all block
        (association_list Entry)
        (acknowledgement ∷ pong ∷ message_packet ∷ [])
        client
mqtt_data_received-process_all_example =
    mqtt_data_received-process_all block (association_list Entry) acknowledgement pong
      (message_packet ∷ []) 0 0 [] client (omega arith, (omega arith, (omega arith, tt)))
