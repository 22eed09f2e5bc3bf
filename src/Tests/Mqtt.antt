-- ===== src/Tests/Mqtt.antt =====
-- The MQTT client on concrete inputs: a message is published at QoS 1 on the topic "ab".
use iotbroker_cloud_c_client.Base.{
  some, ℕ, ◌≡◌, refl, arith, true, false, none, List, [], ◌∷◌, ◌++◌, inl, inr, ok, Bytes,
}
use iotbroker_cloud_c_client.Tests.Table.{block, length-block, association_list}
use iotbroker_cloud_c_client.Helpers.{short_bytes}
use iotbroker_cloud_c_client.Helpers.Length.{length_bytes}
use iotbroker_cloud_c_client.Mqtt.Packets.{Topic, publish, puback, suback, subscribe, received}
use iotbroker_cloud_c_client.Mqtt.Decode.{decode}
use iotbroker_cloud_c_client.Mqtt.Fire.{encode_and_fire}
use iotbroker_cloud_c_client.Mqtt.Fire.Sent.{wire_subscribe, encode_and_fire-Wire}
use iotbroker_cloud_c_client.Mqtt.Wire.Format.{frame, subscribe_body}
use iotbroker_cloud_c_client.Mqtt.Wire.Parsed.{incoming_publish}
use iotbroker_cloud_c_client.Mqtt.RoundTrip.{
  IsPublishable, outgoing_publish, decode-encode_and_fire,
}
use iotbroker_cloud_c_client.Mqtt.Broker.{suback_answer, puback_answer, decode-Answer}
use iotbroker_cloud_c_client.Mqtt.Sound.{IsValid, decode-IsValid}
use iotbroker_cloud_c_client.Mqtt.Client.State.{
  Client, Entry, live, sent, message_saved, window_updated,
}
use iotbroker_cloud_c_client.Mqtt.Client.Timers.{get_message_from_map}
use iotbroker_cloud_c_client.Mqtt.Client.Send.{send_publish}
use iotbroker_cloud_c_client.Mqtt.Client.Receive.{process_rx}
use iotbroker_cloud_c_client.Mqtt.Client.Flow.{delivery, publish_frame, send_publish-answer}

abbrev topic_name : Bytes
topic_name = 97 ∷ 98 ∷ []

abbrev content : Bytes
content = 104 ∷ 105 ∷ []

publishable : IsPublishable topic_name 1 false 8 content
publishable = record {
  topic_text = ((omega arith, (omega arith, tt)), omega arith);
  topic_filled = omega arith;
  content_text = (omega arith, (omega arith, tt));
  qos_valid = omega arith;
  dup_valid = refl;
  id_set = λ _. omega arith;
  id_short = omega arith;
  body_short = omega arith;
}

abbrev client : Client (List (ℕ × Entry))
client = record {
  current_packet_number = 7;
  delay_in_seconds = 60;
  connection_established = true;
  messages_map = live [];
  threads = λ t. true;
  log = [];
}

abbrev answer : Bytes
answer = 0x40 ∷ 2 ∷ 0 ∷ 8 ∷ []

answer-decode : decode answer ≡ ok (received (puback 8))
unfolding frame length_bytes
answer-decode = decode-Answer [] (puback_answer 8 (omega arith))

send_publish-answer_example :
    (c₁ c₂ : Client (List (ℕ × Entry))) × (send_publish block
        (association_list Entry)
        100
        content
        topic_name
        1
        false
        false
        client
      ≡ ok c₁)
    × (get_message_from_map block (association_list Entry) 8 c₁
        ≡ ok (
            some (record {
              message = publish (outgoing_publish topic_name 1 false false 8 content);
              time_stamp = 100;
            })))
    × (c₁.log ≡ [] ++ (sent (publish_frame content topic_name 1 false false 8) ∷ []))
    × (process_rx block (association_list Entry) answer c₁ ≡ ok c₂)
    × (process_rx block (association_list Entry) answer c₂ ≡ ok c₂)
    × (get_message_from_map block (association_list Entry) 8 c₂ ≡ ok none)
    × (c₂.log
        ≡ []
          ++ (sent (publish_frame content topic_name 1 false false 8)
              ∷ message_saved (delivery content topic_name 1 false false)
              ∷ window_updated (delivery content topic_name 1 false false)
              ∷ []))
send_publish-answer_example =
    send_publish-answer block (association_list Entry) 100 content topic_name 1 false false []
      client answer length-block (omega arith) publishable refl answer-decode

decode-encode_and_fire_example :
    (bytes : Bytes) × (encode_and_fire block
        (publish (outgoing_publish topic_name 1 false false 8 content))
      ≡ ok bytes)
    × ((rest : Bytes)
        → decode (bytes ++ rest)
          ≡ ok (received (publish (incoming_publish topic_name 1 false false 8 content))))
decode-encode_and_fire_example =
    decode-encode_and_fire block topic_name 1 false false 8 content length-block publishable

abbrev topic : Topic
topic = record { topic_name = topic_name; qos = 1 }

encode_and_fire-Wire_example :
    encode_and_fire block (subscribe (record { topics = topic ∷ []; packet_id = 8 }))
    ≡ ok (frame 0x82 (subscribe_body 8 topic))
encode_and_fire-Wire_example =
    encode_and_fire-Wire block length-block
      (wire_subscribe 8 topic (omega arith, omega arith) (omega arith)) (omega arith)

decode-Answer_example :
    decode (frame 0x90 (short_bytes 8 ++ (1 ∷ 128 ∷ [])) ++ (7 ∷ []))
    ≡ ok (received (suback (record { packet_id = 8; codes = 1 ∷ 128 ∷ [] })))
decode-Answer_example = decode-Answer (7 ∷ []) (
    suback_answer 8 (1 ∷ 128 ∷ []) (omega arith) (inl (omega arith), (inr refl, tt)) (omega arith)
      (omega arith))

decode-IsValid_example : IsValid (publish (incoming_publish topic_name 1 false false 8 content))
decode-IsValid_example =
    decode-IsValid (decode-encode_and_fire_example.0 ++ [])
      (publish (incoming_publish topic_name 1 false false 8 content))
      (decode-encode_and_fire_example.2 [])
