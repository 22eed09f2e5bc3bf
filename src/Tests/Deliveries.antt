-- ===== src/Tests/Deliveries.antt =====
-- A PUBLISH that comes in, a round of the resend thread, and a client that disconnects.
use iotbroker_cloud_c_client.Base.{
  ℕ, ◌≡◌, refl, arith, true, false, List, [], ◌∷◌, ◌++◌, ok, fault, Bytes,
}
use iotbroker_cloud_c_client.Helpers.{short_bytes}
use iotbroker_cloud_c_client.Tests.Table.{block, length-block, association_list}
use iotbroker_cloud_c_client.Mqtt.Packets.{puback}
use iotbroker_cloud_c_client.Mqtt.Fire.Sent.{wire_puback, encode_and_fire-Wire}
use iotbroker_cloud_c_client.Mqtt.Wire.Format.{frame}
use iotbroker_cloud_c_client.Mqtt.RoundTrip.{IsPublishable}
use iotbroker_cloud_c_client.Mqtt.Client.State.{
  Client, Entry, live, publish_received, record_effects,
}
use iotbroker_cloud_c_client.Mqtt.Client.Timers.{message_resend_round}
use iotbroker_cloud_c_client.Mqtt.Client.Send.{send_disconnect, send_subscribe}
use iotbroker_cloud_c_client.Mqtt.Client.Receive.{process_rx}
use iotbroker_cloud_c_client.Mqtt.Client.Flow.{delivery, publish_frame}
use iotbroker_cloud_c_client.Mqtt.Client.Incoming.{acknowledgement, process_rx-publish_frame}
use iotbroker_cloud_c_client.Mqtt.Client.Resend.{resent, message_resend_round-resent}
use iotbroker_cloud_c_client.Mqtt.Client.Closing.{closed, send_disconnect-send_disconnect}

abbrev topic_name : Bytes
topic_name = 97 ∷ 98 ∷ []

abbrev content : Bytes
content = 104 ∷ 105 ∷ []

publishable : IsPublishable topic_name 2 true 8 content
publishable = record {
  topic_text = ((omega arith, (omega arith, tt)), omega arith);
  topic_filled = omega arith;
  content_text = (omega arith, (omega arith, tt));
  qos_valid = omega arith;
  dup_valid = refl;
  id_set = λ _. omega arith;
  id_short = omega arith;
  body_short = omega arith;
}

-- Two acknowledgements wait, one for fifty seconds and one for five.
abbrev old_entry : Entry
old_entry = record { message = puback 5; time_stamp = 50 }

abbrev new_entry : Entry
new_entry = record { message = puback 5; time_stamp = 95 }

abbrev waiting : List (ℕ × Entry)
waiting = (1, old_entry) ∷ (2, new_entry) ∷ []

abbrev client : Client (List (ℕ × Entry))
client = record {
  current_packet_number = 7;
  delay_in_seconds = 60;
  connection_established = true;
  messages_map = live waiting;
  threads = λ t. true;
  log = [];
}

process_rx-publish_frame_example :
    process_rx block
      (association_list Entry)
      (publish_frame content topic_name 2 false true 8 ++ (1 ∷ []))
      client
    ≡ ok (
        record_effects
          (publish_received (delivery content topic_name 2 false true) ∷ acknowledgement 2 8)
          client)
process_rx-publish_frame_example =
    process_rx-publish_frame block (association_list Entry) topic_name 2 true false 8 104 (105 ∷ [])
      (1 ∷ []) client length-block publishable

abbrev packet : Entry → Bytes
packet e = frame 0x40 (short_bytes 5)

message_resend_round-resent_example :
    message_resend_round block (association_list Entry) 100 client
    ≡ ok (record_effects (resent 100 packet waiting) client)
message_resend_round-resent_example =
    message_resend_round-resent block (association_list Entry) 100 packet waiting client refl (
      encode_and_fire-Wire block length-block (wire_puback 5) (omega arith),
      (encode_and_fire-Wire block length-block (wire_puback 5) (omega arith), tt),
    )

send_disconnect-send_disconnect_example :
    (send_disconnect block (association_list Entry) client
      ≡ ok (closed block (association_list Entry) client))
    × (send_disconnect block (association_list Entry) (closed block (association_list Entry) client)
        ≡ fault)
    × (send_subscribe block
          (association_list Entry)
          100
          topic_name
          1
          (closed block (association_list Entry) client)
        ≡ fault)
    × (message_resend_round block
          (association_list Entry)
          100
          (closed block (association_list Entry) client)
        ≡ fault)
send_disconnect-send_disconnect_example =
    send_disconnect-send_disconnect block (association_list Entry) waiting client 100 1 topic_name
      length-block refl refl refl
