-- ===== src/Tests/MqttSn.antt =====
-- The MQTT-SN parser on concrete inputs: the text "ab" is published on the topic with the id 7.
use iotbroker_cloud_c_client.Base.{
  ◌≡◌, refl, arith, true, false, none, some, [], ◌∷◌, ◌++◌, inl, ok,
}
use iotbroker_cloud_c_client.Tests.Table.{block, length-block}
use iotbroker_cloud_c_client.MqttSn.Packets.{SnPublish, sn_publish, sn_regack}
use iotbroker_cloud_c_client.MqttSn.Flags.{
  decode_flag, flag_fields, encode_flags, decode_flag-flag_fields, decode_flag-encode_flags,
}
use iotbroker_cloud_c_client.MqttSn.Encode.{sn_encode_and_fire}
use iotbroker_cloud_c_client.MqttSn.Decode.{received, sn_decode}
use iotbroker_cloud_c_client.MqttSn.Wire.{sn_frame, wire_publish}
use iotbroker_cloud_c_client.MqttSn.Sent.{sn_encode_and_fire-SnWire}
use iotbroker_cloud_c_client.MqttSn.Gateway.{regack_answer, sn_decode-SnAnswer}

abbrev outgoing : SnPublish
outgoing = record {
  message_id = 3;
  topic = record { id = some 7; value = none; qos = 1; topic_type = some 1 };
  data_text = some (97 ∷ 98 ∷ []);
  dup = false;
  retain = true;
  is_incoming = some false;
}

decode_flag-flag_fields_example : decode_flag 0xb7 ≡ flag_fields 0xb7
decode_flag-flag_fields_example = decode_flag-flag_fields 0xb7 (omega arith)

decode_flag-encode_flags_example :
    decode_flag (encode_flags true (some 2) false true false (some 1)) ≡ record {
      dup = true;
      qos = 2;
      retain = false;
      will = true;
      clean_session = false;
      topic_type = 1;
    }
decode_flag-encode_flags_example =
    decode_flag-encode_flags true false true false 2 1 (omega arith) (omega arith)

sn_encode_and_fire-SnWire_example :
    sn_encode_and_fire block (sn_publish outgoing)
    ≡ ok (sn_frame 0x0c (0x31 ∷ 0 ∷ 7 ∷ 0 ∷ 3 ∷ 97 ∷ 98 ∷ []))
sn_encode_and_fire-SnWire_example =
    sn_encode_and_fire-SnWire block length-block
      (wire_publish outgoing 7 1 (97 ∷ 98 ∷ []) (refl, refl, refl) (omega arith) refl (omega arith))
      (omega arith)

sn_decode-SnAnswer_example :
    sn_decode (sn_frame 0x0b (0 ∷ 7 ∷ 0 ∷ 4 ∷ 0 ∷ []) ++ 99 ∷ [])
    ≡ ok (received (sn_regack (record { topic_id = 7; message_id = 4; code = 0 })))
sn_decode-SnAnswer_example =
    sn_decode-SnAnswer (99 ∷ []) (regack_answer 7 4 0 (omega arith) (omega arith) (omega arith))
      (inl (omega arith))
