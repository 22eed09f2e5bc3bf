-- ===== src/MqttSn/Client/Closing.antt =====
-- The answers that nothing waits for.
use iotbroker_cloud_c_client.Base.{ℕ, ◌+◌, ◌%◌, ◌≡◌, refl, ◌∙◌, none, ok, fault, Bytes}
use iotbroker_cloud_c_client.MqttSn.Packets.{
  sn_regack, sn_puback, sn_pubcomp, sn_suback, sn_unsuback,
}
use iotbroker_cloud_c_client.MqttSn.Decode.{received, sn_decode}
use iotbroker_cloud_c_client.MqttSn.Client.State.{Libraries, SnClient}
use iotbroker_cloud_c_client.MqttSn.Client.Timers.{sn_get_message_from_map}
use iotbroker_cloud_c_client.MqttSn.Client.Receive.{
  on_regack, on_puback, on_pubcomp, on_suback, on_unsuback, handle_sn_message, process_sn_rx,
}
use iotbroker_cloud_c_client.MqttSn.Client.Steps.{with_maps, process_sn_rx-eq}

module _ (w : Libraries) where
  -- An answer with a packet id that no message waits under: a REGACK, a PUBACK and a SUBACK change
  -- nothing, while a PUBCOMP and an UNSUBACK make the client read through a NULL pointer. The
  -- conditions are that no message at all waits under the id, nor, for the REGACK, under the id before,
  -- and that the three tables are there.
  pub process_sn_rx-unknown :
      (now id code g n : ℕ) (t : w.messages.Table) (ids : w.topic_ids.Table)
      (names : w.topic_names.Table) (c : SnClient w) (regack puback suback pubcomp unsuback : Bytes)
      → w.messages.lookup n t ≡ none
      → w.messages.lookup ((n + 65535) % 65536) t ≡ none
      → sn_decode regack
        ≡ ok (received (sn_regack (record { topic_id = id; message_id = n; code = code })))
      → sn_decode puback
        ≡ ok (received (sn_puback (record { topic_id = id; message_id = n; code = code })))
      → sn_decode suback
        ≡ ok (
            received
              (sn_suback (record { topic_id = id; message_id = n; code = code; allowed_qos = g })))
      → sn_decode pubcomp ≡ ok (received (sn_pubcomp n))
      → sn_decode unsuback ≡ ok (received (sn_unsuback n))
      → (process_sn_rx w now regack (with_maps w t ids names c) ≡ ok (with_maps w t ids names c))
        × (process_sn_rx w now puback (with_maps w t ids names c) ≡ ok (with_maps w t ids names c))
        × (process_sn_rx w now suback (with_maps w t ids names c) ≡ ok (with_maps w t ids names c))
        × (process_sn_rx w now pubcomp (with_maps w t ids names c) ≡ fault)
        × (process_sn_rx w now unsuback (with_maps w t ids names c) ≡ fault)
  unfolding handle_sn_message on_regack on_puback on_pubcomp on_suback on_unsuback
      sn_get_message_from_map
  process_sn_rx-unknown now id code g n t ids names c regack puback suback pubcomp unsuback el ep er
        ea es eb eu =
      let c₀ = with_maps w t ids names c in
      (
        process_sn_rx-eq w now regack _ c₀ er ∙ rw ep refl,
        process_sn_rx-eq w now puback _ c₀ ea ∙ rw el refl,
        process_sn_rx-eq w now suback _ c₀ es ∙ rw el refl,
        process_sn_rx-eq w now pubcomp _ c₀ eb ∙ rw el refl,
        process_sn_rx-eq w now unsuback _ c₀ eu ∙ rw el refl,
      )
