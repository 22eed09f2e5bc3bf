-- ===== src/MqttSn/Client/Incoming.antt =====
-- A PUBLISH of the gateway, up to its acknowledgement.
use iotbroker_cloud_c_client.Base.{
  ℕ, zero, suc, ◌+◌, ◌<◌, ◌≡◌, refl, ◌∙◌, arith, Bool, false, some, none, List, [], ◌∷◌, ◌++◌,
  if◌then◌else◌, ◌==◌, ok, Bytes, length, append_assoc,
}
use iotbroker_cloud_c_client.Helpers.{short_bytes}
use iotbroker_cloud_c_client.MqttSn.Packets.{SnPublish, sn_publish}
use iotbroker_cloud_c_client.MqttSn.Wire.{sn_frame, wire_puback, wire_pubrec}
use iotbroker_cloud_c_client.MqttSn.Sent.{sn_encode_and_fire-SnWire}
use iotbroker_cloud_c_client.MqttSn.Gateway.{IsReadable, IsText, publish_answer, sn_decode-SnAnswer}
use iotbroker_cloud_c_client.MqttSn.Client.State.{
  Libraries, SnClient, SnEffect, sent, publish_received, record_effects,
}
use iotbroker_cloud_c_client.MqttSn.Client.Timers.{sn_fire, sn_get_topic_name_from_map}
use iotbroker_cloud_c_client.MqttSn.Client.Send.{send_sn_puback, send_sn_pubrec}
use iotbroker_cloud_c_client.MqttSn.Client.Receive.{on_publish, handle_sn_message, process_sn_rx}
use iotbroker_cloud_c_client.MqttSn.Client.Steps.{sn_publish_frame, with_maps, process_sn_rx-eq}

-- The answer to a PUBLISH: nothing at QoS 0, PUBACK at QoS 1, PUBREC at QoS 2.
abbrev pub sn_acknowledgement : ℕ → ℕ → ℕ → List SnEffect
sn_acknowledgement qos topic_id n =
    if qos == 1
    then sent (sn_frame 0x0d (short_bytes topic_id ++ (short_bytes n ++ 0 ∷ []))) ∷ []
    else if qos == 2
    then sent (sn_frame 0x0f (short_bytes n)) ∷ []
    else []

abbrev incoming : Bytes → ℕ → ℕ → Bool → Bool → ℕ → SnPublish
incoming content topic_id qos retain dup n = record {
  message_id = n;
  topic = record { id = some topic_id; value = none; qos = qos; topic_type = none };
  data_text = some content;
  dup = dup;
  retain = retain;
  is_incoming = none;
}

module _ (w : Libraries) where
  on_publish-eq :
      (content : Bytes) (topic_id qos : ℕ) (retain dup : Bool) (n : ℕ) (t : w.messages.Table)
      (ids : w.topic_ids.Table) (names : w.topic_names.Table) (c : SnClient w)
      → ((l : ℕ) → length (w.malloc l) ≡ l)
      → on_publish w (incoming content topic_id qos retain dup n) (with_maps w t ids names c)
        ≡ ok (
            record_effects
              (publish_received (record {
                content = content;
                topic_name = w.topic_names.lookup topic_id names;
                qos = qos;
                retain = retain;
                dup = dup;
              })
                ∷ sn_acknowledgement qos topic_id n)
              (with_maps w t ids names c))
  unfolding on_publish send_sn_puback send_sn_pubrec sn_fire sn_get_topic_name_from_map
  on_publish-eq content topic_id zero retain dup n t ids names c fresh = refl
  on_publish-eq content topic_id (suc zero) retain dup n t ids names c fresh =
      let e =
        sn_encode_and_fire-SnWire w.malloc fresh (wire_puback topic_id n 0 (omega arith))
          (omega arith) in
      rw e (simp append_assoc)
  on_publish-eq content topic_id (suc (suc zero)) retain dup n t ids names c fresh =
      let e = sn_encode_and_fire-SnWire w.malloc fresh (wire_pubrec n) (omega arith) in
      rw e (simp append_assoc)
  on_publish-eq content topic_id (suc (suc (suc q))) retain dup n t ids names c fresh =
      let not_one : (suc (suc (suc q)) == 1) ≡ false = ground arith in
      let not_two : (suc (suc (suc q)) == 2) ≡ false = ground arith in rw (not_one, not_two) refl

  -- A PUBLISH of the gateway with a predefined topic id (topic type 01) and a content, whatever
  -- bytes stand behind it, is handed to the listener as it was sent, with the name that the client
  -- has for the id of its topic, or with none; it is answered at once, with a PUBACK of both its ids
  -- at QoS 1 and a PUBREC of its packet id at QoS 2. Nothing else of the client changes. The
  -- conditions: malloc returns blocks of the size that is asked for, the client has its three
  -- tables, the ids are below 65536, the content holds no zero byte and has one byte at least and
  -- less than 65536, and the length field of the packet has one byte below 128, or three bytes with
  -- a length from 258 to 65535.
  pub process_sn_rx-sn_publish_frame :
      (now b : ℕ) (content rest : Bytes) (topic_id qos : ℕ) (retain dup : Bool) (n : ℕ)
      (t : w.messages.Table) (ids : w.topic_ids.Table) (names : w.topic_names.Table)
      (c : SnClient w)
      → ((l : ℕ) → length (w.malloc l) ≡ l)
      → qos < 4
      → topic_id < 65536
      → n < 65536
      → IsText (b ∷ content)
      → IsReadable (length content + 6)
      → process_sn_rx w now
          (sn_publish_frame (b ∷ content) topic_id qos retain dup n ++ rest)
          (with_maps w t ids names c)
        ≡ ok (
            record_effects
              (publish_received (record {
                content = b ∷ content;
                topic_name = w.topic_names.lookup topic_id names;
                qos = qos;
                retain = retain;
                dup = dup;
              })
                ∷ sn_acknowledgement qos topic_id n)
              (with_maps w t ids names c))
  unfolding handle_sn_message
  process_sn_rx-sn_publish_frame now b content rest topic_id qos retain dup n t ids names c fresh hq
        hi hn text readable =
      let size : length content + 6 ≡ suc (suc (suc (suc (suc (suc (length content)))))) =
        omega arith in
      process_sn_rx-eq w now _ (sn_publish (incoming (b ∷ content) topic_id qos retain dup n))
        (with_maps w t ids names c)
        (sn_decode-SnAnswer rest (publish_answer dup retain qos topic_id n b content hq hi hn text)
          (rw size at readable))
      ∙ on_publish-eq (b ∷ content) topic_id qos retain dup n t ids names c fresh
