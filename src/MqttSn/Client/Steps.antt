-- ===== src/MqttSn/Client/Steps.antt =====
-- What the calls of the client come to where their tables are there.
use iotbroker_cloud_c_client.Base.{
  ℕ, ◌+◌, ◌%◌, ◌<◌, ◌≡◌, refl, arith, Bool, false, some, List, [], ◌∷◌, ◌++◌, Bool-cases, inl, inr,
  if◌then◌else◌, ◌==◌, ok, Bytes, length,
}
use iotbroker_cloud_c_client.Base.HashTable.{live}
use iotbroker_cloud_c_client.Helpers.{short_bytes}
use iotbroker_cloud_c_client.MqttSn.Packets.{
  SnMessage, SnPublish, sn_publish, sn_register, sn_puback, sn_pubcomp,
}
use iotbroker_cloud_c_client.MqttSn.Decode.{received, sn_decode}
use iotbroker_cloud_c_client.MqttSn.Encode.{sn_encode_and_fire}
use iotbroker_cloud_c_client.MqttSn.Wire.{sn_frame, sn_flags, wire_publish, wire_register}
use iotbroker_cloud_c_client.MqttSn.Sent.{sn_encode_and_fire-SnWire}
use iotbroker_cloud_c_client.MqttSn.Client.State.{
  Libraries, SnClient, SnEntry, SnDelivery, SnEffect, sent, message_saved, window_updated,
  record_effects,
}
use iotbroker_cloud_c_client.MqttSn.Client.Timers.{
  sn_fire, sn_map_key, sn_add_message_in_map, sn_get_message_from_map, sn_remove_message_from_map,
}
use iotbroker_cloud_c_client.MqttSn.Client.Send.{sn_delivery_of, next_packet, send_sn_publish}
use iotbroker_cloud_c_client.MqttSn.Client.Receive.{
  on_puback, on_pubcomp, handle_sn_message, handle_sn_decoded, process_sn_rx,
}

abbrev pub sn_publish_frame : Bytes → ℕ → ℕ → Bool → Bool → ℕ → Bytes
sn_publish_frame content topic_id qos retain dup n =
    sn_frame 0x0c
      (sn_flags dup qos retain false false 1 ∷ short_bytes topic_id ++ (short_bytes n ++ content))

abbrev pub sn_register_frame : ℕ → Bytes → Bytes
sn_register_frame n name = sn_frame 0x0a (short_bytes 0 ++ (short_bytes n ++ name))

-- A PUBLISH of the client, with the id of its topic and its own.
abbrev pub outgoing : Bytes → Bytes → ℕ → Bool → Bool → ℕ → ℕ → SnPublish
outgoing content name qos retain dup topic_id n = record {
  message_id = n;
  topic = record { id = some topic_id; value = some name; qos = qos; topic_type = some 1 };
  data_text = some content;
  dup = dup;
  retain = retain;
  is_incoming = some false;
}

abbrev pub sn_delivery : Bytes → Bytes → ℕ → Bool → Bool → SnDelivery
sn_delivery content name qos retain dup = record {
  content = content;
  topic_name = some name;
  qos = qos;
  retain = retain;
  dup = dup;
}

abbrev pub delivered : Bytes → Bytes → ℕ → Bool → Bool → List SnEffect
delivered content name qos retain dup =
    message_saved (sn_delivery content name qos retain dup) false
    ∷ window_updated (sn_delivery content name qos retain dup) false
    ∷ []

-- The answer of the gateway that ends a delivery: PUBACK at QoS 1, PUBCOMP at QoS 2.
abbrev pub final_answer : ℕ → ℕ → ℕ → SnMessage
final_answer qos topic_id n =
    if qos == 1
    then sn_puback (record { topic_id = topic_id; message_id = n; code = 0 })
    else sn_pubcomp n

abbrev pub entry : SnMessage → ℕ → SnEntry
entry m now = record { message = m; time_stamp = now }

module _ (w : Libraries) where
  -- A client whose tables are there.
  abbrev pub with_maps :
      w.messages.Table → w.topic_ids.Table → w.topic_names.Table → SnClient w → SnClient w
  with_maps t ids names c = record c {
    messages_map = live t;
    topic_name_map = live ids;
    reverse_topic_name_map = live names;
  }

  pub sn_fire-eq :
      (m : SnMessage) (c : SnClient w) {bytes : Bytes}
      → sn_encode_and_fire w.malloc m ≡ ok bytes
      → sn_fire w m c ≡ ok (record_effects (sent bytes ∷ []) c)
  unfolding sn_fire
  sn_fire-eq m c e = rw e

  pub process_sn_rx-eq :
      (now : ℕ) (buf : Bytes) (m : SnMessage) (c : SnClient w)
      → sn_decode buf ≡ ok (received m)
      → process_sn_rx w now buf c ≡ handle_sn_message w now m c
  unfolding process_sn_rx handle_sn_decoded
  process_sn_rx-eq now buf m c e = rw e

  pub fired-publish :
      (content name : Bytes) (qos : ℕ) (retain dup : Bool) (topic_id n : ℕ)
      → ((l : ℕ) → length (w.malloc l) ≡ l)
      → qos < 4
      → length content < 65500
      → sn_encode_and_fire w.malloc (sn_publish (outgoing content name qos retain dup topic_id n))
        ≡ ok (sn_publish_frame content topic_id qos retain dup n)
  fired-publish content name qos retain dup topic_id n fresh hq hl =
      sn_encode_and_fire-SnWire w.malloc fresh
        (wire_publish (outgoing content name qos retain dup topic_id n) topic_id qos content
          (refl, refl, refl) hq refl (omega arith))
        (omega arith)

  pub fired-register :
      (n : ℕ) (name : Bytes)
      → ((l : ℕ) → length (w.malloc l) ≡ l)
      → length name < 65500
      → sn_encode_and_fire w.malloc
          (sn_register (record { topic_id = 0; msg_id = n; topic_name = some name }))
        ≡ ok (sn_register_frame n name)
  fired-register n name fresh hl =
      sn_encode_and_fire-SnWire w.malloc fresh (wire_register 0 n name (omega arith)) (omega arith)

  -- A PUBLISH of QoS 1 or 2 is sent with the next packet id, and waits under it.
  pub send_sn_publish-eq :
      (now : ℕ) (content name : Bytes) (qos : ℕ) (retain dup : Bool) (topic_id n : ℕ)
      (t : w.messages.Table) (c : SnClient w)
      → ((l : ℕ) → length (w.malloc l) ≡ l)
      → 0 < qos
      → qos < 4
      → length content < 65500
      → c.messages_map ≡ live t
      → send_sn_publish w now (outgoing content name qos retain dup topic_id n) c
        ≡ ok (record c {
          current_packet_number = c.current_packet_number + 1;
          messages_map = live (
              w.messages.insert
                ((c.current_packet_number + 1) % 65536)
                (entry
                  (sn_publish (
                    outgoing content name qos retain dup topic_id
                      ((c.current_packet_number + 1) % 65536)))
                  now)
                t);
          log =
              c.log
              ++ (sent (
                    sn_publish_frame content topic_id qos retain dup
                      ((c.current_packet_number + 1) % 65536))
                  ∷ []);
        })
  unfolding send_sn_publish next_packet sn_add_message_in_map sn_map_key sn_fire
  send_sn_publish-eq now content name qos retain dup topic_id n t c fresh pos hq hl em =
      let ez : (qos == 0) ≡ false = ground arith in
      let e =
        fired-publish content name qos retain dup topic_id ((c.current_packet_number + 1) % 65536)
          fresh hq hl in
      simp (e, ez, em)

  -- The answer to a PUBLISH that waits.
  pub handle_final_answer-eq :
      (now at : ℕ) (content name : Bytes) (qos : ℕ) (retain dup : Bool) (topic_id n : ℕ)
      (t : w.messages.Table) (c : SnClient w)
      → c.messages_map ≡ live t
      → w.messages.lookup n t
        ≡ some (entry (sn_publish (outgoing content name qos retain dup topic_id n)) at)
      → handle_sn_message w now (final_answer qos topic_id n) c
        ≡ ok (record c {
          messages_map = live (w.messages.remove n t);
          log = c.log ++ delivered content name qos retain dup;
        })
  unfolding handle_sn_message on_puback on_pubcomp sn_delivery_of sn_get_message_from_map
      sn_remove_message_from_map
  handle_final_answer-eq now at content name qos retain dup topic_id n t c em el =
      elim (Bool-cases (qos == 1)) [ inl one ↦ simp (one, em, el) | inr two ↦ simp (two, em, el) ]
