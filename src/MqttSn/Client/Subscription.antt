-- ===== src/MqttSn/Client/Subscription.antt =====
-- A subscription by name, and a message on the topic whose id it brought.
use iotbroker_cloud_c_client.Base.{
  ℕ, ◌+◌, ◌%◌, ◌<◌, ◌≡◌, refl, ap, ◌∙◌, arith, Bool, false, some, none, [], ◌∷◌, ◌++◌, ◌==◌,
  same_text_refl, ok, Bytes, length, append_assoc,
}
use iotbroker_cloud_c_client.Base.HashTable.{live, lookup-insert_same}
use native.Mathlib.Nat.{mod-eq_of_lt}
use iotbroker_cloud_c_client.Helpers.{short_bytes}
use iotbroker_cloud_c_client.MqttSn.Packets.{SnSubscribe, sn_subscribe, sn_suback, sn_publish}
use iotbroker_cloud_c_client.MqttSn.Decode.{received, sn_decode}
use iotbroker_cloud_c_client.MqttSn.Wire.{sn_frame, sn_flags, wire_subscribe_name}
use iotbroker_cloud_c_client.MqttSn.Sent.{sn_encode_and_fire-SnWire}
use iotbroker_cloud_c_client.MqttSn.Client.State.{
  Libraries, SnClient, sent, topic_listed, topic_saved,
}
use iotbroker_cloud_c_client.MqttSn.Client.Timers.{
  sn_fire, sn_map_key, sn_add_message_in_map, sn_get_message_from_map, sn_remove_message_from_map,
  sn_add_topic_id_in_map, sn_add_topic_name_in_map, sn_get_topic_id_from_map,
  sn_get_topic_name_from_map,
}
use iotbroker_cloud_c_client.MqttSn.Client.Send.{
  next_packet, named_topic, send_sn_subscribe, send_sn_message,
}
use iotbroker_cloud_c_client.MqttSn.Client.Receive.{
  add_topic, list_topic, on_suback, handle_sn_message, process_sn_rx,
}
use iotbroker_cloud_c_client.MqttSn.Client.Steps.{
  sn_publish_frame, outgoing, entry, with_maps, process_sn_rx-eq, send_sn_publish-eq,
}

abbrev pub sn_subscribe_frame : ℕ → Bytes → ℕ → Bytes
sn_subscribe_frame n name qos =
    sn_frame 0x12 (sn_flags false qos false false false 0 ∷ short_bytes n ++ name)

abbrev subscription : ℕ → Bytes → ℕ → SnSubscribe
subscription n name qos = record {
  message_id = n;
  topic = record { id = none; value = some name; qos = qos; topic_type = some 0 };
  dup = false;
}

module _ (w : Libraries) where
  -- A message on a topic with an id is handed to `send_sn_publish`, after a packet id is used up.
  pub send_sn_message-known :
      (now : ℕ) (content name : Bytes) (qos : ℕ) (retain dup : Bool) (id : ℕ) (t : w.messages.Table)
      (ids : w.topic_ids.Table) (names : w.topic_names.Table) (c : SnClient w)
      → ((l : ℕ) → length (w.malloc l) ≡ l)
      → 0 < qos
      → qos < 4
      → length content < 65500
      → 0 < id
      → id < 65536
      → w.topic_ids.lookup name ids ≡ some id
      → send_sn_message w now content name qos retain dup (with_maps w t ids names c)
        ≡ ok (record (with_maps w t ids names c) {
          current_packet_number = c.current_packet_number + 1 + 1;
          messages_map = live (
              w.messages.insert
                ((c.current_packet_number + 1 + 1) % 65536)
                (entry
                  (sn_publish (
                    outgoing content name qos retain dup id
                      ((c.current_packet_number + 1 + 1) % 65536)))
                  now)
                t);
          log =
              c.log
              ++ (sent (
                    sn_publish_frame content id qos retain dup
                      ((c.current_packet_number + 1 + 1) % 65536))
                  ∷ []);
        })
  unfolding send_sn_message next_packet sn_get_topic_id_from_map
  send_sn_message-known now content name qos retain dup id t ids names c fresh pos hq hl hi hi' el =
      let n = c.current_packet_number in
      let short : id % 65536 ≡ id = mod-eq_of_lt hi' in
      let known : (id == 0) ≡ false = ground arith in
      rw (el, short, known)
        (send_sn_publish-eq w now content name qos retain dup id ((n + 1) % 65536) t
          (record (with_maps w t ids names c) { current_packet_number = n + 1 }) fresh pos hq hl
          refl)

  abbrev subscribed : ℕ → Bytes → ℕ → w.messages.Table → SnClient w → SnClient w
  subscribed now name qos t c =
      let n = c.current_packet_number in
      record c {
        current_packet_number = n + 1;
        messages_map = live (
            w.messages.insert (n + 1) (entry (sn_subscribe (subscription (n + 1) name qos)) now) t);
        log = c.log ++ (sent (sn_subscribe_frame (n + 1) name qos) ∷ []);
      }

  send_sn_subscribe-unknown :
      (now : ℕ) (name : Bytes) (qos : ℕ) (t : w.messages.Table) (ids : w.topic_ids.Table)
      (names : w.topic_names.Table) (c : SnClient w)
      → ((l : ℕ) → length (w.malloc l) ≡ l)
      → qos < 4
      → length name < 65500
      → c.current_packet_number < 65535
      → w.topic_ids.lookup name ids ≡ none
      → send_sn_subscribe w now name qos (with_maps w t ids names c)
        ≡ ok (subscribed now name qos t (with_maps w t ids names c))
  unfolding send_sn_subscribe named_topic next_packet sn_add_message_in_map sn_map_key
      sn_get_topic_id_from_map sn_fire
  send_sn_subscribe-unknown now name qos t ids names c fresh hq hn hp el =
      let n = c.current_packet_number in
      let m1 : (n + 1) % 65536 ≡ n + 1 = mod-eq_of_lt (omega arith) in
      let e =
        sn_encode_and_fire-SnWire w.malloc fresh
          (wire_subscribe_name (subscription (n + 1) name qos) name qos (refl, refl, refl) hq
            (omega arith))
          (omega arith) in
      rw (el, m1, e) refl

  on_suback-accepted :
      (n at g id : ℕ) (name : Bytes) (qos : ℕ) (t : w.messages.Table) (ids : w.topic_ids.Table)
      (names : w.topic_names.Table) (c : SnClient w)
      → w.messages.lookup n t ≡ some (entry (sn_subscribe (subscription n name qos)) at)
      → w.topic_names.lookup id names ≡ none
      → on_suback w
          (record { topic_id = id; message_id = n; code = 0; allowed_qos = g })
          (with_maps w t ids names c)
        ≡ ok
            (record (with_maps w
              (w.messages.remove n t)
              (w.topic_ids.insert name id ids)
              (w.topic_names.insert id name names)
              c) { log = c.log ++ (topic_listed name qos ∷ topic_saved name qos ∷ []) })
  unfolding on_suback list_topic add_topic sn_add_topic_id_in_map sn_add_topic_name_in_map
      sn_get_message_from_map sn_remove_message_from_map sn_get_topic_name_from_map
  on_suback-accepted n at g id name qos t ids names c el en = simp (el, en)

  -- A subscription to a topic that the client knows no id of is sent with its name. When the gateway
  -- accepts it with a new id, the topic is listed and saved with the QoS that was asked for, whatever QoS
  -- the gateway allows, and a message on it is sent at once: as a PUBLISH with that id, after no REGISTER.
  -- The conditions: the id is not 0 and has 16 bits, the message has QoS 1 or 2, the packet ids do not
  -- wrap, and topic and content have less than 65500 bytes.
  pub send_sn_subscribe-send_sn_message :
      (now at at' : ℕ) (content name : Bytes) (qos asked g : ℕ) (retain dup : Bool) (id : ℕ)
      (t : w.messages.Table) (ids : w.topic_ids.Table) (names : w.topic_names.Table)
      (c : SnClient w) (suback : Bytes)
      → ((l : ℕ) → length (w.malloc l) ≡ l)
      → 0 < qos
      → qos < 4
      → asked < 4
      → length name < 65500
      → length content < 65500
      → 0 < id
      → id < 65536
      → c.current_packet_number + 3 < 65536
      → w.topic_ids.lookup name ids ≡ none
      → w.topic_names.lookup id names ≡ none
      → sn_decode suback
        ≡ ok (
            received (
              sn_suback (record {
                topic_id = id;
                message_id = c.current_packet_number + 1;
                code = 0;
                allowed_qos = g;
              })))
      → (c₁ c₂ c₃ : SnClient w) × (send_sn_subscribe w now name asked (with_maps w t ids names c)
          ≡ ok c₁)
        × (process_sn_rx w at suback c₁ ≡ ok c₂)
        × (send_sn_message w at' content name qos retain dup c₂ ≡ ok c₃)
        × (c₃.log
            ≡ c.log
              ++ (sent (sn_subscribe_frame (c.current_packet_number + 1) name asked)
                  ∷ topic_listed name asked
                  ∷ topic_saved name asked
                  ∷ sent (sn_publish_frame content id qos retain dup (c.current_packet_number + 3))
                  ∷ []))
        × (sn_get_message_from_map w (c.current_packet_number + 3) c₃
            ≡ ok (
                some (
                  entry
                    (sn_publish
                      (outgoing content name qos retain dup id (c.current_packet_number + 3)))
                    at')))
  unfolding handle_sn_message sn_get_message_from_map
  send_sn_subscribe-send_sn_message now at at' content name qos asked g retain dup id t ids names c
        suback fresh pos hq ha hn hl hi hi' hp el en es =
      let n = c.current_packet_number in
      let m3 : (n + 1 + 1 + 1) % 65536 ≡ n + 3 = mod-eq_of_lt (omega arith) ∙ omega arith in
      let waiting = entry (sn_subscribe (subscription (n + 1) name asked)) now in
      let t₁ = w.messages.insert (n + 1) waiting t in
      let t₂ = w.messages.remove (n + 1) t₁ in
      let ids' = w.topic_ids.insert name id ids in
      let names' = w.topic_names.insert id name names in
      let c₁ = subscribed now name asked t (with_maps w t ids names c) in
      let c₂ : SnClient w = record (with_maps w t₂ ids' names' c₁) {
        log = c₁.log ++ (topic_listed name asked ∷ topic_saved name asked ∷ []);
      } in
      let later = entry (sn_publish (outgoing content name qos retain dup id (n + 3))) at' in
      let c₃ : SnClient w = record c₂ {
        current_packet_number = n + 1 + 1 + 1;
        messages_map = live (w.messages.insert (n + 3) later t₂);
        log = c₂.log ++ (sent (sn_publish_frame content id qos retain dup (n + 3)) ∷ []);
      } in
      let known : w.topic_ids.lookup name ids' ≡ some id =
        rw w.topic_ids.lookup-insert (simp same_text_refl) in
      let sent_at_once =
        send_sn_message-known at' content name qos retain dup id t₂ ids' names' c₂ fresh pos hq hl
          hi hi' known in
      let published = rw m3 at sent_at_once in
      (
        c₁,
        c₂,
        c₃,
        send_sn_subscribe-unknown now name asked t ids names c fresh ha hn (omega arith) el,
        process_sn_rx-eq w at suback
              (sn_suback (record { topic_id = id; message_id = n + 1; code = 0; allowed_qos = g }))
              c₁ es
            ∙ on_suback-accepted (n + 1) now g id name asked t₁ ids names c₁
                (lookup-insert_same w.messages (n + 1) waiting t) en,
        published,
        simp append_assoc,
        ap ok (lookup-insert_same w.messages (n + 3) later t₂),
      )
