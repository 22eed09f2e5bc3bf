-- ===== src/MqttSn/Client/Publication.antt =====
-- The first publication on a topic: REGISTER, PUBLISH and the end of the delivery.
use iotbroker_cloud_c_client.Base.{
  ℕ, ◌+◌, ◌%◌, ◌<◌, ◌≡◌, refl, ap, ◌∙◌, arith, Bool, some, none, [], ◌∷◌, ◌++◌, ◌&&◌, ltb,
  if◌then◌else◌, ◌==◌, same_text_refl, ok, Bytes, length, append_assoc,
}
use iotbroker_cloud_c_client.Base.HashTable.{live, lookup-insert_same}
use native.Mathlib.Nat.{mod-eq_of_lt}
use iotbroker_cloud_c_client.MqttSn.Packets.{SnRegAck, sn_publish, sn_regack}
use iotbroker_cloud_c_client.MqttSn.Decode.{received, sn_decode}
use iotbroker_cloud_c_client.MqttSn.Client.State.{Libraries, SnClient, SnEntry, sent}
use iotbroker_cloud_c_client.MqttSn.Client.Timers.{
  sn_get_message_from_map, sn_remove_message_from_map, sn_add_topic_id_in_map,
  sn_add_topic_name_in_map, sn_get_topic_id_from_map, sn_get_topic_name_from_map,
}
use iotbroker_cloud_c_client.MqttSn.Client.Send.{send_sn_message}
use iotbroker_cloud_c_client.MqttSn.Client.Receive.{
  add_topic, previous, on_registered, on_regack, handle_sn_message, process_sn_rx,
}
use iotbroker_cloud_c_client.MqttSn.Client.Steps.{
  sn_publish_frame, sn_register_frame, outgoing, delivered, final_answer, entry, with_maps,
  process_sn_rx-eq, send_sn_publish-eq, handle_final_answer-eq,
}
use iotbroker_cloud_c_client.MqttSn.Client.Registration.{
  registration, registering, send_sn_message-unknown,
}

abbrev accepted : ℕ → ℕ → SnRegAck
accepted topic_id n = record { topic_id = topic_id; message_id = n; code = 0 }

module _ (w : Libraries) where
  -- The client after the REGACK of its last packet id: both tables know the topic, and the PUBLISH is sent
  -- with a fresh packet id, under which it waits.
  abbrev registered :
      ℕ
      → Bytes
      → Bytes
      → ℕ
      → Bool
      → Bool
      → ℕ
      → w.messages.Table
      → w.topic_ids.Table
      → w.topic_names.Table
      → SnClient w
      → SnClient w
  registered now content name qos retain dup id t ids names c =
      let n = c.current_packet_number in
      record c {
        current_packet_number = n + 1;
        messages_map = live (
            w.messages.remove n (
              w.messages.remove (previous w n) (
                w.messages.insert (n + 1)
                  (entry (sn_publish (outgoing content name qos retain dup id (n + 1))) now) t)));
        topic_name_map = live (w.topic_ids.insert name id ids);
        reverse_topic_name_map = live (w.topic_names.insert id name names);
        log = c.log ++ (sent (sn_publish_frame content id qos retain dup (n + 1)) ∷ []);
      }

  on_regack-waiting :
      (now at : ℕ) (content name : Bytes) (qos : ℕ) (retain dup : Bool) (id m : ℕ)
      (t : w.messages.Table) (ids : w.topic_ids.Table) (names : w.topic_names.Table)
      (c : SnClient w)
      → ((l : ℕ) → length (w.malloc l) ≡ l)
      → 0 < qos
      → qos < 4
      → length content < 65500
      → c.current_packet_number < 65535
      → w.messages.lookup (previous w c.current_packet_number) t
        ≡ some (entry (sn_publish (outgoing content name qos retain dup 0 m)) at)
      → on_regack w now (accepted id c.current_packet_number) (with_maps w t ids names c)
        ≡ ok (registered now content name qos retain dup id t ids names c)
  unfolding on_regack on_registered add_topic sn_add_topic_id_in_map sn_add_topic_name_in_map
      sn_get_message_from_map sn_remove_message_from_map
  on_regack-waiting now at content name qos retain dup id m t ids names c fresh pos hq hl hp el =
      let n = c.current_packet_number in
      let m1 : (n + 1) % 65536 ≡ n + 1 = mod-eq_of_lt (omega arith) in
      let c' =
        with_maps w t (w.topic_ids.insert name id ids) (w.topic_names.insert id name names) c in
      simp (
        el,
        send_sn_publish-eq w now content name qos retain dup id m t c' fresh pos hq hl refl,
        m1,
      )

  waiting-lookup :
      (n : ℕ) (e r : SnEntry) (t : w.messages.Table)
      → n < 65534
      → w.messages.lookup
          (previous w (n + 1 + 1))
          (w.messages.insert 0 r (w.messages.insert (n + 1) e t))
        ≡ some e
  waiting-lookup n e r t h =
      let back : previous w (n + 1 + 1) ≡ n + 1 = omega arith in
      simp (back, w.messages.lookup-insert) (ground arith)

  -- What the table holds after the REGACK, under every key.
  registered-lookup :
      (k n : ℕ) (p q r : SnEntry) (t : w.messages.Table)
      → n < 65533
      → w.messages.lookup k (
          w.messages.remove (n + 1 + 1) (
            w.messages.remove (previous w (n + 1 + 1)) (
              w.messages.insert
                (n + 1 + 1 + 1)
                q
                (w.messages.insert 0 r (w.messages.insert (n + 1) p t)))))
        ≡ (if k == 0
            then some r
            else if k == n + 3
            then some q
            else if ltb n k && ltb k (n + 3)
            then none
            else w.messages.lookup k t)
  registered-lookup k n p q r t h =
      let back : previous w (n + 1 + 1) ≡ n + 1 = omega arith in
      simp (back, w.messages.lookup-remove, w.messages.lookup-insert) (ground arith)

  -- A message that is published at QoS 1 or 2 on a topic that the client knows no id of. First the topic
  -- is registered; with the REGACK the id goes into both tables, and the PUBLISH is sent with that id and
  -- the next packet id; with the PUBACK, or PUBCOMP at QoS 2, of that packet id the message is saved and
  -- shown, once. Of the table of messages nothing else has changed at the end, under any key, but that
  -- the REGISTER is left under the key 0. The conditions: the gateway accepts, with an id of 16 bits, the
  -- packet ids do not wrap, and topic and content have less than 65500 bytes.
  pub send_sn_message-registered :
      (now at at' : ℕ) (content name : Bytes) (qos : ℕ) (retain dup : Bool) (id k : ℕ)
      (t : w.messages.Table) (ids : w.topic_ids.Table) (names : w.topic_names.Table)
      (c : SnClient w) (regack answer : Bytes)
      → ((l : ℕ) → length (w.malloc l) ≡ l)
      → 0 < qos
      → qos < 4
      → length name < 65500
      → length content < 65500
      → id < 65536
      → c.current_packet_number + 3 < 65536
      → w.topic_ids.lookup name ids ≡ none
      → sn_decode regack ≡ ok (received (sn_regack (accepted id (c.current_packet_number + 2))))
      → sn_decode answer ≡ ok (received (final_answer qos id (c.current_packet_number + 3)))
      → (c₁ c₂ c₃ : SnClient w) × (send_sn_message w now content name qos retain dup
            (with_maps w t ids names c)
          ≡ ok c₁)
        × (process_sn_rx w at regack c₁ ≡ ok c₂)
        × (process_sn_rx w at' answer c₂ ≡ ok c₃)
        × (c₃.log
            ≡ c.log
              ++ (sent (sn_register_frame (c.current_packet_number + 2) name)
                  ∷ sent (sn_publish_frame content id qos retain dup (c.current_packet_number + 3))
                  ∷ delivered content name qos retain dup))
        × (sn_get_topic_id_from_map w name c₃ ≡ ok id)
        × (sn_get_topic_name_from_map w id c₃ ≡ ok (some name))
        × (sn_get_message_from_map w k c₃
            ≡ ok (
                if k == 0
                then some (entry (registration (c.current_packet_number + 2) name) now)
                else if ltb c.current_packet_number k && ltb k (c.current_packet_number + 4)
                then none
                else w.messages.lookup k t))
  unfolding handle_sn_message sn_get_topic_id_from_map sn_get_topic_name_from_map
      sn_get_message_from_map
  send_sn_message-registered now at at' content name qos retain dup id k t ids names c regack answer
        fresh pos hq hn hl hi hp el er ea =
      let n = c.current_packet_number in
      let two : n + 2 ≡ n + 1 + 1 = omega arith in
      let three : n + 3 ≡ n + 1 + 1 + 1 = omega arith in
      let four : n + 4 ≡ n + 3 + 1 = omega arith in
      let waiting = entry (sn_publish (outgoing content name qos retain dup 0 (n + 1))) now in
      let kept = entry (registration (n + 1 + 1) name) now in
      let resent =
        entry (sn_publish (outgoing content name qos retain dup id (n + 1 + 1 + 1))) at in
      let t₁ = w.messages.insert 0 kept (w.messages.insert (n + 1) waiting t) in
      let c₁ = registering w now content name qos retain dup t (with_maps w t ids names c) in
      let c₂ = registered at content name qos retain dup id t₁ ids names c₁ in
      let t₂ = w.messages.remove (n + 1 + 1) (
        w.messages.remove (previous w (n + 1 + 1)) (w.messages.insert (n + 1 + 1 + 1) resent t₁)) in
      let c₃ : SnClient w = record c₂ {
        messages_map = live (w.messages.remove (n + 1 + 1 + 1) t₂);
        log = c₂.log ++ delivered content name qos retain dup;
      } in
      let found : w.messages.lookup (n + 1 + 1 + 1) t₂ ≡ some resent =
        registered-lookup (n + 1 + 1 + 1) n waiting resent kept t (omega arith) ∙ ground arith in
      (
        c₁,
        c₂,
        c₃,
        send_sn_message-unknown w now content name qos retain dup t ids names c fresh hn
            (omega arith) el,
        process_sn_rx-eq w at regack (sn_regack (accepted id (n + 2))) c₁ er
            ∙ rw two (
                on_regack-waiting at now content name qos retain dup id (n + 1) t₁ ids names c₁
                  fresh pos hq hl (omega arith) (waiting-lookup n waiting kept t (omega arith))),
        process_sn_rx-eq w at' answer (final_answer qos id (n + 3)) c₂ ea
            ∙ rw three (
                handle_final_answer-eq w at' at content name qos retain dup id (n + 1 + 1 + 1) t₂ c₂
                  refl found),
        rw (two, three) (simp append_assoc),
        rw w.topic_ids.lookup-insert (simp (same_text_refl, mod-eq_of_lt hi)),
        ap ok (lookup-insert_same w.topic_names id name names),
        rw
            (
              two,
              four,
              w.messages.lookup-remove,
              registered-lookup k n waiting resent kept t (omega arith),
            )
            (ground arith),
      )
