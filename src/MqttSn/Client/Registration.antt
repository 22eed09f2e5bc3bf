-- ===== src/MqttSn/Client/Registration.antt =====
-- A message on a topic with no id: its REGISTER is sent, and it waits.
use iotbroker_cloud_c_client.Base.{
  ℕ, ◌+◌, ◌%◌, ◌<◌, ◌≡◌, arith, Bool, some, none, [], ◌∷◌, ◌++◌, ok, Bytes, length,
}
use iotbroker_cloud_c_client.Base.HashTable.{live}
use native.Mathlib.Nat.{mod-eq_of_lt}
use iotbroker_cloud_c_client.MqttSn.Packets.{SnMessage, sn_publish, sn_register}
use iotbroker_cloud_c_client.MqttSn.Client.State.{Libraries, SnClient, sent}
use iotbroker_cloud_c_client.MqttSn.Client.Timers.{
  sn_fire, sn_map_key, sn_add_message_in_map, sn_get_topic_id_from_map,
}
use iotbroker_cloud_c_client.MqttSn.Client.Send.{next_packet, send_sn_register, send_sn_message}
use iotbroker_cloud_c_client.MqttSn.Client.Steps.{
  sn_register_frame, outgoing, entry, with_maps, fired-register,
}

abbrev pub registration : ℕ → Bytes → SnMessage
registration n name = sn_register (record { topic_id = 0; msg_id = n; topic_name = some name })

module _ (w : Libraries) where
  send_sn_register-eq :
      (now : ℕ) (name : Bytes) (t : w.messages.Table) (ids : w.topic_ids.Table)
      (names : w.topic_names.Table) (c : SnClient w)
      → ((l : ℕ) → length (w.malloc l) ≡ l)
      → length name < 65500
      → c.current_packet_number < 65535
      → send_sn_register w now name (with_maps w t ids names c)
        ≡ ok (record (with_maps w t ids names c) {
          current_packet_number = c.current_packet_number + 1;
          messages_map =
              live (
                w.messages.insert 0
                  (entry (registration (c.current_packet_number + 1) name) now)
                  t);
          log = c.log ++ (sent (sn_register_frame (c.current_packet_number + 1) name) ∷ []);
        })
  unfolding send_sn_register next_packet sn_add_message_in_map sn_map_key sn_fire
  send_sn_register-eq now name t ids names c fresh hn hp =
      let n = c.current_packet_number in
      let m1 : (n + 1) % 65536 ≡ n + 1 = mod-eq_of_lt (omega arith) in
      simp (m1, fired-register w (n + 1) name fresh hn)

  -- The client after a message on a topic with no id: the REGISTER is sent, and kept under 0, and the
  -- PUBLISH waits.
  abbrev pub registering :
      ℕ → Bytes → Bytes → ℕ → Bool → Bool → w.messages.Table → SnClient w → SnClient w
  registering now content name qos retain dup t c =
      let n = c.current_packet_number in
      record c {
        current_packet_number = n + 1 + 1;
        messages_map = live (
            w.messages.insert 0 (entry (registration (n + 1 + 1) name) now) (
              w.messages.insert (n + 1)
                (entry (sn_publish (outgoing content name qos retain dup 0 (n + 1))) now) t));
        log = c.log ++ (sent (sn_register_frame (n + 1 + 1) name) ∷ []);
      }

  pub send_sn_message-unknown :
      (now : ℕ) (content name : Bytes) (qos : ℕ) (retain dup : Bool) (t : w.messages.Table)
      (ids : w.topic_ids.Table) (names : w.topic_names.Table) (c : SnClient w)
      → ((l : ℕ) → length (w.malloc l) ≡ l)
      → length name < 65500
      → c.current_packet_number + 1 < 65535
      → w.topic_ids.lookup name ids ≡ none
      → send_sn_message w now content name qos retain dup (with_maps w t ids names c)
        ≡ ok (registering now content name qos retain dup t (with_maps w t ids names c))
  unfolding send_sn_message next_packet sn_add_message_in_map sn_map_key sn_get_topic_id_from_map
  send_sn_message-unknown now content name qos retain dup t ids names c fresh hn hp el =
      let n = c.current_packet_number in
      let m1 : (n + 1) % 65536 ≡ n + 1 = mod-eq_of_lt (omega arith) in
      let waiting = entry (sn_publish (outgoing content name qos retain dup 0 (n + 1))) now in
      let t₁ = w.messages.insert (n + 1) waiting t in
      rw (el, m1)
        (send_sn_register-eq now name t₁ ids names (record c { current_packet_number = n + 1 })
          fresh hn hp)
