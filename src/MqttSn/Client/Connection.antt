-- ===== src/MqttSn/Client/Connection.antt =====
-- The start of a connection: CONNECT, the will, and the CONNACK.
use iotbroker_cloud_c_client.Base.{
  ℕ, ◌%◌, ◌<◌, ◌≡◌, refl, ◌∙◌, arith, Bool, true, false, some, none, [], ◌∷◌, ◌++◌, ok, Bytes,
  length, append_assoc,
}
use iotbroker_cloud_c_client.Base.HashTable.{live}
use iotbroker_cloud_c_client.Helpers.{short_bytes}
use iotbroker_cloud_c_client.MqttSn.Packets.{
  sn_connect, sn_will_topic_req, sn_will_msg_req, sn_connack,
}
use iotbroker_cloud_c_client.MqttSn.Decode.{received, sn_decode}
use iotbroker_cloud_c_client.MqttSn.Encode.{sn_encode_and_fire}
use iotbroker_cloud_c_client.MqttSn.Wire.{
  sn_frame, sn_flags, wire_connect, wire_will_topic, wire_will_msg,
}
use iotbroker_cloud_c_client.MqttSn.Sent.{sn_encode_and_fire-SnWire}
use iotbroker_cloud_c_client.MqttSn.Client.State.{
  Account, Libraries, SnClient, sent, timer_started, timer_stopped, connecter, pinger, started,
  connection_successful,
}
use iotbroker_cloud_c_client.MqttSn.Client.Timers.{
  sn_fire, sn_map_key, sn_start_connect_timer, start_mqtt_sn_ping_timer, sn_stop_connect_timer,
  sn_add_message_in_map, sn_get_message_from_map, sn_remove_message_from_map,
  sn_get_topic_id_from_map, sn_get_topic_name_from_map, cancel,
}
use iotbroker_cloud_c_client.MqttSn.Client.Send.{
  sn_connect_packet, send_sn_connect, send_will_topic, send_will_message,
}
use iotbroker_cloud_c_client.MqttSn.Client.Receive.{on_connack, handle_sn_message, process_sn_rx}
use iotbroker_cloud_c_client.MqttSn.Client.Steps.{entry, process_sn_rx-eq}

-- The CONNECT of an account that has a will, or has none.
abbrev pub sn_connect_frame : Bool → Account → Bytes
sn_connect_frame will a = sn_frame 0x04 (
    sn_flags false 0 false will a.clean_session 0 ∷ 1 ∷ short_bytes (a.keep_alive % 65536)
    ++ a.client_id)

abbrev pub sn_will_topic_frame : Account → Bytes → Bytes
sn_will_topic_frame a topic = sn_frame 0x07 (sn_flags false a.qos a.is_retain false false 0 ∷ topic)

module _ (w : Libraries) where
  -- The client after a CONNECT: it is sent, and kept under 0 in a fresh table.
  abbrev pub connecting : ℕ → Bool → Account → SnClient w → SnClient w
  connecting now will a c = record c {
    delay_in_seconds = a.keep_alive;
    account = a;
    threads = started connecter c.threads;
    messages_map =
        live (w.messages.insert 0 (entry (sn_connect (sn_connect_packet a)) now) w.messages.new);
    log = c.log ++ (sent (sn_connect_frame will a) ∷ timer_started connecter ∷ []);
  }

  pub fired-connect :
      (will : Bool) (a : Account)
      → ((l : ℕ) → length (w.malloc l) ≡ l)
      → length a.client_id < 250
      → (sn_connect_packet a).will_present ≡ will
      → sn_encode_and_fire w.malloc (sn_connect (sn_connect_packet a))
        ≡ ok (sn_connect_frame will a)
  unfolding sn_connect_packet
  fired-connect will a fresh h ew =
      sn_encode_and_fire-SnWire w.malloc fresh
        (wire_connect (sn_connect_packet a) a.client_id refl refl h) (omega arith)
      ∙ rw ew refl

  pub send_sn_connect-eq :
      (now : ℕ) (will : Bool) (a : Account) (c : SnClient w)
      → ((l : ℕ) → length (w.malloc l) ≡ l)
      → length a.client_id < 250
      → (sn_connect_packet a).will_present ≡ will
      → send_sn_connect w now a c ≡ ok (connecting now will a c)
  unfolding send_sn_connect sn_fire sn_start_connect_timer sn_add_message_in_map sn_map_key
  send_sn_connect-eq now will a c fresh h ew =
      simp (fired-connect will a fresh h ew) (simp append_assoc)

  -- A connection with a will. The CONNECT announces it; the gateway asks for its topic and for its
  -- message, and gets those of the account; with the CONNACK that accepts, the window is told, the
  -- pings start with the keep-alive time of the account, and no message is in the table of messages
  -- and no topic in either table of topics. The conditions: malloc returns blocks of the size that
  -- is asked for, the client id has less than 250 bytes, the will less than 65500, the QoS 2 bits.
  pub send_sn_connect-will :
      (now at k id : ℕ) (a : Account) (topic will name : Bytes) (c : SnClient w)
      (topic_req msg_req connack : Bytes)
      → ((l : ℕ) → length (w.malloc l) ≡ l)
      → length a.client_id < 250
      → a.will_topic ≡ some topic
      → a.will ≡ some will
      → a.qos < 4
      → length topic < 65500
      → length will < 65500
      → sn_decode topic_req ≡ ok (received sn_will_topic_req)
      → sn_decode msg_req ≡ ok (received sn_will_msg_req)
      → sn_decode connack ≡ ok (received (sn_connack 0))
      → (c₁ c₂ c₃ c₄ : SnClient w) × (send_sn_connect w now a c ≡ ok c₁)
        × (process_sn_rx w at topic_req c₁ ≡ ok c₂)
        × (process_sn_rx w at msg_req c₂ ≡ ok c₃)
        × (process_sn_rx w at connack c₃ ≡ ok c₄)
        × (c₄.log
            ≡ c.log
              ++ (sent (sn_connect_frame true a)
                  ∷ timer_started connecter
                  ∷ sent (sn_will_topic_frame a topic)
                  ∷ sent (sn_frame 0x09 will)
                  ∷ timer_stopped connecter
                  ∷ connection_successful
                  ∷ timer_started pinger
                  ∷ []))
        × (c₄.ping_delay ≡ a.keep_alive)
        × (sn_get_message_from_map w k c₄ ≡ ok none)
        × (sn_get_topic_id_from_map w name c₄ ≡ ok 0)
        × (sn_get_topic_name_from_map w id c₄ ≡ ok none)
  unfolding handle_sn_message send_will_topic send_will_message on_connack sn_fire
      sn_stop_connect_timer start_mqtt_sn_ping_timer sn_remove_message_from_map
      sn_get_message_from_map sn_get_topic_id_from_map sn_get_topic_name_from_map cancel
  send_sn_connect-will now at k id a topic will name c topic_req msg_req connack fresh hc et ew hq
        ht hw er em ea =
      let present : (sn_connect_packet a).will_present ≡ true =
        unfold sn_connect_packet in rw (et, ew) refl in
      let c₁ = connecting now true a c in
      let c₂ : SnClient w = record c₁ {
        log = c₁.log ++ (sent (sn_will_topic_frame a topic) ∷ []);
      } in
      let c₃ : SnClient w = record c₂ { log = c₂.log ++ (sent (sn_frame 0x09 will) ∷ []) } in
      let t₁ = w.messages.insert 0 (entry (sn_connect (sn_connect_packet a)) now) w.messages.new in
      let c₄ : SnClient w = record c₃ {
        messages_map = live (w.messages.remove 0 t₁);
        topic_name_map = live w.topic_ids.new;
        reverse_topic_name_map = live w.topic_names.new;
        ping_delay = a.keep_alive;
        threads = started pinger c₃.threads;
        log =
            c₃.log ++ (timer_stopped connecter ∷ connection_successful ∷ timer_started pinger ∷ []);
      } in
      let e₂ =
        sn_encode_and_fire-SnWire w.malloc fresh
          (wire_will_topic a.is_retain
            (record { id = none; value = some topic; qos = a.qos; topic_type = none }) topic refl hq
            (omega arith))
          (omega arith) in
      let e₃ =
        sn_encode_and_fire-SnWire w.malloc fresh (wire_will_msg will (omega arith)) (omega arith) in
      (
        c₁,
        c₂,
        c₃,
        c₄,
        send_sn_connect-eq now true a c fresh hc present,
        process_sn_rx-eq w at topic_req sn_will_topic_req c₁ er ∙ rw (et, e₂) refl,
        process_sn_rx-eq w at msg_req sn_will_msg_req c₂ em ∙ rw (ew, e₃) refl,
        process_sn_rx-eq w at connack (sn_connack 0) c₃ ea ∙ simp append_assoc,
        simp append_assoc,
        refl,
        rw (w.messages.lookup-remove, w.messages.lookup-insert, w.messages.lookup-new)
            (ground arith),
        rw w.topic_ids.lookup-new refl,
        rw w.topic_names.lookup-new refl,
      )
