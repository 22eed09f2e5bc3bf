-- ===== src/MqttSn/Client/Retries.antt =====
-- A connection that gets no answer.
use iotbroker_cloud_c_client.Base.{
  fault, ℕ, zero, suc, ◌<◌, ◌≡◌, refl, ◌∙◌, Bool, false, some, List, [], ◌∷◌, ◌++◌, ok, ap,
  append-nil, length, append_assoc,
}
use iotbroker_cloud_c_client.Base.HashTable.{live, lookup-insert_same}
use iotbroker_cloud_c_client.MqttSn.Packets.{sn_connect}
use iotbroker_cloud_c_client.MqttSn.Client.State.{
  Account, Libraries, SnClient, SnEffect, sent, timer_started, connecter, messager,
}
use iotbroker_cloud_c_client.MqttSn.Client.Timers.{
  sn_fire, sn_get_message_from_map, sn_connect_round, sn_connect_rounds,
}
use iotbroker_cloud_c_client.MqttSn.Client.Send.{
  sn_connect_packet, send_sn_connect, fin_mqtt_sn_client, sn_connect_task,
}
use iotbroker_cloud_c_client.MqttSn.Client.Steps.{entry}
use iotbroker_cloud_c_client.MqttSn.Client.Stopping.{sn_stop_all_timers-fault}
use iotbroker_cloud_c_client.MqttSn.Client.Connection.{
  sn_connect_frame, connecting, fired-connect, send_sn_connect-eq,
}

module _ (w : Libraries) where
  -- A client that has its CONNECT in the table sends it in every round.
  connect_round-waiting :
      (now : ℕ) (will : Bool) (a : Account) (t : w.messages.Table) (c : SnClient w)
      → ((l : ℕ) → length (w.malloc l) ≡ l)
      → length a.client_id < 250
      → (sn_connect_packet a).will_present ≡ will
      → w.messages.lookup 0 t ≡ some (entry (sn_connect (sn_connect_packet a)) now)
      → sn_connect_round w (record c { messages_map = live t })
        ≡ ok (record c {
          messages_map = live t;
          log = c.log ++ (sent (sn_connect_frame will a) ∷ []);
        })
  unfolding sn_connect_round sn_fire
  connect_round-waiting now will a t c fresh h ew el =
      rw (el, fired-connect w will a fresh h ew) refl

  abbrev copies : ℕ → SnEffect → List SnEffect
  copies zero e = []
  copies (suc n) e = e ∷ copies n e

  connect_rounds-waiting :
      (now : ℕ) (will : Bool) (a : Account) (t : w.messages.Table) (rounds : ℕ) (c : SnClient w)
      → ((l : ℕ) → length (w.malloc l) ≡ l)
      → length a.client_id < 250
      → (sn_connect_packet a).will_present ≡ will
      → w.messages.lookup 0 t ≡ some (entry (sn_connect (sn_connect_packet a)) now)
      → sn_connect_rounds w rounds (record c { messages_map = live t })
        ≡ ok (record c {
          messages_map = live t;
          log = c.log ++ copies rounds (sent (sn_connect_frame will a));
        })
  unfolding sn_connect_rounds
  connect_rounds-waiting now will a t zero c fresh h ew el = simp append-nil
  connect_rounds-waiting now will a t (suc rounds) c fresh h ew el =
      let c' : SnClient w = record c { log = c.log ++ (sent (sn_connect_frame will a) ∷ []) } in
      rw (connect_round-waiting now will a t c fresh h ew el)
        (connect_rounds-waiting now will a t rounds c' fresh h ew el ∙ simp append_assoc)

  -- A connection that gets no answer: the CONNECT is sent once and then in each of the five rounds
  -- of the connect thread, and it still waits in the table after them. What follows in the thread is
  -- undefined, since before it closes the connection it cancels the resend thread, which was never
  -- started. The conditions: malloc returns blocks of the size that is asked for, the client id has
  -- less than 250 bytes, the resend thread was never started, and the user has not disconnected.
  pub send_sn_connect-sn_connect_task :
      (now : ℕ) (a : Account) (c : SnClient w)
      → ((l : ℕ) → length (w.malloc l) ≡ l)
      → length a.client_id < 250
      → c.is_disconnect_sent ≡ false
      → c.threads messager ≡ false
      → (c₁ c₂ : SnClient w) × (send_sn_connect w now a c ≡ ok c₁)
        × (sn_connect_rounds w 5 c₁ ≡ ok c₂)
        × (c₂.log
            ≡ c.log
              ++ (sent (sn_connect_frame (sn_connect_packet a).will_present a)
                  ∷ timer_started connecter
                  ∷ copies 5 (sent (sn_connect_frame (sn_connect_packet a).will_present a))))
        × (sn_get_message_from_map w 0 c₂
            ≡ ok (some (entry (sn_connect (sn_connect_packet a)) now)))
        × (sn_connect_task w c₁ ≡ fault)
  unfolding sn_connect_task fin_mqtt_sn_client sn_get_message_from_map
  send_sn_connect-sn_connect_task now a c fresh h ed unset =
      let will = (sn_connect_packet a).will_present in
      let t = w.messages.insert 0 (entry (sn_connect (sn_connect_packet a)) now) w.messages.new in
      let c₁ = connecting w now will a c in
      let tried : SnClient w = record c₁ {
        log = c₁.log ++ copies 5 (sent (sn_connect_frame will a));
      } in
      let stored =
        lookup-insert_same w.messages 0 (entry (sn_connect (sn_connect_packet a)) now)
          w.messages.new in
      let rounds = connect_rounds-waiting now will a t 5 c₁ fresh h refl stored in
      (
        c₁,
        tried,
        send_sn_connect-eq w now will a c fresh h refl,
        rounds,
        simp append_assoc,
        ap ok stored,
        rw
            (
              rounds,
              ed,
              sn_stop_all_timers-fault w (record tried { is_disconnect_sent = false }) unset,
            )
            refl,
      )
