-- ===== src/MqttSn/Client/Reach.antt =====
-- What the user, the gateway and the timers can do to the client, one call after the other.
use iotbroker_cloud_c_client.Base.{fault, ℕ, ◌≡◌, refl, Bool, true, false, some, [], ok, Bytes}
use iotbroker_cloud_c_client.Base.HashTable.{null, live}
use iotbroker_cloud_c_client.Base.Kept.{Kept-holds}
use iotbroker_cloud_c_client.MqttSn.Client.State.{Account, Libraries, SnClient, SnEntry}
use iotbroker_cloud_c_client.MqttSn.Client.Timers.{sn_message_resend_round}
use iotbroker_cloud_c_client.MqttSn.Client.Send.{
  send_sn_connect, send_sn_subscribe, send_sn_message, send_sn_unsubscribe, send_sn_disconnect,
  sn_send_ping, fin_mqtt_sn_client, sn_connect_task,
}
use iotbroker_cloud_c_client.MqttSn.Client.Receive.{process_sn_rx}
use iotbroker_cloud_c_client.MqttSn.Client.Sound.{IsKeyOf, IsSound, Kept-fire}
use iotbroker_cloud_c_client.MqttSn.Client.Stopping.{sn_stop_all_timers-fault}
use iotbroker_cloud_c_client.MqttSn.Client.Replies.{Kept-process_sn_rx, Kept-fin}
use iotbroker_cloud_c_client.MqttSn.Client.Calls.{
  Kept-send_sn_connect, Kept-send_sn_subscribe, Kept-send_sn_unsubscribe, Kept-send_sn_message,
  Kept-send_sn_disconnect, Kept-message_resend_round, Kept-connect_task,
}

module _ (w : Libraries) where
  -- A call that ends well: of the user, of the socket, or of a timer thread.
  pub data Step (c c' : SnClient w) : Type 0 where
    connects : (now : ℕ) (a : Account) → send_sn_connect w now a c ≡ ok c' → Step c c'
    subscribes :
        (now : ℕ) (name : Bytes) (qos : ℕ) → send_sn_subscribe w now name qos c ≡ ok c' → Step c c'
    unsubscribes : (now : ℕ) (name : Bytes) → send_sn_unsubscribe w now name c ≡ ok c' → Step c c'
    publishes :
        (now : ℕ) (content name : Bytes) (qos : ℕ) (retain dup : Bool)
        → send_sn_message w now content name qos retain dup c ≡ ok c'
        → Step c c'
    disconnects : send_sn_disconnect w c ≡ ok c' → Step c c'
    pings : sn_send_ping w c ≡ ok c' → Step c c'
    receives : (now : ℕ) (buf : Bytes) → process_sn_rx w now buf c ≡ ok c' → Step c c'
    resends : (now : ℕ) → sn_message_resend_round w now c ≡ ok c' → Step c c'
    gives_up : sn_connect_task w c ≡ ok c' → Step c c'
    finishes : fin_mqtt_sn_client w c ≡ ok c' → Step c c'

  -- The variables when the client is made for an account.
  abbrev pub initial_client : Account → SnClient w
  initial_client a = record {
    current_packet_number = 0;
    delay_in_seconds = 0;
    ping_delay = 10;
    is_disconnect_sent = false;
    account = a;
    messages_map = null;
    topic_name_map = null;
    reverse_topic_name_map = null;
    threads = λ t. false;
    log = [];
  }

  pub data Reachable : SnClient w → Type 0 where
    starts : (a : Account) → Reachable (initial_client a)
    steps : {c c' : SnClient w} → Reachable c → Step c c' → Reachable c'

  Step-IsSound : {c c' : SnClient w} → Step c c' → IsSound w c → IsSound w c'
  unfolding sn_send_ping
  Step-IsSound (connects now a e) s = Kept-holds (Kept-send_sn_connect w now a _ s) e
  Step-IsSound (subscribes now name qos e) s =
      Kept-holds (Kept-send_sn_subscribe w now name qos _ s) e
  Step-IsSound (unsubscribes now name e) s = Kept-holds (Kept-send_sn_unsubscribe w now name _ s) e
  Step-IsSound (publishes now content name qos retain dup e) s =
      Kept-holds (Kept-send_sn_message w now content name qos retain dup _ s) e
  Step-IsSound (disconnects e) s = Kept-holds (Kept-send_sn_disconnect w _ s) e
  Step-IsSound (pings e) s = Kept-holds (Kept-fire w _ _ s) e
  Step-IsSound (receives now buf e) s = Kept-holds (Kept-process_sn_rx w now buf _ s) e
  Step-IsSound (resends now e) s = Kept-holds (Kept-message_resend_round w now _ s) e
  Step-IsSound (gives_up e) s = Kept-holds (Kept-connect_task w _ s) e
  Step-IsSound (finishes e) s = Kept-holds (Kept-fin w _ s) e

  Reachable-IsSound : (c : SnClient w) → Reachable c → IsSound w c
  Reachable-IsSound c (starts a) = record {
    messages_keyed = tt;
    topics_paired = tt;
    no_messager = refl;
  }
  Reachable-IsSound c (steps r s) = Step-IsSound s (Reachable-IsSound _ r)

  -- Whatever the user, the gateway and the timers have done, by calls that run one after the other and
  -- end well, what the table holds under a key is a PUBLISH, SUBSCRIBE or UNSUBSCRIBE with that packet
  -- id, or a CONNECT or REGISTER under the key 0, and no other message.
  pub Reachable-sn_map_key :
      (c : SnClient w) (t : w.messages.Table) (k : ℕ) (e : SnEntry)
      → Reachable c
      → c.messages_map ≡ live t
      → w.messages.lookup k t ≡ some e
      → IsKeyOf k e.message
  Reachable-sn_map_key c t k e r em el = (rw em at (Reachable-IsSound c r).messages_keyed) k e el

  -- Whatever the user, the gateway and the timers have done, by calls that run one after the other and
  -- end well, `send_sn_disconnect` does what C leaves undefined, and so does
  -- `fin_mqtt_sn_client` while `is_disconnect_sent` is not set: they cancel the resend
  -- thread, which no call has started.
  pub Reachable-send_sn_disconnect :
      (c : SnClient w)
      → Reachable c
      → (send_sn_disconnect w c ≡ fault)
        × (fin_mqtt_sn_client w (record c { is_disconnect_sent = false }) ≡ fault)
  unfolding send_sn_disconnect fin_mqtt_sn_client
  Reachable-send_sn_disconnect c r =
      let unset = (Reachable-IsSound c r).no_messager in
      (
        rw (sn_stop_all_timers-fault w (record c { is_disconnect_sent = true }) unset) refl,
        rw (sn_stop_all_timers-fault w (record c { is_disconnect_sent = false }) unset) refl,
      )

  -- Whatever the user, the gateway and the timers have done, by calls that run one after the other and
  -- end well, an id that the one table of topics gives to a name has a name in the other,
  -- to which the first gives an id again. The name may be another one, and so may the id.
  pub Reachable-topics :
      (c : SnClient w) (ids : w.topic_ids.Table) (names : w.topic_names.Table) (name : Bytes)
      (id : ℕ)
      → Reachable c
      → c.topic_name_map ≡ live ids
      → c.reverse_topic_name_map ≡ live names
      → w.topic_ids.lookup name ids ≡ some id
      → (other : Bytes) × (other_id : ℕ) × (w.topic_names.lookup id names ≡ some other)
        × (w.topic_ids.lookup other ids ≡ some other_id)
  Reachable-topics c ids names name id r ei en el =
      let (to, from) = rw (ei, en) at (Reachable-IsSound c r).topics_paired in
      let (other, named) = to name id el in
      let (other_id, known) = from id other named in (other, other_id, named, known)
