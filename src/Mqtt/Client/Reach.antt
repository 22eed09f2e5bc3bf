-- ===== src/Mqtt/Client/Reach.antt =====
-- What the user, the broker and the timers can do to the client, one call after the other.
use iotbroker_cloud_c_client.Base.{ℕ, ◌≡◌, Bool, false, some, [], Outcome, ok, Bytes}
use iotbroker_cloud_c_client.Base.HashTable.{HashTable}
use iotbroker_cloud_c_client.Mqtt.Packets.{pingreq}
use iotbroker_cloud_c_client.Mqtt.Client.State.{Account, Client, Entry, null, live}
use iotbroker_cloud_c_client.Mqtt.Client.Timers.{message_resend_round, connect_round}
use iotbroker_cloud_c_client.Mqtt.Client.Send.{
  send_connect, send_subscribe, send_unsubscribe, send_publish, send_disconnect, send_ping,
  fin_mqtt_client,
}
use iotbroker_cloud_c_client.Mqtt.Client.Stream.{mqtt_data_received}
use iotbroker_cloud_c_client.Mqtt.Client.Keyed.{IsKeyed, IsKeyOf, Kept, kept, Kept-fire}
use iotbroker_cloud_c_client.Mqtt.Client.Calls.{
  Kept-send_connect, Kept-send_subscribe, Kept-send_unsubscribe, Kept-send_publish,
  Kept-fin_mqtt_client, Kept-message_resend_round, Kept-mqtt_data_received, Kept-connect_round,
}
use iotbroker_cloud_c_client.Mqtt.Client.Replies.{Kept-send_disconnect}

module _ (malloc : ℕ → Bytes) (h : HashTable Entry) where
  open h use {Table, entries, lookup}

  -- A call that ends well: of the user, of the socket, or of a timer thread.
  pub data Step (c c' : Client Table) : Type 0 where
    connects : (now : ℕ) (a : Account) → send_connect malloc h now a c ≡ ok c' → Step c c'
    subscribes :
        (now : ℕ) (t : Bytes) (qos : ℕ) → send_subscribe malloc h now t qos c ≡ ok c' → Step c c'
    unsubscribes : (now : ℕ) (t : Bytes) → send_unsubscribe malloc h now t c ≡ ok c' → Step c c'
    publishes :
        (now : ℕ) (content t : Bytes) (qos : ℕ) (retain dup : Bool)
        → send_publish malloc h now content t qos retain dup c ≡ ok c'
        → Step c c'
    disconnects : send_disconnect malloc h c ≡ ok c' → Step c c'
    pings : send_ping malloc h c ≡ ok c' → Step c c'
    receives :
        (buf : Bytes) (readable_bytes : ℕ)
        → mqtt_data_received malloc h buf readable_bytes c ≡ ok c'
        → Step c c'
    resends : (now : ℕ) → message_resend_round malloc h now c ≡ ok c' → Step c c'
    reconnects : connect_round malloc h c ≡ ok c' → Step c c'
    finishes : fin_mqtt_client malloc h c ≡ ok c' → Step c c'

  abbrev pub initial_client : Client Table
  initial_client = record {
    current_packet_number = 0;
    delay_in_seconds = 10;
    connection_established = false;
    messages_map = null;
    threads = λ t. false;
    log = [];
  }

  pub data Reachable : Client Table → Type 0 where
    starts : Reachable initial_client
    steps : {c c' : Client Table} → Reachable c → Step c c' → Reachable c'

  Kept-holds :
      {o : Outcome (Client Table)} {c : Client Table}
      → Kept malloc h o
      → o ≡ ok c
      → IsKeyed malloc h c.messages_map
  Kept-holds (kept f) e = f _ e

  Step-IsKeyed :
      {c c' : Client Table}
      → Step c c'
      → IsKeyed malloc h c.messages_map
      → IsKeyed malloc h c'.messages_map
  unfolding send_ping
  Step-IsKeyed (connects now a e) k = Kept-holds (Kept-send_connect malloc h now a _ k) e
  Step-IsKeyed (subscribes now t qos e) k =
      Kept-holds (Kept-send_subscribe malloc h now t qos _ k) e
  Step-IsKeyed (unsubscribes now t e) k = Kept-holds (Kept-send_unsubscribe malloc h now t _ k) e
  Step-IsKeyed (publishes now content t qos retain dup e) k =
      Kept-holds (Kept-send_publish malloc h now content t qos retain dup _ k) e
  Step-IsKeyed (disconnects e) k = Kept-holds (Kept-send_disconnect malloc h _) e
  Step-IsKeyed (pings e) k = Kept-holds (Kept-fire malloc h pingreq _ k) e
  Step-IsKeyed (receives buf n e) k = Kept-holds (Kept-mqtt_data_received malloc h buf n _ k) e
  Step-IsKeyed (resends now e) k = Kept-holds (Kept-message_resend_round malloc h now _ k) e
  Step-IsKeyed (reconnects e) k = Kept-holds (Kept-connect_round malloc h _ k) e
  Step-IsKeyed (finishes e) k = Kept-holds (Kept-fin_mqtt_client malloc h _ k) e

  Reachable-IsKeyed : (c : Client Table) → Reachable c → IsKeyed malloc h c.messages_map
  Reachable-IsKeyed c starts = tt
  Reachable-IsKeyed c (steps r s) = Step-IsKeyed s (Reachable-IsKeyed _ r)

  -- Whatever the user, the broker and the timers have done, by calls that run one after the other and
  -- end well, what the map holds under a key is a PUBLISH, SUBSCRIBE or UNSUBSCRIBE with that packet id,
  -- or a CONNECT under the key 0, and no other message.
  pub Reachable-map_key :
      (c : Client Table) (t : Table) (k : ℕ) (e : Entry)
      → Reachable c
      → c.messages_map ≡ live t
      → lookup k t ≡ some e
      → IsKeyOf k e.message
  Reachable-map_key c t k e r em el = (rw em at (Reachable-IsKeyed c r)) k e el
