-- ===== src/Coap/Client/Reach.antt =====
-- What the user, the broker and the timers can do to the CoAP client, one call after the other.
use iotbroker_cloud_c_client.Base.{ℕ, ◌≡◌, subst, false, some, [], Bool-cases, inl, inr, ok, Bytes}
use iotbroker_cloud_c_client.Base.HashTable.{HashTable, null, live}
use iotbroker_cloud_c_client.Base.Kept.{Kept-holds, Kept-ok, Kept->>=, Kept-step}
use iotbroker_cloud_c_client.Coap.Client.State.{Account, CoapClient, CoapEntry}
use iotbroker_cloud_c_client.Coap.Client.Timers.{
  start_coap_connect_timer, coap_message_resend_round,
}
use iotbroker_cloud_c_client.Coap.Client.Send.{
  number_text, coap_send_ping, coap_connect, send_coap_disconnect, next_packet, send_coap_subscribe,
  send_coap_message, send_coap_unsubscribe, fin_coap_client, coap_connect_task,
}
use iotbroker_cloud_c_client.Coap.Client.Receive.{process_coap_rx}
use iotbroker_cloud_c_client.Coap.Client.Keyed.{
  IsKeyed, Kept-fire, Kept-add, Kept-stop_all_timers, Kept-message_resend_round,
}
use iotbroker_cloud_c_client.Coap.Client.Replies.{Kept-process_coap_rx}

module _ (malloc : ℕ → Bytes) (h : HashTable CoapEntry) where
  open h use {Table, lookup}

  -- A call that ends well: of the user, of the socket, or of a timer thread.
  pub data Step (c c' : CoapClient Table) : Type 0 where
    connects : coap_connect malloc h c ≡ ok c' → Step c c'
    subscribes :
        (now : ℕ) (topic : Bytes) (qos : ℕ)
        → send_coap_subscribe malloc h now topic qos c ≡ ok c'
        → Step c c'
    unsubscribes :
        (now : ℕ) (topic : Bytes) → send_coap_unsubscribe malloc h now topic c ≡ ok c' → Step c c'
    publishes :
        (now : ℕ) (content topic : Bytes) (qos : ℕ)
        → send_coap_message malloc h now content topic qos c ≡ ok c'
        → Step c c'
    disconnects : send_coap_disconnect malloc h c ≡ ok c' → Step c c'
    pings : coap_send_ping malloc h c ≡ ok c' → Step c c'
    receives : (buf : Bytes) (l : ℕ) → process_coap_rx malloc h buf l c ≡ ok c' → Step c c'
    resends : (now : ℕ) → coap_message_resend_round malloc h now c ≡ ok c' → Step c c'
    gives_up : coap_connect_task malloc h c ≡ c' → Step c c'
    finishes : fin_coap_client malloc h c ≡ c' → Step c c'

  -- The variables when the client is made for an account.
  abbrev pub initial_client : Account → CoapClient Table
  initial_client a = record {
    current_packet_number = 0;
    delay_in_seconds = a.keep_alive;
    ping_delay = 10;
    init_connect = false;
    account = a;
    messages_map = null;
    log = [];
  }

  pub data Reachable : CoapClient Table → Type 0 where
    starts : (a : Account) → Reachable (initial_client a)
    steps : {c c' : CoapClient Table} → Reachable c → Step c c' → Reachable c'

  finished-IsKeyed :
      (c : CoapClient Table) → IsKeyed malloc h c → IsKeyed malloc h (fin_coap_client malloc h c)
  unfolding fin_coap_client
  finished-IsKeyed c k = elim (Bool-cases c.init_connect) [
    | inl first ↦ rw first k
    | inr later ↦ rw later k
  ]

  gave_up-IsKeyed :
      (c : CoapClient Table) → IsKeyed malloc h c → IsKeyed malloc h (coap_connect_task malloc h c)
  unfolding coap_connect_task fin_coap_client
  gave_up-IsKeyed c k = elim (Bool-cases c.init_connect) [
    | inl first ↦ rw first k
    | inr later ↦ rw later k
  ]

  Step-IsKeyed : {c c' : CoapClient Table} → Step c c' → IsKeyed malloc h c → IsKeyed malloc h c'
  unfolding coap_connect coap_send_ping start_coap_connect_timer send_coap_subscribe
      send_coap_unsubscribe send_coap_message send_coap_disconnect next_packet
  Step-IsKeyed (connects e) k =
      Kept-holds (Kept->>= _ _ (Kept-fire malloc h _ _ k) λ c k. Kept-ok _ k) e
  Step-IsKeyed (subscribes now topic qos e) k =
      Kept-holds
        (Kept-step (number_text _) _
          λ token. Kept->>= _ _ (Kept-add malloc h now _ _ k) λ c k. Kept-fire malloc h _ c k)
        e
  Step-IsKeyed (unsubscribes now topic e) k =
      Kept-holds
        (Kept-step (number_text _) _
          λ token. Kept->>= _ _ (Kept-add malloc h now _ _ k) λ c k. Kept-fire malloc h _ c k)
        e
  Step-IsKeyed (publishes now content topic qos e) k =
      Kept-holds
        (Kept-step (number_text _) _
          λ token. Kept->>= _ _ (Kept-add malloc h now _ _ k) λ c k. Kept-fire malloc h _ c k)
        e
  Step-IsKeyed (disconnects e) k =
      Kept-holds (Kept->>= _ _ (Kept-stop_all_timers malloc h _ k) λ c k. Kept-ok _ k) e
  Step-IsKeyed (pings e) k = Kept-holds (Kept-fire malloc h _ _ k) e
  Step-IsKeyed (receives buf l e) k = Kept-holds (Kept-process_coap_rx malloc h buf l _ k) e
  Step-IsKeyed (resends now e) k = Kept-holds (Kept-message_resend_round malloc h now _ k) e
  Step-IsKeyed {c} (gives_up e) k = subst (IsKeyed malloc h) e (gave_up-IsKeyed c k)
  Step-IsKeyed {c} (finishes e) k = subst (IsKeyed malloc h) e (finished-IsKeyed c k)

  Reachable-IsKeyed : (c : CoapClient Table) → Reachable c → IsKeyed malloc h c
  Reachable-IsKeyed c (starts a) = λ t k e same found. cc
  Reachable-IsKeyed c (steps r s) = Step-IsKeyed s (Reachable-IsKeyed _ r)

  -- Whatever the user, the broker and the timers have done, by calls that run one after the other and end
  -- well, a message that the table holds under a key has that key as its packet id.
  pub Reachable-message_id :
      (c : CoapClient Table) (t : Table) (k : ℕ) (e : CoapEntry)
      → Reachable c
      → c.messages_map ≡ live t
      → lookup k t ≡ some e
      → e.message.message_id ≡ k
  Reachable-message_id c t k e r em el = Reachable-IsKeyed c r t k e em el
