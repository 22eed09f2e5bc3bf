-- ===== src/Coap/Client/Replies.antt =====
-- The message map of the CoAP client through `process_coap_rx`, case by case.
use iotbroker_cloud_c_client.Base.{
  ℕ, ◌≡◌, Bool, true, false, Option, none, some, List, [], ◌∷◌, inl, inr, ◌&&◌, ◌||◌, not, ◌==◌,
  Bool-cases, Outcome, ok, refused, fault, ◌>>=◌, deref, Bytes, byte_at,
}
use iotbroker_cloud_c_client.Base.HashTable.{HashTable}
use iotbroker_cloud_c_client.Base.Kept.{
  Kept, Kept-ok, Kept-fault, Kept->>=, Kept-step, Kept-if, Kept-found,
}
use iotbroker_cloud_c_client.Coap.Packets.{CoapMessage}
use iotbroker_cloud_c_client.Coap.Decode.{coap_decode}
use iotbroker_cloud_c_client.Coap.Client.State.{
  CoapClient, CoapEntry, publish_received, record_effects,
}
use iotbroker_cloud_c_client.Coap.Client.Timers.{
  stop_coap_connect_timer, start_coap_ping_timer, coap_start_message_timer,
  coap_get_message_from_map, coap_remove_message_from_map,
}
use iotbroker_cloud_c_client.Coap.Client.Send.{send_coap_ack}
use iotbroker_cloud_c_client.Coap.Client.Receive.{
  find_topic, find_observe, accepted_qos, uri_paths, option_at, open_connection, list_topics,
  unlist_topics, on_observed, on_get_ack, on_message_ack, handle_coap_type, handle_coap_message,
  handle_coap_decoded, process_coap_rx,
}
use iotbroker_cloud_c_client.Coap.Client.Keyed.{IsKeyed, Kept-fire, Kept-remove, new_table-IsKeyed}

module _ (malloc : ℕ → Bytes) (h : HashTable CoapEntry) where
  open h use {Table, new, lookup, lookup-new}

  opened-IsKeyed :
      (c : CoapClient Table) → IsKeyed malloc h c → IsKeyed malloc h (open_connection malloc h c)
  unfolding open_connection stop_coap_connect_timer start_coap_ping_timer coap_start_message_timer
  opened-IsKeyed c keyed = elim (Bool-cases c.init_connect) [
    | inl first ↦ rw first (
        new_table-IsKeyed malloc h c new
          λ k e found. let empty : none ≡ some e = rw lookup-new at found in cc)
    | inr later ↦ rw later keyed
  ]

  listed-IsKeyed :
      (names : List Bytes) (qos : ℕ) (c : CoapClient Table)
      → IsKeyed malloc h c
      → IsKeyed malloc h (list_topics malloc h names qos c)
  listed-IsKeyed [] qos c k = k
  listed-IsKeyed (name ∷ names) qos c k = listed-IsKeyed names qos _ k

  unlisted-IsKeyed :
      (names : List Bytes) (c : CoapClient Table)
      → IsKeyed malloc h c
      → IsKeyed malloc h (unlist_topics malloc h names c)
  unlisted-IsKeyed [] c k = k
  unlisted-IsKeyed (name ∷ names) c k = unlisted-IsKeyed names _ k

  Kept-on_observed :
      (m : CoapMessage) (observe : Bool) (o : Option CoapEntry) (c : CoapClient Table)
      → IsKeyed malloc h c
      → Kept (IsKeyed malloc h) (on_observed malloc h m observe o c)
  unfolding on_observed
  Kept-on_observed m observe none c k = Kept-ok c k
  Kept-on_observed m false (some e) c k = Kept-step (accepted_qos m.options 0) _ λ qos.
      Kept-step (uri_paths e.message.options) _ λ names. Kept-ok _ (listed-IsKeyed names qos c k)
  Kept-on_observed m true (some e) c k =
      Kept-step (uri_paths e.message.options) _ λ names. Kept-ok _ (unlisted-IsKeyed names c k)

  Kept-on_get_ack :
      (m : CoapMessage) (c : CoapClient Table)
      → IsKeyed malloc h c
      → Kept (IsKeyed malloc h) (on_get_ack malloc h m c)
  unfolding on_get_ack
  Kept-on_get_ack m c k = Kept-step (find_observe m.options) _ by_observe
    where
      by_observe :
          (o : Option Bool)
          → Kept (IsKeyed malloc h) (elim o as (λ o. Outcome (CoapClient Table)) [
            | none ↦ ok c
            | some observe ↦ coap_get_message_from_map malloc h m.message_id c >>= λ original.
                on_observed malloc h m observe original c >>= λ c.
                coap_remove_message_from_map malloc h m.message_id c
          ])
      by_observe none = Kept-ok c k
      by_observe (some observe) =
          Kept-step (coap_get_message_from_map malloc h m.message_id c) _ λ original.
            Kept->>= _ _ (Kept-on_observed m observe original c k)
              λ c k. Kept-remove malloc h m.message_id c k

  -- A handler that looks its packet id up.
  Kept-get :
      (n : ℕ) (c : CoapClient Table) (f : Option CoapEntry → Outcome (CoapClient Table))
      → Kept (IsKeyed malloc h) (f none)
      → ((e : CoapEntry) → Kept (IsKeyed malloc h) (f (some e)))
      → Kept (IsKeyed malloc h) (coap_get_message_from_map malloc h n c >>= f)
  Kept-get n c f kn ks =
      Kept-step (coap_get_message_from_map malloc h n c) f λ o. Kept-found f o kn ks

  Kept-on_message_ack :
      (n : ℕ) (c : CoapClient Table)
      → IsKeyed malloc h c
      → Kept (IsKeyed malloc h) (on_message_ack malloc h n c)
  unfolding on_message_ack
  Kept-on_message_ack n c k = Kept-get n c _ (Kept-ok c k) λ e.
      Kept-step (deref e.message.payload) _ λ content.
        Kept-step (option_at e.message.options 0) _ λ topic. Kept-step (deref topic.value) _ λ name.
          Kept-step (option_at e.message.options 1) _ λ accept.
            Kept-step (deref accept.value) _
              λ value. Kept-step (byte_at value 1) _ λ qos. Kept-remove malloc h n _ k

  Kept-handle_coap_type :
      (m : CoapMessage) (c : CoapClient Table)
      → IsKeyed malloc h c
      → Kept (IsKeyed malloc h) (handle_coap_type malloc h m c)
  unfolding handle_coap_type send_coap_ack
  Kept-handle_coap_type m c k = Kept-if (m.type == 0) (Kept-fire malloc h _ c k) (
      Kept-if (m.type == 2)
        (Kept-if (m.code == 1) (Kept-on_get_ack m c k)
          (Kept-if (m.message_id == 0) (Kept-ok c k) (Kept-on_message_ack m.message_id c k)))
        (Kept-remove malloc h m.message_id c k))

  Kept-handle_coap_message :
      (m : CoapMessage) (c : CoapClient Table)
      → IsKeyed malloc h c
      → Kept (IsKeyed malloc h) (handle_coap_message malloc h m c)
  unfolding handle_coap_message send_coap_ack
  Kept-handle_coap_message m c k =
      Kept-if ((m.code == 2 || m.code == 3) && not (m.type == 2))
        (Kept-step (find_topic m.options 0) _ λ found. by_topic found.0 found.1)
        (Kept-handle_coap_type m c k)
    where
      by_topic :
          (topic : Option Bytes) (qos : ℕ)
          → Kept (IsKeyed malloc h) (elim topic as (λ o. Outcome (CoapClient Table)) [
            | none ↦ send_coap_ack malloc h m false c
            | some name ↦ deref m.payload >>= λ content.
                send_coap_ack malloc h m true
                  (record_effects (publish_received content name qos ∷ []) c)
                >>= λ c. handle_coap_type malloc h m c
          ])
      by_topic none qos = Kept-fire malloc h _ c k
      by_topic (some name) qos =
          Kept-step (deref m.payload) _
            λ content. Kept->>= _ _ (Kept-fire malloc h _ _ k) λ c k. Kept-handle_coap_type m c k

  Kept-handle_coap_decoded :
      (o : Outcome CoapMessage) (c : CoapClient Table)
      → IsKeyed malloc h c
      → Kept (IsKeyed malloc h) (handle_coap_decoded malloc h o c)
  Kept-handle_coap_decoded (ok m) c k = Kept-handle_coap_message m c k
  Kept-handle_coap_decoded refused c k = Kept-ok c k
  Kept-handle_coap_decoded fault c k = Kept-fault

  pub Kept-process_coap_rx :
      (buf : Bytes) (l : ℕ) (c : CoapClient Table)
      → IsKeyed malloc h c
      → Kept (IsKeyed malloc h) (process_coap_rx malloc h buf l c)
  unfolding process_coap_rx
  Kept-process_coap_rx buf l c k =
      Kept-handle_coap_decoded (coap_decode buf l) _ (opened-IsKeyed c k)
