-- ===== src/Coap/Client/Subscription.antt =====
-- A subscription, up to its acknowledgement.
use iotbroker_cloud_c_client.Base.{
  ℕ, ◌+◌, ◌%◌, ◌<◌, ◌≡◌, refl, ap, arith, true, false, Option, some, none, List, [], ◌∷◌, ◌++◌, ltb,
  ◌==◌, ok, Bytes, length, append_assoc, byte_at,
}
use iotbroker_cloud_c_client.Base.HashTable.{
  HashTable, live, lookup-insert_same, lookup-remove_same,
}
use native.Mathlib.Nat.{mod-eq_of_lt}
use iotbroker_cloud_c_client.Coap.Packets.{CoapOption}
use iotbroker_cloud_c_client.Coap.Decode.{coap_decode}
use iotbroker_cloud_c_client.Coap.Wire.{coap_wire, coap_options}
use iotbroker_cloud_c_client.Coap.Stores.{IsSendable, outgoing_coap, coap_encode_and_fire-eq}
use iotbroker_cloud_c_client.Coap.Client.State.{
  CoapClient, CoapEntry, sent, topic_listed, topic_saved,
}
use iotbroker_cloud_c_client.Coap.Client.Timers.{
  coap_fire, coap_add_message_in_map, coap_get_message_from_map, coap_remove_message_from_map,
}
use iotbroker_cloud_c_client.Coap.Client.Send.{
  number_text, qos_value, request, subscribe_options, next_packet, send_coap_subscribe,
}
use iotbroker_cloud_c_client.Coap.Client.Receive.{
  find_observe, accepted_qos, uri_paths, open_connection, on_observed, on_get_ack, handle_coap_type,
  handle_coap_message, process_coap_rx,
}
use iotbroker_cloud_c_client.Coap.Client.Delivery.{acknowledgement, with_map}

-- The options of a subscription: OBSERVE, the topic, the QoS and the client.
abbrev pub subscribe_fields : Bytes → ℕ → Bytes → List (ℕ × Bytes)
subscribe_fields topic qos client_id =
    (6, 0 ∷ 0 ∷ 0 ∷ 0 ∷ []) ∷ (11, topic) ∷ (17, 0 ∷ qos ∷ []) ∷ (2050, client_id) ∷ []

-- The options of an acknowledgement that tells the QoS.
abbrev pub granted : ℕ → List CoapOption
granted qos = coap_options ((6, 0 ∷ []) ∷ (17, 0 ∷ qos ∷ []) ∷ [])

module _ (malloc : ℕ → Bytes) (h : HashTable CoapEntry) where
  open h use {Table, lookup, insert, remove}

  -- What is left in the table of a subscription.
  abbrev waiting : ℕ → ℕ → Bytes → Bytes → Bytes → CoapEntry
  waiting now n topic token client_id = record {
    message = record {
      version = 1;
      type = 0;
      code = 1;
      message_id = n;
      token = some token;
      options = subscribe_options topic none client_id;
      payload = none;
    };
    time_stamp = now;
  }

  request-outgoing_coap :
      (n : ℕ) (token topic client_id : Bytes) (qos : ℕ)
      → qos < 3
      → 0 < length topic
      → 0 < length client_id
      → request 1 n token (subscribe_options topic (qos_value qos) client_id) []
        ≡ outgoing_coap 0 1 n token (subscribe_fields topic qos client_id) []
  unfolding subscribe_options qos_value
  request-outgoing_coap n token topic client_id qos hq ht hc =
      let known : ltb qos 3 ≡ true = ground arith in
      let topic_filled : (length topic == 0) ≡ false = ground arith in
      let client_filled : (length client_id == 0) ≡ false = ground arith in
      rw (known, topic_filled, client_filled) refl

  send_coap_subscribe-eq :
      (now : ℕ) (topic token : Bytes) (qos : ℕ) (t : Table) (c : CoapClient Table)
      → ((l : ℕ) → length (malloc l) ≡ l)
      → qos < 3
      → 0 < length topic
      → 0 < length c.account.client_id
      → c.current_packet_number + 1 < 65536
      → number_text (c.current_packet_number + 1) ≡ ok token
      → IsSendable 0 1
          (c.current_packet_number + 1)
          token
          (subscribe_fields topic qos c.account.client_id)
          []
      → send_coap_subscribe malloc h now topic qos (with_map malloc h t c)
        ≡ ok (record (with_map malloc h t c) {
          current_packet_number = c.current_packet_number + 1;
          messages_map = live (
              insert
                (c.current_packet_number + 1)
                (waiting now (c.current_packet_number + 1) topic token c.account.client_id)
                t);
          log =
              c.log
              ++ (sent (
                    coap_wire 0 1
                      (c.current_packet_number + 1)
                      token
                      (subscribe_fields topic qos c.account.client_id)
                      [])
                  ∷ []);
        })
  unfolding send_coap_subscribe next_packet coap_add_message_in_map coap_fire
  send_coap_subscribe-eq now topic token qos t c fresh hq ht hc hn et s =
      let n = c.current_packet_number + 1 in
      let m1 : n % 65536 ≡ n = mod-eq_of_lt hn in
      let same = request-outgoing_coap n token topic c.account.client_id qos hq ht hc in
      let e =
        coap_encode_and_fire-eq 0 1 n token (subscribe_fields topic qos c.account.client_id) [] s
          malloc fresh in
      rw (et, m1, same, e) refl

  on_get_ack-granted :
      (now n g : ℕ) (topic token client_id : Bytes) (answer_token payload : Option Bytes)
      (t : Table) (c : CoapClient Table)
      → g < 128
      → lookup n t ≡ some (waiting now n topic token client_id)
      → on_get_ack malloc h
          (acknowledgement 1 n answer_token (granted g) payload)
          (with_map malloc h t c)
        ≡ ok (record (with_map malloc h t c) {
          messages_map = live (remove n t);
          log = c.log ++ (topic_listed topic g ∷ topic_saved topic g ∷ []);
        })
  unfolding on_get_ack on_observed find_observe accepted_qos uri_paths subscribe_options
      coap_get_message_from_map coap_remove_message_from_map byte_at
  on_get_ack-granted now n g topic token client_id answer_token payload t c hg el =
      let plain : ltb g 128 ≡ true = ground arith in rw (el, plain) refl

  -- A subscription goes out as one GET of RFC 7252 with an OBSERVE of four zero bytes, the topic,
  -- the QoS and the client id, and waits under its packet id; when its acknowledgement comes in,
  -- with the two options OBSERVE, of the one byte 0, and ACCEPT, of the bytes 0 and a QoS below 128,
  -- the topic is listed and saved with that QoS, whatever QoS was asked for, and nothing waits under
  -- that packet id any more. The conditions: the client is connected, with a table, and malloc
  -- returns blocks of the size that is asked for; the packet number is below 10000; the QoS is 0, 1
  -- or 2; the topic and the client id are not empty and below 141 bytes, and the message fits the
  -- buffer of the encoder.
  pub send_coap_subscribe-process_coap_rx :
      (now l g : ℕ) (topic token : Bytes) (qos : ℕ) (t : Table) (c : CoapClient Table)
      (answer : Bytes) (answer_token payload : Option Bytes)
      → ((n : ℕ) → length (malloc n) ≡ n)
      → qos < 3
      → g < 128
      → 0 < length topic
      → 0 < length c.account.client_id
      → c.current_packet_number + 1 < 10000
      → number_text (c.current_packet_number + 1) ≡ ok token
      → IsSendable 0 1
          (c.current_packet_number + 1)
          token
          (subscribe_fields topic qos c.account.client_id)
          []
      → coap_decode answer l
        ≡ ok (acknowledgement 1 (c.current_packet_number + 1) answer_token (granted g) payload)
      → (c₁ c₂ : CoapClient Table) × (send_coap_subscribe malloc h now topic qos
            (with_map malloc h t c)
          ≡ ok c₁)
        × (process_coap_rx malloc h answer l c₁ ≡ ok c₂)
        × (coap_get_message_from_map malloc h (c.current_packet_number + 1) c₂ ≡ ok none)
        × (c₂.log
            ≡ c.log
              ++ (sent (
                    coap_wire 0 1
                      (c.current_packet_number + 1)
                      token
                      (subscribe_fields topic qos c.account.client_id)
                      [])
                  ∷ topic_listed topic g
                  ∷ topic_saved topic g
                  ∷ []))
  unfolding process_coap_rx open_connection handle_coap_message handle_coap_type
      coap_get_message_from_map
  send_coap_subscribe-process_coap_rx now l g topic token qos t c answer answer_token payload fresh
        hq hg ht hc hn et s ea =
      let n = c.current_packet_number + 1 in
      let e = waiting now n topic token c.account.client_id in
      let t₁ = insert n e t in
      let wire = coap_wire 0 1 n token (subscribe_fields topic qos c.account.client_id) [] in
      let c₁ : CoapClient Table = record (with_map malloc h t₁ c) {
        current_packet_number = n;
        log = c.log ++ (sent wire ∷ []);
      } in
      let c₂ : CoapClient Table = record c₁ {
        messages_map = live (remove n t₁);
        log = c₁.log ++ (topic_listed topic g ∷ topic_saved topic g ∷ []);
      } in
      (
        c₁,
        c₂,
        send_coap_subscribe-eq now topic token qos t c fresh hq ht hc (omega arith) et s,
        rw ea (
            on_get_ack-granted now n g topic token c.account.client_id answer_token payload t₁ c₁ hg
              (lookup-insert_same h n e t)),
        ap ok (lookup-remove_same h n t₁),
        append_assoc c.log _ _,
      )
