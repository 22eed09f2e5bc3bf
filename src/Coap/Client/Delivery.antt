-- ===== src/Coap/Client/Delivery.antt =====
-- A message of the user, up to its acknowledgement; and a message of the broker, up to the client's.
use iotbroker_cloud_c_client.Base.{
  ℕ, ◌+◌, ◌%◌, ◌<◌, ◌≡◌, refl, ap, ◌∙◌, arith, true, false, Option, some, none, List, [], ◌∷◌, ◌++◌,
  ltb, ◌==◌, ok, Bytes, length, append_assoc, byte_at,
}
use iotbroker_cloud_c_client.Base.HashTable.{
  HashTable, live, lookup-insert_same, lookup-remove_same,
}
use native.Mathlib.Nat.{mod-eq_of_lt}
use iotbroker_cloud_c_client.Coap.Packets.{CoapMessage, CoapOption}
use iotbroker_cloud_c_client.Coap.Decode.{coap_decode}
use iotbroker_cloud_c_client.Coap.Wire.{coap_wire}
use iotbroker_cloud_c_client.Coap.Stores.{IsSendable, outgoing_coap, coap_encode_and_fire-eq}
use iotbroker_cloud_c_client.Coap.Client.State.{
  CoapClient, CoapEntry, CoapEffect, sent, message_saved, window_updated,
}
use iotbroker_cloud_c_client.Coap.Client.Timers.{
  coap_fire, coap_add_message_in_map, coap_get_message_from_map, coap_remove_message_from_map,
}
use iotbroker_cloud_c_client.Coap.Client.Send.{
  number_text, qos_value, request, message_options, next_packet, send_coap_message,
}
use iotbroker_cloud_c_client.Coap.Client.Receive.{
  open_connection, on_message_ack, handle_coap_type, handle_coap_message, process_coap_rx,
}

-- The options of a message of the user: the topic, the QoS and the client.
abbrev pub message_fields : Bytes → ℕ → Bytes → List (ℕ × Bytes)
message_fields topic qos client_id = (11, topic) ∷ (17, 0 ∷ qos ∷ []) ∷ (2050, client_id) ∷ []

abbrev pub delivered : Bytes → Bytes → ℕ → List CoapEffect
delivered content topic qos =
    message_saved content topic qos ∷ window_updated content topic qos ∷ []

-- An acknowledgement that is no answer to a GET.
abbrev pub acknowledgement : ℕ → ℕ → Option Bytes → List CoapOption → Option Bytes → CoapMessage
acknowledgement code n token options payload = record {
  version = 1;
  type = 2;
  code = code;
  message_id = n;
  token = token;
  options = options;
  payload = payload;
}

module _ (malloc : ℕ → Bytes) (h : HashTable CoapEntry) where
  open h use {Table, lookup, insert, remove}

  -- A client that is connected, with its table.
  abbrev pub with_map : Table → CoapClient Table → CoapClient Table
  with_map t c = record c { messages_map = live t; init_connect = false }

  abbrev pub waiting : ℕ → ℕ → Bytes → Bytes → ℕ → Bytes → Bytes → CoapEntry
  waiting now n content topic qos token client_id = record {
    message = outgoing_coap 0 3 n token (message_fields topic qos client_id) content;
    time_stamp = now;
  }

  request-outgoing_coap :
      (n : ℕ) (token content topic client_id : Bytes) (qos : ℕ)
      → qos < 3
      → 0 < length topic
      → 0 < length client_id
      → request 3 n token (message_options topic (qos_value qos) client_id) content
        ≡ outgoing_coap 0 3 n token (message_fields topic qos client_id) content
  unfolding message_options qos_value
  request-outgoing_coap n token content topic client_id qos hq ht hc =
      let known : ltb qos 3 ≡ true = ground arith in
      let topic_filled : (length topic == 0) ≡ false = ground arith in
      let client_filled : (length client_id == 0) ≡ false = ground arith in
      rw (known, topic_filled, client_filled) refl

  send_coap_message-eq :
      (now : ℕ) (content topic token : Bytes) (qos : ℕ) (t : Table) (c : CoapClient Table)
      → ((l : ℕ) → length (malloc l) ≡ l)
      → qos < 3
      → 0 < length topic
      → 0 < length c.account.client_id
      → c.current_packet_number + 1 < 65536
      → number_text (c.current_packet_number + 1) ≡ ok token
      → IsSendable 0 3
          (c.current_packet_number + 1)
          token
          (message_fields topic qos c.account.client_id)
          content
      → send_coap_message malloc h now content topic qos (with_map t c)
        ≡ ok (record (with_map t c) {
          current_packet_number = c.current_packet_number + 1;
          messages_map = live (
              insert
                (c.current_packet_number + 1)
                (waiting now
                  (c.current_packet_number + 1)
                  content
                  topic
                  qos
                  token
                  c.account.client_id)
                t);
          log =
              c.log
              ++ (sent (
                    coap_wire 0 3
                      (c.current_packet_number + 1)
                      token
                      (message_fields topic qos c.account.client_id)
                      content)
                  ∷ []);
        })
  unfolding send_coap_message next_packet coap_add_message_in_map coap_fire
  send_coap_message-eq now content topic token qos t c fresh hq ht hc hn et s =
      let n = c.current_packet_number + 1 in
      let m1 : n % 65536 ≡ n = mod-eq_of_lt hn in
      let same = request-outgoing_coap n token content topic c.account.client_id qos hq ht hc in
      let e =
        coap_encode_and_fire-eq 0 3 n token (message_fields topic qos c.account.client_id) content s
          malloc fresh in
      rw (et, m1, same, e) refl

  on_message_ack-waiting :
      (now n : ℕ) (content topic token client_id : Bytes) (qos : ℕ) (t : Table)
      (c : CoapClient Table)
      → qos < 3
      → 0 < length topic
      → lookup n t ≡ some (waiting now n content topic qos token client_id)
      → on_message_ack malloc h n (with_map t c)
        ≡ ok (record (with_map t c) {
          messages_map = live (remove n t);
          log = c.log ++ delivered content topic qos;
        })
  unfolding on_message_ack coap_get_message_from_map coap_remove_message_from_map byte_at
  on_message_ack-waiting now n content topic token client_id qos t c hq ht el =
      let topic_filled : (length topic == 0) ≡ false = ground arith in
      let plain : ltb qos 128 ≡ true = ground arith in rw (el, topic_filled, plain) refl

  on_message_ack-unknown :
      (n : ℕ) (t : Table) (c : CoapClient Table)
      → lookup n t ≡ none
      → on_message_ack malloc h n (with_map t c) ≡ ok (with_map t c)
  unfolding on_message_ack coap_get_message_from_map
  on_message_ack-unknown n t c el = rw el refl

  -- An acknowledgement that is read goes to `on_message_ack`.
  acknowledged :
      (buf : Bytes) (l code n : ℕ) (token : Option Bytes) (options : List CoapOption)
      (payload : Option Bytes) (t : Table) (c : CoapClient Table)
      → coap_decode buf l ≡ ok (acknowledgement code n token options payload)
      → (code == 1) ≡ false
      → (n == 0) ≡ false
      → process_coap_rx malloc h buf l (with_map t c) ≡ on_message_ack malloc h n (with_map t c)
  unfolding process_coap_rx open_connection handle_coap_message handle_coap_type
  acknowledged buf l code n token options payload t c e ec en = rw (e, ec, en) (ground arith)

  -- A message of the user goes out as one PUT of RFC 7252, with its topic, its QoS and the client id as
  -- options, and waits under its packet id, neither saved
  -- nor shown; when an acknowledgement with that id comes in, other than one
  -- with the code of a GET, it is saved and shown with the QoS that it was sent with, once, and waits no
  -- more; a second one changes nothing. The conditions: the client is connected, with a table, and
  -- malloc returns blocks of the size that is asked for; the packet number is below 10000;
  -- the QoS is 0, 1 or 2; the topic and
  -- the client id are not empty and below 141 bytes, and the message fits the buffer of the encoder.
  pub send_coap_message-process_coap_rx :
      (now code l : ℕ) (content topic token : Bytes) (qos : ℕ) (t : Table) (c : CoapClient Table)
      (answer : Bytes) (answer_token : Option Bytes) (options : List CoapOption)
      (payload : Option Bytes)
      → ((l : ℕ) → length (malloc l) ≡ l)
      → qos < 3
      → 0 < length topic
      → 0 < length c.account.client_id
      → c.current_packet_number + 1 < 10000
      → number_text (c.current_packet_number + 1) ≡ ok token
      → IsSendable 0 3
          (c.current_packet_number + 1)
          token
          (message_fields topic qos c.account.client_id)
          content
      → coap_decode answer l
        ≡ ok (acknowledgement code (c.current_packet_number + 1) answer_token options payload)
      → (code == 1) ≡ false
      → (c₁ c₂ : CoapClient Table) × (send_coap_message malloc h now content topic qos
            (with_map t c)
          ≡ ok c₁)
        × (coap_get_message_from_map malloc h (c.current_packet_number + 1) c₁
            ≡ ok (
                some (
                  waiting now
                    (c.current_packet_number + 1)
                    content
                    topic
                    qos
                    token
                    c.account.client_id)))
        × (c₁.log
            ≡ c.log
              ++ (sent (
                    coap_wire 0 3
                      (c.current_packet_number + 1)
                      token
                      (message_fields topic qos c.account.client_id)
                      content)
                  ∷ []))
        × (process_coap_rx malloc h answer l c₁ ≡ ok c₂)
        × (process_coap_rx malloc h answer l c₂ ≡ ok c₂)
        × (coap_get_message_from_map malloc h (c.current_packet_number + 1) c₂ ≡ ok none)
        × (c₂.log
            ≡ c.log
              ++ (sent (
                    coap_wire 0 3
                      (c.current_packet_number + 1)
                      token
                      (message_fields topic qos c.account.client_id)
                      content)
                  ∷ delivered content topic qos))
  unfolding coap_get_message_from_map
  send_coap_message-process_coap_rx now code l content topic token qos t c answer answer_token
        options payload fresh hq ht hc hn et s ea ec =
      let n = c.current_packet_number + 1 in
      let e = waiting now n content topic qos token c.account.client_id in
      let t₁ = insert n e t in
      let wire = coap_wire 0 3 n token (message_fields topic qos c.account.client_id) content in
      let c₁ : CoapClient Table = record (with_map t₁ c) {
        current_packet_number = n;
        log = c.log ++ (sent wire ∷ []);
      } in
      let c₂ : CoapClient Table = record c₁ {
        messages_map = live (remove n t₁);
        log = c₁.log ++ delivered content topic qos;
      } in
      let positive : (n == 0) ≡ false = ground arith in
      (
        c₁,
        c₂,
        send_coap_message-eq now content topic token qos t c fresh hq ht hc (omega arith) et s,
        ap ok (lookup-insert_same h n e t),
        refl,
        acknowledged answer l code n answer_token options payload t₁ c₁ ea ec positive
            ∙ on_message_ack-waiting now n content topic token c.account.client_id qos t₁ c₁ hq ht
                (lookup-insert_same h n e t),
        acknowledged answer l code n answer_token options payload (remove n t₁) c₂ ea ec positive
            ∙ on_message_ack-unknown n (remove n t₁) c₂ (lookup-remove_same h n t₁),
        ap ok (lookup-remove_same h n t₁),
        append_assoc c.log _ _,
      )
