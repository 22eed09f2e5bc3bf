-- ===== src/Coap/Client/Incoming.antt =====
-- A message of the broker, up to its acknowledgements.
use iotbroker_cloud_c_client.Base.{
  ℕ, ◌<◌, ◌≡◌, refl, arith, true, false, some, List, [], ◌∷◌, ◌++◌, ◌==◌, ok, Bytes, All, length,
  append_assoc, slice-eq, append-nil,
}
use iotbroker_cloud_c_client.Base.HashTable.{HashTable}
use iotbroker_cloud_c_client.Mqtt.Decode.{c_string-text}
use iotbroker_cloud_c_client.Coap.Wire.{coap_wire, coap_options}
use iotbroker_cloud_c_client.Coap.Stores.{IsSendable, coap_encode_and_fire-eq}
use iotbroker_cloud_c_client.Coap.RoundTrip.{incoming_coap, coap_decode-coap_wire}
use iotbroker_cloud_c_client.Coap.Client.State.{
  CoapClient, CoapEntry, sent, publish_received, record_effects,
}
use iotbroker_cloud_c_client.Coap.Client.Timers.{coap_fire}
use iotbroker_cloud_c_client.Coap.Client.Send.{coap_ack, send_coap_ack}
use iotbroker_cloud_c_client.Coap.Client.Receive.{
  find_topic, open_connection, handle_coap_type, handle_coap_message, process_coap_rx,
}
use iotbroker_cloud_c_client.Coap.Client.Delivery.{with_map}

-- What the client sends back: the code, the id and the token of the message, and the client id.
abbrev pub ack_wire : ℕ → ℕ → Bytes → Bytes → Bytes
ack_wire code n token client_id = coap_wire 2 code n token ((2050, client_id) ∷ []) []

-- The loop over the options ends at a topic in front.
find_topic-first :
    (topic : Bytes) (os : List (ℕ × Bytes)) (qos : ℕ)
    → 0 < length topic
    → All (λ b. 0 < b) topic
    → find_topic (coap_options ((11, topic) ∷ os)) qos ≡ ok (some topic, qos)
unfolding find_topic
find_topic-first topic os qos ht text =
    let filled : (length topic == 0) ≡ false = ground arith in
    rw
      (
        filled,
        slice-eq topic 0 topic [] (length topic) refl (simp append-nil),
        c_string-text topic text,
      )
      refl

module _ (malloc : ℕ → Bytes) (h : HashTable CoapEntry) where
  open h use {Table}

  send_coap_ack-eq :
      (code n b next : ℕ) (token payload : Bytes) (os : List (ℕ × Bytes)) (t : Table)
      (c : CoapClient Table)
      → ((l : ℕ) → length (malloc l) ≡ l)
      → 0 < length c.account.client_id
      → IsSendable 2 code n (b ∷ token) ((2050, c.account.client_id) ∷ []) []
      → send_coap_ack malloc h (incoming_coap 0 code n (b ∷ token) os payload next) true c
        ≡ ok (record_effects (sent (ack_wire code n (b ∷ token) c.account.client_id) ∷ []) c)
  unfolding send_coap_ack coap_ack coap_fire
  send_coap_ack-eq code n b next token payload os t c fresh hc s =
      let filled : (length c.account.client_id == 0) ≡ false = ground arith in
      let e =
        coap_encode_and_fire-eq 2 code n (b ∷ token) ((2050, c.account.client_id) ∷ []) [] s malloc
          fresh in
      rw (rw filled at e) refl

  -- A confirmable PUT of the broker with a topic as its first option, whatever options follow and
  -- whatever bytes stand behind it, is handed to the listener with its topic and its content, and with
  -- the QoS 0, whatever its ACCEPT option says; and it is acknowledged twice, by two equal packets with
  -- its id, its token and the client id. Nothing else of the client changes. The conditions: the client
  -- is connected, with a table; malloc returns blocks of the size that is asked for; token, topic,
  -- content and client id are not empty, and token, topic and content hold no zero byte; and both packets
  -- are such as RFC 7252 has and the code writes and reads alike: the token has at most eight bytes, the
  -- options are ascending, with values below 141 bytes and deltas below 141 or from 269 to 65804, and the
  -- packet fits the buffer of the encoder.
  pub process_coap_rx-coap_wire :
      (n b p next : ℕ) (token topic content rest : Bytes) (os : List (ℕ × Bytes)) (t : Table)
      (c : CoapClient Table)
      → ((l : ℕ) → length (malloc l) ≡ l)
      → 0 < length topic
      → All (λ b. 0 < b) topic
      → All (λ b. 0 < b) (b ∷ token)
      → All (λ b. 0 < b) (p ∷ content)
      → 0 < length c.account.client_id
      → IsSendable 0 3 n (b ∷ token) ((11, topic) ∷ os) (p ∷ content)
      → IsSendable 2 3 n (b ∷ token) ((2050, c.account.client_id) ∷ []) []
      → process_coap_rx malloc h
          (coap_wire 0 3 n (b ∷ token) ((11, topic) ∷ os) (p ∷ content) ++ next ∷ rest)
          (length (coap_wire 0 3 n (b ∷ token) ((11, topic) ∷ os) (p ∷ content)))
          (with_map malloc h t c)
        ≡ ok (
            record_effects
              (publish_received (p ∷ content) topic 0
                ∷ sent (ack_wire 3 n (b ∷ token) c.account.client_id)
                ∷ sent (ack_wire 3 n (b ∷ token) c.account.client_id)
                ∷ [])
              (with_map malloc h t c))
  unfolding process_coap_rx open_connection handle_coap_message handle_coap_type
  process_coap_rx-coap_wire n b p next token topic content rest os t c fresh ht text htok hcon hc s
        s' =
      let c₁ =
        record_effects (publish_received (p ∷ content) topic 0 ∷ []) (with_map malloc h t c) in
      let ack = sent (ack_wire 3 n (b ∷ token) c.account.client_id) in
      let c₂ = record_effects (ack ∷ []) c₁ in
      rw
        (
          coap_decode-coap_wire 0 3 n (b ∷ token) ((11, topic) ∷ os) (p ∷ content) next rest s htok
              hcon,
          find_topic-first topic os 0 ht text,
          send_coap_ack-eq 3 n b next token (p ∷ content) ((11, topic) ∷ os) t c₁ fresh hc s',
          send_coap_ack-eq 3 n b next token (p ∷ content) ((11, topic) ∷ os) t c₂ fresh hc s',
        )
        (simp append_assoc)
