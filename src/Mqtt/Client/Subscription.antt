-- ===== src/Mqtt/Client/Subscription.antt =====
-- A subscription from the call of the user to the answer of the broker.
use iotbroker_cloud_c_client.Base.{
  ℕ, ◌+◌, ◌<◌, ◌≡◌, refl, ap, ◌∙◌, arith, Bool-cases, inl, inr, some, none, List, [], ◌∷◌, ◌++◌,
  if◌then◌else◌, ◌==◌, ok, fault, Bytes, length, length-append, append_assoc,
}
use iotbroker_cloud_c_client.Base.HashTable.{HashTable}
use iotbroker_cloud_c_client.Mqtt.Packets.{
  Message, Topic, Suback, subscribe, suback, puback, received,
}
use iotbroker_cloud_c_client.Mqtt.Decode.{decode}
use iotbroker_cloud_c_client.Mqtt.Fire.{encode_and_fire}
use iotbroker_cloud_c_client.Mqtt.Fire.Sent.{wire_subscribe, encode_and_fire-Wire}
use iotbroker_cloud_c_client.Mqtt.Wire.Format.{frame, subscribe_body}
use iotbroker_cloud_c_client.Mqtt.Client.State.{Client, Entry, Effect, sent, error_shown, live}
use iotbroker_cloud_c_client.Mqtt.Client.Timers.{
  fire, map_key, add_message_in_map, get_message_from_map, remove_message_from_map,
}
use iotbroker_cloud_c_client.Mqtt.Client.Send.{send_subscribe, next_packet}
use iotbroker_cloud_c_client.Mqtt.Client.Receive.{
  as_publish, listed, on_suback, on_delivered, handle_message, process_rx,
}
use iotbroker_cloud_c_client.Mqtt.Client.Flow.{
  next_id, process_rx-eq, lookup-inserted, lookup-removed,
}

abbrev pub subscription : ℕ → Bytes → ℕ → Message
subscription id t qos =
    subscribe (record { topics = (record { topic_name = t; qos = qos }) ∷ []; packet_id = id })

abbrev pub subscribe_frame : ℕ → Bytes → ℕ → Bytes
subscribe_frame id t qos = frame 0x82 (subscribe_body id (record { topic_name = t; qos = qos }))

-- What the client shows and keeps of an answer: the error, or the topic with the QoS that was
-- asked for.
abbrev pub suback_effects : ℕ → Topic → List Effect
suback_effects code topic = if code == 128 then error_shown code ∷ [] else listed topic

module _ (malloc : ℕ → Bytes) (h : HashTable Entry) where
  open h use {Table, lookup, insert, remove}

  -- The client after a SUBSCRIBE: it is sent, and waits under its id.
  abbrev pub subscribed : ℕ → Bytes → ℕ → Table → Client Table → Client Table
  subscribed now t qos table c = record c {
    current_packet_number = c.current_packet_number + 1;
    messages_map = live (
        insert (next_id c) (record { message = subscription (next_id c) t qos; time_stamp = now })
          table);
    log = c.log ++ (sent (subscribe_frame (next_id c) t qos) ∷ []);
  }

  send_subscribe-eq :
      (now : ℕ) (t : Bytes) (qos : ℕ) (table : Table) (c : Client Table)
      → encode_and_fire malloc (subscription (next_id c) t qos)
        ≡ ok (subscribe_frame (next_id c) t qos)
      → c.messages_map ≡ live table
      → send_subscribe malloc h now t qos c ≡ ok (subscribed now t qos table c)
  unfolding send_subscribe next_packet add_message_in_map map_key fire
  send_subscribe-eq now t qos table c e em = simp (em, e)

  -- An answer for a message of another kind.
  on_delivered-mismatch :
      (n : ℕ) (m : Message) (now : ℕ) (t : Table) (c : Client Table)
      → c.messages_map ≡ live t
      → lookup n t ≡ some (record { message = m; time_stamp = now })
      → as_publish m ≡ fault
      → on_delivered malloc h n c ≡ fault
  unfolding on_delivered get_message_from_map
  on_delivered-mismatch n m now t c em el ep = simp (em, el, ep)

  on_suback-waiting :
      (n now code : ℕ) (codes : List ℕ) (topic : Topic) (t : Table) (c : Client Table)
      → c.messages_map ≡ live t
      → lookup n t
        ≡ some (record {
          message = subscribe (record { topics = topic ∷ []; packet_id = n });
          time_stamp = now;
        })
      → on_suback malloc h (record { packet_id = n; codes = code ∷ codes }) c
        ≡ ok (record c {
          messages_map = live (remove n t);
          log = c.log ++ suback_effects code topic;
        })
  unfolding on_suback get_message_from_map remove_message_from_map
  on_suback-waiting n now code codes topic t c em el = elim (Bool-cases (code == 128)) [
    | inl failure ↦ simp (em, el, failure)
    | inr granted ↦ simp (em, el, granted)
  ]

  -- A subscription goes out as one SUBSCRIBE packet and waits under its packet id; when the SUBACK
  -- with that id comes in, the client shows the error if its first code is 128, and otherwise lists
  -- and saves the topic with the QoS that was asked for, whatever the code grants, and the message
  -- waits no more. Instead of the SUBACK, a PUBACK with that id makes the client read the SUBSCRIBE as
  -- a PUBLISH, which is undefined.
  pub send_subscribe-answer :
      (now : ℕ) (t : Bytes) (qos code : ℕ) (codes : List ℕ) (table : Table) (c : Client Table)
      (answer wrong : Bytes)
      → ((n : ℕ) → length (malloc n) ≡ n)
      → 0 < length t
      → length t < 65536
      → qos < 256
      → c.messages_map ≡ live table
      → decode answer
        ≡ ok (received (suback (record { packet_id = next_id c; codes = code ∷ codes })))
      → decode wrong ≡ ok (received (puback (next_id c)))
      → (c₁ c₂ : Client Table) × (send_subscribe malloc h now t qos c ≡ ok c₁)
        × (process_rx malloc h answer c₁ ≡ ok c₂)
        × (get_message_from_map malloc h (next_id c) c₂ ≡ ok none)
        × (c₂.log
            ≡ c.log
              ++ (sent (subscribe_frame (next_id c) t qos)
                  ∷ suback_effects code (record { topic_name = t; qos = qos })))
        × (process_rx malloc h wrong c₁ ≡ fault)
  send_subscribe-answer now t qos code codes table c answer wrong fresh pos short hq em ea ew =
      let id = next_id c in
      let topic : Topic = record { topic_name = t; qos = qos } in
      let sa : Suback = record { packet_id = id; codes = code ∷ codes } in
      let waiting : Entry = record { message = subscription id t qos; time_stamp = now } in
      let table₁ = insert id waiting table in
      let c₁ = subscribed now t qos table c in
      let c₂ : Client Table = record c₁ {
        messages_map = live (remove id table₁);
        log = c₁.log ++ suback_effects code topic;
      } in
      let found = lookup-inserted malloc h id waiting table in
      let fired =
        encode_and_fire-Wire malloc fresh (wire_subscribe id topic (pos, omega arith) hq)
          (omega (arith, length-append {0} t (qos ∷ []))) in
      (
        c₁,
        c₂,
        send_subscribe-eq now t qos table c fired em,
        process_rx-eq malloc h answer (suback sa) c₁ ea
            ∙ unfold handle_message in
              on_suback-waiting id now code codes topic table₁ c₁ refl found,
        unfold get_message_from_map in ap ok (lookup-removed malloc h id table₁),
        append_assoc c.log _ _,
        process_rx-eq malloc h wrong (puback id) c₁ ew
            ∙ unfold handle_message in
              on_delivered-mismatch id (subscription id t qos) now table₁ c₁ refl found refl,
      )
