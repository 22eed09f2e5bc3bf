-- ===== src/Mqtt/Client/Flow.antt =====
-- A delivery from the call of the user to the answer of the broker, and from a PUBLISH of the broker
-- to its acknowledgement.
use iotbroker_cloud_c_client.Base.{
  ℕ, ◌+◌, ◌%◌, ◌<◌, ◌≡◌, refl, ap, ◌∙◌, arith, Bool, false, some, none, [], ◌∷◌, ◌++◌,
  if◌then◌else◌, ◌==◌, ok, Bytes, length, append_assoc,
}
use iotbroker_cloud_c_client.Base.HashTable.{HashTable}
use iotbroker_cloud_c_client.Mqtt.Packets.{Message, Publish, publish, puback, pubcomp, received}
use iotbroker_cloud_c_client.Mqtt.Decode.{decode}
use iotbroker_cloud_c_client.Mqtt.Fire.{encode_and_fire}
use iotbroker_cloud_c_client.Mqtt.Wire.Format.{frame, publish_body}
use iotbroker_cloud_c_client.Mqtt.Wire.Parsed.{publish_first}
use iotbroker_cloud_c_client.Mqtt.RoundTrip.{
  IsPublishable, outgoing_publish, encode_and_fire-publish,
}
use iotbroker_cloud_c_client.Mqtt.Client.State.{
  Client, Entry, Delivery, sent, message_saved, window_updated, live, record_effects,
}
use iotbroker_cloud_c_client.Mqtt.Client.Timers.{
  fire, map_key, add_message_in_map, get_message_from_map, remove_message_from_map,
}
use iotbroker_cloud_c_client.Mqtt.Client.Send.{send_publish, next_packet}
use iotbroker_cloud_c_client.Mqtt.Client.Receive.{
  on_delivered, delivery_of, handle_message, handle_decoded, process_rx,
}

-- The message as the window and the database get it.
abbrev pub delivery : Bytes → Bytes → ℕ → Bool → Bool → Delivery
delivery content t qos retain dup = record {
  content = content;
  topic_name = t;
  qos = qos;
  retain = retain;
  dup = dup;
}

abbrev pub next_id : {Table : Type 0} → Client Table → ℕ
next_id c = (c.current_packet_number + 1) % 65536

abbrev pub publish_frame : Bytes → Bytes → ℕ → Bool → Bool → ℕ → Bytes
publish_frame content t qos retain dup id =
    frame (publish_first dup qos retain) (publish_body t (if qos == 0 then 0 else id) content)

module _ (malloc : ℕ → Bytes) (h : HashTable Entry) where
  open h use {Table, lookup, insert, remove, lookup-insert, lookup-remove}

  pub fire-eq :
      (m : Message) (c : Client Table) {bytes : Bytes}
      → encode_and_fire malloc m ≡ ok bytes
      → fire malloc h m c ≡ ok (record_effects (sent bytes ∷ []) c)
  unfolding fire
  fire-eq m c e = rw e

  pub process_rx-eq :
      (buf : Bytes) (m : Message) (c : Client Table)
      → decode buf ≡ ok (received m)
      → process_rx malloc h buf c ≡ handle_message malloc h m c
  unfolding process_rx handle_decoded
  process_rx-eq buf m c e = rw e

  pub lookup-inserted : (k : ℕ) (e : Entry) (t : Table) → lookup k (insert k e t) ≡ some e
  lookup-inserted k e t = rw lookup-insert (ground arith)

  pub lookup-removed : (k : ℕ) (t : Table) → lookup k (remove k t) ≡ none
  lookup-removed k t = rw lookup-remove (ground arith)

  -- A message that waits for the answer with its id is saved, shown and taken out of the table.
  pub on_delivered-waiting :
      (n now : ℕ) (p : Publish) (d : Delivery) (t : Table) (c : Client Table)
      → c.messages_map ≡ live t
      → lookup n t ≡ some (record { message = publish p; time_stamp = now })
      → delivery_of p ≡ ok d
      → on_delivered malloc h n c
        ≡ ok (record c {
          messages_map = live (remove n t);
          log = c.log ++ (message_saved d ∷ window_updated d ∷ []);
        })
  unfolding on_delivered get_message_from_map remove_message_from_map
  on_delivered-waiting n now p d t c em el ed = simp (em, el, ed)

  pub on_delivered-unknown :
      (n : ℕ) (t : Table) (c : Client Table)
      → c.messages_map ≡ live t
      → lookup n t ≡ none
      → on_delivered malloc h n c ≡ ok c
  unfolding on_delivered get_message_from_map
  on_delivered-unknown n t c em el = simp (em, el)

  -- The client after a PUBLISH of QoS 1 or 2: it is sent, and waits under its id.
  abbrev pub published : ℕ → Bytes → Bytes → ℕ → Bool → Bool → Table → Client Table → Client Table
  published now content t qos retain dup table c = record c {
    current_packet_number = c.current_packet_number + 1;
    messages_map = live (
        insert (next_id c)
          (record {
            message = publish (outgoing_publish t qos dup retain (next_id c) content);
            time_stamp = now;
          })
          table);
    log = c.log ++ (sent (publish_frame content t qos retain dup (next_id c)) ∷ []);
  }

  send_publish-fire :
      (now : ℕ) (content t : Bytes) (qos : ℕ) (retain dup : Bool) (c : Client Table)
      {c₁ : Client Table}
      → (qos == 0) ≡ false
      → fire malloc h
          (publish (outgoing_publish t qos dup retain (next_id c) content))
          (next_packet malloc h c)
        ≡ ok c₁
      → send_publish malloc h now content t qos retain dup c
        ≡ add_message_in_map malloc h now
            (publish (outgoing_publish t qos dup retain (next_id c) content))
            c₁
  unfolding send_publish next_packet
  send_publish-fire now content t qos retain dup c ez e = let e' = simp ez at e in simp (ez, e')

  add_message_in_map-publish :
      (now id : ℕ) (p : Publish) (table : Table) (c : Client Table)
      → p.packet_id ≡ some id
      → c.messages_map ≡ live table
      → add_message_in_map malloc h now (publish p) c
        ≡ ok (record c {
          messages_map = live (insert id (record { message = publish p; time_stamp = now }) table);
        })
  unfolding add_message_in_map map_key
  add_message_in_map-publish now id p table c ep em = simp (ep, em)

  pub send_publish-eq :
      (now : ℕ) (content t : Bytes) (qos : ℕ) (retain dup : Bool) (table : Table) (c : Client Table)
      → ((n : ℕ) → length (malloc n) ≡ n)
      → 0 < qos
      → IsPublishable t qos dup (next_id c) content
      → c.messages_map ≡ live table
      → send_publish malloc h now content t qos retain dup c
        ≡ ok (published now content t qos retain dup table c)
  unfolding next_packet
  send_publish-eq now content t qos retain dup table c fresh hq p em =
      let m = outgoing_publish t qos dup retain (next_id c) content in
      let ez : (qos == 0) ≡ false = ground arith in
      let e = encode_and_fire-publish malloc t qos dup retain (next_id c) content fresh p in
      let c₀ = next_packet malloc h c in
      let c₁ = record_effects (sent (publish_frame content t qos retain dup (next_id c)) ∷ []) c₀ in
      send_publish-fire now content t qos retain dup c ez (fire-eq (publish m) c₀ e)
      ∙ add_message_in_map-publish now (next_id c) m table c₁ (rw ez refl) em

  -- The answer of the broker to a message that waits: PUBACK at QoS 1, PUBCOMP at QoS 2.
  abbrev final_answer : ℕ → ℕ → Message
  final_answer qos id = if qos == 1 then puback id else pubcomp id

  handle_final_answer :
      (qos id : ℕ) (c : Client Table)
      → handle_message malloc h (final_answer qos id) c ≡ on_delivered malloc h id c
  unfolding handle_message
  handle_final_answer qos id c = ground arith

  -- A message that is published at QoS 1 or 2 goes out as one PUBLISH packet, and waits under its
  -- packet id, neither saved nor shown; when the broker's PUBACK, or PUBCOMP at QoS 2, comes in with that
  -- id, it is saved and shown, once, and waits no more. A second answer with the same id changes nothing.
  -- The conditions: malloc returns blocks of the size that is asked for; there is a map; the next packet
  -- id is not 0, that is, the counter does not wrap with it; topic and content hold no zero byte, the
  -- topic has 1 to 65535 bytes, and the body has less than 2 ^ 28.
  pub send_publish-answer :
      (now : ℕ) (content t : Bytes) (qos : ℕ) (retain dup : Bool) (table : Table) (c : Client Table)
      (answer : Bytes)
      → ((n : ℕ) → length (malloc n) ≡ n)
      → 0 < qos
      → IsPublishable t qos dup (next_id c) content
      → c.messages_map ≡ live table
      → decode answer ≡ ok (received (final_answer qos (next_id c)))
      → (c₁ c₂ : Client Table) × (send_publish malloc h now content t qos retain dup c ≡ ok c₁)
        × (get_message_from_map malloc h (next_id c) c₁
            ≡ ok (
                some (record {
                  message = publish (outgoing_publish t qos dup retain (next_id c) content);
                  time_stamp = now;
                })))
        × (c₁.log ≡ c.log ++ (sent (publish_frame content t qos retain dup (next_id c)) ∷ []))
        × (process_rx malloc h answer c₁ ≡ ok c₂)
        × (process_rx malloc h answer c₂ ≡ ok c₂)
        × (get_message_from_map malloc h (next_id c) c₂ ≡ ok none)
        × (c₂.log
            ≡ c.log
              ++ (sent (publish_frame content t qos retain dup (next_id c))
                  ∷ message_saved (delivery content t qos retain dup)
                  ∷ window_updated (delivery content t qos retain dup)
                  ∷ []))
  send_publish-answer now content t qos retain dup table c answer fresh hq p em ea =
      let id = next_id c in
      let m = outgoing_publish t qos dup retain id content in
      let waiting : Entry = record { message = publish m; time_stamp = now } in
      let table₁ = insert id waiting table in
      let c₁ = published now content t qos retain dup table c in
      let done = delivery content t qos retain dup in
      let c₂ : Client Table = record c₁ {
        messages_map = live (remove id table₁);
        log = c₁.log ++ (message_saved done ∷ window_updated done ∷ []);
      } in
      let handled = λ (k : Client Table).
        process_rx-eq answer (final_answer qos id) k ea ∙ handle_final_answer qos id k in
      let gone = lookup-removed id table₁ in
      (
        c₁,
        c₂,
        send_publish-eq now content t qos retain dup table c fresh hq p em,
        unfold get_message_from_map in ap ok (lookup-inserted id waiting table),
        refl,
        handled c₁
            ∙ on_delivered-waiting id now m done table₁ c₁ refl (lookup-inserted id waiting table)
                (unfold delivery_of in refl),
        handled c₂ ∙ on_delivered-unknown id (remove id table₁) c₂ refl gone,
        unfold get_message_from_map in ap ok gone,
        append_assoc c.log _ _,
      )
