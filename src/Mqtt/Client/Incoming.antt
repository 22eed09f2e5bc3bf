-- ===== src/Mqtt/Client/Incoming.antt =====
-- A PUBLISH of the broker, up to its acknowledgement.
use iotbroker_cloud_c_client.Base.{
  ℕ, zero, suc, ◌<◌, ◌≡◌, ◌∙◌, arith, Bool, false, List, [], ◌∷◌, ◌++◌, if◌then◌else◌, ◌==◌, ok,
  Bytes, length, append_assoc,
}
use iotbroker_cloud_c_client.Base.HashTable.{HashTable}
use iotbroker_cloud_c_client.Helpers.{short_bytes}
use iotbroker_cloud_c_client.Mqtt.Packets.{publish, puback, pubrec}
use iotbroker_cloud_c_client.Mqtt.Fire.Sent.{wire_puback, wire_pubrec, encode_and_fire-Wire}
use iotbroker_cloud_c_client.Mqtt.Wire.Format.{frame}
use iotbroker_cloud_c_client.Mqtt.Wire.Parsed.{incoming_publish}
use iotbroker_cloud_c_client.Mqtt.RoundTrip.{IsPublishable, decode-publish_frame}
use iotbroker_cloud_c_client.Mqtt.Client.State.{
  Client, Entry, Effect, sent, publish_received, record_effects,
}
use iotbroker_cloud_c_client.Mqtt.Client.Send.{send_puback, send_pubrec}
use iotbroker_cloud_c_client.Mqtt.Client.Receive.{
  delivery_of, on_publish, handle_message, process_rx,
}
use iotbroker_cloud_c_client.Mqtt.Client.Flow.{delivery, publish_frame, fire-eq, process_rx-eq}

-- The answer to a PUBLISH: nothing at QoS 0, PUBACK at QoS 1, PUBREC at QoS 2.
abbrev pub acknowledgement : ℕ → ℕ → List Effect
acknowledgement qos id =
    if qos == 1
    then sent (frame 0x40 (short_bytes id)) ∷ []
    else if qos == 2
    then sent (frame 0x50 (short_bytes id)) ∷ []
    else []

module _ (malloc : ℕ → Bytes) (h : HashTable Entry) where
  open h use {Table}

  on_publish-eq :
      (t : Bytes) (qos : ℕ) (dup retain : Bool) (id b : ℕ) (content : Bytes) (c : Client Table)
      → ((n : ℕ) → length (malloc n) ≡ n)
      → qos < 3
      → on_publish malloc h (incoming_publish t qos dup retain id (b ∷ content)) c
        ≡ ok (
            record_effects
              (publish_received (delivery (b ∷ content) t qos retain dup) ∷ acknowledgement qos id)
              c)
  unfolding on_publish delivery_of send_puback send_pubrec
  on_publish-eq t zero dup retain id b content c fresh h3 =
      let filled : (suc (length content) == 0) ≡ false = ground arith in rw filled
  on_publish-eq t (suc zero) dup retain id b content c fresh h3 =
      let filled : (suc (length content) == 0) ≡ false = ground arith in
      let e = encode_and_fire-Wire malloc fresh (wire_puback id) (omega arith) in
      let c₁ = record_effects (publish_received (delivery (b ∷ content) t 1 retain dup) ∷ []) c in
      rw (filled, fire-eq malloc h (puback id) c₁ e) (simp append_assoc)
  on_publish-eq t (suc (suc zero)) dup retain id b content c fresh h3 =
      let filled : (suc (length content) == 0) ≡ false = ground arith in
      let e = encode_and_fire-Wire malloc fresh (wire_pubrec id) (omega arith) in
      let c₁ = record_effects (publish_received (delivery (b ∷ content) t 2 retain dup) ∷ []) c in
      rw (filled, fire-eq malloc h (pubrec id) c₁ e) (simp append_assoc)
  on_publish-eq t (suc (suc (suc n))) dup retain id b content c fresh h3 = absurd (omega arith)

  -- A PUBLISH packet that comes in with a content, whatever bytes stand behind it, is handed to the
  -- listener as it was sent and answered at once: with nothing at QoS 0, one PUBACK at QoS 1 and one
  -- PUBREC at QoS 2, each with the packet id of the PUBLISH. Nothing else of the client changes.
  -- The conditions: malloc returns blocks of the size that is asked for; topic and content hold no zero
  -- byte, and the content has one byte at least; the topic has 1 to 65535 bytes, the body less than
  -- 2 ^ 28; the QoS is 0, 1 or 2, and at 0 the mark of a second delivery is not set; the packet id is
  -- below 65536, and from QoS 1 on not 0.
  pub process_rx-publish_frame :
      (t : Bytes) (qos : ℕ) (dup retain : Bool) (id b : ℕ) (content rest : Bytes) (c : Client Table)
      → ((n : ℕ) → length (malloc n) ≡ n)
      → IsPublishable t qos dup id (b ∷ content)
      → process_rx malloc h (publish_frame (b ∷ content) t qos retain dup id ++ rest) c
        ≡ ok (
            record_effects
              (publish_received (delivery (b ∷ content) t qos retain dup) ∷ acknowledgement qos id)
              c)
  process_rx-publish_frame t qos dup retain id b content rest c fresh p =
      process_rx-eq malloc h _ (publish (incoming_publish t qos dup retain id (b ∷ content))) c
        (decode-publish_frame t qos dup retain id (b ∷ content) rest p)
      ∙ unfold handle_message in on_publish-eq t qos dup retain id b content c fresh p.qos_valid
