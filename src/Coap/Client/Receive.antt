-- ===== src/Coap/Client/Receive.antt =====
-- src/coap/coap_client.c, `process_coap_rx`: what the client does with a packet.
use iotbroker_cloud_c_client.Base.{
  ℕ, zero, suc, ◌-◌, Bool, true, false, ◌&&◌, ◌||◌, not, Option, none, some, List, [], ◌∷◌,
  if◌then◌else◌, ltb, ◌==◌, Outcome, ok, refused, fault, ◌>>=◌, ◌>>◌, require, deref, Bytes,
  byte_at, slice,
}
use iotbroker_cloud_c_client.Base.HashTable.{HashTable}
use iotbroker_cloud_c_client.Mqtt.Decode.{c_string}
use iotbroker_cloud_c_client.MqttSn.Decode.{char_bits}
use iotbroker_cloud_c_client.Coap.Packets.{CoapOption, CoapMessage}
use iotbroker_cloud_c_client.Coap.Decode.{coap_decode}
use iotbroker_cloud_c_client.Coap.Client.State.{
  CoapClient, CoapEntry, connection_successful, publish_received, message_saved, window_updated,
  topic_unlisted, topic_deleted, topic_listed, topic_saved, record_effects,
}
use iotbroker_cloud_c_client.Coap.Client.Timers.{
  stop_coap_connect_timer, start_coap_ping_timer, coap_start_message_timer,
  coap_get_message_from_map, coap_remove_message_from_map,
}
use iotbroker_cloud_c_client.Coap.Client.Send.{send_coap_ack}

-- `value[length - 1]`, a signed char.
abbrev pub last_byte : CoapOption → Outcome ℕ
last_byte o = do require (ltb 0 o.length); value ← deref o.value; byte_at value (o.length - 1)

-- The topic and the QoS of a PUT or a POST: the loop ends at the first URI_PATH.
unfoldable pub find_topic : List CoapOption → ℕ → Outcome (Option Bytes × ℕ)
find_topic [] qos = ok (none, qos)
find_topic (o ∷ os) qos = elim (o.number == 11) as (λ b. Outcome (Option Bytes × ℕ)) [
  | true ↦ (do
    bytes ← if o.length == 0 then ok [] else (do value ← deref o.value; slice value 0 o.length)
    ok (some (c_string bytes), qos))
  | false ↦ (do
    qos ← if o.number == 17 then (do b ← last_byte o; ok (char_bits b)) else ok qos
    find_topic os qos)
]

-- `observe`: `none` is -1, `some false` is 0 and `some true` is 1.
unfoldable pub find_observe : List CoapOption → Outcome (Option Bool)
find_observe [] = ok none
find_observe (o ∷ os) = elim (o.number == 6 && ltb 0 o.length) as (λ b. Outcome (Option Bool)) [
  | true ↦ (do b ← last_byte o; ok (some (not (b == 0))))
  | false ↦ find_observe os
]

-- The QoS of an acknowledgement: that of its last ACCEPT.
unfoldable pub accepted_qos : List CoapOption → ℕ → Outcome ℕ
accepted_qos [] qos = ok qos
accepted_qos (o ∷ os) qos = do
  qos ← if o.number == 17 then (do b ← last_byte o; ok (char_bits b)) else ok qos
  accepted_qos os qos

-- The names of the topics of a message of the client, which are C strings.
unfoldable pub uri_paths : List CoapOption → Outcome (List Bytes)
uri_paths [] = ok []
uri_paths (o ∷ os) = do
  names ← uri_paths os
  if o.number == 11 then (do value ← deref o.value; ok (value ∷ names)) else ok names

-- An option of an array, by its index.
abbrev pub option_at : List CoapOption → ℕ → Outcome CoapOption
option_at [] i = fault
option_at (o ∷ os) zero = ok o
option_at (o ∷ os) (suc i) = option_at os i

module _ (malloc : ℕ → Bytes) (h : HashTable CoapEntry) where
  open h use {Table}

  -- The first packet that comes in opens the connection, whatever it is.
  unfoldable pub open_connection : CoapClient Table → CoapClient Table
  open_connection c =
      if c.init_connect
      then (let c =
            record_effects (connection_successful ∷ []) (stop_coap_connect_timer malloc h c) in
          let c =
            coap_start_message_timer malloc h
              (start_coap_ping_timer malloc h c.delay_in_seconds c) in
          record c { init_connect = false })
      else c

  abbrev pub list_topics : List Bytes → ℕ → CoapClient Table → CoapClient Table
  list_topics [] qos c = c
  list_topics (name ∷ names) qos c =
      list_topics names qos (record_effects (topic_listed name qos ∷ topic_saved name qos ∷ []) c)

  abbrev pub unlist_topics : List Bytes → CoapClient Table → CoapClient Table
  unlist_topics [] c = c
  unlist_topics (name ∷ names) c =
      unlist_topics names (record_effects (topic_unlisted name ∷ topic_deleted name ∷ []) c)

  unfoldable pub on_observed :
      CoapMessage → Bool → Option CoapEntry → CoapClient Table → Outcome (CoapClient Table)
  on_observed m observe none c = ok c
  on_observed m false (some e) c = do
    qos ← accepted_qos m.options 0
    names ← uri_paths e.message.options
    ok (list_topics names qos c)
  on_observed m true (some e) c = do names ← uri_paths e.message.options; ok (unlist_topics names c)

  -- The acknowledgement of a GET: of a subscription, or of its end.
  unfoldable pub on_get_ack : CoapMessage → CoapClient Table → Outcome (CoapClient Table)
  on_get_ack m c = do
    observe ← find_observe m.options
    elim observe as (λ o. Outcome (CoapClient Table)) [
      | none ↦ ok c
      | some observe ↦ (do
        original ← coap_get_message_from_map malloc h m.message_id c
        c ← on_observed m observe original c
        coap_remove_message_from_map malloc h m.message_id c)
    ]

  -- The acknowledgement of a message of the user.
  unfoldable pub on_message_ack : ℕ → CoapClient Table → Outcome (CoapClient Table)
  on_message_ack n c = do
    waiting ← coap_get_message_from_map malloc h n c
    elim waiting as (λ o. Outcome (CoapClient Table)) [
      | none ↦ ok c
      | some e ↦ (do
        content ← deref e.message.payload
        topic ← option_at e.message.options 0
        topic_name ← deref topic.value
        accept ← option_at e.message.options 1
        value ← deref accept.value
        qos ← byte_at value 1
        coap_remove_message_from_map malloc h n (
            record_effects
              (message_saved content topic_name (char_bits qos)
                ∷ window_updated content topic_name (char_bits qos)
                ∷ [])
              c))
    ]

  -- The switch over the type.
  unfoldable pub handle_coap_type : CoapMessage → CoapClient Table → Outcome (CoapClient Table)
  handle_coap_type m c =
      if m.type == 0
      then send_coap_ack malloc h m true c
      else if m.type == 2
      then (if m.code == 1
          then on_get_ack m c
          else if m.message_id == 0
          then ok c
          else on_message_ack m.message_id c)
      else coap_remove_message_from_map malloc h m.message_id c

  -- A PUT or a POST that is no acknowledgement is handed to the listener and acknowledged first; its
  -- content is a C string to the listener, and a pointer that was not set is none.
  unfoldable pub handle_coap_message : CoapMessage → CoapClient Table → Outcome (CoapClient Table)
  handle_coap_message m c =
      if (m.code == 2 || m.code == 3) && not (m.type == 2)
      then (do
        (topic_name, qos) ← find_topic m.options 0
        elim topic_name as (λ o. Outcome (CoapClient Table)) [
          | none ↦ send_coap_ack malloc h m false c
          | some topic_name ↦ (do
            content ← deref m.payload
            c ←
                send_coap_ack malloc h m true
                  (record_effects (publish_received content topic_name qos ∷ []) c)
            handle_coap_type m c)
        ])
      else handle_coap_type m c

  -- A packet that is refused is printed.
  abbrev pub handle_coap_decoded :
      Outcome CoapMessage → CoapClient Table → Outcome (CoapClient Table)
  handle_coap_decoded (ok m) c = handle_coap_message m c
  handle_coap_decoded refused c = ok c
  handle_coap_decoded fault c = fault

  unfoldable pub process_coap_rx : Bytes → ℕ → CoapClient Table → Outcome (CoapClient Table)
  process_coap_rx data_bytes length c =
      handle_coap_decoded (coap_decode data_bytes length) (open_connection c)
