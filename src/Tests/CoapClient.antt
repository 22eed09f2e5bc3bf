-- ===== src/Tests/CoapClient.antt =====
-- The CoAP client on concrete inputs: the text "hi" on the topic "ab".
use iotbroker_cloud_c_client.Base.{
  ℕ, ◌<◌, ◌≡◌, refl, arith, true, false, none, some, List, [], ◌∷◌, ◌++◌, inl, inr, ok, Bytes,
  length,
}
use iotbroker_cloud_c_client.Base.HashTable.{null}
use iotbroker_cloud_c_client.Tests.Table.{block, length-block, association_list}
use iotbroker_cloud_c_client.Coap.Decode.{coap_decode}
use iotbroker_cloud_c_client.Coap.Wire.{coap_wire}
use iotbroker_cloud_c_client.Coap.Stores.{IsSendable}
use iotbroker_cloud_c_client.Coap.RoundTrip.{coap_decode-coap_wire}
use iotbroker_cloud_c_client.Coap.Client.State.{
  Account, CoapClient, CoapEntry, sent, publish_received, topic_listed, topic_saved, record_effects,
}
use iotbroker_cloud_c_client.Coap.Client.Timers.{coap_get_message_from_map}
use iotbroker_cloud_c_client.Coap.Client.Send.{number_text, send_coap_message, send_coap_subscribe}
use iotbroker_cloud_c_client.Coap.Client.Receive.{process_coap_rx}
use iotbroker_cloud_c_client.Coap.Client.Delivery.{
  waiting, message_fields, delivered, acknowledgement, with_map, send_coap_message-process_coap_rx,
}
use iotbroker_cloud_c_client.Coap.Client.Incoming.{ack_wire, process_coap_rx-coap_wire}
use iotbroker_cloud_c_client.Coap.Client.Subscription.{
  subscribe_fields, granted, send_coap_subscribe-process_coap_rx,
}

abbrev pub topic : Bytes
topic = 97 ∷ 98 ∷ []

abbrev pub content : Bytes
content = 104 ∷ 105 ∷ []

abbrev pub account : Account
account = record {
  username = [];
  password = [];
  client_id = 99 ∷ [];
  clean_session = true;
  keep_alive = 60;
  will_topic = none;
  is_retain = false;
  qos = 0;
  will = none;
}

abbrev pub client : CoapClient (List (ℕ × CoapEntry))
client = record {
  current_packet_number = 4;
  delay_in_seconds = 60;
  ping_delay = 60;
  init_connect = false;
  account = account;
  messages_map = null;
  log = [];
}

abbrev connected : CoapClient (List (ℕ × CoapEntry))
connected = with_map block (association_list CoapEntry) [] client

token_of_five : number_text 5 ≡ ok (53 ∷ [])
unfolding number_text
token_of_five = refl

put-IsSendable : IsSendable 0 3 5 (53 ∷ []) (message_fields topic 1 account.client_id) content
put-IsSendable = record {
  type_valid = omega arith;
  code_valid = (omega arith, omega arith);
  id_short = omega arith;
  token_short = omega arith;
  options_valid = (
    omega arith,
    inl (omega arith),
    omega arith,
    (
      omega arith,
      inl (omega arith),
      omega arith,
      (omega arith, inr (omega arith, omega arith), omega arith, tt),
    ),
  );
  payload_short = omega arith;
  fits = omega arith;
}

get-IsSendable : IsSendable 0 1 5 (53 ∷ []) (subscribe_fields topic 2 account.client_id) []
get-IsSendable = record {
  type_valid = omega arith;
  code_valid = (omega arith, omega arith);
  id_short = omega arith;
  token_short = omega arith;
  options_valid = (
    omega arith,
    inl (omega arith),
    omega arith,
    (
      omega arith,
      inl (omega arith),
      omega arith,
      (
        omega arith,
        inl (omega arith),
        omega arith,
        (omega arith, inr (omega arith, omega arith), omega arith, tt),
      ),
    ),
  );
  payload_short = omega arith;
  fits = omega arith;
}

-- A message with the client id as its only option, and no payload.
pub plain-IsSendable :
    (type code n b : ℕ)
    → type < 4
    → code < 32
    → n < 65536
    → IsSendable type code n (b ∷ []) ((2050, account.client_id) ∷ []) []
plain-IsSendable type code n b ht hc hn = record {
  type_valid = ht;
  code_valid = (omega arith, omega arith);
  id_short = hn;
  token_short = omega arith;
  options_valid = (omega arith, inr (omega arith, omega arith), omega arith, tt);
  payload_short = omega arith;
  fits = ground arith;
}

-- 2.04, with the byte 0 behind it.
abbrev changed : Bytes
changed = coap_wire 2 204 5 (53 ∷ []) [] []

changed-decode :
    coap_decode (changed ++ 0 ∷ []) (length changed)
    ≡ ok (acknowledgement 204 5 (some (53 ∷ [])) [] none)
changed-decode =
    coap_decode-coap_wire 2 204 5 (53 ∷ []) [] [] 0 []
      (record {
        type_valid = omega arith;
        code_valid = (omega arith, omega arith);
        id_short = omega arith;
        token_short = omega arith;
        options_valid = tt;
        payload_short = omega arith;
        fits = omega arith;
      })
      (omega arith, tt) tt

send_coap_message-process_coap_rx_example :
    (c₁ c₂ : CoapClient (List (ℕ × CoapEntry))) × (send_coap_message block
        (association_list CoapEntry)
        0
        content
        topic
        1
        connected
      ≡ ok c₁)
    × (coap_get_message_from_map block (association_list CoapEntry) 5 c₁
        ≡ ok (
            some (
              waiting block
                (association_list CoapEntry)
                0
                5
                content
                topic
                1
                (53 ∷ [])
                account.client_id)))
    × (c₁.log ≡ (
        sent (coap_wire 0 3 5 (53 ∷ []) (message_fields topic 1 account.client_id) content) ∷ []))
    × (process_coap_rx block (association_list CoapEntry) (changed ++ 0 ∷ []) (length changed) c₁
        ≡ ok c₂)
    × (process_coap_rx block (association_list CoapEntry) (changed ++ 0 ∷ []) (length changed) c₂
        ≡ ok c₂)
    × (coap_get_message_from_map block (association_list CoapEntry) 5 c₂ ≡ ok none)
    × (c₂.log ≡ (
        sent (coap_wire 0 3 5 (53 ∷ []) (message_fields topic 1 account.client_id) content)
        ∷ delivered content topic 1))
send_coap_message-process_coap_rx_example =
    send_coap_message-process_coap_rx block (association_list CoapEntry) 0 204 (length changed)
      content topic (53 ∷ []) 1 [] client (changed ++ 0 ∷ []) (some (53 ∷ [])) [] none length-block
      (omega arith) (omega arith) (omega arith) (omega arith) token_of_five put-IsSendable
      changed-decode refl

abbrev observed : Bytes
observed = coap_wire 2 1 5 (53 ∷ []) ((6, 0 ∷ []) ∷ (17, 0 ∷ 1 ∷ []) ∷ []) []

observed-decode :
    coap_decode (observed ++ 0 ∷ []) (length observed)
    ≡ ok (acknowledgement 1 5 (some (53 ∷ [])) (granted 1) none)
observed-decode =
    coap_decode-coap_wire 2 1 5 (53 ∷ []) ((6, 0 ∷ []) ∷ (17, 0 ∷ 1 ∷ []) ∷ []) [] 0 []
      (record {
        type_valid = omega arith;
        code_valid = (omega arith, omega arith);
        id_short = omega arith;
        token_short = omega arith;
        options_valid = (
          omega arith,
          inl (omega arith),
          omega arith,
          (omega arith, inl (omega arith), omega arith, tt),
        );
        payload_short = omega arith;
        fits = omega arith;
      })
      (omega arith, tt) tt

send_coap_subscribe-process_coap_rx_example :
    (c₁ c₂ : CoapClient (List (ℕ × CoapEntry))) × (send_coap_subscribe block
        (association_list CoapEntry)
        0
        topic
        2
        connected
      ≡ ok c₁)
    × (process_coap_rx block (association_list CoapEntry) (observed ++ 0 ∷ []) (length observed) c₁
        ≡ ok c₂)
    × (coap_get_message_from_map block (association_list CoapEntry) 5 c₂ ≡ ok none)
    × (c₂.log ≡ (
        sent (coap_wire 0 1 5 (53 ∷ []) (subscribe_fields topic 2 account.client_id) [])
        ∷ topic_listed topic 1
        ∷ topic_saved topic 1
        ∷ []))
send_coap_subscribe-process_coap_rx_example =
    send_coap_subscribe-process_coap_rx block (association_list CoapEntry) 0 (length observed) 1
      topic (53 ∷ []) 2 [] client (observed ++ 0 ∷ []) (some (53 ∷ [])) none length-block
      (omega arith) (omega arith) (omega arith) (omega arith) (omega arith) token_of_five
      get-IsSendable observed-decode

process_coap_rx-coap_wire_example :
    process_coap_rx block
      (association_list CoapEntry)
      (coap_wire 0 3 5 (53 ∷ []) (message_fields topic 1 account.client_id) content ++ 0 ∷ [])
      (length (coap_wire 0 3 5 (53 ∷ []) (message_fields topic 1 account.client_id) content))
      connected
    ≡ ok (
        record_effects
          (publish_received content topic 0
            ∷ sent (ack_wire 3 5 (53 ∷ []) account.client_id)
            ∷ sent (ack_wire 3 5 (53 ∷ []) account.client_id)
            ∷ [])
          connected)
process_coap_rx-coap_wire_example =
    process_coap_rx-coap_wire block (association_list CoapEntry) 5 53 104 0 [] topic (105 ∷ []) []
      ((17, 0 ∷ 1 ∷ []) ∷ (2050, account.client_id) ∷ []) [] client length-block (omega arith)
      (omega arith, (omega arith, tt)) (omega arith, tt) (omega arith, (omega arith, tt))
      (omega arith) put-IsSendable
      (plain-IsSendable 2 3 5 53 (omega arith) (omega arith) (omega arith))
