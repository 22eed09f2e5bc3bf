-- ===== src/Tests/CoapConnection.antt =====
-- The CoAP client on concrete inputs: the start of a connection, and the invariant.
use iotbroker_cloud_c_client.Base.{
  ℕ, ◌≡◌, refl, arith, true, false, none, List, [], ◌∷◌, ◌++◌, ok, byte_at, slice, write,
}
use iotbroker_cloud_c_client.Base.HashTable.{live}
use iotbroker_cloud_c_client.Tests.Table.{block, length-block, association_list}
use iotbroker_cloud_c_client.Helpers.{add_short}
use iotbroker_cloud_c_client.Coap.Packets.{CoapMessage}
use iotbroker_cloud_c_client.Coap.Encode.{
  encode_head, encode_options, encode_option, coap_encode, coap_encode_and_fire,
}
use iotbroker_cloud_c_client.Coap.Client.Reach.{
  initial_client, starts, steps, connects, receives, publishes, Reachable-message_id,
}
use iotbroker_cloud_c_client.Coap.Decode.{coap_decode}
use iotbroker_cloud_c_client.Coap.Wire.{coap_wire}
use iotbroker_cloud_c_client.Coap.Client.State.{
  CoapClient, CoapEntry, sent, timer_started, timer_stopped, connecter, pinger, messager,
  connection_successful, connection_unsuccessful, connection_closed,
}
use iotbroker_cloud_c_client.Coap.Client.Timers.{
  coap_get_message_from_map, coap_fire, coap_add_message_in_map, start_coap_connect_timer,
  stop_coap_connect_timer, start_coap_ping_timer, coap_start_message_timer,
}
use iotbroker_cloud_c_client.Coap.Client.Send.{
  number_text, qos_value, request, message_options, next_packet, coap_send_ping, coap_connect,
  coap_connect_task, send_coap_message,
}
use iotbroker_cloud_c_client.Coap.Client.Receive.{
  open_connection, handle_coap_decoded, process_coap_rx,
}
use iotbroker_cloud_c_client.Coap.Client.Delivery.{message_fields}
use iotbroker_cloud_c_client.Coap.Client.Connection.{ping_wire, coap_connect-coap_connect_task}
use iotbroker_cloud_c_client.Tests.CoapClient.{topic, content, account, client, plain-IsSendable}

coap_connect-coap_connect_task_example :
    (c₁ c₂ : CoapClient (List (ℕ × CoapEntry))) × (coap_connect block
        (association_list CoapEntry)
        client
      ≡ ok c₁)
    × (process_coap_rx block (association_list CoapEntry) (0 ∷ []) 1 c₁
        ≡ handle_coap_decoded block (association_list CoapEntry) (coap_decode (0 ∷ []) 1) c₂)
    × (c₂.log ≡ (
        sent (ping_wire account.client_id)
        ∷ timer_started connecter
        ∷ timer_stopped connecter
        ∷ connection_successful
        ∷ timer_started pinger
        ∷ timer_started messager
        ∷ []))
    × (c₂.ping_delay ≡ 60)
    × (coap_get_message_from_map block (association_list CoapEntry) 5 c₂ ≡ ok none)
    × (coap_connect_task block (association_list CoapEntry) c₂ ≡ c₂)
    × ((coap_connect_task block (association_list CoapEntry) c₁).log ≡ (
        sent (ping_wire account.client_id)
        ∷ timer_started connecter
        ∷ connection_closed
        ∷ connection_unsuccessful
        ∷ []))
    × (coap_connect_task block
          (association_list CoapEntry)
          (coap_connect_task block (association_list CoapEntry) c₁)
        ≡ coap_connect_task block (association_list CoapEntry) c₁)
coap_connect-coap_connect_task_example =
    coap_connect-coap_connect_task block (association_list CoapEntry) (0 ∷ []) 1 5 client
      length-block (omega arith)
      (plain-IsSendable 0 3 0 48 (omega arith) (omega arith) (omega arith))

-- A new client that connects, gets a packet that is refused, and publishes.
abbrev pinging : CoapClient (List (ℕ × CoapEntry))
pinging = record (initial_client block (association_list CoapEntry) account) {
  init_connect = true;
  log = sent (ping_wire account.client_id) ∷ timer_started connecter ∷ [];
}

pings :
    coap_connect block
      (association_list CoapEntry)
      (initial_client block (association_list CoapEntry) account)
    ≡ ok pinging
unfolding coap_connect coap_send_ping coap_fire coap_encode_and_fire coap_encode encode_head
    encode_options encode_option write slice add_short start_coap_connect_timer
pings = refl

abbrev opened : CoapClient (List (ℕ × CoapEntry))
opened = record pinging {
  init_connect = false;
  ping_delay = 60;
  messages_map = live [];
  log =
      pinging.log
      ++ (timer_stopped connecter
          ∷ connection_successful
          ∷ timer_started pinger
          ∷ timer_started messager
          ∷ []);
}

opens : process_coap_rx block (association_list CoapEntry) (0 ∷ []) 1 pinging ≡ ok opened
unfolding process_coap_rx open_connection stop_coap_connect_timer start_coap_ping_timer
    coap_start_message_timer coap_decode byte_at
opens = refl

abbrev put_message : CoapMessage
put_message = request 3 1 (49 ∷ []) (message_options topic (qos_value 1) account.client_id) content

abbrev published : CoapClient (List (ℕ × CoapEntry))
published = record opened {
  current_packet_number = 1;
  messages_map = live ((1, record { message = put_message; time_stamp = 0 }) ∷ []);
  log =
      opened.log
      ++ (sent (coap_wire 0 3 1 (49 ∷ []) (message_fields topic 1 account.client_id) content) ∷ []);
}

publishes_once :
    send_coap_message block (association_list CoapEntry) 0 content topic 1 opened ≡ ok published
unfolding send_coap_message next_packet number_text qos_value message_options
    coap_add_message_in_map coap_fire coap_encode_and_fire coap_encode encode_head encode_options
    encode_option write slice add_short
publishes_once = refl

Reachable-message_id_example : put_message.message_id ≡ 1
Reachable-message_id_example =
    Reachable-message_id block (association_list CoapEntry) published
      ((1, record { message = put_message; time_stamp = 0 }) ∷ []) 1
      (record { message = put_message; time_stamp = 0 })
      (steps (steps (steps (starts account) (connects pings)) (receives (0 ∷ []) 1 opens))
        (publishes 0 content topic 1 publishes_once))
      refl refl
