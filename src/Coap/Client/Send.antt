-- ===== src/Coap/Client/Send.antt =====
-- src/coap/coap_client.c: the calls of the user, and the acknowledgements.
use iotbroker_cloud_c_client.Base.{
  ℕ, ◌+◌, ◌/◌, ◌%◌, Bool, true, false, Option, none, some, List, [], ◌∷◌, if◌then◌else◌, ltb,
  Outcome, ok, fault, ◌>>=◌, Bytes, length,
}
use iotbroker_cloud_c_client.Base.HashTable.{HashTable}
use iotbroker_cloud_c_client.Coap.Packets.{CoapOption, CoapMessage}
use iotbroker_cloud_c_client.Coap.Client.State.{
  CoapClient, CoapEntry, connection_closed, connection_unsuccessful, record_effects,
}
use iotbroker_cloud_c_client.Coap.Client.Timers.{
  coap_fire, start_coap_connect_timer, coap_stop_all_timers, coap_add_message_in_map,
}

-- `sprintf(str, "%d", n)` into five bytes: a number of five digits leaves no room for the NUL.
unfoldable pub number_text : ℕ → Outcome Bytes
number_text n =
    if ltb n 10
    then ok ((48 + n) ∷ [])
    else if ltb n 100
    then ok ((48 + n / 10) ∷ (48 + n % 10) ∷ [])
    else if ltb n 1000
    then ok ((48 + n / 100) ∷ (48 + n / 10 % 10) ∷ (48 + n % 10) ∷ [])
    else if ltb n 10000
    then ok ((48 + n / 1000) ∷ (48 + n / 100 % 10) ∷ (48 + n / 10 % 10) ∷ (48 + n % 10) ∷ [])
    else fault

-- The two bytes of `qos_value`; the second is not set for another QoS.
unfoldable pub qos_value : ℕ → Option Bytes
qos_value qos = if ltb qos 3 then some (0 ∷ qos ∷ []) else none

abbrev pub text_option : ℕ → Bytes → CoapOption
text_option number text = record { number = number; length = length text; value = some text }

abbrev pub accept_option : Option Bytes → CoapOption
accept_option value = record { number = 17; length = 2; value = value }

-- A message that is CONFIRMABLE.
abbrev pub request : ℕ → ℕ → Bytes → List CoapOption → Bytes → CoapMessage
request code n token options payload = record {
  version = 1;
  type = 0;
  code = code;
  message_id = n;
  token = some token;
  options = options;
  payload = some payload;
}

unfoldable pub subscribe_options : Bytes → Option Bytes → Bytes → List CoapOption
subscribe_options topic_name qos client_id =
    text_option 6 (0 ∷ 0 ∷ 0 ∷ 0 ∷ [])
    ∷ text_option 11 topic_name
    ∷ accept_option qos
    ∷ text_option 2050 client_id
    ∷ []

unfoldable pub message_options : Bytes → Option Bytes → Bytes → List CoapOption
message_options topic_name qos client_id =
    text_option 11 topic_name ∷ accept_option qos ∷ text_option 2050 client_id ∷ []

unfoldable pub unsubscribe_options : Bytes → Bytes → List CoapOption
unsubscribe_options topic_name client_id =
    text_option 6 (0 ∷ 0 ∷ 0 ∷ 1 ∷ []) ∷ text_option 11 topic_name ∷ text_option 2050 client_id ∷ []

-- The acknowledgement of a message: its code, or BAD_OPTION with the format of a text.
unfoldable pub coap_ack : CoapMessage → Bool → Bytes → CoapMessage
coap_ack m is_ok client_id = record {
  version = m.version;
  type = 2;
  code = if is_ok then m.code else 130;
  message_id = m.message_id;
  token = m.token;
  options =
      (if is_ok
        then text_option 2050 client_id ∷ []
        else text_option 12 (116 ∷ 101 ∷ 120 ∷ 116 ∷ 47 ∷ 112 ∷ 108 ∷ 97 ∷ 105 ∷ 110 ∷ [])
          ∷ text_option 2050 client_id
          ∷ []);
  payload = some [];
}

module _ (malloc : ℕ → Bytes) (h : HashTable CoapEntry) where
  open h use {Table}

  unfoldable pub coap_send_ping : CoapClient Table → Outcome (CoapClient Table)
  coap_send_ping c =
      coap_fire malloc h (request 3 0 (48 ∷ []) (text_option 2050 c.account.client_id ∷ []) []) c

  unfoldable pub coap_connect : CoapClient Table → Outcome (CoapClient Table)
  coap_connect c = do
    c ← coap_send_ping (record c { init_connect = true })
    ok (start_coap_connect_timer malloc h c)

  unfoldable pub send_coap_disconnect : CoapClient Table → Outcome (CoapClient Table)
  send_coap_disconnect c = do
    c ← coap_stop_all_timers malloc h c
    ok (record_effects (connection_closed ∷ []) c)

  -- `++current_packet_number`; an unsigned short holds the packet id.
  unfoldable pub next_packet : CoapClient Table → CoapClient Table
  next_packet c = record c { current_packet_number = c.current_packet_number + 1 }

  -- The payload and the value of ACCEPT are local arrays: nothing is left of them in the table.
  unfoldable pub send_coap_subscribe : ℕ → Bytes → ℕ → CoapClient Table → Outcome (CoapClient Table)
  send_coap_subscribe now topic_name qos c = do
    let c = next_packet c
    let n = c.current_packet_number % 65536
    token ← number_text c.current_packet_number
    let m = request 1 n token (subscribe_options topic_name (qos_value qos) c.account.client_id) []
    let options = subscribe_options topic_name none c.account.client_id
    c ← coap_add_message_in_map malloc h now (record m { options = options; payload = none }) c
    coap_fire malloc h m c

  -- `retain` and `dup` are not used.
  unfoldable pub send_coap_message :
      ℕ → Bytes → Bytes → ℕ → CoapClient Table → Outcome (CoapClient Table)
  send_coap_message now content topic_name qos c = do
    let c = next_packet c
    let n = c.current_packet_number % 65536
    token ← number_text c.current_packet_number
    let m =
        request 3 n token (message_options topic_name (qos_value qos) c.account.client_id) content
    c ← coap_add_message_in_map malloc h now m c
    coap_fire malloc h m c

  unfoldable pub send_coap_unsubscribe : ℕ → Bytes → CoapClient Table → Outcome (CoapClient Table)
  send_coap_unsubscribe now topic_name c = do
    let c = next_packet c
    let n = c.current_packet_number % 65536
    token ← number_text c.current_packet_number
    let m = request 1 n token (unsubscribe_options topic_name c.account.client_id) []
    c ← coap_add_message_in_map malloc h now m c
    coap_fire malloc h m c

  unfoldable pub send_coap_ack : CoapMessage → Bool → CoapClient Table → Outcome (CoapClient Table)
  send_coap_ack m is_ok c = coap_fire malloc h (coap_ack m is_ok c.account.client_id) c

  unfoldable pub fin_coap_client : CoapClient Table → CoapClient Table
  fin_coap_client c =
      let c = record_effects (connection_closed ∷ []) c in
      if c.init_connect
      then record_effects (connection_unsuccessful ∷ []) (record c { init_connect = false })
      else c

  -- What the connect timer does after five seconds.
  unfoldable pub coap_connect_task : CoapClient Table → CoapClient Table
  coap_connect_task c = if c.init_connect then fin_coap_client c else c
