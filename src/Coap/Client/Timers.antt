-- ===== src/Coap/Client/Timers.antt =====
-- src/coap/coap_timers.c. A thread that is started or cancelled is an entry of the log; one round of the
-- loop of each thread is a function.
use iotbroker_cloud_c_client.Base.{
  ℕ, ◌-◌, Option, List, [], ◌∷◌, if◌then◌else◌, ltb, Outcome, ok, ◌>>=◌, Bytes,
}
use iotbroker_cloud_c_client.Base.HashTable.{HashTable, live, destroyed, the_table}
use iotbroker_cloud_c_client.Coap.Packets.{CoapMessage}
use iotbroker_cloud_c_client.Coap.Encode.{coap_encode_and_fire}
use iotbroker_cloud_c_client.Coap.Client.State.{
  CoapClient, CoapEntry, sent, timer_started, timer_stopped, connecter, pinger, messager,
  record_effects,
}

module _ (malloc : ℕ → Bytes) (h : HashTable CoapEntry) where
  open h use {Table, new, insert, lookup, remove, entries}

  unfoldable pub coap_fire : CoapMessage → CoapClient Table → Outcome (CoapClient Table)
  coap_fire m c = do bytes ← coap_encode_and_fire malloc m; ok (record_effects (sent bytes ∷ []) c)

  unfoldable pub start_coap_connect_timer : CoapClient Table → CoapClient Table
  start_coap_connect_timer c = record_effects (timer_started connecter ∷ []) c

  unfoldable pub stop_coap_connect_timer : CoapClient Table → CoapClient Table
  stop_coap_connect_timer c = record_effects (timer_stopped connecter ∷ []) c

  unfoldable pub start_coap_ping_timer : ℕ → CoapClient Table → CoapClient Table
  start_coap_ping_timer delay c =
      record_effects (timer_started pinger ∷ []) (record c { ping_delay = delay })

  -- A table that is there already is dropped.
  unfoldable pub coap_start_message_timer : CoapClient Table → CoapClient Table
  coap_start_message_timer c =
      record_effects (timer_started messager ∷ []) (record c { messages_map = live new })

  -- The table is destroyed without a test, and its pointer stays. There is a table only where the three
  -- threads have been started, by `coap_connect` and by the first packet behind it, so that no thread is
  -- cancelled here that is not there.
  unfoldable pub coap_stop_ping_timer : CoapClient Table → Outcome (CoapClient Table)
  coap_stop_ping_timer c = do
    t ← the_table c.messages_map
    ok (record_effects (timer_stopped pinger ∷ []) (record c { messages_map = destroyed }))

  unfoldable pub coap_stop_message_timer : CoapClient Table → CoapClient Table
  coap_stop_message_timer c = record_effects (timer_stopped messager ∷ []) c

  unfoldable pub coap_stop_all_timers : CoapClient Table → Outcome (CoapClient Table)
  coap_stop_all_timers c = do
    c ← coap_stop_ping_timer (stop_coap_connect_timer c)
    ok (coap_stop_message_timer c)

  -- `now` is what `time(NULL)` returns, and `m` is what is left of the message when the caller returns.
  unfoldable pub coap_add_message_in_map :
      ℕ → CoapMessage → CoapClient Table → Outcome (CoapClient Table)
  coap_add_message_in_map now m c = do
    t ← the_table c.messages_map
    let entry : CoapEntry = record { message = m; time_stamp = now }
    ok (record c { messages_map = live (insert m.message_id entry t) })

  unfoldable pub coap_get_message_from_map : ℕ → CoapClient Table → Outcome (Option CoapEntry)
  coap_get_message_from_map packet_id c = do t ← the_table c.messages_map; ok (lookup packet_id t)

  unfoldable pub coap_remove_message_from_map : ℕ → CoapClient Table → Outcome (CoapClient Table)
  coap_remove_message_from_map packet_id c = do
    t ← the_table c.messages_map
    ok (record c { messages_map = live (remove packet_id t) })

  -- The loop of `coap_message_resend_task` over the table.
  unfoldable pub coap_resend_old :
      ℕ → List (ℕ × CoapEntry) → CoapClient Table → Outcome (CoapClient Table)
  coap_resend_old now [] c = ok c
  coap_resend_old now ((key, e) ∷ es) c = do
    c ← if ltb 10 (now - e.time_stamp) then coap_fire e.message c else ok c
    coap_resend_old now es c

  unfoldable pub coap_message_resend_round : ℕ → CoapClient Table → Outcome (CoapClient Table)
  coap_message_resend_round now c = do
    t ← the_table c.messages_map
    coap_resend_old now (entries t) c
