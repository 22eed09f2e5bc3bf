-- ===== src/MqttSn/Client/Timers.antt =====
-- src/mqttsn/mqtt_sn_timers.c. A thread that is started or cancelled is an entry of the log; one round
-- of the loop of each thread is a function. To cancel a thread that was never started is undefined.
use iotbroker_cloud_c_client.Base.{
  ℕ, zero, suc, ◌-◌, ◌%◌, Bool, true, not, Option, none, some, List, [], ◌∷◌, if◌then◌else◌, ltb,
  ◌==◌, Outcome, ok, ◌>>=◌, ◌>>◌, require, deref, Bytes,
}
use iotbroker_cloud_c_client.Base.HashTable.{live, the_table, destroy}
use iotbroker_cloud_c_client.MqttSn.Packets.{SnMessage, sn_publish, sn_subscribe, sn_unsubscribe}
use iotbroker_cloud_c_client.MqttSn.Encode.{sn_encode_and_fire}
use iotbroker_cloud_c_client.MqttSn.Client.State.{
  Libraries, SnClient, SnEntry, Timer, started, sent, timer_started, timer_stopped, connecter,
  pinger, messager, record_effects,
}

-- The key that a message is kept under: only these four types have a case, and CONNECT sets 0.
unfoldable pub sn_map_key : SnMessage → ℕ
sn_map_key (sn_publish p) = p.message_id
sn_map_key (sn_subscribe s) = s.message_id
sn_map_key (sn_unsubscribe u) = u.message_id
sn_map_key _ = 0

-- A PUBLISH whose topic has the id 0 waits for its REGACK.
unfoldable pub is_resent : SnMessage → Outcome Bool
is_resent (sn_publish p) = do id ← deref p.topic.id; ok (not (id == 0))
is_resent _ = ok true

module _ (w : Libraries) where
  unfoldable pub sn_fire : SnMessage → SnClient w → Outcome (SnClient w)
  sn_fire m c = do bytes ← sn_encode_and_fire w.malloc m; ok (record_effects (sent bytes ∷ []) c)

  -- A table that is there already is dropped.
  unfoldable pub sn_start_connect_timer : SnClient w → SnClient w
  sn_start_connect_timer c =
      record_effects (timer_started connecter ∷ [])
        (record c { messages_map = live w.messages.new; threads = started connecter c.threads })

  unfoldable pub start_mqtt_sn_ping_timer : ℕ → SnClient w → SnClient w
  start_mqtt_sn_ping_timer delay c = record_effects (timer_started pinger ∷ []) (record c {
    topic_name_map = live w.topic_ids.new;
    reverse_topic_name_map = live w.topic_names.new;
    ping_delay = delay;
    threads = started pinger c.threads;
  })

  -- `pthread_cancel`
  unfoldable pub cancel : Timer → SnClient w → Outcome (SnClient w)
  cancel thread c = do require (c.threads thread); ok (record_effects (timer_stopped thread ∷ []) c)

  unfoldable pub sn_stop_connect_timer : SnClient w → Outcome (SnClient w)
  sn_stop_connect_timer c = cancel connecter c

  unfoldable pub sn_stop_ping_timer : SnClient w → Outcome (SnClient w)
  sn_stop_ping_timer c = do
    messages_map ← destroy c.messages_map
    topic_name_map ← destroy c.topic_name_map
    reverse_topic_name_map ← destroy c.reverse_topic_name_map
    cancel pinger (record c {
      messages_map = messages_map;
      topic_name_map = topic_name_map;
      reverse_topic_name_map = reverse_topic_name_map;
    })

  unfoldable pub sn_stop_message_timer : SnClient w → Outcome (SnClient w)
  sn_stop_message_timer c = cancel messager c

  unfoldable pub sn_stop_all_timers : SnClient w → Outcome (SnClient w)
  sn_stop_all_timers c = do
    c ← sn_stop_connect_timer c
    c ← sn_stop_ping_timer c
    sn_stop_message_timer c

  -- `now` is what `time(NULL)` returns.
  unfoldable pub sn_add_message_in_map : ℕ → SnMessage → SnClient w → Outcome (SnClient w)
  sn_add_message_in_map now m c = do
    t ← the_table c.messages_map
    let entry : SnEntry = record { message = m; time_stamp = now }
    ok (record c { messages_map = live (w.messages.insert (sn_map_key m) entry t) })

  unfoldable pub sn_get_message_from_map : ℕ → SnClient w → Outcome (Option SnEntry)
  sn_get_message_from_map packet_id c = do
    t ← the_table c.messages_map
    ok (w.messages.lookup packet_id t)

  unfoldable pub sn_remove_message_from_map : ℕ → SnClient w → Outcome (SnClient w)
  sn_remove_message_from_map packet_id c = do
    t ← the_table c.messages_map
    ok (record c { messages_map = live (w.messages.remove packet_id t) })

  unfoldable pub sn_add_topic_id_in_map : Bytes → ℕ → SnClient w → Outcome (SnClient w)
  sn_add_topic_id_in_map topic_name topic_id c = do
    t ← the_table c.topic_name_map
    ok (record c { topic_name_map = live (w.topic_ids.insert topic_name topic_id t) })

  unfoldable pub sn_add_topic_name_in_map : ℕ → Bytes → SnClient w → Outcome (SnClient w)
  sn_add_topic_name_in_map topic_id topic_name c = do
    t ← the_table c.reverse_topic_name_map
    ok (record c { reverse_topic_name_map = live (w.topic_names.insert topic_id topic_name t) })

  -- 0 stands for a name that the table has not.
  abbrev pub id_or_zero : Option ℕ → ℕ
  id_or_zero none = 0
  id_or_zero (some id) = id % 65536

  unfoldable pub sn_get_topic_id_from_map : Bytes → SnClient w → Outcome ℕ
  sn_get_topic_id_from_map topic_name c = do
    t ← the_table c.topic_name_map
    ok (id_or_zero (w.topic_ids.lookup topic_name t))

  unfoldable pub sn_get_topic_name_from_map : ℕ → SnClient w → Outcome (Option Bytes)
  sn_get_topic_name_from_map topic_id c = do
    t ← the_table c.reverse_topic_name_map
    ok (w.topic_names.lookup topic_id t)

  -- The loop of `message_resend_task` over the table.
  unfoldable pub sn_resend_old : ℕ → List (ℕ × SnEntry) → SnClient w → Outcome (SnClient w)
  sn_resend_old now [] c = ok c
  sn_resend_old now ((key, e) ∷ es) c = do
    c ←
        if ltb 10 (now - e.time_stamp)
        then (do resent ← is_resent e.message; (if resent then sn_fire e.message c else ok c))
        else ok c
    sn_resend_old now es c

  unfoldable pub sn_message_resend_round : ℕ → SnClient w → Outcome (SnClient w)
  sn_message_resend_round now c = do
    t ← the_table c.messages_map
    sn_resend_old now (w.messages.entries t) c

  -- A round of the loop of `connect_task`, and as many rounds as are left.
  unfoldable pub sn_connect_round : SnClient w → Outcome (SnClient w)
  sn_connect_round c = do
    t ← the_table c.messages_map
    elim (w.messages.lookup 0 t) as (λ o. Outcome (SnClient w)) [
      | none ↦ ok c
      | some e ↦ sn_fire e.message c
    ]

  unfoldable pub sn_connect_rounds : ℕ → SnClient w → Outcome (SnClient w)
  sn_connect_rounds zero c = ok c
  sn_connect_rounds (suc rounds) c = do c ← sn_connect_round c; sn_connect_rounds rounds c
