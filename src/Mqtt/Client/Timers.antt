-- ===== src/Mqtt/Client/Timers.antt =====
-- src/mqtt/mqtt_timers.c. A thread that is started or cancelled is an entry of the log; one round of
-- the loop of each thread is a function. To cancel a thread that was never started is undefined.
use iotbroker_cloud_c_client.Base.{
  ℕ, zero, suc, ◌-◌, Option, none, some, List, [], ◌∷◌, if◌then◌else◌, ltb, Outcome, ok, ◌>>=◌,
  ◌>>◌, require, deref, Bytes,
}
use iotbroker_cloud_c_client.Base.HashTable.{HashTable}
use iotbroker_cloud_c_client.Mqtt.Packets.{Message, connect, publish, subscribe, unsubscribe}
use iotbroker_cloud_c_client.Mqtt.Fire.{encode_and_fire}
use iotbroker_cloud_c_client.Mqtt.Client.State.{
  Client, Entry, Timer, started, sent, timer_started, timer_stopped, connecter, pinger, messager,
  live, the_table, destroy, record_effects,
}

-- The key that a message is kept under.
unfoldable pub map_key : Message → Outcome ℕ
map_key (publish p) = deref p.packet_id
map_key (connect c) = ok 0
map_key (subscribe s) = ok s.packet_id
map_key (unsubscribe u) = ok u.packet_id
map_key _ = ok 0

module _ (malloc : ℕ → Bytes) (h : HashTable Entry) where
  open h use {Table, new, insert, lookup, remove, entries}

  unfoldable pub fire : Message → Client Table → Outcome (Client Table)
  fire m c = do bytes ← encode_and_fire malloc m; ok (record_effects (sent bytes ∷ []) c)

  -- A table that is there already is dropped.
  unfoldable pub start_connect_timer : Client Table → Client Table
  start_connect_timer c =
      record_effects (timer_started connecter ∷ [])
        (record c { messages_map = live new; threads = started connecter c.threads })

  unfoldable pub start_mqtt_ping_timer : ℕ → Client Table → Client Table
  start_mqtt_ping_timer delay c =
      record_effects (timer_started pinger ∷ [])
        (record c { delay_in_seconds = delay; threads = started pinger c.threads })

  unfoldable pub start_message_timer : Client Table → Client Table
  start_message_timer c =
      record_effects (timer_started messager ∷ [])
        (record c { threads = started messager c.threads })

  -- `pthread_cancel`
  unfoldable pub cancel : Timer → Client Table → Outcome (Client Table)
  cancel thread c = do require (c.threads thread); ok (record_effects (timer_stopped thread ∷ []) c)

  unfoldable pub stop_connect_timer : Client Table → Outcome (Client Table)
  stop_connect_timer c = cancel connecter c

  unfoldable pub stop_ping_timer : Client Table → Outcome (Client Table)
  stop_ping_timer c = do
    messages_map ← destroy c.messages_map
    cancel pinger (record c { messages_map = messages_map })

  unfoldable pub stop_message_timer : Client Table → Outcome (Client Table)
  stop_message_timer c = cancel messager c

  unfoldable pub stop_all_timers : Client Table → Outcome (Client Table)
  stop_all_timers c = do c ← stop_ping_timer c; stop_message_timer c

  -- `now` is what `time(NULL)` returns.
  unfoldable pub add_message_in_map : ℕ → Message → Client Table → Outcome (Client Table)
  add_message_in_map now m c = do
    packet_id ← map_key m
    t ← the_table c.messages_map
    let entry : Entry = record { message = m; time_stamp = now }
    ok (record c { messages_map = live (insert packet_id entry t) })

  unfoldable pub get_message_from_map : ℕ → Client Table → Outcome (Option Entry)
  get_message_from_map packet_id c = do t ← the_table c.messages_map; ok (lookup packet_id t)

  unfoldable pub remove_message_from_map : ℕ → Client Table → Outcome (Client Table)
  remove_message_from_map packet_id c = do
    t ← the_table c.messages_map
    ok (record c { messages_map = live (remove packet_id t) })

  -- The loop of `message_resend_task` over the table: what has waited for more than ten seconds is
  -- sent again. The time stamp stays.
  unfoldable pub resend_old : ℕ → List (ℕ × Entry) → Client Table → Outcome (Client Table)
  resend_old now [] c = ok c
  resend_old now ((key, e) ∷ es) c = do
    c ← if ltb 10 (now - e.time_stamp) then fire e.message c else ok c
    resend_old now es c

  unfoldable pub message_resend_round : ℕ → Client Table → Outcome (Client Table)
  message_resend_round now c = do t ← the_table c.messages_map; resend_old now (entries t) c

  -- One of the five rounds of `connect_task`.
  unfoldable pub connect_round : Client Table → Outcome (Client Table)
  connect_round c = do
    t ← the_table c.messages_map
    elim (lookup 0 t) as (λ o. Outcome (Client Table)) [ none ↦ ok c | some e ↦ fire e.message c ]

  unfoldable pub connect_task : ℕ → Client Table → Outcome (Client Table)
  connect_task zero c = ok c
  connect_task (suc rounds) c = do c ← connect_round c; connect_task rounds c
