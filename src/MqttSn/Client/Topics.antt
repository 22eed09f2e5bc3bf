-- ===== src/MqttSn/Client/Topics.antt =====
-- The invariant through the tables of topics and the timers.
use iotbroker_cloud_c_client.Base.{ℕ, ◌≡◌, refl, none, some, require, Bytes}
use iotbroker_cloud_c_client.Base.HashTable.{MapPointer, null, live, destroyed}
use iotbroker_cloud_c_client.Base.Kept.{Kept, Kept-ok, Kept-fault, Kept-step}
use iotbroker_cloud_c_client.MqttSn.Client.State.{Libraries, SnClient, connecter}
use iotbroker_cloud_c_client.MqttSn.Client.Timers.{
  cancel, sn_start_connect_timer, start_mqtt_sn_ping_timer, sn_stop_connect_timer,
  sn_stop_all_timers, sn_add_topic_id_in_map, sn_add_topic_name_in_map,
}
use iotbroker_cloud_c_client.MqttSn.Client.Receive.{add_topic}
use iotbroker_cloud_c_client.MqttSn.Client.Stopping.{sn_stop_all_timers-fault}
use iotbroker_cloud_c_client.MqttSn.Client.Sound.{ArePaired, IsSound, IsSound-same, AreNamed-insert}

module _ (w : Libraries) where
  pub Kept-add_topic :
      (name : Bytes) (id : ℕ) (c : SnClient w)
      → IsSound w c
      → Kept (IsSound w) (add_topic w name id c)
  unfolding add_topic sn_add_topic_id_in_map sn_add_topic_name_in_map
  Kept-add_topic name id c s =
      by_pointers c.topic_name_map c.reverse_topic_name_map refl refl s.topics_paired
    where
      by_pointers :
          (m : MapPointer w.topic_ids.Table) (r : MapPointer w.topic_names.Table)
          → c.topic_name_map ≡ m
          → c.reverse_topic_name_map ≡ r
          → ArePaired w m r
          → Kept (IsSound w) (add_topic w name id c)
      by_pointers (live ids) (live names) em er p =
          rw (em, er)
            (Kept-ok _ (record {
              messages_keyed = s.messages_keyed;
              topics_paired = AreNamed-insert w name id ids names p;
              no_messager = s.no_messager;
            }))
      by_pointers null r em er p = rw em Kept-fault
      by_pointers destroyed r em er p = rw em Kept-fault
      by_pointers (live ids) null em er p = absurd p
      by_pointers (live ids) destroyed em er p = absurd p

  pub start_connect_timer-IsSound :
      (c : SnClient w) → IsSound w c → IsSound w (sn_start_connect_timer w c)
  unfolding sn_start_connect_timer
  start_connect_timer-IsSound c s = record {
    messages_keyed =
        λ k e found. let empty : none ≡ some e = rw w.messages.lookup-new at found in cc;
    topics_paired = s.topics_paired;
    no_messager = s.no_messager;
  }

  pub start_ping_timer-IsSound :
      (delay : ℕ) (c : SnClient w) → IsSound w c → IsSound w (start_mqtt_sn_ping_timer w delay c)
  unfolding start_mqtt_sn_ping_timer
  start_ping_timer-IsSound delay c s = record {
    messages_keyed = s.messages_keyed;
    topics_paired = (
      λ name id found. let empty : none ≡ some id = rw w.topic_ids.lookup-new at found in cc,
      λ id name found. let empty : none ≡ some name = rw w.topic_names.lookup-new at found in cc,
    );
    no_messager = s.no_messager;
  }

  pub Kept-stop_connect_timer :
      (c : SnClient w) → IsSound w c → Kept (IsSound w) (sn_stop_connect_timer w c)
  unfolding sn_stop_connect_timer cancel
  Kept-stop_connect_timer c s =
      Kept-step (require (c.threads connecter)) _
        λ u. Kept-ok _ (IsSound-same w _ s refl refl refl refl)

  pub Kept-stop_all_timers :
      (c : SnClient w) → IsSound w c → Kept (IsSound w) (sn_stop_all_timers w c)
  Kept-stop_all_timers c s = rw (sn_stop_all_timers-fault w c s.no_messager) Kept-fault
