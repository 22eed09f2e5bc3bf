-- ===== src/MqttSn/Client/Calls.antt =====
-- The invariant through the calls of the user and of the timers.
use iotbroker_cloud_c_client.Base.{
  ℕ, zero, suc, ◌-◌, ◌%◌, refl, Bool, Option, none, some, List, [], ◌∷◌, ltb, ◌==◌, Outcome, ok,
  Bytes,
}
use iotbroker_cloud_c_client.Base.HashTable.{the_table}
use iotbroker_cloud_c_client.Base.Kept.{Kept, Kept-ok, Kept->>=, Kept-step, Kept-if}
use iotbroker_cloud_c_client.MqttSn.Packets.{sn_disconnect}
use iotbroker_cloud_c_client.MqttSn.Client.State.{Account, Libraries, SnClient, SnEntry}
use iotbroker_cloud_c_client.MqttSn.Client.Timers.{
  sn_map_key, sn_fire, is_resent, sn_resend_old, sn_message_resend_round, sn_connect_round,
  sn_connect_rounds, sn_get_topic_id_from_map,
}
use iotbroker_cloud_c_client.MqttSn.Client.Send.{
  next_packet, send_sn_connect, send_sn_subscribe, send_sn_register, send_sn_message,
  send_sn_unsubscribe, send_sn_disconnect, sn_connect_task,
}
use iotbroker_cloud_c_client.MqttSn.Client.Sound.{IsSound, IsSound-same, Kept-fire, Kept-add}
use iotbroker_cloud_c_client.MqttSn.Client.Topics.{
  start_connect_timer-IsSound, Kept-stop_all_timers,
}
use iotbroker_cloud_c_client.MqttSn.Client.Replies.{Kept-send_sn_publish, Kept-fin}

module _ (w : Libraries) where
  numbered-IsSound : (c : SnClient w) → IsSound w c → IsSound w (next_packet w c)
  unfolding next_packet
  numbered-IsSound c s = IsSound-same w _ s refl refl refl refl

  pub Kept-send_sn_connect :
      (now : ℕ) (a : Account) (c : SnClient w)
      → IsSound w c
      → Kept (IsSound w) (send_sn_connect w now a c)
  unfolding sn_map_key send_sn_connect
  Kept-send_sn_connect now a c s =
      Kept->>= _ _ (Kept-fire w _ _ (IsSound-same w _ s refl refl refl refl))
        λ c s. Kept-add w now _ _ refl (start_connect_timer-IsSound w c s)

  pub Kept-send_sn_subscribe :
      (now : ℕ) (name : Bytes) (qos : ℕ) (c : SnClient w)
      → IsSound w c
      → Kept (IsSound w) (send_sn_subscribe w now name qos c)
  unfolding sn_map_key send_sn_subscribe
  Kept-send_sn_subscribe now name qos c s =
      Kept-step (sn_get_topic_id_from_map w name c) _
        λ id. Kept->>= _ _ (Kept-add w now _ _ refl (numbered-IsSound c s)) λ c s. Kept-fire w _ c s

  pub Kept-send_sn_unsubscribe :
      (now : ℕ) (name : Bytes) (c : SnClient w)
      → IsSound w c
      → Kept (IsSound w) (send_sn_unsubscribe w now name c)
  unfolding sn_map_key send_sn_unsubscribe
  Kept-send_sn_unsubscribe now name c s =
      Kept-step (sn_get_topic_id_from_map w name c) _
        λ id. Kept->>= _ _ (Kept-add w now _ _ refl (numbered-IsSound c s)) λ c s. Kept-fire w _ c s

  Kept-send_sn_register :
      (now : ℕ) (name : Bytes) (c : SnClient w)
      → IsSound w c
      → Kept (IsSound w) (send_sn_register w now name c)
  unfolding sn_map_key send_sn_register
  Kept-send_sn_register now name c s =
      Kept->>= _ _ (Kept-add w now _ _ refl (numbered-IsSound c s)) λ c s. Kept-fire w _ c s

  pub Kept-send_sn_message :
      (now : ℕ) (content name : Bytes) (qos : ℕ) (retain dup : Bool) (c : SnClient w)
      → IsSound w c
      → Kept (IsSound w) (send_sn_message w now content name qos retain dup c)
  unfolding sn_map_key send_sn_message
  Kept-send_sn_message now content name qos retain dup c s =
      Kept-step (sn_get_topic_id_from_map w name c) _ λ id.
        Kept-if (id == 0)
          (Kept->>= _ _ (Kept-add w now _ _ refl (numbered-IsSound c s))
            λ c s. Kept-send_sn_register now name c s)
          (Kept-send_sn_publish w now _ _ (numbered-IsSound c s))

  pub Kept-send_sn_disconnect :
      (c : SnClient w) → IsSound w c → Kept (IsSound w) (send_sn_disconnect w c)
  unfolding send_sn_disconnect
  Kept-send_sn_disconnect c s =
      Kept->>= _ _ (Kept-stop_all_timers w _ (IsSound-same w _ s refl refl refl refl)) λ c s.
        Kept->>= _ _ (Kept-fire w (sn_disconnect (c.account.keep_alive % 65536)) c s)
          λ c s. Kept-ok _ (IsSound-same w _ s refl refl refl refl)

  Kept-resend_old :
      (now : ℕ) (es : List (ℕ × SnEntry)) (c : SnClient w)
      → IsSound w c
      → Kept (IsSound w) (sn_resend_old w now es c)
  unfolding sn_resend_old
  Kept-resend_old now [] c s = Kept-ok c s
  Kept-resend_old now ((key, e) ∷ es) c s =
      Kept->>= _ _
        (Kept-if (ltb 10 (now - e.time_stamp))
          (Kept-step (is_resent e.message) _
            λ resent. Kept-if resent (Kept-fire w e.message c s) (Kept-ok c s))
          (Kept-ok c s))
        λ c s. Kept-resend_old now es c s

  pub Kept-message_resend_round :
      (now : ℕ) (c : SnClient w) → IsSound w c → Kept (IsSound w) (sn_message_resend_round w now c)
  unfolding sn_message_resend_round
  Kept-message_resend_round now c s =
      Kept-step (the_table c.messages_map) _ λ t. Kept-resend_old now (w.messages.entries t) c s

  Kept-connect_round : (c : SnClient w) → IsSound w c → Kept (IsSound w) (sn_connect_round w c)
  unfolding sn_connect_round
  Kept-connect_round c s =
      Kept-step (the_table c.messages_map) _ λ t. sent_again (w.messages.lookup 0 t)
    where
      sent_again :
          (o : Option SnEntry)
          → Kept (IsSound w) (elim o as (λ o. Outcome (SnClient w)) [
            | none ↦ ok c
            | some e ↦ sn_fire w e.message c
          ])
      sent_again none = Kept-ok c s
      sent_again (some e) = Kept-fire w e.message c s

  Kept-connect_rounds :
      (rounds : ℕ) (c : SnClient w) → IsSound w c → Kept (IsSound w) (sn_connect_rounds w rounds c)
  unfolding sn_connect_rounds
  Kept-connect_rounds zero c s = Kept-ok c s
  Kept-connect_rounds (suc rounds) c s =
      Kept->>= _ _ (Kept-connect_round c s) λ c s. Kept-connect_rounds rounds c s

  pub Kept-connect_task : (c : SnClient w) → IsSound w c → Kept (IsSound w) (sn_connect_task w c)
  unfolding sn_connect_task
  Kept-connect_task c s = Kept->>= _ _ (Kept-connect_rounds 5 c s) λ c s. Kept-fin w c s
