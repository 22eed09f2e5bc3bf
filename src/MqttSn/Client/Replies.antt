-- ===== src/MqttSn/Client/Replies.antt =====
-- The invariant through `process_sn_rx`, case by case.
use iotbroker_cloud_c_client.Base.{ℕ, refl, Option, none, some, ◌==◌, deref, Bytes}
use iotbroker_cloud_c_client.Base.Kept.{Kept, Kept-ok, Kept-fault, Kept->>=, Kept-step, Kept-if}
use iotbroker_cloud_c_client.MqttSn.Packets.{
  SnRegister, SnRegAck, SnPublish, SnSubscribe, SnSuback, SnMessage, sn_advertise, sn_searchgw,
  sn_gwinfo, sn_connect, sn_connack, sn_will_topic_req, sn_will_topic, sn_will_msg_req, sn_will_msg,
  sn_register, sn_regack, sn_publish, sn_puback, sn_pubcomp, sn_pubrec, sn_pubrel, sn_subscribe,
  sn_suback, sn_unsubscribe, sn_unsuback, sn_pingreq, sn_pingresp, sn_disconnect, sn_will_topic_upd,
  sn_will_topic_resp, sn_will_msg_upd, sn_will_msg_resp, sn_encapsulated,
}
use iotbroker_cloud_c_client.MqttSn.Decode.{SnDecoded, received, incomplete, sn_decode}
use iotbroker_cloud_c_client.MqttSn.Client.State.{Libraries, SnClient}
use iotbroker_cloud_c_client.MqttSn.Client.Timers.{sn_map_key, sn_get_topic_name_from_map}
use iotbroker_cloud_c_client.MqttSn.Client.Send.{
  sn_delivery_of, next_packet, send_sn_publish, send_will_topic, send_will_message, send_sn_pubrel,
  send_sn_puback, send_sn_pubrec, send_sn_pubcomp, send_sn_regack, fin_mqtt_sn_client,
}
use iotbroker_cloud_c_client.MqttSn.Client.Receive.{
  as_publish, as_subscribe, as_unsubscribe, on_connack, on_register, previous, on_registered,
  on_regack, on_publish, save_delivery, list_topic, on_puback, on_pubcomp, on_suback, topic_name_of,
  on_unsuback, handle_sn_message, handle_sn_decoded, process_sn_rx,
}
use iotbroker_cloud_c_client.MqttSn.Client.Sound.{
  IsSound, IsSound-same, Kept-fire, Kept-add, Kept-remove, Kept-get,
}
use iotbroker_cloud_c_client.MqttSn.Client.Topics.{
  Kept-add_topic, start_ping_timer-IsSound, Kept-stop_connect_timer, Kept-stop_all_timers,
}

module _ (w : Libraries) where
  pub Kept-send_sn_publish :
      (now : ℕ) (p : SnPublish) (c : SnClient w)
      → IsSound w c
      → Kept (IsSound w) (send_sn_publish w now p c)
  unfolding sn_map_key send_sn_publish next_packet
  Kept-send_sn_publish now p c s =
      Kept->>= _ _ (Kept-fire w _ _ (IsSound-same w _ s refl refl refl refl)) λ c s.
        Kept-if (p.topic.qos == 0)
          (Kept-step (sn_delivery_of _) _ λ d. Kept-ok _ (IsSound-same w _ s refl refl refl refl))
          (Kept-add w now _ c refl s)

  Kept-on_connack :
      (code : ℕ) (c : SnClient w) → IsSound w c → Kept (IsSound w) (on_connack w code c)
  unfolding on_connack
  Kept-on_connack code c s = Kept->>= _ _ (Kept-stop_connect_timer w c s) λ c s.
      Kept->>= _ _ (Kept-remove w 0 c s) λ c s.
        Kept-if (code == 0)
          (Kept-ok _ (start_ping_timer-IsSound w _ _ (IsSound-same w _ s refl refl refl refl)))
          (Kept-ok c s)

  Kept-on_register :
      (r : SnRegister) (c : SnClient w) → IsSound w c → Kept (IsSound w) (on_register w r c)
  unfolding on_register send_sn_regack
  Kept-on_register r c s =
      Kept-step (deref r.topic_name) _
        λ name. Kept->>= _ _ (Kept-add_topic w name r.topic_id c s) λ c s. Kept-fire w _ c s

  Kept-on_regack :
      (now : ℕ) (ra : SnRegAck) (c : SnClient w)
      → IsSound w c
      → Kept (IsSound w) (on_regack w now ra c)
  unfolding on_regack on_registered
  Kept-on_regack now ra c s = Kept-get w (previous w ra.message_id) c _ (Kept-ok c s) λ e.
      Kept->>= _ _
        (Kept-if (ra.code == 0)
          (Kept-step (as_publish e.message) _ λ p. Kept-step (deref p.topic.value) _ λ name.
            Kept->>= _ _ (Kept-add_topic w name ra.topic_id c s)
              λ c s. Kept-send_sn_publish now _ c s)
          (Kept-ok c s))
        λ c s.
          Kept->>= _ _ (Kept-remove w (previous w ra.message_id) c s)
            λ c s. Kept-remove w ra.message_id c s

  Kept-on_publish :
      (p : SnPublish) (c : SnClient w) → IsSound w c → Kept (IsSound w) (on_publish w p c)
  unfolding on_publish send_sn_puback send_sn_pubrec
  Kept-on_publish p c s = Kept-step (deref p.topic.id) _ λ id.
      Kept-step (sn_get_topic_name_from_map w id c) _ λ name.
        Kept-step (deref p.data_text) _ λ content.
          let s' = IsSound-same w _ s refl refl refl refl in
          Kept-if (p.topic.qos == 1) (Kept-fire w _ _ s')
            (Kept-if (p.topic.qos == 2) (Kept-fire w _ _ s') (Kept-ok _ s'))

  Kept-save_delivery :
      (p : SnPublish) (c : SnClient w) → IsSound w c → Kept (IsSound w) (save_delivery w p c)
  Kept-save_delivery p c s =
      Kept-step (sn_delivery_of p) _ λ d.
        Kept-step (deref p.is_incoming) _ λ b. Kept-ok _ (IsSound-same w _ s refl refl refl refl)

  Kept-on_puback : (n : ℕ) (c : SnClient w) → IsSound w c → Kept (IsSound w) (on_puback w n c)
  unfolding on_puback
  Kept-on_puback n c s = Kept-get w n c _ (Kept-ok c s) λ e.
      Kept-step (as_publish e.message) _
        λ p. Kept->>= _ _ (Kept-save_delivery p c s) λ c s. Kept-remove w n c s

  Kept-on_pubcomp : (n : ℕ) (c : SnClient w) → IsSound w c → Kept (IsSound w) (on_pubcomp w n c)
  unfolding on_pubcomp
  Kept-on_pubcomp n c s = Kept-get w n c _ Kept-fault λ e.
      Kept-step (as_publish e.message) _
        λ p. Kept->>= _ _ (Kept-save_delivery p c s) λ c s. Kept-remove w p.message_id c s

  Kept-list_topic :
      (sa : SnSuback) (sub : SnSubscribe) (found : Option Bytes) (c : SnClient w)
      → IsSound w c
      → Kept (IsSound w) (list_topic w sa sub found c)
  unfolding list_topic
  Kept-list_topic sa sub none c s = Kept-step (deref sub.topic.value) _ λ value.
      Kept->>= _ _ (Kept-add_topic w value sa.topic_id c s)
        λ c s. Kept-ok _ (IsSound-same w _ s refl refl refl refl)
  Kept-list_topic sa sub (some name) c s = Kept-ok _ (IsSound-same w _ s refl refl refl refl)

  Kept-on_suback :
      (sa : SnSuback) (c : SnClient w) → IsSound w c → Kept (IsSound w) (on_suback w sa c)
  unfolding on_suback
  Kept-on_suback sa c s = Kept-get w sa.message_id c _ (Kept-ok c s) λ e.
      Kept->>= _ _
        (Kept-if (sa.code == 0)
          (Kept-step (as_subscribe e.message) _ λ sub.
            Kept-step (sn_get_topic_name_from_map w sa.topic_id c) _
              λ found. Kept-list_topic sa sub found c s)
          (Kept-ok _ (IsSound-same w _ s refl refl refl refl)))
        λ c s. Kept-remove w sa.message_id c s

  Kept-on_unsuback : (n : ℕ) (c : SnClient w) → IsSound w c → Kept (IsSound w) (on_unsuback w n c)
  unfolding on_unsuback
  Kept-on_unsuback n c s = Kept-get w n c _ Kept-fault λ e.
      Kept-step (as_unsubscribe e.message) _ λ u.
        Kept-step (topic_name_of w u.topic c) _
          λ name. Kept-remove w u.message_id _ (IsSound-same w _ s refl refl refl refl)

  pub Kept-fin : (c : SnClient w) → IsSound w c → Kept (IsSound w) (fin_mqtt_sn_client w c)
  unfolding fin_mqtt_sn_client
  Kept-fin c s = Kept-if c.is_disconnect_sent (Kept-ok c s) (
      Kept->>= _ _ (Kept-stop_all_timers w c s)
        λ c s. Kept-ok _ (IsSound-same w _ s refl refl refl refl))

  Kept-handle_sn_message :
      (now : ℕ) (m : SnMessage) (c : SnClient w)
      → IsSound w c
      → Kept (IsSound w) (handle_sn_message w now m c)
  unfolding handle_sn_message send_will_topic send_will_message send_sn_pubrel send_sn_pubcomp
  Kept-handle_sn_message now (sn_connack code) c s = Kept-on_connack code c s
  Kept-handle_sn_message now sn_will_topic_req c s = Kept-fire w _ c s
  Kept-handle_sn_message now sn_will_msg_req c s = Kept-fire w _ c s
  Kept-handle_sn_message now (sn_register r) c s = Kept-on_register r c s
  Kept-handle_sn_message now (sn_regack r) c s = Kept-on_regack now r c s
  Kept-handle_sn_message now (sn_publish p) c s = Kept-on_publish p c s
  Kept-handle_sn_message now (sn_puback p) c s = Kept-on_puback p.message_id c s
  Kept-handle_sn_message now (sn_pubcomp n) c s = Kept-on_pubcomp n c s
  Kept-handle_sn_message now (sn_pubrec n) c s = Kept-fire w _ c s
  Kept-handle_sn_message now (sn_pubrel n) c s = Kept-fire w _ c s
  Kept-handle_sn_message now (sn_suback sa) c s = Kept-on_suback sa c s
  Kept-handle_sn_message now (sn_unsuback n) c s = Kept-on_unsuback n c s
  Kept-handle_sn_message now (sn_disconnect d) c s = Kept-fin c s
  Kept-handle_sn_message now (sn_advertise g d) c s = Kept-ok c s
  Kept-handle_sn_message now (sn_searchgw r) c s = Kept-ok c s
  Kept-handle_sn_message now (sn_gwinfo g a) c s = Kept-ok c s
  Kept-handle_sn_message now (sn_connect p) c s = Kept-ok c s
  Kept-handle_sn_message now (sn_will_topic p) c s = Kept-ok c s
  Kept-handle_sn_message now (sn_will_msg p) c s = Kept-ok c s
  Kept-handle_sn_message now (sn_subscribe p) c s = Kept-ok c s
  Kept-handle_sn_message now (sn_unsubscribe p) c s = Kept-ok c s
  Kept-handle_sn_message now (sn_pingreq p) c s = Kept-ok c s
  Kept-handle_sn_message now sn_pingresp c s = Kept-ok c s
  Kept-handle_sn_message now (sn_will_topic_upd p) c s = Kept-ok c s
  Kept-handle_sn_message now (sn_will_topic_resp p) c s = Kept-ok c s
  Kept-handle_sn_message now (sn_will_msg_upd p) c s = Kept-ok c s
  Kept-handle_sn_message now (sn_will_msg_resp p) c s = Kept-ok c s
  Kept-handle_sn_message now (sn_encapsulated p) c s = Kept-ok c s

  Kept-handle_sn_decoded :
      (now : ℕ) (d : SnDecoded) (c : SnClient w)
      → IsSound w c
      → Kept (IsSound w) (handle_sn_decoded w now d c)
  unfolding handle_sn_decoded
  Kept-handle_sn_decoded now (received m) c s = Kept-handle_sn_message now m c s
  Kept-handle_sn_decoded now (incomplete type) c s = Kept-ok c s

  pub Kept-process_sn_rx :
      (now : ℕ) (buf : Bytes) (c : SnClient w)
      → IsSound w c
      → Kept (IsSound w) (process_sn_rx w now buf c)
  unfolding process_sn_rx
  Kept-process_sn_rx now buf c s = Kept-step (sn_decode buf) _ λ d. Kept-handle_sn_decoded now d c s
