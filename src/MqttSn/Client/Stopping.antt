-- ===== src/MqttSn/Client/Stopping.antt =====
-- The timers of the MQTT-SN client, stopped together where the resend thread was never started.
use iotbroker_cloud_c_client.Base.{
  ◌≡◌, refl, ap, sym, ◌∙◌, Bool, false, inl, inr, Bool-cases, [], ◌∷◌, ok, refused, fault,
  >>=-eq-ok, >>=-fault, >>=-unrefused,
}
use iotbroker_cloud_c_client.Base.HashTable.{MapPointer, null, live, destroyed, destroy}
use iotbroker_cloud_c_client.MqttSn.Client.State.{
  Libraries, SnClient, Timer, connecter, pinger, messager, timer_stopped, record_effects,
}
use iotbroker_cloud_c_client.MqttSn.Client.Timers.{
  cancel, sn_stop_connect_timer, sn_stop_ping_timer, sn_stop_message_timer, sn_stop_all_timers,
}

destroy-unrefused : {Table : Type 0} (m : MapPointer Table) → ¬ (destroy m ≡ refused)
destroy-unrefused null e = cc
destroy-unrefused (live t) e = cc
destroy-unrefused destroyed e = cc

module _ (w : Libraries) where
  cancel-unrefused : (thread : Timer) (c : SnClient w) → ¬ (cancel w thread c ≡ refused)
  unfolding cancel
  cancel-unrefused thread c e = elim (Bool-cases (c.threads thread)) [
    | inl set ↦ let e' = rw set at e in cc
    | inr unset ↦ let e' = rw unset at e in cc
  ]

  cancel-threads :
      (thread : Timer) (c c' : SnClient w) → cancel w thread c ≡ ok c' → c'.threads ≡ c.threads
  unfolding cancel
  cancel-threads thread c c' e = elim (Bool-cases (c.threads thread)) [
    | inl set ↦
        let e' = rw set at e in
        let same : record_effects (timer_stopped thread ∷ []) c ≡ c' = cc in
        ap (λ (x : SnClient w). x.threads) (sym same)
    | inr unset ↦ let e' = rw unset at e in cc
  ]

  sn_stop_ping_timer-unrefused : (c : SnClient w) → ¬ (sn_stop_ping_timer w c ≡ refused)
  unfolding sn_stop_ping_timer
  sn_stop_ping_timer-unrefused c =
      >>=-unrefused (destroy c.messages_map) _ (destroy-unrefused c.messages_map) λ m.
        >>=-unrefused (destroy c.topic_name_map) _ (destroy-unrefused c.topic_name_map) λ ids.
          >>=-unrefused (destroy c.reverse_topic_name_map) _
            (destroy-unrefused c.reverse_topic_name_map) λ names. cancel-unrefused pinger _

  sn_stop_ping_timer-threads :
      (c c' : SnClient w) → sn_stop_ping_timer w c ≡ ok c' → c'.threads ≡ c.threads
  unfolding sn_stop_ping_timer
  sn_stop_ping_timer-threads c c' e =
      let (m, _, e₁) = >>=-eq-ok (destroy c.messages_map) _ e in
      let (ids, _, e₂) = >>=-eq-ok (destroy c.topic_name_map) _ e₁ in
      let (names, _, e₃) = >>=-eq-ok (destroy c.reverse_topic_name_map) _ e₂ in
      cancel-threads pinger _ c' e₃

  cancel-fault :
      (thread : Timer) (c : SnClient w) → c.threads thread ≡ false → cancel w thread c ≡ fault
  unfolding cancel
  cancel-fault thread c unset = rw unset refl

  pub sn_stop_all_timers-fault :
      (c : SnClient w) → c.threads messager ≡ false → sn_stop_all_timers w c ≡ fault
  unfolding sn_stop_all_timers sn_stop_connect_timer sn_stop_message_timer
  sn_stop_all_timers-fault c unset =
      >>=-fault (sn_stop_connect_timer w c) _ (cancel-unrefused connecter c) λ c₁ e₁.
        >>=-fault (sn_stop_ping_timer w c₁) _ (sn_stop_ping_timer-unrefused c₁) λ c₂ e₂.
          let same = sn_stop_ping_timer-threads c₁ c₂ e₂ ∙ cancel-threads connecter c c₁ e₁ in
          cancel-fault messager c₂ (ap (λ (f : Timer → Bool). f messager) same ∙ unset)
