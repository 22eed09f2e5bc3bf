-- ===== src/MqttSn/Client/Sound.antt =====
-- An invariant of the MQTT-SN client: every message stands under its key, the resend thread has not been
-- started, and the two tables of topics
-- agree on which topics there are.
use iotbroker_cloud_c_client.Base.{
  ℕ, ◌≡◌, refl, sym, ◌∙◌, subst, false, Option, none, some, inl, inr, ◌==◌, ==_iff, same_text,
  same_text_refl, Bool-cases, Outcome, ◌>>=◌, Bytes,
}
use iotbroker_cloud_c_client.Base.HashTable.{
  MapPointer, null, live, destroyed, the_table, lookup-insert_same,
}
use iotbroker_cloud_c_client.Base.Kept.{Kept, Kept-ok, Kept-fault, Kept-step, Kept-found}
use iotbroker_cloud_c_client.MqttSn.Packets.{
  SnMessage, sn_publish, sn_subscribe, sn_unsubscribe, sn_connect, sn_register,
}
use iotbroker_cloud_c_client.MqttSn.Encode.{sn_encode_and_fire}
use iotbroker_cloud_c_client.MqttSn.Client.State.{Libraries, SnClient, SnEntry, messager}
use iotbroker_cloud_c_client.MqttSn.Client.Timers.{
  sn_fire, sn_map_key, sn_add_message_in_map, sn_get_message_from_map, sn_remove_message_from_map,
}

-- The packet id of the three messages that wait for an answer of their own, and 0 for CONNECT and
-- REGISTER; no other message is kept.
abbrev pub IsKeyOf : ℕ → SnMessage → Type 0
IsKeyOf k (sn_publish p) = p.message_id ≡ k
IsKeyOf k (sn_subscribe s) = s.message_id ≡ k
IsKeyOf k (sn_unsubscribe u) = u.message_id ≡ k
IsKeyOf k (sn_connect c) = k ≡ 0
IsKeyOf k (sn_register r) = k ≡ 0
IsKeyOf k _ = ⊥

module _ (w : Libraries) where
  abbrev pub IsKeyed : MapPointer w.messages.Table → Type 0
  IsKeyed (live t) = (k : ℕ) (e : SnEntry) → w.messages.lookup k t ≡ some e → IsKeyOf k e.message
  IsKeyed null = Unit
  IsKeyed destroyed = Unit

  -- A name with an id has an id with a name, and the other way round.
  abbrev pub AreNamed : w.topic_ids.Table → w.topic_names.Table → Type 0
  AreNamed ids names =
      ((name : Bytes) (id : ℕ)
        → w.topic_ids.lookup name ids ≡ some id
        → (other : Bytes) × (w.topic_names.lookup id names ≡ some other))
      × ((id : ℕ) (name : Bytes)
          → w.topic_names.lookup id names ≡ some name
          → (other : ℕ) × (w.topic_ids.lookup name ids ≡ some other))

  -- The two tables are made and destroyed together.
  abbrev pub ArePaired : MapPointer w.topic_ids.Table → MapPointer w.topic_names.Table → Type 0
  ArePaired null null = Unit
  ArePaired (live ids) (live names) = AreNamed ids names
  ArePaired destroyed destroyed = Unit
  ArePaired _ _ = ⊥

  pub record IsSound (c : SnClient w) : Type 0 where
    pub messages_keyed : IsKeyed c.messages_map
    pub topics_paired : ArePaired c.topic_name_map c.reverse_topic_name_map
    pub no_messager : c.threads messager ≡ false

  -- Only the tables count.
  pub IsSound-same :
      {c : SnClient w} (c' : SnClient w)
      → IsSound c
      → c'.messages_map ≡ c.messages_map
      → c'.topic_name_map ≡ c.topic_name_map
      → c'.reverse_topic_name_map ≡ c.reverse_topic_name_map
      → c'.threads messager ≡ c.threads messager
      → IsSound c'
  IsSound-same c' s em ei en et = record {
    messages_keyed = subst IsKeyed (sym em) s.messages_keyed;
    topics_paired = rw (ei, en) s.topics_paired;
    no_messager = et ∙ s.no_messager;
  }

  pub Kept-fire : (m : SnMessage) (c : SnClient w) → IsSound c → Kept IsSound (sn_fire w m c)
  unfolding sn_fire
  Kept-fire m c s =
      Kept-step (sn_encode_and_fire w.malloc m) _
        λ bytes. Kept-ok _ (IsSound-same _ s refl refl refl refl)

  IsKeyed-insert :
      (t : w.messages.Table) (e : SnEntry)
      → IsKeyOf (sn_map_key e.message) e.message
      → IsKeyed (live t)
      → IsKeyed (live (w.messages.insert (sn_map_key e.message) e t))
  IsKeyed-insert t e key keyed k e' found =
      let n = sn_map_key e.message in
      let found' = rw w.messages.lookup-insert at found in
      elim (Bool-cases (n == k)) [
        | inl same ↦
            let stored : some e ≡ some e' = rw same at found' in
            let it : e ≡ e' = cc in
            subst (λ (x : SnEntry). IsKeyOf k x.message) it
              (subst (λ j. IsKeyOf j e.message) ((==_iff n k).0 same) key)
        | inr other ↦ keyed k e' (rw other at found')
      ]

  IsKeyed-remove :
      (t : w.messages.Table) (n : ℕ) → IsKeyed (live t) → IsKeyed (live (w.messages.remove n t))
  IsKeyed-remove t n keyed k e found =
      let found' = rw w.messages.lookup-remove at found in
      elim (Bool-cases (n == k)) [
        | inl same ↦ let empty : none ≡ some e = rw same at found' in cc
        | inr other ↦ keyed k e (rw other at found')
      ]

  -- A call of the table of messages.
  Kept-messages :
      (m : MapPointer w.messages.Table) (f : w.messages.Table → Outcome (SnClient w))
      → IsKeyed m
      → ((t : w.messages.Table) → IsKeyed (live t) → Kept IsSound (f t))
      → Kept IsSound (the_table m >>= f)
  Kept-messages null f k g = Kept-fault
  Kept-messages (live t) f k g = g t k
  Kept-messages destroyed f k g = Kept-fault

  pub Kept-add :
      (now : ℕ) (m : SnMessage) (c : SnClient w)
      → IsKeyOf (sn_map_key m) m
      → IsSound c
      → Kept IsSound (sn_add_message_in_map w now m c)
  unfolding sn_add_message_in_map
  Kept-add now m c key s = Kept-messages c.messages_map _ s.messages_keyed λ t k.
      Kept-ok _ (record {
        messages_keyed = IsKeyed-insert t _ key k;
        topics_paired = s.topics_paired;
        no_messager = s.no_messager;
      })

  pub Kept-remove :
      (n : ℕ) (c : SnClient w) → IsSound c → Kept IsSound (sn_remove_message_from_map w n c)
  unfolding sn_remove_message_from_map
  Kept-remove n c s = Kept-messages c.messages_map _ s.messages_keyed λ t k. Kept-ok _ (record {
    messages_keyed = IsKeyed-remove t n k;
    topics_paired = s.topics_paired;
    no_messager = s.no_messager;
  })

  -- A handler that looks its packet id up.
  pub Kept-get :
      (n : ℕ) (c : SnClient w) (f : Option SnEntry → Outcome (SnClient w))
      → Kept IsSound (f none)
      → ((e : SnEntry) → Kept IsSound (f (some e)))
      → Kept IsSound (sn_get_message_from_map w n c >>= f)
  Kept-get n c f kn ks = Kept-step (sn_get_message_from_map w n c) f λ o. Kept-found f o kn ks

  pub AreNamed-insert :
      (name : Bytes) (id : ℕ) (ids : w.topic_ids.Table) (names : w.topic_names.Table)
      → AreNamed ids names
      → AreNamed (w.topic_ids.insert name id ids) (w.topic_names.insert id name names)
  AreNamed-insert name id ids names (to, from) = (to', from')
    where
      stored_name :
          (i : ℕ) (n : Bytes)
          → w.topic_names.lookup i names ≡ some n
          → (other : Bytes) × (w.topic_names.lookup i (w.topic_names.insert id name names)
              ≡ some other)
      stored_name i n e = elim (Bool-cases (id == i)) [
        | inl same ↦ (name, rw (w.topic_names.lookup-insert, same) refl)
        | inr different ↦ (n, rw (w.topic_names.lookup-insert, different) e)
      ]

      stored_id :
          (n : Bytes) (i : ℕ)
          → w.topic_ids.lookup n ids ≡ some i
          → (other : ℕ) × (w.topic_ids.lookup n (w.topic_ids.insert name id ids) ≡ some other)
      stored_id n i e = elim (Bool-cases (same_text name n)) [
        | inl same ↦ (id, rw (w.topic_ids.lookup-insert, same) refl)
        | inr different ↦ (i, rw (w.topic_ids.lookup-insert, different) e)
      ]

      to' :
          (n : Bytes) (i : ℕ)
          → w.topic_ids.lookup n (w.topic_ids.insert name id ids) ≡ some i
          → (other : Bytes) × (w.topic_names.lookup i (w.topic_names.insert id name names)
              ≡ some other)
      to' n i e =
          let e' = rw w.topic_ids.lookup-insert at e in
          elim (Bool-cases (same_text name n)) [
            | inl same ↦
                let stored : some id ≡ some i = rw same at e' in
                let it : id ≡ i = cc in
                (
                  name,
                  subst
                      (λ j. w.topic_names.lookup j (w.topic_names.insert id name names) ≡ some name)
                      it (lookup-insert_same w.topic_names id name names),
                )
            | inr different ↦ let (n', e'') = to n i (rw different at e') in stored_name i n' e''
          ]

      from' :
          (i : ℕ) (n : Bytes)
          → w.topic_names.lookup i (w.topic_names.insert id name names) ≡ some n
          → (other : ℕ) × (w.topic_ids.lookup n (w.topic_ids.insert name id ids) ≡ some other)
      from' i n e =
          let e' = rw w.topic_names.lookup-insert at e in
          elim (Bool-cases (id == i)) [
            | inl same ↦
                let stored : some name ≡ some n = rw same at e' in
                let it : name ≡ n = cc in
                (
                  id,
                  subst (λ m. w.topic_ids.lookup m (w.topic_ids.insert name id ids) ≡ some id) it
                      (rw (w.topic_ids.lookup-insert, same_text_refl) refl),
                )
            | inr different ↦ let (i', e'') = from i n (rw different at e') in stored_id n i' e''
          ]
